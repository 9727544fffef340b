-- ===== src/SnapshotInfo/Order.antt =====
-- The keys of the map of jmvcc/snapshot.cc, in their order, and the cleanups in its entries.
use libjmvcc.Base.{
  ==-self, ne→==, le→ltb, subst, ℕ, suc, ◌+◌, ◌≤◌, ◌<◌, ◌≡◌, refl, ap, List, [], ◌∷◌, ◌++◌, Option,
  none, some, arith, All, total, total-append, map, get_last?, leb, ◌⊎◌, inl, inr, ==→eq, ==→ne,
  Bool-cases, ◌==◌,
}
use libjmvcc.SnapshotInfo.Registry.{CleanupEntry, Entry, set_insert}
use libjmvcc.SnapshotInfo.{find, insert_snapshot, add_cleanups, share}

abbrev pub keys : List Entry → List ℕ
keys = map λ e. e.epoch

-- Strictly increasing, from `lo` on.
abbrev pub Sorted : ℕ → List ℕ → Type 0
Sorted lo [] = Unit
Sorted lo (k ∷ ks) = (lo ≤ k) × Sorted (suc k) ks

-- All that the entries hold for cleanup, weighed.
abbrev pub pending : (CleanupEntry → ℕ) → List Entry → ℕ
pending w [] = 0
pending w (e ∷ es) = total w e.cleanups + pending w es

pub keys-append : (b a : List Entry) → keys (b ++ a) ≡ keys b ++ keys a
keys-append [] a = refl
keys-append (e ∷ es) a = ap (◌∷◌ e.epoch) (keys-append es a)

pub pending-append :
    (w : CleanupEntry → ℕ) (b a : List Entry) → pending w (b ++ a) ≡ pending w b + pending w a
pending-append w [] a = omega arith
pending-append w (e ∷ es) a = omega (arith, pending-append w es a)

pub keys-add_cleanups :
    (es : List Entry) (cs : List CleanupEntry) → keys (add_cleanups es cs) ≡ keys es
unfolding add_cleanups
keys-add_cleanups [] cs = refl
keys-add_cleanups (e ∷ []) cs = refl
keys-add_cleanups (e ∷ x ∷ es) cs = ap (◌∷◌ e.epoch) (keys-add_cleanups (x ∷ es) cs)

pub pending-add_cleanups :
    (w : CleanupEntry → ℕ) (e : Entry) (es : List Entry) (cs : List CleanupEntry)
    → pending w (add_cleanups (e ∷ es) cs) ≡ pending w (e ∷ es) + total w cs
unfolding add_cleanups
pending-add_cleanups w e [] cs = omega (arith, total-append w e.cleanups cs)
pending-add_cleanups w e (x ∷ es) cs = omega (arith, pending-add_cleanups w x es cs)

pub Sorted-mono : (lo lo' : ℕ) (ks : List ℕ) → lo ≤ lo' → Sorted lo' ks → Sorted lo ks
Sorted-mono lo lo' [] q s = tt
Sorted-mono lo lo' (k ∷ ks) q s = (omega arith, s.1)

-- The parts of a sorted list round one key.
pub Sorted-split :
    (lo k : ℕ) (ks ls : List ℕ)
    → Sorted lo (ks ++ k ∷ ls)
    → (lo ≤ k) × Sorted lo ks × All (λ j. j < k) ks × Sorted (suc k) ls
Sorted-split lo k [] ls s = (s.0, tt, tt, s.1)
Sorted-split lo k (j ∷ ks) ls s =
    let (p, q, r, t) = Sorted-split (suc j) k ks ls s.1 in
    (omega arith, (s.0, q), (omega arith, r), t)

pub Sorted-join :
    (lo k : ℕ) (ks ls : List ℕ)
    → lo ≤ k
    → Sorted lo ks
    → All (λ j. j < k) ks
    → Sorted k ls
    → Sorted lo (ks ++ ls)
Sorted-join lo k [] ls p s q t = Sorted-mono lo k ls p t
Sorted-join lo k (j ∷ ks) ls p s q t = (s.0, Sorted-join (suc j) k ks ls q.0 s.1 q.1 t)

pub Sorted-lt : (lo : ℕ) (ks : List ℕ) → Sorted (suc lo) ks → All (λ j. lo < j) ks
Sorted-lt lo [] s = tt
Sorted-lt lo (k ∷ ks) s = (s.0, Sorted-lt lo ks (Sorted-mono (suc lo) (suc k) ks (omega arith) s.1))

-- The last entry has the greatest key.
pub Sorted-last :
    (lo : ℕ) (es : List Entry) (p : Entry)
    → Sorted lo (keys es)
    → get_last? es ≡ some p
    → All (λ j. j ≤ p.epoch) (keys es)
Sorted-last lo [] p s q = tt
Sorted-last lo (e ∷ []) p s q = ground arith
Sorted-last lo (e ∷ x ∷ es) p s q =
    let ih = Sorted-last (suc e.epoch) (x ∷ es) p s.1 q in (omega (arith, ih.0), ih)

-- Taking the cleanups apart by the epoch of the previous snapshot.
pub share-total :
    (w : CleanupEntry → ℕ) (prev : Option Entry) (cs : List CleanupEntry)
    → total w (share prev cs).0 + total w (share prev cs).1 ≡ total w cs
unfolding share
share-total w none cs = omega arith
share-total w (some p) [] = omega arith
share-total w (some p) (c ∷ cs) = ground (arith, share-total w (some p) cs)

pub share-moved :
    (p : Entry) (cs : List CleanupEntry) → All (λ c. c.valid_from ≤ p.epoch) (share (some p) cs).0
unfolding share
share-moved p [] = tt
share-moved p (c ∷ cs) = elim (Bool-cases (leb c.valid_from p.epoch)) [
  | inl e ↦ rw e (ground arith, share-moved p cs)
  | inr e ↦ rw e (share-moved p cs)
]

pub share-obsolete :
    (p : Entry) (cs : List CleanupEntry) → All (λ c. p.epoch < c.valid_from) (share (some p) cs).1
unfolding share
share-obsolete p [] = tt
share-obsolete p (c ∷ cs) = elim (Bool-cases (leb c.valid_from p.epoch)) [
  | inl e ↦ rw e (share-obsolete p cs)
  | inr e ↦ rw e (ground arith, share-obsolete p cs)
]

-- `find` cuts a sorted map at the entry with the key.
pub find-split :
    (lo : ℕ) (b : List Entry) (e : Entry) (a : List Entry)
    → Sorted lo (keys (b ++ e ∷ a))
    → find e.epoch (b ++ e ∷ a) ≡ some (b, e, a)
unfolding find
find-split lo [] e a s = rw (==-self e.epoch)
find-split lo (x ∷ b) e a s =
    let (p, _, q, _) =
      Sorted-split lo e.epoch (keys (x ∷ b)) (keys a)
        (subst (Sorted lo) (keys-append (x ∷ b) (e ∷ a)) s) in
    rw (ne→== x.epoch e.epoch (omega (arith, q.0))) (
      ap (λ o. elim o [ none ↦ none | some (b', x', a') ↦ some (x ∷ b', x', a') ])
        (find-split (suc x.epoch) b e a s.1))

-- A new epoch goes to the end of the map.
pub insert_snapshot-new :
    (epoch p : ℕ) (es : List Entry)
    → All (λ j. j < epoch) (keys es)
    → insert_snapshot epoch p es
      ≡ es ++ record { epoch = epoch; snapshots = p ∷ []; cleanups = [] } ∷ []
unfolding insert_snapshot
insert_snapshot-new epoch p [] q = refl
insert_snapshot-new epoch p (e ∷ es) q = rw (
  ne→== e.epoch epoch (omega (arith, q.0)),
  le→ltb epoch e.epoch (omega (arith, q.0)),
  insert_snapshot-new epoch p es q.1,
)

pub insert_snapshot-last :
    (p : ℕ) (b : List Entry) (e : Entry)
    → All (λ j. j < e.epoch) (keys b)
    → insert_snapshot e.epoch p (b ++ e ∷ [])
      ≡ b ++ record e { snapshots = set_insert p e.snapshots } ∷ []
unfolding insert_snapshot
insert_snapshot-last p [] e q = rw (==-self e.epoch)
insert_snapshot-last p (x ∷ b) e q = rw (
  ne→== x.epoch e.epoch (omega (arith, q.0)),
  le→ltb e.epoch x.epoch (omega (arith, q.0)),
  insert_snapshot-last p b e q.1,
)

-- Either the last entry is that of the epoch, or all are earlier.
pub last-cases :
    (lo epoch : ℕ) (es : List Entry)
    → Sorted lo (keys es)
    → All (λ j. j ≤ epoch) (keys es)
    → All (λ j. j < epoch) (keys es)
      ⊎ ((b : List Entry) × (e : Entry) × (es ≡ b ++ e ∷ [])
          × (e.epoch ≡ epoch)
          × All (λ j. j < epoch) (keys b))
last-cases lo epoch [] s u = inl tt
last-cases lo epoch (e ∷ []) s u = elim (Bool-cases (e.epoch == epoch)) [
  | inl q ↦ inr ([], e, refl, ==→eq _ _ q, tt)
  | inr q ↦ inl (omega (arith, ==→ne e.epoch epoch q, u.0), tt)
]
last-cases lo epoch (e ∷ x ∷ es) s u = elim (last-cases (suc e.epoch) epoch (x ∷ es) s.1 u.1) [
  | inl q ↦ inl (omega (arith, q.0, s.1.0), q)
  | inr (b, l, p, q, r) ↦ inr (e ∷ b, l, ap (◌∷◌ e) p, q, (omega (arith, s.1.0, u.1.0), r))
]
