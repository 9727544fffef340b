-- ===== src/Isolation/Members.antt =====
-- Which snapshots stand in which entries of the map of jmvcc/snapshot.cc.
use libjmvcc.Base.{
  ℕ, ◌≡◌, ◌≢◌, refl, ap, ◌∙◌, sym, subst, true, false, List, [], ◌∷◌, ◌++◌, arith, All, ◌⊎◌, inl,
  inr, Once, contains, ◌==◌, ==→eq, ==→ne, Bool-cases,
}
use libjmvcc.SnapshotInfo.Registry.{Snapshot, CleanupEntry, Entry, set_insert, set_erase}
use libjmvcc.SnapshotInfo.{add_cleanups}
use libjmvcc.SnapshotInfo.Order.{keys}
use libjmvcc.SnapshotInfo.Compress.Renaming.{Matching}

-- The entry of epoch `k` holds the snapshot `p`.
abbrev pub Holds : ℕ → ℕ → List Entry → Type 0
Holds p k [] = ⊥
Holds p k (e ∷ es) = ((e.epoch ≡ k) × (contains p e.snapshots ≡ true)) ⊎ Holds p k es

-- No entry holds the snapshot.
abbrev pub Free : ℕ → List Entry → Type 0
Free p = All λ e. contains p e.snapshots ≡ false

-- Entries that hold the same snapshots at the same epochs.
abbrev pub Alike : List Entry → List Entry → Type 0
Alike [] [] = Unit
Alike [] (x ∷ xs) = ⊥
Alike (e ∷ es) [] = ⊥
Alike (e ∷ es) (x ∷ xs) = (x.epoch ≡ e.epoch) × (x.snapshots ≡ e.snapshots) × Alike es xs

pub Alike-refl : (es : List Entry) → Alike es es
Alike-refl [] = tt
Alike-refl (e ∷ es) = (refl, refl, Alike-refl es)

pub Alike-add_cleanups : (es : List Entry) (cs : List CleanupEntry) → Alike es (add_cleanups es cs)
unfolding add_cleanups
Alike-add_cleanups [] cs = tt
Alike-add_cleanups (e ∷ []) cs = (refl, refl, tt)
Alike-add_cleanups (e ∷ x ∷ es) cs = (refl, refl, Alike-add_cleanups (x ∷ es) cs)

pub Alike-append : (b x a : List Entry) → Alike b x → Alike (b ++ a) (x ++ a)
Alike-append [] [] a h = Alike-refl a
Alike-append [] (x ∷ xs) a h = elim h [ ]
Alike-append (e ∷ b) [] a h = elim h [ ]
Alike-append (e ∷ b) (x ∷ xs) a (p, q, h) = (p, q, Alike-append b xs a h)

pub Alike-Matching :
    (f : ℕ → Snapshot) (es xs : List Entry) → Alike es xs → Matching f es → Matching f xs
Alike-Matching f [] [] h m = tt
Alike-Matching f [] (x ∷ xs) h m = elim h [ ]
Alike-Matching f (e ∷ es) [] h m = elim h [ ]
Alike-Matching f (e ∷ es) (x ∷ xs) (p, q, h) (m, n, r) = (
  subst Once (sym q) m,
  λ s c. n s (ap (contains s) (sym q) ∙ c) ∙ sym p,
  Alike-Matching f es xs h r,
)

pub Alike-Holds : (p k : ℕ) (es xs : List Entry) → Alike es xs → Holds p k es → Holds p k xs
Alike-Holds p k [] xs h m = elim m [ ]
Alike-Holds p k (e ∷ es) [] h m = elim h [ ]
Alike-Holds p k (e ∷ es) (x ∷ xs) (a, b, h) (inl (m, n)) = inl (a ∙ m, ap (contains p) b ∙ n)
Alike-Holds p k (e ∷ es) (x ∷ xs) (a, b, h) (inr m) = inr (Alike-Holds p k es xs h m)

-- What holds of every list of snapshots.
pub Alike-All :
    (P : List ℕ → Type 0) (es xs : List Entry)
    → Alike es xs
    → All (λ e. P e.snapshots) es
    → All (λ e. P e.snapshots) xs
Alike-All P [] [] h a = tt
Alike-All P [] (x ∷ xs) h a = elim h [ ]
Alike-All P (e ∷ es) [] h a = elim h [ ]
Alike-All P (e ∷ es) (x ∷ xs) (_, q, h) (a, r) = (subst P (sym q) a, Alike-All P es xs h r)

-- The epoch of a snapshot that an entry holds is one of those of the map.
pub Holds-All : (P : ℕ → Type 0) (p k : ℕ) (es : List Entry) → Holds p k es → All P (keys es) → P k
Holds-All P p k [] m a = elim m [ ]
Holds-All P p k (e ∷ es) (inl (m, _)) a = subst P m a.0
Holds-All P p k (e ∷ es) (inr m) a = Holds-All P p k es m a.1

pub Holds-split :
    (p k : ℕ) (es : List Entry)
    → Holds p k es
    → (b : List Entry) × (e : Entry) × (a : List Entry) × (es ≡ b ++ e ∷ a)
      × (e.epoch ≡ k)
      × (contains p e.snapshots ≡ true)
Holds-split p k [] h = elim h [ ]
Holds-split p k (e ∷ es) (inl (h, c)) = ([], e, es, refl, h, c)
Holds-split p k (e ∷ es) (inr h) =
    let (b, x, a, q, r, c) = Holds-split p k es h in (e ∷ b, x, a, ap (◌∷◌ e) q, r, c)

-- Another list of snapshots in one entry, or that entry gone.
pub Holds-replace :
    (p k : ℕ) (b : List Entry) (e x : Entry) (a : List Entry)
    → x.epoch ≡ e.epoch
    → (contains p e.snapshots ≡ true → contains p x.snapshots ≡ true)
    → Holds p k (b ++ e ∷ a)
    → Holds p k (b ++ x ∷ a)
Holds-replace p k [] e x a q f (inl (h, c)) = inl (q ∙ h, f c)
Holds-replace p k [] e x a q f (inr h) = inr h
Holds-replace p k (y ∷ b) e x a q f (inl h) = inl h
Holds-replace p k (y ∷ b) e x a q f (inr h) = inr (Holds-replace p k b e x a q f h)

pub Holds-skip :
    (p k : ℕ) (b : List Entry) (e : Entry) (a : List Entry)
    → contains p e.snapshots ≡ false
    → Holds p k (b ++ e ∷ a)
    → Holds p k (b ++ a)
Holds-skip p k [] e a n (inl (_, c)) = absurd (clash n c)
  where
    clash : contains p e.snapshots ≡ false → contains p e.snapshots ≡ true → ⊥
    clash n c = cc
Holds-skip p k [] e a n (inr h) = h
Holds-skip p k (y ∷ b) e a n (inl h) = inl h
Holds-skip p k (y ∷ b) e a n (inr h) = inr (Holds-skip p k b e a n h)

pub Holds-left : (p k : ℕ) (b a : List Entry) → Holds p k b → Holds p k (b ++ a)
Holds-left p k [] a h = elim h [ ]
Holds-left p k (e ∷ b) a (inl h) = inl h
Holds-left p k (e ∷ b) a (inr h) = inr (Holds-left p k b a h)

pub Holds-right : (p k : ℕ) (b a : List Entry) → Holds p k a → Holds p k (b ++ a)
Holds-right p k [] a h = h
Holds-right p k (e ∷ b) a h = inr (Holds-right p k b a h)

pub Matching-append :
    (f : ℕ → Snapshot) (b a : List Entry) → Matching f b → Matching f a → Matching f (b ++ a)
Matching-append f [] a m n = n
Matching-append f (e ∷ b) a (m, k, r) n = (m, k, Matching-append f b a r n)

pub Matching-parts :
    (f : ℕ → Snapshot) (b a : List Entry) → Matching f (b ++ a) → Matching f b × Matching f a
Matching-parts f [] a m = (tt, m)
Matching-parts f (e ∷ b) a (m, k, r) = let (x, y) = Matching-parts f b a r in ((m, k, x), y)

-- The snapshots of the entries have the same epochs.
pub Matching-epochs :
    (f g : ℕ → Snapshot) (p : ℕ) (es : List Entry)
    → ((r : ℕ) → r ≢ p → (g r).epoch ≡ (f r).epoch)
    → ((g p).epoch ≡ (f p).epoch) ⊎ Free p es
    → Matching f es
    → Matching g es
Matching-epochs f g p [] other same m = tt
Matching-epochs f g p (e ∷ es) other same (m, k, r) = (
  m,
  λ s c. elim (Bool-cases (s == p)) [
    | inl h ↦ elim same [
      | inl q ↦ subst (λ p. (g p).epoch ≡ (f p).epoch) (sym (==→eq s p h)) q ∙ k s c
      | inr q ↦ absurd (clash (ap (λ s. contains s e.snapshots) (sym (==→eq s p h)) ∙ c) q.0)
    ]
    | inr h ↦ other s (==→ne s p h) ∙ k s c
  ],
  Matching-epochs f g p es other (elim same [ inl q ↦ inl q | inr q ↦ inr q.1 ]) r,
)
  where
    clash : contains p e.snapshots ≡ true → contains p e.snapshots ≡ false → ⊥
    clash c n = cc

-- A snapshot of one epoch stands in no entry of another.
pub Free-apart :
    (f : ℕ → Snapshot) (p : ℕ) (es : List Entry)
    → All (λ j. j ≢ (f p).epoch) (keys es)
    → Matching f es
    → Free p es
Free-apart f p [] d m = tt
Free-apart f p (e ∷ es) d (m, k, r) = (
  elim (Bool-cases (contains p e.snapshots)) [ inl c ↦ absurd (d.0 (sym (k p c))) | inr n ↦ n ],
  Free-apart f p es d.1 r,
)

pub contains-erase : (r p : ℕ) (ps : List ℕ) → r ≢ p → contains r (set_erase p ps) ≡ contains r ps
unfolding set_erase
contains-erase r p [] d = refl
contains-erase r p (q ∷ ps) d = ground (arith, contains-erase r p ps d)

pub erase-Once :
    (p : ℕ) (ps : List ℕ) → Once ps → Once (set_erase p ps) × (contains p (set_erase p ps) ≡ false)
unfolding set_erase
erase-Once p [] o = (tt, refl)
erase-Once p (q ∷ ps) o = elim (Bool-cases (p == q)) [
  | inl h ↦ rw h (o.1, subst (λ p. contains p ps ≡ false) (sym (==→eq p q h)) o.0)
  | inr h ↦
      let (a, b) = erase-Once p ps o.1 in
      let ne : q ≢ p = λ e. ==→ne p q h (sym e) in
      rw h ((contains-erase q p ps ne ∙ o.0, a), ground (arith, h, b))
]

pub insert-Once : (p : ℕ) (ps : List ℕ) → Once ps → Once (set_insert p ps)
unfolding set_insert
insert-Once p ps o = elim (Bool-cases (contains p ps)) [ inl h ↦ rw h o | inr h ↦ rw h (h, o) ]

pub contains-insert_cases :
    (r p : ℕ) (ps : List ℕ) → contains r (set_insert p ps) ≡ true → (r ≡ p) ⊎ (contains r ps ≡ true)
unfolding set_insert
contains-insert_cases r p ps c = ground (arith, c)

pub contains-insert_other :
    (r p : ℕ) (ps : List ℕ) → contains r ps ≡ true → contains r (set_insert p ps) ≡ true
unfolding set_insert
contains-insert_other r p ps c = ground (arith, c)
