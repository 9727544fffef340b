-- ===== src/Isolation/Tracking.antt =====
-- The map of jmvcc/snapshot.cc tracks the versions of an object: what new epochs, a superseded
-- version and a retired entry make of that.
use libjmvcc.Base.{
  ℕ, ◌≤◌, ◌<◌, ◌≡◌, refl, ap, ◌∙◌, subst, List, [], ◌∷◌, ◌++◌, Option, none, some, arith, All,
  All-append, ◌⊎◌, inr, get_last?, get_last?_cons,
}
use mathlib.Core.List.{append_assoc, append-nil}
use libjmvcc.SnapshotInfo.Registry.{CleanupEntry, Entry}
use libjmvcc.SnapshotInfo.{add_cleanups, share}
use libjmvcc.SnapshotInfo.Order.{keys, share-moved}
use libjmvcc.Isolation.Placed.{Gap, newest, newest-ge, Placed, Placed-push, Placed-keys, Some}
use libjmvcc.Isolation.Pairs.{vals, in_entry, pairs, pairs-append, pairs-add_cleanups, vals-All}

-- The cleanups `ps` of an object in a map with the epochs `ks` are those of its versions, which end
-- at `ts`; no epoch is before the oldest of these versions.
abbrev pub Tracked : List ℕ → List (ℕ × ℕ) → List ℕ → Type 0
Tracked ks ps ts = (lo : ℕ) × All (λ j. lo ≤ j) ks × Placed ks lo ps ts

pub Tracked-Some :
    (ks js : List ℕ) (ps : List (ℕ × ℕ)) (ts : List ℕ)
    → Some ks js
    → Tracked ks ps ts
    → Tracked js ps ts
Tracked-Some ks js ps ts sub (lo, low, h) = (
  lo,
  sub (λ j. lo ≤ j) low,
  Placed-keys ks js lo ps ts (λ k t _ _ g. sub (λ j. (j ≤ k) ⊎ (t ≤ j)) g) h,
)

-- A newer epoch than all of the history.
pub Tracked-newer :
    (ks : List ℕ) (ps : List (ℕ × ℕ)) (ts : List ℕ) (c : ℕ)
    → newest 1 ts ≤ c
    → 1 ≤ c
    → All (λ j. 1 ≤ j) ks
    → Tracked ks ps ts
    → Tracked (ks ++ c ∷ []) ps ts
Tracked-newer ks [] [] c l b pos h = (1, All-append _ ks (c ∷ []) pos (b, tt), tt)
Tracked-newer ks (p ∷ ps) [] c l b pos (lo, low, h) = elim h [ ]
Tracked-newer ks [] (t ∷ ts) c l b pos (lo, low, h) = elim h [ ]
Tracked-newer ks (p ∷ ps) (t ∷ ts) c l b pos (lo, low, h) =
    let ge = newest-ge ks lo (p ∷ ps) (t ∷ ts) h in
    (
      lo,
      All-append _ ks (c ∷ []) low (omega (arith, l, ge), tt),
      Placed-keys ks (ks ++ c ∷ []) lo (p ∷ ps) (t ∷ ts)
          (λ k u _ m g.
            All-append (λ j. (j ≤ k) ⊎ (u ≤ j)) ks (c ∷ []) g (inr (omega (arith, l, m)), tt))
          h,
    )

-- The newest version is superseded, and its cleanup stands in the entry of epoch `k`.
pub Tracked-push :
    (ks : List ℕ) (ps : List (ℕ × ℕ)) (ts : List ℕ) (k new : ℕ)
    → newest 1 ts ≤ k
    → k < new
    → Gap ks k new
    → All (λ j. 1 ≤ j) ks
    → Tracked ks ps ts
    → Tracked ks (ps ++ (k, newest 1 ts) ∷ []) (ts ++ new ∷ [])
Tracked-push ks [] [] k new l u g pos h = (1, pos, (refl, l, u, g, tt))
Tracked-push ks (p ∷ ps) [] k new l u g pos (lo, low, h) = elim h [ ]
Tracked-push ks ps (t ∷ ts) k new l u g pos (lo, low, h) =
    (lo, low, Placed-push ks lo k new ps (t ∷ ts) h l u g)

pub Some-skip : (ks ls : List ℕ) (k : ℕ) → Some (ks ++ k ∷ ls) (ks ++ ls)
Some-skip [] ls k P h = h.1
Some-skip (j ∷ ks) ls k P h = (h.0, Some-skip ks ls k P h.1)

-- The cleanups of an object in the map that `retire` leaves.
pub retired-none :
    (q : ℕ) (b a : List Entry) (cs : List CleanupEntry)
    → vals q cs ≡ []
    → pairs q (add_cleanups b cs ++ a) ≡ pairs q b ++ pairs q a
unfolding add_cleanups
retired-none q [] a cs n = refl
retired-none q (x ∷ b) a cs n =
    let (l, h) = get_last?_cons x b in
    pairs-append q (add_cleanups (x ∷ b) cs) a
    ∙ ap (λ ps. ps ++ pairs q a)
        (pairs-add_cleanups q (x ∷ b) l cs h
          ∙ ap (λ vs. pairs q (x ∷ b) ++ in_entry l.epoch vs) n
          ∙ append-nil (pairs q (x ∷ b)))

pub retired-one :
    (q : ℕ) (b a : List Entry) (cs : List CleanupEntry) (l : Entry) (v : ℕ)
    → get_last? b ≡ some l
    → vals q cs ≡ v ∷ []
    → pairs q (add_cleanups b cs ++ a) ≡ pairs q b ++ (l.epoch, v) ∷ pairs q a
retired-one q b a cs l v h n =
    pairs-append q (add_cleanups b cs) a
    ∙ ap (λ ps. ps ++ pairs q a)
        (pairs-add_cleanups q b l cs h ∙ ap (λ vs. pairs q b ++ in_entry l.epoch vs) n)
    ∙ append_assoc (pairs q b) ((l.epoch, v) ∷ []) (pairs q a)

-- A cleanup that moves is of a version that the entry before sees.
pub share-last :
    (q v : ℕ) (prev : Option Entry) (cs : List CleanupEntry)
    → vals q (share prev cs).0 ≡ v ∷ []
    → (l : Entry) × (prev ≡ some l) × (v ≤ l.epoch)
unfolding share
share-last q v none cs h = cc
share-last q v (some l) cs h = (
  l,
  refl,
  (subst (All (λ v. v ≤ l.epoch)) h (vals-All (λ v. v ≤ l.epoch) q _ (share-moved l cs))).0,
)

pub last-All :
    (P : ℕ → Type 0) (b : List Entry) (l : Entry)
    → get_last? b ≡ some l
    → All P (keys b)
    → P l.epoch
last-All P [] l h p = cc
last-All P (x ∷ []) l h p = subst P (same h) p.0
  where
    same : some x ≡ some l → x.epoch ≡ l.epoch
    same e = cc
last-All P (x ∷ y ∷ b) l h p = last-All P (y ∷ b) l h p.1
