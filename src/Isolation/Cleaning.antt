-- ===== src/Isolation/Cleaning.antt =====
-- One object under `perform_cleanup` of jmvcc/snapshot.cc: a version of it is cleaned up, or the
-- cleanup moves to the entry before, or the object is left alone.
use libjmvcc.Base.{
  ℕ, ◌≤◌, ◌<◌, ◌≡◌, refl, sym, subst, List, [], ◌∷◌, ◌++◌, some, arith, All, All-imp, All-append,
  ◌⊎◌, inl, inr, get_last?, ok,
}
use libjmvcc.VersionedObject.{VersionedObject}
use libjmvcc.SnapshotInfo.Registry.{CleanupEntry, Entry}
use libjmvcc.SnapshotInfo.{add_cleanups, share}
use libjmvcc.SnapshotInfo.Order.{keys, Sorted, Sorted-split, Sorted-last, Sorted-lt}
use libjmvcc.Isolation.Placed.{
  newest, newest-ge, newest-mid, Placed, Placed-apart, Placed-move, Placed-clean, Cleaned, Past,
}
use libjmvcc.Isolation.Pairs.{
  vals, in_entry, pairs, pairs-append, vals-All, share-vals_none, share-vals_one,
}
use libjmvcc.Isolation.Laws.{Laws}
use libjmvcc.Isolation.Tracking.{
  Tracked, Tracked-Some, Some-skip, retired-none, retired-one, share-last, last-All,
}

module _ (V : VersionedObject) (L : Laws V) where
  open V use {Object}
  open L use {ends, read, Valid}

  -- Every snapshot at one of the epochs reads the same.
  abbrev pub Kept : List ℕ → Object → Object → Type 0
  Kept js o x = All (λ j. read x j ≡ read o j) js

  pub Kept-refl : (js : List ℕ) (o : Object) → Kept js o o
  Kept-refl [] o = tt
  Kept-refl (j ∷ js) o = (refl, Kept-refl js o)

  -- The object after the cleanups, of which there is at most one.
  abbrev pub Due : Object → List ℕ → Object → Type 0
  Due o [] x = x ≡ o
  Due o (v ∷ []) x = V.cleanup o v ≡ ok x
  Due o (v ∷ w ∷ vs) x = ⊥

  Cleaned-Due :
      (c : ℕ) (o : Object) (js : List ℕ) (lo v : ℕ) (ps : List (ℕ × ℕ))
      → Valid c o
      → All (λ j. 1 ≤ j) js
      → All (λ j. lo ≤ j) js
      → 1 ≤ c
      → Cleaned js lo v ps (ends o)
      → (x : Object) × Due o (v ∷ []) x × Valid c x × Tracked js ps (ends x) × Kept (c ∷ js) o x
  Cleaned-Due c o js lo v ps ok_o pos low started (inl (t, es, e, l, above, h)) =
      let (x, run, good, after, reads) = L.cleans_first c o v t es ok_o e l in
      let bound : newest t es ≤ c =
        subst (λ ts. newest 1 ts ≤ c) e (L.ends_bound c o started ok_o) in
      (
        x,
        run,
        good,
        (t, above, subst (Placed js t ps) (sym after) h),
        (
          reads c (omega (arith, bound, newest-ge js t ps es h)),
          All-imp (λ j. t ≤ j) (λ j. read x j ≡ read o j) js reads above,
        ),
      )
  Cleaned-Due c o js lo v ps ok_o pos low started (inr (bs, t, es, e, past, h)) =
      let (x, run, good, after, reads) = L.cleans_later c o bs v t es ok_o e in
      let bound : newest 1 (bs ++ t ∷ es) ≤ c =
        subst (λ ts. newest 1 ts ≤ c) after (L.ends_bound c x started good) in
      (
        x,
        run,
        good,
        (lo, low, subst (Placed js lo ps) (sym after) h),
        (
          reads c started (inr (omega (arith, bound, newest-mid js lo 1 ps bs t es h))),
          both x t reads js pos past,
        ),
      )
    where
      both :
          (x : Object) (t : ℕ)
          → ((j : ℕ) → 1 ≤ j → (j < v) ⊎ (t ≤ j) → read x j ≡ read o j)
          → (js : List ℕ) → All (λ j. 1 ≤ j) js
          → Past js v t
          → Kept js o x
      both x t reads [] p q = tt
      both x t reads (j ∷ js) p q = (reads j p.0 q.0, both x t reads js p.1 q.1)

  -- The epochs of the map before and after the entry goes.
  abbrev pub all_keys : List Entry → Entry → List Entry → List ℕ
  all_keys b e a = keys b ++ e.epoch ∷ keys a

  abbrev pub kept_keys : List Entry → List Entry → List ℕ
  kept_keys b a = keys b ++ keys a

  -- What `perform_cleanup` does to an object, whose cleanups in the map are then `ps`.
  abbrev pub Handled : ℕ → List ℕ → List (ℕ × ℕ) → List ℕ → Object → Type 0
  Handled c js ps vs o =
      (x : Object) × Due o vs x × Valid c x × Tracked js ps (ends x) × Kept (c ∷ js) o x

  module _ (c : ℕ) (o : Object) (q : ℕ) (b : List Entry) (e : Entry) (a : List Entry) (lo : ℕ)
      (sorted : Sorted lo (all_keys b e a)) (pos : All (λ j. 1 ≤ j) (kept_keys b a))
      (ok_o : Valid c o) (started : 1 ≤ c) (moved obsolete : List CleanupEntry) where
    untouched :
        Tracked (all_keys b e a) (pairs q b ++ pairs q a) (ends o)
        → vals q moved ≡ []
        → vals q obsolete ≡ []
        → Handled c (kept_keys b a) (pairs q (add_cleanups b moved ++ a)) (vals q obsolete) o
    untouched h x y = (
      o,
      subst (λ vs. Due o vs o) (sym y) refl,
      ok_o,
      Tracked-Some (all_keys b e a) (kept_keys b a) _ _ (Some-skip (keys b) (keys a) e.epoch)
          (subst (λ ps. Tracked (all_keys b e a) ps (ends o)) (sym (retired-none q b a moved x)) h),
      Kept-refl (c ∷ kept_keys b a) o,
    )

    cleaned_up :
        (v : ℕ)
        → Tracked (all_keys b e a) (pairs q b ++ (e.epoch, v) ∷ pairs q a) (ends o)
        → vals q moved ≡ []
        → vals q obsolete ≡ v ∷ []
        → All (λ j. (j < v) ⊎ (e.epoch < j)) (kept_keys b a)
        → Handled c (kept_keys b a) (pairs q (add_cleanups b moved ++ a)) (vals q obsolete) o
    cleaned_up v (lo', low, h) x y out =
        let sub = Some-skip (keys b) (keys a) e.epoch in
        let (z, due, good, track, kept) =
          Cleaned-Due c o (kept_keys b a) lo' v (pairs q b ++ pairs q a) ok_o pos
            (sub (λ j. lo' ≤ j) low) started
            (Placed-clean (all_keys b e a) (kept_keys b a) lo' e.epoch v (pairs q b) (pairs q a)
              (ends o) sub low out h) in
        (
          z,
          subst (λ vs. Due o vs z) (sym y) due,
          good,
          subst (λ ps. Tracked (kept_keys b a) ps (ends z)) (sym (retired-none q b a moved x))
              track,
          kept,
        )

    moved_down :
        (v : ℕ) (l : Entry)
        → Tracked (all_keys b e a) (pairs q b ++ (e.epoch, v) ∷ pairs q a) (ends o)
        → get_last? b ≡ some l
        → v ≤ l.epoch
        → vals q moved ≡ v ∷ []
        → vals q obsolete ≡ []
        → Handled c (kept_keys b a) (pairs q (add_cleanups b moved ++ a)) (vals q obsolete) o
    moved_down v l (lo', low, h) last le x y =
        let sub = Some-skip (keys b) (keys a) e.epoch in
        let (_, left, before, right) = Sorted-split lo e.epoch (keys b) (keys a) sorted in
        let under : All (λ j. j ≤ l.epoch) (keys b) = Sorted-last lo b l left last in
        let nearer : All (λ j. (j ≤ l.epoch) ⊎ (e.epoch < j)) (kept_keys b a) =
          All-append _ (keys b) (keys a) (All-imp _ _ (keys b) (λ j p. inl p) under)
            (All-imp _ _ (keys a) (λ j p. inr p) (Sorted-lt e.epoch (keys a) right)) in
        (
          o,
          subst (λ vs. Due o vs o) (sym y) refl,
          ok_o,
          subst (λ ps. Tracked (kept_keys b a) ps (ends o))
              (sym (retired-one q b a moved l v last x))
              (
                lo',
                sub (λ j. lo' ≤ j) low,
                Placed-move (all_keys b e a) (kept_keys b a) lo' e.epoch l.epoch v (pairs q b)
                    (pairs q a) (ends o) sub le (last-All (λ j. j < e.epoch) b l last before) nearer
                    h,
              ),
          Kept-refl (c ∷ kept_keys b a) o,
        )

  -- Every object that the map tracks, when an entry is retired: its cleanups that are due succeed,
  -- the map tracks what is left, and the epochs that are left see what they
  -- saw, as does the current one.
  pub retire-Handled :
      (c : ℕ) (o : Object) (q : ℕ) (b : List Entry) (e : Entry) (a : List Entry) (lo : ℕ)
      → Sorted lo (all_keys b e a)
      → All (λ j. 1 ≤ j) (kept_keys b a)
      → Valid c o
      → 1 ≤ c
      → Tracked (all_keys b e a) (pairs q (b ++ e ∷ a)) (ends o)
      → All
          (λ d. All (λ j. (j < d.valid_from) ⊎ (e.epoch < j)) (kept_keys b a))
          (share (get_last? b) e.cleanups).1
      → let (moved, obsolete) = share (get_last? b) e.cleanups in
        Handled c (kept_keys b a) (pairs q (add_cleanups b moved ++ a)) (vals q obsolete) o
  retire-Handled c o q b e a lo sorted pos ok_o started h unseen =
      by_number (vals q e.cleanups) refl
        (subst (λ ps. Tracked (all_keys b e a) ps (ends o)) (pairs-append q b (e ∷ a)) h)
    where
      moved : List CleanupEntry
      moved = (share (get_last? b) e.cleanups).0

      obsolete : List CleanupEntry
      obsolete = (share (get_last? b) e.cleanups).1

      by_number :
          (vs : List ℕ)
          → vals q e.cleanups ≡ vs
          → Tracked (all_keys b e a) (pairs q b ++ (in_entry e.epoch vs ++ pairs q a)) (ends o)
          → Handled c (kept_keys b a) (pairs q (add_cleanups b moved ++ a)) (vals q obsolete) o
      by_number [] n t =
          let (x, y) = share-vals_none q (get_last? b) e.cleanups n in
          untouched c o q b e a lo sorted pos ok_o started moved obsolete t x y
      by_number (v ∷ w ∷ vs) n (lo', low, t) =
          absurd (Placed-apart _ lo' e.epoch v w (pairs q b) _ (ends o) t)
      by_number (v ∷ []) n t = elim (share-vals_one q v (get_last? b) e.cleanups n) [
        | inl (x, y) ↦
            let (l, last, le) = share-last q v (get_last? b) e.cleanups x in
            moved_down c o q b e a lo sorted pos ok_o started moved obsolete v l t last le x y
        | inr (x, y) ↦
            let out =
              vals-All (λ v. All (λ j. (j < v) ⊎ (e.epoch < j)) (kept_keys b a)) q obsolete
                unseen in
            cleaned_up c o q b e a lo sorted pos ok_o started moved obsolete v t x y
              (subst (All (λ v. All (λ j. (j < v) ⊎ (e.epoch < j)) (kept_keys b a))) y out).0
      ]
