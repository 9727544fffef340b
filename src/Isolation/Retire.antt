-- ===== src/Isolation/Retire.antt =====
-- `perform_cleanup` of jmvcc/snapshot.cc on the map and the objects together.
use libjmvcc.Base.{
  ℕ, ◌≤◌, ◌≡◌, refl, ap, ◌∙◌, sym, subst, List, [], ◌∷◌, ◌++◌, ok, ok_inj, All, get_last?, update,
  update-same, update-other, ◌==◌, ==→eq, ==→ne, ==-self, Bool-cases, inl, inr, true, false, ◌⊎◌,
  ◌<◌,
}
use libjmvcc.VersionedObject.{VersionedObject}
use libjmvcc.SnapshotInfo.Registry.{State, CleanupEntry, Entry}
use libjmvcc.SnapshotInfo.{add_cleanups, share, run_cleanups, perform_cleanup}
use libjmvcc.SnapshotInfo.Order.{keys, Sorted, keys-append}
use libjmvcc.SnapshotInfo.Retire.{IsOrdered, Unseen, retire-Retired, retire_parts}
use libjmvcc.SnapshotInfo.Remove.{perform_cleanup-retire}
use libjmvcc.Isolation.Placed.{Some}
use libjmvcc.Isolation.Pairs.{vals, pairs}
use libjmvcc.Isolation.Laws.{Laws}
use libjmvcc.Isolation.Tracking.{Tracked, Some-skip}
use libjmvcc.Isolation.Cleaning.{Kept, Due, Handled, all_keys, kept_keys, retire-Handled}

vals-here :
    (c : CleanupEntry) (cs : List CleanupEntry) (q : ℕ)
    → c.object ≡ q
    → vals q (c ∷ cs) ≡ c.valid_from ∷ vals q cs
vals-here c cs q e = let h : (c.object == q) ≡ true = ap (λ k. k == q) e ∙ ==-self q in rw h

vals-other :
    (c : CleanupEntry) (cs : List CleanupEntry) (q : ℕ)
    → (c.object == q) ≡ false
    → vals q (c ∷ cs) ≡ vals q cs
vals-other c cs q h = rw h

module _ (V : VersionedObject) (L : Laws V) where
  open V use {Object}
  open L use {ends, read, Valid}

  -- The map is in order, and tracks every object.
  pub record Consistent (s : State Object) : Type 0 where
    pub ordered : IsOrdered s
    pub positive : All (λ j. 1 ≤ j) (keys s.entries)
    pub valid : (q : ℕ) → Valid s.current_epoch (s.object q)
    pub tracked : (q : ℕ) → Tracked (keys s.entries) (pairs q s.entries) (ends (s.object q))

  alone : (o : Object) (v : ℕ) (vs : List ℕ) (x : Object) → Due V L o (v ∷ vs) x → vs ≡ []
  alone o v [] x d = refl
  alone o v (w ∷ vs) x d = elim d [ ]

  -- The cleanups that are due, each of another object, run once each.
  run_cleanups-each :
      (s : State Object) (cs : List CleanupEntry)
      → ((q : ℕ) → (x : Object) × Due V L (s.object q) (vals q cs) x)
      → (h : ℕ → Object) × (run_cleanups V s cs ≡ ok (record s { object = h }))
        × ((q : ℕ) → Due V L (s.object q) (vals q cs) (h q))
  unfolding run_cleanups
  run_cleanups-each s [] each = (s.object, refl, λ q. refl)
  run_cleanups-each s (c ∷ cs) each =
      let k = c.object in
      let (x, due) =
        subst (λ vs. (x : Object) × Due V L (s.object k) vs x) (vals-here c cs k refl) (each k) in
      let none : vals k cs ≡ [] = alone (s.object k) c.valid_from (vals k cs) x due in
      let cleaned : V.cleanup (s.object k) c.valid_from ≡ ok x =
        subst (λ vs. Due V L (s.object k) (c.valid_from ∷ vs) x) none due in
      let f = update s.object k x in
      let away : (q : ℕ) → (k == q) ≡ false → f q ≡ s.object q =
        λ q n. update-other s.object k q x (λ e. ==→ne k q n (sym e)) in
      let (h, run, after) =
        run_cleanups-each (record s { object = f }) cs
          (λ q. elim (Bool-cases (k == q)) [
            | inl n ↦ (
              f q,
              subst (λ vs. Due V L (f q) vs (f q))
                  (sym (subst (λ q. vals q cs ≡ []) (==→eq k q n) none)) refl,
            )
            | inr n ↦
                let (y, d) = each q in
                (
                  y,
                  subst (λ o. Due V L o (vals q cs) y) (sym (away q n))
                      (subst (λ vs. Due V L (s.object q) vs y) (vals-other c cs q n) d),
                )
          ]) in
      let final : h k ≡ x =
        subst (λ vs. Due V L (f k) vs (h k)) none (after k) ∙ update-same s.object k x in
      (
        h,
        rw cleaned run,
        λ q. elim (Bool-cases (k == q)) [
          | inl n ↦
              subst (λ q. Due V L (s.object q) (vals q (c ∷ cs)) (h q)) (==→eq k q n)
                (subst (λ vs. Due V L (s.object k) vs (h k)) (sym (vals-here c cs k refl))
                  (subst (λ vs. Due V L (s.object k) (c.valid_from ∷ vs) (h k)) (sym none)
                    (cleaned ∙ ap ok (sym final))))
          | inr n ↦
              subst (λ vs. Due V L (s.object q) vs (h q)) (sym (vals-other c cs q n))
                (subst (λ o. Due V L o (vals q cs) (h q)) (away q n) (after q))
        ],
      )

  -- The state `u`, in which the map holds the entries `es`, is consistent, and every snapshot at an
  -- epoch of its map, or the current one, reads of every object what it read in `s`.
  pub record Preserved (s u : State Object) (es : List Entry) : Type 0 where
    pub same_epoch : u.current_epoch ≡ s.current_epoch
    pub same_snapshots : u.snapshot ≡ s.snapshot
    pub new_entries : u.entries ≡ es
    pub consistent : Consistent u
    pub reads : (q : ℕ) → Kept V L (keys u.entries) (s.object q) (u.object q)
    pub latest : (q : ℕ) → read (u.object q) s.current_epoch ≡ read (s.object q) s.current_epoch

  Due-unique : (o : Object) (vs : List ℕ) (x y : Object) → Due V L o vs x → Due V L o vs y → x ≡ y
  Due-unique o [] x y p q = p ∙ sym q
  Due-unique o (v ∷ []) x y p q = ok_inj x y (sym p ∙ q)
  Due-unique o (v ∷ w ∷ vs) x y p q = elim p [ ]

  Handled-at :
      (c : ℕ) (js : List ℕ) (ps : List (ℕ × ℕ)) (vs : List ℕ) (o y : Object)
      → Handled V L c js ps vs o
      → Due V L o vs y
      → Valid c y × Tracked js ps (ends y) × Kept V L (c ∷ js) o y
  Handled-at c js ps vs o y (x, due, good, track, kept) d =
      subst (λ y. Valid c y × Tracked js ps (ends y) × Kept V L (c ∷ js) o y)
        (Due-unique o vs x y due d) (good, track, kept)

  Unseen-All :
      (e : Entry) (es : List Entry) (js : List ℕ) (cs ds : List CleanupEntry)
      → keys es ≡ js
      → cs ≡ ds
      → All (Unseen es e.epoch) cs
      → All (λ d. All (λ j. (j < d.valid_from) ⊎ (e.epoch < j)) js) ds
  Unseen-All e es js cs ds p r u =
      subst (All (λ d. All (λ j. (j < d.valid_from) ⊎ (e.epoch < j)) js)) r
        (subst (λ js. All (λ d. All (λ j. (j < d.valid_from) ⊎ (e.epoch < j)) js) cs) p u)

  pub perform_cleanup-Preserved :
      (s : State Object) (b : List Entry) (e : Entry) (a : List Entry)
      → Consistent s
      → 1 ≤ s.current_epoch
      → s.entries ≡ b ++ e ∷ a
      → e.snapshots ≡ []
      → (u : State Object) × (perform_cleanup V s b e a ≡ ok u)
        × Preserved s u (add_cleanups b (share (get_last? b) e.cleanups).0 ++ a)
  perform_cleanup-Preserved s b e a k started p n =
      let (t, obsolete, run, r) = retire-Retired V s b e a k.ordered p n in
      let (same_o, same_s, es, obs) = retire_parts V s b e a t obsolete run in
      let moved = (share (get_last? b) e.cleanups).0 in
      let old : keys s.entries ≡ all_keys V L b e a = ap keys p ∙ keys-append b (e ∷ a) in
      let sub : Some (keys s.entries) (kept_keys V L b a) =
        subst (λ ks. Some ks (kept_keys V L b a)) (sym old) (Some-skip (keys b) (keys a) e.epoch) in
      let pos = sub (λ j. 1 ≤ j) k.positive in
      let each : (q : ℕ)
          → Handled V L s.current_epoch (kept_keys V L b a) (pairs q (add_cleanups b moved ++ a))
              (vals q (share (get_last? b) e.cleanups).1) (s.object q) =
        λ q.
          retire-Handled V L s.current_epoch (s.object q) q b e a s.earliest_epoch
            (subst (Sorted s.earliest_epoch) old k.ordered.sorted) pos (k.valid q) started
            (subst (λ ks. Tracked ks (pairs q (b ++ e ∷ a)) (ends (s.object q))) old
              (subst (λ es. Tracked (keys s.entries) (pairs q es) (ends (s.object q))) p
                (k.tracked q)))
            (Unseen-All e t.entries (kept_keys V L b a) obsolete _ r.kept obs r.unseen) in
      let to : (q : ℕ) (x : Object)
          → Due V L (s.object q) (vals q (share (get_last? b) e.cleanups).1) x
          → Due V L (t.object q) (vals q obsolete) x =
        λ q x d.
          subst (λ f. Due V L (f q) (vals q obsolete) x) (sym same_o)
            (subst (λ cs. Due V L (s.object q) (vals q cs) x) (sym obs) d) in
      let (h, run2, after) =
        run_cleanups-each t obsolete (λ q. ((each q).0, to q (each q).0 (each q).1)) in
      let u = record t { object = h } in
      let done : (q : ℕ)
          → Valid s.current_epoch (h q)
            × Tracked (kept_keys V L b a) (pairs q (add_cleanups b moved ++ a)) (ends (h q))
            × Kept V L (s.current_epoch ∷ kept_keys V L b a) (s.object q) (h q) =
        λ q. Handled-at s.current_epoch (kept_keys V L b a) _ _ (s.object q) (h q) (each q) (
          subst (λ cs. Due V L (s.object q) (vals q cs) (h q)) obs
            (subst (λ f. Due V L (f q) (vals q obsolete) (h q)) same_o (after q))) in
      (
        u,
        perform_cleanup-retire V s t b e a obsolete run ∙ run2,
        record {
          same_epoch = r.same_epoch;
          same_snapshots = same_s;
          new_entries = es;
          consistent = record {
            ordered = record {
              sorted = r.ordered.sorted;
              recent = r.ordered.recent;
              bounds = r.ordered.bounds;
            };
            positive = subst (All (λ j. 1 ≤ j)) (sym r.kept) pos;
            valid = λ q. subst (λ c. Valid c (h q)) (sym r.same_epoch) (done q).0;
            tracked = λ q.
                subst (λ ks. Tracked ks (pairs q t.entries) (ends (h q))) (sym r.kept)
                  (subst (λ es. Tracked (kept_keys V L b a) (pairs q es) (ends (h q))) (sym es)
                    (done q).1);
          };
          reads = λ q. subst (λ ks. Kept V L ks (s.object q) (h q)) (sym r.kept) (done q).2.1;
          latest = λ q. (done q).2.0;
        },
      )
