-- ===== src/Isolation/Register.antt =====
-- `register_me` of jmvcc/snapshot_impl.h on the map and the objects together.
use libjmvcc.Base.{
  ℕ, ◌≤◌, ◌≡◌, ◌≢◌, refl, ap, ◌∙◌, sym, subst, [], ◌∷◌, ◌++◌, ok, All, All-append, inl, inr, update,
  update-other, update-same, arith, ◌⊎◌, contains-cases,
}
use mathlib.Core.List.{append-nil}
use libjmvcc.VersionedObject.{VersionedObject}
use libjmvcc.SnapshotInfo.Registry.{State, Snapshot, set_insert}
use libjmvcc.SnapshotInfo.{registered_status, register_me}
use libjmvcc.SnapshotInfo.Order.{keys, keys-append}
use libjmvcc.SnapshotInfo.Register.{
  Occupied, Registered, Extended, new_entry, register_snapshot-Registered,
}
use libjmvcc.SnapshotInfo.Compress.Renaming.{Matching}
use libjmvcc.Isolation.Pairs.{pairs, pairs-append}
use libjmvcc.Isolation.Laws.{Laws}
use libjmvcc.Isolation.Tracking.{Tracked, Tracked-newer}
use libjmvcc.Isolation.Remove.{Sound, Removed}
use libjmvcc.Isolation.Members.{
  Holds, Free, Holds-All, Holds-left, Holds-right, Holds-replace, Matching-append, Matching-parts,
  Matching-epochs, insert-Once, contains-insert_cases, contains-insert_other,
}

module _ (V : VersionedObject) (L : Laws V) where
  open V use {Object}
  open L use {ends, read}

  -- What a change by the snapshot `p` leaves to every other snapshot: its entry, and what it reads.
  pub record Stable (s u : State Object) (p : ℕ) : Type 0 where
    pub sound : Sound V L u
    pub others : (r : ℕ) → r ≢ p → u.snapshot r ≡ s.snapshot r
    pub held : (r k : ℕ) → r ≢ p → Holds r k s.entries → Holds r k u.entries
    pub reads :
        (r k q : ℕ) → r ≢ p → Holds r k s.entries → read (u.object q) k ≡ read (s.object q) k

  pub Stable-trans : (s t u : State Object) (p : ℕ) → Stable s t p → Stable t u p → Stable s u p
  Stable-trans s t u p a b = record {
    sound = b.sound;
    others = λ r d. b.others r d ∙ a.others r d;
    held = λ r k d h. b.held r k d (a.held r k d h);
    reads = λ r k q d h. b.reads r k q d (a.held r k d h) ∙ a.reads r k q d h;
  }

  -- The snapshot stands in the entry of its epoch.
  abbrev pub Present : State Object → ℕ → Type 0
  Present s p = Holds p (s.snapshot p).epoch s.entries

  pub Removed-Stable : (s u : State Object) (p : ℕ) → Removed V L s u p → Stable s u p
  Removed-Stable s u p r = record {
    sound = r.sound;
    others = r.others;
    held = r.held;
    reads = λ x k q d h.
        Holds-All (λ j. read (u.object q) j ≡ read (s.object q) j) x k u.entries (r.held x k d h)
          (r.reads q);
  }

  -- Another snapshot record, at the same epoch or of a snapshot that no entry holds.
  pub set_snapshot-Stable :
      (s : State Object) (p : ℕ) (x : Snapshot)
      → Sound V L s
      → (x.epoch ≡ (s.snapshot p).epoch) ⊎ Free p s.entries
      → Stable s (record s { snapshot = update s.snapshot p x }) p
  set_snapshot-Stable s p x sound c = record {
    sound = record {
      consistent = record {
        ordered = record {
          sorted = sound.consistent.ordered.sorted;
          recent = sound.consistent.ordered.recent;
          bounds = sound.consistent.ordered.bounds;
        };
        positive = sound.consistent.positive;
        valid = sound.consistent.valid;
        tracked = sound.consistent.tracked;
      };
      started = sound.started;
      occupied = sound.occupied;
      matching =
          Matching-epochs s.snapshot (update s.snapshot p x) p s.entries
            (λ r d. ap (λ x. x.epoch) (update-other s.snapshot p r x d))
            (elim c [
              | inl h ↦ inl (ap (λ x. x.epoch) (update-same s.snapshot p x) ∙ h)
              | inr f ↦ inr f
            ])
            sound.matching;
    };
    others = λ r d. update-other s.snapshot p r x d;
    held = λ r k d h. h;
    reads = λ r k q d h. refl;
  }

  module _ (s t : State Object) (p : ℕ) (sound : Sound V L s) (free : Free p s.entries)
      (reg : Registered V s t p) where
    -- The epochs of the snapshots, once `p` has the current one.
    moved : Matching t.snapshot s.entries
    moved =
        let x = record (s.snapshot p) { epoch = s.current_epoch } in
        subst (λ f. Matching f s.entries) (sym reg.snapshots_after)
          (Matching-epochs s.snapshot (update s.snapshot p x) p s.entries
            (λ r d. ap (λ x. x.epoch) (update-other s.snapshot p r x d)) (inr free) sound.matching)

    Tracked-current :
        (q : ℕ)
        → Tracked (keys s.entries ++ s.current_epoch ∷ []) (pairs q s.entries) (ends (s.object q))
    Tracked-current q =
        let k = sound.consistent in
        Tracked-newer (keys s.entries) (pairs q s.entries) (ends (s.object q)) s.current_epoch
          (L.ends_bound s.current_epoch (s.object q) sound.started (k.valid q)) sound.started
          k.positive (k.tracked q)

    new_keys : keys (s.entries ++ new_entry V s p ∷ []) ≡ keys s.entries ++ s.current_epoch ∷ []
    new_keys = keys-append s.entries (new_entry V s p ∷ [])

    Extended-Tracked :
        Extended V s p t.entries
        → (q : ℕ) → Tracked (keys t.entries) (pairs q t.entries) (ends (s.object q))
    Extended-Tracked (inl e) q =
        subst (λ es. Tracked (keys es) (pairs q es) (ends (s.object q))) (sym e)
          (subst
            (λ ks. Tracked ks (pairs q (s.entries ++ new_entry V s p ∷ [])) (ends (s.object q)))
            (sym new_keys)
            (subst (λ ps. Tracked (keys s.entries ++ s.current_epoch ∷ []) ps (ends (s.object q)))
              (sym
                (pairs-append q s.entries (new_entry V s p ∷ []) ∙ append-nil (pairs q s.entries)))
              (Tracked-current q)))
    Extended-Tracked (inr (b, e, eq, at, es)) q =
        let e' = record e { snapshots = set_insert p e.snapshots } in
        subst (λ es. Tracked (keys es) (pairs q es) (ends (s.object q))) (sym es)
          (subst (λ ks. Tracked ks (pairs q (b ++ e' ∷ [])) (ends (s.object q)))
            (keys-append b (e ∷ []) ∙ sym (keys-append b (e' ∷ [])))
            (subst (λ ps. Tracked (keys (b ++ e ∷ [])) ps (ends (s.object q)))
              (pairs-append q b (e ∷ []) ∙ sym (pairs-append q b (e' ∷ [])))
              (subst (λ es. Tracked (keys es) (pairs q es) (ends (s.object q))) eq
                (sound.consistent.tracked q))))

    Extended-positive : Extended V s p t.entries → All (λ j. 1 ≤ j) (keys t.entries)
    Extended-positive (inl e) =
        subst (λ es. All (λ j. 1 ≤ j) (keys es)) (sym e)
          (subst (All (λ j. 1 ≤ j)) (sym new_keys) (
            All-append _ (keys s.entries) (s.current_epoch ∷ []) sound.consistent.positive
              (sound.started, tt)))
    Extended-positive (inr (b, e, eq, at, es)) =
        let e' = record e { snapshots = set_insert p e.snapshots } in
        subst (λ es. All (λ j. 1 ≤ j) (keys es)) (sym es)
          (subst (All (λ j. 1 ≤ j)) (keys-append b (e ∷ []) ∙ sym (keys-append b (e' ∷ [])))
            (subst (λ es. All (λ j. 1 ≤ j) (keys es)) eq sound.consistent.positive))

    Extended-Matching : Extended V s p t.entries → Matching t.snapshot t.entries
    Extended-Matching (inl e) = subst (Matching t.snapshot) (sym e) (
        Matching-append t.snapshot s.entries (new_entry V s p ∷ []) moved (
          (refl, tt),
          λ r c. elim (contains-cases r p [] c) [
            | inl q ↦ ap (λ r. (t.snapshot r).epoch) q ∙ reg.seen_epoch
            | inr n ↦ absurd (ground (arith, n))
          ],
          tt,
        ))
    Extended-Matching (inr (b, e, eq, at, es)) =
        let e' = record e { snapshots = set_insert p e.snapshots } in
        let (left, (once, here, _)) =
          Matching-parts t.snapshot b (e ∷ []) (subst (Matching t.snapshot) eq moved) in
        subst (Matching t.snapshot) (sym es) (
          Matching-append t.snapshot b (e' ∷ []) left (
            insert-Once p e.snapshots once,
            λ r c. elim (contains-insert_cases r p e.snapshots c) [
              | inl q ↦ ap (λ r. (t.snapshot r).epoch) q ∙ reg.seen_epoch ∙ sym at
              | inr n ↦ here r n
            ],
            tt,
          ))

    Extended-held : Extended V s p t.entries → (r k : ℕ) → Holds r k s.entries → Holds r k t.entries
    Extended-held (inl e) r k h =
        subst (Holds r k) (sym e) (Holds-left r k s.entries (new_entry V s p ∷ []) h)
    Extended-held (inr (b, e, eq, at, es)) r k h = subst (Holds r k) (sym es) (
        Holds-replace r k b e (record e { snapshots = set_insert p e.snapshots }) [] refl
          (contains-insert_other r p e.snapshots) (subst (Holds r k) eq h))

    registered_Stable : Occupied V t.entries → Stable s t p
    registered_Stable occ = record {
      sound = record {
        consistent = record {
          ordered = reg.ordered;
          positive = Extended-positive reg.shape;
          valid = λ q.
              subst (λ c. L.Valid c (t.object q)) (sym reg.same_epoch)
                (subst (λ f. L.Valid s.current_epoch (f q)) (sym reg.same_objects)
                  (sound.consistent.valid q));
          tracked = λ q.
              subst (λ f. Tracked (keys t.entries) (pairs q t.entries) (ends (f q)))
                (sym reg.same_objects) (Extended-Tracked reg.shape q);
        };
        started = subst (λ c. 1 ≤ c) (sym reg.same_epoch) sound.started;
        occupied = occ;
        matching = Extended-Matching reg.shape;
      };
      others = λ r d. ap (λ f. f r) reg.snapshots_after ∙ update-other s.snapshot p r _ d;
      held = λ r k d h. Extended-held reg.shape r k h;
      reads = λ r k q d h. ap (λ f. read (f q) k) reg.same_objects;
    }

    registered_Holds : Holds p s.current_epoch t.entries
    registered_Holds =
        subst (Holds p s.current_epoch) (sym reg.parts) (
          Holds-right p s.current_epoch reg.before (reg.last ∷ []) (inl (reg.at_epoch, reg.member)))

  -- The state `u` is `s` with the snapshot `p` at the current epoch.
  pub record Joined (s u : State Object) (p : ℕ) : Type 0 where
    pub stable : Stable s u p
    pub same_epoch : u.current_epoch ≡ s.current_epoch
    pub seen_epoch : (u.snapshot p).epoch ≡ s.current_epoch
    pub present : Present u p
    pub latest : (q : ℕ) → read (u.object q) s.current_epoch ≡ read (s.object q) s.current_epoch

  pub register_me-Joined :
      (s : State Object) (p : ℕ)
      → Sound V L s
      → Free p s.entries
      → (u : State Object) × (register_me V s p ≡ ok u) × Joined s u p
  unfolding register_me
  register_me-Joined s p sound free =
      let (t, run, reg, occ) =
        register_snapshot-Registered V s p sound.consistent.ordered sound.occupied in
      let x = record (t.snapshot p) { status = registered_status V (t.snapshot p).status } in
      let stable = registered_Stable s t p sound free reg occ in
      let same : (update t.snapshot p x p).epoch ≡ s.current_epoch =
        ap (λ x. x.epoch) (update-same t.snapshot p x) ∙ reg.seen_epoch in
      (
        record t { snapshot = update t.snapshot p x },
        rw run,
        record {
          stable = Stable-trans s t _ p stable (set_snapshot-Stable t p x stable.sound (inl refl));
          same_epoch = reg.same_epoch;
          seen_epoch = same;
          present =
              subst (λ k. Holds p k t.entries) (sym same) (registered_Holds s t p sound free reg);
          latest = λ q. ap (λ f. read (f q) s.current_epoch) reg.same_objects;
        },
      )

  pub Stable-refl : (s : State Object) (p : ℕ) → Sound V L s → Stable s s p
  Stable-refl s p sound = record {
    sound = sound;
    others = λ r d. refl;
    held = λ r k d h. h;
    reads = λ r k q d h. refl;
  }
