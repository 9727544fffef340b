-- ===== src/Isolation/Restart.antt =====
-- The constructor, `set_epoch` and `restart` of jmvcc/snapshot_impl.h on the map and the objects
-- together.
use libjmvcc.Base.{
  ℕ, suc, ◌≡◌, refl, ap, ◌∙◌, sym, subst, ok, inl, inr, update, update-same, if◌then◌else◌, arith,
  Bool-cases, ◌==◌,
}
use libjmvcc.VersionedObject.{VersionedObject}
use libjmvcc.SnapshotInfo.Registry.{State, Status, Snapshot}
use libjmvcc.SnapshotInfo.{new_snapshot, set_epoch, restart}
use libjmvcc.Isolation.Laws.{Laws}
use libjmvcc.Isolation.Remove.{Sound, remove_snapshot-Removed}
use libjmvcc.Isolation.Members.{Holds, Free}
use libjmvcc.Isolation.Register.{
  Stable, Stable-refl, Stable-trans, Removed-Stable, Present, set_snapshot-Stable, Joined,
  register_me-Joined,
}

module _ (V : VersionedObject) (L : Laws V) where
  open V use {Object}
  open L use {read}

  pub new_snapshot-Joined :
      (s : State Object) (p : ℕ)
      → Sound V L s
      → Free p s.entries
      → (u : State Object) × (new_snapshot V s p ≡ ok u) × Joined V L s u p
  unfolding new_snapshot
  new_snapshot-Joined s p sound free =
      let x : Snapshot = record { epoch = 0; retries = 0; status = Status.uninitialized } in
      let first = set_snapshot-Stable V L s p x sound (inr free) in
      let (u, run, j) =
        register_me-Joined V L (record s { snapshot = update s.snapshot p x }) p first.sound free in
      (
        u,
        run,
        record {
          stable = Stable-trans V L s _ u p first j.stable;
          same_epoch = j.same_epoch;
          seen_epoch = j.seen_epoch;
          present = j.present;
          latest = j.latest;
        },
      )

  -- The snapshot `p` is where it was or, if `epoch` is not its own, at the current epoch.
  pub record Moved (s u : State Object) (p epoch : ℕ) : Type 0 where
    pub stable : Stable V L s u p
    pub same_epoch : u.current_epoch ≡ s.current_epoch
    pub seen_epoch :
        (u.snapshot p).epoch
        ≡ (if epoch == (s.snapshot p).epoch then (s.snapshot p).epoch else s.current_epoch)
    pub present : Present V L u p
    pub latest : (q : ℕ) → read (u.object q) s.current_epoch ≡ read (s.object q) s.current_epoch

  pub set_epoch-Moved :
      (s : State Object) (p epoch : ℕ)
      → Sound V L s
      → Present V L s p
      → (u : State Object) × (set_epoch V s p epoch ≡ ok u) × Moved s u p epoch
  unfolding set_epoch
  set_epoch-Moved s p epoch sound present = elim (Bool-cases (epoch == (s.snapshot p).epoch)) [
    | inl h ↦ (
      s,
      rw h,
      record {
        stable = Stable-refl V L s p sound;
        same_epoch = refl;
        seen_epoch = rw h;
        present = present;
        latest = λ q. refl;
      },
    )
    | inr h ↦
        let (t, run, r) = remove_snapshot-Removed V L s p sound present in
        let (u, run2, j) = register_me-Joined V L t p r.sound r.free in
        (
          u,
          rw (h, run) run2,
          record {
            stable = Stable-trans V L s t u p (Removed-Stable V L s t p r) j.stable;
            same_epoch = j.same_epoch ∙ r.same_epoch;
            seen_epoch = rw h (j.seen_epoch ∙ r.same_epoch);
            present = j.present;
            latest = λ q.
                subst (λ c. read (u.object q) c ≡ read (t.object q) c) r.same_epoch (j.latest q)
                ∙ r.latest q;
          },
        )
  ]

  pub restart-Joined :
      (s : State Object) (p : ℕ)
      → Sound V L s
      → Present V L s p
      → (u : State Object) × (restart V s p ≡ ok u) × Joined V L s u p
  unfolding restart
  restart-Joined s p sound present =
      let x = record (s.snapshot p) {
        status = Status.restarting;
        retries = suc (s.snapshot p).retries;
      } in
      let t = record s { snapshot = update s.snapshot p x } in
      let first = set_snapshot-Stable V L s p x sound (inl refl) in
      let same : (t.snapshot p).epoch ≡ (s.snapshot p).epoch =
        ap (λ x. x.epoch) (update-same s.snapshot p x) in
      let (u, run, m) =
        set_epoch-Moved t p s.current_epoch first.sound
          (subst (λ k. Holds p k s.entries) (sym same) present) in
      (
        u,
        run,
        record {
          stable = Stable-trans V L s t u p first m.stable;
          same_epoch = m.same_epoch;
          seen_epoch = m.seen_epoch ∙ current s.current_epoch (t.snapshot p).epoch;
          present = m.present;
          latest = m.latest;
        },
      )
    where
      current : (c k : ℕ) → (if c == k then k else c) ≡ c
      current c k = ground arith
