-- ===== src/Isolation/Steps.antt =====
-- Runs of the operations of jmvcc/snapshot.cc, jmvcc/snapshot_impl.h, jmvcc/sandbox.cc and
-- jmvcc/transaction.cc, one after the other, and what a snapshot reads in them.
use libjmvcc.Base.{ℕ, Bool, ◌+◌, ◌<◌, ◌≡◌, ◌≢◌, refl, ap, ◌∙◌, sym, subst, ok, ok_inj, inl}
use libjmvcc.VersionedObject.{VersionedObject}
use libjmvcc.LocalValues.{LocalValues}
use libjmvcc.Versioned.{epoch_mod}
use libjmvcc.SnapshotInfo.Registry.{State, Status, set_status}
use libjmvcc.SnapshotInfo.{new_snapshot, remove_snapshot, set_epoch, restart}
use libjmvcc.Sandbox.{commit}
use libjmvcc.Garbage.{Sections}
use libjmvcc.Transaction
use libjmvcc.Transaction.{Transaction, World, renew_critical}
use libjmvcc.Isolation.Laws.{Laws}
use libjmvcc.Isolation.Members.{Holds, Free}
use libjmvcc.Isolation.Remove.{Sound, remove_snapshot-Removed}
use libjmvcc.Isolation.Register.{Stable, Removed-Stable, Present, set_snapshot-Stable}
use libjmvcc.Isolation.Restart.{new_snapshot-Joined, set_epoch-Moved, restart-Joined}
use libjmvcc.Isolation.Outcomes.{KeptAll-Stable}
use libjmvcc.Isolation.Transactions.{commit-Finished}
use libjmvcc.Isolation.Commit.{commit-KeptAll}

module _ (V : VersionedObject) (L : Laws V) (T : LocalValues V.Value) where
  open V use {Object}
  open L use {ends, read}

  -- A call on the snapshot `p` that throws nothing: a new snapshot is none that an entry holds, and
  -- the others are of a snapshot that is registered. The section of a transaction that commits can be
  -- renewed.
  pub data Step (s : State Object) (p : ℕ) : State Object → Type 0 where
    begin : {u : State Object} → Free p s.entries → new_snapshot V s p ≡ ok u → Step s p u
    remove : {u : State Object} → Present V L s p → remove_snapshot V s p ≡ ok u → Step s p u
    move :
        {u : State Object} (epoch : ℕ) → Present V L s p → set_epoch V s p epoch ≡ ok u → Step s p u
    start_over : {u : State Object} → Present V L s p → restart V s p ≡ ok u → Step s p u
    write :
        {u : State Object} (t t' : T.Table) (n : ℕ)
        → Present V L s p
        → s.current_epoch + 1 < epoch_mod
        → commit V T s t (s.snapshot p).epoch ≡ ok (n, u, t')
        → Step s p u
    finish :
        (g g' : Sections) (u : World V T) (t t' : Transaction V T) (thread : ℕ) (b : Bool)
        → t.snapshot ≡ p
        → Present V L s p
        → s.current_epoch + 1 < epoch_mod
        → renew_critical V T t.use_critical g thread ≡ ok g'
        → Transaction.commit V T (record { registry = s; sections = g }) t thread ≡ ok (b, u, t')
        → Step s p u.registry
    mark : (status : Status) → Step s p (set_status s p status)

  -- Operations on snapshots that `P` admits.
  pub data Steps (P : ℕ → Type 0) (s : State Object) : State Object → Type 0 where
    done : Steps P s s
    step : {t u : State Object} (p : ℕ) → Steps P s t → P p → Step t p u → Steps P s u

  pub Step-Stable :
      (s : State Object) (p : ℕ) (u : State Object) → Sound V L s → Step s p u → Stable V L s u p
  Step-Stable s p u sound (begin free run) =
      let (t, run2, j) = new_snapshot-Joined V L s p sound free in
      subst (λ u. Stable V L s u p) (ok_inj t u (sym run2 ∙ run)) j.stable
  Step-Stable s p u sound (remove here run) =
      let (t, run2, r) = remove_snapshot-Removed V L s p sound here in
      subst (λ u. Stable V L s u p) (ok_inj t u (sym run2 ∙ run)) (Removed-Stable V L s t p r)
  Step-Stable s p u sound (move epoch here run) =
      let (t, run2, m) = set_epoch-Moved V L s p epoch sound here in
      subst (λ u. Stable V L s u p) (ok_inj t u (sym run2 ∙ run)) m.stable
  Step-Stable s p u sound (start_over here run) =
      let (t, run2, j) = restart-Joined V L s p sound here in
      subst (λ u. Stable V L s u p) (ok_inj t u (sym run2 ∙ run)) j.stable
  Step-Stable s p u sound (write t t' n here fits run) =
      let (m, x, run2, k, _) = commit-KeptAll V L T s t p sound here fits in
      let same : x ≡ u = ap (λ r. r.1) (ok_inj (m, x, _) (n, u, t') (sym run2 ∙ run)) in
      subst (λ u. Stable V L s u p) same (KeptAll-Stable V L T s x p k)
  Step-Stable s p _ sound (finish g g' u t t' thread b at here fits renewed run) =
      let w : World V T = record { registry = s; sections = g } in
      let (c, x, x', run2, _, f) =
        commit-Finished V L T w t thread g' sound (subst (Present V L s) (sym at) here) fits
          renewed in
      let same : x.registry ≡ u.registry =
        ap (λ r. r.1.registry) (ok_inj (c, x, x') (b, u, t') (sym run2 ∙ run)) in
      subst (λ u. Stable V L s u p) same (subst (Stable V L s x.registry) at f.stable)
  Step-Stable s p _ sound (mark status) =
      set_snapshot-Stable V L s p (record (s.snapshot p) { status = status }) sound (inl refl)

  -- Snapshot isolation. In a sound state, let a snapshot be registered at an epoch. Whatever calls on
  -- other snapshots then return without an exception, in any order and number, commits of their
  -- transactions among them while there are epochs left: the snapshot is as it was and in the entry of
  -- that epoch, a read at that epoch finds of every object exactly what it found at first, and the
  -- state is sound.
  pub Steps-reads :
      (s : State Object) (r k : ℕ) (u : State Object)
      → Sound V L s
      → Holds r k s.entries
      → Steps (λ p. r ≢ p) s u
      → Sound V L u
        × (u.snapshot r ≡ s.snapshot r)
        × Holds r k u.entries
        × ((q : ℕ) → read (u.object q) k ≡ read (s.object q) k)
  Steps-reads s r k _ sound h done = (sound, refl, h, λ q. refl)
  Steps-reads s r k u sound h (step {t = t} p before d one) =
      let (sound', same, here, reads) = Steps-reads s r k t sound h before in
      let st = Step-Stable t p u sound' one in
      (st.sound, st.others r d ∙ same, st.held r k d here, λ q. st.reads r k q d here ∙ reads q)
