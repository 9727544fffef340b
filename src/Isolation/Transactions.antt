-- ===== src/Isolation/Transactions.antt =====
-- `commit` of jmvcc/transaction.cc on the map and the objects together.
use libjmvcc.Base.{
  ℕ, ◌+◌, ◌≤◌, ◌<◌, ◌≡◌, refl, ap, ◌∙◌, sym, subst, Bool, ok, inl, inr, not, if◌then◌else◌, ◌==◌,
  arith, update-same, ne→==,
}
use libjmvcc.VersionedObject.{VersionedObject}
use libjmvcc.LocalValues.{LocalValues}
use libjmvcc.Versioned.{epoch_mod}
use libjmvcc.SnapshotInfo.Registry.{State, Status, set_status}
use libjmvcc.Sandbox
use libjmvcc.Garbage.{Sections}
use libjmvcc.Transaction.{Transaction, World, commit, renew_critical}
use libjmvcc.Isolation.Placed.{newest}
use libjmvcc.Isolation.Laws.{Laws}
use libjmvcc.Isolation.Members.{Holds}
use libjmvcc.Isolation.Remove.{Sound}
use libjmvcc.Isolation.Register.{Stable, Stable-trans, Present}
use libjmvcc.Isolation.Restart.{set_epoch-Moved, restart-Joined}
use libjmvcc.Isolation.Outcomes.{KeptAll, Written, Conflicting, KeptAll-Stable}
use libjmvcc.Isolation.Commit.{commit-KeptAll}
use libjmvcc.Isolation.Finished.{
  Finished, commit_lem, set_status-Stable, set_status-Present, restart_failed-not,
  restart_failed-zero, moved_to, stayed_at,
}

module _ (V : VersionedObject) (L : Laws V) (T : LocalValues V.Value) where
  open V use {Object, Value}
  open L use {ends, read, sees}

  module _ (w : World V T) (t : Transaction V T) (thread : ℕ) (g : Sections)
      (sound : Sound V L w.registry) (here : Present V L w.registry t.snapshot)
      (renewed : renew_critical V T t.use_critical w.sections thread ≡ ok g) where
    abbrev p : ℕ
    p = t.snapshot

    abbrev s0 : State Object
    s0 = set_status w.registry p Status.committing

    same_seen : (s0.snapshot p).epoch ≡ (w.registry.snapshot p).epoch
    same_seen = ap (λ x. x.epoch) (update-same w.registry.snapshot p _)

    first : Stable V L w.registry s0 p
    first = set_status-Stable V L T w.registry p Status.committing sound

    -- The transaction's commit, by the run of the sandbox's.
    abbrev Ended : Type 0
    Ended =
        (b : Bool) × (u : World V T) × (t' : Transaction V T) × (commit V T w t thread
          ≡ ok (b, u, t'))
        × (u.sections ≡ g)
        × Finished V L T w.registry u.registry p t.local_values b

    module _ (n : ℕ) (s1 : State Object) (table : T.Table)
        (run : Sandbox.commit V T s0 t.local_values (s0.snapshot p).epoch ≡ ok (n, s1, table))
        (k : KeptAll V L T s0 s1) where
      abbrev s1' : State Object
      s1' = set_status s1 p (if n == 0 then Status.failed else Status.committed)

      second : Stable V L w.registry s1' p
      second = Stable-trans V L w.registry s0 s1' p first (
          Stable-trans V L s0 s1 s1' p (KeptAll-Stable V L T s0 s1 p k) (
            set_status-Stable V L T s1 p (if n == 0 then Status.failed else Status.committed)
              k.sound))

      here1 : Present V L s1' p
      here1 = set_status-Present V L T s1 p (if n == 0 then Status.failed else Status.committed) (
          subst (λ f. Holds p (f p).epoch s1.entries) (sym k.same_snapshots)
            (k.held p (s0.snapshot p).epoch
              (set_status-Present V L T w.registry p Status.committing here)))

      succeeded :
          n ≡ w.registry.current_epoch + 1
          → Written V L T s0 s1 t.local_values (s0.snapshot p).epoch
          → Ended
      succeeded e wr =
          let (s3, run3, m) = set_epoch-Moved V L s1' p n second.sound here1 in
          (
            not (n == 0),
            record { registry = s3; sections = g },
            record t { local_values = table },
            commit_lem V L T w t thread n s1 s1' s3 table g run
                (restart_failed-not V L T s1' p n w.registry.current_epoch e) renewed run3,
            refl,
            record {
              stable = Stable-trans V L w.registry s1' s3 p second m.stable;
              present = m.present;
              at_newest =
                  m.seen_epoch
                  ∙ moved_to V L T n (s1'.snapshot p).epoch s1.current_epoch (e ∙ sym wr.next_epoch)
                  ∙ sym m.same_epoch;
              outcome = inl (
                ap not (ne→== n 0 (λ z. absurd (omega (arith, e, z)))),
                record {
                  next_epoch = m.same_epoch ∙ wr.next_epoch;
                  current_enough = λ q v f.
                      subst (λ old. newest 1 (ends (w.registry.object q)) ≤ old) same_seen
                        (wr.current_enough q v f);
                  writes =
                      λ q v f. ap (read (s3.object q)) m.same_epoch ∙ m.latest q ∙ wr.writes q v f;
                  others = λ q f.
                      ap (read (s3.object q)) m.same_epoch
                      ∙ m.latest q
                      ∙ ap (λ o. read o s1.current_epoch) (wr.others q f)
                      ∙ sym (ap (read (w.registry.object q)) m.same_epoch);
                },
              );
            },
          )

      failed : n ≡ 0 → Conflicting V L T s0 s1 t.local_values (s0.snapshot p).epoch → Ended
      failed e cf =
          let (s2, run2, j) = restart-Joined V L s1' p second.sound here1 in
          let (s3, run3, m) = set_epoch-Moved V L s2 p n j.stable.sound j.present in
          (
            not (n == 0),
            record { registry = s3; sections = g },
            record t { local_values = table },
            commit_lem V L T w t thread n s1 s2 s3 table g run
                (restart_failed-zero V L T s1' p n e ∙ run2) renewed run3,
            refl,
            record {
              stable =
                  Stable-trans V L w.registry s1' s3 p second
                    (Stable-trans V L s1' s2 s3 p j.stable m.stable);
              present = m.present;
              at_newest =
                  m.seen_epoch
                  ∙ stayed_at V L T n (s2.snapshot p).epoch s2.current_epoch
                      (j.seen_epoch ∙ sym j.same_epoch)
                  ∙ sym m.same_epoch;
              outcome = inr (
                ap (λ n. not (n == 0)) e,
                record {
                  same_epoch = m.same_epoch ∙ j.same_epoch ∙ cf.same_epoch;
                  object = cf.object;
                  value = cf.value;
                  written = cf.written;
                  conflict =
                      subst (λ old. old < newest 1 (ends (w.registry.object cf.object))) same_seen
                        cf.conflict;
                  same_reads = λ q.
                      ap (read (s3.object q)) m.same_epoch
                      ∙ m.latest q
                      ∙ ap (read (s2.object q)) j.same_epoch
                      ∙ j.latest q
                      ∙ ap (read (s1.object q)) cf.same_epoch
                      ∙ cf.same_reads q w.registry.current_epoch sound.started;
                },
              );
            },
          )

  -- The commit of a transaction whose snapshot is registered, in a sound state with epochs left, if
  -- its critical section can be renewed, returns whether it succeeded. It succeeds exactly if no
  -- object that it wrote has a version newer than its snapshot. Then the epoch has moved on by one,
  -- and at the new epoch each object that it wrote has the value that it wrote, and every other object
  -- the value that a read at that epoch found before. Otherwise the epoch stays, and every object
  -- reads as before. In both cases the transaction's snapshot is at the current epoch, all other
  -- snapshots and what they read are as they were, and the state is sound.
  pub commit-Finished :
      (w : World V T) (t : Transaction V T) (thread : ℕ) (g : Sections)
      → Sound V L w.registry
      → Present V L w.registry t.snapshot
      → w.registry.current_epoch + 1 < epoch_mod
      → renew_critical V T t.use_critical w.sections thread ≡ ok g
      → (b : Bool) × (u : World V T) × (t' : Transaction V T) × (commit V T w t thread
          ≡ ok (b, u, t'))
        × (u.sections ≡ g)
        × Finished V L T w.registry u.registry t.snapshot t.local_values b
  commit-Finished w t thread g sound here fits renewed =
      let (n, s1, run, k, cases) =
        commit-KeptAll V L T (set_status w.registry t.snapshot Status.committing) t.local_values
          t.snapshot (set_status-Stable V L T w.registry t.snapshot Status.committing sound).sound
          (set_status-Present V L T w.registry t.snapshot Status.committing here) fits in
      elim cases [
        | inl (e, wr) ↦ succeeded w t thread g sound here renewed n s1 _ run k e wr
        | inr (e, cf) ↦ failed w t thread g sound here renewed n s1 _ run k e cf
      ]
