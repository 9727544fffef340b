-- ===== src/Isolation/Finished.antt =====
-- What `commit` of jmvcc/transaction.cc leaves of the map and the objects, and the parts that it is
-- made of.
use libjmvcc.Base.{
  ℕ, ◌+◌, ◌≤◌, ◌<◌, ◌≡◌, refl, ap, sym, subst, Bool, true, false, none, some, ok, inl, ◌⊎◌, not,
  if◌then◌else◌, ◌==◌, arith, update-same, ne→==,
}
use libjmvcc.VersionedObject.{VersionedObject}
use libjmvcc.LocalValues.{LocalValues}
use libjmvcc.SnapshotInfo.Registry.{State, Status, set_status}
use libjmvcc.SnapshotInfo.{set_epoch, restart}
use libjmvcc.Sandbox
use libjmvcc.Garbage.{Sections}
use libjmvcc.Transaction.{Transaction, World, commit, restart_failed, renew_critical}
use libjmvcc.Isolation.Placed.{newest}
use libjmvcc.Isolation.Laws.{Laws}
use libjmvcc.Isolation.Members.{Holds}
use libjmvcc.Isolation.Remove.{Sound}
use libjmvcc.Isolation.Register.{Stable, Present, set_snapshot-Stable}

module _ (V : VersionedObject) (L : Laws V) (T : LocalValues V.Value) where
  open V use {Object, Value}
  open L use {ends, read, sees}

  -- The transaction has succeeded: it sees its own writes, at the new epoch.
  pub record Succeeded (s u : State Object) (t : T.Table) (old : ℕ) : Type 0 where
    pub next_epoch : u.current_epoch ≡ s.current_epoch + 1
    pub current_enough :
        (q : ℕ) (v : Value) → T.find t q ≡ some v → newest 1 (ends (s.object q)) ≤ old
    pub writes :
        (q : ℕ) (v : Value) → T.find t q ≡ some v → read (u.object q) u.current_epoch ≡ sees v
    pub others :
        (q : ℕ)
        → T.find t q ≡ none
        → read (u.object q) u.current_epoch ≡ read (s.object q) u.current_epoch

  -- The transaction has failed: it sees the newest values, none of which is its own.
  pub record Failed (s u : State Object) (t : T.Table) (old : ℕ) : Type 0 where
    pub same_epoch : u.current_epoch ≡ s.current_epoch
    pub object : ℕ
    pub value : Value
    pub written : T.find t object ≡ some value
    pub conflict : old < newest 1 (ends (s.object object))
    pub same_reads : (q : ℕ) → read (u.object q) u.current_epoch ≡ read (s.object q) s.current_epoch

  pub commit_lem :
      (w : World V T) (t : Transaction V T) (thread n : ℕ) (s1 s2 s3 : State Object)
      (table : T.Table) (g : Sections)
      → let s = set_status w.registry t.snapshot Status.committing in
        Sandbox.commit V T s t.local_values (s.snapshot t.snapshot).epoch ≡ ok (n, s1, table)
        → restart_failed V T
            (set_status s1 t.snapshot (if n == 0 then Status.failed else Status.committed))
            t.snapshot
            n
          ≡ ok s2
        → renew_critical V T t.use_critical w.sections thread ≡ ok g
        → set_epoch V s2 t.snapshot n ≡ ok s3
        → commit V T w t thread
          ≡ ok (
            not (n == 0),
            record { registry = s3; sections = g },
            record t { local_values = table },
          )
  unfolding commit
  commit_lem w t thread n s1 s2 s3 table g a b c d = rw a (rw b (rw c (rw d refl)))

  pub set_status-Stable :
      (s : State Object) (p : ℕ) (status : Status)
      → Sound V L s
      → Stable V L s (set_status s p status) p
  set_status-Stable s p status sound =
      set_snapshot-Stable V L s p (record (s.snapshot p) { status = status }) sound (inl refl)

  pub set_status-Present :
      (s : State Object) (p : ℕ) (status : Status)
      → Present V L s p
      → Present V L (set_status s p status) p
  set_status-Present s p status h =
      subst (λ k. Holds p k s.entries)
        (sym (
          ap (λ x. x.epoch) (update-same s.snapshot p (record (s.snapshot p) { status = status }))))
        h

  pub restart_failed-not :
      (s : State Object) (p n c : ℕ) → n ≡ c + 1 → restart_failed V T s p n ≡ ok s
  unfolding restart_failed
  restart_failed-not s p n c e = rw (ne→== n 0 (λ z. absurd (omega (arith, e, z))))

  pub restart_failed-zero :
      (s : State Object) (p n : ℕ) → n ≡ 0 → restart_failed V T s p n ≡ restart V s p
  unfolding restart_failed
  restart_failed-zero s p n e = ground (arith, e)

  -- What a commit of a transaction leaves: its snapshot is at the current epoch, the others are as
  -- they were, and the transaction has succeeded or failed.
  pub record Finished (s u : State Object) (p : ℕ) (t : T.Table) (b : Bool) : Type 0 where
    pub stable : Stable V L s u p
    pub present : Present V L u p
    pub at_newest : (u.snapshot p).epoch ≡ u.current_epoch
    pub outcome :
        ((b ≡ true) × Succeeded s u t (s.snapshot p).epoch)
        ⊎ ((b ≡ false) × Failed s u t (s.snapshot p).epoch)

  pub moved_to : (n k c : ℕ) → n ≡ c → (if n == k then k else c) ≡ c
  moved_to n k c e = ground (arith, e)

  pub stayed_at : (n k c : ℕ) → k ≡ c → (if n == k then k else c) ≡ c
  stayed_at n k c e = ground (arith, e)
