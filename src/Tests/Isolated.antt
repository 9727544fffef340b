-- ===== src/Tests/Isolated.antt =====
-- A run of jmvcc/snapshot.cc and jmvcc/sandbox.cc in which a snapshot stays while others commit.
use libjmvcc.Base.{
  ℕ, Bool, ◌≡◌, ◌≢◌, refl, sym, subst, true, none, [], ◌∷◌, arith, ok, update, inl, ◌⊎◌,
}
use libjmvcc.CircularBuffer.{CircularBuffer, list_buffer}
use libjmvcc.Timeline.{Entry}
use libjmvcc.VersionedObject.{VersionedObject}
use libjmvcc.LocalValues.{LocalValues, list_table}
use libjmvcc.Versioned.Object.{versioned_object}
use libjmvcc.SnapshotInfo.Registry.{State, Status, Snapshot, set_insert}
use libjmvcc.SnapshotInfo.{
  set_epoch, remove_snapshot, new_snapshot, register_me, register_snapshot, check_inserted,
  clean_previous, find, insert_snapshot, registered_status,
}
use libjmvcc.Versioned.{new_versioned, value_at_epoch}
use libjmvcc.Sandbox.{commit, clear}
use libjmvcc.Garbage.Queue.{Queue, Reach}
use libjmvcc.Garbage.Represents.{Represents}
use libjmvcc.Garbage.Depth.{Entering, Leaving}
use libjmvcc.Transaction
use libjmvcc.Transaction.{Transaction, World, begin_local, end_local}
use libjmvcc.Isolation.Laws.{Laws}
use libjmvcc.Isolation.Members.{Holds}
use libjmvcc.Isolation.Remove.{Sound, Removed, remove_snapshot-Removed}
use libjmvcc.Isolation.Register.{Present}
use libjmvcc.Isolation.Restart.{Moved, set_epoch-Moved}
use libjmvcc.Isolation.Outcomes.{KeptAll, Written, Conflicting}
use libjmvcc.Isolation.Commit.{commit-KeptAll}
use libjmvcc.Isolation.Finished.{Finished}
use libjmvcc.Isolation.Worlds.{Renewal, commit-Renewal, begin_local-Entering, end_local-Leaving}
use libjmvcc.Isolation.Register.{Joined}
use libjmvcc.Tests.OpenSections.{two_queue, two_open, two_open-Represents}
use libjmvcc.Isolation.Steps.{begin, Steps, done, step, write, move, Steps-reads}
use libjmvcc.Isolation.Start.{Steps-Sound, new_versioned-Sound, Steps-value_at_epoch}
use libjmvcc.Isolation.Start
use libjmvcc.Isolation.Locked.{versioned_laws}

abbrev buffer : CircularBuffer (Entry ℕ)
buffer = list_buffer (Entry ℕ)

abbrev objects : VersionedObject
objects = versioned_object buffer

abbrev laws : Laws objects
laws = versioned_laws buffer

abbrev table : LocalValues ℕ
table = list_table

-- Every object holds 7, and the snapshots 0 and 1 are at epoch 1.
abbrev start : State objects.Object
start = record {
  current_epoch = 1;
  earliest_epoch = 1;
  entries = record { epoch = 1; snapshots = 0 ∷ 1 ∷ []; cleanups = [] } ∷ [];
  snapshot = λ p. record { epoch = 1; retries = 0; status = Status.initialized };
  object = λ q. record { current = 7; history = [] };
}

start-Sound : Sound objects laws start
unfolding versioned_laws
start-Sound = record {
  consistent = record {
    ordered = record {
      sorted = (omega arith, tt);
      recent = (omega arith, tt);
      bounds = omega arith;
    };
    positive = (omega arith, tt);
    valid = λ q. record { increasing = tt; up_to = tt };
    tracked = λ q. (1, (omega arith, tt), tt);
  };
  started = omega arith;
  occupied = (refl, tt);
  matching = ((refl, (refl, tt)), (λ p c. refl), tt);
}

-- Snapshot 1 writes the objects 0 and 1, and moves on.
abbrev two_writes : table.Table
two_writes = ((0, 40) ∷ (1, 50) ∷ [], (refl, (refl, tt)))

commit-KeptAll_example :
    (n : ℕ) × (u : State objects.Object) × (commit objects table start two_writes 1
      ≡ ok (n, u, clear objects table two_writes))
    × KeptAll objects laws table start u
    × (((n ≡ 2) × Written objects laws table start u two_writes 1)
        ⊎ ((n ≡ 0) × Conflicting objects laws table start u two_writes 1))
commit-KeptAll_example =
    commit-KeptAll objects laws table start two_writes 1 start-Sound (inl (refl, refl))
      (omega arith)

remove_snapshot-Removed_example :
    (u : State objects.Object) × (remove_snapshot objects start 0 ≡ ok u)
    × Removed objects laws start u 0
remove_snapshot-Removed_example =
    remove_snapshot-Removed objects laws start 0 start-Sound (inl (refl, refl))

abbrev committed :
    (n : ℕ) × (u : State objects.Object) × (commit objects table start two_writes 1
      ≡ ok (n, u, clear objects table two_writes))
    × KeptAll objects laws table start u
    × (((n ≡ 2) × Written objects laws table start u two_writes 1)
        ⊎ ((n ≡ 0) × Conflicting objects laws table start u two_writes 1))
committed =
    commit-KeptAll objects laws table start two_writes 1 start-Sound (inl (refl, refl))
      (omega arith)

still_there : Present objects laws committed.1 1
still_there =
    subst (λ f. Holds 1 (f 1).epoch committed.1.entries) (sym committed.3.same_snapshots)
      (committed.3.held 1 1 (inl (refl, refl)))

abbrev moved :
    (u : State objects.Object) × (set_epoch objects committed.1 1 committed.0 ≡ ok u)
    × Moved objects laws committed.1 u 1 committed.0
moved = set_epoch-Moved objects laws committed.1 1 committed.0 committed.3.sound still_there

-- Snapshot 1 commits, and moves to the new epoch.
run : Steps objects laws table (λ p. 0 ≢ p) start moved.0
run =
    step 1
      (step 1 done (λ e. absurd (omega (arith, e)))
        (write two_writes (clear objects table two_writes) committed.0 (inl (refl, refl))
          (omega arith) committed.2))
      (λ e. absurd (omega (arith, e))) (move committed.0 still_there moved.1)

Steps-reads_example :
    Sound objects laws moved.0
    × (moved.0.snapshot 0 ≡ start.snapshot 0)
    × Holds 0 1 moved.0.entries
    × ((q : ℕ) → laws.read (moved.0.object q) 1 ≡ laws.read (start.object q) 1)
Steps-reads_example =
    Steps-reads objects laws table start 0 1 moved.0 start-Sound (inl (refl, refl)) run

-- Thread 1, which is in a section, commits both writes and renews its section.
abbrev writer : Transaction objects table
writer = record { snapshot = 1; local_values = two_writes; use_critical = true }

abbrev world : World objects table
world = record { registry = start; sections = two_open }

commit-Renewal_example :
    (b : Bool) × (u : World objects table) × (t : Transaction objects table) × (Transaction.commit
        objects table world writer 1
      ≡ ok (b, u, t))
    × Finished objects laws table start u.registry 1 two_writes b
    × Renewal true two_open u.sections two_queue 1
commit-Renewal_example =
    commit-Renewal objects laws table world writer 1 two_queue start-Sound two_open-Represents
      (inl (refl, refl)) (omega arith) (λ e. (refl, omega arith))

-- Thread 3 begins a transaction on snapshot 2.
begin_local-Entering_example :
    (u : World objects table) × (t : Transaction objects table) × (begin_local objects table world
        none 2 3
      ≡ ok (u, t, none))
    × (t.snapshot ≡ 2)
    × ((obj : ℕ) → table.find t.local_values obj ≡ none)
    × Joined objects laws start u.registry 2
    × ((r : Queue) × Reach two_queue [] r
        × Represents u.sections r
        × Entering two_open u.sections two_queue r 3)
begin_local-Entering_example =
    begin_local-Entering objects laws table world none 2 3 two_queue start-Sound two_open-Represents
      (refl, tt) (omega arith)

-- Thread 1 ends its transaction without a commit.
end_local-Leaving_example :
    (u : World objects table) × (end_local objects table world writer none 1 ≡ ok (u, none))
    × Removed objects laws start u.registry 1
    × ((r : Queue) × Reach two_queue [] r
        × Represents u.sections r
        × Leaving two_open u.sections two_queue r 1)
end_local-Leaving_example =
    end_local-Leaving objects laws table world writer none 1 two_queue start-Sound
      two_open-Represents (inl (refl, refl)) refl

-- The snapshots 1 and 0 begin, 1 commits and moves on.
abbrev blank : ℕ → Snapshot
blank p = record { epoch = 0; retries = 0; status = Status.uninitialized }

abbrev fresh : State objects.Object
fresh = Start.start blank (λ q. new_versioned buffer 7)

-- The snapshot records once `p` has begun at epoch 1.
abbrev begun : (ℕ → Snapshot) → ℕ → ℕ → Snapshot
begun f p =
    let f1 = update f p (blank p) in
    let f2 = update f1 p (record (f1 p) { epoch = 1 }) in
    update f2 p (record (f2 p) { status = Status.initialized })

abbrev with_one : State objects.Object
with_one = record fresh {
  entries = record { epoch = 1; snapshots = 1 ∷ []; cleanups = [] } ∷ [];
  snapshot = begun blank 1;
}

abbrev with_both : State objects.Object
with_both = record fresh {
  entries = record { epoch = 1; snapshots = 0 ∷ 1 ∷ []; cleanups = [] } ∷ [];
  snapshot = begun (begun blank 1) 0;
}

one_begins : new_snapshot objects fresh 1 ≡ ok with_one
unfolding new_snapshot register_me register_snapshot check_inserted clean_previous find
    insert_snapshot registered_status set_insert
one_begins = refl

other_begins : new_snapshot objects with_one 0 ≡ ok with_both
unfolding new_snapshot register_me register_snapshot check_inserted clean_previous find
    insert_snapshot registered_status set_insert
other_begins = refl

both_begin : Steps objects laws table (λ p. Unit {0}) fresh with_both
both_begin = step 0 (step 1 done tt (begin tt one_begins)) tt (begin (refl, tt) other_begins)

with_both-Sound : Sound objects laws with_both
with_both-Sound =
    Steps-Sound objects laws table (λ p. Unit {0}) fresh with_both
      (new_versioned-Sound buffer table blank (λ q. 7)) both_begin

abbrev one_commits :
    (n : ℕ) × (u : State objects.Object) × (commit objects table with_both two_writes 1
      ≡ ok (n, u, clear objects table two_writes))
    × KeptAll objects laws table with_both u
    × (((n ≡ 2) × Written objects laws table with_both u two_writes 1)
        ⊎ ((n ≡ 0) × Conflicting objects laws table with_both u two_writes 1))
one_commits =
    commit-KeptAll objects laws table with_both two_writes 1 with_both-Sound (inl (refl, refl))
      (omega arith)

Steps-value_at_epoch_example :
    (one_commits.1.snapshot 0 ≡ with_both.snapshot 0)
    × Holds 0 1 one_commits.1.entries
    × ((q : ℕ)
        → value_at_epoch buffer (one_commits.1.object q) 1
          ≡ value_at_epoch buffer (with_both.object q) 1)
Steps-value_at_epoch_example =
    Steps-value_at_epoch buffer table blank (λ q. 7) with_both one_commits.1 0 1 both_begin
      (inl (refl, refl))
      (step 1 done (λ e. absurd (omega (arith, e)))
        (write two_writes (clear objects table two_writes) one_commits.0 (inl (refl, refl))
          (omega arith) one_commits.2))
