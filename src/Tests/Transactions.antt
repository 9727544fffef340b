-- ===== src/Tests/Transactions.antt =====
-- A concrete transaction of jmvcc/transaction.h.
use libjmvcc.Base.{
  refl, Bool, ◌==◌, if◌then◌else◌, true, ℕ, ◌≡◌, ap, false, [], ◌∷◌, Option, none, some, arith,
  Result, ok, throw, Error,
}
use libjmvcc.CircularBuffer.{CircularBuffer, list_buffer}
use libjmvcc.Timeline.{Entry}
use libjmvcc.VersionedObject.{VersionedObject}
use libjmvcc.LocalValues.{LocalValues, list_table}
use libjmvcc.Versioned.{Versioned, value_at_epoch}
use libjmvcc.Versioned.Reads.{value_at_epoch-eq-read_at}
use libjmvcc.Versioned.Object.{versioned_object}
use libjmvcc.SnapshotInfo.Registry.{State, Status}
use libjmvcc.Versioned.Updates.{pushed, setup_pushed, setup_conflict}
use libjmvcc.Versioned.Undo.{versioned_undoable}
use libjmvcc.Sandbox.{commit, clear}
use libjmvcc.Sandbox.Atomic.{commit_undone}
use libjmvcc.Sandbox.Accepted.{commit_accepted}
use libjmvcc.SnapshotInfo.{add_cleanups}
use libjmvcc.Versioned.{fake_commit}
use libjmvcc.Transaction.{Transaction, write, read}
use libjmvcc.Transaction.Access.{read-write}

abbrev buffer : CircularBuffer (Entry ℕ)
buffer = list_buffer (Entry ℕ)

abbrev objects : VersionedObject
objects = versioned_object buffer

abbrev table : LocalValues ℕ
table = list_table

-- Every object holds 7 from epoch 1 on, and snapshot 0 is at epoch 3.
abbrev state : State objects.Object
state = record {
  current_epoch = 3;
  earliest_epoch = 3;
  entries = record { epoch = 3; snapshots = 0 ∷ []; cleanups = [] } ∷ [];
  snapshot = λ p. record { epoch = 3; retries = 0; status = Status.initialized };
  object = λ q. record { current = 7; history = [] };
}

abbrev or_throw : Option ℕ → Result ℕ
or_throw none = throw Error.invalid_access
or_throw (some x) = ok x

abbrev reads : Versioned buffer → ℕ → Result ℕ
reads v epoch = or_throw (value_at_epoch buffer v epoch)

abbrev empty_transaction : Transaction objects table
empty_transaction = record { snapshot = 0; local_values = table.empty; use_critical = false }

read-write_example :
    (u : Transaction objects table) × (write objects table reads state (some empty_transaction) 4 9
      ≡ ok u)
    × (read objects table reads state (some u) 4 ≡ ok 9)
    × (read objects table reads state (some u) 5
        ≡ read objects table reads state (some empty_transaction) 5)
read-write_example =
    read-write objects table reads state empty_transaction 4 5 7 9
      (ap or_throw (value_at_epoch-eq-read_at buffer (state.object 4) 3 (omega arith)))
      (λ e. absurd (omega arith))

abbrev plain : Versioned buffer
plain = record { current = 7; history = [] }

-- Written at epoch 8, after the transaction began.
abbrev contended : Versioned buffer
contended = record { current = 30; history = record { valid_to = 8; value = 20 } ∷ [] }

abbrev contended_state : State objects.Object
contended_state = record {
  current_epoch = 8;
  earliest_epoch = 7;
  entries = record { epoch = 7; snapshots = 0 ∷ []; cleanups = [] } ∷ [];
  snapshot = λ p. record { epoch = 7; retries = 0; status = Status.initialized };
  object = λ q. if q == 1 then contended else plain;
}

abbrev two_writes : table.Table
two_writes = ((0, 40) ∷ (1, 50) ∷ [], (refl, (refl, tt)))

abbrev answer : ℕ → Bool × Versioned buffer
answer q = if q == 1 then (false, contended) else (true, pushed buffer plain 9 40)

commit_undone_example :
    (u : State objects.Object) × (commit objects table contended_state two_writes 7
      ≡ ok (0, u, clear objects table two_writes))
    × (u.current_epoch ≡ 8)
    × (u.earliest_epoch ≡ 7)
    × (u.snapshot ≡ contended_state.snapshot)
    × (u.entries ≡ contended_state.entries)
    × ((q : ℕ)
        → ((u.object q).current ≡ (contended_state.object q).current)
          × ((u.object q).history ≡ (contended_state.object q).history))
unfolding versioned_undoable
commit_undone_example =
    commit_undone objects table (versioned_undoable buffer) contended_state two_writes 7 answer
      (
        setup_pushed buffer 8 7 plain 40 (omega arith) (omega arith),
        ((setup_conflict buffer 8 7 contended 50).1 (omega arith), tt),
      )
      refl

abbrev plain_state : State objects.Object
plain_state = record contended_state { object = λ q. plain }

abbrev both_agree : ℕ → Bool × Versioned buffer
both_agree q = (true, pushed buffer plain 9 (if q == 0 then 40 else 50))

first_version : fake_commit buffer (pushed buffer plain 9 40) ≡ 1
unfolding fake_commit pushed
first_version = refl

first_version_too : fake_commit buffer (pushed buffer plain 9 50) ≡ 1
unfolding fake_commit pushed
first_version_too = refl

commit_accepted_example :
    (u : State objects.Object) × (commit objects table plain_state two_writes 8
      ≡ ok (9, u, clear objects table two_writes))
    × (u.current_epoch ≡ 9)
    × (u.earliest_epoch ≡ 7)
    × (u.snapshot ≡ plain_state.snapshot)
    × (u.entries
        ≡ add_cleanups plain_state.entries
            (record { object = 0; valid_from = 1 } ∷ record { object = 1; valid_from = 1 } ∷ []))
    × ((q v : ℕ) → table.find two_writes q ≡ some v → u.object q ≡ (both_agree q).1)
    × ((q : ℕ) → table.find two_writes q ≡ none → u.object q ≡ plain)
commit_accepted_example =
    commit_accepted objects table (versioned_undoable buffer) both_agree (λ q. 1) plain_state
      two_writes 8
      (
        setup_pushed buffer 8 8 plain 40 (omega arith) (omega arith),
        (setup_pushed buffer 8 8 plain 50 (omega arith) (omega arith), tt),
      )
      refl (ap ok first_version, (ap ok first_version_too, tt)) refl (omega arith)
