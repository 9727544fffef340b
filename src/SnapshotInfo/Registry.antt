-- ===== src/SnapshotInfo/Registry.antt =====
-- The state of jmvcc/snapshot.h: the two global epochs, the map from epochs to entries, in the
-- order of its keys, and the snapshots and objects that the pointers point to, by number.
use libjmvcc.Base.{
  contains, update, ℕ, List, [], ◌∷◌, ltb, ◌==◌, if◌then◌else◌, Error, Result, ok, ◌>>◌, throw_if,
}

pub data Status : Type 0 where
  uninitialized initialized restarting restarting0 restarting0a restarting0b restarting2 : Status
  restarted committing committed failed : Status

-- `Snapshot`
pub record Snapshot : Type 0 where
  pub epoch : ℕ
  pub retries : ℕ
  pub status : Status

-- `Snapshot_Info::Cleanup_Entry`
pub record CleanupEntry : Type 0 where
  pub object : ℕ
  pub valid_from : ℕ

-- `Snapshot_Info::Entry`, with its key in the map.
pub record Entry : Type 0 where
  pub epoch : ℕ
  pub snapshots : List ℕ
  pub cleanups : List CleanupEntry

pub record State (O : Type 0) : Type 0 where
  pub current_epoch : ℕ
  pub earliest_epoch : ℕ
  pub entries : List Entry
  pub snapshot : ℕ → Snapshot
  pub object : ℕ → O

-- `set<Snapshot *>`: insert and erase.
unfoldable pub set_insert : ℕ → List ℕ → List ℕ
set_insert p qs = if contains p qs then qs else p ∷ qs

unfoldable pub set_erase : ℕ → List ℕ → List ℕ
set_erase p [] = []
set_erase p (q ∷ qs) = if p == q then qs else q ∷ set_erase p qs

module _ {O : Type 0} where
  unfoldable pub set_current_epoch : State O → ℕ → Result (State O)
  set_current_epoch s val = do
    throw_if (ltb val s.current_epoch) Error.current_epoch_is_decreasing
    ok (record s { current_epoch = val })

  unfoldable pub set_earliest_epoch : State O → ℕ → Result (State O)
  set_earliest_epoch s val = do
    throw_if (ltb val s.earliest_epoch) Error.earliest_epoch_was_not_increasing
    throw_if (ltb s.current_epoch val) Error.earliest_epoch_after_current_epoch
    ok (record s { earliest_epoch = val })

  abbrev pub set_status : State O → ℕ → Status → State O
  set_status s p status = record s {
    snapshot = update s.snapshot p (record (s.snapshot p) { status = status });
  }
