-- ===== src/SnapshotInfo.antt =====
-- `Snapshot_Info` of jmvcc/snapshot.cc and `Snapshot` of jmvcc/snapshot_impl.h. A method holds the
-- lock of the map while it changes it, and is one step. An iterator into the map is the list cut at
-- its entry. Objects are known through their interface `V`.
pub mod Registry
pub mod Order
pub mod Retire
pub mod Remove
pub mod Register
pub mod Compress
use libjmvcc.Base.{
  contains, update, ℕ, suc, Bool, true, false, List, [], ◌∷◌, ◌++◌, Option, none, some, leb, ltb,
  ◌==◌, if◌then◌else◌, not, ◌||◌, get_last?, Error, Result, ok, throw, ◌>>=◌, ◌>>◌, throw_if,
}
use libjmvcc.VersionedObject.{VersionedObject}
use Registry.{
  State, Status, Snapshot, CleanupEntry, Entry, set_insert, set_erase, set_earliest_epoch,
  set_status,
}

-- `entries.find(epoch)`: the entries before, the entry, and those behind it.
unfoldable pub find : ℕ → List Entry → Option (List Entry × Entry × List Entry)
find epoch [] = none
find epoch (e ∷ es) =
    if e.epoch == epoch
    then some ([], e, es)
    else elim (find epoch es) [ none ↦ none | some (b, x, a) ↦ some (e ∷ b, x, a) ]

-- `entries[epoch].snapshots.insert(p)`
unfoldable pub insert_snapshot : ℕ → ℕ → List Entry → List Entry
insert_snapshot epoch p [] = record { epoch = epoch; snapshots = p ∷ []; cleanups = [] } ∷ []
insert_snapshot epoch p (e ∷ es) =
    if e.epoch == epoch
    then record e { snapshots = set_insert p e.snapshots } ∷ es
    else if ltb epoch e.epoch
    then record { epoch = epoch; snapshots = p ∷ []; cleanups = [] } ∷ e ∷ es
    else e ∷ insert_snapshot epoch p es

-- `add_cleanup` on the entry before the end of the list.
unfoldable pub add_cleanups : List Entry → List CleanupEntry → List Entry
add_cleanups [] cs = []
add_cleanups (e ∷ []) cs = record e { cleanups = e.cleanups ++ cs } ∷ []
add_cleanups (e ∷ x ∷ es) cs = e ∷ add_cleanups (x ∷ es) cs

-- The loop of `perform_cleanup` over the cleanups: those still needed by the previous snapshot, and
-- those that are not needed anymore.
unfoldable pub share : Option Entry → List CleanupEntry → List CleanupEntry × List CleanupEntry
share none cs = ([], cs)
share (some prev) [] = ([], [])
share (some prev) (c ∷ cs) =
    let (moved, obsolete) = share (some prev) cs in
    if leb c.valid_from prev.epoch then (c ∷ moved, obsolete) else (moved, c ∷ obsolete)

-- The new earliest epoch, when the first entry goes.
pub next_earliest : ℕ → List Entry → ℕ
next_earliest current_epoch [] = current_epoch
next_earliest current_epoch (e ∷ es) = e.epoch

abbrev pub is_empty {ℓ} : {A : Type ℓ} → List A → Bool
is_empty [] = true
is_empty (x ∷ xs) = false

module _ (V : VersionedObject) where
  open V use {Object}

  -- The new earliest epoch, if there is no entry before the one that goes.
  pub move_earliest : State Object → List Entry → List Entry → Result (State Object)
  move_earliest s [] after = set_earliest_epoch s (next_earliest s.current_epoch after)
  move_earliest s (x ∷ before) after = ok s

  -- `perform_cleanup` up to the release of the lock: the state, and what is to be cleaned up.
  pub retire :
      State Object → List Entry → Entry → List Entry → Result (State Object × List CleanupEntry)
  retire s before entry after = do
    throw_if (not (is_empty entry.snapshots)) Error.perform_cleanup_with_snapshots
    s' ← move_earliest s before after
    let (moved, obsolete) = share (get_last? before) entry.cleanups
    ok (record s' { entries = add_cleanups before moved ++ after }, obsolete)

  -- The rest of `perform_cleanup`: the cleanups, with no lock held.
  unfoldable pub run_cleanups : State Object → List CleanupEntry → Result (State Object)
  run_cleanups s [] = ok s
  run_cleanups s (c ∷ cs) = do
    o ← V.cleanup (s.object c.object) c.valid_from
    run_cleanups (record s { object = update s.object c.object o }) cs

  pub perform_cleanup : State Object → List Entry → Entry → List Entry → Result (State Object)
  perform_cleanup s before entry after = do
    (s', obsolete) ← retire s before entry after
    run_cleanups s' obsolete

  -- The end of `register_snapshot`: what was the most recent entry is cleaned up if it is empty.
  pub clean_found : State Object → Option (List Entry × Entry × List Entry) → Result (State Object)
  clean_found s none = throw Error.invalid_access
  clean_found s (some (b, e, a)) = if is_empty e.snapshots then perform_cleanup s b e a else ok s

  unfoldable pub clean_previous : State Object → Option Entry → ℕ → Result (State Object)
  clean_previous s none epoch = ok s
  clean_previous s (some prev) epoch =
      if prev.epoch == epoch then ok s else clean_found s (find prev.epoch s.entries)

  -- The checks of `register_snapshot` on the iterator to the inserted entry, and its end.
  unfoldable pub check_inserted :
      State Object
      → Option Entry
      → ℕ
      → Option (List Entry × Entry × List Entry)
      → Result (State Object)
  check_inserted s previous epoch none = throw Error.inserted_but_not_found
  check_inserted s previous epoch (some (b, e, [])) = clean_previous s previous epoch
  check_inserted s previous epoch (some (b, e, x ∷ a)) = throw Error.inserted_stale_snapshot

  unfoldable pub register_snapshot : State Object → ℕ → Result (State Object)
  register_snapshot s p =
      let epoch = s.current_epoch in
      let es = insert_snapshot epoch p s.entries in
      check_inserted
        (record s {
          snapshot = update s.snapshot p (record (s.snapshot p) { epoch = epoch });
          entries = es;
        })
        (get_last? s.entries) epoch (find epoch es)

  -- `entry.snapshots.erase(snapshot)`, and the cleanup of an entry that is left empty.
  remove_from : State Object → ℕ → List Entry → Entry → List Entry → Result (State Object)
  remove_from s p b e a = do
    throw_if (not (contains p e.snapshots)) Error.snapshots_out_of_sync
    let e' = record e { snapshots = set_erase p e.snapshots }
    let s' = record s { entries = b ++ e' ∷ a }
    if is_empty e'.snapshots then perform_cleanup s' b e' a else ok s'

  pub remove_snapshot : State Object → ℕ → Result (State Object)
  unfolding remove_from
  remove_snapshot s p = do
    throw_if (is_empty s.entries) Error.remove_snapshot_empty_entries
    let s' = set_status s p Status.restarting0a
    elim (find (s.snapshot p).epoch s.entries) [
      | none ↦ throw Error.snapshot_not_found
      | some (b, e, a) ↦ remove_from s' p b e a
    ]

  unfoldable pub register_cleanup : State Object → ℕ → ℕ → Result (State Object)
  register_cleanup s obj valid_from = do
    throw_if (is_empty s.entries) Error.register_cleanup_with_no_snapshots
    ok (record s {
      entries = add_cleanups s.entries (record { object = obj; valid_from = valid_from } ∷ []);
    })

  -- The loop of `has_cleanup`.
  cleanup_of : ℕ → List CleanupEntry → ℕ
  cleanup_of obj [] = 0
  cleanup_of obj (c ∷ cs) = if c.object == obj then c.valid_from else cleanup_of obj cs

  pub has_cleanup : State Object → ℕ → ℕ → ℕ
  unfolding cleanup_of
  has_cleanup s snapshot_epoch obj = elim (find snapshot_epoch s.entries) [
    | none ↦ 0
    | some (b, e, a) ↦ cleanup_of obj e.cleanups
  ]

  unfoldable pub registered_status : Status → Status
  registered_status Status.uninitialized = Status.initialized
  registered_status Status.restarting = Status.restarted
  registered_status status = status

  unfoldable pub register_me : State Object → ℕ → Result (State Object)
  unfolding registered_status
  register_me s p = do
    s' ← register_snapshot s p
    ok (set_status s' p (registered_status (s'.snapshot p).status))

  -- The constructor `Snapshot()`; a new object has no epoch yet, and 0 stands for it.
  unfoldable pub new_snapshot : State Object → ℕ → Result (State Object)
  new_snapshot s p =
      register_me
        (record s {
          snapshot =
              update s.snapshot p
                (record { epoch = 0; retries = 0; status = Status.uninitialized });
        })
        p

  unfoldable pub set_epoch : State Object → ℕ → ℕ → Result (State Object)
  set_epoch s p new_epoch =
      if new_epoch == (s.snapshot p).epoch
      then ok s
      else (do s' ← remove_snapshot s p; register_me s' p)

  unfoldable pub restart : State Object → ℕ → Result (State Object)
  restart s p =
      set_epoch
        (record s {
          snapshot = update s.snapshot p (record (s.snapshot p) {
            status = Status.restarting;
            retries = suc (s.snapshot p).retries;
          });
        })
        p s.current_epoch

  pub rename_epoch : State Object → ℕ → ℕ → ℕ → Result (State Object)
  rename_epoch s p old_epoch new_epoch = do
    throw_if (not ((s.snapshot p).epoch == old_epoch)) Error.wrong_old_epoch
    ok (record s { snapshot = update s.snapshot p (record (s.snapshot p) { epoch = new_epoch }) })
