-- ===== src/SnapshotInfo/Compress.antt =====
-- `compress_epochs` of jmvcc/snapshot.cc. It holds the commit lock and the lock of the map, and is
-- one step. The epoch of an entry is read as an `int`, which is negative from 2 ^ 31 on.
pub mod Numbering
pub mod Renaming
pub mod Success
use libjmvcc.Base.{
  update, ℕ, ◌+◌, ◌-◌, ◌^◌, Bool, true, false, List, [], ◌∷◌, ◌++◌, Option, none, some, ltb, ◌==◌,
  if◌then◌else◌, Error, Result, ok, ◌>>=◌, ◌>>◌, throw_if,
}
use libjmvcc.VersionedObject.{VersionedObject}
use libjmvcc.SnapshotInfo.Registry.{State, CleanupEntry, Entry}
use libjmvcc.SnapshotInfo.{find, is_empty, rename_epoch}

-- An `int`; `negsuc n` is -(n + 1).
pub data ℤ : Type 0 where
  pos : ℕ → ℤ
  negsuc : ℕ → ℤ

-- `int old_epoch = it->first`: an unsigned value as an `int` of 32 bits.
pub as_int : ℕ → ℤ
as_int n = if ltb n (2 ^ 31) then pos n else negsuc (2 ^ 32 - 1 - n)

-- `a > b`
pub gt : ℤ → ℤ → Bool
gt (pos a) (pos b) = ltb b a
gt (pos a) (negsuc b) = true
gt (negsuc a) (pos b) = false
gt (negsuc a) (negsuc b) = ltb a b

-- `new_epoch > old_epoch`, where the next epoch has been counted up as an `int`.
pub exceeds : ℕ → ℕ → Bool
exceeds new_epoch old_epoch = gt (pos new_epoch) (as_int old_epoch)

-- `entries[epoch]` for an epoch that has no entry, with what is swapped into it.
pub insert_entry : Entry → List Entry → List Entry
insert_entry n [] = n ∷ []
insert_entry n (e ∷ es) = if ltb n.epoch e.epoch then n ∷ e ∷ es else e ∷ insert_entry n es

pub erase_entry : ℕ → List Entry → List Entry
erase_entry epoch [] = []
erase_entry epoch (e ∷ es) = if e.epoch == epoch then es else e ∷ erase_entry epoch es

-- The push to `extra_versions` of an object with a further version at epoch `next`, if not 0.
unfoldable pub add_extra : (ℕ → List ℕ) → ℕ → ℕ → ℕ → List ℕ
add_extra extra next obj = if next == 0 then extra else update extra next (extra next ++ obj ∷ [])

module _ (V : VersionedObject) where
  open V use {Object}

  -- `obj->rename_epoch(valid_from, new_epoch)`
  unfoldable pub rename_object : State Object → ℕ → ℕ → ℕ → Result (ℕ × State Object)
  rename_object s obj valid_from new_epoch = do
    (next, o) ← V.rename_epoch (s.object obj) valid_from new_epoch
    ok (next, record s { object = update s.object obj o })

  -- The loop over the cleanups of an entry, which get the new epoch.
  unfoldable pub rename_cleanups :
      State Object
      → (ℕ → List ℕ)
      → ℕ
      → List CleanupEntry
      → Result (State Object × (ℕ → List ℕ) × List CleanupEntry)
  rename_cleanups s extra new_epoch [] = ok (s, extra, [])
  rename_cleanups s extra new_epoch (c ∷ cs) = do
    (next, s1) ← rename_object s c.object c.valid_from new_epoch
    (s2, extra2, cs2) ← rename_cleanups s1 (add_extra extra next c.object) new_epoch cs
    ok (s2, extra2, record c { valid_from = new_epoch } ∷ cs2)

  -- The loop over the final versions that begin at the epoch.
  unfoldable pub rename_extra : State Object → ℕ → ℕ → List ℕ → Result (State Object)
  rename_extra s old_epoch new_epoch [] = ok s
  rename_extra s old_epoch new_epoch (obj ∷ objs) = do
    (next, s1) ← rename_object s obj old_epoch new_epoch
    rename_extra s1 old_epoch new_epoch objs

  -- The loop over the snapshots of the epoch.
  pub rename_snapshots : State Object → ℕ → ℕ → List ℕ → Result (State Object)
  rename_snapshots s old_epoch new_epoch [] = ok s
  rename_snapshots s old_epoch new_epoch (p ∷ ps) = do
    s1 ← rename_epoch V s p old_epoch new_epoch
    rename_snapshots s1 old_epoch new_epoch ps

  pub is_found : Option (List Entry × Entry × List Entry) → Bool
  is_found none = false
  is_found (some x) = true

  -- The body of the loop at an entry whose epoch changes.
  pub compress_entry :
      State Object → (ℕ → List ℕ) → ℕ → Entry → Result (State Object × (ℕ → List ℕ))
  compress_entry s extra new_epoch e = do
    throw_if (exceeds new_epoch e.epoch) Error.logic_error_in_compress
    (s1, extra1, cleanups) ← rename_cleanups s extra new_epoch e.cleanups
    s2 ← rename_extra s1 e.epoch new_epoch (extra1 e.epoch)
    s3 ← rename_snapshots s2 e.epoch new_epoch e.snapshots
    throw_if (is_found (find new_epoch s3.entries)) Error.new_epoch_already_there
    let n : Entry = record { epoch = new_epoch; snapshots = e.snapshots; cleanups = cleanups }
    ok (record s3 { entries = erase_entry e.epoch (insert_entry n s3.entries) }, extra1)

  -- The loop from the entries `es` on, with the next epoch `i`.
  pub compress_loop : State Object → (ℕ → List ℕ) → ℕ → List Entry → Result (State Object)
  compress_loop s extra i [] = ok (record s { current_epoch = i; earliest_epoch = 1 })
  compress_loop s extra i (e ∷ es) =
      let unchanged = compress_loop s extra (i + 1) es in
      if e.epoch == i
      then unchanged
      else (do (s1, extra1) ← compress_entry s extra i e; compress_loop s1 extra1 (i + 1) es)

  pub compress_epochs : State Object → Result (State Object)
  compress_epochs s = if is_empty s.entries then ok s else compress_loop s (λ epoch. []) 1 s.entries
