-- ===== src/Tests/Compressed.antt =====
-- `compress_epochs` of jmvcc/snapshot.cc on concrete maps.
use libjmvcc.Base.{
  ℕ, ◌≡◌, ◌≢◌, refl, [], ◌∷◌, arith, true, ok, ◌==◌, if◌then◌else◌, contains, contains-cases, inl,
  inr, ap, update,
}
use libjmvcc.VersionedObject.{VersionedObject}
use libjmvcc.SnapshotInfo.Registry.{State, Status}
use libjmvcc.SnapshotInfo.Compress.{
  compress_epochs, rename_cleanups, rename_extra, rename_object, add_extra,
}
use libjmvcc.CircularBuffer.{CircularBuffer, list_buffer}
use libjmvcc.Timeline.{Entry}
use libjmvcc.Versioned.{rename_epoch}
use libjmvcc.Versioned.Object.{versioned_object}
use libjmvcc.SnapshotInfo.Compress.Numbering.{Numbered}
use libjmvcc.SnapshotInfo.Compress.Renaming.{renames, Matching, Absent}
use libjmvcc.SnapshotInfo.Compress.Success.{compress_epochs-succeeds}

abbrev buffer : CircularBuffer (Entry ℕ)
buffer = list_buffer (Entry ℕ)

abbrev objects : VersionedObject
objects = versioned_object buffer

-- Every object holds 10 from epoch 1 on and 30 from epoch 7 on. Snapshot 0 sees epoch 3, and with it
-- the old version of object 0 goes; snapshot 1 sees epoch 7.
abbrev registry : State objects.Object
registry = record {
  current_epoch = 8;
  earliest_epoch = 3;
  entries =
      record {
        epoch = 3;
        snapshots = 0 ∷ [];
        cleanups = record { object = 0; valid_from = 1 } ∷ [];
      }
      ∷ record { epoch = 7; snapshots = 1 ∷ []; cleanups = [] }
      ∷ [];
  snapshot =
      λ p. record { epoch = if p == 0 then 3 else 7; retries = 0; status = Status.initialized };
  object = λ q. record { current = 30; history = record { valid_to = 7; value = 10 } ∷ [] };
}

-- Object 0 holds 30 from epoch 2 on.
abbrev renamed : State objects.Object
renamed = record registry {
  object =
      update
        (update registry.object 0
          (record { current = 30; history = record { valid_to = 7; value = 10 } ∷ [] }))
        0 (record { current = 30; history = record { valid_to = 2; value = 10 } ∷ [] });
}

registry-renames : renames objects registry (λ epoch. []) 1 registry.entries ≡ ok renamed
unfolding renames rename_cleanups rename_extra rename_object add_extra rename_epoch
registry-renames = refl

some_entry : registry.entries ≢ []
some_entry e = cc

sees :
    (p k : ℕ)
    → contains p (k ∷ []) ≡ true
    → (registry.snapshot p).epoch ≡ (registry.snapshot k).epoch
sees p k m = elim (contains-cases p k [] m) [
  | inl e ↦ ap (λ p. (registry.snapshot p).epoch) e
  | inr n ↦ absurd (ground (arith, n))
]

registry-Matching : Matching registry.snapshot registry.entries
registry-Matching = ((refl, tt), (λ p m. sees p 0 m), ((refl, tt), (λ p m. sees p 1 m), tt))

compress_epochs-succeeds_example :
    (u : State objects.Object) × (compress_epochs objects registry ≡ ok u)
    × (u.object ≡ renamed.object)
    × Numbered 1 registry.entries u.entries
    × Matching u.snapshot u.entries
    × ((p : ℕ) → Absent p registry.entries → u.snapshot p ≡ registry.snapshot p)
    × (u.current_epoch ≡ 3)
    × (u.earliest_epoch ≡ 1)
compress_epochs-succeeds_example =
    compress_epochs-succeeds objects registry renamed some_entry (omega arith, (omega arith, tt))
      (omega arith, (omega arith, tt)) registry-Matching registry-renames
