-- ===== src/Tests/Snapshots.antt =====
-- Concrete maps of jmvcc/snapshot.h, over objects of jmvcc/versioned.h.
use libjmvcc.Base.{ℕ, ◌≡◌, refl, List, [], ◌∷◌, ◌==◌, if◌then◌else◌, arith, ok}
use libjmvcc.CircularBuffer.{list_buffer}
use libjmvcc.Timeline.{Entry}
use libjmvcc.VersionedObject.{VersionedObject}
use libjmvcc.Versioned.Object.{versioned_object}
use libjmvcc.SnapshotInfo.Registry
use libjmvcc.SnapshotInfo.Registry.{State, Status, Snapshot, CleanupEntry}
use libjmvcc.SnapshotInfo.{retire, register_snapshot, set_epoch}
use libjmvcc.SnapshotInfo.Retire.{IsOrdered, Retired, retire-Retired}
use libjmvcc.SnapshotInfo.Register.{
  Registered, Occupied, Standing, register_snapshot-Registered, set_epoch-Registered,
}

abbrev objects : VersionedObject
objects = versioned_object (list_buffer (Entry ℕ))

-- Snapshots 0 and 1 see epoch 2, snapshot 2 sees epoch 5.
abbrev snapshots : ℕ → Snapshot
snapshots p = record { epoch = if p == 2 then 5 else 2; retries = 0; status = Status.initialized }

abbrev early : Registry.Entry
early = record { epoch = 2; snapshots = 0 ∷ 1 ∷ []; cleanups = [] }

-- Of the two cleanups the snapshots of epoch 2 need the first one only.
abbrev late : Registry.Entry
late = record {
  epoch = 5;
  snapshots = 2 ∷ [];
  cleanups = record { object = 0; valid_from = 1 } ∷ record { object = 1; valid_from = 4 } ∷ [];
}

abbrev unused : Registry.Entry
unused = record late { snapshots = [] }

abbrev registry : Registry.Entry → State objects.Object
registry second = record {
  current_epoch = 6;
  earliest_epoch = 2;
  entries = early ∷ second ∷ [];
  snapshot = snapshots;
  object = λ q. record { current = q; history = [] };
}

abbrev registry-IsOrdered : IsOrdered (registry late)
registry-IsOrdered = record {
  sorted = (omega arith, (omega arith, tt));
  recent = (omega arith, (omega arith, tt));
  bounds = omega arith;
}

abbrev unused-IsOrdered : IsOrdered (registry unused)
unused-IsOrdered = record {
  sorted = (omega arith, (omega arith, tt));
  recent = (omega arith, (omega arith, tt));
  bounds = omega arith;
}

retire-Retired_example :
    (t : State objects.Object) × (obsolete : List CleanupEntry) × (retire objects
        (registry unused)
        (early ∷ [])
        unused
        []
      ≡ ok (t, obsolete))
    × Retired objects (registry unused) t (early ∷ []) unused [] obsolete
retire-Retired_example =
    retire-Retired objects (registry unused) (early ∷ []) unused [] unused-IsOrdered refl refl

register_snapshot-Registered_example :
    (t : State objects.Object) × (register_snapshot objects (registry late) 3 ≡ ok t)
    × Registered objects (registry late) t 3
    × Occupied objects t.entries
register_snapshot-Registered_example =
    register_snapshot-Registered objects (registry late) 3 registry-IsOrdered (refl, (refl, tt))

set_epoch-Registered_example :
    (t : State objects.Object) × (set_epoch objects (registry late) 0 6 ≡ ok t)
    × ((t.snapshot 0).epoch ≡ 6)
    × ((t.snapshot 0).status ≡ Status.restarting0a)
    × Standing objects (registry late) t 0
    × IsOrdered t
    × (t.object ≡ (registry late).object)
unfolding Registry.set_erase
set_epoch-Registered_example =
    set_epoch-Registered objects (registry late) 0 6 [] early (late ∷ []) registry-IsOrdered
      (refl, (refl, tt)) refl refl refl refl (λ e. absurd (omega arith))
