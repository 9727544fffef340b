-- ===== src/Versioned/Object.antt =====
-- `Versioned<T>` of jmvcc/versioned.h as a `Versioned_Object`.
use libjmvcc.Base.{ok}
use libjmvcc.CircularBuffer.{CircularBuffer}
use libjmvcc.Timeline.{Entry}
use libjmvcc.VersionedObject.{VersionedObject}
use libjmvcc.Versioned.{Versioned, setup, fake_commit, rollback, cleanup, rename_epoch}

abbrev pub versioned_object : {T : Type 0} → CircularBuffer (Entry T) → VersionedObject
versioned_object {T} B = record {
  Object = Versioned B;
  Value = T;
  setup = setup B;
  commit = λ v new_epoch. ok (fake_commit B v);
  rollback = rollback B;
  cleanup = cleanup B;
  rename_epoch = rename_epoch B;
}
