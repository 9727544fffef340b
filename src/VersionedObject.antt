-- ===== src/VersionedObject.antt =====
-- jmvcc/versioned_object.h: the abstract interface of a versioned object. `commit` returns the
-- `valid_from` that it registers for cleanup with `Snapshot_Info::register_cleanup`; `setup` is
-- given the current epoch, which it reads. `dump` and `print_local_value` only print.
use libjmvcc.Base.{ℕ, Bool, Result}

pub record VersionedObject : Type 1 where
  pub Object : Type 0
  pub Value : Type 0
  pub setup : ℕ → Object → ℕ → ℕ → Value → Result (Bool × Object)
  pub commit : Object → ℕ → Result ℕ
  pub rollback : Object → Result Object
  pub cleanup : Object → ℕ → Result Object
  pub rename_epoch : Object → ℕ → ℕ → Result (ℕ × Object)
