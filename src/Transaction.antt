-- ===== src/Transaction.antt =====
-- jmvcc/transaction.cc, and the methods `read`, `mutate` and `write` of jmvcc/versioned.h and
-- jmvcc/versioned2.h, which go through the current transaction. A transaction is a snapshot, by its
-- number, with a sandbox. `value_at_epoch` is a parameter, for the two kinds of object.
pub mod Access
use libjmvcc.Base.{
  ℕ, suc, ◌+◌, Bool, true, false, Option, none, some, ◌==◌, if◌then◌else◌, not, Error, Result, ok,
  throw, ◌>>=◌, ◌>>◌,
}
use libjmvcc.VersionedObject.{VersionedObject}
use libjmvcc.LocalValues.{LocalValues}
use libjmvcc.SnapshotInfo.Registry.{State, Status, set_status}
use libjmvcc.SnapshotInfo.{restart, set_epoch, new_snapshot, remove_snapshot}
use libjmvcc.Garbage.{Sections, new_critical, enter_critical, leave_critical}
use libjmvcc.Sandbox
use libjmvcc.Sandbox.{local_value, local_value_or}

module _ (V : VersionedObject) (L : LocalValues V.Value) where
  open V use {Object, Value}
  open L use {Table}

  pub record Transaction : Type 0 where
    pub snapshot : ℕ
    pub local_values : Table
    pub use_critical : Bool

  pub record World : Type 0 where
    pub registry : State Object
    pub sections : Sections

  -- `if (!result) restart();`
  unfoldable pub restart_failed : State Object → ℕ → ℕ → Result (State Object)
  restart_failed s p result = if result == 0 then restart V s p else ok s

  -- `if (use_critical) new_critical();`
  unfoldable pub renew_critical : Bool → Sections → ℕ → Result Sections
  renew_critical true g thread = new_critical g thread
  renew_critical false g thread = ok g

  -- `commit`, by the thread: whether it succeeded, and what is then there.
  unfoldable pub commit : World → Transaction → ℕ → Result (Bool × World × Transaction)
  commit w t thread =
      let p = t.snapshot in
      let s = set_status w.registry p Status.committing in
      do
        (result, s1, table) ← Sandbox.commit V L s t.local_values (s.snapshot p).epoch
        let status = if result == 0 then Status.failed else Status.committed
        s2 ← restart_failed (set_status s1 p status) p result
        g ← renew_critical t.use_critical w.sections thread
        s3 ← set_epoch V s2 p result
        ok (
          not (result == 0),
          record { registry = s3; sections = g },
          record t { local_values = table },
        )

  -- The constructor of `Local_Transaction`, with that of its bases, by the thread: the new current
  -- transaction and the one before it.
  unfoldable pub begin_local :
      World → Option Transaction → ℕ → ℕ → Result (World × Transaction × Option Transaction)
  begin_local w current_trans p thread = do
    g ← enter_critical w.sections thread
    s ← new_snapshot V w.registry p
    ok (
      record { registry = s; sections = g },
      record { snapshot = p; local_values = L.empty; use_critical = true },
      current_trans,
    )

  -- Its destructor, with those of its bases: the sandbox, the snapshot, and the critical section.
  unfoldable pub end_local :
      World → Transaction → Option Transaction → ℕ → Result (World × Option Transaction)
  end_local w t old_trans thread = do
    s ← remove_snapshot V w.registry t.snapshot
    g ← leave_critical w.sections thread
    ok (record { registry = s; sections = g }, old_trans)

  module _ (value_at_epoch : Object → ℕ → Result Value) where
    -- `mutate`, by the local value that is there.
    pub mutate_found : State Object → Transaction → ℕ → Option Value → Result (Value × Transaction)
    mutate_found s t obj (some v) = ok (v, t)
    mutate_found s t obj none = do
      value ← value_at_epoch (s.object obj) (s.snapshot t.snapshot).epoch
      let (v, table) = local_value_or V L t.local_values obj value
      ok (v, record t { local_values = table })

    -- `mutate`, with no transaction or the current one: the local value, and the sandbox.
    pub mutate : State Object → Option Transaction → ℕ → Result (Value × Transaction)
    mutate s none obj = throw Error.no_transaction
    mutate s (some t) obj = mutate_found s t obj (local_value V L t.local_values obj)

    -- `write`: `mutate() = val`, which assigns through the reference to the local value.
    pub write : State Object → Option Transaction → ℕ → Value → Result Transaction
    write s t obj val = do
      (v, t') ← mutate s t obj
      ok (record t' { local_values = L.assign t'.local_values obj val })

    -- `read` within a transaction, by the local value that is there.
    pub read_found : State Object → Transaction → ℕ → Option Value → Result Value
    read_found s t obj (some v) = ok v
    read_found s t obj none = value_at_epoch (s.object obj) (s.snapshot t.snapshot).epoch

    pub read_in : State Object → Transaction → ℕ → Result Value
    read_in s t obj = read_found s t obj (local_value V L t.local_values obj)

    -- `Versioned::read`, which outside a transaction reads at the current epoch.
    pub read : State Object → Option Transaction → ℕ → Result Value
    read s none obj = value_at_epoch (s.object obj) s.current_epoch
    read s (some t) obj = read_in s t obj

    -- `Versioned2::read`, which outside a transaction throws.
    pub read_lock_free : State Object → Option Transaction → ℕ → Result Value
    read_lock_free s none obj = throw Error.no_transaction
    read_lock_free s (some t) obj = read_in s t obj
