-- ===== src/Sandbox.antt =====
-- `Sandbox` of jmvcc/sandbox.h and jmvcc/sandbox.cc: the values that a transaction has written, and
-- their commit. A local value stands for the memory that `malloc` returns for it. The commit lock
-- makes `commit` one step.
pub mod Rollback
pub mod Atomic
pub mod Accepted
use libjmvcc.Base.{
  update, ℕ, ◌≡◌, ap, suc, ◌+◌, ◌%◌, Bool, true, false, List, [], ◌∷◌, Option, none, some,
  if◌then◌else◌, Result, ok, ◌>>=◌,
}
use libjmvcc.VersionedObject.{VersionedObject}
use libjmvcc.LocalValues.{LocalValues}
use libjmvcc.Versioned.{epoch_mod}
use libjmvcc.SnapshotInfo.Registry.{State, set_current_epoch}
use libjmvcc.SnapshotInfo.{register_cleanup}

module _ (V : VersionedObject) (L : LocalValues V.Value) where
  open V use {Object, Value}
  open L use {Table}

  -- `local_value(obj)`
  unfoldable pub local_value : Table → ℕ → Option Value
  local_value t obj = L.find t obj

  -- `local_value(obj, initial_value)`, by what is there: the value that is there afterwards, and the
  -- table.
  pub found_or_inserted : Table → ℕ → Value → Option Value → Value × Table
  found_or_inserted t obj initial_value none = (initial_value, L.insert t obj initial_value)
  found_or_inserted t obj initial_value (some v) = (v, t)

  pub local_value_or : Table → ℕ → Value → Value × Table
  local_value_or t obj initial_value = found_or_inserted t obj initial_value (L.find t obj)

  pub local_value_or-absent :
      (t : Table) (obj : ℕ) (initial_value : Value)
      → L.find t obj ≡ none
      → local_value_or t obj initial_value ≡ (initial_value, L.insert t obj initial_value)
  unfolding local_value_or found_or_inserted
  local_value_or-absent t obj initial_value p = ap (found_or_inserted t obj initial_value) p

  pub num_local_values : Table → ℕ
  num_local_values t = count (L.to_list t)
    where
      count : List (ℕ × Value) → ℕ
      count [] = 0
      count (x ∷ xs) = suc (count xs)

  pub clear : Table → Table
  clear t = L.empty

  -- One more object is set up.
  abbrev pub and_done : ℕ → Bool × List ℕ × (ℕ → Object) → Bool × List ℕ × (ℕ → Object)
  and_done k (b, done, g) = (b, k ∷ done, g)

  -- The loop of `commit` over `setup`: its result, the objects that are set up, and the store.
  pub setup_loop :
      ℕ → ℕ → ℕ → (ℕ → Object) → List (ℕ × Value) → Result (Bool × List ℕ × (ℕ → Object))
  setup_loop current old new f [] = ok (true, [], f)
  setup_loop current old new f ((k, v) ∷ l) = do
    (b, o) ← V.setup current (f k) old new v
    let rest = setup_loop current old new (update f k o) l
    if b then (do r ← rest; ok (and_done k r)) else ok (false, [], update f k o)

  -- The loop over `rollback`.
  pub rollback_loop : (ℕ → Object) → List ℕ → Result (ℕ → Object)
  rollback_loop f [] = ok f
  rollback_loop f (k ∷ ks) = do o ← V.rollback (f k); rollback_loop (update f k o) ks

  -- The loop over `commit`, which registers a cleanup for each object.
  pub commit_loop : ℕ → State Object → List (ℕ × Value) → Result (State Object)
  commit_loop new s [] = ok s
  commit_loop new s ((k, v) ∷ l) = do
    valid_from ← V.commit (s.object k) new
    s' ← register_cleanup V s k valid_from
    commit_loop new s' l

  -- The two branches of `commit` on the result of the first loop.
  finish :
      State Object → ℕ → List (ℕ × Value) → Bool × List ℕ × (ℕ → Object) → Result (ℕ × State Object)
  finish s new l (true, done, g) = do
    s' ← set_current_epoch (record s { object = g }) new
    s'' ← commit_loop new s' l
    ok (new, s'')
  finish s new l (false, done, g) = do g' ← rollback_loop g done; ok (0, record s { object = g' })

  pub commit : State Object → Table → ℕ → Result (ℕ × State Object × Table)
  commit s t old_epoch =
      let new = (s.current_epoch + 1) % epoch_mod in
      do
        r ← setup_loop s.current_epoch old_epoch new s.object (L.to_list t)
        (result, s') ← finish s new (L.to_list t) r
        ok (result, s', clear t)
