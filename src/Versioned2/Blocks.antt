-- ===== src/Versioned2/Blocks.antt =====
-- `Versioned2::Data` of jmvcc/versioned2.h: a block of entries, of which those from `first` up to
-- `last` are valid. `history` lists the slots that have been written, so that a read of any other
-- slot is an invalid access; a slot past `last` is not read before it is written again.
pub mod Contents
use libjmvcc.Base.{
  ℕ, zero, suc, ◌+◌, ◌-◌, Bool, true, false, Option, none, some, List, [], ◌∷◌, ◌++◌, leb, ltb,
  ◌==◌, if◌then◌else◌, get_elem?, set, take, Error, Result, ok, throw, ◌>>=◌, ◌>>◌, throw_if,
}
use libjmvcc.Timeline.{Entry}

pub record Data (T : Type 0) : Type 0 where
  pub capacity : ℕ
  pub first : ℕ
  pub last : ℕ
  pub history : List (Entry T)

module _ {T : Type 0} where
  pub size : Data T → ℕ
  size d = d.last - d.first

  -- `history[i]`
  pub read : Data T → ℕ → Result (Entry T)
  read d i = elim (get_elem? d.history i) [ none ↦ throw Error.invalid_access | some e ↦ ok e ]

  -- `history[i].valid_to = epoch`
  pub write_valid_to : Data T → ℕ → ℕ → Result (Data T)
  unfolding read
  write_valid_to d i epoch = do
    e ← read d i
    ok (record d { history = set d.history i (record e { valid_to = epoch }) })

  pub element : Data T → ℕ → Result (Entry T)
  unfolding size read
  element d i = if ltb i (size d) then read d (d.first + i) else throw Error.invalid_element

  -- `new_data(capacity)`
  pub new_data : ℕ → Data T
  new_data capacity = record { capacity = capacity; first = 0; last = 0; history = [] }

  pub push_back : Data T → Entry T → Result (Data T)
  push_back d e =
      if d.last == d.capacity
      then throw Error.cant_push_back
      else ok (record d { last = d.last + 1; history = take d.last d.history ++ e ∷ [] })

  pub pop_back : Data T → Result (Data T)
  unfolding size
  pop_back d =
      if ltb (size d) 2
      then throw Error.popping_back_last_element
      else ok (record d { last = d.last - 1 })

  -- `new_data(val, capacity)`
  pub new_data_value : T → ℕ → Result (Data T)
  unfolding push_back
  new_data_value val capacity = push_back (new_data capacity) (record { valid_to = 1; value = val })

  -- The loop of the copying constructor, with `n` elements left from element `i` on.
  pub copy_loop : Data T → ℕ → ℕ → Data T → Result (Data T)
  unfolding element push_back
  copy_loop old zero i d = ok d
  copy_loop old (suc n) i d = do e ← element old i; d' ← push_back d e; copy_loop old n (i + 1) d'

  -- `new_data(old, capacity)`
  pub new_data_copy : Data T → ℕ → Result (Data T)
  new_data_copy old capacity = copy_loop old (size old) 0 (new_data capacity)

  pub copy : Data T → ℕ → Result (Data T)
  copy d new_capacity = do
    throw_if (ltb new_capacity (size d)) Error.new_capacity_is_wrong
    new_data_copy d new_capacity

  -- The loop of `value_at_epoch` with `i` at `first + n`, and the return behind it.
  pub scan : Data T → ℕ → ℕ → Result T
  unfolding read
  scan d epoch zero = do e ← read d d.first; ok e.value
  scan d epoch (suc j) = do
    e ← read d (d.first + j)
    let rest = scan d epoch j
    if leb e.valid_to epoch then (do x ← read d (d.first + suc j); ok x.value) else rest

  pub value_at_epoch : Data T → ℕ → Result T
  unfolding scan
  value_at_epoch d epoch = scan d epoch (d.last - 1 - d.first)
