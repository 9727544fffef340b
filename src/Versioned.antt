-- ===== src/Versioned.antt =====
-- jmvcc/versioned.h: the versioned object that keeps its current value apart from the history of
-- older ones. The object's lock makes each method one step; a value stands for the cell that the
-- source allocates for it; the current epoch is an argument where the method reads it.
pub mod Reads
pub mod Updates
pub mod Cleanup
pub mod Rename
pub mod Commit
pub mod Object
pub mod Undo
use libjmvcc.Base.{
  ℕ, zero, suc, ◌+◌, ◌-◌, ◌%◌, ◌^◌, Bool, true, false, Option, none, some, List, [], ◌∷◌, leb, ltb,
  ◌==◌, if◌then◌else◌, not, length, get_elem?, get_last?, Error, Result, ok, throw, ◌>>=◌, ◌>>◌,
  throw_if,
}
use libjmvcc.CircularBuffer.{CircularBuffer}
use libjmvcc.Timeline.{Entry}

-- `Epoch` is `unsigned`.
abbrev pub epoch_mod : ℕ
epoch_mod = 2 ^ 32

module _ {T : Type 0} where
  abbrev pub valid_to_or : ℕ → Option (Entry T) → ℕ
  valid_to_or d none = d
  valid_to_or d (some e) = e.valid_to

  -- `valid_from()`, of the iteration of the history.
  pub valid_from : List (Entry T) → ℕ
  valid_from h = valid_to_or 1 (get_last? h)

  -- `epoch >= history[i].valid_to`
  abbrev pub ended : List (Entry T) → ℕ → ℕ → Bool
  ended h i epoch = elim (get_elem? h i) [ none ↦ false | some e ↦ leb e.valid_to epoch ]

  -- `history[i].value`; `none` is a read out of bounds.
  abbrev pub value_of : List (Entry T) → ℕ → Option T
  value_of h i = elim (get_elem? h i) [ none ↦ none | some e ↦ some e.value ]

  -- The loop of `value_at_epoch`, from index `i` down to 1, and the return behind it.
  unfoldable pub scan : List (Entry T) → ℕ → ℕ → Option T
  scan h epoch zero = value_of h 0
  scan h epoch (suc j) =
      let rest = scan h epoch j in if ended h j epoch then value_of h (suc j) else rest

  -- The loop of `cleanup`: the index at which `valid_from == unused_valid_from`.
  pub find_version : ℕ → ℕ → List (Entry T) → Option ℕ
  find_version unused from [] = none
  find_version unused from (e ∷ es) =
      if from == unused
      then some 0
      else elim (find_version unused e.valid_to es) [ none ↦ none | some i ↦ some (suc i) ]

  -- The loop of `rename_epoch`: the index at which `valid_to == old_valid_from`.
  pub find_valid_to : ℕ → List (Entry T) → Option ℕ
  find_valid_to old [] = none
  find_valid_to old (e ∷ es) =
      if e.valid_to == old
      then some 0
      else elim (find_valid_to old es) [ none ↦ none | some i ↦ some (suc i) ]

  -- `i != 0 && history[i - 1].valid_to >= epoch`
  pub prior_not_before : List (Entry T) → ℕ → ℕ → Bool
  prior_not_before h zero epoch = false
  prior_not_before h (suc j) epoch = elim (get_elem? h j) [
    | none ↦ false
    | some e ↦ leb epoch e.valid_to
  ]

  -- `i != history.size() - 1 && history[i + 1].valid_to <= epoch`
  pub next_not_after : List (Entry T) → ℕ → ℕ → Bool
  next_not_after h i epoch = elim (get_elem? h (suc i)) [
    | none ↦ false
    | some e ↦ leb e.valid_to epoch
  ]

  -- What `rename_epoch` returns: `history[i + 1].valid_to` at `i == history.size() - 2`, or 0.
  pub next_epoch : List (Entry T) → ℕ → ℕ
  next_epoch h i = if i + 2 == length h then valid_to_or 0 (get_elem? h (suc i)) else 0

module _ {T : Type 0} (B : CircularBuffer (Entry T)) where
  open B use {Buffer, to_list, empty, push_back, pop_back, pop_front, assign, erase}

  pub record Versioned : Type 0 where
    pub current : T
    pub history : Buffer

  -- The constructor.
  unfoldable pub new_versioned : T → Versioned
  new_versioned val = record { current = val; history = empty }

  pub history_size : Versioned → ℕ
  history_size v = length (to_list v.history)

  pub value_at_epoch : Versioned → ℕ → Option T
  unfolding valid_from scan
  value_at_epoch v epoch =
      if leb (valid_from (to_list v.history)) epoch
      then some v.current
      else scan (to_list v.history) epoch (length (to_list v.history) - 1)

  pub setup : ℕ → Versioned → ℕ → ℕ → T → Result (Bool × Versioned)
  unfolding valid_from
  setup current_epoch v old_epoch new_epoch new_value = do
    throw_if (not (new_epoch == (current_epoch + 1) % epoch_mod)) Error.epochs_out_of_order
    if ltb old_epoch (valid_from (to_list v.history))
        then ok (false, v)
        else ok (
          true,
          record v {
            history = push_back v.history (record { valid_to = new_epoch; value = v.current });
            current = new_value;
          },
        )

  -- The `valid_from` that `commit` registers for cleanup, which `fake_commit` returns.
  unfoldable pub fake_commit : Versioned → ℕ
  fake_commit v =
      let h = to_list v.history in
      if ltb 1 (length h) then valid_to_or 1 (get_elem? h (length h - 2)) else 1

  pub rollback : Versioned → Result Versioned
  rollback v = elim (get_last? (to_list v.history)) [
    | none ↦ throw Error.invalid_access
    | some e ↦ ok (record v { current = e.value; history = pop_back v.history })
  ]

  -- `last->valid_to = it->valid_to` with `it` at index `i`; at index 0 there is no `last`.
  extend_last : Buffer → ℕ → Result Buffer
  extend_last b zero = throw Error.invalid_access
  extend_last b (suc j) = elim (get_elem? (to_list b) j) [
    | none ↦ throw Error.invalid_access
    | some l ↦ elim (get_elem? (to_list b) (suc j)) [
      | none ↦ throw Error.invalid_access
      | some e ↦ ok (assign b j (record l { valid_to = e.valid_to }))
    ]
  ]

  -- The body of `cleanup`'s loop at the entry that it looks for.
  erase_version : Versioned → ℕ → ℕ → Result Versioned
  unfolding extend_last
  erase_version v unused i = do
    b ← if unused == 1 then ok v.history else extend_last v.history i
    ok (record v { history = erase b i })

  pub cleanup : Versioned → ℕ → Result Versioned
  unfolding find_version erase_version
  cleanup v unused = elim (to_list v.history) [
    | [] ↦ throw Error.cleaning_up_with_no_values
    | e ∷ es ↦
        if ltb unused e.valid_to
        then ok (record v { history = pop_front v.history })
        else elim (find_version unused 1 (e ∷ es)) [
          | none ↦ throw Error.clean_up_something_that_didnt_exist
          | some i ↦ erase_version v unused i
        ]
  ]

  -- The body of `rename_epoch`'s loop at the entry that it looks for.
  rename_at : Versioned → ℕ → ℕ → Result (ℕ × Versioned)
  unfolding prior_not_before next_not_after next_epoch
  rename_at v new i = elim (get_elem? (to_list v.history) i) [
    | none ↦ throw Error.invalid_access
    | some e ↦ do
      throw_if (prior_not_before (to_list v.history) i new) Error.new_valid_from_not_ordered
      throw_if (next_not_after (to_list v.history) i new) Error.new_valid_from_not_ordered_2
      ok (
        next_epoch (to_list v.history) i,
        record v { history = assign v.history i (record e { valid_to = new }) },
      )
  ]

  unfoldable pub rename_epoch : Versioned → ℕ → ℕ → Result (ℕ × Versioned)
  unfolding find_valid_to rename_at
  rename_epoch v old new = elim (to_list v.history) [
    | [] ↦ throw Error.renaming_with_no_values
    | e ∷ es ↦
        if ltb old e.valid_to
        then ok (if length (e ∷ es) == 1 then e.valid_to else 0, v)
        else elim (find_valid_to old (e ∷ es)) [
          | none ↦ throw Error.rename_something_that_didnt_exist
          | some i ↦ rename_at v new i
        ]
  ]

  -- The loop of `validate`, from the epoch `e` that it is up to.
  validate_from : ℕ → ℕ → List (Entry T) → Result (Unit {0})
  validate_from current_epoch e [] = ok tt
  validate_from current_epoch e (x ∷ xs) =
      let rest = validate_from current_epoch x.valid_to xs in
      if ltb ((current_epoch + 1) % epoch_mod) x.valid_to
      then throw Error.invalid_current_epoch
      else if leb x.valid_to e
      then throw Error.invalid_epoch_order
      else rest

  pub validate : ℕ → Versioned → Result (Unit {0})
  unfolding validate_from
  validate current_epoch v = validate_from current_epoch 0 (to_list v.history)
