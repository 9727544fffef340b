-- ===== src/Versioned2.antt =====
-- jmvcc/versioned2.h: the lock-free versioned object, whose one member points to a block with all
-- the versions, the newest one last. A method builds a new block and exchanges it for the one that
-- it read; the blocks that other threads publish between the read and the exchange are a list, one
-- for each failed exchange. A pointer to a block stands as the block. The current epoch is an argument.
pub mod Blocks
pub mod Exchange
pub mod Updates
pub mod Cleanup
pub mod Rename
pub mod Agreement
pub mod Contention
use libjmvcc.Base.{
  ℕ, zero, suc, ◌+◌, ◌-◌, ◌%◌, Bool, true, false, Option, none, some, List, [], ◌∷◌, ◌++◌, leb, ltb,
  ◌==◌, if◌then◌else◌, ◌&&◌, ◌||◌, not, length, get_elem?, set, take, drop, Error, Result, ok,
  throw, ◌>>=◌, ◌>>◌, throw_if,
}
use libjmvcc.CompareExchange.{CompareExchange}
use libjmvcc.Timeline.{Entry}
use libjmvcc.Versioned.{epoch_mod}
use Blocks.{
  Data, size, element, read, write_valid_to, new_data, new_data_copy, new_data_value, push_back,
  pop_back, copy, value_at_epoch,
}

module _ {T : Type 0} where
  -- The constructor.
  pub new_versioned2 : T → Result (Data T)
  new_versioned2 val = new_data_value val 1

  pub history_size : Data T → ℕ
  history_size d = size d - 1

  -- The new block of `setup`.
  pub setup_block : ℕ → T → Data T → Result (Data T)
  setup_block new_epoch new_value d = do
    d2 ← copy d (size d + 1)
    d3 ← write_valid_to d2 (d2.last - 1) new_epoch
    push_back d3 (record { valid_to = 1; value = new_value })

  -- One round of `setup`; `none` is `return false`.
  pub setup_round : ℕ → ℕ → ℕ → T → Data T → Result (Option (Data T))
  setup_round current_epoch old_epoch new_epoch new_value d = do
    throw_if (not (new_epoch == (current_epoch + 1) % epoch_mod)) Error.epochs_out_of_order
    valid_from ← if ltb 1 (size d) then (do e ← element d (size d - 2); ok e.valid_to) else ok 1
    if ltb old_epoch valid_from
        then ok none
        else (do d2 ← setup_block new_epoch new_value d; ok (some d2))

  -- The `valid_from` that `commit` registers for cleanup.
  pub commit : Data T → Result ℕ
  commit d = if ltb 2 (size d) then (do e ← element d (size d - 3); ok e.valid_to) else ok 1

  rollback_round : Data T → Result (Data T)
  rollback_round d = do d2 ← copy d (size d); pop_back d2

  -- `data2->history[j - 1].valid_to = epoch`, if `j != 0`.
  pub extend_last : List (Entry T) → ℕ → List (Entry T)
  extend_last [] epoch = []
  extend_last (e ∷ []) epoch = record e { valid_to = epoch } ∷ []
  extend_last (e ∷ x ∷ xs) epoch = e ∷ extend_last (x ∷ xs) epoch

  -- The loop of `cleanup` over the entries from index `i` on, with `is_first` for `i == first`. Its
  -- state is `valid_from`, `found` and the entries of `data2`.
  pub clean_loop :
      ℕ → Bool → ℕ → Bool → List (Entry T) → List (Entry T) → Result (Bool × List (Entry T))
  unfolding extend_last
  clean_loop unused is_first valid_from found out [] = ok (found, out)
  clean_loop unused is_first valid_from found out (e ∷ es) =
      elim (valid_from == unused || (is_first && ltb unused e.valid_to)) [
        | true ↦ elim found [
          | true ↦ throw Error.two_with_the_same_valid_from
          | false ↦ clean_loop unused false e.valid_to true (extend_last out e.valid_to) es
        ]
        | false ↦ clean_loop unused false e.valid_to found (out ++ e ∷ []) es
      ]

  -- One round of `cleanup`.
  pub cleanup_round : ℕ → Data T → Result (Data T)
  cleanup_round unused d = do
    throw_if (ltb (size d) 2) Error.cleaning_up_with_no_values
    (found, out) ← clean_loop unused true 1 false [] (take (size d) (drop d.first d.history))
    throw_if (not found) Error.clean_up_something_that_didnt_exist
    throw_if (not (size d == length out + 1)) Error.sizes_were_wrong
    ok (record { capacity = size d; first = 0; last = length out; history = out })

  -- The loop of `rename_epoch`, over the entries of `d2` from index `i` on: the index of the entry
  -- whose `valid_to` is the old epoch.
  pub find_valid_to : ℕ → ℕ → List (Entry T) → Option ℕ
  find_valid_to old i [] = none
  find_valid_to old i (e ∷ es) = if e.valid_to == old then some i else find_valid_to old (i + 1) es

  -- The body of the loop of `rename_epoch` at the entry that it finds in the copy `d2` of `d`.
  pub rename_at : ℕ → Data T → Data T → Option ℕ → Result (ℕ × Data T)
  rename_at new d d2 none = throw Error.rename_something_that_didnt_exist
  rename_at new d d2 (some i) = do
    d3 ← write_valid_to d2 i new
    result ← if i + 3 == size d then (do e ← read d3 (size d - 2); ok e.valid_to) else ok 0
    ok (result, d3)

  -- The new block of `rename_epoch`, and its result.
  pub rename_block : ℕ → ℕ → Data T → Result (ℕ × Data T)
  rename_block old new d = do
    d2 ← new_data_copy d d.capacity
    rename_at new d d2 (find_valid_to old 0 (take (size d) d2.history))

  -- One round of `rename_epoch`: the result, and the new block if it makes one.
  pub rename_round : ℕ → ℕ → Data T → Result (ℕ × Option (Data T))
  rename_round old new d = do
    throw_if (not (d.first == 0)) Error.first_not_zero
    throw_if (size d == 0) Error.renaming_with_no_values
    front ← read d 0
    if ltb old front.valid_to
        then if size d == 2 then (do e ← read d 1; ok (e.valid_to, none)) else ok (0, none)
        else (do (result, d2) ← rename_block old new d; ok (result, some d2))

  -- The word after an exchange for which no other thread has changed it: `exchange_failed` stands for
  -- a failure of that exchange, which would leave the loop running.
  pub published : Bool × Data T × Data T → Result (Data T)
  published (true, word, old_data) = ok word
  published (false, word, old_data) = throw Error.exchange_failed

  module _ (X : CompareExchange (Data T)) where
    -- The loop of `rollback` and `cleanup`: `make` builds the new block from the one in `d`, and
    -- `set_data` exchanges it for that one. `others` are the blocks that other threads have put
    -- into the word by the time of each exchange, up to the last one. A failed exchange leaves in `d` what
    -- `cmp_xchg` found.
    pub exchange : (Data T → Result (Data T)) → List (Data T) → Data T → Result (Data T)
    exchange make [] d = do new_data ← make d; published (X.cmp_xchg d d new_data)
    exchange make (d' ∷ others) d = do
      new_data ← make d
      let (result, word, old_data) = X.cmp_xchg d' d new_data
      elim result [ true ↦ ok word | false ↦ exchange make others old_data ]

    -- `setup`: the result and the block that is then published. Each round reads the word again.
    pub setup : ℕ → List (Data T) → Data T → ℕ → ℕ → T → Result (Bool × Data T)
    setup current_epoch [] d old_epoch new_epoch new_value = do
      r ← setup_round current_epoch old_epoch new_epoch new_value d
      elim r [
        | none ↦ ok (false, d)
        | some d2 ↦ (do word ← published (X.cmp_xchg d d d2); ok (true, word))
      ]
    setup current_epoch (d' ∷ others) d old_epoch new_epoch new_value = do
      r ← setup_round current_epoch old_epoch new_epoch new_value d
      elim r [
        | none ↦ ok (false, d)
        | some d2 ↦
            let (result, word, old_data) = X.cmp_xchg d' d d2 in
            elim result [
              | true ↦ ok (true, word)
              | false ↦ setup current_epoch others word old_epoch new_epoch new_value
            ]
      ]

    pub rollback : List (Data T) → Data T → Result (Data T)
    rollback others d = exchange rollback_round others d

    pub cleanup : List (Data T) → Data T → ℕ → Result (Data T)
    cleanup others d unused = exchange (cleanup_round unused) others d

    -- `rename_epoch`: the result and the block that is then published.
    pub rename_epoch : List (Data T) → Data T → ℕ → ℕ → Result (ℕ × Data T)
    rename_epoch [] d old new = do
      (result, r) ← rename_round old new d
      elim r [
        | none ↦ ok (result, d)
        | some d2 ↦ (do word ← published (X.cmp_xchg d d d2); ok (result, word))
      ]
    rename_epoch (d' ∷ others) d old new = do
      (result, r) ← rename_round old new d
      elim r [
        | none ↦ ok (result, d)
        | some d2 ↦
            let (done, word, old_data) = X.cmp_xchg d' d d2 in
            elim done [ true ↦ ok (result, word) | false ↦ rename_epoch others old_data old new ]
      ]
