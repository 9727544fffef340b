-- ===== src/Base/Results.antt =====
-- Results of code that may throw. An exception is named after its message.
use mathlib.Core.Path.{◌≡◌, refl}
use mathlib.Core.Bool.{Bool, true, false}

pub data Error : Type 0 where
  epochs_out_of_order current_epoch_is_decreasing : Error
  earliest_epoch_was_not_increasing earliest_epoch_after_current_epoch : Error
  cleaning_up_with_no_values clean_up_something_that_didnt_exist : Error
  renaming_with_no_values rename_something_that_didnt_exist : Error
  new_valid_from_not_ordered new_valid_from_not_ordered_2 : Error
  invalid_current_epoch invalid_epoch_order : Error
  new_capacity_is_wrong popping_back_last_element cant_push_back invalid_element : Error
  two_with_the_same_valid_from sizes_were_wrong first_not_zero : Error
  inserted_but_not_found inserted_stale_snapshot remove_snapshot_empty_entries : Error
  snapshot_not_found snapshots_out_of_sync perform_cleanup_with_snapshots : Error
  cleaning_up_invalid_entry register_cleanup_with_no_snapshots logic_error_in_compress : Error
  new_epoch_already_there wrong_old_epoch : Error
  insert_on_live newest_next_not_null remove_on_non_live entered_with_live : Error
  badly_nested_critical_sections no_transaction no_local_was_created : Error
  open_without_newest : Error
  newest_not_live : Error
  newest_with_next : Error
  only_one_not_newest : Error
  only_one_with_prev : Error
  critical_with_none_open : Error
  newest_with_none_open : Error
  critical_not_live : Error
  -- Not an exception of the source: a read or a write through an invalid pointer or index.
  invalid_access : Error
  exchange_failed : Error

pub data Result {ℓ} (A : Type ℓ) : Type ℓ where
  throw : Error → Result A
  ok : A → Result A

-- `if (b) throw e;`
abbrev pub throw_if : Bool → Error → Result (Unit {0})
throw_if false e = ok tt
throw_if true e = throw e

-- What follows a statement is skipped once the statement has thrown.
infixl 5 ◌>>=◌ ◌>>◌
abbrev pub ◌>>=◌ {k ℓ} : {S : Type k} {R : Type ℓ} → Result S → (S → Result R) → Result R
throw e >>= rest = throw e
ok s >>= rest = rest s

abbrev pub ◌>>◌ {k ℓ} : {S : Type k} {R : Type ℓ} → Result S → Result R → Result R
statement >> rest = statement >>= λ s. rest

pub ok_inj {ℓ} : {A : Type ℓ} (x y : A) → ok x ≡ ok y → x ≡ y
ok_inj x y e = cc

-- A sequence that throws nothing has thrown nothing at its first statement.
pub bind-ok {k ℓ} :
    {S : Type k} {R : Type ℓ} (r : Result S) (rest : S → Result R) (u : R)
    → (r >>= rest) ≡ ok u
    → (s : S) × (r ≡ ok s) × (rest s ≡ ok u)
bind-ok (throw x) rest u e = cc
bind-ok (ok s) rest u e = (s, refl, e)

pub throw_if-ok {ℓ} :
    {R : Type ℓ} (b : Bool) (x : Error) (r : Result R) (u : R)
    → (throw_if b x >> r) ≡ ok u
    → (b ≡ false) × (r ≡ ok u)
throw_if-ok true x r u e = cc
throw_if-ok false x r u e = (refl, e)
