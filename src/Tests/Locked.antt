-- ===== src/Tests/Locked.antt =====
-- Concrete objects of jmvcc/versioned.h.
use libjmvcc.Base.{ℕ, ◌<◌, ◌≡◌, ◌↔◌, refl, true, false, List, [], ◌∷◌, some, arith, inl, ok}
use libjmvcc.CircularBuffer.{CircularBuffer, list_buffer}
use libjmvcc.Timeline.{Entry, Increasing, UpTo}
use libjmvcc.Versioned.{
  Versioned, value_at_epoch, setup, fake_commit, rollback, cleanup, rename_epoch, validate,
}
use libjmvcc.Versioned.Reads.{value_at_epoch-eq-read_at}
use libjmvcc.Versioned.Updates.{IsValid, setup-reads, setup_conflict}
use libjmvcc.Versioned.Cleanup.{cleanup-reads}
use libjmvcc.Versioned.Rename.{rename_epoch-reads}
use libjmvcc.Versioned.Commit.{cleanup-commit, validate_iff}

abbrev pub buffer : CircularBuffer (Entry ℕ)
buffer = list_buffer (Entry ℕ)

abbrev pub two_entries : List (Entry ℕ)
two_entries = record { valid_to = 5; value = 10 } ∷ record { valid_to = 8; value = 20 } ∷ []

-- 10 up to epoch 5, 20 up to epoch 8, then 30.
abbrev pub account : Versioned buffer
account = record { current = 30; history = two_entries }

abbrev account-IsValid : IsValid buffer 8 account
account-IsValid = record {
  increasing = (omega arith, (omega arith, tt));
  up_to = (omega arith, (omega arith, tt));
}

value_at_epoch-eq-read_at_example : value_at_epoch buffer account 6 ≡ some 20
value_at_epoch-eq-read_at_example = value_at_epoch-eq-read_at buffer account 6 (omega arith)

setup-reads_example :
    (w : Versioned buffer) × (setup buffer 8 account 8 9 40 ≡ ok (true, w))
    × IsValid buffer 9 w
    × (value_at_epoch buffer w 9 ≡ some 40)
    × ((u : Versioned buffer) × (rollback buffer w ≡ ok u)
        × (u.current ≡ 30)
        × (u.history ≡ two_entries))
setup-reads_example =
    setup-reads buffer 8 8 account 40 9 account-IsValid (omega arith) (omega arith) (omega arith)
      (omega arith)

setup_conflict_example : (setup buffer 8 account 7 9 40 ≡ ok (false, account)) ↔ (7 < 8)
setup_conflict_example = setup_conflict buffer 8 7 account 40

cleanup-reads_example :
    (w : Versioned buffer) × (cleanup buffer account 5 ≡ ok w)
    × IsValid buffer 8 w
    × (value_at_epoch buffer w 4 ≡ value_at_epoch buffer account 4)
cleanup-reads_example =
    cleanup-reads buffer account 8 1 5 8 4 account-IsValid (refl, refl) (omega arith)
      (inl (omega arith))

cleanup-commit_example :
    (w u : Versioned buffer) × (setup buffer 8 account 8 9 40 ≡ ok (true, w))
    × (fake_commit buffer w ≡ 8)
    × (cleanup buffer w (fake_commit buffer w) ≡ ok u)
    × IsValid buffer 9 u
    × (value_at_epoch buffer u 6 ≡ value_at_epoch buffer w 6)
cleanup-commit_example =
    cleanup-commit buffer 8 8 account 40 6 account-IsValid (omega arith) (omega arith) (omega arith)
      (omega arith) (inl (omega arith))

validate_iff_example :
    (validate buffer 7 account ≡ ok tt) ↔ (Increasing 0 two_entries × UpTo 8 two_entries)
validate_iff_example = validate_iff buffer 7 account

rename_epoch-reads_example :
    (w : Versioned buffer) × (rename_epoch buffer account 5 3 ≡ ok (8, w))
    × IsValid buffer 8 w
    × (value_at_epoch buffer w 2 ≡ value_at_epoch buffer account 2)
rename_epoch-reads_example =
    rename_epoch-reads buffer account 8 0 1 5 8 3 2 account-IsValid (refl, refl) (refl, refl)
      (omega arith) (omega arith) (omega arith) (inl (omega arith))
