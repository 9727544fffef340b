-- ===== src/Tests/LockFree.antt =====
-- Concrete blocks of jmvcc/versioned2.h.
use libjmvcc.Base.{ℕ, ◌≡◌, ◌≢◌, refl, ap, Bool, true, false, List, [], ◌∷◌, some, arith, ok}
use native.Mathlib.Decide.{ℕ_discrete}
use libjmvcc.CompareExchange.{CompareExchange}
use libjmvcc.CircularBuffer.{CircularBuffer, list_buffer}
use libjmvcc.Timeline.{Entry}
use libjmvcc.Versioned
use libjmvcc.Versioned.{Versioned}
use libjmvcc.Versioned2.{setup, rollback, cleanup, rename_epoch}
use libjmvcc.Versioned2.Blocks.{Data, value_at_epoch}
use libjmvcc.Versioned2.Blocks.Contents.{newest, entries, Live, block, block-Live}
use libjmvcc.Versioned2.Updates.{rollback-Live}
use libjmvcc.Versioned2.Cleanup.{cleanup-Live}
use libjmvcc.Versioned2.Contention.{Cleanable, cleanup-contended}
use libjmvcc.Versioned2.Rename.{rename_epoch-Live}
use libjmvcc.Versioned2.Agreement.{
  Agrees, Agrees-read, Agrees-setup, Agrees-cleanup, Agrees-rename_epoch,
}

abbrev buffer : CircularBuffer (Entry ℕ)
buffer = list_buffer (Entry ℕ)

abbrev two_entries : List (Entry ℕ)
two_entries = record { valid_to = 5; value = 10 } ∷ record { valid_to = 8; value = 20 } ∷ []

abbrev locked : Versioned buffer
locked = record { current = 30; history = two_entries }

-- The block with room for four entries that lists what `locked` holds.
abbrev lock_free : Data ℕ
lock_free = block 4 (entries two_entries 30)

abbrev lock_free-Live : Live lock_free (entries two_entries 30)
lock_free-Live = block-Live 4 (entries two_entries 30) (omega arith)

-- An exchange that compares what the blocks hold.
Entry-discrete : Discrete (Entry ℕ)
Entry-discrete = hlevel ℕ_discrete

Data-discrete : Discrete (Data ℕ)
Data-discrete = hlevel (ℕ_discrete, Entry-discrete)

abbrev exchange_if {ℓ} : {P : Type ℓ} {value old : P} → Dec (value ≡ old) → P → P → P → Bool × P × P
exchange_if (yes e) v o new = (true, new, o)
exchange_if (no d) v o new = (false, v, v)

exchange-expected :
    (value new : Data ℕ) (q : Dec (value ≡ value))
    → exchange_if q value value new ≡ (true, new, value)
exchange-expected value new (yes e) = refl
exchange-expected value new (no d) = absurd (d refl)

exchange-other :
    (value old new : Data ℕ) (q : Dec (value ≡ old))
    → value ≢ old
    → exchange_if q value old new ≡ (false, value, value)
exchange-other value old new (yes e) n = absurd (n e)
exchange-other value old new (no d) n = refl

abbrev word : CompareExchange (Data ℕ)
word = record {
  cmp_xchg = λ value old new. exchange_if (Data-discrete value old) value old new;
  as_expected = λ value new. exchange-expected value new (Data-discrete value value);
  otherwise = λ value old new d. exchange-other value old new (Data-discrete value old) d;
}

Agrees-read_example :
    (x : ℕ) × (Versioned.value_at_epoch buffer locked 6 ≡ some x)
    × (value_at_epoch lock_free 6 ≡ ok x)
Agrees-read_example = Agrees-read buffer locked lock_free 6 lock_free-Live (omega arith)

Agrees-setup_example :
    (b : Bool) × (w : Versioned buffer) × (u : Data ℕ) × (Versioned.setup buffer 8 locked 8 9 40
      ≡ ok (b, w))
    × (setup word 8 [] lock_free 8 9 40 ≡ ok (b, u))
    × Agrees buffer w u
Agrees-setup_example = Agrees-setup buffer word locked lock_free 8 8 40 lock_free-Live

Agrees-cleanup_example :
    (w : Versioned buffer) × (u : Data ℕ) × (Versioned.cleanup buffer locked 5 ≡ ok w)
    × (cleanup word [] lock_free 5 ≡ ok u)
    × Agrees buffer w u
Agrees-cleanup_example =
    Agrees-cleanup buffer word locked lock_free 1 5 8 lock_free-Live
      (omega arith, (omega arith, tt)) (refl, refl)

Agrees-rename_epoch_example :
    (n : ℕ) × (w : Versioned buffer) × (u : Data ℕ) × (Versioned.rename_epoch buffer locked 5 3
      ≡ ok (n, w))
    × (rename_epoch word [] lock_free 5 3 ≡ ok (n, u))
    × Agrees buffer w u
Agrees-rename_epoch_example =
    Agrees-rename_epoch buffer word locked lock_free 0 1 5 8 3 lock_free-Live
      (omega arith, (omega arith, tt)) (refl, refl) (refl, refl) (omega arith) (omega arith)

rollback-Live_example : (u : Data ℕ) × (rollback word [] lock_free ≡ ok u) × Live u two_entries
rollback-Live_example =
    rollback-Live word lock_free two_entries (newest 30) (omega arith) lock_free-Live

cleanup-Live_example :
    (u : Data ℕ) × (cleanup word [] lock_free 1 ≡ ok u)
    × Live u (entries (record { valid_to = 8; value = 20 } ∷ []) 30)
cleanup-Live_example =
    cleanup-Live word lock_free two_entries 30 0 1 5 lock_free-Live (omega arith, (omega arith, tt))
      (refl, refl)

rename_epoch-Live_example :
    (u : Data ℕ) × (rename_epoch word [] lock_free 5 3 ≡ ok (8, u))
    × Live u (
        entries (record { valid_to = 3; value = 10 } ∷ record { valid_to = 8; value = 20 } ∷ []) 30)
rename_epoch-Live_example =
    rename_epoch-Live word lock_free two_entries 30 0 1 5 8 3 lock_free-Live
      (omega arith, (omega arith, tt)) (refl, refl) (refl, refl)

-- In all blocks a version begins at epoch 1, and ends at 5 or at 8.
abbrev first-Cleanable : Cleanable 1 lock_free
first-Cleanable = record {
  history = two_entries;
  current = 30;
  index = 0;
  valid_to = 5;
  live = lock_free-Live;
  increasing = (omega arith, (omega arith, tt));
  version = (refl, refl);
}

abbrev shorter : List (Entry ℕ)
shorter = record { valid_to = 8; value = 20 } ∷ []

abbrev shorter-Cleanable : Cleanable 1 (block 2 (entries shorter 30))
shorter-Cleanable = record {
  history = shorter;
  current = 30;
  index = 0;
  valid_to = 8;
  live = block-Live 2 (entries shorter 30) (omega arith);
  increasing = (omega arith, tt);
  version = (refl, refl);
}

-- The same entries in a larger block, which another thread publishes first.
abbrev larger : Data ℕ
larger = block 5 (entries two_entries 30)

abbrev larger-Cleanable : Cleanable 1 larger
larger-Cleanable = record {
  history = two_entries;
  current = 30;
  index = 0;
  valid_to = 5;
  live = block-Live 5 (entries two_entries 30) (omega arith);
  increasing = (omega arith, (omega arith, tt));
  version = (refl, refl);
}

cleanup-contended_example :
    (u : Data ℕ) × (cleanup word (larger ∷ block 2 (entries shorter 30) ∷ []) lock_free 1 ≡ ok u)
    × Live u (entries [] 30)
cleanup-contended_example =
    cleanup-contended word (larger ∷ []) lock_free (block 2 (entries shorter 30)) 1
      (first-Cleanable, (larger-Cleanable, tt))
      (
        λ e. absurd (omega (arith, ap (λ d. d.capacity) e)),
        ((λ e. absurd (omega (arith, ap (λ d. d.capacity) e))), tt),
      )
      shorter-Cleanable
