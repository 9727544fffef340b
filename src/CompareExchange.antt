-- ===== src/CompareExchange.antt =====
-- `cmp_xchg` of the jml library, which is not part of the repository: a parameter of the models of
-- jmvcc/versioned2.h and jmvcc/garbage.h. Of the word, the expected value and the new one it gives
-- whether it has written, the word after it, and what is then in the variable of the expected value.
-- It is documented to write exactly if the word is the expected value, and otherwise to load the word
-- into that variable.
use libjmvcc.Base.{◌≡◌, ◌≢◌, Bool, true, false}

pub record CompareExchange (P : Type 0) : Type 0 where
  pub cmp_xchg : P → P → P → Bool × P × P
  pub as_expected : (value new : P) → cmp_xchg value value new ≡ (true, new, value)
  pub otherwise : (value old new : P) → value ≢ old → cmp_xchg value old new ≡ (false, value, value)
