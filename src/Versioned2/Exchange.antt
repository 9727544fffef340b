-- ===== src/Versioned2/Exchange.antt =====
-- One round of the loop of `rollback` and `cleanup` in jmvcc/versioned2.h.
use libjmvcc.Base.{◌≡◌, ◌≢◌, ap, true, false, List, [], ◌∷◌, Result, ok}
use libjmvcc.CompareExchange.{CompareExchange}
use libjmvcc.Versioned2.{exchange, published}
use libjmvcc.Versioned2.Blocks.{Data}

module _ {T : Type 0} (X : CompareExchange (Data T)) (make : Data T → Result (Data T))
    (d u : Data T) (made : make d ≡ ok u) where
  -- No other thread has changed the word.
  pub exchange-alone : exchange X make [] d ≡ ok u
  unfolding exchange published
  exchange-alone = rw made (rw (X.as_expected d u))

  -- Another thread has put a block there.
  pub exchange-again :
      (d' : Data T) (others : List (Data T))
      → d' ≢ d
      → exchange X make (d' ∷ others) d ≡ exchange X make others d'
  unfolding exchange
  exchange-again d' others ne = rw made (
      ap (λ r. elim r.0 [ true ↦ ok r.1 | false ↦ exchange X make others r.2 ])
        (X.otherwise d' d u ne))
