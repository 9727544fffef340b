-- ===== src/Versioned2/Contention.antt =====
-- The loops of jmvcc/versioned2.h when other threads publish blocks in between.
use libjmvcc.Base.{ℕ, ◌≡◌, ◌≢◌, ◌∙◌, List, [], ◌∷◌, ◌++◌, All, ok}
use libjmvcc.Timeline.{Entry, Increasing, IsVersion}
use libjmvcc.Versioned.Cleanup.{cleaned}
use libjmvcc.CompareExchange.{CompareExchange}
use libjmvcc.Versioned2.{cleanup_round, cleanup}
use libjmvcc.Versioned2.Exchange.{exchange-again}
use libjmvcc.Versioned2.Blocks.{Data}
use libjmvcc.Versioned2.Blocks.Contents.{entries, Live}
use libjmvcc.Versioned2.Cleanup.{cleanup_round-Live, cleanup-Live}

module _ {T : Type 0} where
  -- A block with increasing epochs in which a version begins at `f`.
  pub record Cleanable (f : ℕ) (d : Data T) : Type 0 where
    pub history : List (Entry T)
    pub current : T
    pub index : ℕ
    pub valid_to : ℕ
    pub live : Live d (entries history current)
    pub increasing : Increasing 1 history
    pub version : IsVersion 1 history index f valid_to

  -- Each block is another one than the block before it.
  abbrev pub Changing : Data T → List (Data T) → Type 0
  Changing d [] = Unit
  Changing d (d' ∷ ds) = (d' ≢ d) × Changing d' ds

  -- One failed exchange.
  cleanup-again :
      (X : CompareExchange (Data T)) (others : List (Data T)) (d d' : Data T) (f : ℕ)
      → Cleanable f d
      → d' ≢ d
      → cleanup X (d' ∷ others) d f ≡ cleanup X others d' f
  unfolding cleanup
  cleanup-again X others d d' f c ne =
      let (u, made, _) =
        cleanup_round-Live d c.history c.current c.index f c.valid_to c.live c.increasing
          c.version in
      exchange-again X (cleanup_round f) d u made d' others ne

  -- `cleanup` of a version, while other threads publish blocks, each another one than the block before
  -- it, and so make its exchange fail once for each of them, ends without an exception if every block
  -- that it reads has increasing epochs and the version, and removes that version, and no other, from
  -- the block that was published last.
  pub cleanup-contended :
      (X : CompareExchange (Data T)) (others : List (Data T)) (d last : Data T) (f : ℕ)
      → All (Cleanable f) (d ∷ others)
      → Changing d (others ++ last ∷ [])
      → (c : Cleanable f last)
      → (u : Data T) × (cleanup X (others ++ last ∷ []) d f ≡ ok u)
        × Live u (entries (cleaned c.history c.index) c.current)
  cleanup-contended X [] d last f (a, _) n c =
      let (u, run, live) =
        cleanup-Live X last c.history c.current c.index f c.valid_to c.live c.increasing
          c.version in
      (u, cleanup-again X [] d last f a n.0 ∙ run, live)
  cleanup-contended X (d' ∷ others) d last f (a, more) n c =
      let (u, run, live) = cleanup-contended X others d' last f more n.1 c in
      (u, cleanup-again X (others ++ last ∷ []) d d' f a n.0 ∙ run, live)
