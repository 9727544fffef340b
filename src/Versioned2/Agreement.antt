-- ===== src/Versioned2/Agreement.antt =====
-- The lock-free block of jmvcc/versioned2.h against the locked object of jmvcc/versioned.h.
use libjmvcc.Base.{
  ℕ, suc, ◌+◌, ◌%◌, ◌≤◌, ◌<◌, ◌≡◌, ap, ap₂, ◌∙◌, sym, subst, Bool, true, false, some, [], ◌∷◌,
  arith, ltb, if◌then◌else◌, length, length-append, Bool-cases, inl, inr, ok,
}
use libjmvcc.CircularBuffer.{CircularBuffer}
use libjmvcc.CompareExchange.{CompareExchange}
use libjmvcc.Timeline.{Entry, Increasing, IsVersion, newest_from}
use libjmvcc.Versioned
use libjmvcc.Versioned.{Versioned, epoch_mod}
use libjmvcc.Versioned.Reads.{value_at_epoch-eq-read_at, valid_from-eq-newest_from}
use libjmvcc.Versioned.Updates.{pushed, pushed_list, setup_cases}
use libjmvcc.Versioned.Cleanup.{cleanup-cleaned}
use libjmvcc.Versioned.Rename.{rename_epoch-moved}
use libjmvcc.Versioned2.{setup, cleanup, rename_epoch}
use libjmvcc.Versioned2.Blocks.{Data, value_at_epoch}
use libjmvcc.Versioned2.Blocks.Contents.{
  newest, entries, Live, block, block-Live, value_at_epoch-Live,
}
use libjmvcc.Versioned2.Updates.{setup-Live, superseded}
use libjmvcc.Versioned2.Cleanup.{cleanup-Live}
use libjmvcc.Versioned2.Rename.{rename_epoch-Live}

module _ {T : Type 0} (B : CircularBuffer (Entry T)) where
  -- The block lists the history and the newest value of the locked object.
  abbrev pub Agrees : Versioned B → Data T → Type 0
  Agrees v d = Live d (entries (B.to_list v.history) v.current)

  -- Objects that agree return the same value to a read at any epoch from 1 on.
  pub Agrees-read :
      (v : Versioned B) (d : Data T) (epoch : ℕ)
      → Agrees v d
      → 1 ≤ epoch
      → (x : T) × (Versioned.value_at_epoch B v epoch ≡ some x) × (value_at_epoch d epoch ≡ ok x)
  Agrees-read v d epoch a q =
      let (x, run, eq) = value_at_epoch-Live d (B.to_list v.history) v.current epoch a in
      (x, value_at_epoch-eq-read_at B v epoch q ∙ eq, run)

  -- Objects that agree accept and refuse the same transactions in `setup` at the next epoch, if no
  -- other thread replaces the block meanwhile, and agree afterwards.
  pub Agrees-setup :
      (X : CompareExchange (Data T)) (v : Versioned B) (d : Data T) (current_epoch old : ℕ)
      (val : T)
      → Agrees v d
      → let new = (current_epoch + 1) % epoch_mod in
        (b : Bool) × (w : Versioned B) × (u : Data T) × (Versioned.setup B current_epoch v old new
            val
          ≡ ok (b, w))
        × (setup X current_epoch [] d old new val ≡ ok (b, u))
        × Agrees w u
  unfolding pushed
  Agrees-setup X v d current_epoch old val a =
      let new = (current_epoch + 1) % epoch_mod in
      let h = B.to_list v.history in
      let e = valid_from-eq-newest_from h in
      let p = setup_cases B current_epoch old v val in
      let q = setup-Live X current_epoch old d h v.current val a in
      let l = entries (superseded h new v.current) val in
      elim (Bool-cases (ltb old (newest_from 1 h))) [
        | inl r ↦ (
          false,
          v,
          d,
          p
              ∙ ap (λ b. if b then ok (false, v) else ok (true, pushed B v new val))
                  (ap (ltb old) e ∙ r),
          q
              ∙ ap
                  (λ b.
                    if b
                    then ok (false, d)
                    else ok (true, block (length (entries h v.current) + 1) l))
                  r,
          a,
        )
        | inr r ↦ (
          true,
          pushed B v new val,
          block (length (entries h v.current) + 1) l,
          p
              ∙ ap (λ b. if b then ok (false, v) else ok (true, pushed B v new val))
                  (ap (ltb old) e ∙ r),
          q
              ∙ ap
                  (λ b.
                    if b
                    then ok (false, d)
                    else ok (true, block (length (entries h v.current) + 1) l))
                  r,
          subst (λ k. Live (block (length (entries h v.current) + 1) l) (entries k val))
              (sym (pushed_list B v new val))
              (block-Live _ l (
                omega (
                  arith,
                  length-append (superseded h new v.current) (newest val ∷ []),
                  length-append h (newest v.current ∷ []),
                  length-append h (record { valid_to = new; value = v.current } ∷ []),
                ))),
        )
      ]

  -- Objects that agree, with increasing epochs, both clean up a version of the history, if no other
  -- thread replaces the block meanwhile, and agree afterwards.
  pub Agrees-cleanup :
      (X : CompareExchange (Data T)) (v : Versioned B) (d : Data T) (i f t : ℕ)
      → Agrees v d
      → Increasing 1 (B.to_list v.history)
      → IsVersion 1 (B.to_list v.history) i f t
      → (w : Versioned B) × (u : Data T) × (Versioned.cleanup B v f ≡ ok w)
        × (cleanup X [] d f ≡ ok u)
        × Agrees w u
  Agrees-cleanup X v d i f t a inc at =
      let (w, run, same, left) = cleanup-cleaned B v i f t inc at in
      let (u, run', live) = cleanup-Live X d (B.to_list v.history) v.current i f t a inc at in
      (w, u, run, run', subst (Live u) (sym (ap₂ entries left same)) live)

  -- Objects that agree, with increasing epochs, both rename the begin of a version that is neither
  -- the oldest nor the newest to an earlier epoch after the version before it, if no other thread
  -- replaces the block meanwhile. They return the same and agree afterwards.
  pub Agrees-rename_epoch :
      (X : CompareExchange (Data T)) (v : Versioned B) (d : Data T) (i f old t new : ℕ)
      → Agrees v d
      → Increasing 1 (B.to_list v.history)
      → IsVersion 1 (B.to_list v.history) i f old
      → IsVersion 1 (B.to_list v.history) (suc i) old t
      → f < new
      → new ≤ old
      → (n : ℕ) × (w : Versioned B) × (u : Data T) × (Versioned.rename_epoch B v old new
          ≡ ok (n, w))
        × (rename_epoch X [] d old new ≡ ok (n, u))
        × Agrees w u
  Agrees-rename_epoch X v d i f old t new a inc at next p q =
      let (w, run, same, left) = rename_epoch-moved B v i f old t new inc at next p q in
      let (u, run', live) =
        rename_epoch-Live X d (B.to_list v.history) v.current i f old t new a inc at next in
      (_, w, u, run, run', subst (Live u) (sym (ap₂ entries left same)) live)
