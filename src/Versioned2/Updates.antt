-- ===== src/Versioned2/Updates.antt =====
-- `setup`, `commit` and `rollback` of jmvcc/versioned2.h.
use libjmvcc.Base.{
  Bool-cases, inl, inr, ℕ, suc, ◌+◌, ◌-◌, ◌%◌, ◌≤◌, ◌≡◌, ◌∙◌, subst, true, false, none, some, List,
  [], ◌∷◌, ◌++◌, arith, ltb, ==-self, lt→ltb, if◌then◌else◌, length, length-append, get_last-index,
  ok, ◌>>=◌,
}
use mathlib.Core.List.{append_assoc}
use native.Mathlib.Nat.{le_refl}
use libjmvcc.CompareExchange.{CompareExchange}
use libjmvcc.Timeline.{get_last?-newest_from, Entry, newest_from}
use libjmvcc.Versioned.{epoch_mod}
use libjmvcc.Versioned2.{
  published, setup_block, setup_round, setup, commit, rollback_round, rollback,
}
use libjmvcc.Versioned2.Exchange.{exchange-alone}
use libjmvcc.Versioned2.Blocks.{Data, size, element}
use libjmvcc.Versioned2.Blocks.Contents.{
  newest, entries, Live, block, size-Live, element-Live, copy-Live, push_back-block, write-block,
  pop_back-block,
}

module _ {T : Type 0} where
  abbrev pub superseded : List (Entry T) → ℕ → T → List (Entry T)
  superseded h new c = h ++ record { valid_to = new; value = c } ∷ []

  setup_block-Live :
      (d : Data T) (h : List (Entry T)) (c val : T) (new : ℕ)
      → Live d (entries h c)
      → setup_block new val d
        ≡ ok (block (length (entries h c) + 1) (entries (superseded h new c) val))
  unfolding setup_block
  setup_block-Live d h c val new v =
      let l = entries h c in
      let n : length l ≡ length h + 1 = omega (arith, length-append h (newest c ∷ [])) in
      let m : length l - 1 ≡ length h = omega (arith, n) in
      let k : length (superseded h new c) ≡ length l =
        omega (arith, n, length-append h (record { valid_to = new; value = c } ∷ [])) in
      rw
        (
          size-Live v,
          copy-Live (length l + 1) v (omega arith),
          m,
          write-block (length l + 1) h [] (newest c) new,
        )
        (push_back-block (length l + 1) (superseded h new c) (newest val) (omega (arith, k)))

  -- The second to last entry of `n` ends where the newest version begins.
  valid_from-Live :
      (d : Data T) (h : List (Entry T)) (c : T)
      → Live d (entries h c)
      → (if ltb 1 (size d) then (element d (size d - 2) >>= λ e. ok e.valid_to) else ok 1)
        ≡ ok (newest_from 1 h)
  valid_from-Live d [] c v = rw (size-Live v)
  valid_from-Live d (e ∷ es) c v =
      let (x, p, q) = get_last?-newest_from e es in
      let n = length-append es (newest c ∷ []) in
      let m : suc (length (es ++ newest c ∷ [])) - 2 ≡ length es = omega (arith, n) in
      rw (
        size-Live v,
        lt→ltb 1 (suc (length (es ++ newest c ∷ []))) (omega (arith, n)),
        m,
        element-Live (length es) x v (get_last-index e es (newest c ∷ []) ∙ p) (omega (arith, n)),
        q,
      )

  -- After a write over history `h`, what `commit` registers for cleanup is the epoch at which the
  -- superseded version began.
  pub commit-Live :
      (d : Data T) (h : List (Entry T)) (new : ℕ) (c val : T)
      → Live d (entries (superseded h new c) val)
      → commit d ≡ ok (newest_from 1 h)
  unfolding commit
  commit-Live d [] new c val v = rw (size-Live v)
  commit-Live d (e ∷ es) new c val v =
      let (x, p, q) = get_last?-newest_from e es in
      let k : Entry T = record { valid_to = new; value = c } in
      let a = append_assoc es (k ∷ []) (newest val ∷ []) in
      let n = length-append es (k ∷ newest val ∷ []) in
      let m : suc (length (es ++ k ∷ newest val ∷ [])) - 3 ≡ length es = omega (arith, n) in
      let v' : Live d (e ∷ (es ++ k ∷ newest val ∷ [])) = subst (λ l. Live d (e ∷ l)) a v in
      rw (
        size-Live v',
        lt→ltb 2 (suc (length (es ++ k ∷ newest val ∷ []))) (omega (arith, n)),
        m,
        element-Live (length es) x v' (get_last-index e es (k ∷ newest val ∷ []) ∙ p)
            (omega (arith, n)),
        q,
      )

  setup_round-Live :
      (current_epoch old : ℕ) (d : Data T) (h : List (Entry T)) (c val : T)
      → Live d (entries h c)
      → let new = (current_epoch + 1) % epoch_mod in
        setup_round current_epoch old new val d ≡ (
          if ltb old (newest_from 1 h)
          then ok none
          else ok (some (block (length (entries h c) + 1) (entries (superseded h new c) val))))
  unfolding setup_round
  setup_round-Live current_epoch old d h c val v =
      let new = (current_epoch + 1) % epoch_mod in
      rw (==-self new, valid_from-Live d h c v, setup_block-Live d h c val new v)

  -- `setup` over a block with history `h` and newest value `c`, which no other thread replaces
  -- meanwhile: it refuses, and leaves the block, exactly if the newest version began after the
  -- epoch of the transaction. Otherwise the new block is the copy with room for one more, in which
  -- the old newest value ends at the new epoch and the new value follows.
  pub setup-Live :
      (X : CompareExchange (Data T)) (current_epoch old : ℕ) (d : Data T) (h : List (Entry T))
      (c val : T)
      → Live d (entries h c)
      → let new = (current_epoch + 1) % epoch_mod in
        setup X current_epoch [] d old new val ≡ (
          if ltb old (newest_from 1 h)
          then ok (false, d)
          else ok (true, block (length (entries h c) + 1) (entries (superseded h new c) val)))
  unfolding setup published
  setup-Live X current_epoch old d h c val v = elim (Bool-cases (ltb old (newest_from 1 h))) [
    | inl e ↦ rw (setup_round-Live current_epoch old d h c val v, e)
    | inr e ↦ rw (
      setup_round-Live current_epoch old d h c val v,
      e,
      X.as_expected d (
          block (length (entries h c) + 1)
            (entries (superseded h ((current_epoch + 1) % epoch_mod) c) val)),
    )
  ]

  -- `rollback` of a block with at least two entries, which no other thread replaces meanwhile,
  -- succeeds and removes the newest one.
  pub rollback-Live :
      (X : CompareExchange (Data T)) (d : Data T) (l : List (Entry T)) (e : Entry T)
      → 1 ≤ length l
      → Live d (l ++ e ∷ [])
      → (u : Data T) × (rollback X [] d ≡ ok u) × Live u l
  unfolding rollback rollback_round
  rollback-Live X d l e q v =
      let n = length (l ++ e ∷ []) in
      let (u, run, live) = pop_back-block n l e q (le_refl n) in
      (
        u,
        exchange-alone X rollback_round d u (rw (size-Live v, copy-Live n v (le_refl n)) run),
        live,
      )
