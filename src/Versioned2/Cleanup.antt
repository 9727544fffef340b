-- ===== src/Versioned2/Cleanup.antt =====
-- `cleanup` of jmvcc/versioned2.h.
use libjmvcc.Base.{
  drop, ℕ, zero, suc, ◌+◌, ◌<◌, ◌≡◌, refl, ap, ◌∙◌, sym, Bool, true, false, List, [], ◌∷◌, ◌++◌,
  arith, ◌==◌, ==-self, ne→==, le→ltb, length, length-append, take, ok,
}
use mathlib.Core.List.{append_assoc}
use libjmvcc.CompareExchange.{CompareExchange}
use libjmvcc.Timeline.{Entry, Increasing, IsVersion, IsVersion-bounds, forget}
use libjmvcc.Versioned.Cleanup.{cleaned}
use libjmvcc.Versioned2.{extend_last, clean_loop, cleanup_round, cleanup}
use libjmvcc.Versioned2.Exchange.{exchange-alone}
use libjmvcc.Versioned2.Blocks.{Data, size}
use libjmvcc.Versioned2.Blocks.Contents.{
  newest, entries, Live, block, block-Live, size-Live, window-Live,
}

module _ {T : Type 0} where
  extend_last-append :
      (xs : List (Entry T)) (x : Entry T) (epoch : ℕ)
      → extend_last (xs ++ x ∷ []) epoch ≡ xs ++ record x { valid_to = epoch } ∷ []
  unfolding extend_last
  extend_last-append [] x epoch = refl
  extend_last-append (y ∷ []) x epoch = refl
  extend_last-append (y ∷ z ∷ xs) x epoch = ap (◌∷◌ y) (extend_last-append (z ∷ xs) x epoch)

  -- Past the version the loop copies all that is left: no later version begins where it began.
  clean_rest :
      (f from : ℕ) (found : Bool) (out h : List (Entry T)) (c : T)
      → Increasing from h
      → f < from
      → clean_loop f false from found out (entries h c) ≡ ok (found, out ++ entries h c)
  unfolding clean_loop
  clean_rest f from found out [] c inc q = rw (ne→== from f (omega arith), clean_loop)
  clean_rest f from found out (e ∷ es) c inc q = rw (
    ne→== from f (omega arith),
    clean_loop,
    clean_rest f e.valid_to found (out ++ e ∷ []) es c inc.1 (omega arith),
    append_assoc out (e ∷ []) (entries es c),
  )

  -- Up to the version the loop copies; the entry before it then ends where the version ended.
  clean_found :
      (f t from i : ℕ) (out h : List (Entry T)) (x : Entry T) (c : T)
      → x.valid_to ≡ from
      → Increasing from h
      → IsVersion from h i f t
      → clean_loop f false from false (out ++ x ∷ []) (entries h c)
        ≡ ok (true, out ++ entries (forget (x ∷ h) i) c)
  unfolding clean_loop
  clean_found f t from i out [] x c p inc at = elim at [ ]
  clean_found f t from zero out (e ∷ es) x c p inc at =
      let hit : (from == f) ≡ true = ap (◌==◌ from) (sym at.0) ∙ ==-self from in
      let x' = record x { valid_to = e.valid_to } in
      rw (hit, clean_loop, extend_last-append out x e.valid_to)
        (clean_rest f e.valid_to true (out ++ x' ∷ []) es c inc.1 (omega arith)
          ∙ ap (λ l. ok (true, l)) (append_assoc out (x' ∷ []) (entries es c)))
  clean_found f t from (suc i) out (e ∷ es) x c p inc at =
      let b = IsVersion-bounds e.valid_to i f t es inc.1 at in
      rw (ne→== from f (omega arith), clean_loop)
        (clean_found f t e.valid_to i (out ++ x ∷ []) es e c refl inc.1 at
          ∙ ap (λ l. ok (true, l)) (append_assoc out (x ∷ []) (entries (forget (e ∷ es) i) c)))

  clean_all :
      (f t i : ℕ) (h : List (Entry T)) (c : T)
      → Increasing 1 h
      → IsVersion 1 h i f t
      → clean_loop f true 1 false [] (entries h c) ≡ ok (true, entries (cleaned h i) c)
  unfolding clean_loop extend_last
  clean_all f t i [] c inc at = elim at [ ]
  clean_all f t zero (e ∷ es) c inc at =
      let hit : (1 == f) ≡ true = ap (◌==◌ 1) (sym at.0) ∙ ==-self 1 in
      rw (hit, clean_loop) (clean_rest f e.valid_to true [] es c inc.1 (omega arith))
  clean_all f t (suc i) (e ∷ es) c inc at =
      let b = IsVersion-bounds e.valid_to i f t es inc.1 at in
      rw (ne→== 1 f (omega arith), le→ltb f e.valid_to b.0, clean_loop)
        (clean_found f t e.valid_to i [] es e c refl inc.1 at)

  length-cleaned :
      (from i f t : ℕ) (h : List (Entry T))
      → IsVersion from h i f t
      → length (cleaned h i) + 1 ≡ length h
  length-cleaned from i f t [] at = elim at [ ]
  length-cleaned from zero f t (e ∷ es) at = omega arith
  length-cleaned from (suc i) f t (e ∷ []) at = elim at [ ]
  length-cleaned from (suc zero) f t (e ∷ x ∷ xs) at = omega arith
  length-cleaned from (suc (suc i)) f t (e ∷ x ∷ xs) at =
      omega (arith, length-cleaned e.valid_to (suc i) f t (x ∷ xs) at)

  -- The block that a round makes.
  pub cleanup_round-Live :
      (d : Data T) (h : List (Entry T)) (c : T) (i f t : ℕ)
      → Live d (entries h c)
      → Increasing 1 h
      → IsVersion 1 h i f t
      → (u : Data T) × (cleanup_round f d ≡ ok u) × Live u (entries (cleaned h i) c)
  unfolding cleanup_round
  cleanup_round-Live d h c i f t v inc at =
      let out = entries (cleaned h i) c in
      let n = length-cleaned 1 i f t h at in
      let a = length-append h (newest c ∷ []) in
      let b = length-append (cleaned h i) (newest c ∷ []) in
      let window : take (size d) (drop d.first d.history) ≡ entries h c = window-Live v in
      (
        block (size d) out,
        rw
            (
              window,
              size-Live v,
              le→ltb (length (entries h c)) 2 (omega (arith, n, a)),
              clean_all f t i h c inc at,
            )
            (rw (length-eq out (entries h c) (omega (arith, n, a, b)))),
        block-Live (size d) out (omega (arith, size-Live v, n, a, b)),
      )
    where
      length-eq :
          (xs ys : List (Entry T)) → length ys ≡ length xs + 1 → (length ys == length xs + 1) ≡ true
      length-eq xs ys e = ap (◌==◌ (length ys)) (sym e) ∙ ==-self (length ys)

  -- Cleaning up a version that is in the history of the block, whose epochs increase, succeeds if no
  -- other thread replaces the block meanwhile, and removes that version and no other.
  pub cleanup-Live :
      (X : CompareExchange (Data T)) (d : Data T) (h : List (Entry T)) (c : T) (i f t : ℕ)
      → Live d (entries h c)
      → Increasing 1 h
      → IsVersion 1 h i f t
      → (u : Data T) × (cleanup X [] d f ≡ ok u) × Live u (entries (cleaned h i) c)
  unfolding cleanup
  cleanup-Live X d h c i f t v inc at =
      let (u, made, live) = cleanup_round-Live d h c i f t v inc at in
      (u, exchange-alone X (cleanup_round f) d u made, live)
