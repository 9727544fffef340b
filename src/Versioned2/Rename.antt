-- ===== src/Versioned2/Rename.antt =====
-- `rename_epoch` of jmvcc/versioned2.h.
use libjmvcc.Base.{
  ==→eq, ℕ, zero, suc, ◌+◌, ◌-◌, ◌≤◌, ◌≡◌, refl, ap, ◌∙◌, true, false, some, List, [], ◌∷◌, arith,
  ◌==◌, ne→==, le→ltb, if◌then◌else◌, length, length-append, get_elem?, set, take_all, Bool-cases,
  ok, inl, inr,
}
use libjmvcc.CompareExchange.{CompareExchange}
use libjmvcc.Timeline.{Entry, Increasing, IsVersion, IsVersion-bounds, move_end}
use libjmvcc.Versioned2.{
  find_valid_to, rename_at, rename_block, rename_round, rename_epoch, published,
}
use libjmvcc.Versioned2.Blocks.{Data, write_valid_to}
use libjmvcc.Versioned2.Blocks.Contents.{
  newest, entries, Live, block, block-Live, size-Live, read-Live, new_data_copy-Live,
  write_at-block,
}

module _ {T : Type 0} where
  find_valid_to-IsVersion :
      (k from i f t : ℕ) (h : List (Entry T)) (c : T)
      → Increasing from h
      → IsVersion from h i f t
      → find_valid_to t k (entries h c) ≡ some (k + i)
  unfolding find_valid_to
  find_valid_to-IsVersion k from i f t [] c inc at = elim at [ ]
  find_valid_to-IsVersion k from zero f t (e ∷ es) c inc at = ground arith
  find_valid_to-IsVersion k from (suc i) f t (e ∷ es) c inc at = ground (
    arith,
    IsVersion-bounds e.valid_to i f t es inc.1 at,
    find_valid_to-IsVersion (k + 1) e.valid_to i f t es c inc.1 at,
  )

  length-move_end : (h : List (Entry T)) (i new : ℕ) → length (move_end h i new) ≡ length h
  length-move_end [] i new = refl
  length-move_end (e ∷ es) zero new = refl
  length-move_end (e ∷ es) (suc i) new = ap suc (length-move_end es i new)

  set-entries :
      (from i f t new : ℕ) (h : List (Entry T)) (c : T)
      → IsVersion from h i f t
      → (e : Entry T) × (get_elem? (entries h c) i ≡ some e)
        × (set (entries h c) i (record e { valid_to = new }) ≡ entries (move_end h i new) c)
  set-entries from i f t new [] c at = elim at [ ]
  set-entries from zero f t new (e ∷ es) c at = (e, refl, refl)
  set-entries from (suc i) f t new (x ∷ xs) c at =
      let (e, p, q) = set-entries x.valid_to i f t new xs c at in (e, p, ap (◌∷◌ x) q)

  next-entries :
      (from i f old t new : ℕ) (h : List (Entry T)) (c : T)
      → IsVersion from h i f old
      → IsVersion from h (suc i) old t
      → (e : Entry T) × (get_elem? (entries (move_end h i new) c) (suc i) ≡ some e)
        × (e.valid_to ≡ t)
  next-entries from i f old t new [] c at next = elim at [ ]
  next-entries from zero f old t new (e ∷ []) c at next = elim next [ ]
  next-entries from zero f old t new (e ∷ x ∷ xs) c at next = (x, refl, next.1)
  next-entries from (suc i) f old t new (e ∷ es) c at next =
      next-entries e.valid_to i f old t new es c at next

  rename_block-Live :
      (d : Data T) (h : List (Entry T)) (c : T) (i f old t new : ℕ)
      → Live d (entries h c)
      → Increasing 1 h
      → IsVersion 1 h i f old
      → IsVersion 1 h (suc i) old t
      → rename_block old new d
        ≡ ok ((if i + 2 == length h then t else 0), block d.capacity (entries (move_end h i new) c))
  unfolding rename_block rename_at
  rename_block-Live d h c i f old t new v inc at next =
      let (e, p, q) = set-entries 1 i f old new h c at in
      let (x, r, s) = next-entries 1 i f old t new h c at next in
      let l' = entries (move_end h i new) c in
      let n = length-append h (newest c ∷ []) in
      let found : find_valid_to old 0 (entries h c) ≡ some i =
        find_valid_to-IsVersion 0 1 i f old h c inc at ∙ ap some (omega arith) in
      let written : write_valid_to (block d.capacity (entries h c)) i new
          ≡ ok (block d.capacity l') =
        write_at-block d.capacity (entries h c) i e new p ∙ ap (λ l. ok (block d.capacity l)) q in
      rw
        (
          size-Live v,
          new_data_copy-Live d.capacity v v.room,
          take_all (entries h c),
          found,
          written,
        )
        (elim (Bool-cases (i + 2 == length h)) [
          | inl a ↦
              let k : length (entries h c) - 2 ≡ suc i =
                omega (arith, n, ==→eq (i + 2) (length h) a) in
              let m : (i + 3 == length (entries h c)) ≡ true = ground (arith, n) in
              rw (
                size-Live v,
                a,
                m,
                k,
                read-Live (suc i) x
                    (block-Live d.capacity l' (
                      omega (
                        arith,
                        n,
                        v.room,
                        length-append (move_end h i new) (newest c ∷ []),
                        length-move_end h i new,
                      )))
                    r,
                s,
              )
          | inr a ↦
              let m : (i + 3 == length (entries h c)) ≡ false = ground (arith, n) in
              rw (size-Live v, a, m)
        ])

  -- Renaming the epoch at which a version of a block with increasing epochs begins, that is neither
  -- the oldest nor the newest, succeeds, if no other thread replaces the block meanwhile. It moves that
  -- epoch, and returns the end of the version if there the newest one begins, and 0 otherwise.
  pub rename_epoch-Live :
      (X : CompareExchange (Data T)) (d : Data T) (h : List (Entry T)) (c : T) (i f old t new : ℕ)
      → Live d (entries h c)
      → Increasing 1 h
      → IsVersion 1 h i f old
      → IsVersion 1 h (suc i) old t
      → (u : Data T) × (rename_epoch X [] d old new ≡ ok ((if i + 2 == length h then t else 0), u))
        × Live u (entries (move_end h i new) c)
  unfolding rename_epoch rename_round published
  rename_epoch-Live X d [] c i f old t new v inc at next = elim at [ ]
  rename_epoch-Live X d (x ∷ xs) c i f old t new v inc at next =
      let l' = entries (move_end (x ∷ xs) i new) c in
      let n = length-append (x ∷ xs) (newest c ∷ []) in
      let m = length-append (move_end (x ∷ xs) i new) (newest c ∷ []) in
      let run = rename_block-Live d (x ∷ xs) c i f old t new v inc at next in
      (
        block d.capacity l',
        simp v.first_zero (
            rw (
              size-Live v,
              ne→== (length (entries (x ∷ xs) c)) 0 (omega arith),
              read-Live 0 x v refl,
              le→ltb old x.valid_to (first-le x xs i inc at),
              run,
              X.as_expected d (block d.capacity l'),
            )),
        block-Live d.capacity l' (omega (arith, n, v.room, m, length-move_end (x ∷ xs) i new)),
      )
    where
      first-le :
          (x : Entry T) (xs : List (Entry T)) (i : ℕ)
          → Increasing 1 (x ∷ xs)
          → IsVersion 1 (x ∷ xs) i f old
          → x.valid_to ≤ old
      first-le x xs zero inc at = omega arith
      first-le x xs (suc i) inc at = omega (arith, IsVersion-bounds x.valid_to i f old xs inc.1 at)
