-- ===== src/Versioned/Rename.antt =====
-- `rename_epoch` of jmvcc/versioned.h.
use libjmvcc.Base.{
  ℕ, zero, suc, ◌+◌, ◌≤◌, ◌<◌, ◌≡◌, refl, ap, ap₂, ◌∙◌, sym, false, some, List, [], ◌∷◌, arith, ltb,
  le→leb, lt→leb, le→ltb, if◌then◌else◌, length, get_elem?, set, ◌⊎◌, ◌==◌, ok,
}
use libjmvcc.CircularBuffer.{CircularBuffer}
use libjmvcc.Timeline.{
  Entry, seen_move, read_at, versions, Increasing, IsVersion, IsVersion-bounds, move_end,
  Increasing-move, UpTo-move,
}
use libjmvcc.Versioned.{
  Versioned, valid_to_or, value_at_epoch, find_valid_to, prior_not_before, next_not_after,
  next_epoch, rename_at, rename_epoch,
}
use libjmvcc.Versioned.Reads.{value_at_epoch-eq-read_at}
use libjmvcc.Versioned.Updates.{IsValid}

module _ {T : Type 0} where
  find_valid_to-IsVersion :
      (from i f t : ℕ) (h : List (Entry T))
      → Increasing from h
      → IsVersion from h i f t
      → find_valid_to t h ≡ some i
  unfolding find_valid_to
  find_valid_to-IsVersion from i f t [] inc at = elim at [ ]
  find_valid_to-IsVersion from zero f t (e ∷ es) inc at = ground arith
  find_valid_to-IsVersion from (suc i) f t (e ∷ es) inc at = ground (
    arith,
    IsVersion-bounds e.valid_to i f t es inc.1 at,
    find_valid_to-IsVersion e.valid_to i f t es inc.1 at,
  )

  prior-IsVersion :
      (from i f t new : ℕ) (h : List (Entry T))
      → IsVersion from h i f t
      → f < new
      → prior_not_before h i new ≡ false
  unfolding prior_not_before
  prior-IsVersion from zero f t new h at q = refl
  prior-IsVersion from (suc i) f t new [] at q = elim at [ ]
  prior-IsVersion from (suc i) f t new (e ∷ []) at q = elim at [ ]
  prior-IsVersion from (suc zero) f t new (e ∷ x ∷ xs) at q = lt→leb new e.valid_to (omega arith)
  prior-IsVersion from (suc (suc i)) f t new (e ∷ x ∷ xs) at q =
      prior-IsVersion e.valid_to (suc i) f t new (x ∷ xs) at q

  next-IsVersion :
      (from i f t new : ℕ) (h : List (Entry T))
      → Increasing from h
      → IsVersion from h i f t
      → new ≤ t
      → next_not_after h i new ≡ false
  unfolding next_not_after
  next-IsVersion from i f t new [] inc at q = elim at [ ]
  next-IsVersion from zero f t new (e ∷ []) inc at q = refl
  next-IsVersion from zero f t new (e ∷ x ∷ xs) inc at q = lt→leb x.valid_to new (omega arith)
  next-IsVersion from (suc i) f t new (e ∷ es) inc at q =
      next-IsVersion e.valid_to i f t new es inc.1 at q

  set-IsVersion :
      (from i f t new : ℕ) (h : List (Entry T))
      → IsVersion from h i f t
      → (e : Entry T) × (get_elem? h i ≡ some e)
        × (set h i (record e { valid_to = new }) ≡ move_end h i new)
  set-IsVersion from i f t new [] at = elim at [ ]
  set-IsVersion from zero f t new (e ∷ es) at = (e, refl, refl)
  set-IsVersion from (suc i) f t new (x ∷ xs) at =
      let (e, p, q) = set-IsVersion x.valid_to i f t new xs at in (e, p, ap (◌∷◌ x) q)

  -- `rename_epoch` returns the end of the renamed version, if that is where the newest one begins.
  next_epoch-IsVersion :
      (from i f t : ℕ) (h : List (Entry T))
      → IsVersion from h (suc i) f t
      → next_epoch h i ≡ (if i + 2 == length h then t else 0)
  unfolding next_epoch
  next_epoch-IsVersion from i f t h at =
      ap (λ n. if i + 2 == length h then n else 0) (go from i h at)
    where
      go :
          (from i : ℕ) (h : List (Entry T))
          → IsVersion from h (suc i) f t
          → valid_to_or 0 (get_elem? h (suc i)) ≡ t
      go from i [] at = elim at [ ]
      go from i (e ∷ []) at = elim at [ ]
      go from zero (e ∷ x ∷ xs) at = at.1
      go from (suc i) (e ∷ x ∷ xs) at = go e.valid_to i (x ∷ xs) at

module _ {T : Type 0} (B : CircularBuffer (Entry T)) where
  rename_later :
      (v : Versioned B) (old new i : ℕ) (e : Entry T) (es : List (Entry T))
      → B.to_list v.history ≡ e ∷ es
      → ltb old e.valid_to ≡ false
      → find_valid_to old (e ∷ es) ≡ some i
      → rename_epoch B v old new ≡ rename_at B v new i
  unfolding rename_epoch
  rename_later v old new i e es p q r = rw (p, rename_epoch) (rw q (rw (r, rename_epoch)))

  rename_at_lem :
      (v : Versioned B) (new i : ℕ) (e : Entry T)
      → get_elem? (B.to_list v.history) i ≡ some e
      → prior_not_before (B.to_list v.history) i new ≡ false
      → next_not_after (B.to_list v.history) i new ≡ false
      → rename_at B v new i
        ≡ ok (
          next_epoch (B.to_list v.history) i,
          record v { history = B.assign v.history i (record e { valid_to = new }) },
        )
  unfolding rename_at
  rename_at_lem v new i e p q r = rw (p, rename_at) (rw (q, r))

  pub Renames : Versioned B → ℕ → ℕ → List (Entry T) → ℕ → Type 0
  Renames v old new h i =
      (w : Versioned B) × (rename_epoch B v old new ≡ ok (next_epoch h i, w))
      × (w.current ≡ v.current)
      × (B.to_list w.history ≡ move_end h i new)

  rename-cases :
      (v : Versioned B) (h : List (Entry T)) (i f old new : ℕ)
      → B.to_list v.history ≡ h
      → Increasing 1 h
      → IsVersion 1 h i f old
      → f < new
      → new ≤ old
      → Renames v old new h i
  unfolding Renames
  rename-cases v [] i f old new p inc at a b = elim at [ ]
  rename-cases v (x ∷ xs) i f old new p inc at a b =
      let (e, pe, left) = set-IsVersion 1 i f old new (x ∷ xs) at in
      (
        record v { history = B.assign v.history i (record e { valid_to = new }) },
        rename_later v old new i x xs p (le→ltb old x.valid_to (first-le x xs i inc at))
              (find_valid_to-IsVersion 1 i f old (x ∷ xs) inc at)
            ∙ rename_at_lem v new i e (ap (λ h. get_elem? h i) p ∙ pe)
                (ap (λ h. prior_not_before h i new) p ∙ prior-IsVersion 1 i f old new (x ∷ xs) at a)
                (ap (λ h. next_not_after h i new) p
                  ∙ next-IsVersion 1 i f old new (x ∷ xs) inc at b)
            ∙ ap
                (λ h. ok (
                  next_epoch h i,
                  record v { history = B.assign v.history i (record e { valid_to = new }) },
                ))
                p,
        refl,
        B.to_list-assign v.history i _ ∙ ap (λ h. set h i (record e { valid_to = new })) p ∙ left,
      )
    where
      first-le :
          (x : Entry T) (xs : List (Entry T)) (i : ℕ)
          → Increasing 1 (x ∷ xs)
          → IsVersion 1 (x ∷ xs) i f old
          → x.valid_to ≤ old
      first-le x xs zero inc at = omega arith
      first-le x xs (suc i) inc at = omega (arith, IsVersion-bounds x.valid_to i f old xs inc.1 at)

  pub rename_epoch-moved :
      (v : Versioned B) (i f old t new : ℕ)
      → Increasing 1 (B.to_list v.history)
      → IsVersion 1 (B.to_list v.history) i f old
      → IsVersion 1 (B.to_list v.history) (suc i) old t
      → f < new
      → new ≤ old
      → (w : Versioned B) × (rename_epoch B v old new
          ≡ ok ((if i + 2 == length (B.to_list v.history) then t else 0), w))
        × (w.current ≡ v.current)
        × (B.to_list w.history ≡ move_end (B.to_list v.history) i new)
  unfolding Renames
  rename_epoch-moved v i f old t new inc at next a b =
      let (w, run, same, left) = rename-cases v (B.to_list v.history) i f old new refl inc at a b in
      (
        w,
        run ∙ ap (λ n. ok (n, w)) (next_epoch-IsVersion 1 i old t (B.to_list v.history) next),
        same,
        left,
      )

  -- Renaming the epoch at which a version begins to an earlier one, that is still later than the
  -- begin of the version before it, succeeds, for a version of a valid object that is neither its
  -- oldest nor its newest. It returns the end of the renamed version, if there the newest version
  -- begins, and 0 otherwise. The object stays valid, and no read from epoch 1 on changes but those
  -- from the new epoch up to before the old one.
  pub rename_epoch-reads :
      (v : Versioned B) (bound i f old t new epoch : ℕ)
      → IsValid B bound v
      → IsVersion 1 (B.to_list v.history) i f old
      → IsVersion 1 (B.to_list v.history) (suc i) old t
      → f < new
      → new ≤ old
      → 1 ≤ epoch
      → (epoch < new) ⊎ (old ≤ epoch)
      → (w : Versioned B) × (rename_epoch B v old new
          ≡ ok ((if i + 2 == length (B.to_list v.history) then t else 0), w))
        × IsValid B bound w
        × (value_at_epoch B w epoch ≡ value_at_epoch B v epoch)
  unfolding Renames
  rename_epoch-reads v bound i f old t new epoch valid at next a b q out =
      let (w, run, same, left) = rename_epoch-moved v i f old t new valid.increasing at next a b in
      (
        w,
        run,
        record {
          increasing =
              rw left (Increasing-move 1 i f old new (B.to_list v.history) valid.increasing at a b);
          up_to = rw left (UpTo-move bound 1 i f old new (B.to_list v.history) valid.up_to at b);
        },
        value_at_epoch-eq-read_at B w epoch q
            ∙ ap₂ (λ h c. read_at epoch (versions 1 h c)) left same
            ∙ moved (B.to_list v.history) i q out at
            ∙ sym (value_at_epoch-eq-read_at B v epoch q),
      )
    where
      moved :
          (h : List (Entry T)) (i : ℕ)
          → 1 ≤ epoch
          → (epoch < new) ⊎ (old ≤ epoch)
          → IsVersion 1 h i f old
          → read_at epoch (versions 1 (move_end h i new) v.current)
            ≡ read_at epoch (versions 1 h v.current)
      moved [] i q out at = elim at [ ]
      moved (e ∷ es) zero q out at = ground (
        arith,
        le→leb 1 epoch q,
        seen_move epoch 1 zero f old new e.value v.current (e ∷ es) (ground arith) at,
      )
      moved (e ∷ es) (suc i) q out at = ground (
        arith,
        le→leb 1 epoch q,
        seen_move epoch 1 (suc i) f old new e.value v.current (e ∷ es) (ground arith) at,
      )
