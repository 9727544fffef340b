-- ===== src/Versioned/Cleanup.antt =====
-- `cleanup` of jmvcc/versioned.h.
use libjmvcc.Base.{
  ℕ, zero, suc, ◌≤◌, ◌<◌, ◌≡◌, refl, ap, ap₂, ◌∙◌, sym, true, false, some, List, [], ◌∷◌, arith,
  ltb, le→leb, lt→ltb, le→ltb, ne→==, get_elem?, set, erase_at, tail, inl, inr, ◌⊎◌, ◌==◌, ok,
}
use libjmvcc.CircularBuffer.{CircularBuffer}
use libjmvcc.Timeline.{
  Entry, seen, seen-forget, read_at, versions, Increasing, UpTo, IsVersion, IsVersion-bounds,
  forget, Increasing-forget, UpTo-forget,
}
use libjmvcc.Versioned.{
  Versioned, value_at_epoch, find_version, extend_last, erase_version, cleanup,
}
use libjmvcc.Versioned.Reads.{value_at_epoch-eq-read_at}
use libjmvcc.Versioned.Updates.{IsValid}

module _ {T : Type 0} where
  find_version-IsVersion :
      (from i f t : ℕ) (h : List (Entry T))
      → Increasing from h
      → IsVersion from h i f t
      → find_version f from h ≡ some i
  unfolding find_version
  find_version-IsVersion from i f t [] inc v = elim v [ ]
  find_version-IsVersion from zero f t (e ∷ es) inc v = ground arith
  find_version-IsVersion from (suc i) f t (e ∷ es) inc v = ground (
    arith,
    IsVersion-bounds e.valid_to i f t es inc.1 v,
    find_version-IsVersion e.valid_to i f t es inc.1 v,
  )

  -- The history that `cleanup` leaves, by the number of the version.
  abbrev pub cleaned : List (Entry T) → ℕ → List (Entry T)
  cleaned h zero = tail h
  cleaned h (suc i) = forget h i

  forget-eq :
      (h : List (Entry T)) (i : ℕ) (l e : Entry T)
      → get_elem? h i ≡ some l
      → get_elem? h (suc i) ≡ some e
      → erase_at (set h i (record l { valid_to = e.valid_to })) (suc i) ≡ forget h i
  forget-eq [] i l e p q = cc
  forget-eq (x ∷ []) i l e p q = cc
  forget-eq (x ∷ y ∷ h) zero l e p q = ground arith
  forget-eq (x ∷ y ∷ h) (suc i) l e p q = ap (◌∷◌ x) (forget-eq (y ∷ h) i l e p q)

  get-IsVersion :
      (from i f t : ℕ) (h : List (Entry T))
      → IsVersion from h (suc i) f t
      → (l : Entry T) × (e : Entry T) × (get_elem? h i ≡ some l) × (get_elem? h (suc i) ≡ some e)
  get-IsVersion from i f t [] v = elim v [ ]
  get-IsVersion from i f t (x ∷ []) v = elim v [ ]
  get-IsVersion from zero f t (x ∷ y ∷ h) v = (x, y, refl, refl)
  get-IsVersion from (suc i) f t (x ∷ y ∷ h) v = get-IsVersion x.valid_to i f t (y ∷ h) v

module _ {T : Type 0} (B : CircularBuffer (Entry T)) where
  pub cleanup_first :
      (v : Versioned B) (f : ℕ) (e : Entry T) (es : List (Entry T))
      → B.to_list v.history ≡ e ∷ es
      → ltb f e.valid_to ≡ true
      → cleanup B v f ≡ ok (record v { history = B.pop_front v.history })
  unfolding cleanup
  cleanup_first v f e es p q = rw (p, cleanup) (rw q)

  cleanup_later :
      (v : Versioned B) (f i : ℕ) (e : Entry T) (es : List (Entry T))
      → B.to_list v.history ≡ e ∷ es
      → ltb f e.valid_to ≡ false
      → find_version f 1 (e ∷ es) ≡ some i
      → cleanup B v f ≡ erase_version B v f i
  unfolding cleanup
  cleanup_later v f i e es p q r = rw (p, cleanup) (rw q (rw (r, cleanup)))

  erase_version_lem :
      (v : Versioned B) (f j : ℕ) (l e : Entry T)
      → (f == 1) ≡ false
      → get_elem? (B.to_list v.history) j ≡ some l
      → get_elem? (B.to_list v.history) (suc j) ≡ some e
      → erase_version B v f (suc j)
        ≡ ok (record v {
          history = B.erase (B.assign v.history j (record l { valid_to = e.valid_to })) (suc j);
        })
  unfolding erase_version extend_last
  erase_version_lem v f j l e q p r = rw q (rw (p, extend_last) (rw (r, extend_last)))

  -- The result of a `cleanup` of version number `i`.
  pub Cleans : Versioned B → ℕ → List (Entry T) → ℕ → Type 0
  Cleans v f h i =
      (w : Versioned B) × (cleanup B v f ≡ ok w)
      × (w.current ≡ v.current)
      × (B.to_list w.history ≡ cleaned h i)

  cleanup-cases :
      (v : Versioned B) (h : List (Entry T)) (i f t : ℕ)
      → B.to_list v.history ≡ h
      → Increasing 1 h
      → IsVersion 1 h i f t
      → Cleans v f h i
  unfolding Cleans
  cleanup-cases v [] i f t p inc at = elim at [ ]
  cleanup-cases v (e ∷ es) zero f t p inc at = (
    record v { history = B.pop_front v.history },
    cleanup_first v f e es p (lt→ltb _ _ (omega arith)),
    refl,
    B.to_list-pop_front v.history ∙ ap tail p,
  )
  cleanup-cases v (e ∷ es) (suc i) f t p inc at =
      let b = IsVersion-bounds e.valid_to i f t es inc.1 at in
      let (l, x, pl, px) = get-IsVersion 1 i f t (e ∷ es) at in
      (
        _,
        cleanup_later v f (suc i) e es p (le→ltb _ _ b.0)
              (find_version-IsVersion 1 (suc i) f t (e ∷ es) inc at)
            ∙ erase_version_lem v f i l x (ne→== f 1 (omega arith)) (ap (λ h. get_elem? h i) p ∙ pl)
                (ap (λ h. get_elem? h (suc i)) p ∙ px),
        refl,
        B.to_list-erase _ (suc i)
            ∙ ap (λ h. erase_at h (suc i))
                (B.to_list-assign v.history i _
                  ∙ ap (λ h. set h i (record l { valid_to = x.valid_to })) p)
            ∙ forget-eq (e ∷ es) i l x pl px,
      )

  -- A `cleanup` of a version that is in the history succeeds and removes that version.
  pub cleanup-cleaned :
      (v : Versioned B) (i f t : ℕ)
      → Increasing 1 (B.to_list v.history)
      → IsVersion 1 (B.to_list v.history) i f t
      → (w : Versioned B) × (cleanup B v f ≡ ok w)
        × (w.current ≡ v.current)
        × (B.to_list w.history ≡ cleaned (B.to_list v.history) i)
  unfolding Cleans
  cleanup-cleaned v i f t inc at = cleanup-cases v (B.to_list v.history) i f t refl inc at

  pub cleaned-reads :
      (h : List (Entry T)) (c : T) (i f t epoch : ℕ)
      → 1 ≤ epoch
      → (epoch < f) ⊎ (t ≤ epoch)
      → IsVersion 1 h i f t
      → read_at epoch (versions 1 (cleaned h i) c) ≡ read_at epoch (versions 1 h c)
  cleaned-reads [] c i f t epoch q out at = elim at [ ]
  cleaned-reads (e ∷ []) c zero f t epoch q (inl o) at = absurd (omega arith)
  cleaned-reads (e ∷ []) c zero f t epoch q (inr o) at =
      rw (le→leb e.valid_to epoch (omega arith), seen)
  cleaned-reads (e ∷ x ∷ xs) c zero f t epoch q (inl o) at = absurd (omega arith)
  cleaned-reads (e ∷ x ∷ xs) c zero f t epoch q (inr o) at =
      rw (le→leb e.valid_to epoch (omega arith), seen)
  cleaned-reads (e ∷ []) c (suc i) f t epoch q out at = elim at [ ]
  cleaned-reads (e ∷ x ∷ xs) c (suc zero) f t epoch q out at =
      ground (arith, le→leb 1 epoch q, seen-forget epoch 1 zero f t e.value c (e ∷ x ∷ xs) out at)
  cleaned-reads (e ∷ x ∷ xs) c (suc (suc i)) f t epoch q out at =
      ground
        (arith, le→leb 1 epoch q, seen-forget epoch 1 (suc i) f t e.value c (e ∷ x ∷ xs) out at)

  pub Increasing-cleaned :
      (h : List (Entry T)) (i : ℕ) → Increasing 1 h → Increasing 1 (cleaned h i)
  Increasing-cleaned [] zero inc = tt
  Increasing-cleaned (e ∷ []) zero inc = tt
  Increasing-cleaned (e ∷ x ∷ xs) zero inc = (omega arith, inc.1.1)
  Increasing-cleaned h (suc i) inc = Increasing-forget 1 i h inc

  pub UpTo-cleaned :
      (bound : ℕ) (h : List (Entry T)) (i : ℕ) → UpTo bound h → UpTo bound (cleaned h i)
  UpTo-cleaned bound [] zero up = tt
  UpTo-cleaned bound (e ∷ es) zero up = up.1
  UpTo-cleaned bound h (suc i) up = UpTo-forget bound i h up

  -- Cleaning up a version in the history of a valid object succeeds, keeps the object valid, and
  -- changes no read, from epoch 1 on, at an epoch outside those of that version.
  pub cleanup-reads :
      (v : Versioned B) (bound i f t epoch : ℕ)
      → IsValid B bound v
      → IsVersion 1 (B.to_list v.history) i f t
      → 1 ≤ epoch
      → (epoch < f) ⊎ (t ≤ epoch)
      → (w : Versioned B) × (cleanup B v f ≡ ok w)
        × IsValid B bound w
        × (value_at_epoch B w epoch ≡ value_at_epoch B v epoch)
  unfolding Cleans
  cleanup-reads v bound i f t epoch ok_v at q out =
      let (w, run, same, left) = cleanup-cleaned v i f t ok_v.increasing at in
      (
        w,
        run,
        record {
          increasing = rw left (Increasing-cleaned (B.to_list v.history) i ok_v.increasing);
          up_to = rw left (UpTo-cleaned bound (B.to_list v.history) i ok_v.up_to);
        },
        value_at_epoch-eq-read_at B w epoch q
            ∙ ap₂ (λ h c. read_at epoch (versions 1 h c)) left same
            ∙ cleaned-reads (B.to_list v.history) v.current i f t epoch q out at
            ∙ sym (value_at_epoch-eq-read_at B v epoch q),
      )
