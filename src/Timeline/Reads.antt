-- ===== src/Timeline/Reads.antt =====
-- How a change of the history changes what a snapshot sees.
use libjmvcc.Base.{
  ℕ, zero, suc, ◌≤◌, ◌<◌, ◌≡◌, refl, ap, ◌⊎◌, inl, inr, some, List, [], ◌∷◌, ◌++◌, arith, leb,
  lt→leb, le→leb, if◌then◌else◌, get_last?,
}
use libjmvcc.Timeline.Defs.{
  starts, Entry, seen, versions, Increasing, UpTo, IsVersion, newest_from, forget, move_end,
}

module _ {T : Type 0} where
  -- A newer version is seen from its epoch on, and changes nothing before.
  pub seen_push :
      (epoch from new : ℕ) (d c c' : T) (h : List (Entry T))
      → seen epoch d (versions from (h ++ record { valid_to = new; value = c } ∷ []) c')
        ≡ (if leb new epoch then c' else seen epoch d (versions from h c))
  seen_push epoch from new d c c' [] = ground arith
  seen_push epoch from new d c c' (e ∷ es) =
      seen_push epoch e.valid_to new (if leb from epoch then e.value else d) c c' es

  -- Who sees the version that begins at `from` sees nothing of the earlier ones.
  pub seen_from :
      (epoch from : ℕ) (d d' c : T) (h : List (Entry T))
      → from ≤ epoch
      → seen epoch d (versions from h c) ≡ seen epoch d' (versions from h c)
  seen_from epoch from d d' c [] q = rw (le→leb from epoch q)
  seen_from epoch from d d' c (e ∷ es) q = rw (le→leb from epoch q, seen)

  -- Without a version, all see the same who did not see that version.
  pub seen-forget :
      (epoch from i f t : ℕ) (d c : T) (h : List (Entry T))
      → (epoch < f) ⊎ (t ≤ epoch)
      → IsVersion from h (suc i) f t
      → seen epoch d (versions from (forget h i) c) ≡ seen epoch d (versions from h c)
  seen-forget epoch from zero f t d c (e ∷ []) out v = elim v [ ]
  seen-forget epoch from (suc i) f t d c (e ∷ []) out v = elim v [ ]
  seen-forget epoch from i f t d c [] out v = elim v [ ]
  seen-forget epoch from zero f t d c (e ∷ x ∷ xs) (inl q) v =
      rw (lt→leb e.valid_to epoch (omega arith), seen)
  seen-forget epoch from zero f t d c (e ∷ x ∷ xs) (inr q) v =
      seen_from epoch x.valid_to _ _ c xs (omega arith)
  seen-forget epoch from (suc i) f t d c (e ∷ x ∷ xs) out v =
      seen-forget epoch e.valid_to i f t (if leb from epoch then e.value else d) c (x ∷ xs) out v

  -- When a version begins earlier, all see the same but those between the two epochs.
  pub seen_move :
      (epoch from i f t new : ℕ) (d c : T) (h : List (Entry T))
      → leb new epoch ≡ leb t epoch
      → IsVersion from h i f t
      → seen epoch d (versions from (move_end h i new) c) ≡ seen epoch d (versions from h c)
  seen_move epoch from i f t new d c [] out v = elim v [ ]
  seen_move epoch from zero f t new d c (e ∷ []) out v = ground arith
  seen_move epoch from zero f t new d c (e ∷ x ∷ xs) out v = ground arith
  seen_move epoch from (suc i) f t new d c (e ∷ es) out v =
      seen_move epoch e.valid_to i f t new (if leb from epoch then e.value else d) c es out v

  pub IsVersion-bounds :
      (from i f t : ℕ) (h : List (Entry T))
      → Increasing from h
      → IsVersion from h i f t
      → (from ≤ f) × (f < t)
  IsVersion-bounds from i f t [] inc v = elim v [ ]
  IsVersion-bounds from zero f t (e ∷ es) inc v = omega arith
  IsVersion-bounds from (suc i) f t (e ∷ es) inc v =
      omega (arith, IsVersion-bounds e.valid_to i f t es inc.1 v)

  pub Increasing-push :
      (from new : ℕ) (c : T) (h : List (Entry T))
      → Increasing from h
      → newest_from from h < new
      → Increasing from (h ++ record { valid_to = new; value = c } ∷ [])
  Increasing-push from new c [] inc q = (q, tt)
  Increasing-push from new c (e ∷ es) inc q = (inc.0, Increasing-push e.valid_to new c es inc.1 q)

  pub UpTo-push :
      (bound new : ℕ) (c : T) (h : List (Entry T))
      → UpTo bound h
      → new ≤ bound
      → UpTo bound (h ++ record { valid_to = new; value = c } ∷ [])
  UpTo-push bound new c [] up q = (q, tt)
  UpTo-push bound new c (e ∷ es) up q = (up.0, UpTo-push bound new c es up.1 q)

  pub UpTo-mono : (b b' : ℕ) (h : List (Entry T)) → b ≤ b' → UpTo b h → UpTo b' h
  UpTo-mono b b' [] q up = tt
  UpTo-mono b b' (e ∷ es) q up = (omega arith, UpTo-mono b b' es q up.1)

  pub newest_from-le :
      (from b : ℕ) (h : List (Entry T)) → from ≤ b → UpTo b h → newest_from from h ≤ b
  newest_from-le from b [] q up = q
  newest_from-le from b (e ∷ es) q up = newest_from-le e.valid_to b es up.0 up.1

  pub Increasing-forget :
      (from i : ℕ) (h : List (Entry T)) → Increasing from h → Increasing from (forget h i)
  Increasing-forget from i [] inc = tt
  Increasing-forget from zero (e ∷ []) inc = inc
  Increasing-forget from (suc i) (e ∷ []) inc = inc
  Increasing-forget from zero (e ∷ x ∷ xs) inc = (omega arith, inc.1.1)
  Increasing-forget from (suc i) (e ∷ x ∷ xs) inc =
      (inc.0, Increasing-forget e.valid_to i (x ∷ xs) inc.1)

  pub UpTo-forget : (bound i : ℕ) (h : List (Entry T)) → UpTo bound h → UpTo bound (forget h i)
  UpTo-forget bound i [] up = tt
  UpTo-forget bound zero (e ∷ []) up = up
  UpTo-forget bound (suc i) (e ∷ []) up = up
  UpTo-forget bound zero (e ∷ x ∷ xs) up = (up.1.0, up.1.1)
  UpTo-forget bound (suc i) (e ∷ x ∷ xs) up = (up.0, UpTo-forget bound i (x ∷ xs) up.1)

  pub Increasing-move :
      (from i f t new : ℕ) (h : List (Entry T))
      → Increasing from h
      → IsVersion from h i f t
      → f < new
      → new ≤ t
      → Increasing from (move_end h i new)
  Increasing-move from i f t new [] inc at p q = elim at [ ]
  Increasing-move from zero f t new (e ∷ []) inc at p q = (omega arith, tt)
  Increasing-move from zero f t new (e ∷ x ∷ xs) inc at p q = (omega arith, (omega arith, inc.1.1))
  Increasing-move from (suc i) f t new (e ∷ es) inc at p q =
      (inc.0, Increasing-move e.valid_to i f t new es inc.1 at p q)

  pub UpTo-move :
      (bound from i f t new : ℕ) (h : List (Entry T))
      → UpTo bound h
      → IsVersion from h i f t
      → new ≤ t
      → UpTo bound (move_end h i new)
  UpTo-move bound from i f t new [] up at q = elim at [ ]
  UpTo-move bound from zero f t new (e ∷ es) up at q = (omega arith, up.1)
  UpTo-move bound from (suc i) f t new (e ∷ es) up at q =
      (up.0, UpTo-move bound e.valid_to i f t new es up.1 at q)

  pub starts-append :
      (from k : ℕ) (h : List (Entry T)) (c : T)
      → starts from (h ++ record { valid_to = k; value = c } ∷ []) ≡ versions from h c
  starts-append from k [] c = refl
  starts-append from k (e ∷ es) c =
      ap (◌∷◌ (record { valid_from = from; value = e.value })) (starts-append e.valid_to k es c)

  pub get_last?-newest_from :
      (e : Entry T) (es : List (Entry T))
      → (x : Entry T) × (get_last? (e ∷ es) ≡ some x) × (x.valid_to ≡ newest_from e.valid_to es)
  get_last?-newest_from e [] = (e, refl, refl)
  get_last?-newest_from e (x ∷ xs) = get_last?-newest_from x xs
