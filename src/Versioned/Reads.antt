-- ===== src/Versioned/Reads.antt =====
-- `value_at_epoch` of jmvcc/versioned.h against the abstract view of the object.
use libjmvcc.Base.{
  ℕ, zero, suc, ◌-◌, ◌≤◌, ◌≡◌, refl, ap, ◌∙◌, some, List, [], ◌∷◌, arith, leb, le→leb,
  if◌then◌else◌, length,
}
use libjmvcc.CircularBuffer.{CircularBuffer}
use libjmvcc.Timeline.{starts, Entry, seen, read_at, versions, newest_from}
use libjmvcc.Versioned.{Versioned, valid_from, scan, value_at_epoch}

module _ {T : Type 0} where
  pub valid_from-eq-newest_from : (h : List (Entry T)) → valid_from h ≡ newest_from 1 h
  unfolding valid_from
  valid_from-eq-newest_from [] = refl
  valid_from-eq-newest_from (x ∷ []) = refl
  valid_from-eq-newest_from (x ∷ y ∷ h) = valid_from-eq-newest_from (y ∷ h)

  -- The oldest two values act as one, whose value is the one of the two that the snapshot sees.
  scan-cons :
      (x y : Entry T) (h : List (Entry T)) (epoch j : ℕ)
      → scan (x ∷ y ∷ h) epoch (suc j)
        ≡ scan (record y { value = if leb x.valid_to epoch then y.value else x.value } ∷ h) epoch j
  unfolding scan
  scan-cons x y h epoch zero = ground arith
  scan-cons x y h epoch (suc zero) = ground (arith, scan-cons x y h epoch zero)
  scan-cons x y h epoch (suc (suc k)) = ground (arith, scan-cons x y h epoch (suc k))

  pub scan-eq-seen :
      (epoch : ℕ) (x : Entry T) (l : List (Entry T))
      → scan (x ∷ l) epoch (length l) ≡ some (seen epoch x.value (starts x.valid_to l))
  unfolding scan
  scan-eq-seen epoch x [] = refl
  scan-eq-seen epoch x (y ∷ l) =
      let v = if leb x.valid_to epoch then y.value else x.value in
      scan-cons x y l epoch (length l) ∙ scan-eq-seen epoch (record y { value = v }) l

  read_history :
      (epoch : ℕ) (x : Entry T) (h : List (Entry T)) (c : T)
      → (if leb (newest_from x.valid_to h) epoch then some c else scan (x ∷ h) epoch (length h))
        ≡ some (seen epoch x.value (versions x.valid_to h c))
  unfolding scan
  read_history epoch x [] c = ground arith
  read_history epoch x (y ∷ h) c =
      let v = if leb x.valid_to epoch then y.value else x.value in
      ap (λ r. if leb (newest_from y.valid_to h) epoch then some c else r)
        (scan-cons x y h epoch (length h))
      ∙ read_history epoch (record y { value = v }) h c

module _ {T : Type 0} (B : CircularBuffer (Entry T)) where
  -- The versions of an object.
  abbrev pub timeline : Versioned B → List (Entry T)
  timeline v = B.to_list v.history

  read_list :
      (epoch : ℕ) (h : List (Entry T)) (c : T)
      → 1 ≤ epoch
      → (if leb (newest_from 1 h) epoch then some c else scan h epoch (length h - 1))
        ≡ read_at epoch (versions 1 h c)
  unfolding scan
  read_list epoch [] c q = rw (le→leb 1 epoch q)
  read_list epoch (x ∷ h) c q =
      let e : suc (length h) - 1 ≡ length h = omega arith in rw e (read_history epoch x h c)

  -- A read at an epoch from 1 on, scanning the history backwards, returns what a scan forwards over
  -- all versions finds: the value of the last version that became valid no later than that epoch, or
  -- else of the oldest.
  pub value_at_epoch-eq-read_at :
      (v : Versioned B) (epoch : ℕ)
      → 1 ≤ epoch
      → value_at_epoch B v epoch ≡ read_at epoch (versions 1 (B.to_list v.history) v.current)
  unfolding value_at_epoch
  value_at_epoch-eq-read_at v epoch q =
      rw (valid_from-eq-newest_from (B.to_list v.history))
        (read_list epoch (B.to_list v.history) v.current q)
