-- ===== src/Versioned2/Blocks/Contents.antt =====
-- The blocks of jmvcc/versioned2.h by their contents.
use libjmvcc.Base.{
  length-set, drop, set-length, ℕ, zero, suc, ◌+◌, ◌-◌, ◌≤◌, ◌<◌, ◌≡◌, refl, ap, ◌∙◌, sym, subst,
  Bool, true, false, Option, none, some, List, [], ◌∷◌, ◌++◌, arith, leb, ne→==, lt→ltb, le→ltb,
  if◌then◌else◌, length, length-append, get_elem?, set, take, take_all, take-length,
  get_elem?-length, get_elem?_of_take, get_elem?_lt, Result, ok, throw, Error, ◌>>=◌,
}
use mathlib.Core.List.{append_assoc, append-nil}
use libjmvcc.Timeline.{Entry, seen, read_at, versions, starts-append}
use libjmvcc.Versioned
use libjmvcc.Versioned.Reads.{scan-eq-seen}
use libjmvcc.Versioned2.Blocks.{
  Data, size, read, element, write_valid_to, new_data, pop_back, push_back, copy_loop,
  new_data_copy, copy, scan, value_at_epoch,
}

module _ {T : Type 0} where
  abbrev pub newest : T → Entry T
  newest c = record { valid_to = 1; value = c }

  -- A history and the newest value, as a block lists them.
  abbrev pub entries : List (Entry T) → T → List (Entry T)
  entries h c = h ++ newest c ∷ []

  -- The block holds the entries `l`.
  pub record Live (d : Data T) (l : List (Entry T)) : Type 0 where
    pub first_zero : d.first ≡ 0
    pub count : d.last ≡ length l
    pub live : take d.last d.history ≡ l
    pub room : length l ≤ d.capacity

  -- A block as it comes from a copy.
  abbrev pub block : ℕ → List (Entry T) → Data T
  block capacity l = record { capacity = capacity; first = 0; last = length l; history = l }

  pub block-Live :
      (capacity : ℕ) (l : List (Entry T)) → length l ≤ capacity → Live (block capacity l) l
  block-Live capacity l q = record { first_zero = refl; count = refl; live = take_all l; room = q }

  pub size-Live : {d : Data T} {l : List (Entry T)} → Live d l → size d ≡ length l
  unfolding size
  size-Live v = omega (arith, v.first_zero, v.count)

  pub window-Live :
      {d : Data T} {l : List (Entry T)} → Live d l → take (size d) (drop d.first d.history) ≡ l
  unfolding size
  window-Live {d} v =
      let n : d.last - d.first ≡ d.last = omega (arith, v.first_zero) in rw (n, v.first_zero) v.live

  pub read-Live :
      {d : Data T} {l : List (Entry T)} (i : ℕ) (e : Entry T)
      → Live d l
      → get_elem? l i ≡ some e
      → read d i ≡ ok e
  unfolding read
  read-Live {d} {l} i e v p =
      rw (get_elem?_of_take d.last i d.history e (ap (λ h. get_elem? h i) v.live ∙ p), read)

  pub element-Live :
      {d : Data T} {l : List (Entry T)} (i : ℕ) (e : Entry T)
      → Live d l
      → get_elem? l i ≡ some e
      → i < length l
      → element d i ≡ ok e
  unfolding element
  element-Live {d} i e v p q =
      let z : d.first + i ≡ i = omega (arith, v.first_zero) in
      rw (size-Live v, lt→ltb _ _ q, z) (read-Live i e v p)

  pub push_back-block :
      (capacity : ℕ) (l : List (Entry T)) (e : Entry T)
      → length l < capacity
      → push_back (block capacity l) e ≡ ok (block capacity (l ++ e ∷ []))
  unfolding push_back
  push_back-block capacity l e q =
      let n : length l + 1 ≡ length (l ++ e ∷ []) = omega (arith, length-append l (e ∷ [])) in
      rw (ne→== (length l) capacity (omega arith), take_all l, n)

  copy_loop-Live :
      (d : Data T) (xs ys : List (Entry T)) (capacity i : ℕ)
      → Live d (xs ++ ys)
      → i ≡ length xs
      → length (xs ++ ys) ≤ capacity
      → copy_loop d (length ys) i (block capacity xs) ≡ ok (block capacity (xs ++ ys))
  unfolding copy_loop
  copy_loop-Live d xs [] capacity i v e q = ap (λ l. ok (block capacity l)) (sym (append-nil xs))
  copy_loop-Live d xs (y ∷ ys) capacity i v e q =
      let n = length-append xs (y ∷ ys) in
      let a = append_assoc xs (y ∷ []) ys in
      rw
        (
          e,
          element-Live (length xs) y v (get_elem?-length xs ys y) (omega arith),
          push_back-block capacity xs y (omega arith),
        )
        (copy_loop-Live d (xs ++ y ∷ []) ys capacity (length xs + 1) (subst (Live d) (sym a) v)
            (omega (arith, length-append xs (y ∷ []))) (subst (λ l. length l ≤ capacity) (sym a) q)
          ∙ ap (λ l. ok (block capacity l)) a)

  pub new_data_copy-Live :
      {d : Data T} {l : List (Entry T)} (capacity : ℕ)
      → Live d l
      → length l ≤ capacity
      → new_data_copy d capacity ≡ ok (block capacity l)
  unfolding new_data_copy new_data
  new_data_copy-Live {d} {l} capacity v q =
      rw (size-Live v) (copy_loop-Live d [] l capacity 0 v refl q)

  pub copy-Live :
      {d : Data T} {l : List (Entry T)} (capacity : ℕ)
      → Live d l
      → length l ≤ capacity
      → copy d capacity ≡ ok (block capacity l)
  unfolding copy
  copy-Live capacity v q = rw (size-Live v, le→ltb _ _ q) (new_data_copy-Live capacity v q)

  abbrev or_fault : Option T → Result T
  or_fault none = throw Error.invalid_access
  or_fault (some a) = ok a

  value_of_lem :
      (l : List (Entry T)) (i : ℕ) (e : Entry T)
      → get_elem? l i ≡ some e
      → Versioned.value_of l i ≡ some e.value
  value_of_lem l i e p = ap (λ o. elim o [ none ↦ none | some x ↦ some x.value ]) p

  ended_lem :
      (l : List (Entry T)) (i epoch : ℕ) (e : Entry T)
      → get_elem? l i ≡ some e
      → Versioned.ended l i epoch ≡ leb e.valid_to epoch
  ended_lem l i epoch e p = ap (λ o. elim o [ none ↦ false | some x ↦ leb x.valid_to epoch ]) p

  scan-Live :
      {d : Data T} {l : List (Entry T)} (epoch n : ℕ)
      → Live d l
      → n < length l
      → scan d epoch n ≡ or_fault (Versioned.scan l epoch n)
  unfolding scan Versioned.scan
  scan-Live {d} {l} epoch zero v q =
      let (e, p) = get_elem?_lt l 0 q in
      ap (λ i. read d i >>= λ e. ok e.value) v.first_zero
      ∙ ap (λ r. r >>= λ e. ok e.value) (read-Live 0 e v p)
      ∙ ap or_fault (sym (value_of_lem l 0 e p))
  scan-Live {d} {l} epoch (suc j) v q =
      let (e, p) = get_elem?_lt l j (omega arith) in
      let (x, r) = get_elem?_lt l (suc j) q in
      let z : d.first + j ≡ j = omega (arith, v.first_zero) in
      let z' : d.first + suc j ≡ suc j = omega (arith, v.first_zero) in
      rw
        (
          z,
          z',
          read-Live j e v p,
          read-Live (suc j) x v r,
          ended_lem l j epoch e p,
          value_of_lem l (suc j) x r,
        )
        (branch (leb e.valid_to epoch) x.value _ _ (scan-Live epoch j v (omega arith)))
    where
      branch :
          (b : Bool) (x : T) (r : Result T) (o : Option T)
          → r ≡ or_fault o
          → (if b then ok x else r) ≡ or_fault (if b then some x else o)
      branch true x r o e = refl
      branch false x r o e = e

  -- A read at an epoch, scanning the block backwards, returns the newest version that became valid
  -- no later than that epoch.
  pub value_at_epoch-Live :
      (d : Data T) (h : List (Entry T)) (c : T) (epoch : ℕ)
      → Live d (entries h c)
      → (x : T) × (value_at_epoch d epoch ≡ ok x) × (read_at epoch (versions 1 h c) ≡ some x)
  unfolding value_at_epoch Versioned.scan
  value_at_epoch-Live d [] c epoch v =
      let n : d.last - 1 - d.first ≡ 0 = omega (arith, v.first_zero, v.count) in
      (c, rw n (scan-Live epoch 0 v (omega arith)), refl)
  value_at_epoch-Live d (e ∷ es) c epoch v =
      let l = es ++ newest c ∷ [] in
      let n : d.last - 1 - d.first ≡ length l = omega (arith, v.first_zero, v.count) in
      (
        _,
        rw n (scan-Live epoch (length l) v (omega arith) ∙ ap or_fault (scan-eq-seen epoch e l)),
        ap (λ vs. some (seen epoch e.value vs)) (sym (starts-append e.valid_to 1 es c)),
      )

  pub write-block :
      (capacity : ℕ) (xs ys : List (Entry T)) (e : Entry T) (epoch : ℕ)
      → write_valid_to (block capacity (xs ++ e ∷ ys)) (length xs) epoch
        ≡ ok (block capacity (xs ++ record e { valid_to = epoch } ∷ ys))
  unfolding write_valid_to
  write-block capacity xs ys e epoch =
      let e' = record e { valid_to = epoch } in
      let n : length (xs ++ e ∷ ys) ≡ length (xs ++ e' ∷ ys) =
        omega (arith, length-append xs (e ∷ ys), length-append xs (e' ∷ ys)) in
      rw (get_elem?-length xs ys e, read, set-length xs ys e e', n)

  pub pop_back-block :
      (capacity : ℕ) (xs : List (Entry T)) (e : Entry T)
      → 1 ≤ length xs
      → length (xs ++ e ∷ []) ≤ capacity
      → (d : Data T) × (pop_back (block capacity (xs ++ e ∷ [])) ≡ ok d) × Live d xs
  unfolding pop_back
  pop_back-block capacity xs e q r =
      let n = length-append xs (e ∷ []) in
      let m : length (xs ++ e ∷ []) - 1 ≡ length xs = omega (arith, n) in
      (
        record {
          capacity = capacity;
          first = 0;
          last = length (xs ++ e ∷ []) - 1;
          history = xs ++ e ∷ [];
        },
        rw (le→ltb (length (xs ++ e ∷ []) - 0) 2 (omega (arith, n))),
        record {
          first_zero = refl;
          count = m;
          live = rw m (take-length xs (e ∷ []));
          room = omega (arith, n);
        },
      )

  pub write_at-block :
      (capacity : ℕ) (l : List (Entry T)) (i : ℕ) (e : Entry T) (epoch : ℕ)
      → get_elem? l i ≡ some e
      → write_valid_to (block capacity l) i epoch
        ≡ ok (block capacity (set l i (record e { valid_to = epoch })))
  unfolding write_valid_to
  write_at-block capacity l i e epoch p =
      rw (p, read, length-set l i (record e { valid_to = epoch }))
