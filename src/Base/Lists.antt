-- ===== src/Base/Lists.antt =====
-- Lists measured and indexed by native numbers, under the library's names.
use Prim.Native.Nat.{ℕ, zero, suc, ◌+◌, ◌<◌}
use mathlib.Core.Path.{◌≡◌, refl, ap}
use mathlib.Core.List.{List, [], ◌∷◌, ◌++◌}
use mathlib.Core.Option.{Option, none, some}
use mathlib.Core.Logic.{◌⊎◌, inl, inr}
use native.Mathlib.Omega.{arith}

module _ {ℓ} {A : Type ℓ} where
  abbrev pub length : List A → ℕ
  length [] = 0
  length (x ∷ xs) = suc (length xs)

  abbrev pub get_elem? : List A → ℕ → Option A
  get_elem? [] i = none
  get_elem? (x ∷ xs) zero = some x
  get_elem? (x ∷ xs) (suc i) = get_elem? xs i

  -- A write out of bounds changes nothing.
  abbrev pub set : List A → ℕ → A → List A
  set [] i v = []
  set (x ∷ xs) zero v = v ∷ xs
  set (x ∷ xs) (suc i) v = x ∷ set xs i v

  abbrev pub erase_at : List A → ℕ → List A
  erase_at [] i = []
  erase_at (x ∷ xs) zero = xs
  erase_at (x ∷ xs) (suc i) = x ∷ erase_at xs i

  abbrev pub tail : List A → List A
  tail [] = []
  tail (x ∷ xs) = xs

  -- All but the last element.
  abbrev pub init : List A → List A
  init [] = []
  init (x ∷ []) = []
  init (x ∷ y ∷ xs) = x ∷ init (y ∷ xs)

  abbrev pub get_last? : List A → Option A
  get_last? [] = none
  get_last? (x ∷ []) = some x
  get_last? (x ∷ y ∷ xs) = get_last? (y ∷ xs)

  abbrev pub take : ℕ → List A → List A
  take zero xs = []
  take (suc n) [] = []
  take (suc n) (x ∷ xs) = x ∷ take n xs

  abbrev pub drop : ℕ → List A → List A
  drop zero xs = xs
  drop (suc n) [] = []
  drop (suc n) (x ∷ xs) = drop n xs

  pub length-append : (xs ys : List A) → length (xs ++ ys) ≡ length xs + length ys
  length-append [] ys = omega arith
  length-append (x ∷ xs) ys = omega (arith, length-append xs ys)

  pub init-append : (xs : List A) (a : A) → init (xs ++ a ∷ []) ≡ xs
  init-append [] a = refl
  init-append (x ∷ []) a = refl
  init-append (x ∷ y ∷ xs) a = ap (◌∷◌ x) (init-append (y ∷ xs) a)

  pub get_last?-append : (xs : List A) (a : A) → get_last? (xs ++ a ∷ []) ≡ some a
  get_last?-append [] a = refl
  get_last?-append (x ∷ []) a = refl
  get_last?-append (x ∷ y ∷ xs) a = get_last?-append (y ∷ xs) a

  pub get_last?_cons : (x : A) (xs : List A) → (l : A) × (get_last? (x ∷ xs) ≡ some l)
  get_last?_cons x [] = (x, refl)
  get_last?_cons x (y ∷ xs) = get_last?_cons y xs

  -- The last element by its index, whatever stands behind it.
  pub get_last-index :
      (e : A) (es ys : List A) → get_elem? (e ∷ (es ++ ys)) (length es) ≡ get_last? (e ∷ es)
  get_last-index e [] ys = refl
  get_last-index e (x ∷ xs) ys = get_last-index x xs ys

  pub get_elem?-length : (xs ys : List A) (a : A) → get_elem? (xs ++ a ∷ ys) (length xs) ≡ some a
  get_elem?-length [] ys a = refl
  get_elem?-length (x ∷ xs) ys a = get_elem?-length xs ys a

  pub set-length : (xs ys : List A) (a b : A) → set (xs ++ a ∷ ys) (length xs) b ≡ xs ++ b ∷ ys
  set-length [] ys a b = refl
  set-length (x ∷ xs) ys a b = ap (◌∷◌ x) (set-length xs ys a b)

  pub get_elem?_of_take :
      (k i : ℕ) (xs : List A) (a : A) → get_elem? (take k xs) i ≡ some a → get_elem? xs i ≡ some a
  get_elem?_of_take zero i xs a h = cc
  get_elem?_of_take (suc k) i [] a h = cc
  get_elem?_of_take (suc k) zero (x ∷ xs) a h = h
  get_elem?_of_take (suc k) (suc i) (x ∷ xs) a h = get_elem?_of_take k i xs a h

  pub take-length : (xs ys : List A) → take (length xs) (xs ++ ys) ≡ xs
  take-length [] ys = refl
  take-length (x ∷ xs) ys = ap (◌∷◌ x) (take-length xs ys)

  pub take_all : (xs : List A) → take (length xs) xs ≡ xs
  take_all [] = refl
  take_all (x ∷ xs) = ap (◌∷◌ x) (take_all xs)

  pub get_elem?_lt : (xs : List A) (i : ℕ) → i < length xs → (a : A) × (get_elem? xs i ≡ some a)
  get_elem?_lt [] i h = elim h [ ]
  get_elem?_lt (x ∷ xs) zero h = (x, refl)
  get_elem?_lt (x ∷ xs) (suc i) h = get_elem?_lt xs i (omega arith)

  pub length-set : (xs : List A) (i : ℕ) (v : A) → length (set xs i v) ≡ length xs
  length-set [] i v = refl
  length-set (x ∷ xs) zero v = refl
  length-set (x ∷ xs) (suc i) v = ap suc (length-set xs i v)

-- Every element satisfies `P`.
abbrev pub All {ℓ κ} : {A : Type ℓ} → (A → Type κ) → List A → Type κ
All P [] = Unit
All P (x ∷ xs) = P x × All P xs

module _ {ℓ κ} {A : Type ℓ} (P : A → Type κ) where
  pub All-append : (xs ys : List A) → All P xs → All P ys → All P (xs ++ ys)
  All-append [] ys p q = q
  All-append (x ∷ xs) ys p q = (p.0, All-append xs ys p.1 q)

  pub All-append_left : (xs ys : List A) → All P (xs ++ ys) → All P xs
  All-append_left [] ys p = tt
  All-append_left (x ∷ xs) ys p = (p.0, All-append_left xs ys p.1)

  pub All-append_right : (xs ys : List A) → All P (xs ++ ys) → All P ys
  All-append_right [] ys p = p
  All-append_right (x ∷ xs) ys p = All-append_right xs ys p.1

  pub All-imp {κ'} : (Q : A → Type κ') (xs : List A) → ((x : A) → P x → Q x) → All P xs → All Q xs
  All-imp Q [] f p = tt
  All-imp Q (x ∷ xs) f p = (f x p.0, All-imp Q xs f p.1)

-- A sum over a list. Two lists with the same sum under every weight hold the same elements, each
-- as often.
module _ {ℓ} {A : Type ℓ} (w : A → ℕ) where
  abbrev pub total : List A → ℕ
  total [] = 0
  total (x ∷ xs) = w x + total xs

  pub total-append : (xs ys : List A) → total (xs ++ ys) ≡ total xs + total ys
  total-append [] ys = omega arith
  total-append (x ∷ xs) ys = omega (arith, total-append xs ys)

-- A list is empty or has a last element.
pub snoc-cases {ℓ} :
    {A : Type ℓ} (xs : List A) → (xs ≡ []) ⊎ ((b : List A) × (x : A) × (xs ≡ b ++ x ∷ []))
snoc-cases [] = inl refl
snoc-cases (x ∷ xs) = elim (snoc-cases xs) [
  | inl q ↦ inr ([], x, ap (◌∷◌ x) q)
  | inr (b, l, q) ↦ inr (x ∷ b, l, ap (◌∷◌ x) q)
]
