-- ===== src/Base/Stores.antt =====
-- Stores indexed by numbers, and the finite sets of numbers that the code keeps as containers.
use Prim.Native.Nat.{ℕ}
use mathlib.Core.Path.{◌≡◌, refl, ap, sym, ◌∙◌}
use mathlib.Core.Logic.{◌≢◌, ◌⊎◌, inl, inr}
use mathlib.Core.Bool.{Bool, true, false, ◌||◌}
use mathlib.Core.List.{List, [], ◌∷◌, ◌++◌}
use native.Mathlib.Omega.{arith}
use libjmvcc.Base.Tests.{◌==◌, if◌then◌else◌, ==-self, ne→==}

abbrev pub update {ℓ} : {A : Type ℓ} → (ℕ → A) → ℕ → A → ℕ → A
update f p a q = if p == q then a else f q

module _ {ℓ} {A : Type ℓ} where
  pub update-same : (f : ℕ → A) (k : ℕ) (a : A) → update f k a k ≡ a
  update-same f k a = rw (==-self k)

  pub update-other : (f : ℕ → A) (k q : ℕ) (a : A) → q ≢ k → update f k a q ≡ f q
  update-other f k q a ne = rw (ne→== k q (λ e. ne (sym e)))

-- Membership, as `count` of a set tests it.
abbrev pub contains : ℕ → List ℕ → Bool
contains p [] = false
contains p (q ∷ qs) = p == q || contains p qs

pub contains-here : (k : ℕ) (ks : List ℕ) → contains k (k ∷ ks) ≡ true
contains-here k ks = rw (==-self k)

pub contains-there : (q k : ℕ) (ks : List ℕ) → contains q ks ≡ true → contains q (k ∷ ks) ≡ true
contains-there q k ks m = ground (arith, m)

pub contains-cases :
    (q k : ℕ) (ks : List ℕ) → contains q (k ∷ ks) ≡ true → (q ≡ k) ⊎ (contains q ks ≡ true)
contains-cases q k ks m = ground arith

pub contains-neither :
    (q k : ℕ) (ks : List ℕ) → contains q (k ∷ ks) ≡ false → (q ≢ k) × (contains q ks ≡ false)
contains-neither q k ks m = ground arith

pub contains-not :
    (q k : ℕ) (ks : List ℕ) → q ≢ k → contains q ks ≡ false → contains q (k ∷ ks) ≡ false
contains-not q k ks a b = ground arith

pub contains-ne : (q k : ℕ) (ks : List ℕ) → contains q ks ≡ true → contains k ks ≡ false → q ≢ k
contains-ne q k ks m n e = absurd (ground (arith, ap (λ x. contains x ks) e))

pub contains-append :
    (q : ℕ) (ks ls : List ℕ) → contains q (ks ++ ls) ≡ (contains q ks || contains q ls)
contains-append q [] ls = refl
contains-append q (k ∷ ks) ls = ground (arith, contains-append q ks ls)

-- No number stands twice.
abbrev pub Once : List ℕ → Type 0
Once [] = Unit
Once (k ∷ ks) = (contains k ks ≡ false) × Once ks

pub contains-not_there :
    (q k : ℕ) (ks : List ℕ) → contains q (k ∷ ks) ≡ false → contains q ks ≡ false
contains-not_there q k ks m = ground (arith, m)

-- The parts of a list without doubles share no number.
pub Once-append :
    (ks ls : List ℕ)
    → Once (ks ++ ls)
    → Once ks × Once ls × ((q : ℕ) → contains q ks ≡ true → contains q ls ≡ false)
Once-append [] ls o = (tt, o, λ q m. absurd (ground (arith, m)))
Once-append (k ∷ ks) ls o =
    let (a, b, c) = Once-append ks ls o.1 in
    (
      (ground (arith, o.0, contains-append k ks ls), a),
      b,
      λ q m. elim (contains-cases q k ks m) [
        | inl e ↦ ground (arith, e, o.0, contains-append k ks ls)
        | inr n ↦ c q n
      ],
    )

pub contains-append_neither :
    (q : ℕ) (ks ls : List ℕ)
    → contains q (ks ++ ls) ≡ false
    → (contains q ks ≡ false) × (contains q ls ≡ false)
contains-append_neither q ks ls m = ground (arith, m, contains-append q ks ls)

pub Once-snoc : (ks : List ℕ) (k : ℕ) → Once ks → contains k ks ≡ false → Once (ks ++ k ∷ [])
Once-snoc [] k o m = (refl, tt)
Once-snoc (x ∷ ks) k o m = (
  ground (arith, o.0, m, contains-append x ks (k ∷ [])),
  Once-snoc ks k o.1 (contains-not_there k x ks m),
)

pub contains-snoc : (k t : ℕ) (ks : List ℕ) → k ≢ t → contains k (ks ++ t ∷ []) ≡ contains k ks
contains-snoc k t ks d =
    let apart = ne→== t k (λ e. d (sym e)) in contains-append k ks (t ∷ []) ∙ ground (arith, apart)

pub contains-last : (t : ℕ) (ks : List ℕ) → contains t (ks ++ t ∷ []) ≡ true
contains-last t ks = contains-append t ks (t ∷ []) ∙ ground (arith, contains-here t [])

pub contains-skip :
    (k x : ℕ) (ks ls : List ℕ) → k ≢ x → contains k (ks ++ ls) ≡ contains k (ks ++ x ∷ ls)
contains-skip k x ks ls d =
    let apart = ne→== x k (λ e. d (sym e)) in
    contains-append k ks ls ∙ ground (arith, apart) ∙ sym (contains-append k ks (x ∷ ls))

pub Once-skip :
    (x : ℕ) (ks ls : List ℕ)
    → Once (ks ++ x ∷ ls)
    → Once (ks ++ ls) × (contains x (ks ++ ls) ≡ false)
Once-skip x [] ls o = (o.1, o.0)
Once-skip x (k ∷ ks) ls o =
    let (a, b) = Once-skip x ks ls o.1 in
    let apart : k ≢ x = (contains-neither k x ls (contains-append_neither k ks (x ∷ ls) o.0).1).0 in
    let apart' = ne→== k x apart in
    ((contains-skip k x ks ls apart ∙ o.0, a), ground (arith, apart', b))
