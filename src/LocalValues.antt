-- ===== src/LocalValues.antt =====
-- `ML::Lightweight_Hash` of the jml library, which is not part of the repository: a parameter of
-- the model of jmvcc/sandbox.h. `insert` is the table in which the key has the value, once an entry
-- is added. `assign` is the table after a write through the pointer to the value of the key's entry,
-- which adds no entry. `to_list` is the iteration, in an order that the table chooses. The laws are
-- what the library documents: a table holds each key once, `find` finds the value of the key, and the
-- iteration visits what `find` finds.
use libjmvcc.Base.{
  ℕ, ◌≡◌, refl, false, List, [], ◌∷◌, Option, none, some, ◌==◌, if◌then◌else◌, ap, ◌∙◌, sym, subst,
  Bool-cases, inl, inr, ==→eq, ==→ne, ne→==, arith,
}

module _ {A : Type 0} where
  -- The first value under a key.
  abbrev pub lookup : ℕ → List (ℕ × A) → Option A
  lookup k [] = none
  lookup k ((j, a) ∷ l) = if j == k then some a else lookup k l

  -- The value that is found once it is overwritten, if there is one.
  abbrev pub overwrite : A → Option A → Option A
  overwrite a none = none
  overwrite a (some b) = some a

  -- No key stands twice.
  abbrev pub Distinct : List (ℕ × A) → Type 0
  Distinct [] = Unit
  Distinct ((k, a) ∷ l) = (lookup k l ≡ none) × Distinct l

pub record LocalValues (A : Type 0) : Type 1 where
  pub Table : Type 0
  pub to_list : Table → List (ℕ × A)
  pub empty : Table
  pub find : Table → ℕ → Option A
  pub insert : Table → ℕ → A → Table
  pub assign : Table → ℕ → A → Table
  pub to_list-empty : to_list empty ≡ []
  pub find-to_list : (t : Table) (k : ℕ) → find t k ≡ lookup k (to_list t)
  pub distinct : (t : Table) → Distinct (to_list t)
  pub find-insert :
      (t : Table) (k j : ℕ) (a : A) → find (insert t k a) j ≡ (if k == j then some a else find t j)
  pub find-assign :
      (t : Table) (k j : ℕ) (a : A)
      → find (assign t k a) j ≡ (if k == j then overwrite a (find t j) else find t j)

module _ {A : Type 0} where
  abbrev pub put : ℕ → A → List (ℕ × A) → List (ℕ × A)
  put k a [] = (k, a) ∷ []
  put k a ((j, b) ∷ l) = let rest = put k a l in if j == k then (k, a) ∷ l else (j, b) ∷ rest

  pub lookup-put :
      (k j : ℕ) (a : A) (l : List (ℕ × A))
      → lookup j (put k a l) ≡ (if k == j then some a else lookup j l)
  lookup-put k j a [] = refl
  lookup-put k j a ((i, b) ∷ l) = ground (arith, lookup-put k j a l)

  pub Distinct-put : (k : ℕ) (a : A) (l : List (ℕ × A)) → Distinct l → Distinct (put k a l)
  Distinct-put k a [] d = (refl, tt)
  Distinct-put k a ((i, b) ∷ l) d = elim (Bool-cases (i == k)) [
    | inl h ↦ rw h (subst (λ n. lookup n l ≡ none) (==→eq i k h) d.0, d.1)
    | inr h ↦
        let ne : (k == i) ≡ false = ne→== k i (λ e. ==→ne i k h (sym e)) in
        rw h (
          lookup-put k i a l ∙ ap (λ c. if c then some a else lookup i l) ne ∙ d.0,
          Distinct-put k a l d.1,
        )
  ]

  -- The value of the key's entry is overwritten.
  abbrev pub replace : ℕ → A → List (ℕ × A) → List (ℕ × A)
  replace k a [] = []
  replace k a ((j, b) ∷ l) =
      let rest = replace k a l in if j == k then (j, a) ∷ l else (j, b) ∷ rest

  pub lookup-replace :
      (k j : ℕ) (a : A) (l : List (ℕ × A))
      → lookup j (replace k a l) ≡ (if k == j then overwrite a (lookup j l) else lookup j l)
  lookup-replace k j a [] = ground arith
  lookup-replace k j a ((i, b) ∷ l) = ground (arith, lookup-replace k j a l)

  pub Distinct-replace : (k : ℕ) (a : A) (l : List (ℕ × A)) → Distinct l → Distinct (replace k a l)
  Distinct-replace k a [] d = tt
  Distinct-replace k a ((i, b) ∷ l) d = elim (Bool-cases (i == k)) [
    | inl h ↦ rw h (d.0, d.1)
    | inr h ↦
        let ne : (k == i) ≡ false = ne→== k i (λ e. ==→ne i k h (sym e)) in
        rw h (
          lookup-replace k i a l
              ∙ ap (λ c. if c then overwrite a (lookup i l) else lookup i l) ne
              ∙ d.0,
          Distinct-replace k a l d.1,
        )
  ]

  -- Lists without a double key meet the laws.
  abbrev pub list_table : LocalValues A
  list_table = record {
    Table = (l : List (ℕ × A)) × Distinct l;
    to_list = λ t. t.0;
    empty = ([], tt);
    find = λ t k. lookup k t.0;
    insert = λ t k a. (put k a t.0, Distinct-put k a t.0 t.1);
    assign = λ t k a. (replace k a t.0, Distinct-replace k a t.0 t.1);
    to_list-empty = refl;
    find-to_list = λ t k. refl;
    distinct = λ t. t.1;
    find-insert = λ t k j a. lookup-put k j a t.0;
    find-assign = λ t k j a. lookup-replace k j a t.0;
  }
