-- ===== src/CircularBuffer.antt =====
-- `ML::Circular_Buffer` of the jml library, which is not part of the repository: a parameter of
-- the model of jmvcc/versioned.h. Its elements in the order of iteration are `to_list`; the reads
-- `size`, `[]`, `front`, `back` and `empty` are reads of that sequence. The laws are what the
-- library documents of the mutators: each has its effect on the sequence and no other.
use libjmvcc.Base.{ℕ, ◌≡◌, refl, List, [], ◌∷◌, ◌++◌, set, erase_at, tail, init}

pub record CircularBuffer (A : Type 0) : Type 1 where
  pub Buffer : Type 0
  pub to_list : Buffer → List A
  pub empty : Buffer
  pub push_back : Buffer → A → Buffer
  pub pop_back : Buffer → Buffer
  pub pop_front : Buffer → Buffer
  pub assign : Buffer → ℕ → A → Buffer
  pub erase : Buffer → ℕ → Buffer
  pub to_list-empty : to_list empty ≡ []
  pub to_list-push_back : (b : Buffer) (a : A) → to_list (push_back b a) ≡ to_list b ++ a ∷ []
  pub to_list-pop_back : (b : Buffer) → to_list (pop_back b) ≡ init (to_list b)
  pub to_list-pop_front : (b : Buffer) → to_list (pop_front b) ≡ tail (to_list b)
  pub to_list-assign : (b : Buffer) (i : ℕ) (a : A) → to_list (assign b i a) ≡ set (to_list b) i a
  pub to_list-erase : (b : Buffer) (i : ℕ) → to_list (erase b i) ≡ erase_at (to_list b) i

-- Lists themselves meet the laws.
abbrev pub list_buffer : (A : Type 0) → CircularBuffer A
list_buffer A = record {
  Buffer = List A;
  to_list = λ b. b;
  empty = [];
  push_back = λ b a. b ++ a ∷ [];
  pop_back = init;
  pop_front = tail;
  assign = set;
  erase = erase_at;
  to_list-empty = refl;
  to_list-push_back = λ b a. refl;
  to_list-pop_back = λ b. refl;
  to_list-pop_front = λ b. refl;
  to_list-assign = λ b i a. refl;
  to_list-erase = λ b i. refl;
}
