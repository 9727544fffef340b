-- ===== src/Spinlock.antt =====
-- jmvcc/spinlock.h: the lock word, the loop of `acquire` on it, and threads that share it.
use libjmvcc.Base.{
  ℕ, suc, ◌+◌, ◌*◌, ◌≤◌, ◌≡◌, ◌≢◌, refl, ap, ◌⊎◌, ◌∙◌, Bool, true, false, List, [], ◌∷◌, ◌++◌, All,
  Option, none, some, ◌==◌, if◌then◌else◌, arith, length, contains, ne→==, ==→eq, ==→ne, Bool-cases,
  inl, inr,
}

-- `__sync_bool_compare_and_swap(&value, 0, 1)`: the answer, and the word after it.
abbrev pub compare_and_swap : ℕ → Bool × ℕ
compare_and_swap value = if value == 0 then (true, 1) else (false, value)

-- The body of the loop where the exchange has failed: the tries, and the calls of `sched_yield`.
abbrev pub yield_after : ℕ → ℕ → ℕ × ℕ
yield_after tries yields = if tries == 100 then (0, suc yields) else (tries, yields)

-- The loop, with the values that its exchanges find in the word, and the tries and yields so far:
-- the tries and yields once it has the lock, none if it has not after these.
pub acquire_from : List ℕ → ℕ → ℕ → Option ℕ
acquire_from [] tries yields = none
acquire_from (value ∷ values) tries yields =
    let (tries', yields') = yield_after tries yields in
    let rest = acquire_from values (tries' + 1) yields' in
    if (compare_and_swap value).0 then some yields else rest

pub acquire : List ℕ → Option ℕ
acquire values = acquire_from values 0 0

abbrev pub Held : ℕ → Type 0
Held value = value ≢ 0

acquire_from-waits :
    (busy rest : List ℕ) (tries yields : ℕ)
    → All Held busy
    → tries ≤ 100
    → (n : ℕ) × (acquire_from (busy ++ 0 ∷ rest) tries yields ≡ some n)
      × (n * 100 + 1 ≤ yields * 100 + tries + length busy + 1)
      × (yields * 100 + tries + length busy ≤ n * 100 + 100)
unfolding acquire_from
acquire_from-waits [] rest tries yields h b = (yields, refl, omega arith, omega (arith, b))
acquire_from-waits (v ∷ busy) rest tries yields (h, hs) b = elim (Bool-cases (tries == 100)) [
  | inl e ↦
      let (n, r, lo, hi) = acquire_from-waits busy rest 1 (suc yields) hs (omega arith) in
      let full = ==→eq tries 100 e in
      (n, simp (ne→== v 0 h, e) r, omega (arith, lo, full), omega (arith, hi, full))
  | inr e ↦
      let d = ==→ne tries 100 e in
      let (n, r, lo, hi) =
        acquire_from-waits busy rest (tries + 1) yields hs (omega (arith, b, d)) in
      (n, simp (ne→== v 0 h, e) r, omega (arith, lo), omega (arith, hi))
]

-- `acquire` has the lock with the first exchange that finds the word 0, whatever it found before:
-- where that were `busy` other values, it has called `sched_yield` once for each hundred of them, or
-- once less.
pub acquire-free :
    (busy rest : List ℕ)
    → All Held busy
    → (n : ℕ) × (acquire (busy ++ 0 ∷ rest) ≡ some n)
      × (n * 100 ≤ length busy)
      × (length busy ≤ n * 100 + 100)
unfolding acquire
acquire-free busy rest h =
    let (n, r, lo, hi) = acquire_from-waits busy rest 0 0 h (omega arith) in
    (n, r, omega (arith, lo), omega (arith, hi))

-- The end of `release`: the word after it.
abbrev pub release : ℕ → ℕ
release value = 0

-- The word that threads share, and those that have the lock, whom the code does not know.
pub record Lock : Type 0 where
  pub value : ℕ
  pub holders : List ℕ

abbrev pub new_lock : Lock
new_lock = record { value = 0; holders = [] }

abbrev pub try_acquire : Lock → ℕ → Lock
try_acquire l t =
    let (got, value) = compare_and_swap l.value in
    record { value = value; holders = if got then t ∷ l.holders else l.holders }

abbrev pub leave : ℕ → List ℕ → List ℕ
leave t [] = []
leave t (k ∷ ks) = if k == t then ks else k ∷ leave t ks

-- What threads do, in any order: an exchange of a loop, or `release` by a thread that has the lock.
pub data Steps : Lock → Type 0 where
  start : Steps new_lock
  tries : {l : Lock} (t : ℕ) → Steps l → Steps (try_acquire l t)
  releases :
      {l : Lock} (t : ℕ)
      → Steps l
      → contains t l.holders ≡ true
      → Steps (record { value = release l.value; holders = leave t l.holders })

-- The word says whether a thread has the lock, and no two threads have it.
abbrev pub Exclusive : Lock → Type 0
Exclusive l =
    ((l.value ≡ 0) × (l.holders ≡ [])) ⊎ ((l.value ≡ 1) × ((t : ℕ) × (l.holders ≡ t ∷ [])))

-- In every order of the threads' exchanges and releases, the word is 0 and no thread has the lock,
-- or it is 1 and exactly one has.
pub Steps-Exclusive : (l : Lock) → Steps l → Exclusive l
Steps-Exclusive _ start = inl (refl, refl)
Steps-Exclusive _ (tries {l} t s) = elim (Steps-Exclusive l s) [
  | inl (v, h) ↦ inr (simp v, (t, simp (v, h)))
  | inr (v, (k, h)) ↦ inr (simp v, (k, simp (v, h)))
]
Steps-Exclusive _ (releases {l} t s m) = elim (Steps-Exclusive l s) [
  | inl (v, h) ↦ absurd (ground (arith, ap (contains t) h, m))
  | inr (v, (k, h)) ↦
      let same : (k == t) ≡ true = ground (arith, ap (contains t) h, m) in
      inl (refl, ap (leave t) h ∙ simp same)
]
