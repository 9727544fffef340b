-- ===== src/Garbage/Depth.antt =====
-- What a call of `enter_critical` or `leave_critical` of jmvcc/garbage.cc does to the queue of sections
-- and to how deep each thread is in its section.
use libjmvcc.Base.{
  ℕ, ◌+◌, ◌≤◌, ◌≡◌, ◌≢◌, refl, ap, sym, subst, true, false, List, [], ◌∷◌, ◌++◌, arith, contains,
  contains-neither, ◌==◌, if◌then◌else◌, Bool-cases, inl, inr, ◌⊎◌, ==→eq, ==→ne, ==-self, ne→==,
  length,
}
use libjmvcc.Garbage.{Sections, Thread}
use libjmvcc.Garbage.Queue.{Queue, owners, without}

-- The queue with a section of thread `t` behind the others.
abbrev pub with_section : Queue → ℕ → Queue
with_section q t = record q { sections = q.sections ++ record { owner = t; cleanups = [] } ∷ [] }

-- The thread is one deeper in its section, and no other thread is. The queue is the same if it was in
-- a section, and has a new one of the thread behind the others if it was not.
pub record Entering (s u : Sections) (q p : Queue) (t : ℕ) : Type 0 where
  pub queue :
      ((contains t (owners q.sections) ≡ true) × (p ≡ q))
      ⊎ ((contains t (owners q.sections) ≡ false) × (p ≡ with_section q t))
  pub nesting :
      (k : ℕ)
      → (u.thread k).nesting ≡ (if k == t then (s.thread k).nesting + 1 else (s.thread k).nesting)

-- The open sections are those of the other threads, in their order, one less than before, and the
-- thread's own list is handed over.
pub record Closed (q p : Queue) (t : ℕ) : Type 0 where
  pub others : owners p.sections ≡ without t (owners q.sections)
  pub size : length p.sections + 1 ≡ length q.sections
  pub own : p.own t ≡ []

-- The thread is one less deep in its section, and no other thread is. The queue is the same if the
-- thread was there more than once, and has lost its section if it was there once.
pub record Leaving (s u : Sections) (q p : Queue) (t : ℕ) : Type 0 where
  pub queue : ((2 ≤ (s.thread t).nesting) × (p ≡ q)) ⊎ (((s.thread t).nesting ≡ 1) × Closed q p t)
  pub nesting :
      (k : ℕ)
      → (s.thread k).nesting ≡ (if k == t then (u.thread k).nesting + 1 else (u.thread k).nesting)

-- A thread's nesting grows by one, and no other thread changes.
pub nesting-one_more :
    (f g : ℕ → Thread) (t : ℕ)
    → (g t).nesting ≡ (f t).nesting + 1
    → ((k : ℕ) → k ≢ t → g k ≡ f k)
    → (k : ℕ) → (g k).nesting ≡ (if k == t then (f k).nesting + 1 else (f k).nesting)
nesting-one_more f g t e o k = elim (Bool-cases (k == t)) [
  | inl h ↦ rw h (subst (λ k. (g k).nesting ≡ (f k).nesting + 1) (sym (==→eq k t h)) e)
  | inr h ↦ rw h (ap (λ v. v.nesting) (o k (==→ne k t h)))
]

without-absent : (t : ℕ) (l : List ℕ) → contains t l ≡ false → without t l ≡ l
without-absent t [] m = refl
without-absent t (k ∷ l) m =
    let (d, n) = contains-neither t k l m in
    rw (ne→== k t (λ e. d (sym e))) (ap (◌∷◌ k) (without-absent t l n))

-- A list without its only `t`.
pub without-skip :
    (t : ℕ) (ks ls : List ℕ) → contains t (ks ++ ls) ≡ false → without t (ks ++ t ∷ ls) ≡ ks ++ ls
without-skip t [] ls m = rw (==-self t) (without-absent t ls m)
without-skip t (k ∷ ks) ls m =
    let (d, n) = contains-neither t k (ks ++ ls) m in
    rw (ne→== k t (λ e. d (sym e))) (ap (◌∷◌ k) (without-skip t ks ls n))

pub contains-without : (t : ℕ) (l : List ℕ) → contains t (without t l) ≡ false
contains-without t [] = refl
contains-without t (k ∷ l) = elim (Bool-cases (k == t)) [
  | inl h ↦ rw h (contains-without t l)
  | inr h ↦ rw h (ground (arith, h, contains-without t l))
]
