-- ===== src/Garbage/Represents.antt =====
-- Which queue of sections a state of jmvcc/garbage.cc stands for, and its `check_invariants`.
use libjmvcc.Base.{
  ℕ, suc, ◌≤◌, ◌≡◌, refl, ap, ◌∙◌, true, false, List, [], ◌∷◌, arith, Option, none, some, contains,
  contains-cases, Once, Bool-cases, ◌==◌, inl, inr, ok, ◌⊎◌, length,
}
use libjmvcc.Garbage.{
  Sections, Thread, CriticalInfo, local_cleanups, is_live, check_newest, check_invariants,
}
use libjmvcc.Garbage.Queue.{Open, Queue, owners}
use libjmvcc.Garbage.Chain.{names, last_or, Linked}

-- The variables of thread `t` in a section.
pub record Inside (v : Thread) (t : ℕ) : Type 0 where
  pub critical : v.critical ≡ some t
  pub allocated : v.critical_alloc ≡ some t
  pub nested : 1 ≤ v.nesting

-- Those of a thread in no section, whose `Critical_Info`, if there is one, is not in the list.
pub record Outside (v : Thread) (i : CriticalInfo) (t : ℕ) : Type 0 where
  pub critical : v.critical ≡ none
  pub nested : v.nesting ≡ 0
  pub idle :
      (v.critical_alloc ≡ none)
      ⊎ ((v.critical_alloc ≡ some t) × (i.live ≡ false) × (i.cleanups ≡ []))

pub record Represents (s : Sections) (q : Queue) : Type 0 where
  pub chain : Linked none q.sections none s.info
  pub newest : s.newest_ci ≡ last_or none q.sections
  pub once : Once (owners q.sections)
  pub count : s.num_in_critical ≡ length q.sections
  pub inside : (t : ℕ) → contains t (owners q.sections) ≡ true → Inside (s.thread t) t
  pub outside : (t : ℕ) → contains t (owners q.sections) ≡ false → Outside (s.thread t) (s.info t) t
  pub own : (t : ℕ) → local_cleanups (s.thread t).cleanups ≡ names (q.own t)
  pub ran : s.ran ≡ names q.ran

pub Linked-live :
    (pr nx : Option ℕ) (info : ℕ → CriticalInfo) (l : List Open) (t : ℕ)
    → Linked pr l nx info
    → contains t (owners l) ≡ true
    → (info t).live ≡ true
Linked-live pr nx info [] t k m = absurd (ground (arith, m))
Linked-live pr nx info (x ∷ l) t k m = elim (contains-cases t x.owner (owners l) m) [
  | inl e ↦ ap (λ n. (info n).live) e ∙ ap (λ i. i.live) k.0
  | inr n ↦ Linked-live (some x.owner) nx info l t k.1 n
]

-- The newest section is live, and none is behind it.
pub Linked-last :
    (pr : Option ℕ) (info : ℕ → CriticalInfo) (x : Open) (l : List Open)
    → Linked pr (x ∷ l) none info
    → (n : ℕ) × (last_or pr (x ∷ l) ≡ some n) × ((info n).live ≡ true) × ((info n).next ≡ none)
Linked-last pr info x [] k = (x.owner, refl, ap (λ i. i.live) k.0, ap (λ i. i.next) k.0)
Linked-last pr info x (y ∷ l) k = Linked-last (some x.owner) info y l k.1

passes_with :
    (s : Sections) (t n : ℕ)
    → s.num_in_critical ≡ suc n
    → is_live s (s.thread t).critical ≡ true
    → check_newest s (s.thread t).critical s.newest_ci ≡ ok tt
    → check_invariants s t ≡ ok tt
unfolding check_invariants
passes_with s t n c l w =
    let zero : (suc n == 0) ≡ false = ground arith in
    elim (Bool-cases s.debug_mode) [ inl d ↦ simp (d, c, l, w, zero) | inr d ↦ simp d ]

-- With two sections or more, only the newest is looked at.
newest_of_many :
    (s : Sections) (critical : Option ℕ) (z n : ℕ)
    → s.newest_ci ≡ some z
    → (s.info z).live ≡ true
    → (s.info z).next ≡ none
    → s.num_in_critical ≡ suc (suc n)
    → check_newest s critical s.newest_ci ≡ ok tt
unfolding check_newest
newest_of_many s critical z n w live nx c =
    let many : (suc (suc n) == 1) ≡ false = ground arith in simp (w, live, nx, c, many)

-- The thread is in no section, or in one of the list.
abbrev pub Placed : Sections → List Open → ℕ → Type 0
Placed s l t =
    ((s.thread t).critical ≡ none)
    ⊎ (((s.thread t).critical ≡ some t) × (contains t (owners l) ≡ true))

own-is_live :
    (s : Sections) (l : List Open) (t : ℕ)
    → Linked none l none s.info
    → Placed s l t
    → is_live s (s.thread t).critical ≡ true
unfolding is_live
own-is_live s l t k (inl e) = simp e
own-is_live s l t k (inr (e, m)) =
    let live : (s.info t).live ≡ true = Linked-live none none s.info l t k m in simp (e, live)

only_section :
    (s : Sections) (x : Open) (t : ℕ)
    → Linked none (x ∷ []) none s.info
    → s.newest_ci ≡ some x.owner
    → Placed s (x ∷ []) t
    → check_newest s (s.thread t).critical s.newest_ci ≡ ok tt
unfolding check_newest
only_section s x t k n (inl e) = simp (n, e, k.0) (ground arith)
only_section s x t k n (inr (e, m)) = elim (contains-cases t x.owner [] m) [
  | inl q ↦ simp (n, k.0, q) (ground arith)
  | inr a ↦ absurd (ground (arith, a))
]

-- `check_invariants` throws nothing where the open sections are linked in a list that ends at the
-- newest and has the counted length, for a thread in no section or in one of the list.
pub check_invariants-passes :
    (s : Sections) (l : List Open) (t : ℕ)
    → Linked none l none s.info
    → s.newest_ci ≡ last_or none l
    → s.num_in_critical ≡ length l
    → Placed s l t
    → check_invariants s t ≡ ok tt
unfolding check_invariants
check_invariants-passes s [] t k n c (inl e) = simp (n, c, e) (ground arith)
check_invariants-passes s [] t k n c (inr e) = absurd (ground (arith, e))
check_invariants-passes s (x ∷ []) t k n c p =
    passes_with s t 0 c (own-is_live s (x ∷ []) t k p) (only_section s x t k n p)
check_invariants-passes s (x ∷ y ∷ l) t k n c p =
    let (z, last, live, next) = Linked-last none s.info x (y ∷ l) k in
    passes_with s t (suc (length l)) c (own-is_live s (x ∷ y ∷ l) t k p)
      (newest_of_many s (s.thread t).critical z (length l) (n ∙ last) live next c)
