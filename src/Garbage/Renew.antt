-- ===== src/Garbage/Renew.antt =====
-- `new_critical` of jmvcc/garbage.cc.
use libjmvcc.Base.{
  ℕ, ◌+◌, ◌≤◌, ◌<◌, ◌^◌, ◌≡◌, ap, ◌∙◌, sym, true, [], ◌∷◌, ◌++◌, arith, contains, ◌⊎◌, inl, inr, ok,
  ==-self, if◌then◌else◌,
}
use libjmvcc.Garbage.{Sections, new_critical}
use libjmvcc.Garbage.Queue.{Queue, Reach, Reach-trans, owners, without}
use libjmvcc.Garbage.Represents.{Represents}
use libjmvcc.Garbage.Chain.{owners-append}
use libjmvcc.Garbage.Depth.{Entering, Leaving, contains-without}
use libjmvcc.Garbage.Enter.{enter_critical-Reach}
use libjmvcc.Garbage.Departure.{leave_critical-Reach}

-- Every thread is as deep in its section as before. The queue is the same if the thread was in its
-- section more than once, and otherwise the thread's section is now behind the others.
pub record Renewed (s u : Sections) (q p : Queue) (t : ℕ) : Type 0 where
  pub queue :
      ((2 ≤ (s.thread t).nesting) × (p ≡ q))
      ⊎ (((s.thread t).nesting ≡ 1) × (owners p.sections ≡ without t (owners q.sections) ++ t ∷ []))
  pub nesting : (k : ℕ) → (u.thread k).nesting ≡ (s.thread k).nesting

Renewed-queue :
    (s v u : Sections) (q p o : Queue) (t : ℕ)
    → contains t (owners q.sections) ≡ true
    → Leaving s v q p t
    → Entering v u p o t
    → ((2 ≤ (s.thread t).nesting) × (o ≡ q))
      ⊎ (((s.thread t).nesting ≡ 1) × (owners o.sections ≡ without t (owners q.sections) ++ t ∷ []))
Renewed-queue s v u q p o t m a b = elim a.queue [
  | inl (deep, same) ↦ elim b.queue [
    | inl (_, e) ↦ inl (deep, e ∙ same)
    | inr (out, _) ↦
        let here = ap (λ q. contains t (owners q.sections)) same ∙ m in
        absurd (ground (arith, here, out))
  ]
  | inr (once, c) ↦ elim b.queue [
    | inl (here, _) ↦
        let out = ap (contains t) c.others ∙ contains-without t (owners q.sections) in
        absurd (ground (arith, here, out))
    | inr (_, e) ↦ inr (
      once,
      ap (λ q. owners q.sections) e
          ∙ owners-append p.sections (record { owner = t; cleanups = [] } ∷ [])
          ∙ ap (λ l. l ++ t ∷ []) c.others,
    )
  ]
]

-- For a thread that is in a section, `new_critical` throws nothing: it leads on to a state that
-- stands for a queue which the calls of threads lead to, with the thread's section behind the others
-- if it was there once.
pub new_critical-Reach :
    (s : Sections) (q : Queue) (t : ℕ)
    → Represents s q
    → contains t (owners q.sections) ≡ true
    → (s.thread t).nesting < 2 ^ 32
    → (u : Sections) × (new_critical s t ≡ ok u)
      × (p : Queue) × Reach q [] p
      × Represents u p
      × Renewed s u q p t
unfolding new_critical
new_critical-Reach s q t r m n =
    let (v, run, p, a, x, d) = leave_critical-Reach s q t r m in
    let less : (s.thread t).nesting ≡ (v.thread t).nesting + 1 =
      d.nesting t
      ∙ ap (λ b. if b then (v.thread t).nesting + 1 else (v.thread t).nesting) (==-self t) in
    let (u, run2, o, b, y, e) = enter_critical-Reach v p t x (omega (arith, less, n)) in
    (
      u,
      rw run run2,
      o,
      Reach-trans a b,
      y,
      record {
        queue = Renewed-queue s v u q p o t m d e;
        nesting = λ k. e.nesting k ∙ sym (d.nesting k);
      },
    )
