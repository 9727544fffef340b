-- ===== src/Garbage/Finish.antt =====
-- When the cleanups of jmvcc/garbage.cc have run.
use libjmvcc.Base.{
  suc, zero, ℕ, ◌+◌, ◌≡◌, refl, ap, ◌∙◌, sym, Bool, true, List, [], ◌∷◌, arith, none, some,
  contains, contains-here, inl, inr, ok, length, total, snoc-cases, ==-self, if◌then◌else◌,
}
use libjmvcc.Garbage.{Sections, leave_critical}
use libjmvcc.Garbage.Queue.{Scheduled, Open, Queue, owners}
use libjmvcc.Garbage.Chain.{names, last_or, last_or-append}
use libjmvcc.Garbage.Represents.{Represents}
use libjmvcc.Garbage.Departure.{leave_critical-Reach}
use libjmvcc.Garbage.Totals.{weigh, measure}
use libjmvcc.Garbage.Conserve.{Reach-measure}
use libjmvcc.Garbage.Runs.{Runs, leaves, at_start, Runs-Safe}

total-names : (w : ℕ → ℕ) (cs : List Scheduled) → total w (names cs) ≡ total (weigh w) cs
total-names w [] = refl
total-names w (c ∷ cs) = ap (λ n. w c.cleanup + n) (total-names w cs)

nothing_open : (l : List Open) → last_or none l ≡ none → l ≡ []
nothing_open l e = elim (snoc-cases l) [
  | inl n ↦ n
  | inr (b, x, n) ↦
      let clash : some x.owner ≡ none =
        sym (last_or-append none b (x ∷ [])) ∙ sym (ap (last_or none) n) ∙ e in
      cc
]

-- Once calls that throw nothing, with no nesting that wraps round, have led from the start to a state
-- in which no section is open, the cleanups that have run are those that were scheduled, each as
-- often: every weight gives the same sum.
pub Runs-all_ran :
    (debug : Bool) (cs : List ℕ) (u : Sections) (w : ℕ → ℕ)
    → Runs (at_start debug) cs u
    → u.newest_ci ≡ none
    → total w u.ran ≡ total w cs
Runs-all_ran debug cs u w r n =
    let (q, a, x, _) = Runs-Safe debug cs u r in
    let e : q.sections ≡ [] = nothing_open q.sections (sym x.newest ∙ n) in
    let m : measure w q ≡ total w cs = Reach-measure w a in
    let p : measure w q ≡ total (weigh w) q.ran =
      ap (λ l. measure w (record q { sections = l })) e ∙ omega arith in
    ap (total w) x.ran ∙ total-names w q.ran ∙ sym p ∙ m

-- Calls of `leave_critical` that throw nothing.
pub data Leaves (s : Sections) : Sections → Type 0 where
  nobody : Leaves s s
  leaving : {u v : Sections} (t : ℕ) → Leaves s u → leave_critical u t ≡ ok v → Leaves s v

Runs-Leaves :
    {s u : Sections} {cs : List ℕ} → Runs s cs u → {v : Sections} → Leaves u v → Runs s cs v
Runs-Leaves r nobody = r
Runs-Leaves r (leaving t l e) = leaves t (Runs-Leaves r l) e

-- The thread `t` leaves its section for good.
leave_for_good :
    (n : ℕ) (s0 s : Sections) (q : Queue) (t : ℕ)
    → Leaves s0 s
    → Represents s q
    → contains t (owners q.sections) ≡ true
    → (s.thread t).nesting ≡ n
    → (u : Sections) × Leaves s0 u
      × (p : Queue) × Represents u p
      × (length p.sections + 1 ≡ length q.sections)
leave_for_good zero s0 s q t r x m e = absurd (ground (arith, (x.inside t m).nested, e))
leave_for_good (suc n) s0 s q t r x m e =
    let (u, run, p, _, y, d) = leave_critical-Reach s q t x m in
    let less : (s.thread t).nesting ≡ (u.thread t).nesting + 1 =
      d.nesting t
      ∙ ap (λ b. if b then (u.thread t).nesting + 1 else (u.thread t).nesting) (==-self t) in
    elim d.queue [
      | inl (_, same) ↦
          let (v, rv, p', z, f) =
            leave_for_good n s0 u p t (leaving t r run) y
              (ap (λ q. contains t (owners q.sections)) same ∙ m) (omega (arith, less, e)) in
          (v, rv, p', z, f ∙ ap (λ q. length q.sections) same)
      | inr (_, c) ↦ (u, leaving t r run, p, y, c.size)
    ]

-- All threads leave their sections, the owner of the oldest first.
all_leave :
    (n : ℕ) (s0 s : Sections) (q : Queue) (l : List Open)
    → Leaves s0 s
    → Represents s q
    → q.sections ≡ l
    → length l ≡ n
    → (u : Sections) × Leaves s0 u × (u.newest_ci ≡ none)
all_leave n s0 s q [] r x e f = (s, r, x.newest ∙ ap (last_or none) e)
all_leave zero s0 s q (y ∷ l) r x e f = absurd (ground (arith, f))
all_leave (suc n) s0 s q (y ∷ l) r x e f =
    let m : contains y.owner (owners q.sections) ≡ true =
      ap (λ l. contains y.owner (owners l)) e ∙ contains-here y.owner (owners l) in
    let (u, ru, p, z, g) = leave_for_good (s.thread y.owner).nesting s0 s q y.owner r x m refl in
    all_leave n s0 u p p.sections ru z refl (omega (arith, g, ap length e, f))

-- Whatever state calls that throw nothing, with no nesting that wraps round, have led to from the
-- start, calls of `leave_critical` alone lead on, without throwing, to one in which no section is
-- open and every cleanup that was scheduled has run, each as often as it was scheduled.
pub Runs-finish :
    (debug : Bool) (cs : List ℕ) (s : Sections)
    → Runs (at_start debug) cs s
    → (u : Sections) × Leaves s u
      × (u.newest_ci ≡ none)
      × ((w : ℕ → ℕ) → total w u.ran ≡ total w cs)
Runs-finish debug cs s r =
    let (q, _, x, _) = Runs-Safe debug cs s r in
    let (u, l, n) = all_leave (length q.sections) s s q q.sections nobody x refl refl in
    (u, l, n, λ w. Runs-all_ran debug cs u w (Runs-Leaves r l) n)
