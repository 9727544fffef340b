-- ===== src/Garbage/Runs.antt =====
-- What threads do with jmvcc/garbage.cc: sequences of calls that throw nothing, in any order.
use libjmvcc.Base.{
  ℕ, ◌+◌, ◌<◌, ◌^◌, ◌≡◌, refl, ap, ◌∙◌, sym, subst, Bool, true, false, List, [], ◌∷◌, arith, none,
  contains, Bool-cases, inl, inr, ok, throw, Result, Error,
}
use libjmvcc.Garbage.{
  Sections, Thread, CriticalInfo, enter_critical, leave_critical, schedule_cleanup,
}
use libjmvcc.Garbage.Queue.{Queue, Reach, Reach-trans, here, later, no_section, owners, Safe}
use libjmvcc.Garbage.Safety.{Reach-Safe}
use libjmvcc.Garbage.Represents.{Represents}
use libjmvcc.Garbage.Schedule.{schedule_cleanup-Step}
use libjmvcc.Garbage.Enter.{enter_critical-Reach}
use libjmvcc.Garbage.Departure.{leave_critical-Reach}

-- The state before any thread has entered a section.
abbrev pub at_start : Bool → Sections
at_start debug = record {
  newest_ci = none;
  num_in_critical = 0;
  debug_mode = debug;
  info = λ t. record { live = false; prev = none; next = none; cleanups = [] };
  thread = λ t. record { critical = none; critical_alloc = none; cleanups = none; nesting = 0 };
  ran = [];
}

-- Calls that lead from `s` to another state, and the cleanups they schedule, the last one first. The
-- nesting of a thread that enters does not wrap round.
pub data Runs (s : Sections) : List ℕ → Sections → Type 0 where
  start : Runs s [] s
  enters :
      {cs : List ℕ} {u v : Sections} (t : ℕ)
      → Runs s cs u
      → (u.thread t).nesting + 1 < 2 ^ 32
      → enter_critical u t ≡ ok v
      → Runs s cs v
  leaves :
      {cs : List ℕ} {u v : Sections} (t : ℕ) → Runs s cs u → leave_critical u t ≡ ok v → Runs s cs v
  schedules :
      {cs : List ℕ} {u : Sections} (t c : ℕ)
      → Runs s cs u
      → Runs s (c ∷ cs) (schedule_cleanup u t c)

start-Represents : (debug : Bool) → Represents (at_start debug) no_section
unfolding libjmvcc.Garbage.local_cleanups
start-Represents debug = record {
  chain = tt;
  newest = refl;
  once = tt;
  count = refl;
  inside = λ t m. absurd (ground (arith, m));
  outside = λ t m. record { critical = refl; nested = refl; idle = inl refl };
  own = λ t. refl;
  ran = refl;
}

abbrev state_or : Sections → Result Sections → Sections
state_or s (throw e) = s
state_or s (ok u) = u

same_state : (r : Result Sections) (u v : Sections) → r ≡ ok u → r ≡ ok v → u ≡ v
same_state r u v a b = ap (state_or u) (sym a ∙ b)

leave_critical-unnested :
    (s : Sections) (t : ℕ)
    → (s.thread t).nesting ≡ 0
    → leave_critical s t ≡ throw Error.badly_nested_critical_sections
unfolding leave_critical
leave_critical-unnested s t n = simp n

-- A thread that is in no section cannot leave one.
pub leave_critical-outside :
    (s u : Sections) (q : Queue) (t : ℕ)
    → Represents s q
    → leave_critical s t ≡ ok u
    → contains t (owners q.sections) ≡ true
leave_critical-outside s u q t r e = elim (Bool-cases (contains t (owners q.sections))) [
  | inl m ↦ m
  | inr m ↦
      let stops = leave_critical-unnested s t (r.outside t m).nested in
      let clash : throw Error.badly_nested_critical_sections ≡ ok u = sym stops ∙ e in cc
]

pub Runs-Safe :
    (debug : Bool) (cs : List ℕ) (u : Sections)
    → Runs (at_start debug) cs u
    → (q : Queue) × Reach no_section cs q × Represents u q × Safe q
Runs-Safe debug _ _ start = (no_section, here, start-Represents debug, Reach-Safe here)
Runs-Safe debug cs v (enters {u = u} t w n e) =
    let (q, a, r, _) = Runs-Safe debug cs u w in
    let (v', e', p, b, x, _) = enter_critical-Reach u q t r n in
    (
      p,
      Reach-trans a b,
      subst (λ v. Represents v p) (same_state (enter_critical u t) v' v e' e) x,
      Reach-Safe (Reach-trans a b),
    )
Runs-Safe debug cs v (leaves {u = u} t w e) =
    let (q, a, r, _) = Runs-Safe debug cs u w in
    let (v', e', p, b, x, _) = leave_critical-Reach u q t r (leave_critical-outside u v q t r e) in
    (
      p,
      Reach-trans a b,
      subst (λ v. Represents v p) (same_state (leave_critical u t) v' v e' e) x,
      Reach-Safe (Reach-trans a b),
    )
Runs-Safe debug _ _ (schedules {cs = cs} {u = u} t c w) =
    let (q, a, r, _) = Runs-Safe debug cs u w in
    let (p, b, x) = schedule_cleanup-Step u q t c r in (p, later a b, x, Reach-Safe (later a b))
