-- ===== src/Tests/OpenSections.antt =====
-- A queue of two critical sections of jmvcc/garbage.cc, and runs of threads.
use libjmvcc.Base.{
  ℕ, ◌≡◌, refl, sym, subst, false, true, [], ◌∷◌, none, some, ◌==◌, if◌then◌else◌, arith, total, ok,
  Result, throw, contains, Bool-cases, ne→==, ==-self, contains-cases, contains-neither, update,
  inl, inr,
}
use libjmvcc.Garbage.{
  enter_first, allocate, insert, link_newest, check_newest, is_live, leave_last, remove,
  unlink_prev, unlink_next, hand_over, take_cleanups_from, Sections, Thread, CriticalInfo,
  local_cleanups, leave_critical, enter_critical, schedule_cleanup, check_invariants,
}
use libjmvcc.Garbage.Queue.{Queue, Step, Reach}
use libjmvcc.CompareExchange.{CompareExchange}
use libjmvcc.Garbage
use libjmvcc.Garbage.Chain.{names}
use libjmvcc.Garbage.Represents.{Inside, Outside, Represents, check_invariants-passes}
use libjmvcc.Garbage.Schedule.{schedule_cleanup-Step}
use libjmvcc.Garbage.Depth.{Entering, Leaving}
use libjmvcc.Garbage.Enter.{enter_critical-Reach}
use libjmvcc.Garbage.Departure.{leave_critical-Reach}
use libjmvcc.Garbage.Runs.{Runs, start, enters, leaves, schedules, at_start}
use libjmvcc.Garbage.Rcu.{Rcu, publish, publish-Step}
use libjmvcc.Garbage.Finish.{Runs-finish, Leaves}

-- Threads 1 and 2 are in sections, 1 twice in its own, and 1 has scheduled the cleanup 5.
abbrev pub two_queue : Queue
two_queue = record {
  sections =
      record { owner = 1; cleanups = [] }
      ∷ record { owner = 2; cleanups = record { cleanup = 4; waits = 1 ∷ 2 ∷ [] } ∷ [] }
      ∷ [];
  own = update (λ t. []) 1 (record { cleanup = 5; waits = 1 ∷ 2 ∷ [] } ∷ []);
  ran = [];
}

abbrev pub two_open : Sections
two_open = record {
  newest_ci = some 2;
  num_in_critical = 2;
  debug_mode = true;
  info =
      update
        (update (at_start true).info 1
          (record { live = true; prev = none; next = some 2; cleanups = [] }))
        2 (record { live = true; prev = some 1; next = none; cleanups = 4 ∷ [] });
  thread =
      update
        (update (at_start true).thread 1 (record {
          critical = some 1;
          critical_alloc = some 1;
          cleanups = some (5 ∷ []);
          nesting = 1;
        }))
        2 (record { critical = some 2; critical_alloc = some 2; cleanups = none; nesting = 1 });
  ran = [];
}

-- What holds of both threads holds of each in the list.
one_or_two : (P : ℕ → Type 0) (t : ℕ) → P 1 → P 2 → contains t (1 ∷ 2 ∷ []) ≡ true → P t
one_or_two P t a b m = elim (contains-cases t 1 (2 ∷ []) m) [
  | inl e ↦ subst P (sym e) a
  | inr n ↦ elim (contains-cases t 2 [] n) [
    | inl e ↦ subst P (sym e) b
    | inr k ↦ absurd (ground (arith, k))
  ]
]

two_open-away :
    (t : ℕ) → contains t (1 ∷ 2 ∷ []) ≡ false → Outside (two_open.thread t) (two_open.info t) t
two_open-away t m =
    let (d, n) = contains-neither t 1 (2 ∷ []) m in
    let (e, _) = contains-neither t 2 [] n in
    let one = ne→== 1 t (λ f. d (sym f)) in
    let two = ne→== 2 t (λ f. e (sym f)) in
    record { critical = simp (one, two); nested = simp (one, two); idle = inl (simp (one, two)) }

two_open-own : (t : ℕ) → local_cleanups (two_open.thread t).cleanups ≡ names (two_queue.own t)
unfolding local_cleanups
two_open-own t = elim (Bool-cases (contains t (1 ∷ 2 ∷ []))) [
  | inl m ↦
      one_or_two (λ t. local_cleanups (two_open.thread t).cleanups ≡ names (two_queue.own t)) t refl
        refl m
  | inr m ↦
      let (d, n) = contains-neither t 1 (2 ∷ []) m in
      let (e, _) = contains-neither t 2 [] n in
      let one = ne→== 1 t (λ f. d (sym f)) in
      let two = ne→== 2 t (λ f. e (sym f)) in simp (one, two)
]

pub two_open-Represents : Represents two_open two_queue
two_open-Represents = record {
  chain = (refl, (refl, tt));
  newest = refl;
  once = (refl, (refl, tt));
  count = refl;
  inside = λ t.
      one_or_two (λ t. Inside (two_open.thread t) t) t
        (record { critical = refl; allocated = refl; nested = omega arith })
        (record { critical = refl; allocated = refl; nested = omega arith });
  outside = two_open-away;
  own = two_open-own;
  ran = refl;
}

check_invariants-passes_example : check_invariants two_open 1 ≡ ok tt
check_invariants-passes_example =
    check_invariants-passes two_open two_queue.sections 1 (refl, (refl, tt)) refl refl
      (inr (refl, refl))

schedule_cleanup-Step_example :
    (p : Queue) × Step two_queue (6 ∷ []) p × Represents (schedule_cleanup two_open 3 6) p
schedule_cleanup-Step_example = schedule_cleanup-Step two_open two_queue 3 6 two_open-Represents

enter_critical-Reach_example :
    (u : Sections) × (enter_critical two_open 3 ≡ ok u)
    × (p : Queue) × Reach two_queue [] p
    × Represents u p
    × Entering two_open u two_queue p 3
enter_critical-Reach_example =
    enter_critical-Reach two_open two_queue 3 two_open-Represents (omega arith)

leave_critical-Reach_example :
    (u : Sections) × (leave_critical two_open 1 ≡ ok u)
    × (p : Queue) × Reach two_queue [] p
    × Represents u p
    × Leaving two_open u two_queue p 1
leave_critical-Reach_example = leave_critical-Reach two_open two_queue 1 two_open-Represents refl

-- Thread 1 enters, thread 2 enters, thread 1 schedules the cleanup 5 and leaves.
abbrev state_of : Result Sections → Sections
state_of (throw e) = at_start true
state_of (ok u) = u

abbrev entered_one : Sections
entered_one = state_of (enter_critical (at_start true) 1)

abbrev entered_both : Sections
entered_both = state_of (enter_critical entered_one 2)

abbrev left_one : Sections
left_one = state_of (leave_critical (schedule_cleanup entered_both 1 5) 1)

abbrev left_alone : Sections
left_alone = state_of (leave_critical (schedule_cleanup entered_one 1 5) 1)

run_of_both : Runs (at_start true) [] entered_both
unfolding enter_critical enter_first allocate insert link_newest check_invariants check_newest
    is_live leave_critical leave_last remove unlink_prev unlink_next Garbage.cleanup hand_over
    schedule_cleanup take_cleanups_from local_cleanups
run_of_both = enters 2 (enters 1 start (omega arith) refl) (omega arith) refl

run_of_one : Runs (at_start true) (5 ∷ []) left_one
unfolding enter_critical enter_first allocate insert link_newest check_invariants check_newest
    is_live leave_critical leave_last remove unlink_prev unlink_next Garbage.cleanup hand_over
    schedule_cleanup take_cleanups_from local_cleanups
run_of_one = leaves 1 (schedules 1 5 run_of_both) refl

run_to_end : Runs (at_start true) (5 ∷ []) left_alone
unfolding enter_critical enter_first allocate insert link_newest check_invariants check_newest
    is_live leave_critical leave_last remove unlink_prev unlink_next Garbage.cleanup hand_over
    schedule_cleanup take_cleanups_from local_cleanups
run_to_end = leaves 1 (schedules 1 5 (enters 1 start (omega arith) refl)) refl

Runs-finish_example :
    (u : Sections) × Leaves left_one u
    × (u.newest_ci ≡ none)
    × ((w : ℕ → ℕ) → total w u.ran ≡ total w (5 ∷ []))
Runs-finish_example = Runs-finish true (5 ∷ []) left_one run_of_one

ended_all : left_alone.newest_ci ≡ none
unfolding enter_critical enter_first allocate insert link_newest check_invariants check_newest
    is_live leave_critical leave_last remove unlink_prev unlink_next Garbage.cleanup hand_over
    schedule_cleanup take_cleanups_from local_cleanups
ended_all = refl

abbrev word : CompareExchange ℕ
word = record {
  cmp_xchg = λ value old new. if value == old then (true, new, old) else (false, value, value);
  as_expected = λ value new. rw (==-self value);
  otherwise = λ value old new d. rw (ne→== value old d);
}

abbrev shared : Rcu
shared = record { pointer = 8 }

publish-Step_example :
    (u : Sections) × (publish word two_open 3 shared 8 9 ≡ (true, record { pointer = 9 }, u))
    × (p : Queue) × Step two_queue (8 ∷ []) p
    × Represents u p
publish-Step_example = publish-Step word two_open two_queue 3 shared 8 9 two_open-Represents refl
