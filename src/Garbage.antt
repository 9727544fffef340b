-- ===== src/Garbage.antt =====
-- jmvcc/garbage.cc: critical sections, and the cleanups that wait for their end. A thread and its
-- `Critical_Info` have the same number. A cleanup is a number, and running it adds it to a list. A
-- function that takes the lock is one step. The statistics of the debug mode are left out.
pub mod Leave
pub mod Queue
pub mod Safety
pub mod Chain
pub mod Unlink
pub mod Link
pub mod Represents
pub mod Around
pub mod Depth
pub mod Newest
pub mod Schedule
pub mod Enter
pub mod HandOver
pub mod End
pub mod Removal
pub mod Departure
pub mod Renew
pub mod Runs
pub mod Totals
pub mod Conserve
pub mod Finish
pub mod Rcu
use libjmvcc.Base.{
  update, ℕ, suc, ◌+◌, ◌-◌, ◌%◌, ◌^◌, Bool, true, false, List, [], ◌∷◌, ◌++◌, Option, none, some,
  ltb, ◌==◌, if◌then◌else◌, not, ◌||◌, length, Error, Result, ok, throw, ◌>>=◌, ◌>>◌, throw_if,
}

-- `Critical_Info`
pub record CriticalInfo : Type 0 where
  pub live : Bool
  pub prev : Option ℕ
  pub next : Option ℕ
  pub cleanups : List ℕ

-- The thread's own variables.
pub record Thread : Type 0 where
  pub critical : Option ℕ
  pub critical_alloc : Option ℕ
  pub cleanups : Option (List ℕ)
  pub nesting : ℕ

pub record Sections : Type 0 where
  pub newest_ci : Option ℕ
  pub num_in_critical : ℕ
  pub debug_mode : Bool
  pub info : ℕ → CriticalInfo
  pub thread : ℕ → Thread
  pub ran : List ℕ

abbrev pub is_null : Option ℕ → Bool
is_null none = true
is_null (some p) = false

abbrev pub points_to : Option ℕ → ℕ → Bool
points_to none q = false
points_to (some p) q = p == q

abbrev pub set_info : Sections → ℕ → CriticalInfo → Sections
set_info s ci i = record s { info = update s.info ci i }

abbrev pub set_thread : Sections → ℕ → Thread → Sections
set_thread s t v = record s { thread = update s.thread t v }

-- The end of the list in `insert`.
unfoldable pub link_newest : Sections → Option ℕ → ℕ → Result Sections
link_newest s none ci = ok s
link_newest s (some p) ci = do
  throw_if (not (is_null (s.info p).next)) Error.newest_next_not_null
  ok (set_info s p (record (s.info p) { next = some ci }))

unfoldable pub insert : Sections → ℕ → Result Sections
insert s ci = do
  throw_if (s.info ci).live Error.insert_on_live
  s' ← link_newest s s.newest_ci ci
  ok (record s' {
    newest_ci = some ci;
    info = update s'.info ci (record (s'.info ci) { prev = s.newest_ci; next = none; live = true });
  })

-- The cleanups that are then there; the other list is then empty.
unfoldable pub take_cleanups_from {ℓ} : {A : Type ℓ} → List A → List A → List A
take_cleanups_from cs other = if ltb (length cs) (length other) then other ++ cs else cs ++ other

-- `remove`, as far as it is about the section before.
unfoldable pub unlink_prev : Sections → ℕ → Option ℕ → Sections
unlink_prev s ci none = s
unlink_prev s ci (some p) =
    set_info
      (set_info s p (record (s.info p) {
        next = (s.info ci).next;
        cleanups = take_cleanups_from (s.info p).cleanups (s.info ci).cleanups;
      }))
      ci (record (s.info ci) { cleanups = [] })

-- `remove`, as far as it is about the section behind.
unfoldable pub unlink_next : Sections → ℕ → Option ℕ → Sections
unlink_next s ci none = record s { newest_ci = (s.info ci).prev }
unlink_next s ci (some n) = set_info s n (record (s.info n) { prev = (s.info ci).prev })

unfoldable pub remove : Sections → ℕ → Result Sections
remove s ci = do
  throw_if (not (s.info ci).live) Error.remove_on_non_live
  let s' = unlink_prev s ci (s.info ci).prev
  let s'' = unlink_next s' ci (s'.info ci).next
  ok (set_info s'' ci (record (s''.info ci) { prev = none; next = none; live = false }))

-- `cleanup` of a `Critical_Info`.
unfoldable pub cleanup : Sections → Option ℕ → Result Sections
cleanup s none = throw Error.invalid_access
cleanup s (some ci) = ok (record s {
  ran = s.ran ++ (s.info ci).cleanups;
  info = update s.info ci (record (s.info ci) { cleanups = [] });
})

-- The checks that look at the newest section, if there are open ones.
unfoldable pub check_newest : Sections → Option ℕ → Option ℕ → Result (Unit {0})
check_newest s critical none = throw Error.open_without_newest
check_newest s critical (some n) = do
  throw_if (not (s.info n).live) Error.newest_not_live
  throw_if (not (is_null (s.info n).next)) Error.newest_with_next
  if s.num_in_critical == 1
      then (do
        throw_if (not (is_null critical || points_to critical n)) Error.only_one_not_newest
        throw_if (not (is_null (s.info n).prev)) Error.only_one_with_prev)
      else ok tt

unfoldable pub is_live : Sections → Option ℕ → Bool
is_live s none = true
is_live s (some ci) = (s.info ci).live

unfoldable pub check_invariants : Sections → ℕ → Result (Unit {0})
check_invariants s t =
    let critical = (s.thread t).critical in
    if not s.debug_mode
    then ok tt
    else if s.num_in_critical == 0
    then (do
      throw_if (not (is_null critical)) Error.critical_with_none_open
      throw_if (not (is_null s.newest_ci)) Error.newest_with_none_open)
    else (do
      throw_if (not (is_live s critical)) Error.critical_not_live
      check_newest s critical s.newest_ci)

-- `t_critical_alloc`, after the allocation, and the state.
unfoldable pub allocate : Sections → ℕ → Option ℕ → ℕ × Sections
allocate s t (some ci) = (ci, s)
allocate s t none = (
  t,
  set_thread (set_info s t (record { live = false; prev = none; next = none; cleanups = [] })) t
      (record (s.thread t) { critical_alloc = some t }),
)

unfoldable pub enter_first : Sections → ℕ → Result Sections
enter_first s t = do
  let (ci, s1) = allocate s t (s.thread t).critical_alloc
  throw_if (s1.info ci).live Error.entered_with_live
  s2 ← insert s1 ci
  let s3 = record s2 {
    num_in_critical = s2.num_in_critical + 1;
    thread = update s2.thread t (record (s2.thread t) {
      critical = some ci;
      nesting = ((s2.thread t).nesting + 1) % 2 ^ 32;
    });
  }
  check_invariants s3 t
  ok s3

unfoldable pub enter_critical : Sections → ℕ → Result Sections
enter_critical s t = elim (s.thread t).critical [
  | some ci ↦
      ok (set_thread s t (record (s.thread t) { nesting = ((s.thread t).nesting + 1) % 2 ^ 32 }))
  | none ↦ enter_first s t
]

-- The thread's own list goes to the newest section.
unfoldable pub hand_over : Sections → ℕ → Option (List ℕ) → Option ℕ → Result Sections
hand_over s t none newest = ok s
hand_over s t (some cs) none = throw Error.invalid_access
hand_over s t (some cs) (some n) = ok (
    set_thread
      (set_info s n (record (s.info n) { cleanups = take_cleanups_from (s.info n).cleanups cs })) t
      (record (s.thread t) { cleanups = some [] }))

-- `leave_critical` at the outermost section `ci`, once the nesting is 0.
unfoldable pub leave_last : Sections → ℕ → ℕ → Result Sections
leave_last s t ci = do
  s1 ← hand_over s t (s.thread t).cleanups s.newest_ci
  s2 ← remove s1 ci
  let s3 = record s2 {
    num_in_critical = s2.num_in_critical - 1;
    thread = update s2.thread t (record (s2.thread t) { critical = none });
  }
  check_invariants s3 t
  s4 ← cleanup s3 (s3.thread t).critical_alloc
  check_invariants s4 t
  ok s4

unfoldable pub leave_critical : Sections → ℕ → Result Sections
leave_critical s t = do
  throw_if ((s.thread t).nesting == 0) Error.badly_nested_critical_sections
  elim (s.thread t).critical [
    | none ↦ throw Error.badly_nested_critical_sections
    | some ci ↦
        let s' = set_thread s t (record (s.thread t) { nesting = (s.thread t).nesting - 1 }) in
        let last = leave_last s' t ci in if ltb 0 ((s.thread t).nesting - 1) then ok s' else last
  ]

pub new_critical : Sections → ℕ → Result Sections
new_critical s t = do s' ← leave_critical s t; enter_critical s' t

-- `schedule_cleanup` outside a critical section.
pub schedule_outside : Sections → Option ℕ → ℕ → Sections
schedule_outside s none c = record s { ran = s.ran ++ c ∷ [] }
schedule_outside s (some n) c =
    set_info s n (record (s.info n) { cleanups = (s.info n).cleanups ++ c ∷ [] })

-- The thread's own list, which is allocated when it is first needed.
unfoldable pub local_cleanups : Option (List ℕ) → List ℕ
local_cleanups none = []
local_cleanups (some cs) = cs

unfoldable pub schedule_cleanup : Sections → ℕ → ℕ → Sections
schedule_cleanup s t c = elim (s.thread t).critical [
  | none ↦ schedule_outside s s.newest_ci c
  | some ci ↦
      set_thread s t
        (record (s.thread t) { cleanups = some (local_cleanups (s.thread t).cleanups ++ c ∷ []) })
]
