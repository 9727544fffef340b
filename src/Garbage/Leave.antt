-- ===== src/Garbage/Leave.antt =====
-- The end of a critical section in jmvcc/garbage.cc.
use libjmvcc.Base.{
  update, update-other, ℕ, ◌+◌, ◌-◌, ◌≡◌, ◌≢◌, refl, ap, ap₂, ◌∙◌, sym, true, false, List, [], ◌++◌,
  Option, none, some, arith, ==-self, ne→==, total, total-append, ok,
}
use mathlib.Core.List.{append-nil}
use libjmvcc.Garbage.{
  Sections, set_info, set_thread, take_cleanups_from, unlink_prev, unlink_next, remove, cleanup,
  check_invariants, hand_over, local_cleanups, leave_last, leave_critical,
}

pub total-take_cleanups_from {ℓ} :
    {A : Type ℓ} (w : A → ℕ) (cs other : List A)
    → total w (take_cleanups_from cs other) ≡ total w cs + total w other
unfolding take_cleanups_from
total-take_cleanups_from w cs other =
    ground (arith, total-append w other cs, total-append w cs other)

-- Thread `t` is in the outermost critical section `ci`, the newest, and `before` is the one before it,
-- if there is one.
pub record InNewest (s : Sections) (t ci : ℕ) (before : Option ℕ) : Type 0 where
  pub nested_once : (s.thread t).nesting ≡ 1
  pub critical : (s.thread t).critical ≡ some ci
  pub allocated : (s.thread t).critical_alloc ≡ some ci
  pub live : (s.info ci).live ≡ true
  pub prev : (s.info ci).prev ≡ before
  pub next : (s.info ci).next ≡ none
  pub newest : s.newest_ci ≡ some ci
  pub not_debug : s.debug_mode ≡ false

-- The state after `remove` of the newest section `ci`, with `p` before it.
abbrev removed : Sections → ℕ → ℕ → Sections
removed s ci p =
    let s' = record (unlink_prev s ci (some p)) { newest_ci = some p } in
    set_info s' ci (record (s'.info ci) { prev = none; next = none; live = false })

remove_newest :
    (s : Sections) (ci p : ℕ)
    → (s.info ci).live ≡ true
    → (s.info ci).prev ≡ some p
    → (s.info ci).next ≡ none
    → remove s ci ≡ ok (removed s ci p)
unfolding remove unlink_prev unlink_next
remove_newest s ci p a b c = simp (a, b, c, ==-self ci)

removed-prev :
    (s : Sections) (ci p : ℕ)
    → p ≢ ci
    → ((removed s ci p).info p).cleanups
      ≡ take_cleanups_from (s.info p).cleanups (s.info ci).cleanups
unfolding unlink_prev
removed-prev s ci p d = simp (ne→== ci p (λ e. d (sym e)), ==-self p)

removed-cleanups : (s : Sections) (ci p : ℕ) → ((removed s ci p).info ci).cleanups ≡ []
unfolding unlink_prev
removed-cleanups s ci p = simp (==-self ci)

-- The state after `leave_last`, if `remove` leaves `r`.
abbrev pub after_leave : Sections → ℕ → ℕ → Sections
after_leave r t ci = record r {
  num_in_critical = r.num_in_critical - 1;
  thread = update r.thread t (record (r.thread t) { critical = none });
  ran = r.ran ++ (r.info ci).cleanups;
  info = update r.info ci (record (r.info ci) { cleanups = [] });
}

leave_last_lem :
    (s s1 r : Sections) (t ci : ℕ)
    → hand_over s t (s.thread t).cleanups s.newest_ci ≡ ok s1
    → remove s1 ci ≡ ok r
    → r.debug_mode ≡ false
    → (r.thread t).critical_alloc ≡ some ci
    → leave_last s t ci ≡ ok (after_leave r t ci)
unfolding leave_last check_invariants cleanup
leave_last_lem s s1 r t ci h q d a = simp (h, q, d, a, ==-self t)

-- The state after `hand_over`, with `ci` the newest section.
abbrev handed : Sections → ℕ → ℕ → Option (List ℕ) → Sections
handed s t ci none = s
handed s t ci (some cs) =
    set_thread
      (set_info s ci (record (s.info ci) { cleanups = take_cleanups_from (s.info ci).cleanups cs }))
      t (record (s.thread t) { cleanups = some [] })

-- `hand_over` to the newest section `ci` changes no more than the cleanups of it and of the thread.
record Handed (s s1 : Sections) (t ci : ℕ) (l : Option (List ℕ)) : Type 0 where
  run : hand_over s t l (some ci) ≡ ok s1
  same_ran : s1.ran ≡ s.ran
  same_debug : s1.debug_mode ≡ s.debug_mode
  same_alloc : (s1.thread t).critical_alloc ≡ (s.thread t).critical_alloc
  same_live : (s1.info ci).live ≡ (s.info ci).live
  same_prev : (s1.info ci).prev ≡ (s.info ci).prev
  same_next : (s1.info ci).next ≡ (s.info ci).next
  others : (p : ℕ) → p ≢ ci → (s1.info p).cleanups ≡ (s.info p).cleanups
  taken :
      (w : ℕ → ℕ)
      → total w (s1.info ci).cleanups ≡ total w (s.info ci).cleanups + total w (local_cleanups l)

hand_over-Handed :
    (s : Sections) (t ci : ℕ) (l : Option (List ℕ)) → Handed s (handed s t ci l) t ci l
unfolding hand_over local_cleanups
hand_over-Handed s t ci none = record {
  run = refl;
  same_ran = refl;
  same_debug = refl;
  same_alloc = refl;
  same_live = refl;
  same_prev = refl;
  same_next = refl;
  others = λ p d. refl;
  taken = λ w. omega arith;
}
hand_over-Handed s t ci (some cs) = record {
  run = refl;
  same_ran = refl;
  same_debug = refl;
  same_alloc = simp (==-self t);
  same_live = simp (==-self ci);
  same_prev = simp (==-self ci);
  same_next = simp (==-self ci);
  others = λ p d. simp (ne→== ci p (λ e. d (sym e)));
  taken = λ w. simp (==-self ci) (total-take_cleanups_from w (s.info ci).cleanups cs);
}

-- The state at `leave_last`, once the nesting is 0.
abbrev pub unnested : Sections → ℕ → Sections
unnested s t = set_thread s t (record (s.thread t) { nesting = (s.thread t).nesting - 1 })

pub leave_critical_last :
    (s : Sections) (t ci : ℕ)
    → (s.thread t).nesting ≡ 1
    → (s.thread t).critical ≡ some ci
    → leave_critical s t ≡ leave_last (unnested s t) t ci
unfolding leave_critical
leave_critical_last s t ci n c = simp (n, c)

-- Leaving the outermost critical section of a thread, if that section is the newest and another is
-- open before it, succeeds outside the debug mode. It runs no cleanup: under every weight, those of
-- the section and of the thread's own list are added to those of the section before it, which is
-- then the newest.
pub leave_critical-older :
    (s : Sections) (t ci p : ℕ) (w : ℕ → ℕ)
    → InNewest s t ci (some p)
    → p ≢ ci
    → (u : Sections) × (leave_critical s t ≡ ok u)
      × (u.ran ≡ s.ran)
      × (u.newest_ci ≡ some p)
      × (total w (u.info p).cleanups
          ≡ total w (s.info p).cleanups
            + total w (s.info ci).cleanups
            + total w (local_cleanups (s.thread t).cleanups))
unfolding unlink_prev
leave_critical-older s t ci p w v other =
    let l = (s.thread t).cleanups in
    let s' = unnested s t in
    let s1 = handed s' t ci l in
    let h = hand_over-Handed s' t ci l in
    let own : (s'.thread t).cleanups ≡ l = simp (==-self t) in
    let alloc : (s'.thread t).critical_alloc ≡ some ci = simp (==-self t, v.allocated) in
    let given : hand_over s' t (s'.thread t).cleanups s'.newest_ci ≡ ok s1 =
      ap₂ (hand_over s' t) own v.newest ∙ h.run in
    let gone : remove s1 ci ≡ ok (removed s1 ci p) =
      remove_newest s1 ci p (h.same_live ∙ v.live) (h.same_prev ∙ v.prev) (h.same_next ∙ v.next) in
    let none_left = removed-cleanups s1 ci p in
    (
      after_leave (removed s1 ci p) t ci,
      leave_critical_last s t ci v.nested_once v.critical
          ∙ leave_last_lem s' s1 (removed s1 ci p) t ci given gone (h.same_debug ∙ v.not_debug)
              (h.same_alloc ∙ alloc),
      ap (λ cs. s1.ran ++ cs) none_left ∙ append-nil s1.ran ∙ h.same_ran,
      refl,
      ap (λ i. total w i.cleanups) (update-other (removed s1 ci p).info ci p _ other)
          ∙ ap (total w) (removed-prev s1 ci p other)
          ∙ total-take_cleanups_from w (s1.info p).cleanups (s1.info ci).cleanups
          ∙ omega (arith, ap (total w) (h.others p other), h.taken w),
    )

-- The state after `remove` of the only section.
abbrev removed_only : Sections → ℕ → Sections
removed_only s ci =
    set_info (record s { newest_ci = none }) ci
      (record (s.info ci) { prev = none; next = none; live = false })

remove_only :
    (s : Sections) (ci : ℕ)
    → (s.info ci).live ≡ true
    → (s.info ci).prev ≡ none
    → (s.info ci).next ≡ none
    → remove s ci ≡ ok (removed_only s ci)
unfolding remove unlink_prev unlink_next
remove_only s ci a b c = simp (a, b, c)

-- Leaving the outermost critical section of a thread, if no other is open, succeeds outside the
-- debug mode. It runs all that waits: under every weight, the cleanups of the section and of the
-- thread's own list are added to those that ran, no section is open, and none waits in this one.
pub leave_critical-only :
    (s : Sections) (t ci : ℕ) (w : ℕ → ℕ)
    → InNewest s t ci none
    → (u : Sections) × (leave_critical s t ≡ ok u)
      × (total w u.ran
          ≡ total w s.ran
            + total w (s.info ci).cleanups
            + total w (local_cleanups (s.thread t).cleanups))
      × (u.newest_ci ≡ none)
      × ((u.info ci).cleanups ≡ [])
leave_critical-only s t ci w v =
    let l = (s.thread t).cleanups in
    let s' = unnested s t in
    let s1 = handed s' t ci l in
    let h = hand_over-Handed s' t ci l in
    let own : (s'.thread t).cleanups ≡ l = simp (==-self t) in
    let alloc : (s'.thread t).critical_alloc ≡ some ci = simp (==-self t, v.allocated) in
    let given : hand_over s' t (s'.thread t).cleanups s'.newest_ci ≡ ok s1 =
      ap₂ (hand_over s' t) own v.newest ∙ h.run in
    let gone : remove s1 ci ≡ ok (removed_only s1 ci) =
      remove_only s1 ci (h.same_live ∙ v.live) (h.same_prev ∙ v.prev) (h.same_next ∙ v.next) in
    let waits : ((removed_only s1 ci).info ci).cleanups ≡ (s1.info ci).cleanups =
      simp (==-self ci) in
    (
      after_leave (removed_only s1 ci) t ci,
      leave_critical_last s t ci v.nested_once v.critical
          ∙ leave_last_lem s' s1 (removed_only s1 ci) t ci given gone (h.same_debug ∙ v.not_debug)
              (h.same_alloc ∙ alloc),
      ap (λ cs. total w (s1.ran ++ cs)) waits
          ∙ total-append w s1.ran (s1.info ci).cleanups
          ∙ omega (arith, ap (total w) h.same_ran, h.taken w),
      refl,
      simp (==-self ci),
    )
