-- ===== src/Garbage/Enter.antt =====
-- `enter_critical` of jmvcc/garbage.cc, as a step of the queue of sections.
use libjmvcc.Base.{
  Once-snoc, contains-snoc, contains-last, ℕ, ◌+◌, ◌<◌, ◌≤◌, ◌%◌, ◌^◌, ◌≡◌, ◌≢◌, refl, ap, ◌∙◌, sym,
  subst, true, false, [], ◌∷◌, ◌++◌, arith, Option, none, some, contains, contains-ne, Once,
  ==-self, update, update-same, update-other, length-append, Bool-cases, inl, inr, ok,
}
use libjmvcc.Garbage.{
  Sections, CriticalInfo, local_cleanups, set_thread, allocate, insert, enter_first, enter_critical,
  check_invariants,
}
use libjmvcc.Garbage.Queue.{Queue, Reach, enter, here, later, owners}
use libjmvcc.Garbage.Chain.{Linked-agree, owners-append, last_or-append}
use libjmvcc.Garbage.Link.{opening, entered, insert-Inserted}
use libjmvcc.Garbage.Represents.{Inside, Represents, check_invariants-passes}
use libjmvcc.Garbage.Depth.{with_section, Entering, nesting-one_more}
use libjmvcc.Garbage.Around.{
  Around-own, Moved, Moved-Around, Settled-in, Settled-out, Around-Represents, Represents-Around,
}

-- The thread's `Critical_Info`, ready for the list.
record Ready (s : Sections) (t : ℕ) : Type 0 where
  allocated : (s.thread t).critical_alloc ≡ some t
  live : (s.info t).live ≡ false
  cleanups : (s.info t).cleanups ≡ []

abbrev with_alloc : Sections → ℕ → Sections
with_alloc s t = (allocate s t none).1

enter_first-allocate :
    (s : Sections) (t : ℕ)
    → (s.thread t).critical_alloc ≡ none
    → enter_first s t ≡ enter_first (with_alloc s t) t
unfolding enter_first allocate
enter_first-allocate s t e = simp (e, ==-self t)

allocate-Represents :
    (s : Sections) (q : Queue) (t : ℕ)
    → Represents s q
    → contains t (owners q.sections) ≡ false
    → (s.thread t).critical_alloc ≡ none
    → Represents (with_alloc s t) q × Ready (with_alloc s t) t
unfolding allocate
allocate-Represents s q t r m e =
    let idle : CriticalInfo = record { live = false; prev = none; next = none; cleanups = [] } in
    let u = with_alloc s t in
    let o = r.outside t m in
    let v = record (s.thread t) { critical_alloc = some t } in
    let here : u.thread t ≡ v = update-same s.thread t v in
    let blank : u.info t ≡ idle = update-same s.info t idle in
    let moved : Moved s u q q t = record {
      chain =
          Linked-agree none none s.info u.info q.sections
            (λ k w. update-other s.info t k idle (contains-ne k t (owners q.sections) w m)) r.chain;
      newest = r.newest;
      once = r.once;
      count = r.count;
      threads = λ k d. update-other s.thread t k v d;
      infos = λ k d w. update-other s.info t k idle d;
      members = λ k d. refl;
      own = λ k d. refl;
      mine = ap (λ w. local_cleanups w.cleanups) here ∙ r.own t;
      ran = r.ran;
    } in
    let ready : Ready u t = record {
      allocated = ap (λ w. w.critical_alloc) here;
      live = ap (λ i. i.live) blank;
      cleanups = ap (λ i. i.cleanups) blank;
    } in
    (
      Around-Represents u q t (Moved-Around s u q q t moved (Represents-Around s q t r)) (
          Settled-out u q t m (record {
            critical = ap (λ w. w.critical) here ∙ o.critical;
            nested = ap (λ w. w.nesting) here ∙ o.nested;
            idle = inr (ready.allocated, ready.live, ready.cleanups);
          })),
      ready,
    )

-- The state of an open section, with the thread in it.
abbrev in_section : Sections → ℕ → Sections
in_section s t = record s {
  num_in_critical = s.num_in_critical + 1;
  thread =
      update s.thread t
        (record (s.thread t) { critical = some t; nesting = ((s.thread t).nesting + 1) % 2 ^ 32 });
}

enter_first-prepared :
    (s u : Sections) (t : ℕ)
    → Ready s t
    → insert s t ≡ ok u
    → check_invariants (in_section u t) t ≡ ok tt
    → enter_first s t ≡ ok (in_section u t)
unfolding enter_first allocate
enter_first-prepared s u t r i c = simp (r.allocated, r.live, i, c)

opening-keeps :
    (s : Sections) (t : ℕ) (pr : Option ℕ)
    → let u = opening s t pr in
      (u.newest_ci ≡ some t)
      × (u.num_in_critical ≡ s.num_in_critical)
      × (u.thread ≡ s.thread)
      × (u.ran ≡ s.ran)
opening-keeps s t none = (refl, refl, refl, refl)
opening-keeps s t (some p) = (refl, refl, refl, refl)

-- What `enter_first` does to a thread in no section.
abbrev Opened : Sections → Queue → ℕ → Type 0
Opened s q t =
    (u : Sections) × (enter_first s t ≡ ok u)
    × (p : Queue) × Reach q [] p
    × Represents u p
    × (p ≡ with_section q t)
    × ((u.thread t).nesting ≡ (s.thread t).nesting + 1)
    × ((k : ℕ) → k ≢ t → u.thread k ≡ s.thread k)

prepared-Opened :
    (s : Sections) (q : Queue) (t : ℕ)
    → Represents s q
    → contains t (owners q.sections) ≡ false
    → Ready s t
    → Opened s q t
prepared-Opened s q t r m a =
    let (pr, (ins, _, chain, others)) =
      insert-Inserted s q.sections t r.chain r.newest r.once m a.live a.cleanups in
    let o = r.outside t m in
    let u = opening s t pr in
    let (newest, count, threads, ran) = opening-keeps s t pr in
    let w = record (u.thread t) {
      critical = some t;
      nesting = ((u.thread t).nesting + 1) % 2 ^ 32;
    } in
    let v = in_section u t in
    let was : u.thread t ≡ s.thread t = ap (λ f. f t) threads in
    let vars : v.thread t ≡ w = update-same u.thread t w in
    let p = record q { sections = q.sections ++ entered t ∷ [] } in
    let names_of : owners p.sections ≡ owners q.sections ++ t ∷ [] =
      owners-append q.sections (entered t ∷ []) in
    let moved : Moved s v q p t = record {
      chain = chain;
      newest = newest ∙ sym (last_or-append none q.sections (entered t ∷ []));
      once = subst Once (sym names_of) (Once-snoc (owners q.sections) t r.once m);
      count = ap (λ n. n + 1) (count ∙ r.count) ∙ sym (length-append q.sections (entered t ∷ []));
      threads = λ k d. update-other u.thread t k w d ∙ ap (λ f. f k) threads;
      infos = λ k d n. others k n d;
      members = λ k d. ap (contains k) names_of ∙ contains-snoc k t (owners q.sections) d;
      own = λ k d. refl;
      mine =
          ap (λ w. local_cleanups w.cleanups) vars
          ∙ ap (λ w. local_cleanups w.cleanups) was
          ∙ r.own t;
      ran = ran ∙ r.ran;
    } in
    let within : contains t (owners p.sections) ≡ true =
      ap (contains t) names_of ∙ contains-last t (owners q.sections) in
    let fresh : w.nesting ≡ 1 = ap (λ n. (n + 1) % 2 ^ 32) (ap (λ w. w.nesting) was ∙ o.nested) in
    let inside : Inside (v.thread t) t = record {
      critical = ap (λ w. w.critical) vars;
      allocated = ap (λ w. w.critical_alloc) vars ∙ ap (λ w. w.critical_alloc) was ∙ a.allocated;
      nested = subst (λ w. 1 ≤ w.nesting) (sym vars) (omega (arith, fresh));
    } in
    let check : check_invariants v t ≡ ok tt =
      check_invariants-passes v p.sections t moved.chain moved.newest moved.count
        (inr (inside.critical, within)) in
    (
      v,
      enter_first-prepared s u t a ins check,
      p,
      later here (enter t m),
      Around-Represents v p t (Moved-Around s v q p t moved (Represents-Around s q t r))
          (Settled-in v p t within inside),
      refl,
      ap (λ w. w.nesting) vars ∙ fresh ∙ sym (ap (λ n. n + 1) o.nested),
      moved.threads,
    )

with_alloc-nesting :
    (s : Sections) (t : ℕ) → ((with_alloc s t).thread t).nesting ≡ (s.thread t).nesting
unfolding allocate
with_alloc-nesting s t = ap (λ w. w.nesting) (update-same s.thread t _)

with_alloc-others : (s : Sections) (t k : ℕ) → k ≢ t → (with_alloc s t).thread k ≡ s.thread k
unfolding allocate
with_alloc-others s t k d = update-other s.thread t k _ d

outside-Opened :
    (s : Sections) (q : Queue) (t : ℕ)
    → Represents s q
    → contains t (owners q.sections) ≡ false
    → Opened s q t
outside-Opened s q t r m = elim (r.outside t m).idle [
  | inl none_yet ↦
      let (r', ready) = allocate-Represents s q t r m none_yet in
      let (u, e, p, w, x, b, d, o) = prepared-Opened (with_alloc s t) q t r' m ready in
      (
        u,
        enter_first-allocate s t none_yet ∙ e,
        p,
        w,
        x,
        b,
        d ∙ ap (λ n. n + 1) (with_alloc-nesting s t),
        λ k n. o k n ∙ with_alloc-others s t k n,
      )
  | inr (alloc, live, cs) ↦
      prepared-Opened s q t r m (record { allocated = alloc; live = live; cleanups = cs })
]

abbrev deeper : Sections → ℕ → Sections
deeper s t = set_thread s t (record (s.thread t) { nesting = ((s.thread t).nesting + 1) % 2 ^ 32 })

enter_critical-nested :
    (s : Sections) (t ci : ℕ)
    → (s.thread t).critical ≡ some ci
    → enter_critical s t ≡ ok (deeper s t)
unfolding enter_critical
enter_critical-nested s t ci e =
    subst (λ m. elim m [ some ci ↦ ok (deeper s t) | none ↦ enter_first s t ] ≡ ok (deeper s t))
      (sym e) refl

enter_critical-first :
    (s : Sections) (t : ℕ) → (s.thread t).critical ≡ none → enter_critical s t ≡ enter_first s t
unfolding enter_critical
enter_critical-first s t e =
    subst (λ m. elim m [ some ci ↦ ok (deeper s t) | none ↦ enter_first s t ] ≡ enter_first s t)
      (sym e) refl

-- For a state that stands for a queue, `enter_critical` by a thread that is less than 2 ^ 32 - 1 deep
-- in its section throws nothing, and gives a state that stands for a queue that steps lead to. This is
-- the same queue if the thread was in a section, and otherwise the one with a section of the thread
-- behind the others. The thread is one deeper in its section, and no other thread is.
pub enter_critical-Reach :
    (s : Sections) (q : Queue) (t : ℕ)
    → Represents s q
    → (s.thread t).nesting + 1 < 2 ^ 32
    → (u : Sections) × (enter_critical s t ≡ ok u)
      × (p : Queue) × Reach q [] p
      × Represents u p
      × Entering s u q p t
enter_critical-Reach s q t r n = elim (Bool-cases (contains t (owners q.sections))) [
  | inl m ↦
      let i = r.inside t m in
      let v = record (s.thread t) { nesting = ((s.thread t).nesting + 1) % 2 ^ 32 } in
      let here : (deeper s t).thread t ≡ v = update-same s.thread t v in
      let inside : Inside v t = record {
        critical = i.critical;
        allocated = i.allocated;
        nested = omega (arith, n);
      } in
      (
        deeper s t,
        enter_critical-nested s t t i.critical,
        q,
        Reach.here,
        Around-Represents (deeper s t) q t (Around-own s q t v refl (Represents-Around s q t r))
            (Settled-in (deeper s t) q t m (subst (λ w. Inside w t) (sym here) inside)),
        record {
          queue = inl (m, refl);
          nesting =
              nesting-one_more s.thread (deeper s t).thread t
                (ap (λ w. w.nesting) here ∙ omega (arith, n))
                (λ k d. update-other s.thread t k v d);
        },
      )
  | inr m ↦
      let (u, e, p, w, x, b, d, o) = outside-Opened s q t r m in
      (
        u,
        enter_critical-first s t (r.outside t m).critical ∙ e,
        p,
        w,
        x,
        record { queue = inr (m, b); nesting = nesting-one_more s.thread u.thread t d o },
      )
]
