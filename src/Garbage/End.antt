-- ===== src/Garbage/End.antt =====
-- `leave_critical` of jmvcc/garbage.cc, as steps of the queue of sections.
use libjmvcc.Base.{
  suc, ℕ, ◌+◌, ◌-◌, ◌≡◌, ◌≢◌, refl, ap, ap₂, ◌∙◌, sym, subst, true, false, List, [], ◌∷◌, ◌++◌,
  arith, Option, none, some, contains, contains-ne, Once, update, update-same, update-other, length,
  inl, inr, ok,
}
use libjmvcc.Garbage.{
  Sections, CriticalInfo, local_cleanups, hand_over, remove, cleanup, leave_last, check_invariants,
}
use libjmvcc.Garbage.Queue.{Scheduled, Open, Queue, owners, released, release_all}
use libjmvcc.Garbage.Safety.{owners-release_all}
use libjmvcc.Garbage.Leave.{after_leave}
use libjmvcc.Garbage.Chain.{
  names, last_or, Linked, Linked-agree, Linked-release_all, names-released,
}
use libjmvcc.Garbage.Unlink.{closed}
use libjmvcc.Garbage.Represents.{Represents, check_invariants-passes}
use libjmvcc.Garbage.Around.{Around, Moved, Moved-Around, Settled-out, Around-Represents}

-- The state at the first `check_invariants`.
abbrev out_of_section : Sections → ℕ → Sections
out_of_section s t = record s {
  num_in_critical = s.num_in_critical - 1;
  thread = update s.thread t (record (s.thread t) { critical = none });
}

leave_last-checked :
    (s s1 s2 : Sections) (t : ℕ)
    → hand_over s t (s.thread t).cleanups s.newest_ci ≡ ok s1
    → remove s1 t ≡ ok s2
    → check_invariants (out_of_section s2 t) t ≡ ok tt
    → cleanup (out_of_section s2 t) ((out_of_section s2 t).thread t).critical_alloc
      ≡ ok (after_leave s2 t t)
    → check_invariants (after_leave s2 t t) t ≡ ok tt
    → leave_last s t t ≡ ok (after_leave s2 t t)
unfolding leave_last
leave_last-checked s s1 s2 t h r c a d = simp (h, r, c, a, d)

-- What `remove` leaves: the sections `l`, and section `t` with the cleanups `cs`.
pub record Gone (s u : Sections) (q : Queue) (t : ℕ) (l : List Open) (cs : List ℕ) : Type 0 where
  pub run : remove s t ≡ ok u
  pub chain : Linked none l none u.info
  pub blank : u.info t ≡ closed cs
  pub others : (k : ℕ) → contains k (owners q.sections) ≡ false → u.info k ≡ s.info k
  pub newest : u.newest_ci ≡ last_or none l
  pub once : Once (owners l)
  pub away : contains t (owners l) ≡ false
  pub members : (k : ℕ) → k ≢ t → contains k (owners l) ≡ contains k (owners q.sections)
  pub size : length q.sections ≡ length l + 1
  pub threads : u.thread ≡ s.thread
  pub count : u.num_in_critical ≡ s.num_in_critical
  pub ran : u.ran ≡ s.ran

last_or-release_all :
    (k : ℕ) (pr : Option ℕ) (l : List Open) → last_or pr (release_all k l) ≡ last_or pr l
last_or-release_all k pr [] = refl
last_or-release_all k pr (x ∷ l) = last_or-release_all k (some x.owner) l

pub length-release_all : (k : ℕ) (l : List Open) → length (release_all k l) ≡ length l
length-release_all k [] = refl
length-release_all k (x ∷ l) = ap suc (length-release_all k l)

-- The queue once section `t` has ended.
abbrev pub ended : Queue → ℕ → List Open → List Scheduled → Queue
ended q t l ran = record q {
  sections = release_all t l;
  own = λ k. released t (q.own k);
  ran = ran;
}

abbrev without_cleanups : CriticalInfo → CriticalInfo
without_cleanups i = record i { cleanups = [] }

removal-Moved :
    (s u : Sections) (q : Queue) (t : ℕ) (l : List Open) (cs : List ℕ) (ran : List Scheduled)
    → Around s q t
    → Gone s u q t l cs
    → names ran ≡ names q.ran ++ cs
    → Moved s (after_leave u t t) q (ended q t l ran) t
removal-Moved s u q t l cs ran r g e =
    let v = after_leave u t t in
    let w = record (u.thread t) { critical = none } in
    let same : (k : ℕ) → contains k (owners l) ≡ true → v.info k ≡ u.info k =
      λ k m. update-other u.info t k _ (contains-ne k t (owners l) m g.away) in
    let mine : v.thread t ≡ w = update-same u.thread t w in
    let was : u.thread t ≡ s.thread t = ap (λ f. f t) g.threads in
    record {
      chain =
          Linked-release_all t none none v.info l
            (Linked-agree none none u.info v.info l same g.chain);
      newest = g.newest ∙ sym (last_or-release_all t none l);
      once = subst Once (sym (owners-release_all t l)) g.once;
      count = omega (arith, g.count, r.count, g.size, length-release_all t l);
      threads = λ k d. update-other u.thread t k w d ∙ ap (λ f. f k) g.threads;
      infos = λ k d m. update-other u.info t k _ d ∙ g.others k m;
      members = λ k d. ap (contains k) (owners-release_all t l) ∙ g.members k d;
      own = λ k d. names-released t (q.own k);
      mine =
          ap (λ w. local_cleanups w.cleanups) mine
          ∙ ap (λ w. local_cleanups w.cleanups) was
          ∙ r.own t
          ∙ sym (names-released t (q.own t));
      ran = ap₂ (λ a b. a ++ b) (g.ran ∙ r.ran) (ap (λ i. i.cleanups) g.blank) ∙ sym e;
    }

-- The variables of a thread that is at the end of its section.
pub record Last (s : Sections) (t : ℕ) : Type 0 where
  pub allocated : (s.thread t).critical_alloc ≡ some t
  pub nested : (s.thread t).nesting ≡ 0

pub removal-Represents :
    (s0 s u : Sections) (q : Queue) (t : ℕ) (l : List Open) (cs : List ℕ) (ran : List Scheduled)
    → hand_over s0 t (s0.thread t).cleanups s0.newest_ci ≡ ok s
    → Around s q t
    → Last s t
    → Gone s u q t l cs
    → names ran ≡ names q.ran ++ cs
    → (leave_last s0 t t ≡ ok (after_leave u t t))
      × Represents (after_leave u t t) (ended q t l ran)
      × ((k : ℕ) → k ≢ t → (after_leave u t t).thread k ≡ s.thread k)
unfolding cleanup
removal-Represents s0 s u q t l cs ran h r z g e =
    let v = after_leave u t t in
    let p = ended q t l ran in
    let w = record (u.thread t) { critical = none } in
    let mine : v.thread t ≡ w = update-same u.thread t w in
    let was : u.thread t ≡ s.thread t = ap (λ f. f t) g.threads in
    let m = removal-Moved s u q t l cs ran r g e in
    let out : (v.thread t).critical ≡ none = ap (λ w. w.critical) mine in
    let alloc : (u.thread t).critical_alloc ≡ some t =
      ap (λ w. w.critical_alloc) was ∙ z.allocated in
    let cleaned : cleanup (out_of_section u t) ((out_of_section u t).thread t).critical_alloc
        ≡ ok v =
      ap (cleanup (out_of_section u t)) (ap (λ w. w.critical_alloc) mine ∙ alloc) in
    let before : check_invariants (out_of_section u t) t ≡ ok tt =
      check_invariants-passes (out_of_section u t) l t g.chain g.newest
        (omega (arith, g.count, r.count, g.size)) (inl out) in
    let after : check_invariants v t ≡ ok tt =
      check_invariants-passes v p.sections t m.chain m.newest m.count (inl out) in
    let blank : v.info t ≡ closed [] = update-same u.info t _ ∙ ap without_cleanups g.blank in
    (
      leave_last-checked s0 s u t h g.run before cleaned after,
      Around-Represents v p t (Moved-Around s v q p t m r) (
          Settled-out v p t (ap (contains t) (owners-release_all t l) ∙ g.away) (record {
            critical = out;
            nested = ap (λ w. w.nesting) mine ∙ ap (λ w. w.nesting) was ∙ z.nested;
            idle = inr (
              ap (λ w. w.critical_alloc) mine ∙ alloc,
              ap (λ i. i.live) blank,
              ap (λ i. i.cleanups) blank,
            );
          })),
      m.threads,
    )
