-- ===== src/Garbage/Schedule.antt =====
-- `schedule_cleanup` of jmvcc/garbage.cc, as a step of the queue of sections.
use libjmvcc.Base.{
  ℕ, ◌≡◌, ◌≢◌, refl, ap, ◌∙◌, sym, subst, true, false, List, [], ◌∷◌, ◌++◌, Option, none, some,
  contains, contains-append_neither, contains-neither, update, update-same, update-other,
  Bool-cases, inl, inr, snoc-cases,
}
use libjmvcc.Garbage.{Sections, Thread, CriticalInfo, local_cleanups, set_info, schedule_cleanup}
use libjmvcc.Garbage
use libjmvcc.Garbage.Queue.{
  Scheduled, Open, Queue, Step, schedule_inside, schedule_outside, schedule_now, owners,
}
use libjmvcc.Garbage.Chain.{names, last_or, owners-append, last_or-append, names-append}
use libjmvcc.Garbage.Safety.{owners-newest}
use libjmvcc.Garbage.Represents.{Inside, Outside, Represents}
use libjmvcc.Garbage.Around.{
  Moved, Moved-Around, Settled-in, Settled-out, Around-Represents, Represents-Around,
}
use libjmvcc.Garbage.Newest.{Linked-newest_cleanups, Moved-newest}

abbrev scheduled : Queue → ℕ → Scheduled
scheduled q c = record { cleanup = c; waits = owners q.sections }

abbrev with_scheduled : Sections → ℕ → ℕ → Sections
with_scheduled s t c =
    let cs = some (local_cleanups (s.thread t).cleanups ++ c ∷ []) in
    record s { thread = update s.thread t (record (s.thread t) { cleanups = cs }) }

schedule_in_section :
    (s : Sections) (t c ci : ℕ)
    → (s.thread t).critical ≡ some ci
    → schedule_cleanup s t c ≡ with_scheduled s t c
unfolding schedule_cleanup
schedule_in_section s t c ci e =
    subst
      (λ m.
        elim m [ none ↦ Garbage.schedule_outside s s.newest_ci c | some ci ↦ with_scheduled s t c ]
        ≡ with_scheduled s t c)
      (sym e) refl

schedule_out_of_section :
    (s : Sections) (t c : ℕ) (n : Option ℕ)
    → (s.thread t).critical ≡ none
    → s.newest_ci ≡ n
    → schedule_cleanup s t c ≡ Garbage.schedule_outside s n c
unfolding schedule_cleanup
schedule_out_of_section s t c n e f =
    subst
      (λ m.
        elim m [ none ↦ Garbage.schedule_outside s s.newest_ci c | some ci ↦ with_scheduled s t c ]
        ≡ Garbage.schedule_outside s n c)
      (sym e) (ap (λ n. Garbage.schedule_outside s n c) f)

inside-refines :
    (s : Sections) (q : Queue) (t c : ℕ)
    → Represents s q
    → contains t (owners q.sections) ≡ true
    → (p : Queue) × Step q (c ∷ []) p × Represents (schedule_cleanup s t c) p
unfolding local_cleanups
inside-refines s q t c r m =
    let i = r.inside t m in
    let p = record q { own = update q.own t (q.own t ++ scheduled q c ∷ []) } in
    let v = record (s.thread t) {
      cleanups = some (local_cleanups (s.thread t).cleanups ++ c ∷ []);
    } in
    let u = record s { thread = update s.thread t v } in
    let same : schedule_cleanup s t c ≡ u = schedule_in_section s t c t i.critical in
    let moved : Moved s u q p t = record {
      chain = r.chain;
      newest = r.newest;
      once = r.once;
      count = r.count;
      threads = λ k d. update-other s.thread t k v d;
      infos = λ k d w. refl;
      members = λ k d. refl;
      own = λ k d. ap names (update-other q.own t k _ d);
      mine =
          ap (λ w. local_cleanups w.cleanups) (update-same s.thread t v)
          ∙ ap (λ cs. cs ++ c ∷ []) (r.own t)
          ∙ sym (names-append (q.own t) (scheduled q c ∷ []))
          ∙ sym (ap names (update-same q.own t (q.own t ++ scheduled q c ∷ [])));
      ran = r.ran;
    } in
    let kept : Inside (u.thread t) t =
      subst (λ w. Inside w t) (sym (update-same s.thread t v))
        (record { critical = i.critical; allocated = i.allocated; nested = i.nested }) in
    (
      p,
      schedule_inside t c m,
      subst (λ u. Represents u p) (sym same)
          (Around-Represents u p t (Moved-Around s u q p t moved (Represents-Around s q t r))
            (Settled-in u p t m kept)),
    )

outside-refines :
    (s : Sections) (q : Queue) (t c : ℕ) (b : List Open) (x : Open)
    → Represents s q
    → contains t (owners q.sections) ≡ false
    → q.sections ≡ b ++ x ∷ []
    → (p : Queue) × Step q (c ∷ []) p × Represents (schedule_cleanup s t c) p
unfolding Garbage.schedule_outside
outside-refines s q t c b x r m e =
    let o = r.outside t m in
    let cs = x.cleanups ++ scheduled q c ∷ [] in
    let p = record q { sections = b ++ record x { cleanups = cs } ∷ [] } in
    let last : s.newest_ci ≡ some x.owner =
      r.newest ∙ ap (last_or none) e ∙ last_or-append none b (x ∷ []) in
    let u = Garbage.schedule_outside s (some x.owner) c in
    let same : schedule_cleanup s t c ≡ u =
      schedule_out_of_section s t c (some x.owner) o.critical last in
    let names_are : (s.info x.owner).cleanups ++ c ∷ [] ≡ names cs =
      ap (λ l. l ++ c ∷ []) (Linked-newest_cleanups s.info q.sections b x r.chain e)
      ∙ sym (names-append x.cleanups (scheduled q c ∷ [])) in
    let apart : t ≢ x.owner =
      (contains-neither t x.owner []
        (contains-append_neither t (owners b) (x.owner ∷ [])
          (subst (λ ks. contains t ks ≡ false) (ap owners e ∙ owners-append b (x ∷ [])) m)).1).0 in
    let moved : Moved s u q p t =
      Moved-newest s u q p t b x cs (Represents-Around s q t r) e refl refl refl
        (ap (λ l. update s.info x.owner (record (s.info x.owner) { cleanups = l })) names_are)
        (λ k d. refl) (λ k d. refl) (r.own t) r.ran in
    let away : contains t (owners p.sections) ≡ false =
      ap (contains t) (owners-newest b x cs ∙ sym (ap owners e)) ∙ m in
    (
      p,
      schedule_outside c b x e,
      subst (λ u. Represents u p) (sym same)
          (Around-Represents u p t (Moved-Around s u q p t moved (Represents-Around s q t r)) (
            Settled-out u p t away (
              subst (λ i. Outside (s.thread t) i t) (sym (update-other s.info x.owner t _ apart))
                o))),
    )

now-refines :
    (s : Sections) (q : Queue) (t c : ℕ)
    → Represents s q
    → q.sections ≡ []
    → (p : Queue) × Step q (c ∷ []) p × Represents (schedule_cleanup s t c) p
unfolding Garbage.schedule_outside
now-refines s q t c r e =
    let o = r.outside t (ap (λ l. contains t (owners l)) e) in
    let last : s.newest_ci ≡ none = r.newest ∙ ap (last_or none) e in
    let same : schedule_cleanup s t c ≡ record s { ran = s.ran ++ c ∷ [] } =
      schedule_out_of_section s t c none o.critical last in
    let p = record q { ran = q.ran ++ record { cleanup = c; waits = [] } ∷ [] } in
    (
      p,
      schedule_now c e,
      subst (λ u. Represents u p) (sym same)
          (record {
            chain = r.chain;
            newest = r.newest;
            once = r.once;
            count = r.count;
            inside = r.inside;
            outside = r.outside;
            own = r.own;
            ran =
                ap (λ l. l ++ c ∷ []) r.ran
                ∙ sym (names-append q.ran (record { cleanup = c; waits = [] } ∷ []));
          }),
    )

-- For a state that stands for a queue, `schedule_cleanup` gives one that stands for the queue after
-- a step: the cleanup waits for the sections that are open, and runs at once where there is none.
pub schedule_cleanup-Step :
    (s : Sections) (q : Queue) (t c : ℕ)
    → Represents s q
    → (p : Queue) × Step q (c ∷ []) p × Represents (schedule_cleanup s t c) p
schedule_cleanup-Step s q t c r = elim (Bool-cases (contains t (owners q.sections))) [
  | inl m ↦ inside-refines s q t c r m
  | inr m ↦ elim (snoc-cases q.sections) [
    | inl e ↦ now-refines s q t c r e
    | inr (b, x, e) ↦ outside-refines s q t c b x r m e
  ]
]
