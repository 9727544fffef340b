-- ===== src/Garbage/HandOver.antt =====
-- `hand_over` of jmvcc/garbage.cc, on a state that stands for a queue of sections.
use libjmvcc.Base.{
  ℕ, ◌≡◌, ◌≢◌, refl, ap, ap₂, ◌∙◌, sym, true, false, List, [], ◌∷◌, ◌++◌, arith, Option, none, some,
  contains, update, update-same, update-other, inl, inr, snoc-cases, ok,
}
use libjmvcc.Garbage.{
  Sections, Thread, CriticalInfo, local_cleanups, set_info, set_thread, hand_over,
  take_cleanups_from,
}
use libjmvcc.Garbage
use libjmvcc.Garbage.Queue.{Scheduled, Open, Queue, Step, Reach, here, later, owners}
use libjmvcc.Garbage.Queue
use libjmvcc.Garbage.Chain.{names, names-nil, last_or, last_or-append, names-take_cleanups_from}
use libjmvcc.Garbage.Safety.{owners-newest}
use libjmvcc.Garbage.Around.{Around, Moved, Moved-Around}
use libjmvcc.Garbage.Newest.{Linked-newest_cleanups, Moved-newest}

-- The thread's own list is handed over, and only that has changed of its variables.
pub record HandedOver (s u : Sections) (q p : Queue) (t : ℕ) : Type 0 where
  pub run : hand_over s t (s.thread t).cleanups s.newest_ci ≡ ok u
  pub reach : Reach q [] p
  pub around : Around u p t
  pub handed : p.own t ≡ []
  pub members : owners p.sections ≡ owners q.sections
  pub critical : (u.thread t).critical ≡ (s.thread t).critical
  pub allocated : (u.thread t).critical_alloc ≡ (s.thread t).critical_alloc
  pub nested : (u.thread t).nesting ≡ (s.thread t).nesting
  pub threads : (k : ℕ) → k ≢ t → u.thread k ≡ s.thread k

with_list :
    (s : Sections) (q : Queue) (t : ℕ) (cs : List ℕ) (b : List Open) (x : Open)
    → Around s q t
    → contains t (owners q.sections) ≡ true
    → (s.thread t).cleanups ≡ some cs
    → q.sections ≡ b ++ x ∷ []
    → (u : Sections) × (p : Queue) × HandedOver s u q p t
unfolding Garbage.hand_over local_cleanups
with_list s q t cs b x r m l e =
    let ds = take_cleanups_from x.cleanups (q.own t) in
    let p = record q { sections = b ++ record x { cleanups = ds } ∷ []; own = update q.own t [] } in
    let last : s.newest_ci ≡ some x.owner =
      r.newest ∙ ap (last_or none) e ∙ last_or-append none b (x ∷ []) in
    let v = record (s.thread t) { cleanups = some [] } in
    let i = record (s.info x.owner) {
      cleanups = take_cleanups_from (s.info x.owner).cleanups cs;
    } in
    let u = set_thread (set_info s x.owner i) t v in
    let vars : u.thread t ≡ v = update-same s.thread t v in
    let mine : cs ≡ names (q.own t) = sym (ap local_cleanups l) ∙ r.own t in
    let names_are : take_cleanups_from (s.info x.owner).cleanups cs ≡ names ds =
      ap₂ take_cleanups_from (Linked-newest_cleanups s.info q.sections b x r.chain e) mine
      ∙ sym (names-take_cleanups_from x.cleanups (q.own t)) in
    let moved : Moved s u q p t =
      Moved-newest s u q p t b x ds r e refl refl refl
        (ap (λ l. update s.info x.owner (record (s.info x.owner) { cleanups = l })) names_are)
        (λ k d. update-other s.thread t k v d) (λ k d. ap names (update-other q.own t k [] d))
        (ap (λ w. local_cleanups w.cleanups) vars ∙ sym (ap names (update-same q.own t [])))
        r.ran in
    (
      u,
      p,
      record {
        run = ap₂ (hand_over s t) l last;
        reach = later here (Queue.hand_over t b x m e);
        around = Moved-Around s u q p t moved r;
        handed = update-same q.own t [];
        members = owners-newest b x ds ∙ sym (ap owners e);
        critical = ap (λ w. w.critical) vars;
        allocated = ap (λ w. w.critical_alloc) vars;
        nested = ap (λ w. w.nesting) vars;
        threads = λ k d. update-other s.thread t k v d;
      },
    )

-- With a section in the list, `hand_over` is no step or one of the queue.
pub hand_over-HandedOver :
    (s : Sections) (q : Queue) (t : ℕ) (l : Option (List ℕ))
    → Around s q t
    → contains t (owners q.sections) ≡ true
    → (s.thread t).cleanups ≡ l
    → (u : Sections) × (p : Queue) × HandedOver s u q p t
unfolding hand_over local_cleanups
hand_over-HandedOver s q t none r m l = (
  s,
  q,
  record {
    run = ap (λ l. hand_over s t l s.newest_ci) l;
    reach = here;
    around = r;
    handed = names-nil (q.own t) (sym (r.own t) ∙ ap local_cleanups l);
    members = refl;
    critical = refl;
    allocated = refl;
    nested = refl;
    threads = λ k d. refl;
  },
)
hand_over-HandedOver s q t (some cs) r m l = elim (snoc-cases q.sections) [
  | inl e ↦ absurd (ground (arith, ap (λ l. contains t (owners l)) e ∙ refl {a = false}, m))
  | inr (b, x, e) ↦ with_list s q t cs b x r m l e
]
