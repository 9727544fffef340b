-- ===== src/Garbage/Departure.antt =====
-- `leave_critical` of jmvcc/garbage.cc, for a section anywhere in the queue.
use libjmvcc.Base.{
  ℕ, ◌+◌, ◌-◌, ◌≤◌, ◌≡◌, ◌≢◌, refl, ap, ◌∙◌, sym, subst, true, false, [], arith, some, contains,
  ◌==◌, update-same, update-other, Bool-cases, inl, inr, ok, ltb,
}
use libjmvcc.Garbage.{Sections, leave_critical}
use libjmvcc.Garbage.Queue.{Queue, Reach, here, owners}
use libjmvcc.Garbage.Leave.{unnested, leave_critical_last}
use libjmvcc.Garbage.Represents.{Inside, Represents}
use libjmvcc.Garbage.Around.{Around-own, Settled-in, Around-Represents, Represents-Around}
use libjmvcc.Garbage.Removal.{leave_outermost}
use libjmvcc.Garbage.Depth.{Leaving, nesting-one_more}
use libjmvcc.Garbage.End.{Last}

leave_critical-nested :
    (s : Sections) (t ci : ℕ)
    → (s.thread t).critical ≡ some ci
    → 2 ≤ (s.thread t).nesting
    → leave_critical s t ≡ ok (unnested s t)
unfolding leave_critical
leave_critical-nested s t ci c n =
    let one : ((s.thread t).nesting == 0) ≡ false = ground (arith, n) in
    let more : ltb 0 ((s.thread t).nesting - 1) ≡ true = ground (arith, n) in simp (one, more, c)

-- For a thread that is in a section, `leave_critical` throws nothing, and gives a state that stands
-- for a queue that steps lead to. The thread is one less deep in its section, and no other thread is.
-- If it was there more than once, the queue is the same. If it was there once, wherever its section
-- stands, the open sections are those of the other threads, in their order, and the thread's own list
-- is handed over.
pub leave_critical-Reach :
    (s : Sections) (q : Queue) (t : ℕ)
    → Represents s q
    → contains t (owners q.sections) ≡ true
    → (u : Sections) × (leave_critical s t ≡ ok u)
      × (p : Queue) × Reach q [] p
      × Represents u p
      × Leaving s u q p t
leave_critical-Reach s q t r m =
    let i = r.inside t m in
    let s' = unnested s t in
    let v = record (s.thread t) { nesting = (s.thread t).nesting - 1 } in
    let vars : s'.thread t ≡ v = update-same s.thread t v in
    let others : (k : ℕ) → k ≢ t → s'.thread k ≡ s.thread k =
      λ k d. update-other s.thread t k v d in
    let around = Around-own s q t v refl (Represents-Around s q t r) in
    elim (Bool-cases (ltb 0 v.nesting)) [
      | inl h ↦
          let inside : Inside v t = record {
            critical = i.critical;
            allocated = i.allocated;
            nested = ground (arith, h);
          } in
          let less : (s.thread t).nesting ≡ (s'.thread t).nesting + 1 =
            sym (ap (λ w. w.nesting + 1) vars ∙ ground (arith, h)) in
          (
            s',
            leave_critical-nested s t t i.critical (ground (arith, h)),
            q,
            here,
            Around-Represents s' q t around
                (Settled-in s' q t m (subst (λ w. Inside w t) (sym vars) inside)),
            record {
              queue = inl (ground (arith, h), refl);
              nesting = nesting-one_more s'.thread s.thread t less (λ k d. sym (others k d));
            },
          )
      | inr h ↦
          let once : (s.thread t).nesting ≡ 1 = ground (arith, h, i.nested) in
          let last : Last s' t = record {
            allocated = ap (λ w. w.critical_alloc) vars ∙ i.allocated;
            nested = ap (λ w. w.nesting) vars ∙ ap (λ n. n - 1) once;
          } in
          let (u, run, p, w, x, d, out, k) = leave_outermost s' q t around m last in
          let less : (s.thread t).nesting ≡ (u.thread t).nesting + 1 =
            once ∙ sym (ap (λ n. n + 1) (x.outside t out).nested) in
          (
            u,
            leave_critical_last s t t once i.critical ∙ run,
            p,
            w,
            x,
            record {
              queue = inr (once, d);
              nesting = nesting-one_more u.thread s.thread t less (λ j n. sym (k j n ∙ others j n));
            },
          )
    ]
