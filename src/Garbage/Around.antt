-- ===== src/Garbage/Around.antt =====
-- The states of jmvcc/garbage.cc in which one thread is in the middle of a function.
use libjmvcc.Base.{
  ℕ, ◌≡◌, ◌≢◌, refl, ap, ◌∙◌, sym, subst, true, false, arith, none, contains, Once, ◌==◌, update,
  update-same, update-other, length, Bool-cases, inl, inr, ==→eq, ==→ne,
}
use libjmvcc.Garbage.{Sections, Thread, local_cleanups}
use libjmvcc.Garbage.Queue.{Queue, owners}
use libjmvcc.Garbage.Chain.{names, last_or, Linked}
use libjmvcc.Garbage.Represents.{Inside, Outside, Represents}

-- What `Represents` says, the variables of thread `t` aside.
pub record Around (s : Sections) (q : Queue) (t : ℕ) : Type 0 where
  pub chain : Linked none q.sections none s.info
  pub newest : s.newest_ci ≡ last_or none q.sections
  pub once : Once (owners q.sections)
  pub count : s.num_in_critical ≡ length q.sections
  pub inside : (k : ℕ) → k ≢ t → contains k (owners q.sections) ≡ true → Inside (s.thread k) k
  pub outside :
      (k : ℕ) → k ≢ t → contains k (owners q.sections) ≡ false → Outside (s.thread k) (s.info k) k
  pub own : (k : ℕ) → local_cleanups (s.thread k).cleanups ≡ names (q.own k)
  pub ran : s.ran ≡ names q.ran

pub Represents-Around : (s : Sections) (q : Queue) (t : ℕ) → Represents s q → Around s q t
Represents-Around s q t r = record {
  chain = r.chain;
  newest = r.newest;
  once = r.once;
  count = r.count;
  inside = λ k d m. r.inside k m;
  outside = λ k d m. r.outside k m;
  own = r.own;
  ran = r.ran;
}

-- The thread's variables are those of a thread in a section of the list, or in none.
pub record Settled (s : Sections) (q : Queue) (t : ℕ) : Type 0 where
  pub inside : contains t (owners q.sections) ≡ true → Inside (s.thread t) t
  pub outside : contains t (owners q.sections) ≡ false → Outside (s.thread t) (s.info t) t

pub Settled-in :
    (s : Sections) (q : Queue) (t : ℕ)
    → contains t (owners q.sections) ≡ true
    → Inside (s.thread t) t
    → Settled s q t
Settled-in s q t m i = record { inside = λ n. i; outside = λ n. absurd (ground (arith, m, n)) }

pub Settled-out :
    (s : Sections) (q : Queue) (t : ℕ)
    → contains t (owners q.sections) ≡ false
    → Outside (s.thread t) (s.info t) t
    → Settled s q t
Settled-out s q t m i = record { inside = λ n. absurd (ground (arith, m, n)); outside = λ n. i }

pub Around-Represents :
    (s : Sections) (q : Queue) (t : ℕ) → Around s q t → Settled s q t → Represents s q
Around-Represents s q t r e = record {
  chain = r.chain;
  newest = r.newest;
  once = r.once;
  count = r.count;
  inside = λ k m. elim (Bool-cases (k == t)) [
    | inl h ↦
        subst (λ k. Inside (s.thread k) k) (sym (==→eq k t h))
          (e.inside (subst (λ k. contains k (owners q.sections) ≡ true) (==→eq k t h) m))
    | inr h ↦ r.inside k (==→ne k t h) m
  ];
  outside = λ k m. elim (Bool-cases (k == t)) [
    | inl h ↦
        subst (λ k. Outside (s.thread k) (s.info k) k) (sym (==→eq k t h))
          (e.outside (subst (λ k. contains k (owners q.sections) ≡ false) (==→eq k t h) m))
    | inr h ↦ r.outside k (==→ne k t h) m
  ];
  own = r.own;
  ran = r.ran;
}

-- Thread `t` takes the state `s`, which stands for `q`, to `u` and `p`: no other thread notices.
pub record Moved (s u : Sections) (q p : Queue) (t : ℕ) : Type 0 where
  pub chain : Linked none p.sections none u.info
  pub newest : u.newest_ci ≡ last_or none p.sections
  pub once : Once (owners p.sections)
  pub count : u.num_in_critical ≡ length p.sections
  pub threads : (k : ℕ) → k ≢ t → u.thread k ≡ s.thread k
  pub infos : (k : ℕ) → k ≢ t → contains k (owners q.sections) ≡ false → u.info k ≡ s.info k
  pub members : (k : ℕ) → k ≢ t → contains k (owners p.sections) ≡ contains k (owners q.sections)
  pub own : (k : ℕ) → k ≢ t → names (p.own k) ≡ names (q.own k)
  pub mine : local_cleanups (u.thread t).cleanups ≡ names (p.own t)
  pub ran : u.ran ≡ names p.ran

pub Moved-Around :
    (s u : Sections) (q p : Queue) (t : ℕ) → Moved s u q p t → Around s q t → Around u p t
Moved-Around s u q p t m r = record {
  chain = m.chain;
  newest = m.newest;
  once = m.once;
  count = m.count;
  inside = λ k d w.
      subst (λ v. Inside v k) (sym (m.threads k d)) (r.inside k d (sym (m.members k d) ∙ w));
  outside = λ k d w.
      let n = sym (m.members k d) ∙ w in
      subst (λ v. Outside v (u.info k) k) (sym (m.threads k d))
        (subst (λ i. Outside (s.thread k) i k) (sym (m.infos k d n)) (r.outside k d n));
  own = λ k. elim (Bool-cases (k == t)) [
    | inl h ↦
        subst (λ k. local_cleanups (u.thread k).cleanups ≡ names (p.own k)) (sym (==→eq k t h))
          m.mine
    | inr h ↦
        let d = ==→ne k t h in
        ap (λ v. local_cleanups v.cleanups) (m.threads k d) ∙ r.own k ∙ sym (m.own k d)
  ];
  ran = m.ran;
}

-- The thread changes its own variables only.
pub Around-own :
    (s : Sections) (q : Queue) (t : ℕ) (v : Thread)
    → local_cleanups v.cleanups ≡ local_cleanups (s.thread t).cleanups
    → Around s q t
    → Around (record s { thread = update s.thread t v }) q t
Around-own s q t v e r =
    Moved-Around s (record s { thread = update s.thread t v }) q q t
      (record {
        chain = r.chain;
        newest = r.newest;
        once = r.once;
        count = r.count;
        threads = λ k d. update-other s.thread t k v d;
        infos = λ k d m. refl;
        members = λ k d. refl;
        own = λ k d. refl;
        mine = ap (λ w. local_cleanups w.cleanups) (update-same s.thread t v) ∙ e ∙ r.own t;
        ran = r.ran;
      })
      r
