-- ===== src/Garbage/Conserve.antt =====
-- The queue of the critical sections of jmvcc/garbage.cc loses no cleanup and doubles none.
use libjmvcc.Base.{
  ℕ, ◌+◌, ◌≡◌, ◌≢◌, refl, ap, ◌∙◌, sym, subst, true, false, List, [], ◌∷◌, ◌++◌, arith, contains,
  contains-ne, contains-append_neither, Once, Once-snoc, Once-skip, contains-skip, ◌==◌, update,
  update-other, inl, inr, total, total-append, Bool-cases, ==→eq, ==→ne,
}
use mathlib.Core.List.{append_assoc}
use libjmvcc.Garbage.{take_cleanups_from}
use libjmvcc.Garbage.Leave.{total-take_cleanups_from}
use libjmvcc.Garbage.Queue.{
  Scheduled, Open, Queue, Step, enter, schedule_inside, schedule_outside, schedule_now, hand_over,
  leave_oldest, leave_later, Reach, here, later, no_section, owners, released, release_all,
}
use libjmvcc.Garbage.Safety.{owners-release_all, owners-newest}
use libjmvcc.Garbage.Chain.{owners-append}
use libjmvcc.Garbage.Unlink.{merged}
use libjmvcc.Garbage.Totals.{
  Tidy, weigh, held_total, own_total, measure, total-released, held_total-append,
  held_total-release_all, own_total-append, own_total-released, own_total-update,
}

-- Section `x` ends, and the sections of `ks` stay.
ended-Tidy :
    (q : Queue) (x : Open) (ks : List ℕ) (l : List Open)
    → Tidy q
    → q.own x.owner ≡ []
    → owners l ≡ ks
    → Once ks
    → ((k : ℕ) → k ≢ x.owner → contains k ks ≡ contains k (owners q.sections))
    → Once (owners (release_all x.owner l))
      × ((k : ℕ)
          → contains k (owners (release_all x.owner l)) ≡ false
          → released x.owner (q.own k) ≡ [])
ended-Tidy q x ks l i o e once m =
    let same : owners (release_all x.owner l) ≡ ks = owners-release_all x.owner l ∙ e in
    (
      subst Once (sym same) once,
      λ k n. ap (released x.owner) (elim (Bool-cases (k == x.owner)) [
        | inl h ↦ ap q.own (==→eq k x.owner h) ∙ o
        | inr h ↦ i.own k (sym (m k (==→ne k x.owner h)) ∙ sym (ap (contains k) same) ∙ n)
      ]),
    )

-- The owners of a queue in which `p` and `x` are neighbours.
abbrev around : List Open → Open → List ℕ
around b p = owners b ++ p.owner ∷ []

owners-around :
    (b : List Open) (p x : Open) (a : List Open)
    → owners (b ++ p ∷ x ∷ a) ≡ around b p ++ x.owner ∷ owners a
owners-around b p x a =
    owners-append b (p ∷ x ∷ a) ∙ sym (append_assoc (owners b) (p.owner ∷ []) (x.owner ∷ owners a))

owners-merged :
    (b : List Open) (p x : Open) (a : List Open)
    → owners (b ++ merged p x ∷ a) ≡ around b p ++ owners a
owners-merged b p x a =
    owners-append b (merged p x ∷ a) ∙ sym (append_assoc (owners b) (p.owner ∷ []) (owners a))

own_after :
    (own : ℕ → List Scheduled) (t : ℕ) (cs : List Scheduled) (ks : List ℕ)
    → contains t ks ≡ true
    → ((k : ℕ) → contains k ks ≡ false → own k ≡ [])
    → (k : ℕ) → contains k ks ≡ false
    → update own t cs k ≡ []
own_after own t cs ks m f k n =
    update-other own t k cs (λ e. contains-ne t k ks m n (sym e)) ∙ f k n

pub Step-Tidy : {cs : List ℕ} {q p : Queue} → Step q cs p → Tidy q → Tidy p
Step-Tidy {q = q} (enter t m) i =
    let new : Open = record { owner = t; cleanups = [] } in
    let same : owners (q.sections ++ new ∷ []) ≡ owners q.sections ++ t ∷ [] =
      owners-append q.sections (new ∷ []) in
    record {
      once = subst Once (sym same) (Once-snoc (owners q.sections) t i.once m);
      own = λ k n.
          i.own k
            (contains-append_neither k (owners q.sections) (t ∷ [])
              (sym (ap (contains k) same) ∙ n)).0;
    }
Step-Tidy {q = q} (schedule_inside t c m) i = record {
  once = i.once;
  own = own_after q.own t _ (owners q.sections) m i.own;
}
Step-Tidy {q = q} (schedule_outside c b x e) i =
    let same = owners-newest b x _ ∙ sym (ap owners e) in
    record {
      once = subst Once (sym same) i.once;
      own = λ k n. i.own k (sym (ap (contains k) same) ∙ n);
    }
Step-Tidy {q = q} (schedule_now c e) i = record { once = i.once; own = i.own }
Step-Tidy {q = q} (hand_over t b x m e) i =
    let same = owners-newest b x _ ∙ sym (ap owners e) in
    record {
      once = subst Once (sym same) i.once;
      own = λ k n.
          own_after q.own t [] (owners q.sections) m i.own k (sym (ap (contains k) same) ∙ n);
    }
Step-Tidy {q = q} (leave_oldest x a e o) i =
    let z = subst (λ l. Once (owners l)) e i.once in
    let (once, own) =
      ended-Tidy q x (owners a) a i o refl z.1 (λ k d.
        contains-skip k x.owner [] (owners a) d ∙ sym (ap (λ l. contains k (owners l)) e)) in
    record { once = once; own = own }
Step-Tidy {q = q} (leave_later b p x a e o) i =
    let full = ap owners e ∙ owners-around b p x a in
    let (z, _) = Once-skip x.owner (around b p) (owners a) (subst Once full i.once) in
    let (once, own) =
      ended-Tidy q x (around b p ++ owners a) (b ++ merged p x ∷ a) i o (owners-merged b p x a) z
        (λ k d. contains-skip k x.owner (around b p) (owners a) d ∙ sym (ap (contains k) full)) in
    record { once = once; own = own }

-- Every step adds to the cleanups that have run or wait those that it schedules.
module _ (w : ℕ → ℕ) where
  held_newest :
      (q : Queue) (b : List Open) (x : Open) (cs : List Scheduled)
      → q.sections ≡ b ++ x ∷ []
      → held_total w (b ++ record x { cleanups = cs } ∷ []) + total (weigh w) x.cleanups
        ≡ held_total w q.sections + total (weigh w) cs
  held_newest q b x cs e = omega (
    arith,
    held_total-append w b (record x { cleanups = cs } ∷ []),
    ap (held_total w) e,
    held_total-append w b (x ∷ []),
  )

  owned :
      (q : Queue) (own : ℕ → List Scheduled) (b : List Open) (x : Open) (cs : List Scheduled)
      → q.sections ≡ b ++ x ∷ []
      → own_total w own (owners (b ++ record x { cleanups = cs } ∷ []))
        ≡ own_total w own (owners q.sections)
  owned q own b x cs e = ap (own_total w own) (owners-newest b x cs ∙ sym (ap owners e))

  own_left :
      (q : Queue) (x : Open) (l : List Open) (ks ls : List ℕ)
      → q.own x.owner ≡ []
      → owners q.sections ≡ ks ++ x.owner ∷ ls
      → owners l ≡ ks ++ ls
      → own_total w (λ t. released x.owner (q.own t)) (owners (release_all x.owner l))
        ≡ own_total w q.own (owners q.sections)
  own_left q x l ks ls o e f =
      ap (own_total w (λ t. released x.owner (q.own t))) (owners-release_all x.owner l ∙ f)
      ∙ own_total-released w x.owner q.own (ks ++ ls)
      ∙ omega (
        arith,
        own_total-append w q.own ks ls,
        ap (own_total w q.own) e,
        own_total-append w q.own ks (x.owner ∷ ls),
        ap (total (weigh w)) o,
      )

  pub Step-measure :
      {cs : List ℕ} {q p : Queue} → Step q cs p → Tidy q → measure w p ≡ measure w q + total w cs
  Step-measure {q = q} (enter t m) i =
      let new : Open = record { owner = t; cleanups = [] } in
      omega (
        arith,
        held_total-append w q.sections (new ∷ []),
        ap (own_total w q.own) (owners-append q.sections (new ∷ [])),
        own_total-append w q.own (owners q.sections) (t ∷ []),
        ap (total (weigh w)) (i.own t m),
      )
  Step-measure {q = q} (schedule_inside t c m) i =
      let new : Scheduled = record { cleanup = c; waits = owners q.sections } in
      omega (
        arith,
        own_total-update w q.own t (q.own t ++ new ∷ []) (owners q.sections) i.once m,
        total-append (weigh w) (q.own t) (new ∷ []),
      )
  Step-measure {q = q} (schedule_outside c b x e) i =
      let new : Scheduled = record { cleanup = c; waits = owners q.sections } in
      omega (
        arith,
        held_newest q b x (x.cleanups ++ new ∷ []) e,
        total-append (weigh w) x.cleanups (new ∷ []),
        owned q q.own b x (x.cleanups ++ new ∷ []) e,
      )
  Step-measure {q = q} (schedule_now c e) i =
      let new : Scheduled = record { cleanup = c; waits = [] } in
      omega (arith, total-append (weigh w) q.ran (new ∷ []))
  Step-measure {q = q} (hand_over t b x m e) i =
      let cs = take_cleanups_from x.cleanups (q.own t) in
      omega (
        arith,
        held_newest q b x cs e,
        total-take_cleanups_from (weigh w) x.cleanups (q.own t),
        owned q (update q.own t []) b x cs e,
        own_total-update w q.own t [] (owners q.sections) i.once m,
      )
  Step-measure {q = q} (leave_oldest x a e o) i = omega (
    arith,
    own_left q x a [] (owners a) o (ap owners e) refl,
    held_total-release_all w x.owner a,
    ap (held_total w) e,
    total-append (weigh w) q.ran (released x.owner x.cleanups),
    total-released w x.owner x.cleanups,
  )
  Step-measure {q = q} (leave_later b p x a e o) i = omega (
    arith,
    own_left q x (b ++ merged p x ∷ a) (around b p) (owners a) o
        (ap owners e ∙ owners-around b p x a) (owners-merged b p x a),
    held_total-release_all w x.owner (b ++ merged p x ∷ a),
    ap (held_total w) e,
    held_total-append w b (merged p x ∷ a),
    held_total-append w b (p ∷ x ∷ a),
    total-take_cleanups_from (weigh w) p.cleanups x.cleanups,
  )

pub Reach-Tidy : {cs : List ℕ} {q : Queue} → Reach no_section cs q → Tidy q
Reach-Tidy here = record { once = tt; own = λ t m. refl }
Reach-Tidy (later r s) = Step-Tidy s (Reach-Tidy r)

-- In a queue that is reached from the empty one, the cleanups that have run or wait are those that
-- were scheduled, each as often: every weight gives the same sum.
pub Reach-measure :
    {cs : List ℕ} {q : Queue} → (w : ℕ → ℕ) → Reach no_section cs q → measure w q ≡ total w cs
Reach-measure w here = refl
Reach-measure w (later {cs = cs} {ds = ds} r s) =
    omega (arith, Step-measure w s (Reach-Tidy r), Reach-measure w r, total-append w ds cs)
