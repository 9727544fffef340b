-- ===== src/Garbage/Removal.antt =====
-- `remove` and the end of a section in `leave_critical` of jmvcc/garbage.cc, for a section anywhere in
-- the queue.
use libjmvcc.Base.{
  contains-skip, Once-skip, ℕ, ◌≡◌, ◌≢◌, refl, ap, ◌∙◌, sym, subst, true, false, List, [], ◌∷◌,
  ◌++◌, arith, Option, none, some, contains, Once, length, length-append, inl, inr, snoc-cases, ok,
  contains-cases,
}
use mathlib.Core.List.{append_assoc, append-nil}
use libjmvcc.Garbage.{Sections, hand_over, leave_last}
use libjmvcc.Garbage.Queue.{
  Open, Queue, Reach, Reach-trans, leave_oldest, leave_later, here, later, owners, released,
  without,
}
use libjmvcc.Garbage.Leave.{after_leave}
use libjmvcc.Garbage.Chain.{
  names, last_or, Linked, owners-append, last_or-append, names-append, names-released,
}
use libjmvcc.Garbage.Unlink.{closing, merged, remove_oldest, remove_later}
use libjmvcc.Garbage.Represents.{Represents}
use libjmvcc.Garbage.Around.{Around}
use libjmvcc.Garbage.HandOver.{hand_over-HandedOver}
use libjmvcc.Garbage.Newest.{length-owners}
use libjmvcc.Garbage.Depth.{Closed, without-skip}
use libjmvcc.Garbage.Safety.{owners-release_all}
use libjmvcc.Garbage.End.{length-release_all, Gone, Last, ended, removal-Represents}

closing-keeps :
    (s : Sections) (pr : Option ℕ) (x : Open) (a : List Open)
    → let u = closing s pr x a in
      (u.thread ≡ s.thread) × (u.num_in_critical ≡ s.num_in_critical) × (u.ran ≡ s.ran)
closing-keeps s none x [] = (refl, refl, refl)
closing-keeps s none x (y ∷ a) = (refl, refl, refl)
closing-keeps s (some p) x [] = (refl, refl, refl)
closing-keeps s (some p) x (y ∷ a) = (refl, refl, refl)

closing-newest :
    (s : Sections) (pr : Option ℕ) (x : Open) (a : List Open)
    → s.newest_ci ≡ last_or pr (x ∷ a)
    → (closing s pr x a).newest_ci ≡ last_or pr a
closing-newest s none x [] e = refl
closing-newest s none x (y ∷ a) e = e
closing-newest s (some p) x [] e = refl
closing-newest s (some p) x (y ∷ a) e = e

removal_oldest :
    (s : Sections) (q : Queue) (x : Open) (a : List Open)
    → Around s q x.owner
    → q.sections ≡ x ∷ a
    → Gone s (closing s none x a) q x.owner a (names x.cleanups)
removal_oldest s q x a r e =
    let once = subst (λ l. Once (owners l)) e r.once in
    let (run, chain, blank, others) =
      remove_oldest s x a (subst (λ l. Linked none l none s.info) e r.chain) once in
    let (threads, count, ran) = closing-keeps s none x a in
    record {
      run = run;
      chain = chain;
      blank = blank;
      others = λ k m. others k (subst (λ l. contains k (owners l) ≡ false) e m);
      newest = closing-newest s none x a (r.newest ∙ ap (last_or none) e);
      once = once.1;
      away = once.0;
      members =
          λ k d. contains-skip k x.owner [] (owners a) d ∙ sym (ap (λ l. contains k (owners l)) e);
      size = ap length e ∙ omega arith;
      threads = threads;
      count = count;
      ran = ran;
    }

removal_later :
    (s : Sections) (q : Queue) (b : List Open) (p x : Open) (a : List Open)
    → Around s q x.owner
    → q.sections ≡ b ++ p ∷ x ∷ a
    → Gone s (closing s (some p.owner) x a) q x.owner (b ++ merged p x ∷ a) []
removal_later s q b p x a r e =
    let (run, chain, blank, others) =
      remove_later s b p x a (subst (λ l. Linked none l none s.info) e r.chain)
        (subst (λ l. Once (owners l)) e r.once) in
    let (threads, count, ran) = closing-keeps s (some p.owner) x a in
    let ks = owners b ++ p.owner ∷ [] in
    let full : owners q.sections ≡ ks ++ x.owner ∷ owners a =
      ap owners e
      ∙ owners-append b (p ∷ x ∷ a)
      ∙ sym (append_assoc (owners b) (p.owner ∷ []) (x.owner ∷ owners a)) in
    let rest : owners (b ++ merged p x ∷ a) ≡ ks ++ owners a =
      owners-append b (merged p x ∷ a) ∙ sym (append_assoc (owners b) (p.owner ∷ []) (owners a)) in
    let (once, away) = Once-skip x.owner ks (owners a) (subst Once full r.once) in
    record {
      run = run;
      chain = chain;
      blank = blank;
      others = λ k m. others k (subst (λ l. contains k (owners l) ≡ false) e m);
      newest =
          closing-newest s (some p.owner) x a
            (r.newest ∙ ap (last_or none) e ∙ last_or-append none b (p ∷ x ∷ a))
          ∙ sym (last_or-append none b (merged p x ∷ a));
      once = subst Once (sym rest) once;
      away = ap (contains x.owner) rest ∙ away;
      members = λ k d.
          ap (contains k) rest
          ∙ contains-skip k x.owner ks (owners a) d
          ∙ sym (ap (contains k) full);
      size =
          ap length e
          ∙ length-append b (p ∷ x ∷ a)
          ∙ omega (arith, length-append b (merged p x ∷ a));
      threads = threads;
      count = count;
      ran = ran;
    }

-- A section that is in the queue.
section_of :
    (l : List Open) (t : ℕ)
    → contains t (owners l) ≡ true
    → (b : List Open) × (x : Open) × (a : List Open) × (l ≡ b ++ x ∷ a) × (x.owner ≡ t)
section_of [] t m = absurd (ground (arith, m))
section_of (x ∷ l) t m = elim (contains-cases t x.owner (owners l) m) [
  | inl e ↦ ([], x, l, refl, sym e)
  | inr n ↦ let (b, y, a, e, f) = section_of l t n in (x ∷ b, y, a, ap (◌∷◌ x) e, f)
]

-- `leave_last` once the thread's own list is handed over.
abbrev pub Departed : Sections → Queue → ℕ → Type 0
Departed s q t =
    (u : Sections) × (leave_last s t t ≡ ok u)
    × (p : Queue) × Reach q [] p
    × Represents u p
    × Closed q p t
    × (contains t (owners p.sections) ≡ false)
    × ((k : ℕ) → k ≢ t → u.thread k ≡ s.thread k)

leave_section :
    (s0 s : Sections) (q : Queue) (b : List Open) (x : Open) (a : List Open)
    → hand_over s0 x.owner (s0.thread x.owner).cleanups s0.newest_ci ≡ ok s
    → Around s q x.owner
    → Last s x.owner
    → q.own x.owner ≡ []
    → q.sections ≡ b ++ x ∷ a
    → ((k : ℕ) → k ≢ x.owner → s.thread k ≡ s0.thread k)
    → Departed s0 q x.owner
leave_section s0 s q b x a h r z o e same = elim (snoc-cases b) [
  | inl n ↦
      let f : q.sections ≡ x ∷ a = e ∙ ap (λ b. b ++ x ∷ a) n in
      let g = removal_oldest s q x a r f in
      let ran = q.ran ++ released x.owner x.cleanups in
      let (w, v, k) =
        removal-Represents s0 s (closing s none x a) q x.owner a (names x.cleanups) ran h r z g (
          names-append q.ran (released x.owner x.cleanups)
          ∙ ap (λ l. names q.ran ++ l) (names-released x.owner x.cleanups)) in
      (
        after_leave (closing s none x a) x.owner x.owner,
        w,
        ended q x.owner a ran,
        later here (leave_oldest x a f o),
        v,
        record {
          others =
              owners-release_all x.owner a
              ∙ sym (without-skip x.owner [] (owners a) g.away)
              ∙ sym (ap (without x.owner) (ap owners f));
          size = omega (arith, length-release_all x.owner a, g.size);
          own = ap (released x.owner) o;
        },
        ap (contains x.owner) (owners-release_all x.owner a) ∙ g.away,
        λ j d. k j d ∙ same j d,
      )
  | inr (c, p, n) ↦
      let f : q.sections ≡ c ++ p ∷ x ∷ a =
        e ∙ ap (λ b. b ++ x ∷ a) n ∙ append_assoc c (p ∷ []) (x ∷ a) in
      let g = removal_later s q c p x a r f in
      let l = c ++ merged p x ∷ a in
      let full : owners q.sections ≡ (owners c ++ p.owner ∷ []) ++ x.owner ∷ owners a =
        ap owners f
        ∙ owners-append c (p ∷ x ∷ a)
        ∙ sym (append_assoc (owners c) (p.owner ∷ []) (x.owner ∷ owners a)) in
      let rest : owners l ≡ (owners c ++ p.owner ∷ []) ++ owners a =
        owners-append c (merged p x ∷ a)
        ∙ sym (append_assoc (owners c) (p.owner ∷ []) (owners a)) in
      let (w, v, k) =
        removal-Represents s0 s (closing s (some p.owner) x a) q x.owner l [] q.ran h r z g
          (sym (append-nil (names q.ran))) in
      (
        after_leave (closing s (some p.owner) x a) x.owner x.owner,
        w,
        ended q x.owner l q.ran,
        later here (leave_later c p x a f o),
        v,
        record {
          others =
              owners-release_all x.owner l
              ∙ rest
              ∙ sym (
                  without-skip x.owner (owners c ++ p.owner ∷ []) (owners a)
                    (sym (ap (contains x.owner) rest) ∙ g.away))
              ∙ sym (ap (without x.owner) full);
          size = omega (arith, length-release_all x.owner l, g.size);
          own = ap (released x.owner) o;
        },
        ap (contains x.owner) (owners-release_all x.owner l) ∙ g.away,
        λ j d. k j d ∙ same j d,
      )
]

pub leave_outermost :
    (s : Sections) (q : Queue) (t : ℕ)
    → Around s q t
    → contains t (owners q.sections) ≡ true
    → Last s t
    → Departed s q t
leave_outermost s q t r m z =
    let (s1, p, h) = hand_over-HandedOver s q t (s.thread t).cleanups r m refl in
    let (b, x, a, e, f) = section_of p.sections t (ap (contains t) h.members ∙ m) in
    let z1 : Last s1 t = record {
      allocated = h.allocated ∙ z.allocated;
      nested = h.nested ∙ z.nested;
    } in
    let (u, run, p', w, v, d, out, k) =
      subst (λ t. Departed s p t) f
        (leave_section s s1 p b x a
          (subst (λ t. hand_over s t (s.thread t).cleanups s.newest_ci ≡ ok s1) (sym f) h.run)
          (subst (λ t. Around s1 p t) (sym f) h.around) (subst (λ t. Last s1 t) (sym f) z1)
          (ap p.own f ∙ h.handed) e (λ k d. h.threads k (λ c. d (c ∙ sym f)))) in
    let same : length p.sections ≡ length q.sections =
      sym (length-owners p.sections) ∙ ap length h.members ∙ length-owners q.sections in
    let closed : Closed q p' t = record {
      others = d.others ∙ ap (without t) h.members;
      size = d.size ∙ same;
      own = d.own;
    } in
    (u, run, p', Reach-trans h.reach w, v, closed, out, k)
