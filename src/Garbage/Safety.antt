-- ===== src/Garbage/Safety.antt =====
-- A cleanup of jmvcc/garbage.cc runs once the sections that were open at its scheduling have ended.
use libjmvcc.Base.{
  ◌⊎◌, ℕ, ◌≡◌, ◌≢◌, refl, ap, ◌∙◌, sym, subst, true, List, [], ◌∷◌, ◌++◌, arith, All, All-append,
  All-imp, contains, contains-there, contains-cases, update, ◌==◌, ==→ne, Bool-cases, inl, inr, ltb,
  length,
}
use libjmvcc.Garbage.{take_cleanups_from}
use libjmvcc.Garbage.Queue.{
  Scheduled, Open, Queue, owners, without, released, release_all, Step, enter, schedule_inside,
  schedule_outside, schedule_now, hand_over, leave_oldest, leave_later, Reach, here, later,
  no_section, Within, Held, Safe,
}

-- Every number in `ks` other than `k` is in `ls`.
abbrev Minus : ℕ → List ℕ → List ℕ → Type 0
Minus k ks ls = (q : ℕ) → q ≢ k → contains q ks ≡ true → contains q ls ≡ true

abbrev Sub : List ℕ → List ℕ → Type 0
Sub ks ls = (q : ℕ) → contains q ks ≡ true → contains q ls ≡ true

contains-without :
    (k q : ℕ) (ks : List ℕ) → contains q (without k ks) ≡ true → (q ≢ k) × (contains q ks ≡ true)
contains-without k q [] m = absurd (ground (arith, m))
contains-without k q (j ∷ ks) m = elim (Bool-cases (j == k)) [
  | inl h ↦ let (ne, n) = contains-without k q ks (rw h at m) in (ne, contains-there q j ks n)
  | inr h ↦ elim (contains-cases q j (without k ks) (rw h at m)) [
    | inl e ↦ (λ f. ==→ne j k h (sym e ∙ f), ground (arith, e))
    | inr n ↦ let (ne, n') = contains-without k q ks n in (ne, contains-there q j ks n')
  ]
]

Within-Sub :
    (ks ls : List ℕ) (cs : List Scheduled) → Sub ks ls → All (Within ks) cs → All (Within ls) cs
Within-Sub ks ls cs s = All-imp (Within ks) (Within ls) cs (λ c w q m. s q (w q m))

released-Within :
    (k : ℕ) (ks ls : List ℕ) (cs : List Scheduled)
    → Minus k ks ls
    → All (Within ks) cs
    → All (Within ls) (released k cs)
released-Within k ks ls [] s w = tt
released-Within k ks ls (c ∷ cs) s w = (
  λ q m. let (ne, n) = contains-without k q c.waits m in s q ne (w.0 q n),
  released-Within k ks ls cs s w.1,
)

All-take {ℓ} :
    (P : Scheduled → Type ℓ) (xs ys : List Scheduled)
    → All P xs
    → All P ys
    → All P (take_cleanups_from xs ys)
unfolding take_cleanups_from
All-take P xs ys p q = elim (Bool-cases (ltb (length xs) (length ys))) [
  | inl h ↦ rw h (All-append P ys xs q p)
  | inr h ↦ rw h (All-append P xs ys p q)
]

Minus-cons : (k j : ℕ) (ks ls : List ℕ) → Minus k ks ls → Minus k (j ∷ ks) (j ∷ ls)
Minus-cons k j ks ls s q ne m = elim (contains-cases q j ks m) [
  | inl e ↦ ground (arith, e)
  | inr n ↦ contains-there q j ls (s q ne n)
]

Held-release :
    (k : ℕ) (ks ls : List ℕ) (l : List Open) → Minus k ks ls → Held ks l → Held ls (release_all k l)
Held-release k ks ls [] s h = tt
Held-release k ks ls (x ∷ l) s h = (
  released-Within k (x.owner ∷ ks) (x.owner ∷ ls) x.cleanups (Minus-cons k x.owner ks ls s) h.0,
  Held-release k (x.owner ∷ ks) (x.owner ∷ ls) l (Minus-cons k x.owner ks ls s) h.1,
)

pub owners-release_all : (k : ℕ) (l : List Open) → owners (release_all k l) ≡ owners l
owners-release_all k [] = refl
owners-release_all k (x ∷ l) = ap (◌∷◌ x.owner) (owners-release_all k l)

Minus-head : (k : ℕ) (ks : List ℕ) → Minus k (k ∷ ks) ks
Minus-head k ks q ne m = elim (contains-cases q k ks m) [ inl e ↦ absurd (ne e) | inr n ↦ n ]

Held-leave :
    (ks : List ℕ) (b : List Open) (p x : Open) (a : List Open) (cs : List Scheduled)
    → Held ks (b ++ p ∷ x ∷ a)
    → ((ls : List ℕ) → All (Within ls) p.cleanups → All (Within ls) x.cleanups → All (Within ls) cs)
    → Held ks (release_all x.owner (b ++ record p { cleanups = cs } ∷ a))
Held-leave ks [] p x a cs h taken = (
  released-Within x.owner (x.owner ∷ p.owner ∷ ks) (p.owner ∷ ks) cs
      (Minus-head x.owner (p.owner ∷ ks))
      (taken (x.owner ∷ p.owner ∷ ks)
        (Within-Sub (p.owner ∷ ks) (x.owner ∷ p.owner ∷ ks) p.cleanups
          (λ q m. contains-there q x.owner (p.owner ∷ ks) m) h.0)
        h.1.0),
  Held-release x.owner (x.owner ∷ p.owner ∷ ks) (p.owner ∷ ks) a (Minus-head x.owner (p.owner ∷ ks))
      h.1.1,
)
Held-leave ks (y ∷ b) p x a cs h taken = (
  released-Within x.owner (y.owner ∷ ks) (y.owner ∷ ks) y.cleanups (λ q ne m. m) h.0,
  Held-leave (y.owner ∷ ks) b p x a cs h.1 taken,
)

Minus-middle :
    (b : List Open) (p x : Open) (a : List Open) (cs : List Scheduled)
    → Minus x.owner (owners (b ++ p ∷ x ∷ a)) (owners (b ++ record p { cleanups = cs } ∷ a))
Minus-middle [] p x a cs =
    Minus-cons x.owner p.owner (x.owner ∷ owners a) (owners a) (Minus-head x.owner (owners a))
Minus-middle (y ∷ b) p x a cs =
    Minus-cons x.owner y.owner (owners (b ++ p ∷ x ∷ a))
      (owners (b ++ record p { cleanups = cs } ∷ a)) (Minus-middle b p x a cs)

-- Every number in `all` is in `ks` or in `ls`.
abbrev Cover : List ℕ → List ℕ → List ℕ → Type 0
Cover all ks ls = (q : ℕ) → contains q all ≡ true → (contains q ks ≡ true) ⊎ (contains q ls ≡ true)

Cover-shift :
    (all ks : List ℕ) (j : ℕ) (ls : List ℕ) → Cover all ks (j ∷ ls) → Cover all (j ∷ ks) ls
Cover-shift all ks j ls c q m = elim (c q m) [
  | inl h ↦ inl (contains-there q j ks h)
  | inr h ↦ elim (contains-cases q j ls h) [ inl e ↦ inl (ground (arith, e)) | inr n ↦ inr n ]
]

-- New cleanups at the newest section may wait for all sections.
Held-newest :
    (all ks : List ℕ) (b : List Open) (x : Open) (cs : List Scheduled)
    → Cover all ks (owners (b ++ x ∷ []))
    → Held ks (b ++ x ∷ [])
    → ((ls : List ℕ) → Sub all ls → All (Within ls) x.cleanups → All (Within ls) cs)
    → Held ks (b ++ record x { cleanups = cs } ∷ [])
Held-newest all ks [] x cs c h filled = (
  filled (x.owner ∷ ks)
      (λ q m. elim (Cover-shift all ks x.owner [] c q m) [
        | inl n ↦ n
        | inr n ↦ absurd (ground (arith, n))
      ])
      h.0,
  tt,
)
Held-newest all ks (y ∷ b) x cs c h filled = (
  h.0,
  Held-newest all (y.owner ∷ ks) b x cs (Cover-shift all ks y.owner (owners (b ++ x ∷ [])) c) h.1
      filled,
)

Held-enter :
    (ks : List ℕ) (l : List Open) (t : ℕ)
    → Held ks l
    → Held ks (l ++ record { owner = t; cleanups = [] } ∷ [])
Held-enter ks [] t h = (tt, tt)
Held-enter ks (x ∷ l) t h = (h.0, Held-enter (x.owner ∷ ks) l t h.1)

Sub-enter : (l : List Open) (x : Open) → Sub (owners l) (owners (l ++ x ∷ []))
Sub-enter [] x q m = absurd (ground (arith, m))
Sub-enter (y ∷ l) x q m = elim (contains-cases q y.owner (owners l) m) [
  | inl e ↦ ground (arith, e)
  | inr n ↦ contains-there q y.owner (owners (l ++ x ∷ [])) (Sub-enter l x q n)
]

pub owners-newest :
    (b : List Open) (x : Open) (cs : List Scheduled)
    → owners (b ++ record x { cleanups = cs } ∷ []) ≡ owners (b ++ x ∷ [])
owners-newest [] x cs = refl
owners-newest (y ∷ b) x cs = ap (◌∷◌ y.owner) (owners-newest b x cs)

-- A family of lists with one of them replaced.
All-update :
    (P : Scheduled → Type 0) (f : ℕ → List Scheduled) (t : ℕ) (cs : List Scheduled)
    → ((q : ℕ) → All P (f q))
    → All P cs
    → (q : ℕ) → All P (update f t cs q)
All-update P f t cs h p q = elim (Bool-cases (t == q)) [ inl e ↦ rw e p | inr e ↦ rw e (h q) ]

-- Every step keeps the cleanups in the sections that they wait for.
pub Step-Safe : {cs : List ℕ} {q r : Queue} → Step q cs r → Safe q → Safe r
Step-Safe {q = q} (enter t _) s = record {
  held = Held-enter [] q.sections t s.held;
  own = λ k. Within-Sub _ _ (q.own k) (Sub-enter q.sections _) (s.own k);
  done = s.done;
}
Step-Safe {q = q} (schedule_inside t c _) s = record {
  held = s.held;
  own =
      All-update (Within (owners q.sections)) q.own t _ s.own
        (All-append _ (q.own t) _ (s.own t) (λ k m. m, tt));
  done = s.done;
}
Step-Safe {q = q} (schedule_outside c b x e) s =
    let h : Held [] (b ++ x ∷ []) = subst (Held []) e s.held in
    record {
      held =
          Held-newest (owners q.sections) [] b x _
            (λ k m. inr (subst (λ l. contains k (owners l) ≡ true) e m)) h
            (λ ls sub w. All-append (Within ls) x.cleanups _ w (sub, tt));
      own = λ k.
          subst (λ l. All (Within l) (q.own k)) (ap owners e ∙ sym (owners-newest b x _)) (s.own k);
      done = s.done;
    }
Step-Safe {q = q} (schedule_now c e) s = record {
  held = s.held;
  own = s.own;
  done = All-append (Within []) q.ran _ s.done (λ k m. m, tt);
}
Step-Safe {q = q} (hand_over t b x _ e) s =
    let h : Held [] (b ++ x ∷ []) = subst (Held []) e s.held in
    let same = ap owners e ∙ sym (owners-newest b x _) in
    record {
      held =
          Held-newest (owners q.sections) [] b x _
            (λ k m. inr (subst (λ l. contains k (owners l) ≡ true) e m)) h
            (λ ls sub w.
              All-take (Within ls) x.cleanups (q.own t) w
                (Within-Sub (owners q.sections) ls (q.own t) sub (s.own t)));
      own = All-update _ q.own t [] (λ k. subst (λ l. All (Within l) (q.own k)) same (s.own k)) tt;
      done = s.done;
    }
Step-Safe {q = q} (leave_oldest x a e _) s =
    let h : Held [] (x ∷ a) = subst (Held []) e s.held in
    record {
      held = Held-release x.owner (x.owner ∷ []) [] a (Minus-head x.owner []) h.1;
      own = λ t.
          released-Within x.owner (owners q.sections) _ (q.own t)
            (subst (λ l. Minus x.owner (owners l) (owners (release_all x.owner a))) (sym e)
              (subst (Minus x.owner (x.owner ∷ owners a)) (sym (owners-release_all x.owner a))
                (Minus-head x.owner (owners a))))
            (s.own t);
      done =
          All-append (Within []) q.ran _ s.done
            (released-Within x.owner (x.owner ∷ []) [] x.cleanups (Minus-head x.owner []) h.0);
    }
Step-Safe {q = q} (leave_later b p x a e _) s =
    let cs = take_cleanups_from p.cleanups x.cleanups in
    let h : Held [] (b ++ p ∷ x ∷ a) = subst (Held []) e s.held in
    record {
      held = Held-leave [] b p x a cs h (λ ls v w. All-take (Within ls) p.cleanups x.cleanups v w);
      own = λ t.
          released-Within x.owner (owners q.sections) _ (q.own t)
            (subst
              (λ l.
                Minus x.owner (owners l)
                  (owners (release_all x.owner (b ++ record p { cleanups = cs } ∷ a))))
              (sym e)
              (subst (Minus x.owner (owners (b ++ p ∷ x ∷ a)))
                (sym (owners-release_all x.owner (b ++ record p { cleanups = cs } ∷ a)))
                (Minus-middle b p x a cs)))
            (s.own t);
      done = s.done;
    }

pub Reach-Safe : {cs : List ℕ} {q : Queue} → Reach no_section cs q → Safe q
Reach-Safe here = record { held = tt; own = λ t. tt; done = tt }
Reach-Safe (later r s) = Step-Safe s (Reach-Safe r)
