-- ===== src/Isolation/Answers.antt =====
-- What the objects of a sandbox answer to `Sandbox::commit` of jmvcc/sandbox.cc.
use libjmvcc.Base.{
  ℕ, ◌+◌, ◌≤◌, ◌<◌, ◌≡◌, refl, ap, ◌∙◌, sym, subst, Bool, true, false, List, [], ◌∷◌, ◌++◌, Option,
  none, some, arith, ok, Bool-cases, inl, inr, ◌==◌, ==→eq, ==-self, leb, leb→le, leb→lt,
}
use libjmvcc.VersionedObject.{VersionedObject}
use libjmvcc.LocalValues.{LocalValues, lookup, Distinct}
use libjmvcc.Versioned.{epoch_mod}
use libjmvcc.Sandbox.Atomic.{Asked, accepts}
use libjmvcc.Sandbox.Accepted.{Commits, registered, later_key}
use libjmvcc.Isolation.Placed.{newest}
use libjmvcc.Isolation.Pairs.{vals}
use libjmvcc.Isolation.Laws.{Laws}

module _ (V : VersionedObject) (L : Laws V) (T : LocalValues V.Value) (c old : ℕ) (f : ℕ → V.Object)
    (l : List (ℕ × V.Value)) (valid : (q : ℕ) → L.Valid c (f q)) (started : 1 ≤ c)
    (fits : c + 1 < epoch_mod) (distinct : Distinct l) where
  open V use {Object, Value}
  open L use {ends, read, sees, Valid}

  -- What `accepts` states of the object that `setup` returns.
  abbrev pub Taken : Object → Value → Object → Type 0
  Taken o v x =
      (newest 1 (ends o) ≤ old)
      × Valid (c + 1) x
      × (ends x ≡ ends o ++ (c + 1) ∷ [])
      × (V.commit x (c + 1) ≡ ok (newest 1 (ends o)))
      × ((j : ℕ) → 1 ≤ j → j ≤ c → read x j ≡ read o j)
      × ((j : ℕ) → c + 1 ≤ j → read x j ≡ sees v)

  abbrev Outcome : Object → Value → Bool × Object → Type 0
  Outcome o v (true, x) = Taken o v x
  Outcome o v (false, x) = old < newest 1 (ends o)

  setup-Outcome :
      (q : ℕ) (v : Value)
      → (r : Bool × Object) × (V.setup c (f q) old (c + 1) v ≡ ok r) × Outcome (f q) v r
  setup-Outcome q v = elim (Bool-cases (leb (newest 1 (ends (f q))) old)) [
    | inl h ↦
        let le = leb→le (newest 1 (ends (f q))) old h in
        let (x, run, good, after, gives, before, behind) =
          L.accepts c old (f q) v (valid q) started fits le in
        ((true, x), run, (le, good, after, gives, before, behind))
    | inr h ↦
        let lt = leb→lt (newest 1 (ends (f q))) old h in
        ((false, f q), L.refuses c old (f q) v fits lt, lt)
  ]

  answer_of : ℕ → Option Value → Bool × Object
  answer_of q none = (false, f q)
  answer_of q (some v) = (setup-Outcome q v).0

  pub answer : ℕ → Bool × Object
  answer q = answer_of q (lookup q l)

  abbrev pub from : ℕ → ℕ
  from q = newest 1 (ends (f q))

  answer-some : (q : ℕ) (v : Value) → lookup q l ≡ some v → (setup-Outcome q v).0 ≡ answer q
  unfolding answer answer_of
  answer-some q v n = ap (answer_of q) (sym n)

  answer-Outcome : (q : ℕ) (v : Value) → lookup q l ≡ some v → Outcome (f q) v (answer q)
  answer-Outcome q v n = subst (Outcome (f q) v) (answer-some q v n) (setup-Outcome q v).2

  pub answer-Taken :
      (q : ℕ) (v : Value) → lookup q l ≡ some v → (answer q).0 ≡ true → Taken (f q) v (answer q).1
  answer-Taken q v n a = taken (answer q) a (answer-Outcome q v n)
    where
      taken : (r : Bool × Object) → r.0 ≡ true → Outcome (f q) v r → Taken (f q) v r.1
      taken (true, x) e o = o
      taken (false, x) e o = cc

  pub answer_conflict :
      (q : ℕ) (v : Value) → lookup q l ≡ some v → (answer q).0 ≡ false → old < newest 1 (ends (f q))
  answer_conflict q v n a = refused (answer q) a (answer-Outcome q v n)
    where
      refused : (r : Bool × Object) → r.0 ≡ false → Outcome (f q) v r → old < newest 1 (ends (f q))
      refused (true, x) e o = cc
      refused (false, x) e o = o

  -- The local values of `m` are among those of the sandbox.
  abbrev Among : List (ℕ × Value) → Type 0
  Among m = (q : ℕ) (v : Value) → lookup q m ≡ some v → lookup q l ≡ some v

  Among-tail :
      (k : ℕ) (v : Value) (m : List (ℕ × Value)) → lookup k m ≡ none → Among ((k, v) ∷ m) → Among m
  Among-tail k v m d among q w n = among q w (later_key q k v w m d n)

  Among-head : (k : ℕ) (v : Value) (m : List (ℕ × Value)) → Among ((k, v) ∷ m) → lookup k l ≡ some v
  Among-head k v m among = among k v (rw (==-self k))

  Asked-Among :
      (m : List (ℕ × Value)) → Distinct m → Among m → Asked V T L.undoable c old (c + 1) answer f m
  Asked-Among [] d among = tt
  Asked-Among ((k, v) ∷ m) d among = (
    (setup-Outcome k v).1 ∙ ap ok (answer-some k v (Among-head k v m among)),
    Asked-Among m d.1 (Among-tail k v m d.0 among),
  )

  pub answer-Asked : Asked V T L.undoable c old (c + 1) answer f l
  answer-Asked = Asked-Among l distinct (λ q v n. n)

  -- All the objects accept, or one refuses.
  pub accepts_all :
      (m : List (ℕ × Value))
      → accepts V T L.undoable c old (c + 1) answer m ≡ true
      → (q : ℕ) (v : Value) → lookup q m ≡ some v
      → (answer q).0 ≡ true
  accepts_all [] a q v n = cc
  accepts_all ((k, w) ∷ m) a q v n = elim (Bool-cases (k == q)) [
    | inl h ↦ subst (λ q. (answer q).0 ≡ true) (==→eq k q h) (ground (arith, a))
    | inr h ↦ accepts_all m (ground (arith, a)) q v (ground (arith, n, h))
  ]

  pub accepts_not :
      (m : List (ℕ × Value))
      → Distinct m
      → accepts V T L.undoable c old (c + 1) answer m ≡ false
      → (q : ℕ) × (v : Value) × (lookup q m ≡ some v) × ((answer q).0 ≡ false)
  accepts_not [] d a = cc
  accepts_not ((k, w) ∷ m) d a = elim (Bool-cases (answer k).0) [
    | inl h ↦
        let (q, v, n, e) = accepts_not m d.1 (sym (rw h refl) ∙ a) in
        (q, v, later_key q k w v m d.0 n, e)
    | inr h ↦ (k, w, rw (==-self k), h)
  ]

  Commits-Among :
      (m : List (ℕ × Value))
      → Distinct m
      → Among m
      → ((q : ℕ) (v : Value) → lookup q l ≡ some v → (answer q).0 ≡ true)
      → Commits V T L.undoable answer from (c + 1) m
  Commits-Among [] d among a = tt
  Commits-Among ((k, v) ∷ m) d among a =
      let n = Among-head k v m among in
      ((answer-Taken k v n (a k v n)).3, Commits-Among m d.1 (Among-tail k v m d.0 among) a)

  pub answer-Commits :
      ((q : ℕ) (v : Value) → lookup q l ≡ some v → (answer q).0 ≡ true)
      → Commits V T L.undoable answer from (c + 1) l
  answer-Commits a = Commits-Among l distinct (λ q v n. n) a

  -- The cleanups of one object that `commit` registers.
  pub vals-registered-none :
      (q : ℕ) (m : List (ℕ × Value))
      → lookup q m ≡ none
      → vals q (registered V T L.undoable answer from m) ≡ []
  vals-registered-none q [] n = refl
  vals-registered-none q ((k, v) ∷ m) n = elim (Bool-cases (k == q)) [
    | inl h ↦ absurd (ground (arith, n, h))
    | inr h ↦ rw h (vals-registered-none q m (ground (arith, n, h)))
  ]

  pub vals-registered :
      (q : ℕ) (v : Value) (m : List (ℕ × Value))
      → Distinct m
      → lookup q m ≡ some v
      → vals q (registered V T L.undoable answer from m) ≡ from q ∷ []
  vals-registered q v [] d n = cc
  vals-registered q v ((k, w) ∷ m) d n = elim (Bool-cases (k == q)) [
    | inl h ↦
        let e = ==→eq k q h in
        let behind = vals-registered-none q m (subst (λ q. lookup q m ≡ none) e d.0) in
        rw (h, behind) (ap (λ k. from k ∷ []) e)
    | inr h ↦ rw h (vals-registered q v m d.1 (ground (arith, n, h)))
  ]
