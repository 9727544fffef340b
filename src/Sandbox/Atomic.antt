-- ===== src/Sandbox/Atomic.antt =====
-- `Sandbox::commit` of jmvcc/sandbox.cc, when an object refuses.
use libjmvcc.Base.{
  contains-not, ◌≢◌, Once, contains, contains-cases, contains-ne, contains-neither, update,
  update-other, update-same, ℕ, ◌≡◌, ◌+◌, ◌%◌, refl, ap, ◌∙◌, sym, subst, Bool, true, false, List,
  [], ◌∷◌, none, ◌==◌, if◌then◌else◌, arith, ok, Bool-cases, inl, inr, ==→eq, ==→ne,
}
use libjmvcc.VersionedObject.{VersionedObject}
use libjmvcc.LocalValues.{LocalValues, lookup, Distinct}
use libjmvcc.Versioned.{epoch_mod}
use libjmvcc.SnapshotInfo.Registry.{State}
use libjmvcc.Sandbox.{setup_loop, finish, commit, clear}
use libjmvcc.Sandbox.Rollback.{rollback_loop-each}

-- What `Sandbox::commit` relies on: a `setup` that refuses changes nothing, and `rollback` undoes a
-- `setup`, up to the representation of the object.
pub record Undoable (V : VersionedObject) : Type 1 where
  pub Same : V.Object → V.Object → Type 0
  pub same_refl : (o : V.Object) → Same o o
  pub refused :
      (current : ℕ) (o o' : V.Object) (old new : ℕ) (v : V.Value)
      → V.setup current o old new v ≡ ok (false, o')
      → o' ≡ o
  pub undo :
      (current : ℕ) (o o' : V.Object) (old new : ℕ) (v : V.Value)
      → V.setup current o old new v ≡ ok (true, o')
      → (u : V.Object) × (V.rollback o' ≡ ok u) × Same u o

module _ (V : VersionedObject) (L : LocalValues V.Value) (U : Undoable V) (current old new : ℕ)
    (answer : ℕ → Bool × V.Object) where
  open V use {Object, Value}

  -- What each object answers to its `setup`.
  abbrev pub Asked : (ℕ → Object) → List (ℕ × Value) → Type 0
  Asked f [] = Unit
  Asked f ((k, v) ∷ l) = (V.setup current (f k) old new v ≡ ok (answer k)) × Asked f l

  -- Every object accepts.
  abbrev pub accepts : List (ℕ × Value) → Bool
  accepts [] = true
  accepts ((k, v) ∷ l) = if (answer k).0 then accepts l else false

  pub Asked-update :
      (f : ℕ → Object) (k : ℕ) (o : Object) (l : List (ℕ × Value))
      → lookup k l ≡ none
      → Asked f l
      → Asked (update f k o) l
  Asked-update f k o [] n a = tt
  Asked-update f k o ((j, v) ∷ l) n a = elim (Bool-cases (j == k)) [
    | inl h ↦ absurd (ground (arith, n, h))
    | inr h ↦ (
      ap (λ x. V.setup current x old new v) (update-other f k j o (==→ne j k h)) ∙ a.0,
      Asked-update f k o l (ground (arith, n, h)) a.1,
    )
  ]

  -- The store `g` after the objects `done` have been set up from the store `f`.
  record SetUp (f g : ℕ → Object) (done : List ℕ) : Type 0 where
    once : Once done
    ins :
        (q : ℕ)
        → contains q done ≡ true
        → (v : Value) × (V.setup current (f q) old new v ≡ ok (true, g q))
    outs : (q : ℕ) → contains q done ≡ false → g q ≡ f q

  SetUp-cons :
      (f g : ℕ → Object) (k : ℕ) (o : Object) (v : Value) (done : List ℕ)
      → V.setup current (f k) old new v ≡ ok (true, o)
      → contains k done ≡ false
      → SetUp (update f k o) g done
      → SetUp f g (k ∷ done)
  SetUp-cons f g k o v done run n s = record {
    once = (n, s.once);
    ins = λ q m. elim (contains-cases q k done m) [
      | inl e ↦ (
        v,
        ap (λ x. V.setup current (f x) old new v) e
            ∙ run
            ∙ ap (λ x. ok (true, x)) (sym (ap g e ∙ s.outs k n ∙ update-same f k o)),
      )
      | inr h ↦
          let (w, r) = s.ins q h in
          (
            w,
            ap (λ x. V.setup current x old new w)
                  (sym (update-other f k q o (contains-ne q k done h n)))
                ∙ r,
          )
    ];
    outs = λ q m. let (ne, h) = contains-neither q k done m in s.outs q h ∙ update-other f k q o ne;
  }

  update-id : (f : ℕ → Object) (k q : ℕ) (o : Object) → o ≡ f k → update f k o q ≡ f q
  update-id f k q o e = elim (Bool-cases (k == q)) [
    | inl h ↦ rw h (e ∙ ap f (==→eq k q h))
    | inr h ↦ rw h
  ]

  lookup-neither :
      (q k : ℕ) (v : Value) (l : List (ℕ × Value))
      → lookup q ((k, v) ∷ l) ≡ none
      → (q ≢ k) × (lookup q l ≡ none)
  lookup-neither q k v l n = elim (Bool-cases (k == q)) [
    | inl h ↦ absurd (ground (arith, n, h))
    | inr h ↦ (λ e. ==→ne k q h (sym e), ground (arith, n, h))
  ]

  -- The loop over `setup`: all the objects before the first that refuses are set up.
  setup_loop-SetUp :
      (f : ℕ → Object) (l : List (ℕ × Value))
      → Distinct l
      → Asked f l
      → (done : List ℕ) × (g : ℕ → Object) × (setup_loop V L current old new f l
          ≡ ok (accepts l, done, g))
        × SetUp f g done
        × ((k : ℕ) → lookup k l ≡ none → contains k done ≡ false)
  unfolding setup_loop
  setup_loop-SetUp f [] d a = (
    [],
    f,
    refl,
    record { once = tt; ins = λ q m. absurd (ground (arith, m)); outs = λ q m. refl },
    λ k n. refl,
  )
  setup_loop-SetUp f ((k, v) ∷ l) d a = elim (Bool-cases (answer k).0) [
    | inl accepted ↦
        let o = (answer k).1 in
        let (done, g, run, s, fresh) =
          setup_loop-SetUp (update f k o) l d.1 (Asked-update f k o l d.0 a.1) in
        (
          k ∷ done,
          g,
          rw (a.0, accepted, run),
          SetUp-cons f g k o v done (a.0 ∙ ap (λ b. ok (b, o)) accepted) (fresh k d.0) s,
          λ q n. let (ne, m) = lookup-neither q k v l n in contains-not q k done ne (fresh q m),
        )
    | inr declined ↦
        let o = (answer k).1 in
        let same : o ≡ f k =
          U.refused current (f k) o old new v (a.0 ∙ ap (λ b. ok (b, o)) declined) in
        (
          [],
          update f k o,
          rw (a.0, declined),
          record {
            once = tt;
            ins = λ q m. absurd (ground (arith, m));
            outs = λ q m. update-id f k q o same;
          },
          λ q n. refl,
        )
  ]

module _ (V : VersionedObject) (L : LocalValues V.Value) (U : Undoable V) where
  open V use {Object}

  -- The objects of the sandbox answer `answer` to their `setup` for the next epoch.
  abbrev pub Answered : State Object → L.Table → ℕ → (ℕ → Bool × Object) → Type 0
  Answered s t old answer =
      Asked V L U s.current_epoch old ((s.current_epoch + 1) % epoch_mod) answer s.object
        (L.to_list t)

  -- One of them refuses.
  abbrev pub Refused : State Object → L.Table → ℕ → (ℕ → Bool × Object) → Type 0
  Refused s t old answer =
      accepts V L U s.current_epoch old ((s.current_epoch + 1) % epoch_mod) answer (L.to_list t)
      ≡ false

  -- The commit of a sandbox whose objects all answer to `setup`, one of them with a refusal,
  -- returns 0 and an empty sandbox. It leaves the two epochs, the snapshots and their map, and every
  -- object as it was, if `setup` and `rollback` of the objects are undoable.
  pub commit_undone :
      (s : State Object) (t : L.Table) (old : ℕ) (answer : ℕ → Bool × Object)
      → Answered s t old answer
      → Refused s t old answer
      → (u : State Object) × (commit V L s t old ≡ ok (0, u, clear V L t))
        × (u.current_epoch ≡ s.current_epoch)
        × (u.earliest_epoch ≡ s.earliest_epoch)
        × (u.snapshot ≡ s.snapshot)
        × (u.entries ≡ s.entries)
        × ((q : ℕ) → U.Same (u.object q) (s.object q))
  unfolding commit finish
  commit_undone s t old answer a r =
      let new = (s.current_epoch + 1) % epoch_mod in
      let (done, g, run, up, _) =
        setup_loop-SetUp V L U s.current_epoch old new answer s.object (L.to_list t) (L.distinct t)
          a in
      let undo : (q : ℕ)
          → contains q done ≡ true
          → (u : Object) × (V.rollback (g q) ≡ ok u) × U.Same u (s.object q) =
        λ q m. let (v, p) = up.ins q m in U.undo s.current_epoch (s.object q) (g q) old new v p in
      let (h, back, ins, outs) =
        rollback_loop-each V L g done up.once (λ q m. let (u, p, _) = undo q m in (u, p)) in
      (
        record s { object = h },
        rw (run, r, back),
        refl,
        refl,
        refl,
        refl,
        λ q. elim (Bool-cases (contains q done)) [
          | inl m ↦
              let (u, p, same) = undo q m in
              subst (λ o. U.Same o (s.object q)) (ok_inj u (h q) (sym p ∙ ins q m)) same
          | inr m ↦
              subst (λ o. U.Same o (s.object q)) (sym (outs q m ∙ up.outs q m))
                (U.same_refl (s.object q))
        ],
      )
    where
      ok_inj : (x y : Object) → ok x ≡ ok y → x ≡ y
      ok_inj x y e = cc
