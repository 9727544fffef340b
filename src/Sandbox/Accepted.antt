-- ===== src/Sandbox/Accepted.antt =====
-- `Sandbox::commit` of jmvcc/sandbox.cc, when every object accepts.
use libjmvcc.Base.{
  update, update-other, update-same, ℕ, ◌≡◌, ◌+◌, ◌%◌, ◌<◌, refl, ap, ◌∙◌, sym, Bool, true, false,
  List, [], ◌∷◌, ◌++◌, Option, none, some, ◌==◌, arith, ok, Bool-cases, inl, inr, ==-self, ==→eq,
  ==→ne, ltb,
}
use mathlib.Core.List.{append_assoc, append-nil}
use native.Mathlib.Nat.{mod-eq_of_lt}
use libjmvcc.VersionedObject.{VersionedObject}
use libjmvcc.LocalValues.{LocalValues, lookup, Distinct}
use libjmvcc.Versioned.{epoch_mod}
use libjmvcc.SnapshotInfo.Registry.{State, Entry, CleanupEntry, set_current_epoch}
use libjmvcc.SnapshotInfo.{add_cleanups, register_cleanup, is_empty}
use libjmvcc.Sandbox.{setup_loop, commit_loop, finish, commit, clear}
use libjmvcc.Sandbox.Atomic.{Undoable, Asked, Asked-update, accepts}

add_cleanups-nil : (es : List Entry) → add_cleanups es [] ≡ es
unfolding add_cleanups
add_cleanups-nil [] = refl
add_cleanups-nil (e ∷ []) = ap (λ cs. record e { cleanups = cs } ∷ []) (append-nil e.cleanups)
add_cleanups-nil (e ∷ x ∷ es) = ap (◌∷◌ e) (add_cleanups-nil (x ∷ es))

add_cleanups-append :
    (es : List Entry) (cs ds : List CleanupEntry)
    → add_cleanups (add_cleanups es cs) ds ≡ add_cleanups es (cs ++ ds)
unfolding add_cleanups
add_cleanups-append [] cs ds = refl
add_cleanups-append (e ∷ []) cs ds =
    ap (λ cs. record e { cleanups = cs } ∷ []) (append_assoc e.cleanups cs ds)
add_cleanups-append (e ∷ x ∷ []) cs ds = ap (◌∷◌ e) (add_cleanups-append (x ∷ []) cs ds)
add_cleanups-append (e ∷ x ∷ y ∷ es) cs ds = ap (◌∷◌ e) (add_cleanups-append (x ∷ y ∷ es) cs ds)

is_empty-add_cleanups :
    (es : List Entry) (cs : List CleanupEntry) → is_empty (add_cleanups es cs) ≡ is_empty es
unfolding add_cleanups
is_empty-add_cleanups [] cs = refl
is_empty-add_cleanups (e ∷ []) cs = refl
is_empty-add_cleanups (e ∷ x ∷ es) cs = refl

clash : {A : Type 0} {o : Option A} {w : A} → o ≡ none → o ≡ some w → ⊥
clash e f = cc

pub later_key :
    {A : Type 0} (q k : ℕ) (v w : A) (l : List (ℕ × A))
    → lookup k l ≡ none
    → lookup q l ≡ some w
    → lookup q ((k, v) ∷ l) ≡ some w
later_key q k v w l d n = elim (Bool-cases (k == q)) [
  | inl h ↦ absurd (clash (ap (λ k. lookup k l) (sym (==→eq k q h)) ∙ d) n)
  | inr h ↦ rw h n
]

module _ (V : VersionedObject) (L : LocalValues V.Value) (U : Undoable V)
    (answer : ℕ → Bool × V.Object) (from : ℕ → ℕ) where
  open V use {Object, Value}

  -- The store once the objects of the list are what they answered.
  abbrev pub set_up : (ℕ → Object) → List (ℕ × Value) → ℕ → Object
  set_up f [] = f
  set_up f ((k, v) ∷ l) = set_up (update f k (answer k).1) l

  -- The cleanups that `commit` of the objects registers.
  abbrev pub registered : List (ℕ × Value) → List CleanupEntry
  registered [] = []
  registered ((k, v) ∷ l) = record { object = k; valid_from = from k } ∷ registered l

  -- `commit` of each object, as it is after its `setup`, gives the epoch to clean up.
  abbrev pub Commits : ℕ → List (ℕ × Value) → Type 0
  Commits new [] = Unit
  Commits new ((k, v) ∷ l) = (V.commit (answer k).1 new ≡ ok (from k)) × Commits new l

  set_up-outside :
      (f : ℕ → Object) (l : List (ℕ × Value)) (q : ℕ) → lookup q l ≡ none → set_up f l q ≡ f q
  set_up-outside f [] q n = refl
  set_up-outside f ((k, v) ∷ l) q n = elim (Bool-cases (k == q)) [
    | inl h ↦ absurd (ground (arith, n, h))
    | inr h ↦
        set_up-outside (update f k (answer k).1) l q (ground (arith, n, h))
        ∙ update-other f k q _ (λ e. ==→ne k q h (sym e))
  ]

  set_up-inside :
      (f : ℕ → Object) (l : List (ℕ × Value)) (q : ℕ) (v : Value)
      → Distinct l
      → lookup q l ≡ some v
      → set_up f l q ≡ (answer q).1
  set_up-inside f [] q v d n = cc
  set_up-inside f ((k, w) ∷ l) q v d n = elim (Bool-cases (k == q)) [
    | inl h ↦
        let e = ==→eq k q h in
        ap (set_up (update f k (answer k).1) l) (sym e)
        ∙ set_up-outside (update f k (answer k).1) l k d.0
        ∙ update-same f k _
        ∙ ap (λ k. (answer k).1) e
    | inr h ↦ set_up-inside (update f k (answer k).1) l q v d.1 (ground (arith, n, h))
  ]

  setup_loop-accepted :
      (current old new : ℕ) (f : ℕ → Object) (l : List (ℕ × Value))
      → Distinct l
      → Asked V L U current old new answer f l
      → accepts V L U current old new answer l ≡ true
      → (done : List ℕ) × (setup_loop V L current old new f l ≡ ok (true, done, set_up f l))
  unfolding setup_loop
  setup_loop-accepted current old new f [] d a t = ([], refl)
  setup_loop-accepted current old new f ((k, v) ∷ l) d a t =
      let agreed : (answer k).0 ≡ true = ground (arith, t) in
      let others : accepts V L U current old new answer l ≡ true = ground (arith, t) in
      let (done, run) =
        setup_loop-accepted current old new (update f k (answer k).1) l d.1
          (Asked-update V L U current old new answer f k (answer k).1 l d.0 a.1) others in
      (k ∷ done, rw (a.0, agreed, run))

  commit_loop-registered :
      (new : ℕ) (s : State Object) (l : List (ℕ × Value))
      → is_empty s.entries ≡ false
      → ((q : ℕ) (v : Value) → lookup q l ≡ some v → s.object q ≡ (answer q).1)
      → Distinct l
      → Commits new l
      → commit_loop V L new s l ≡ ok (record s { entries = add_cleanups s.entries (registered l) })
  unfolding commit_loop register_cleanup
  commit_loop-registered new s [] m h d c =
      ap (λ es. ok (record s { entries = es })) (sym (add_cleanups-nil s.entries))
  commit_loop-registered new s ((k, v) ∷ l) m h d (c, cs) =
      let one : CleanupEntry = record { object = k; valid_from = from k } in
      let s1 = record s { entries = add_cleanups s.entries (one ∷ []) } in
      let here : s.object k ≡ (answer k).1 = h k v (rw (==-self k)) in
      let run : commit_loop V L new s1 l
          ≡ ok (record s1 { entries = add_cleanups s1.entries (registered l) }) =
        commit_loop-registered new s1 l (is_empty-add_cleanups s.entries (one ∷ []) ∙ m)
          (λ q w n. h q w (later_key q k v w l d.0 n)) d.1 cs in
      rw (here, c, m)
        (run
          ∙ ap (λ es. ok (record s { entries = es }))
              (add_cleanups-append s.entries (one ∷ []) (registered l)))

  -- The commit of a sandbox whose objects all accept their `setup` and then give `commit` an epoch to
  -- clean up, with a snapshot registered and epochs left, for objects whose `setup` and `rollback` are
  -- undoable, returns the epoch behind the current one, which is then the current one, and an empty
  -- sandbox. Every object with a local value is what `setup` made of it, and no other object or
  -- snapshot has changed, nor the earliest epoch; a cleanup of each of these objects, and no other, is
  -- added to the entry of the newest snapshots.
  pub commit_accepted :
      (s : State Object) (t : L.Table) (old : ℕ)
      → Asked V L U s.current_epoch old (s.current_epoch + 1) answer s.object (L.to_list t)
      → accepts V L U s.current_epoch old (s.current_epoch + 1) answer (L.to_list t) ≡ true
      → Commits (s.current_epoch + 1) (L.to_list t)
      → is_empty s.entries ≡ false
      → s.current_epoch + 1 < epoch_mod
      → (u : State Object) × (commit V L s t old ≡ ok (s.current_epoch + 1, u, clear V L t))
        × (u.current_epoch ≡ s.current_epoch + 1)
        × (u.earliest_epoch ≡ s.earliest_epoch)
        × (u.snapshot ≡ s.snapshot)
        × (u.entries ≡ add_cleanups s.entries (registered (L.to_list t)))
        × ((q : ℕ) (v : Value) → L.find t q ≡ some v → u.object q ≡ (answer q).1)
        × ((q : ℕ) → L.find t q ≡ none → u.object q ≡ s.object q)
  unfolding commit finish set_current_epoch
  commit_accepted s t old a agreed c m small =
      let new = s.current_epoch + 1 in
      let l = L.to_list t in
      let wraps_not : new % epoch_mod ≡ new = mod-eq_of_lt small in
      let (done, run) =
        setup_loop-accepted s.current_epoch old new s.object l (L.distinct t) a agreed in
      let g = set_up s.object l in
      let s1 = record s { object = g; current_epoch = new } in
      let inside : (q : ℕ) (v : Value) → lookup q l ≡ some v → g q ≡ (answer q).1 =
        λ q v n. set_up-inside s.object l q v (L.distinct t) n in
      let last = commit_loop-registered new s1 l m inside (L.distinct t) c in
      let rises : ltb new s.current_epoch ≡ false = ground arith in
      (
        record s1 { entries = add_cleanups s.entries (registered l) },
        rw (wraps_not, run, rises, last),
        refl,
        refl,
        refl,
        refl,
        λ q v n. inside q v (sym (L.find-to_list t q) ∙ n),
        λ q n. set_up-outside s.object l q (sym (L.find-to_list t q) ∙ n),
      )
