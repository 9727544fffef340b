-- ===== src/SnapshotInfo/Compress/Renaming.antt =====
-- The parts of the loop of `compress_epochs` in jmvcc/snapshot.cc, over objects whose renames return.
use libjmvcc.Base.{
  ℕ, suc, ◌+◌, ◌<◌, ◌≤◌, ◌^◌, ◌≡◌, ◌≢◌, refl, ap, ◌∙◌, sym, subst, true, false, List, [], ◌∷◌, All,
  arith, none, ◌==◌, ok, Result, ◌>>=◌, bind-ok, ok_inj, update-same, contains-cases, inl, inr,
  ne→==, ==-self, ltb, Once, contains, contains-here, contains-there, contains-ne, contains-neither,
  update, update-other,
}
use libjmvcc.VersionedObject.{VersionedObject}
use libjmvcc.SnapshotInfo.Registry.{State, CleanupEntry, Entry, Snapshot}
use libjmvcc.SnapshotInfo.{rename_epoch, find}
use libjmvcc.SnapshotInfo.Order.{keys, Sorted}
use libjmvcc.SnapshotInfo.Compress.{
  erase_entry, insert_entry, as_int, gt, exceeds, add_extra, is_found, rename_object,
  rename_cleanups, rename_extra, rename_snapshots, compress_entry,
}
use libjmvcc.SnapshotInfo.Compress.Numbering.{rename_snapshots-entries}

-- The snapshots of each entry stand in it once, and are at its epoch.
abbrev pub Matching : (ℕ → Snapshot) → List Entry → Type 0
Matching f [] = Unit
Matching f (e ∷ es) =
    Once e.snapshots
    × ((p : ℕ) → contains p e.snapshots ≡ true → (f p).epoch ≡ e.epoch)
    × Matching f es

pub Sorted-above :
    (i lo : ℕ) (es : List Entry) → i < lo → Sorted lo (keys es) → All (λ x. i < x.epoch) es
Sorted-above i lo [] l s = tt
Sorted-above i lo (e ∷ es) l s =
    (omega (arith, l, s.0), Sorted-above i (suc e.epoch) es (omega (arith, l, s.0)) s.1)

find-missing : (i : ℕ) (es : List Entry) → All (λ x. x.epoch ≢ i) es → find i es ≡ none
unfolding find
find-missing i [] a = refl
find-missing i (e ∷ es) a = rw (ne→== e.epoch i a.0, find-missing i es a.1)

exceeds-in_range : (i k : ℕ) → i ≤ k → k < 2 ^ 31 → exceeds i k ≡ false
unfolding exceeds as_int gt
exceeds-in_range i k l h =
    let low : ltb k (2 ^ 31) ≡ true = ground (arith, h) in rw low (ground (arith, l))

-- The snapshot is in no entry.
abbrev pub Absent : ℕ → List Entry → Type 0
Absent p = All λ e. contains p e.snapshots ≡ false

module _ (V : VersionedObject) where
  open V use {Object}

  -- The calls of the objects' `rename_epoch` that the loop of `compress_epochs` makes, in their order.
  unfoldable pub renames : State Object → (ℕ → List ℕ) → ℕ → List Entry → Result (State Object)
  renames s extra i [] = ok s
  renames s extra i (e ∷ es) = elim (e.epoch == i) [
    | true ↦ renames s extra (i + 1) es
    | false ↦ (do
      (s1, extra1, cleanups) ← rename_cleanups V s extra i e.cleanups
      s2 ← rename_extra V s1 e.epoch i (extra1 e.epoch)
      renames s2 extra1 (i + 1) es)
  ]

  -- The renames look at the objects only, and change nothing else.
  rename_object-anywhere :
      (s t : State Object) (obj from to : ℕ) (y : ℕ × State Object)
      → rename_object V s obj from to ≡ ok y
      → rename_object V (record t { object = s.object }) obj from to
        ≡ ok (y.0, record t { object = y.1.object })
  unfolding rename_object
  rename_object-anywhere s t obj from to y run =
      let (x, h, f) = bind-ok (V.rename_epoch (s.object obj) from to) _ y run in
      rw h (ap (λ y. ok (y.0, record t { object = y.1.object })) (ok_inj _ y f))

  rename_cleanups-anywhere :
      (s t : State Object) (extra : ℕ → List ℕ) (to : ℕ) (cs : List CleanupEntry)
      (y : State Object × (ℕ → List ℕ) × List CleanupEntry)
      → rename_cleanups V s extra to cs ≡ ok y
      → rename_cleanups V (record t { object = s.object }) extra to cs
        ≡ ok (record t { object = y.0.object }, y.1, y.2)
  unfolding rename_cleanups
  rename_cleanups-anywhere s t extra to [] y run =
      ap (λ y. ok (record t { object = y.0.object }, y.1, y.2)) (ok_inj _ y run)
  rename_cleanups-anywhere s t extra to (c ∷ cs) y run =
      let (x, h, f) = bind-ok (rename_object V s c.object c.valid_from to) _ y run in
      let (z, k, g) = bind-ok (rename_cleanups V x.1 (add_extra extra x.0 c.object) to cs) _ y f in
      rw
        (
          rename_object-anywhere s t c.object c.valid_from to x h,
          rename_cleanups-anywhere x.1 t (add_extra extra x.0 c.object) to cs z k,
        )
        (ap (λ y. ok (record t { object = y.0.object }, y.1, y.2)) (ok_inj _ y g))

  rename_extra-anywhere :
      (s t : State Object) (from to : ℕ) (objs : List ℕ) (u : State Object)
      → rename_extra V s from to objs ≡ ok u
      → rename_extra V (record t { object = s.object }) from to objs
        ≡ ok (record t { object = u.object })
  unfolding rename_extra
  rename_extra-anywhere s t from to [] u run =
      ap (λ u. ok (record t { object = u.object })) (ok_inj s u run)
  rename_extra-anywhere s t from to (obj ∷ objs) u run =
      let (x, h, f) = bind-ok (rename_object V s obj from to) _ u run in
      rw (rename_object-anywhere s t obj from to x h) (rename_extra-anywhere x.1 t from to objs u f)

  -- The snapshots of an entry get the new epoch, and no others change.
  rename_snapshots-runs :
      (s : State Object) (from to : ℕ) (ps : List ℕ)
      → Once ps
      → ((p : ℕ) → contains p ps ≡ true → (s.snapshot p).epoch ≡ from)
      → (u : State Object) × (rename_snapshots V s from to ps ≡ ok u)
        × ((p : ℕ) → contains p ps ≡ false → u.snapshot p ≡ s.snapshot p)
        × ((p : ℕ) → contains p ps ≡ true → (u.snapshot p).epoch ≡ to)
        × (u.object ≡ s.object)
  unfolding rename_snapshots rename_epoch
  rename_snapshots-runs s from to [] o m =
      (s, refl, (λ p n. refl), (λ p n. absurd (ground (arith, n))), refl)
  rename_snapshots-runs s from to (p ∷ ps) o m =
      let s1 = record s { snapshot = update s.snapshot p (record (s.snapshot p) { epoch = to }) } in
      let right : ((s.snapshot p).epoch == from) ≡ true =
        ap (λ k. k == from) (m p (contains-here p ps)) ∙ ==-self from in
      let other : (q : ℕ) → contains q ps ≡ true → s1.snapshot q ≡ s.snapshot q =
        λ q w. update-other s.snapshot p q _ (contains-ne q p ps w o.0) in
      let (u, g, l, r, b) =
        rename_snapshots-runs s1 from to ps o.1
          (λ q w. ap (λ x. x.epoch) (other q w) ∙ m q (contains-there q p ps w)) in
      let here : (u.snapshot p).epoch ≡ to =
        ap (λ x. x.epoch) (l p o.0 ∙ update-same s.snapshot p _) in
      (
        u,
        rw right g,
        λ q n. let (d, k) = contains-neither q p ps n in l q k ∙ update-other s.snapshot p q _ d,
        λ q n. elim (contains-cases q p ps n) [
          | inl e ↦ subst (λ q. (u.snapshot q).epoch ≡ to) (sym e) here
          | inr w ↦ r q w
        ],
        b,
      )

  -- The body of the loop, where `rename_epoch` of the objects has led from `r` to `r2`.
  pub compress_entry-runs :
      (s r r1 r2 : State Object) (extra extra1 : ℕ → List ℕ) (cs : List CleanupEntry) (i : ℕ)
      (e : Entry)
      → s.object ≡ r.object
      → rename_cleanups V r extra i e.cleanups ≡ ok (r1, extra1, cs)
      → rename_extra V r1 e.epoch i (extra1 e.epoch) ≡ ok r2
      → i < e.epoch
      → e.epoch < 2 ^ 31
      → All (λ x. x.epoch ≢ i) s.entries
      → Once e.snapshots
      → ((p : ℕ) → contains p e.snapshots ≡ true → (s.snapshot p).epoch ≡ e.epoch)
      → (u : State Object) × (compress_entry V s extra i e ≡ ok (u, extra1))
        × ((p : ℕ) → contains p e.snapshots ≡ false → u.snapshot p ≡ s.snapshot p)
        × ((p : ℕ) → contains p e.snapshots ≡ true → (u.snapshot p).epoch ≡ i)
        × (u.object ≡ r2.object)
  unfolding compress_entry is_found
  compress_entry-runs s r r1 r2 extra extra1 cs i e same run run2 low high free o m =
      let fits : exceeds i e.epoch ≡ false = exceeds-in_range i e.epoch (omega (arith, low)) high in
      let as_r : s ≡ record s { object = r.object } = ap (λ o. record s { object = o }) same in
      let s1 = record s { object = r1.object } in
      let s2 = record s { object = r2.object } in
      let first : rename_cleanups V s extra i e.cleanups ≡ ok (s1, extra1, cs) =
        ap (λ s. rename_cleanups V s extra i e.cleanups) as_r
        ∙ rename_cleanups-anywhere r s extra i e.cleanups (r1, extra1, cs) run in
      let second : rename_extra V s1 e.epoch i (extra1 e.epoch) ≡ ok s2 =
        rename_extra-anywhere r1 s e.epoch i (extra1 e.epoch) r2 run2 in
      let (v, third, k, l, b) = rename_snapshots-runs s2 e.epoch i e.snapshots o m in
      let entries : v.entries ≡ s.entries =
        rename_snapshots-entries V s2 e.epoch i e.snapshots v third in
      let n : Entry = record { epoch = i; snapshots = e.snapshots; cleanups = cs } in
      let missing : find i v.entries ≡ none = ap (find i) entries ∙ find-missing i s.entries free in
      (
        record v { entries = erase_entry e.epoch (insert_entry n v.entries) },
        rw (fits, first, second, third, missing),
        k,
        l,
        b,
      )
