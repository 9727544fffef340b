-- ===== src/SnapshotInfo/Compress/Success.antt =====
-- When `compress_epochs` of jmvcc/snapshot.cc throws nothing, and what it makes of the snapshots.
use libjmvcc.Base.{
  ℕ, suc, ◌+◌, ◌<◌, ◌^◌, ◌≡◌, ◌≢◌, refl, ap, ◌∙◌, sym, subst, true, false, List, [], ◌∷◌, ◌++◌, All,
  All-imp, All-append, arith, ◌==◌, ok, ◌>>=◌, bind-ok, ok_inj, length, Bool-cases, inl, inr, ==→eq,
  ==→ne, Once, contains,
}
use mathlib.Core.List.{append_assoc}
use libjmvcc.VersionedObject.{VersionedObject}
use libjmvcc.SnapshotInfo.Registry.{State, CleanupEntry, Entry, Snapshot}
use libjmvcc.SnapshotInfo.Order.{keys, Sorted, Sorted-mono}
use libjmvcc.SnapshotInfo.Compress.{
  rename_cleanups, rename_extra, compress_entry, compress_loop, compress_epochs,
}
use libjmvcc.SnapshotInfo.Compress.Numbering.{
  Renumbered, Numbered, nonempty, compress_entry-Renumbered, compress_epochs-Numbered,
}
use libjmvcc.SnapshotInfo.Compress.Renaming.{
  Matching, Absent, Sorted-above, renames, compress_entry-runs,
}

-- Snapshots that are in the entries stay where they are if their epochs are above `k`, at which those
-- of `ps` are.
Matching-keep :
    (f g : ℕ → Snapshot) (k : ℕ) (ps : List ℕ) (es : List Entry)
    → ((p : ℕ) → contains p ps ≡ false → g p ≡ f p)
    → ((p : ℕ) → contains p ps ≡ true → (f p).epoch ≡ k)
    → All (λ x. k < x.epoch) es
    → Matching f es
    → Matching g es
Matching-keep f g k ps [] same here later m = tt
Matching-keep f g k ps (e ∷ es) same here later m = (
  m.0,
  λ p w. elim (Bool-cases (contains p ps)) [
    | inl c ↦ absurd (omega (arith, here p c, m.1 p w, later.0))
    | inr c ↦ ap (λ x. x.epoch) (same p c) ∙ m.1 p w
  ],
  Matching-keep f g k ps es same here later.1 m.2,
)

module _ (V : VersionedObject) where
  open V use {Object}

  -- What the loop leaves: the objects as they are renamed, the snapshots of each entry at its new epoch,
  -- and the other snapshots as they were.
  record Settled (s u r : State Object) (i : ℕ) (done es : List Entry) : Type 0 where
    objects : u.object ≡ r.object
    below : (p : ℕ) → (s.snapshot p).epoch < i → u.snapshot p ≡ s.snapshot p
    absent : (p : ℕ) → Absent p es → u.snapshot p ≡ s.snapshot p
    entries : List Entry
    parts : u.entries ≡ done ++ entries
    matching : Matching u.snapshot entries

  -- The snapshots of an entry, which is at the epoch `i`, stay there.
  Matching-entry :
      (f g : ℕ → Snapshot) (i : ℕ) (e n : Entry) (us : List Entry)
      → Renumbered i e n
      → Once e.snapshots
      → ((p : ℕ) → contains p e.snapshots ≡ true → (f p).epoch ≡ i)
      → ((p : ℕ) → (f p).epoch < i + 1 → g p ≡ f p)
      → Matching g us
      → Matching g (n ∷ us)
  Matching-entry f g i e n us z o here below m = (
    subst Once (sym z.snapshots) o,
    λ p w.
        let k = here p (sym (ap (contains p) z.snapshots) ∙ w) in
        ap (λ x. x.epoch) (below p (omega (arith, k))) ∙ k ∙ sym z.epoch,
    m,
  )

  -- No entry has the epoch `i`.
  not_there :
      (i : ℕ) (done : List Entry) (e : Entry) (es : List Entry)
      → All (λ x. x.epoch < i) done
      → e.epoch ≢ i
      → i < e.epoch
      → All (λ x. e.epoch < x.epoch) es
      → All (λ x. x.epoch ≢ i) (done ++ e ∷ es)
  not_there i done e es before d low later =
      All-append (λ x. x.epoch ≢ i) done (e ∷ es)
        (All-imp (λ x. x.epoch < i) (λ x. x.epoch ≢ i) done (λ x l f. absurd (omega (arith, l, f)))
          before)
        (
          d,
          All-imp (λ x. e.epoch < x.epoch) (λ x. x.epoch ≢ i) es
              (λ x l f. absurd (omega (arith, l, f, low))) later,
        )

  -- The loop after an entry that had the epoch `i` already.
  unchanged-Settled :
      (s u r : State Object) (i : ℕ) (done : List Entry) (e : Entry) (es : List Entry)
      → e.epoch ≡ i
      → Matching s.snapshot (e ∷ es)
      → Settled s u r (i + 1) (done ++ e ∷ []) es
      → Settled s u r i done (e ∷ es)
  unchanged-Settled s u r i done e es at m t = record {
    objects = t.objects;
    below = λ p l. t.below p (omega (arith, l));
    absent = λ p l. t.absent p l.1;
    entries = e ∷ t.entries;
    parts = t.parts ∙ append_assoc done (e ∷ []) t.entries;
    matching =
        Matching-entry s.snapshot u.snapshot i e e t.entries
          (record { epoch = at; snapshots = refl; cleanups = refl }) m.0 (λ p w. m.1 p w ∙ at)
          t.below t.matching;
  }

  -- The loop after the entry `e`, which has become `n` in the state `y`.
  entry-Settled :
      (s y u r : State Object) (i : ℕ) (done : List Entry) (e n : Entry) (es : List Entry)
      → i < e.epoch
      → Matching s.snapshot (e ∷ es)
      → Renumbered i e n
      → ((p : ℕ) → contains p e.snapshots ≡ false → y.snapshot p ≡ s.snapshot p)
      → ((p : ℕ) → contains p e.snapshots ≡ true → (y.snapshot p).epoch ≡ i)
      → Settled y u r (i + 1) (done ++ n ∷ []) es
      → Settled s u r i done (e ∷ es)
  entry-Settled s y u r i done e n es low m z kept moved t = record {
    objects = t.objects;
    below = λ p l. elim (Bool-cases (contains p e.snapshots)) [
      | inl w ↦ absurd (omega (arith, m.1 p w, l, low))
      | inr w ↦ let q = kept p w in t.below p (omega (arith, l, ap (λ x. x.epoch) q)) ∙ q
    ];
    absent = λ p l. t.absent p l.1 ∙ kept p l.0;
    entries = n ∷ t.entries;
    parts = t.parts ∙ append_assoc done (n ∷ []) t.entries;
    matching = Matching-entry y.snapshot u.snapshot i e n t.entries z m.0 moved t.below t.matching;
  }

  loop-unchanged :
      (s : State Object) (extra : ℕ → List ℕ) (i : ℕ) (e : Entry) (es : List Entry)
      → (e.epoch == i) ≡ true
      → compress_loop V s extra i (e ∷ es) ≡ compress_loop V s extra (i + 1) es
  unfolding compress_loop
  loop-unchanged s extra i e es h = rw h

  loop-entry :
      (s y : State Object) (extra extra1 : ℕ → List ℕ) (i : ℕ) (e : Entry) (es : List Entry)
      → (e.epoch == i) ≡ false
      → compress_entry V s extra i e ≡ ok (y, extra1)
      → compress_loop V s extra i (e ∷ es) ≡ compress_loop V y extra1 (i + 1) es
  unfolding compress_loop
  loop-entry s y extra extra1 i e es h run = rw (h, run)

  renames-unchanged :
      (s : State Object) (extra : ℕ → List ℕ) (i : ℕ) (e : Entry) (es : List Entry)
      → (e.epoch == i) ≡ true
      → renames V s extra i (e ∷ es) ≡ renames V s extra (i + 1) es
  unfolding renames
  renames-unchanged s extra i e es h = rw (h, renames)

  renames-entry_lem :
      (s : State Object) (extra : ℕ → List ℕ) (i : ℕ) (e : Entry) (es : List Entry)
      → (e.epoch == i) ≡ false
      → renames V s extra i (e ∷ es) ≡ (
          rename_cleanups V s extra i e.cleanups >>= λ y.
          (rename_extra V y.0 e.epoch i (y.1 e.epoch) >>= λ r2. renames V r2 y.1 (i + 1) es))
  unfolding renames
  renames-entry_lem s extra i e es h = rw (h, renames)

  renames-entry :
      (s r : State Object) (extra : ℕ → List ℕ) (i : ℕ) (e : Entry) (es : List Entry)
      → (e.epoch == i) ≡ false
      → renames V s extra i (e ∷ es) ≡ ok r
      → (r1 : State Object) × (r2 : State Object) × (extra1 : ℕ → List ℕ) × (cs : List CleanupEntry)
        × (rename_cleanups V s extra i e.cleanups ≡ ok (r1, extra1, cs))
        × (rename_extra V r1 e.epoch i (extra1 e.epoch) ≡ ok r2)
        × (renames V r2 extra1 (i + 1) es ≡ ok r)
  unfolding renames
  renames-entry s r extra i e es h run =
      let go = sym (renames-entry_lem s extra i e es h) ∙ run in
      let (y, a, f) = bind-ok (rename_cleanups V s extra i e.cleanups) _ r go in
      let (r2, b, g) = bind-ok (rename_extra V y.0 e.epoch i (y.1 e.epoch)) _ r f in
      (y.0, r2, y.1, y.2, a, b, g)

  compress_loop-runs :
      (s r0 r : State Object) (extra : ℕ → List ℕ) (i : ℕ) (done es : List Entry)
      → s.object ≡ r0.object
      → renames V r0 extra i es ≡ ok r
      → s.entries ≡ done ++ es
      → All (λ d. d.epoch < i) done
      → Sorted i (keys es)
      → All (λ x. x.epoch < 2 ^ 31) es
      → Matching s.snapshot es
      → (u : State Object) × (compress_loop V s extra i es ≡ ok u) × Settled s u r i done es
  unfolding compress_loop renames
  compress_loop-runs s r0 r extra i done [] same ren eq before sorted high m = (
    record s { current_epoch = i; earliest_epoch = 1 },
    refl,
    record {
      objects = same ∙ ap (λ r. r.object) (ok_inj r0 r ren);
      below = λ p l. refl;
      absent = λ p l. refl;
      entries = [];
      parts = eq;
      matching = tt;
    },
  )
  compress_loop-runs s r0 r extra i done (e ∷ es) same ren eq before sorted high m =
      let behind : (n : Entry) → n.epoch ≡ i → All (λ d. d.epoch < i + 1) (done ++ n ∷ []) = λ n f.
        All-append (λ d. d.epoch < i + 1) done (n ∷ [])
          (All-imp (λ d. d.epoch < i) (λ d. d.epoch < i + 1) done (λ d h. omega (arith, h)) before)
          (omega (arith, f), tt) in
      let rest : Sorted (i + 1) (keys es) =
        Sorted-mono (i + 1) (suc e.epoch) (keys es) (omega (arith, sorted.0)) sorted.1 in
      elim (Bool-cases (e.epoch == i)) [
        | inl h ↦
            let at = ==→eq e.epoch i h in
            let (u, run, t) =
              compress_loop-runs s r0 r extra (i + 1) (done ++ e ∷ []) es same
                (sym (renames-unchanged r0 extra i e es h) ∙ ren)
                (eq ∙ sym (append_assoc done (e ∷ []) es)) (behind e at) rest high.1 m.2 in
            (u, loop-unchanged s extra i e es h ∙ run, unchanged-Settled s u r i done e es at m t)
        | inr h ↦
            let d = ==→ne e.epoch i h in
            let low : i < e.epoch = omega (arith, sorted.0, d) in
            let later = Sorted-above e.epoch (suc e.epoch) es (omega arith) sorted.1 in
            let free : All (λ x. x.epoch ≢ i) s.entries =
              subst (All (λ x. x.epoch ≢ i)) (sym eq) (not_there i done e es before d low later) in
            let (r1, r2, extra1, cs, run1, run2, ren2) = renames-entry r0 r extra i e es h ren in
            let (y, run, kept, moved, b) =
              compress_entry-runs V s r0 r1 r2 extra extra1 cs i e same run1 run2 low high.0 free
                m.0 m.1 in
            let (_, _, (n, k, z)) =
              compress_entry-Renumbered V s extra i e done es (y, extra1) eq before h run in
            let (u, run3, t) =
              compress_loop-runs y r2 r extra1 (i + 1) (done ++ n ∷ []) es b ren2
                (k ∙ sym (append_assoc done (n ∷ []) es)) (behind n z.epoch) rest high.1
                (Matching-keep s.snapshot y.snapshot e.epoch e.snapshots es kept m.1 later m.2) in
            (
              u,
              loop-entry s y extra extra1 i e es h run ∙ run3,
              entry-Settled s y u r i done e n es low m z kept moved t,
            )
      ]

  -- `compress_epochs` succeeds over a map whose keys increase from 1 on and are below 2 ^ 31, with
  -- every snapshot at the epoch of the one entry that holds it, if the calls of the objects'
  -- `rename_epoch` that it makes all return. The objects are then as those calls leave them. The
  -- entries have the epochs 1, 2 and so on, in their order, each with the snapshots that it had and a
  -- cleanup list of the objects that it had, and every snapshot in an entry is at its new epoch; other
  -- snapshots are as they were. The current epoch is the one behind the entries, and the earliest 1.
  pub compress_epochs-succeeds :
      (s r : State Object)
      → s.entries ≢ []
      → Sorted 1 (keys s.entries)
      → All (λ x. x.epoch < 2 ^ 31) s.entries
      → Matching s.snapshot s.entries
      → renames V s (λ epoch. []) 1 s.entries ≡ ok r
      → (u : State Object) × (compress_epochs V s ≡ ok u)
        × (u.object ≡ r.object)
        × Numbered 1 s.entries u.entries
        × Matching u.snapshot u.entries
        × ((p : ℕ) → Absent p s.entries → u.snapshot p ≡ s.snapshot p)
        × (u.current_epoch ≡ 1 + length s.entries)
        × (u.earliest_epoch ≡ 1)
  unfolding compress_epochs
  compress_epochs-succeeds s r some_entry sorted high m ren =
      let (u, run, t) =
        compress_loop-runs s s r (λ epoch. []) 1 [] s.entries refl ren refl tt sorted high m in
      let whole : compress_epochs V s ≡ ok u = rw (nonempty s.entries some_entry) run in
      let (a, b, c) = compress_epochs-Numbered V s u some_entry whole in
      (u, whole, t.objects, a, subst (Matching u.snapshot) (sym t.parts) t.matching, t.absent, b, c)
