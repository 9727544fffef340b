-- ===== src/SnapshotInfo/Compress/Numbering.antt =====
-- What `compress_epochs` of jmvcc/snapshot.cc makes of the entries, and of their epochs' bound.
use libjmvcc.Base.{
  ℕ, zero, suc, ◌+◌, ◌-◌, ◌<◌, ◌≤◌, ◌^◌, ◌≡◌, ◌≢◌, refl, ap, ap₂, ◌∙◌, sym, subst, Bool, true,
  false, List, [], ◌∷◌, ◌++◌, map, All, All-imp, All-append, arith, ltb, ◌==◌, if◌then◌else◌, Error,
  ok, ◌>>=◌, ok_inj, bind-ok, throw_if-ok, length, ◌⊎◌, inl, inr, Bool-cases, ==→eq, ==-self,
}
use mathlib.Core.List.{append_assoc}
use libjmvcc.VersionedObject.{VersionedObject}
use libjmvcc.SnapshotInfo.Registry.{State, CleanupEntry, Entry}
use libjmvcc.SnapshotInfo.{rename_epoch, is_empty}
use libjmvcc.SnapshotInfo.Compress.{
  pos, negsuc, as_int, gt, exceeds, insert_entry, erase_entry, add_extra, rename_object,
  rename_cleanups, rename_extra, rename_snapshots, compress_entry, compress_loop, compress_epochs,
}

abbrev pub objects : List CleanupEntry → List ℕ
objects = map λ c. c.object

module _ (V : VersionedObject) where
  open V use {Object}

  rename_object-entries :
      (s : State Object) (obj from to : ℕ) (y : ℕ × State Object)
      → rename_object V s obj from to ≡ ok y
      → y.1.entries ≡ s.entries
  unfolding rename_object
  rename_object-entries s obj from to y e =
      let (x, _, f) = bind-ok (V.rename_epoch (s.object obj) from to) _ y e in
      ap (λ y. y.1.entries) (sym (ok_inj _ y f))

  pub rename_cleanups-entries :
      (s : State Object) (extra : ℕ → List ℕ) (to : ℕ) (cs : List CleanupEntry)
      (y : State Object × (ℕ → List ℕ) × List CleanupEntry)
      → rename_cleanups V s extra to cs ≡ ok y
      → (y.0.entries ≡ s.entries) × (objects y.2 ≡ objects cs) × All (λ c. c.valid_from ≡ to) y.2
  unfolding rename_cleanups
  rename_cleanups-entries s extra to [] y e =
      let f = ok_inj _ y e in
      (
        ap (λ y. y.0.entries) (sym f),
        ap (λ y. objects y.2) (sym f),
        subst (λ y. All (λ c. c.valid_from ≡ to) y.2) f tt,
      )
  rename_cleanups-entries s extra to (c ∷ cs) y e =
      let ((next, s1), h, f) = bind-ok (rename_object V s c.object c.valid_from to) _ y e in
      let (z, k, g) = bind-ok (rename_cleanups V s1 (add_extra extra next c.object) to cs) _ y f in
      let (a, b, v) = rename_cleanups-entries s1 (add_extra extra next c.object) to cs z k in
      let i = ok_inj _ y g in
      (
        ap (λ y. y.0.entries) (sym i)
            ∙ a
            ∙ rename_object-entries s c.object c.valid_from to (next, s1) h,
        ap (λ y. objects y.2) (sym i) ∙ ap (◌∷◌ c.object) b,
        subst (λ y. All (λ c. c.valid_from ≡ to) y.2) i (refl, v),
      )

  pub rename_extra-entries :
      (s : State Object) (from to : ℕ) (objs : List ℕ) (u : State Object)
      → rename_extra V s from to objs ≡ ok u
      → u.entries ≡ s.entries
  unfolding rename_extra
  rename_extra-entries s from to [] u e = ap (λ s. s.entries) (sym (ok_inj s u e))
  rename_extra-entries s from to (obj ∷ objs) u e =
      let ((next, s1), h, f) = bind-ok (rename_object V s obj from to) _ u e in
      rename_extra-entries s1 from to objs u f ∙ rename_object-entries s obj from to (next, s1) h

  pub rename_snapshots-entries :
      (s : State Object) (from to : ℕ) (ps : List ℕ) (u : State Object)
      → rename_snapshots V s from to ps ≡ ok u
      → u.entries ≡ s.entries
  unfolding rename_snapshots rename_epoch
  rename_snapshots-entries s from to [] u e = ap (λ s. s.entries) (sym (ok_inj s u e))
  rename_snapshots-entries s from to (p ∷ ps) u e =
      let (s1, h, f) = bind-ok (rename_epoch V s p from to) _ u e in
      let (_, g) = throw_if-ok _ _ _ s1 h in
      rename_snapshots-entries s1 from to ps u f ∙ ap (λ s. s.entries) (sym (ok_inj _ s1 g))

pub nonempty {ℓ} : {A : Type ℓ} (l : List A) → l ≢ [] → is_empty l ≡ false
nonempty [] d = absurd (d refl)
nonempty (x ∷ l) d = refl

insert_entry-between :
    (n e : Entry) (done es : List Entry)
    → All (λ d. d.epoch < n.epoch) done
    → n.epoch < e.epoch
    → insert_entry n (done ++ e ∷ es) ≡ done ++ n ∷ e ∷ es
unfolding insert_entry
insert_entry-between n e [] es h l =
    let t : ltb n.epoch e.epoch ≡ true = ground (arith, l) in simp t
insert_entry-between n e (d ∷ done) es (h, hs) l =
    let f : ltb n.epoch d.epoch ≡ false = ground (arith, h) in
    simp f (ap (◌∷◌ d) (insert_entry-between n e done es hs l))

erase_entry-between :
    (n e : Entry) (done es : List Entry)
    → All (λ d. d.epoch < n.epoch) done
    → n.epoch < e.epoch
    → erase_entry e.epoch (done ++ n ∷ e ∷ es) ≡ done ++ n ∷ es
unfolding erase_entry
erase_entry-between n e [] es h l =
    let t : (n.epoch == e.epoch) ≡ false = ground (arith, l) in simp (t, ==-self e.epoch)
erase_entry-between n e (d ∷ done) es (h, hs) l =
    let f : (d.epoch == e.epoch) ≡ false = ground (arith, h, l) in
    simp f (ap (◌∷◌ d) (erase_entry-between n e done es hs l))

-- An entry with the epoch `i`, and the snapshots and the objects that the entry `e` has.
pub record Renumbered (i : ℕ) (e n : Entry) : Type 0 where
  pub epoch : n.epoch ≡ i
  pub snapshots : n.snapshots ≡ e.snapshots
  pub cleanups : objects n.cleanups ≡ objects e.cleanups

exceeds-false : (i k : ℕ) → exceeds i k ≡ false → (i ≤ k) × (k < 2 ^ 31)
unfolding exceeds as_int gt
exceeds-false i k e = elim (Bool-cases (ltb k (2 ^ 31))) [
  | inl h ↦
      let f : gt (pos i) (pos k) ≡ false =
        sym (ap (λ b. gt (pos i) (if b then pos k else negsuc (2 ^ 32 - 1 - k))) h) ∙ e in
      (ground (arith, f), ground (arith, h))
  | inr h ↦
      let f : true ≡ false =
        sym (ap (λ b. gt (pos i) (if b then pos k else negsuc (2 ^ 32 - 1 - k))) h) ∙ e in
      cc
]

abbrev pub numbers : ℕ → ℕ → List ℕ
numbers i zero = []
numbers i (suc n) = i ∷ numbers (i + 1) n

-- The epochs that the loop takes from `i` on.
abbrev pub InRange : ℕ → List Entry → Type 0
InRange i [] = Unit
InRange i (e ∷ es) = ((e.epoch ≡ i) ⊎ ((i < e.epoch) × (e.epoch < 2 ^ 31))) × InRange (i + 1) es

-- The entries `us` that the loop makes of `es`, with the epochs from `i` on.
pub record Numbered (i : ℕ) (es us : List Entry) : Type 0 where
  pub epochs : map (λ e. e.epoch) us ≡ numbers i (length es)
  pub snapshots : map (λ e. e.snapshots) us ≡ map (λ e. e.snapshots) es
  pub cleanups : map (λ e. objects e.cleanups) us ≡ map (λ e. objects e.cleanups) es
  pub in_range : InRange i es

Numbered-step :
    (i : ℕ) (e n : Entry) (es us : List Entry)
    → (e.epoch ≡ i) ⊎ ((i < e.epoch) × (e.epoch < 2 ^ 31))
    → Renumbered i e n
    → Numbered (i + 1) es us
    → Numbered i (e ∷ es) (n ∷ us)
Numbered-step i e n es us b r h = record {
  epochs = ap₂ (λ k ks. k ∷ ks) r.epoch h.epochs;
  snapshots = ap₂ (λ k ks. k ∷ ks) r.snapshots h.snapshots;
  cleanups = ap₂ (λ k ks. k ∷ ks) r.cleanups h.cleanups;
  in_range = (b, h.in_range);
}

module _ (V : VersionedObject) where
  open V use {Object}

  pub compress_entry-Renumbered :
      (s : State Object) (extra : ℕ → List ℕ) (i : ℕ) (e : Entry) (done es : List Entry)
      (y : State Object × (ℕ → List ℕ))
      → s.entries ≡ done ++ e ∷ es
      → All (λ d. d.epoch < i) done
      → (e.epoch == i) ≡ false
      → compress_entry V s extra i e ≡ ok y
      → (i < e.epoch)
        × (e.epoch < 2 ^ 31)
        × ((n : Entry) × (y.0.entries ≡ done ++ n ∷ es) × Renumbered i e n)
  unfolding compress_entry
  compress_entry-Renumbered s extra i e done es y eq before ne run =
      let (ex, r1) = throw_if-ok (exceeds i e.epoch) Error.logic_error_in_compress _ y run in
      let (low, high) = exceeds-false i e.epoch ex in
      let above : i < e.epoch = ground (arith, low, ne) in
      let ((s1, extra1, cs), h1, r2) = bind-ok (rename_cleanups V s extra i e.cleanups) _ y r1 in
      let (k1, ob, _) = rename_cleanups-entries V s extra i e.cleanups (s1, extra1, cs) h1 in
      let (s2, h2, r3) = bind-ok (rename_extra V s1 e.epoch i (extra1 e.epoch)) _ y r2 in
      let (s3, h3, r4) = bind-ok (rename_snapshots V s2 e.epoch i e.snapshots) _ y r3 in
      let (_, r5) = throw_if-ok _ Error.new_epoch_already_there _ y r4 in
      let n : Entry = record { epoch = i; snapshots = e.snapshots; cleanups = cs } in
      let kept : s3.entries ≡ done ++ e ∷ es =
        rename_snapshots-entries V s2 e.epoch i e.snapshots s3 h3
        ∙ rename_extra-entries V s1 e.epoch i (extra1 e.epoch) s2 h2
        ∙ k1
        ∙ eq in
      (
        above,
        high,
        (
          n,
          ap (λ y. y.0.entries) (sym (ok_inj _ y r5))
              ∙ ap (λ l. erase_entry e.epoch (insert_entry n l)) kept
              ∙ ap (erase_entry e.epoch) (insert_entry-between n e done es before above)
              ∙ erase_entry-between n e done es before above,
          record { epoch = refl; snapshots = refl; cleanups = ob },
        ),
      )

  compress_loop-Numbered :
      (s : State Object) (extra : ℕ → List ℕ) (i : ℕ) (done es : List Entry) (u : State Object)
      → s.entries ≡ done ++ es
      → All (λ d. d.epoch < i) done
      → compress_loop V s extra i es ≡ ok u
      → ((us : List Entry) × (u.entries ≡ done ++ us) × Numbered i es us)
        × (u.current_epoch ≡ i + length es)
        × (u.earliest_epoch ≡ 1)
  unfolding compress_loop
  compress_loop-Numbered s extra i done [] u eq before run =
      let f = ok_inj _ u run in
      (
        (
          [],
          ap (λ s. s.entries) (sym f) ∙ eq,
          record { epochs = refl; snapshots = refl; cleanups = refl; in_range = tt },
        ),
        ap (λ s. s.current_epoch) (sym f) ∙ omega arith,
        ap (λ s. s.earliest_epoch) (sym f),
      )
  compress_loop-Numbered s extra i done (e ∷ es) u eq before run =
      let step : (b : Bool)
          → (e.epoch == i) ≡ b
          → (if b
              then compress_loop V s extra (i + 1) es
              else (compress_entry V s extra i e >>= λ x. compress_loop V x.0 x.1 (i + 1) es))
            ≡ ok u =
        λ b h.
          subst
            (λ b.
              (if b
                then compress_loop V s extra (i + 1) es
                else (compress_entry V s extra i e >>= λ x. compress_loop V x.0 x.1 (i + 1) es))
              ≡ ok u)
            h run in
      let behind : (n : Entry) → n.epoch ≡ i → All (λ d. d.epoch < i + 1) (done ++ n ∷ []) = λ n f.
        All-append (λ d. d.epoch < i + 1) done (n ∷ [])
          (All-imp (λ d. d.epoch < i) (λ d. d.epoch < i + 1) done (λ d h. omega (arith, h)) before)
          (omega (arith, f), tt) in
      elim (Bool-cases (e.epoch == i)) [
        | inl h ↦
            let f = ==→eq e.epoch i h in
            let ((us, g, m), c, d) =
              compress_loop-Numbered s extra (i + 1) (done ++ e ∷ []) es u
                (eq ∙ sym (append_assoc done (e ∷ []) es)) (behind e f) (step true h) in
            (
              (
                e ∷ us,
                g ∙ append_assoc done (e ∷ []) us,
                Numbered-step i e e es us (inl f)
                    (record { epoch = f; snapshots = refl; cleanups = refl }) m,
              ),
              c ∙ omega arith,
              d,
            )
        | inr h ↦
            let (y, r, rest) = bind-ok (compress_entry V s extra i e) _ u (step false h) in
            let (above, high, (n, k, z)) =
              compress_entry-Renumbered s extra i e done es y eq before h r in
            let ((us, g, m), c, d) =
              compress_loop-Numbered y.0 y.1 (i + 1) (done ++ n ∷ []) es u
                (k ∙ sym (append_assoc done (n ∷ []) es)) (behind n z.epoch) rest in
            (
              (
                n ∷ us,
                g ∙ append_assoc done (n ∷ []) us,
                Numbered-step i e n es us (inr (above, high)) z m,
              ),
              c ∙ omega arith,
              d,
            )
      ]

  -- If `compress_epochs` throws nothing, and there are entries, then they have the epochs 1, 2 and so
  -- on afterwards, in their order, each with the snapshots that it had and a cleanup list of the
  -- objects that it had; the current epoch is the one behind them, and the earliest 1. Every epoch
  -- was then the new one already, or above it and below 2 ^ 31.
  pub compress_epochs-Numbered :
      (s u : State Object)
      → s.entries ≢ []
      → compress_epochs V s ≡ ok u
      → Numbered 1 s.entries u.entries
        × (u.current_epoch ≡ 1 + length s.entries)
        × (u.earliest_epoch ≡ 1)
  unfolding compress_epochs
  compress_epochs-Numbered s u some_entry run =
      let filled : is_empty s.entries ≡ false = nonempty s.entries some_entry in
      let run' : compress_loop V s (λ epoch. []) 1 s.entries ≡ ok u =
        subst (λ b. (if b then ok s else compress_loop V s (λ epoch. []) 1 s.entries) ≡ ok u) filled
          run in
      let ((us, e, m), c, d) =
        compress_loop-Numbered s (λ epoch. []) 1 [] s.entries u refl tt run' in
      (subst (Numbered 1 s.entries) (sym e) m, c, d)
