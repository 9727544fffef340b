-- ===== src/SnapshotInfo/Register.antt =====
-- `register_snapshot` of jmvcc/snapshot.cc and `set_epoch` of jmvcc/snapshot_impl.h.
use libjmvcc.Base.{
  snoc-cases, contains, update, ◌≢◌, All-append_right, All-append_left, get_last?-append,
  Bool-cases, ℕ, ◌≤◌, ◌<◌, ◌≡◌, refl, ap, ◌∙◌, sym, subst, true, false, List, [], ◌∷◌, ◌++◌, some,
  arith, All, All-append, get_last?, ne→==, ==-self, if◌then◌else◌, inl, inr, ok, ◌==◌, ◌⊎◌,
}
use mathlib.Core.List.{append_assoc}
use libjmvcc.VersionedObject.{VersionedObject}
use libjmvcc.SnapshotInfo.Registry.{
  State, Status, CleanupEntry, Entry, set_insert, set_erase, set_status,
}
use libjmvcc.SnapshotInfo.{
  find, insert_snapshot, is_empty, perform_cleanup, clean_found, check_inserted, clean_previous,
  register_snapshot, set_epoch, register_me, registered_status,
}
use libjmvcc.SnapshotInfo.Order.{
  keys, Sorted, pending, keys-append, pending-append, Sorted-join, find-split, insert_snapshot-new,
  insert_snapshot-last, last-cases,
}
use libjmvcc.SnapshotInfo.Retire.{IsOrdered}
use libjmvcc.SnapshotInfo.Remove.{without, remove_snapshot_shared}

module _ (V : VersionedObject) where
  open V use {Object}

  abbrev pub new_entry : State Object → ℕ → Entry
  new_entry s p = record { epoch = s.current_epoch; snapshots = p ∷ []; cleanups = [] }

  -- The last entry is a new one, or that of the current epoch with one more snapshot.
  abbrev pub Extended : State Object → ℕ → List Entry → Type 0
  Extended s p es =
      (es ≡ s.entries ++ new_entry s p ∷ [])
      ⊎ ((b : List Entry) × (e : Entry) × (s.entries ≡ b ++ e ∷ [])
          × (e.epoch ≡ s.current_epoch)
          × (es ≡ b ++ record e { snapshots = set_insert p e.snapshots } ∷ []))

  -- `s` with `p` registered in the last entry of the map, which is that of the current epoch.
  pub record Registered (s t : State Object) (p : ℕ) : Type 0 where
    pub same_epoch : t.current_epoch ≡ s.current_epoch
    pub seen_epoch : (t.snapshot p).epoch ≡ s.current_epoch
    pub same_status : (t.snapshot p).status ≡ (s.snapshot p).status
    pub ordered : IsOrdered t
    pub same_objects : t.object ≡ s.object
    pub snapshots_after :
        t.snapshot ≡ update s.snapshot p (record (s.snapshot p) { epoch = s.current_epoch })
    pub shape : Extended s p t.entries
    pub before : List Entry
    pub last : Entry
    pub parts : t.entries ≡ before ++ last ∷ []
    pub at_epoch : last.epoch ≡ s.current_epoch
    pub member : contains p last.snapshots ≡ true
    pub conserved : (w : CleanupEntry → ℕ) → pending w t.entries ≡ pending w s.entries

  -- The map has no entry without a snapshot.
  abbrev pub Occupied : List Entry → Type 0
  Occupied = All λ e. is_empty e.snapshots ≡ false

  contains-insert : (p : ℕ) (qs : List ℕ) → contains p (set_insert p qs) ≡ true
  unfolding set_insert
  contains-insert p qs = elim (Bool-cases (contains p qs)) [
    | inl h ↦ rw h h
    | inr h ↦ rw h (rw (==-self p))
  ]

  abbrev inserted : State Object → ℕ → List Entry → State Object
  inserted s p es = record s {
    snapshot = update s.snapshot p (record (s.snapshot p) { epoch = s.current_epoch });
    entries = es;
  }

  register_snapshot_lem :
      (s : State Object) (p : ℕ) (b : List Entry) (e : Entry)
      → insert_snapshot s.current_epoch p s.entries ≡ b ++ e ∷ []
      → find s.current_epoch (b ++ e ∷ []) ≡ some (b, e, [])
      → register_snapshot V s p
        ≡ clean_previous V (inserted s p (b ++ e ∷ [])) (get_last? s.entries) s.current_epoch
  unfolding register_snapshot check_inserted
  register_snapshot_lem s p b e q r =
      ap
        (λ l.
          check_inserted V (inserted s p l) (get_last? s.entries) s.current_epoch
            (find s.current_epoch l))
        q
      ∙ ap (check_inserted V (inserted s p (b ++ e ∷ [])) (get_last? s.entries) s.current_epoch) r

  clean_previous_same :
      (t : State Object) (l : Entry) (epoch : ℕ)
      → l.epoch ≡ epoch
      → clean_previous V t (some l) epoch ≡ ok t
  unfolding clean_previous
  clean_previous_same t l epoch q =
      ap (λ n. if n then ok t else clean_found V t (find l.epoch t.entries))
        (ap (◌==◌ l.epoch) (sym q) ∙ ==-self l.epoch)

  clean_previous_occupied :
      (t : State Object) (b : List Entry) (l : Entry) (a : List Entry) (epoch : ℕ)
      → l.epoch ≢ epoch
      → find l.epoch t.entries ≡ some (b, l, a)
      → is_empty l.snapshots ≡ false
      → clean_previous V t (some l) epoch ≡ ok t
  unfolding clean_previous clean_found
  clean_previous_occupied t b l a epoch q r o =
      ap (λ n. if n then ok t else clean_found V t (find l.epoch t.entries)) (ne→== l.epoch epoch q)
      ∙ ap (clean_found V t) r
      ∙ ap (λ n. if n then perform_cleanup V t b l a else ok t) o

  -- The previous entry is occupied, so that nothing is cleaned up when a new one follows it.
  clean_previous_new :
      (s : State Object) (p : ℕ)
      → Sorted s.earliest_epoch (keys (s.entries ++ new_entry s p ∷ []))
      → All (λ j. j < s.current_epoch) (keys s.entries)
      → Occupied s.entries
      → clean_previous V
          (inserted s p (s.entries ++ new_entry s p ∷ []))
          (get_last? s.entries)
          s.current_epoch
        ≡ ok (inserted s p (s.entries ++ new_entry s p ∷ []))
  unfolding clean_previous
  clean_previous_new s p sorted new occ =
      let t = inserted s p (s.entries ++ new_entry s p ∷ []) in
      elim (snoc-cases s.entries) [
        | inl q ↦ ap (λ o. clean_previous V t o s.current_epoch) (ap get_last? q)
        | inr (b, l, q) ↦
            let eq : s.entries ++ new_entry s p ∷ [] ≡ b ++ l ∷ new_entry s p ∷ [] =
              ap (λ es. es ++ new_entry s p ∷ []) q
              ∙ append_assoc b (l ∷ []) (new_entry s p ∷ []) in
            let below =
              All-append_right _ (keys b) (l.epoch ∷ [])
                (subst (All (λ j. j < s.current_epoch)) (ap keys q ∙ keys-append b (l ∷ [])) new) in
            let full = All-append_right _ b (l ∷ []) (subst Occupied q occ) in
            ap (λ o. clean_previous V t o s.current_epoch) (ap get_last? q ∙ get_last?-append b l)
            ∙ clean_previous_occupied t b l (new_entry s p ∷ []) s.current_epoch
                (λ e. absurd (omega (arith, below.0)))
                (ap (find l.epoch) eq
                  ∙ find-split s.earliest_epoch b l (new_entry s p ∷ [])
                      (subst (λ es. Sorted s.earliest_epoch (keys es)) eq sorted))
                full.0
      ]

  register_new :
      (s : State Object) (p : ℕ)
      → IsOrdered s
      → Occupied s.entries
      → All (λ j. j < s.current_epoch) (keys s.entries)
      → (t : State Object) × (register_snapshot V s p ≡ ok t)
        × Registered s t p
        × Occupied t.entries
  register_new s p o occ new =
      let n = new_entry s p in
      let es = s.entries ++ n ∷ [] in
      let ks : keys es ≡ keys s.entries ++ s.current_epoch ∷ [] = keys-append s.entries (n ∷ []) in
      let sorted : Sorted s.earliest_epoch (keys es) = subst (Sorted s.earliest_epoch) (sym ks) (
        Sorted-join s.earliest_epoch s.current_epoch (keys s.entries) (s.current_epoch ∷ [])
          o.bounds o.sorted new (omega arith, tt)) in
      (
        inserted s p es,
        register_snapshot_lem s p s.entries n (insert_snapshot-new s.current_epoch p s.entries new)
              (find-split s.earliest_epoch s.entries n [] sorted)
            ∙ clean_previous_new s p sorted new occ,
        record {
          same_epoch = refl;
          seen_epoch = rw (==-self p);
          same_status = rw (==-self p);
          ordered = record {
            sorted = sorted;
            recent =
                subst (All (λ k. k ≤ s.current_epoch)) (sym ks)
                  (All-append _ (keys s.entries) (s.current_epoch ∷ []) o.recent (omega arith, tt));
            bounds = o.bounds;
          };
          same_objects = refl;
          snapshots_after = refl;
          shape = inl refl;
          before = s.entries;
          last = n;
          parts = refl;
          at_epoch = refl;
          member = rw (==-self p);
          conserved = λ w. omega (arith, pending-append w s.entries (n ∷ []));
        },
        All-append _ s.entries (n ∷ []) occ (refl, tt),
      )

  is_empty-insert : (p : ℕ) (qs : List ℕ) → is_empty (set_insert p qs) ≡ false
  unfolding set_insert
  is_empty-insert p [] = refl
  is_empty-insert p (q ∷ qs) = ground arith

  register_again :
      (s : State Object) (p : ℕ) (b : List Entry) (e : Entry)
      → IsOrdered s
      → Occupied s.entries
      → s.entries ≡ b ++ e ∷ []
      → e.epoch ≡ s.current_epoch
      → All (λ j. j < s.current_epoch) (keys b)
      → (t : State Object) × (register_snapshot V s p ≡ ok t)
        × Registered s t p
        × Occupied t.entries
  register_again s p b e o occ q r before =
      let e' = record e { snapshots = set_insert p e.snapshots } in
      let es = b ++ e' ∷ [] in
      let ks : keys es ≡ keys s.entries =
        keys-append b (e' ∷ []) ∙ sym (keys-append b (e ∷ [])) ∙ sym (ap keys q) in
      let sorted : Sorted s.earliest_epoch (keys es) =
        subst (Sorted s.earliest_epoch) (sym ks) o.sorted in
      let inserts : insert_snapshot s.current_epoch p s.entries ≡ es =
        ap (λ k. insert_snapshot k p s.entries) (sym r)
        ∙ ap (insert_snapshot e.epoch p) q
        ∙ insert_snapshot-last p b e (subst (λ k. All (λ j. j < k) (keys b)) (sym r) before) in
      (
        inserted s p es,
        register_snapshot_lem s p b e' inserts
              (ap (λ k. find k es) (sym r) ∙ find-split s.earliest_epoch b e' [] sorted)
            ∙ ap (λ o. clean_previous V (inserted s p es) o s.current_epoch)
                (ap get_last? q ∙ get_last?-append b e)
            ∙ clean_previous_same (inserted s p es) e s.current_epoch r,
        record {
          same_epoch = refl;
          seen_epoch = rw (==-self p);
          same_status = rw (==-self p);
          ordered = record {
            sorted = sorted;
            recent = subst (All (λ k. k ≤ s.current_epoch)) (sym ks) o.recent;
            bounds = o.bounds;
          };
          same_objects = refl;
          snapshots_after = refl;
          shape = inr (b, e, q, r, refl);
          before = b;
          last = e';
          parts = refl;
          at_epoch = r;
          member = contains-insert p e.snapshots;
          conserved = λ w.
              omega (
                arith,
                pending-append w b (e' ∷ []),
                pending-append w b (e ∷ []),
                ap (pending w) q,
              );
        },
        All-append _ b (e' ∷ []) (All-append_left _ b (e ∷ []) (subst Occupied q occ))
            (is_empty-insert p e.snapshots, tt),
      )

  -- Registering a snapshot in a map in order, without an entry that has no snapshot, succeeds: the
  -- snapshot gets the current epoch and stands in its entry, the last of the map. Its status does not
  -- change, the map stays in order without an empty entry, and the registered cleanups keep their
  -- total under every weight.
  pub register_snapshot-Registered :
      (s : State Object) (p : ℕ)
      → IsOrdered s
      → Occupied s.entries
      → (t : State Object) × (register_snapshot V s p ≡ ok t)
        × Registered s t p
        × Occupied t.entries
  register_snapshot-Registered s p o occ =
      elim (last-cases s.earliest_epoch s.current_epoch s.entries o.sorted o.recent) [
        | inl new ↦ register_new s p o occ new
        | inr (b, e, q, r, before) ↦ register_again s p b e o occ q r before
      ]

  pub erased-Occupied :
      (p : ℕ) (b : List Entry) (e : Entry) (a : List Entry)
      → Occupied (b ++ e ∷ a)
      → is_empty (set_erase p e.snapshots) ≡ false
      → Occupied (b ++ record e { snapshots = set_erase p e.snapshots } ∷ a)
  erased-Occupied p b e a occ q =
      All-append _ b (record e { snapshots = set_erase p e.snapshots } ∷ a)
        (All-append_left _ b (e ∷ a) occ) (q, (All-append_right _ b (e ∷ a) occ).1)

  -- The snapshot stands in the last entry of the map, which is that of the current epoch of `s`.
  abbrev pub Standing : State Object → State Object → ℕ → Type 0
  Standing s t p =
      (before : List Entry) × (last : Entry) × (t.entries ≡ before ++ last ∷ [])
      × (last.epoch ≡ s.current_epoch)
      × (contains p last.snapshots ≡ true)

  -- Moving a snapshot away from an epoch that it shares, in a map in order without an empty entry,
  -- succeeds: it is at the current epoch and stands in the last entry of the map, which is that of the
  -- current epoch, the map is in order, and the objects are as they were. Its status is then
  -- RESTARTING0A, which `remove_snapshot` sets, whatever it was before.
  pub set_epoch-Registered :
      (s : State Object) (p new_epoch : ℕ) (b : List Entry) (e : Entry) (a : List Entry)
      → IsOrdered s
      → Occupied s.entries
      → s.entries ≡ b ++ e ∷ a
      → (s.snapshot p).epoch ≡ e.epoch
      → contains p e.snapshots ≡ true
      → is_empty (set_erase p e.snapshots) ≡ false
      → new_epoch ≢ (s.snapshot p).epoch
      → (t : State Object) × (set_epoch V s p new_epoch ≡ ok t)
        × ((t.snapshot p).epoch ≡ s.current_epoch)
        × ((t.snapshot p).status ≡ Status.restarting0a)
        × Standing s t p
        × IsOrdered t
        × (t.object ≡ s.object)
  unfolding set_epoch register_me registered_status
  set_epoch-Registered s p new_epoch b e a o occ q r c d ne =
      let (gone, o') = remove_snapshot_shared V s p b e a o q r c d in
      let (t, run, reg, _) =
        register_snapshot-Registered (without V s p b e a) p o'
          (erased-Occupied p b e a (subst Occupied q occ) d) in
      let status : (t.snapshot p).status ≡ Status.restarting0a =
        reg.same_status ∙ (rw (==-self p)) in
      (
        set_status t p Status.restarting0a,
        simp (ne→== new_epoch (s.snapshot p).epoch ne, gone, run, status),
        rw (==-self p) reg.seen_epoch,
        rw (==-self p),
        (reg.before, reg.last, reg.parts, reg.at_epoch, reg.member),
        record {
          sorted = reg.ordered.sorted;
          recent = reg.ordered.recent;
          bounds = reg.ordered.bounds;
        },
        reg.same_objects,
      )
