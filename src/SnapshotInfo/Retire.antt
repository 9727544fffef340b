-- ===== src/SnapshotInfo/Retire.antt =====
-- `perform_cleanup` of jmvcc/snapshot.cc: which versions it cleans up, and which it passes on.
use libjmvcc.Base.{
  ℕ, suc, ◌+◌, ◌≤◌, ◌<◌, ◌≡◌, refl, ap, ◌∙◌, sym, subst, List, [], ◌∷◌, ◌++◌, some, arith, All,
  All-imp, All-append, All-append_left, All-append_right, total, get_last?, get_last?_cons, le→ltb,
  ◌⊎◌, inl, inr, ok, ok_inj, bind-ok, throw_if-ok, throw_if, ltb, Error, ◌>>◌, ◌>>=◌, not, Result,
}
use libjmvcc.VersionedObject.{VersionedObject}
use libjmvcc.SnapshotInfo.Registry.{State, CleanupEntry, Entry, set_earliest_epoch}
use libjmvcc.SnapshotInfo.{add_cleanups, share, next_earliest, move_earliest, is_empty, retire}
use libjmvcc.SnapshotInfo.Order.{
  keys, Sorted, pending, keys-append, pending-append, keys-add_cleanups, pending-add_cleanups,
  Sorted-split, Sorted-join, Sorted-mono, Sorted-lt, Sorted-last, share-total, share-obsolete,
}

-- The map is sorted, between the earliest and the current epoch.
pub record IsOrdered {O : Type 0} (s : State O) : Type 0 where
  pub sorted : Sorted s.earliest_epoch (keys s.entries)
  pub recent : All (λ k. k ≤ s.current_epoch) (keys s.entries)
  pub bounds : s.earliest_epoch ≤ s.current_epoch

-- No entry of the map has an epoch at which the version that began at `valid_from` is seen, of all
-- the epochs up to `epoch`.
abbrev pub Unseen : List Entry → ℕ → CleanupEntry → Type 0
Unseen es epoch c = All (λ k. (k < c.valid_from) ⊎ (epoch < k)) (keys es)

module _ (V : VersionedObject) where
  open V use {Object}

  -- What `perform_cleanup` leaves when it retires the entry `e`: the entries before it, with the
  -- cleanups that are still needed, and those behind it.
  pub record Retired (s t : State Object) (b : List Entry) (e : Entry) (a : List Entry)
      (obsolete : List CleanupEntry) : Type 0 where
    pub same_epoch : t.current_epoch ≡ s.current_epoch
    pub ordered : IsOrdered t
    pub kept : keys t.entries ≡ keys b ++ keys a
    pub unseen : All (Unseen t.entries e.epoch) obsolete
    pub conserved :
        (w : CleanupEntry → ℕ) → total w obsolete + pending w t.entries ≡ pending w (b ++ e ∷ a)

  set_earliest_epoch_lem :
      (s : State Object) (val : ℕ)
      → s.earliest_epoch ≤ val
      → val ≤ s.current_epoch
      → set_earliest_epoch s val ≡ ok (record s { earliest_epoch = val })
  unfolding set_earliest_epoch
  set_earliest_epoch_lem s val p q =
      simp (le→ltb val s.earliest_epoch p, le→ltb s.current_epoch val q)

  next_earliest_bounds :
      (lo cur k : ℕ) (a : List Entry)
      → lo ≤ k
      → k ≤ cur
      → Sorted (suc k) (keys a)
      → All (λ j. j ≤ cur) (keys a)
      → (lo ≤ next_earliest cur a)
        × (next_earliest cur a ≤ cur)
        × Sorted (next_earliest cur a) (keys a)
  unfolding next_earliest
  next_earliest_bounds lo cur k [] p q s r = (omega arith, omega arith, tt)
  next_earliest_bounds lo cur k (e ∷ a) p q s r = (omega arith, r.0, (omega arith, s.1))

  -- The first entry: all its cleanups are due, and the earliest epoch moves on.
  retire_first :
      (s : State Object) (e : Entry) (a : List Entry)
      → IsOrdered s
      → s.entries ≡ e ∷ a
      → e.snapshots ≡ []
      → (t : State Object) × (retire V s [] e a ≡ ok (t, e.cleanups))
        × Retired s t [] e a e.cleanups
  unfolding retire move_earliest share add_cleanups
  retire_first s e a o p q =
      let sorted : Sorted s.earliest_epoch (keys (e ∷ a)) =
        subst (λ l. Sorted s.earliest_epoch (keys l)) p o.sorted in
      let recent : All (λ k. k ≤ s.current_epoch) (keys (e ∷ a)) =
        subst (λ l. All (λ k. k ≤ s.current_epoch) (keys l)) p o.recent in
      let (lo, hi, rest) =
        next_earliest_bounds s.earliest_epoch s.current_epoch e.epoch a sorted.0 recent.0 sorted.1
          recent.1 in
      let later : All (λ k. e.epoch < k) (keys a) = Sorted-lt e.epoch (keys a) sorted.1 in
      (
        record s { earliest_epoch = next_earliest s.current_epoch a; entries = a },
        simp (ap is_empty q, set_earliest_epoch_lem s (next_earliest s.current_epoch a) lo hi),
        record {
          same_epoch = refl;
          ordered = record { sorted = rest; recent = recent.1; bounds = hi };
          kept = refl;
          unseen = all_unseen e.cleanups later;
          conserved = λ w. refl;
        },
      )
    where
      all_unseen :
          (cs : List CleanupEntry) → All (λ k. e.epoch < k) (keys a) → All (Unseen a e.epoch) cs
      all_unseen [] l = tt
      all_unseen (c ∷ cs) l = (All-imp _ _ (keys a) (λ k q. inr q) l, all_unseen cs l)

  -- Another entry: the entry before it takes over the cleanups that its snapshots still need.
  retire_later :
      (s : State Object) (x : Entry) (b : List Entry) (e : Entry) (a : List Entry) (l : Entry)
      → IsOrdered s
      → s.entries ≡ x ∷ b ++ e ∷ a
      → e.snapshots ≡ []
      → get_last? (x ∷ b) ≡ some l
      → (t : State Object) × (retire V s (x ∷ b) e a ≡ ok (t, (share (some l) e.cleanups).1))
        × Retired s t (x ∷ b) e a (share (some l) e.cleanups).1
  unfolding retire move_earliest
  retire_later s x b e a l o p q last =
      let moved = (share (some l) e.cleanups).0 in
      let obsolete = (share (some l) e.cleanups).1 in
      let es = add_cleanups (x ∷ b) moved ++ a in
      let ks : keys s.entries ≡ keys (x ∷ b) ++ e.epoch ∷ keys a =
        ap keys p ∙ keys-append (x ∷ b) (e ∷ a) in
      let kept : keys es ≡ keys (x ∷ b) ++ keys a =
        keys-append (add_cleanups (x ∷ b) moved) a
        ∙ ap (λ k. k ++ keys a) (keys-add_cleanups (x ∷ b) moved) in
      let sorted = subst (Sorted s.earliest_epoch) ks o.sorted in
      let (lo, left, before, right) =
        Sorted-split s.earliest_epoch e.epoch (keys (x ∷ b)) (keys a) sorted in
      let recent = subst (All (λ k. k ≤ s.current_epoch)) ks o.recent in
      (
        record s { entries = es },
        simp (ap is_empty q, last),
        record {
          same_epoch = refl;
          ordered = record {
            sorted = subst (Sorted s.earliest_epoch) (sym kept) (
                Sorted-join s.earliest_epoch e.epoch (keys (x ∷ b)) (keys a) lo left before
                  (Sorted-mono e.epoch (suc e.epoch) (keys a) (omega arith) right));
            recent = subst (All (λ k. k ≤ s.current_epoch)) (sym kept) (
                All-append _ (keys (x ∷ b)) (keys a)
                  (All-append_left _ (keys (x ∷ b)) (e.epoch ∷ keys a) recent)
                  (All-append_right _ (keys (x ∷ b)) (e.epoch ∷ keys a) recent).1);
            bounds = o.bounds;
          };
          kept = kept;
          unseen =
              all_unseen es obsolete (Sorted-last s.earliest_epoch (x ∷ b) l left last)
                (Sorted-lt e.epoch (keys a) right) kept (share-obsolete l e.cleanups);
          conserved = λ w. omega (
            arith,
            share-total w (some l) e.cleanups,
            pending-append w (add_cleanups (x ∷ b) moved) a,
            pending-add_cleanups w x b moved,
            pending-append w (x ∷ b) (e ∷ a),
          );
        },
      )
    where
      all_unseen :
          (es : List Entry) (cs : List CleanupEntry)
          → All (λ k. k ≤ l.epoch) (keys (x ∷ b))
          → All (λ k. e.epoch < k) (keys a)
          → keys es ≡ keys (x ∷ b) ++ keys a
          → All (λ c. l.epoch < c.valid_from) cs
          → All (Unseen es e.epoch) cs
      all_unseen es [] u v kept w = tt
      all_unseen es (c ∷ cs) u v kept w = (
        subst (All (λ k. (k < c.valid_from) ⊎ (e.epoch < k))) (sym kept) (
            All-append _ (keys (x ∷ b)) (keys a)
              (All-imp _ _ (keys (x ∷ b)) (λ k q. inl (omega arith)) u)
              (All-imp _ _ (keys a) (λ k q. inr q) v)),
        all_unseen es cs u v kept w.1,
      )

  -- Of a map in order, retiring an entry without snapshots succeeds. The entry goes, the others keep
  -- their epochs, and the map stays in order. Of each version that becomes due for cleanup, no epoch
  -- that is left lies between its begin and the epoch of the entry. No registered cleanup is lost or
  -- doubled: under every weight, those due and those left add up to those there were.
  pub retire-Retired :
      (s : State Object) (b : List Entry) (e : Entry) (a : List Entry)
      → IsOrdered s
      → s.entries ≡ b ++ e ∷ a
      → e.snapshots ≡ []
      → (t : State Object) × (obsolete : List CleanupEntry) × (retire V s b e a ≡ ok (t, obsolete))
        × Retired s t b e a obsolete
  retire-Retired s [] e a o p q =
      let (t, run, r) = retire_first s e a o p q in (t, e.cleanups, run, r)
  retire-Retired s (x ∷ b) e a o p q =
      let (l, last) = get_last?_cons x b in
      let (t, run, r) = retire_later s x b e a l o p q last in (t, _, run, r)

  set_earliest_epoch-same :
      (s : State Object) (val : ℕ) (t : State Object)
      → set_earliest_epoch s val ≡ ok t
      → (t.object ≡ s.object) × (t.snapshot ≡ s.snapshot)
  unfolding set_earliest_epoch
  set_earliest_epoch-same s val t run =
      let r : State Object = record s { earliest_epoch = val } in
      let check =
        throw_if (ltb s.current_epoch val) Error.earliest_epoch_after_current_epoch >> ok r in
      let (_, run2) =
        throw_if-ok (ltb val s.earliest_epoch) Error.earliest_epoch_was_not_increasing check t
          run in
      let (_, run3) =
        throw_if-ok (ltb s.current_epoch val) Error.earliest_epoch_after_current_epoch (ok r) t
          run2 in
      let same = ok_inj r t run3 in (ap (λ t. t.object) (sym same), ap (λ t. t.snapshot) (sym same))

  move_earliest-same :
      (s : State Object) (b a : List Entry) (t : State Object)
      → move_earliest V s b a ≡ ok t
      → (t.object ≡ s.object) × (t.snapshot ≡ s.snapshot)
  unfolding move_earliest
  move_earliest-same s [] a t run =
      set_earliest_epoch-same s (next_earliest s.current_epoch a) t run
  move_earliest-same s (x ∷ b) a t run =
      let same = ok_inj s t run in (ap (λ t. t.object) (sym same), ap (λ t. t.snapshot) (sym same))

  -- What `retire` changes, if it succeeds.
  pub retire_parts :
      (s : State Object) (b : List Entry) (e : Entry) (a : List Entry) (t : State Object)
      (obsolete : List CleanupEntry)
      → retire V s b e a ≡ ok (t, obsolete)
      → (t.object ≡ s.object)
        × (t.snapshot ≡ s.snapshot)
        × (t.entries ≡ add_cleanups b (share (get_last? b) e.cleanups).0 ++ a)
        × (obsolete ≡ (share (get_last? b) e.cleanups).1)
  unfolding retire
  retire_parts s b e a t obsolete run =
      let moved = (share (get_last? b) e.cleanups).0 in
      let due = (share (get_last? b) e.cleanups).1 in
      let rest : State Object → Result (State Object × List CleanupEntry) =
        λ m. ok (record m { entries = add_cleanups b moved ++ a }, due) in
      let (_, run2) =
        throw_if-ok (not (is_empty e.snapshots)) Error.perform_cleanup_with_snapshots
          (move_earliest V s b a >>= rest) (t, obsolete) run in
      let (m, early, run3) = bind-ok (move_earliest V s b a) rest (t, obsolete) run2 in
      let same = sym (ok_inj _ (t, obsolete) run3) in
      let (o, p) = move_earliest-same s b a m early in
      (
        ap (λ r. r.0.object) same ∙ o,
        ap (λ r. r.0.snapshot) same ∙ p,
        ap (λ r. r.0.entries) same,
        ap (λ r. r.1) same,
      )
