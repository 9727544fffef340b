-- ===== src/SnapshotInfo/Remove.antt =====
-- `remove_snapshot` of jmvcc/snapshot.cc.
use libjmvcc.Base.{
  contains, ℕ, ◌≤◌, ◌≡◌, refl, ap, ◌∙◌, sym, subst, true, false, List, [], ◌∷◌, ◌++◌, some, All,
  ==-self, if◌then◌else◌, ok,
}
use libjmvcc.VersionedObject.{VersionedObject}
use libjmvcc.SnapshotInfo.Registry.{State, Status, CleanupEntry, Entry, set_erase, set_status}
use libjmvcc.SnapshotInfo.{
  find, is_empty, perform_cleanup, retire, run_cleanups, remove_from, remove_snapshot,
}
use libjmvcc.SnapshotInfo.Order.{keys, Sorted, keys-append, find-split}
use libjmvcc.SnapshotInfo.Retire.{IsOrdered, Retired, retire-Retired}

module _ (V : VersionedObject) where
  open V use {Object}

  pub perform_cleanup-retire :
      (s t : State Object) (b : List Entry) (e : Entry) (a : List Entry)
      (obsolete : List CleanupEntry)
      → retire V s b e a ≡ ok (t, obsolete)
      → perform_cleanup V s b e a ≡ run_cleanups V t obsolete
  unfolding perform_cleanup
  perform_cleanup-retire s t b e a obsolete p = rw p

  -- The state in which `remove_snapshot` has taken the snapshot out of its entry.
  abbrev pub without : State Object → ℕ → List Entry → Entry → List Entry → State Object
  without s p b e a = record (set_status s p Status.restarting0a) {
    entries = b ++ record e { snapshots = set_erase p e.snapshots } ∷ a;
  }

  pub remove_snapshot_lem :
      (s : State Object) (p : ℕ) (b : List Entry) (e : Entry) (a : List Entry)
      → Sorted s.earliest_epoch (keys s.entries)
      → s.entries ≡ b ++ e ∷ a
      → (s.snapshot p).epoch ≡ e.epoch
      → contains p e.snapshots ≡ true
      → remove_snapshot V s p ≡ (
          if is_empty (set_erase p e.snapshots)
          then perform_cleanup V
              (without s p b e a)
              b
              (record e { snapshots = set_erase p e.snapshots })
              a
          else ok (without s p b e a))
  unfolding remove_snapshot remove_from
  remove_snapshot_lem s p b e a sorted q r c =
      let nonempty : is_empty s.entries ≡ false = ap is_empty q ∙ is_empty-append b e a in
      let found : find (s.snapshot p).epoch s.entries ≡ some (b, e, a) =
        ap (λ k. find k s.entries) r
        ∙ ap (find e.epoch) q
        ∙ find-split s.earliest_epoch b e a
            (subst (λ l. Sorted s.earliest_epoch (keys l)) q sorted) in
      simp (nonempty, found, c)
    where
      is_empty-append :
          (b : List Entry) (e : Entry) (a : List Entry) → is_empty (b ++ e ∷ a) ≡ false
      is_empty-append [] e a = refl
      is_empty-append (x ∷ b) e a = refl

  pub without-IsOrdered :
      (s : State Object) (p : ℕ) (b : List Entry) (e : Entry) (a : List Entry)
      → IsOrdered s
      → s.entries ≡ b ++ e ∷ a
      → IsOrdered (without s p b e a)
  without-IsOrdered s p b e a o q =
      let same : keys (b ++ record e { snapshots = set_erase p e.snapshots } ∷ a) ≡ keys s.entries =
        keys-append b (record e { snapshots = set_erase p e.snapshots } ∷ a)
        ∙ sym (keys-append b (e ∷ a))
        ∙ sym (ap keys q) in
      record {
        sorted = subst (Sorted s.earliest_epoch) (sym same) o.sorted;
        recent = subst (All (λ k. k ≤ s.current_epoch)) (sym same) o.recent;
        bounds = o.bounds;
      }

  -- Removing the last snapshot of an epoch, in a map in order: it is taken out, its entry is retired
  -- as `Retired` states, and what remains is to run the cleanups that are due.
  pub remove_snapshot_last :
      (s : State Object) (p : ℕ) (b : List Entry) (e : Entry) (a : List Entry)
      → IsOrdered s
      → s.entries ≡ b ++ e ∷ a
      → (s.snapshot p).epoch ≡ e.epoch
      → e.snapshots ≡ p ∷ []
      → (t : State Object) × (obsolete : List CleanupEntry) × (remove_snapshot V s p
          ≡ run_cleanups V t obsolete)
        × Retired V
            (without s p b e a)
            t
            b
            (record e { snapshots = set_erase p e.snapshots })
            a
            obsolete
  unfolding set_erase
  remove_snapshot_last s p b e a o q r c =
      let e' = record e { snapshots = set_erase p e.snapshots } in
      let here : contains p e.snapshots ≡ true = ap (contains p) c ∙ (rw (==-self p)) in
      let erased : set_erase p e.snapshots ≡ [] = ap (set_erase p) c ∙ (rw (==-self p)) in
      let (t, obsolete, run, done) =
        retire-Retired V (without s p b e a) b e' a (without-IsOrdered s p b e a o q) refl erased in
      (
        t,
        obsolete,
        remove_snapshot_lem s p b e a o.sorted q r here
            ∙ ap
                (λ n.
                  if n
                  then perform_cleanup V (without s p b e a) b e' a
                  else ok (without s p b e a))
                (ap is_empty erased)
            ∙ perform_cleanup-retire (without s p b e a) t b e' a obsolete run,
        done,
      )

  -- Removing a snapshot beside which others are registered for the epoch, in a map in order, succeeds:
  -- it takes the snapshot out of its entry, sets its status, and leaves the map in order.
  pub remove_snapshot_shared :
      (s : State Object) (p : ℕ) (b : List Entry) (e : Entry) (a : List Entry)
      → IsOrdered s
      → s.entries ≡ b ++ e ∷ a
      → (s.snapshot p).epoch ≡ e.epoch
      → contains p e.snapshots ≡ true
      → is_empty (set_erase p e.snapshots) ≡ false
      → (remove_snapshot V s p ≡ ok (without s p b e a)) × IsOrdered (without s p b e a)
  remove_snapshot_shared s p b e a o q r c d = (
    remove_snapshot_lem s p b e a o.sorted q r c
        ∙ ap
            (λ n.
              if n
              then perform_cleanup V (without s p b e a) b
                  (record e { snapshots = set_erase p e.snapshots }) a
              else ok (without s p b e a))
            d,
    without-IsOrdered s p b e a o q,
  )
