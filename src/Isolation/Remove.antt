-- ===== src/Isolation/Remove.antt =====
-- `remove_snapshot` of jmvcc/snapshot.cc on the map and the objects together.
use libjmvcc.Base.{
  ℕ, ◌≤◌, ◌<◌, ◌≡◌, ◌≢◌, refl, ap, ◌∙◌, sym, subst, Bool-cases, true, false, List, [], ◌∷◌, ◌++◌,
  ok, All, All-append, All-append_left, All-append_right, All-imp, inl, inr, contains, update-other,
  update-same, if◌then◌else◌, arith, ◌==◌, ==→eq, ==→ne, Bool, Result,
}
use libjmvcc.VersionedObject.{VersionedObject}
use libjmvcc.SnapshotInfo.Registry.{State, CleanupEntry, Entry, set_erase}
use libjmvcc.SnapshotInfo.{add_cleanups, is_empty, perform_cleanup, remove_snapshot}
use libjmvcc.SnapshotInfo.Order.{keys, keys-append, Sorted, Sorted-split, Sorted-lt}
use libjmvcc.SnapshotInfo.Remove.{without, without-IsOrdered, remove_snapshot_lem}
use libjmvcc.SnapshotInfo.Register.{Occupied, erased-Occupied}
use libjmvcc.SnapshotInfo.Compress.Renaming.{Matching}
use libjmvcc.Isolation.Pairs.{pairs, pairs-append}
use libjmvcc.Isolation.Laws.{Laws}
use libjmvcc.Isolation.Tracking.{Tracked}
use libjmvcc.Isolation.Cleaning.{Kept, Kept-refl}
use libjmvcc.Isolation.Retire.{Consistent, Preserved, perform_cleanup-Preserved}
use libjmvcc.Isolation.Members.{
  Holds, Free, Alike, Alike-add_cleanups, Alike-append, Alike-Matching, Alike-Holds, Alike-All,
  Holds-split, Holds-replace, Holds-skip, Matching-append, Matching-parts, Matching-epochs,
  Free-apart, contains-erase, erase-Once,
}

module _ (V : VersionedObject) (L : Laws V) where
  open V use {Object}
  open L use {ends, read}

  -- The map is consistent with the objects, and every snapshot stands in the entry of its epoch.
  pub record Sound (s : State Object) : Type 0 where
    pub consistent : Consistent V L s
    pub started : 1 ≤ s.current_epoch
    pub occupied : Occupied V s.entries
    pub matching : Matching s.snapshot s.entries

  -- The state `u` is `s` without the snapshot `p`, as far as the other snapshots see.
  pub record Removed (s u : State Object) (p : ℕ) : Type 0 where
    pub sound : Sound u
    pub same_epoch : u.current_epoch ≡ s.current_epoch
    pub free : Free p u.entries
    pub others : (r : ℕ) → r ≢ p → u.snapshot r ≡ s.snapshot r
    pub held : (r k : ℕ) → r ≢ p → Holds r k s.entries → Holds r k u.entries
    pub reads : (q : ℕ) → Kept V L (keys u.entries) (s.object q) (u.object q)
    pub latest : (q : ℕ) → read (u.object q) s.current_epoch ≡ read (s.object q) s.current_epoch

  abbrev erased : ℕ → Entry → Entry
  erased p e = record e { snapshots = set_erase p e.snapshots }

  without-Consistent :
      (s : State Object) (p : ℕ) (b : List Entry) (e : Entry) (a : List Entry)
      → Consistent V L s
      → s.entries ≡ b ++ e ∷ a
      → Consistent V L (without V s p b e a)
  without-Consistent s p b e a k eq =
      let es = b ++ erased p e ∷ a in
      let same : keys s.entries ≡ keys es =
        ap keys eq ∙ keys-append b (e ∷ a) ∙ sym (keys-append b (erased p e ∷ a)) in
      let same_pairs : (q : ℕ) → pairs q s.entries ≡ pairs q es =
        λ q. ap (pairs q) eq ∙ pairs-append q b (e ∷ a) ∙ sym (pairs-append q b (erased p e ∷ a)) in
      record {
        ordered = without-IsOrdered V s p b e a k.ordered eq;
        positive = subst (All (λ j. 1 ≤ j)) same k.positive;
        valid = k.valid;
        tracked = λ q.
            subst (λ ks. Tracked ks (pairs q es) (ends (s.object q))) same
              (subst (λ ps. Tracked (keys s.entries) ps (ends (s.object q))) (same_pairs q)
                (k.tracked q));
      }

  module _ (s : State Object) (p : ℕ) (b : List Entry) (e : Entry) (a : List Entry)
      (sound : Sound s) (eq : s.entries ≡ b ++ e ∷ a) (at : e.epoch ≡ (s.snapshot p).epoch)
      (member : contains p e.snapshots ≡ true) where
    others : (r : ℕ) → r ≢ p → (without V s p b e a).snapshot r ≡ s.snapshot r
    others r d = update-other s.snapshot p r _ d

    old_matching : Matching s.snapshot (b ++ e ∷ a)
    old_matching = subst (Matching s.snapshot) eq sound.matching

    before-Free : Free p b
    before-Free =
        let (_, _, under, _) = Sorted-split s.earliest_epoch e.epoch (keys b) (keys a) (
          subst (Sorted s.earliest_epoch) (ap keys eq ∙ keys-append b (e ∷ a))
            sound.consistent.ordered.sorted) in
        Free-apart s.snapshot p b
          (All-imp (λ j. j < e.epoch) _ (keys b) (λ j l f. absurd (omega (arith, l, f, at))) under)
          (Matching-parts s.snapshot b (e ∷ a) old_matching).0

    after-Free : Free p a
    after-Free =
        let (_, _, _, over) = Sorted-split s.earliest_epoch e.epoch (keys b) (keys a) (
          subst (Sorted s.earliest_epoch) (ap keys eq ∙ keys-append b (e ∷ a))
            sound.consistent.ordered.sorted) in
        Free-apart s.snapshot p a
          (All-imp (λ j. e.epoch < j) _ (keys a) (λ j l f. absurd (omega (arith, l, f, at)))
            (Sorted-lt e.epoch (keys a) over))
          (Matching-parts s.snapshot b (e ∷ a) old_matching).1.2

    gone : contains p (set_erase p e.snapshots) ≡ false
    gone = (erase-Once p e.snapshots (Matching-parts s.snapshot b (e ∷ a) old_matching).1.0).1

    -- The entries with the snapshot taken out.
    new_matching : Matching (without V s p b e a).snapshot (b ++ erased p e ∷ a)
    new_matching =
        let (left, (once, here, right)) = Matching-parts s.snapshot b (e ∷ a) old_matching in
        Matching-epochs s.snapshot (without V s p b e a).snapshot p (b ++ erased p e ∷ a)
          (λ r d. ap (λ x. x.epoch) (others r d))
          (inl (ap (λ x. x.epoch) (update-same s.snapshot p _)))
          (Matching-append s.snapshot b (erased p e ∷ a) left
            ((erase-Once p e.snapshots once).0, (λ r c. here r (still r c)), right))
      where
        still :
            (r : ℕ) → contains r (set_erase p e.snapshots) ≡ true → contains r e.snapshots ≡ true
        still r c = elim (Bool-cases (r == p)) [
          | inl h ↦
              absurd (
                clash (ap (λ r. contains r (set_erase p e.snapshots)) (sym (==→eq r p h)) ∙ c) gone)
          | inr h ↦ sym (contains-erase r p e.snapshots (==→ne r p h)) ∙ c
        ]
          where
            clash :
                contains p (set_erase p e.snapshots) ≡ true
                → contains p (set_erase p e.snapshots) ≡ false
                → ⊥
            clash c n = cc

    new-Holds : (r k : ℕ) → r ≢ p → Holds r k s.entries → Holds r k (b ++ erased p e ∷ a)
    new-Holds r k d h =
        Holds-replace r k b e (erased p e) a refl (λ c. contains-erase r p e.snapshots d ∙ c)
          (subst (Holds r k) eq h)

    shared-Removed : is_empty (set_erase p e.snapshots) ≡ false → Removed s (without V s p b e a) p
    shared-Removed n = record {
      sound = record {
        consistent = without-Consistent s p b e a sound.consistent eq;
        started = sound.started;
        occupied = erased-Occupied V p b e a (subst (Occupied V) eq sound.occupied) n;
        matching = new_matching;
      };
      same_epoch = refl;
      free =
          All-append (λ e. contains p e.snapshots ≡ false) b (erased p e ∷ a) before-Free
            (gone, after-Free);
      others = others;
      held = new-Holds;
      reads = λ q. Kept-refl V L (keys (b ++ erased p e ∷ a)) (s.object q);
      latest = λ q. refl;
    }

    last-Removed :
        (u : State Object) (moved : List CleanupEntry)
        → set_erase p e.snapshots ≡ []
        → Preserved V L (without V s p b e a) u (add_cleanups b moved ++ a)
        → Removed s u p
    last-Removed u moved n pr =
        let es = add_cleanups b moved ++ a in
        let alike : Alike (b ++ a) es =
          Alike-append b (add_cleanups b moved) a (Alike-add_cleanups b moved) in
        let (left, (_, _, right)) =
          Matching-parts (without V s p b e a).snapshot b (erased p e ∷ a) new_matching in
        let occ = subst (Occupied V) eq sound.occupied in
        record {
          sound = record {
            consistent = pr.consistent;
            started = subst (λ c. 1 ≤ c) (sym pr.same_epoch) sound.started;
            occupied = subst (Occupied V) (sym pr.new_entries) (
                Alike-All (λ ps. is_empty ps ≡ false) (b ++ a) es alike
                  (All-append _ b a (All-append_left _ b (e ∷ a) occ)
                    (All-append_right _ b (e ∷ a) occ).1));
            matching =
                subst (λ f. Matching f u.entries) (sym pr.same_snapshots)
                  (subst (Matching (without V s p b e a).snapshot) (sym pr.new_entries) (
                    Alike-Matching (without V s p b e a).snapshot (b ++ a) es alike
                      (Matching-append (without V s p b e a).snapshot b a left right)));
          };
          same_epoch = pr.same_epoch;
          free = subst (Free p) (sym pr.new_entries) (
              Alike-All (λ ps. contains p ps ≡ false) (b ++ a) es alike
                (All-append (λ e. contains p e.snapshots ≡ false) b a before-Free after-Free));
          others = λ r d. ap (λ f. f r) pr.same_snapshots ∙ others r d;
          held = λ r k d h. subst (Holds r k) (sym pr.new_entries) (
              Alike-Holds r k (b ++ a) es alike
                (Holds-skip r k b (erased p e) a (ap (contains r) n) (new-Holds r k d h)));
          reads = pr.reads;
          latest = pr.latest;
        }

  is_empty-nil : (ps : List ℕ) → is_empty ps ≡ true → ps ≡ []
  is_empty-nil [] h = refl
  is_empty-nil (p ∷ ps) h = cc

  -- Removing a registered snapshot in a sound state succeeds: the state stays sound, the other
  -- snapshots keep their entries, and read of every object what they read before,
  -- and so does a read at the current epoch.
  pub remove_snapshot-Removed :
      (s : State Object) (p : ℕ)
      → Sound s
      → Holds p (s.snapshot p).epoch s.entries
      → (u : State Object) × (remove_snapshot V s p ≡ ok u) × Removed s u p
  remove_snapshot-Removed s p sound held =
      let (b, e, a, eq, at, member) = Holds-split p (s.snapshot p).epoch s.entries held in
      let k = sound.consistent in
      let run = remove_snapshot_lem V s p b e a k.ordered.sorted eq (sym at) member in
      let branch : Bool → Result (State Object) = λ n.
        if n
        then perform_cleanup V (without V s p b e a) b (erased p e) a
        else ok (without V s p b e a) in
      elim (Bool-cases (is_empty (set_erase p e.snapshots))) [
        | inl h ↦
            let none = is_empty-nil (set_erase p e.snapshots) h in
            let (u, run2, pr) =
              perform_cleanup-Preserved V L (without V s p b e a) b (erased p e) a
                (without-Consistent s p b e a k eq) sound.started refl none in
            (u, run ∙ ap branch h ∙ run2, last-Removed s p b e a sound eq at member u _ none pr)
        | inr h ↦
            (without V s p b e a, run ∙ ap branch h, shared-Removed s p b e a sound eq at member h)
      ]
