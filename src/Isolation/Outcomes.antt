-- ===== src/Isolation/Outcomes.antt =====
-- What `Sandbox::commit` of jmvcc/sandbox.cc may leave of the map and the objects.
use libjmvcc.Base.{
  ℕ, ◌+◌, ◌≤◌, ◌<◌, ◌≡◌, refl, ap, sym, subst, false, List, [], ◌∷◌, none, some, arith, All,
  get_last?, get_last?_cons,
}
use libjmvcc.VersionedObject.{VersionedObject}
use libjmvcc.LocalValues.{LocalValues}
use libjmvcc.SnapshotInfo.Registry.{State, Entry}
use libjmvcc.SnapshotInfo.{is_empty}
use libjmvcc.SnapshotInfo.Order.{keys, Sorted}
use libjmvcc.SnapshotInfo.Register.{Occupied}
use libjmvcc.SnapshotInfo.Compress.Renaming.{Matching}
use libjmvcc.Isolation.Placed.{newest}
use libjmvcc.Isolation.Pairs.{pairs}
use libjmvcc.Isolation.Laws.{Laws}
use libjmvcc.Isolation.Tracking.{Tracked}
use libjmvcc.Isolation.Cleaning.{Kept}
use libjmvcc.Isolation.Members.{Holds, Holds-All}
use libjmvcc.Isolation.Remove.{Sound}
use libjmvcc.Isolation.Register.{Stable}

pub Holds-last : (p k : ℕ) (es : List Entry) → Holds p k es → (l : Entry) × (get_last? es ≡ some l)
Holds-last p k [] h = elim h [ ]
Holds-last p k (e ∷ es) h = get_last?_cons e es

pub Holds-nonempty : (p k : ℕ) (es : List Entry) → Holds p k es → is_empty es ≡ false
Holds-nonempty p k [] h = elim h [ ]
Holds-nonempty p k (e ∷ es) h = refl

module _ (V : VersionedObject) (L : Laws V) (T : LocalValues V.Value) where
  open V use {Object, Value}
  open L use {ends, read, sees, Valid}

  -- What a commit leaves to every snapshot, its own among them: its entry, and what it reads.
  pub record KeptAll (s u : State Object) : Type 0 where
    pub sound : Sound V L u
    pub same_snapshots : u.snapshot ≡ s.snapshot
    pub held : (r k : ℕ) → Holds r k s.entries → Holds r k u.entries
    pub reads : (q : ℕ) → Kept V L (keys s.entries) (s.object q) (u.object q)

  -- All the writes are there from the next epoch on, which is then the current one; no object had a
  -- version that is newer than the epoch `old`.
  pub record Written (s u : State Object) (t : T.Table) (old : ℕ) : Type 0 where
    pub next_epoch : u.current_epoch ≡ s.current_epoch + 1
    pub current_enough :
        (q : ℕ) (v : Value) → T.find t q ≡ some v → newest 1 (ends (s.object q)) ≤ old
    pub writes :
        (q : ℕ) (v : Value) → T.find t q ≡ some v → read (u.object q) u.current_epoch ≡ sees v
    pub others : (q : ℕ) → T.find t q ≡ none → u.object q ≡ s.object q

  -- None of the writes is there, and an object had a version that is newer than the epoch `old`.
  pub record Conflicting (s u : State Object) (t : T.Table) (old : ℕ) : Type 0 where
    pub same_epoch : u.current_epoch ≡ s.current_epoch
    pub same_entries : u.entries ≡ s.entries
    pub object : ℕ
    pub value : Value
    pub written : T.find t object ≡ some value
    pub conflict : old < newest 1 (ends (s.object object))
    pub same_reads : (q j : ℕ) → 1 ≤ j → read (u.object q) j ≡ read (s.object q) j

  pub Sound-same :
      (s u : State Object)
      → Sound V L s
      → u.current_epoch ≡ s.current_epoch
      → u.earliest_epoch ≡ s.earliest_epoch
      → u.snapshot ≡ s.snapshot
      → u.entries ≡ s.entries
      → ((q : ℕ) → Valid s.current_epoch (u.object q))
      → ((q : ℕ) → ends (u.object q) ≡ ends (s.object q))
      → Sound V L u
  Sound-same s u sound c lo f es valid same =
      let k = sound.consistent in
      record {
        consistent = record {
          ordered = record {
            sorted =
                subst (λ es. Sorted u.earliest_epoch (keys es)) (sym es)
                  (subst (λ lo. Sorted lo (keys s.entries)) (sym lo) k.ordered.sorted);
            recent =
                subst (λ es. All (λ j. j ≤ u.current_epoch) (keys es)) (sym es)
                  (subst (λ c. All (λ j. j ≤ c) (keys s.entries)) (sym c) k.ordered.recent);
            bounds = omega (arith, c, lo, k.ordered.bounds);
          };
          positive = subst (λ es. All (λ j. 1 ≤ j) (keys es)) (sym es) k.positive;
          valid = λ q. subst (λ c. Valid c (u.object q)) (sym c) (valid q);
          tracked = λ q.
              subst (λ es. Tracked (keys es) (pairs q es) (ends (u.object q))) (sym es)
                (subst (Tracked (keys s.entries) (pairs q s.entries)) (sym (same q)) (k.tracked q));
        };
        started = omega (arith, c, sound.started);
        occupied = subst (Occupied V) (sym es) sound.occupied;
        matching =
            subst (λ es. Matching u.snapshot es) (sym es)
              (subst (λ f. Matching f s.entries) (sym f) sound.matching);
      }

  pub KeptAll-Stable : (s u : State Object) (p : ℕ) → KeptAll s u → Stable V L s u p
  KeptAll-Stable s u p k = record {
    sound = k.sound;
    others = λ r d. ap (λ f. f r) k.same_snapshots;
    held = λ r x d h. k.held r x h;
    reads = λ r x q d h.
        Holds-All (λ j. read (u.object q) j ≡ read (s.object q) j) r x s.entries h (k.reads q);
  }
