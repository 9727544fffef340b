-- ===== src/Isolation/Commit.antt =====
-- `Sandbox::commit` of jmvcc/sandbox.cc on the map and the objects together.
use libjmvcc.Base.{
  ℕ, ◌+◌, ◌%◌, ◌≤◌, ◌<◌, ◌≡◌, refl, ap, ◌∙◌, sym, subst, Bool, true, false, List, [], ◌∷◌, ◌++◌,
  none, some, arith, ok, Bool-cases, Option-cases, inl, inr, ◌⊎◌, All, All-imp,
}
use mathlib.Core.List.{append-nil}
use native.Mathlib.Nat.{mod-eq_of_lt}
use libjmvcc.VersionedObject.{VersionedObject}
use libjmvcc.LocalValues.{LocalValues, lookup}
use libjmvcc.Versioned.{epoch_mod}
use libjmvcc.SnapshotInfo.Registry.{State, CleanupEntry}
use libjmvcc.SnapshotInfo.{add_cleanups, is_empty}
use libjmvcc.SnapshotInfo.Order.{keys, keys-add_cleanups, Sorted, Sorted-last}
use libjmvcc.SnapshotInfo.Register.{Occupied}
use libjmvcc.SnapshotInfo.Compress.Renaming.{Matching}
use libjmvcc.Sandbox.{commit, clear}
use libjmvcc.Sandbox.Atomic.{commit_undone, accepts, Asked}
use libjmvcc.Sandbox.Accepted.{commit_accepted, registered}
use libjmvcc.Isolation.Placed.{newest, All-both}
use libjmvcc.Isolation.Pairs.{in_entry, pairs, pairs-add_cleanups}
use libjmvcc.Isolation.Laws.{Laws}
use libjmvcc.Isolation.Tracking.{Tracked, Tracked-push, last-All}
use libjmvcc.Isolation.Cleaning.{Kept, Kept-refl}
use libjmvcc.Isolation.Members.{
  Holds, Holds-All, Alike-add_cleanups, Alike-Matching, Alike-Holds, Alike-All,
}
use libjmvcc.Isolation.Remove.{Sound}
use libjmvcc.Isolation.Register.{Present}
use libjmvcc.Isolation.Answers.{
  Taken, answer, from, answer-Taken, answer_conflict, answer-Asked, accepts_all, accepts_not,
  answer-Commits, vals-registered-none, vals-registered,
}
use libjmvcc.Isolation.Outcomes.{
  Holds-last, Holds-nonempty, KeptAll, Written, Conflicting, Sound-same,
}

module _ (V : VersionedObject) (L : Laws V) (T : LocalValues V.Value) where
  open V use {Object, Value}
  open L use {ends, read, sees, Valid}

  module _ (s : State Object) (t : T.Table) (old : ℕ) (sound : Sound V L s)
      (fits : s.current_epoch + 1 < epoch_mod) where
    abbrev c : ℕ
    c = s.current_epoch

    abbrev l : List (ℕ × Value)
    l = T.to_list t

    -- What the objects answer.
    abbrev said : ℕ → Bool × Object
    said = answer V L T c old s.object l sound.consistent.valid sound.started fits (T.distinct t)

    abbrev replaced : ℕ → ℕ
    replaced = from V L T c old s.object l sound.consistent.valid sound.started fits (T.distinct t)

    refused_part :
        accepts V T L.undoable c old (c + 1) said l ≡ false
        → (u : State Object) × (commit V T s t old ≡ ok (0, u, clear V T t))
          × KeptAll V L T s u
          × Conflicting V L T s u t old
    refused_part refusal =
        let m : c + 1 ≡ (c + 1) % epoch_mod = sym (mod-eq_of_lt fits) in
        let asked =
          answer-Asked V L T c old s.object l sound.consistent.valid sound.started fits
            (T.distinct t) in
        let (u, run, epoch, earliest, snapshots, entries, same) =
          commit_undone V T L.undoable s t old said
            (subst (λ n. Asked V T L.undoable c old n said s.object l) m asked)
            (subst (λ n. accepts V T L.undoable c old n said l ≡ false) m refusal) in
        let (q, v, n, declined) =
          accepts_not V L T c old s.object l sound.consistent.valid sound.started fits
            (T.distinct t) l (T.distinct t) refusal in
        let back : (q : ℕ)
            → Valid c (u.object q)
              × (ends (u.object q) ≡ ends (s.object q))
              × ((j : ℕ) → 1 ≤ j → read (u.object q) j ≡ read (s.object q) j) =
          λ q. L.same c (u.object q) (s.object q) (same q) (sound.consistent.valid q) in
        (
          u,
          run,
          record {
            sound =
                Sound-same V L T s u sound epoch earliest snapshots entries (λ q. (back q).0)
                  (λ q. (back q).1);
            same_snapshots = snapshots;
            held = λ r k h. subst (Holds r k) (sym entries) h;
            reads =
                λ q. All-imp (λ j. 1 ≤ j) _ (keys s.entries) (back q).2 sound.consistent.positive;
          },
          record {
            same_epoch = epoch;
            same_entries = entries;
            object = q;
            value = v;
            written = T.find-to_list t q ∙ n;
            conflict =
                answer_conflict V L T c old s.object l sound.consistent.valid sound.started fits
                  (T.distinct t) q v n declined;
            same_reads = λ q. (back q).2;
          },
        )

    module _ (p : ℕ) (held : Holds p old s.entries)
        (agreed : accepts V T L.undoable c old (c + 1) said l ≡ true) where
      abbrev cleanups : List CleanupEntry
      cleanups = registered V T L.undoable said replaced l

      taken :
          (q : ℕ) (v : Value)
          → lookup q l ≡ some v
          → Taken V L T c old s.object l sound.consistent.valid sound.started fits
              (T.distinct t)
              (s.object q)
              v
              (said q).1
      taken q v n =
          answer-Taken V L T c old s.object l sound.consistent.valid sound.started fits
            (T.distinct t) q v n
            (accepts_all V L T c old s.object l sound.consistent.valid sound.started fits
              (T.distinct t) l agreed q v n)

      -- What is due to an object after the commit.
      abbrev After : ℕ → Object → Type 0
      After q o =
          Valid (c + 1) o
          × Tracked (keys s.entries) (pairs q (add_cleanups s.entries cleanups)) (ends o)
          × Kept V L (keys s.entries) (s.object q) o

      After-none : (q : ℕ) → lookup q l ≡ none → After q (s.object q)
      After-none q n =
          let (e, last) = Holds-last p old s.entries held in
          let same : pairs q (add_cleanups s.entries cleanups) ≡ pairs q s.entries =
            pairs-add_cleanups q s.entries e cleanups last
            ∙ ap (λ vs. pairs q s.entries ++ in_entry e.epoch vs)
                (vals-registered-none V L T c old s.object l sound.consistent.valid sound.started
                  fits (T.distinct t) q l n)
            ∙ append-nil (pairs q s.entries) in
          (
            L.valid_mono c (c + 1) (s.object q) (omega arith) (sound.consistent.valid q),
            subst (λ ps. Tracked (keys s.entries) ps (ends (s.object q))) (sym same)
                (sound.consistent.tracked q),
            Kept-refl V L (keys s.entries) (s.object q),
          )

      After-some : (q : ℕ) (v : Value) → lookup q l ≡ some v → After q (said q).1
      After-some q v n =
          let (e, last) = Holds-last p old s.entries held in
          let (enough, good, after, _, before, _) = taken q v n in
          let k = sound.consistent in
          let same : pairs q (add_cleanups s.entries cleanups)
              ≡ pairs q s.entries ++ (e.epoch, newest 1 (ends (s.object q))) ∷ [] =
            pairs-add_cleanups q s.entries e cleanups last
            ∙ ap (λ vs. pairs q s.entries ++ in_entry e.epoch vs)
                (vals-registered V L T c old s.object l k.valid sound.started fits (T.distinct t) q
                  v l (T.distinct t) n) in
          let greatest = Sorted-last s.earliest_epoch s.entries e k.ordered.sorted last in
          let covers : old ≤ e.epoch = Holds-All (λ j. j ≤ e.epoch) p old s.entries held greatest in
          let recent : e.epoch ≤ c = last-All (λ j. j ≤ c) s.entries e last k.ordered.recent in
          (
            good,
            subst (Tracked (keys s.entries) (pairs q (add_cleanups s.entries cleanups))) (sym after)
                (subst (λ ps. Tracked (keys s.entries) ps (ends (s.object q) ++ (c + 1) ∷ []))
                  (sym same)
                  (Tracked-push (keys s.entries) (pairs q s.entries) (ends (s.object q)) e.epoch
                    (c + 1) (omega (arith, enough, covers)) (omega (arith, recent))
                    (All-imp _ _ (keys s.entries) (λ j h. inl h) greatest) k.positive
                    (k.tracked q))),
            All-both (λ j. 1 ≤ j) (λ j. j ≤ c) _ (keys s.entries) before k.positive
                k.ordered.recent,
          )

      accepted_part :
          (u : State Object) × (commit V T s t old ≡ ok (c + 1, u, clear V T t))
          × KeptAll V L T s u
          × Written V L T s u t old
      accepted_part =
          let k = sound.consistent in
          let all : (q : ℕ) (v : Value) → lookup q l ≡ some v → (said q).0 ≡ true =
            accepts_all V L T c old s.object l k.valid sound.started fits (T.distinct t) l agreed in
          let (u, run, epoch, earliest, snapshots, entries, ins, outs) =
            commit_accepted V T L.undoable said replaced s t old
              (answer-Asked V L T c old s.object l k.valid sound.started fits (T.distinct t)) agreed
              (answer-Commits V L T c old s.object l k.valid sound.started fits (T.distinct t) all)
              (Holds-nonempty p old s.entries held) fits in
          let found : (q : ℕ) (v : Value) → T.find t q ≡ some v → lookup q l ≡ some v =
            λ q v n. sym (T.find-to_list t q) ∙ n in
          let object : (q : ℕ) → After q (u.object q) = λ q. elim (Option-cases (T.find t q)) [
            | inl n ↦ subst (After q) (sym (outs q n)) (After-none q (sym (T.find-to_list t q) ∙ n))
            | inr (v, n) ↦ subst (After q) (sym (ins q v n)) (After-some q v (found q v n))
          ] in
          let alike = Alike-add_cleanups s.entries cleanups in
          let ks : keys s.entries ≡ keys u.entries =
            sym (keys-add_cleanups s.entries cleanups) ∙ sym (ap keys entries) in
          (
            u,
            run,
            record {
              sound = record {
                consistent = record {
                  ordered = record {
                    sorted =
                        subst (Sorted u.earliest_epoch) ks (
                          subst (λ lo. Sorted lo (keys s.entries)) (sym earliest) k.ordered.sorted);
                    recent = subst (All (λ j. j ≤ u.current_epoch)) ks (
                        All-imp (λ j. j ≤ c) (λ j. j ≤ u.current_epoch) (keys s.entries)
                          (λ j h. omega (arith, h, epoch)) k.ordered.recent);
                    bounds = omega (arith, epoch, earliest, k.ordered.bounds);
                  };
                  positive = subst (All (λ j. 1 ≤ j)) ks k.positive;
                  valid = λ q. subst (λ c. Valid c (u.object q)) (sym epoch) (object q).0;
                  tracked = λ q.
                      subst (λ ks. Tracked ks (pairs q u.entries) (ends (u.object q))) ks
                        (subst (λ es. Tracked (keys s.entries) (pairs q es) (ends (u.object q)))
                          (sym entries) (object q).1);
                };
                started = omega (arith, epoch);
                occupied =
                    subst (Occupied V) (sym entries)
                      (Alike-All (λ ps. is_empty ps ≡ false) s.entries _ alike sound.occupied);
                matching =
                    subst (λ es. Matching u.snapshot es) (sym entries)
                      (Alike-Matching u.snapshot s.entries _ alike
                        (subst (λ f. Matching f s.entries) (sym snapshots) sound.matching));
              };
              same_snapshots = snapshots;
              held = λ r k h. subst (Holds r k) (sym entries) (Alike-Holds r k s.entries _ alike h);
              reads = λ q. (object q).2;
            },
            record {
              next_epoch = epoch;
              current_enough = λ q v n. (taken q v (found q v n)).0;
              writes = λ q v n.
                  ap (λ o. read o u.current_epoch) (ins q v n)
                  ∙ (taken q v (found q v n)).5 u.current_epoch (omega (arith, epoch));
              others = outs;
            },
          )

  -- The commit of a sandbox in a sound state with epochs left, for a snapshot that is registered,
  -- gives an empty sandbox and a sound state, in which all snapshots are in their entries and read of
  -- every object what they read before. Either it returns the next epoch, which is then the current
  -- one and at which every object with a local value reads as that value, and no such object had a
  -- version newer than the snapshot; or it returns 0, the epoch and the map are as they were, every
  -- object reads as before from epoch 1 on, and one with a local value had such a version.
  pub commit-KeptAll :
      (s : State Object) (t : T.Table) (p : ℕ)
      → Sound V L s
      → Present V L s p
      → s.current_epoch + 1 < epoch_mod
      → (n : ℕ) × (u : State Object) × (commit V T s t (s.snapshot p).epoch
          ≡ ok (n, u, clear V T t))
        × KeptAll V L T s u
        × (((n ≡ s.current_epoch + 1) × Written V L T s u t (s.snapshot p).epoch)
            ⊎ ((n ≡ 0) × Conflicting V L T s u t (s.snapshot p).epoch))
  commit-KeptAll s t p sound held fits =
      let old = (s.snapshot p).epoch in
      elim (Bool-cases (
        accepts V T L.undoable s.current_epoch old (s.current_epoch + 1) (said s t old sound fits)
          (T.to_list t))) [
            | inl h ↦
                let (u, run, k, w) = accepted_part s t old sound fits p held h in
                (s.current_epoch + 1, u, run, k, inl (refl, w))
            | inr h ↦
                let (u, run, k, w) = refused_part s t old sound fits h in
                (0, u, run, k, inr (refl, w))
          ]
