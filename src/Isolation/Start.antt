-- ===== src/Isolation/Start.antt =====
-- Runs from the start of a program, where jmvcc/snapshot.cc sets both epochs to 1 and its map is
-- empty, over objects of jmvcc/versioned.h.
use libjmvcc.Base.{ℕ, ◌≡◌, ◌≢◌, ap, subst, sym, [], arith}
use libjmvcc.VersionedObject.{VersionedObject}
use libjmvcc.LocalValues.{LocalValues}
use libjmvcc.CircularBuffer.{CircularBuffer}
use libjmvcc.Timeline.{Entry, Increasing, UpTo}
use libjmvcc.Versioned.{Versioned, new_versioned, value_at_epoch}
use libjmvcc.Versioned.Object.{versioned_object}
use libjmvcc.SnapshotInfo.Registry.{State, Snapshot}
use libjmvcc.Isolation.Laws.{Laws}
use libjmvcc.Isolation.Members.{Holds}
use libjmvcc.Isolation.Tracking.{Tracked}
use libjmvcc.Isolation.Remove.{Sound}
use libjmvcc.Isolation.Steps.{Steps, done, step, Step-Stable, Steps-reads}
use libjmvcc.Isolation.Locked.{versioned_laws, history_ends}

abbrev pub start : {O : Type 0} → (ℕ → Snapshot) → (ℕ → O) → State O
start snapshots objects = record {
  current_epoch = 1;
  earliest_epoch = 1;
  entries = [];
  snapshot = snapshots;
  object = objects;
}

module _ (V : VersionedObject) (L : Laws V) (T : LocalValues V.Value) where
  open V use {Object}

  -- With no snapshot registered, objects with one version each make a sound state.
  pub start-Sound :
      (g : ℕ → Snapshot) (f : ℕ → Object)
      → ((q : ℕ) → L.Valid 1 (f q))
      → ((q : ℕ) → L.ends (f q) ≡ [])
      → Sound V L (start g f)
  start-Sound g f valid new = record {
    consistent = record {
      ordered = record { sorted = tt; recent = tt; bounds = omega arith };
      positive = tt;
      valid = valid;
      tracked = λ q. subst (λ ts. Tracked [] [] ts) (sym (new q)) (1, tt, tt);
    };
    started = omega arith;
    occupied = tt;
    matching = tt;
  }

  pub Steps-Sound :
      (P : ℕ → Type 0) (s u : State Object) → Sound V L s → Steps V L T P s u → Sound V L u
  Steps-Sound P s _ sound done = sound
  Steps-Sound P s u sound (step {t = t} p before d one) =
      (Step-Stable V L T t p u (Steps-Sound P s t sound before) one).sound

module _ {A : Type 0} (B : CircularBuffer (Entry A)) (T : LocalValues A) where
  abbrev pub RunOf : (ℕ → Type 0) → State (Versioned B) → State (Versioned B) → Type 0
  RunOf = Steps (versioned_object B) (versioned_laws B) T

  pub new_versioned-Sound :
      (g : ℕ → Snapshot) (vals : ℕ → A)
      → Sound (versioned_object B) (versioned_laws B) (start g (λ q. new_versioned B (vals q)))
  unfolding versioned_laws new_versioned
  new_versioned-Sound g vals =
      start-Sound (versioned_object B) (versioned_laws B) T g (λ q. new_versioned B (vals q))
        (λ q. record {
          increasing = subst (Increasing 1) (sym B.to_list-empty) tt;
          up_to = subst (UpTo 1) (sym B.to_list-empty) tt;
        })
        (λ q. ap history_ends B.to_list-empty)

  -- Snapshot isolation for locked objects. From the start of the program, with any values in the
  -- objects, let calls that throw nothing, commits while there are epochs left among them, lead to a
  -- state in which a snapshot is registered at an epoch, and then such calls on other snapshots lead
  -- on. Then the snapshot is still registered at that epoch, and `value_at_epoch` returns there for
  -- every object what it returned before, whatever has been committed and cleaned up.
  pub Steps-value_at_epoch :
      (g : ℕ → Snapshot) (vals : ℕ → A) (s u : State (Versioned B)) (r k : ℕ)
      → RunOf (λ p. Unit {0}) (start g (λ q. new_versioned B (vals q))) s
      → Holds r k s.entries
      → RunOf (λ p. r ≢ p) s u
      → (u.snapshot r ≡ s.snapshot r)
        × Holds r k u.entries
        × ((q : ℕ) → value_at_epoch B (u.object q) k ≡ value_at_epoch B (s.object q) k)
  unfolding versioned_laws
  Steps-value_at_epoch g vals s u r k before held after =
      let sound =
        Steps-Sound (versioned_object B) (versioned_laws B) T (λ p. Unit {0})
          (start g (λ q. new_versioned B (vals q))) s (new_versioned-Sound g vals) before in
      let (_, same, here, reads) =
        Steps-reads (versioned_object B) (versioned_laws B) T s r k u sound held after in
      (same, here, reads)
