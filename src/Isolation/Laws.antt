-- ===== src/Isolation/Laws.antt =====
-- What the map of jmvcc/snapshot.cc and `Sandbox::commit` rely on of a versioned object: `ends` are
-- the epochs in its history, and `read` is what a snapshot at an epoch sees.
use libjmvcc.Base.{ℕ, ◌+◌, ◌≤◌, ◌<◌, ◌≡◌, ◌⊎◌, true, false, List, [], ◌∷◌, ◌++◌, ok}
use libjmvcc.VersionedObject.{VersionedObject}
use libjmvcc.Versioned.{epoch_mod}
use libjmvcc.Sandbox.Atomic.{Undoable}
use libjmvcc.Isolation.Placed.{newest}

pub record Laws (V : VersionedObject) : Type 1 where
  pub undoable : Undoable V
  pub Reading : Type 0
  pub read : V.Object → ℕ → Reading
  pub sees : V.Value → Reading
  pub ends : V.Object → List ℕ
  -- The epochs in the history are in order, and at most the bound.
  pub Valid : ℕ → V.Object → Type 0
  pub valid_mono : (c d : ℕ) (o : V.Object) → c ≤ d → Valid c o → Valid d o
  pub ends_bound : (c : ℕ) (o : V.Object) → 1 ≤ c → Valid c o → newest 1 (ends o) ≤ c
  pub same :
      (c : ℕ) (x y : V.Object)
      → undoable.Same x y
      → Valid c y
      → Valid c x × (ends x ≡ ends y) × ((j : ℕ) → 1 ≤ j → read x j ≡ read y j)
  -- `setup` for the next epoch, and the version that `commit` then gives up.
  pub accepts :
      (c old : ℕ) (o : V.Object) (v : V.Value)
      → Valid c o
      → 1 ≤ c
      → c + 1 < epoch_mod
      → newest 1 (ends o) ≤ old
      → (x : V.Object) × (V.setup c o old (c + 1) v ≡ ok (true, x))
        × Valid (c + 1) x
        × (ends x ≡ ends o ++ (c + 1) ∷ [])
        × (V.commit x (c + 1) ≡ ok (newest 1 (ends o)))
        × ((j : ℕ) → 1 ≤ j → j ≤ c → read x j ≡ read o j)
        × ((j : ℕ) → c + 1 ≤ j → read x j ≡ sees v)
  pub refuses :
      (c old : ℕ) (o : V.Object) (v : V.Value)
      → c + 1 < epoch_mod
      → old < newest 1 (ends o)
      → V.setup c o old (c + 1) v ≡ ok (false, o)
  -- `cleanup` of the oldest version, and of another one.
  pub cleans_first :
      (c : ℕ) (o : V.Object) (f t : ℕ) (es : List ℕ)
      → Valid c o
      → ends o ≡ t ∷ es
      → f < t
      → (x : V.Object) × (V.cleanup o f ≡ ok x)
        × Valid c x
        × (ends x ≡ es)
        × ((j : ℕ) → t ≤ j → read x j ≡ read o j)
  pub cleans_later :
      (c : ℕ) (o : V.Object) (bs : List ℕ) (f t : ℕ) (es : List ℕ)
      → Valid c o
      → ends o ≡ bs ++ f ∷ t ∷ es
      → (x : V.Object) × (V.cleanup o f ≡ ok x)
        × Valid c x
        × (ends x ≡ bs ++ t ∷ es)
        × ((j : ℕ) → 1 ≤ j → (j < f) ⊎ (t ≤ j) → read x j ≡ read o j)
