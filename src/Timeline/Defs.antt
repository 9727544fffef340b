-- ===== src/Timeline/Defs.antt =====
-- The versions of an object, oldest first. A snapshot sees the newest version that became valid no
-- later than the epoch of the snapshot.
use libjmvcc.Base.{
  ℕ, zero, suc, ◌≤◌, ◌<◌, ◌≡◌, Option, none, some, List, [], ◌∷◌, leb, if◌then◌else◌,
}

pub record Version (T : Type 0) : Type 0 where
  pub valid_from : ℕ
  pub value : T

-- One entry of a history: a value with the epoch at which its validity ended.
pub record Entry (T : Type 0) : Type 0 where
  pub valid_to : ℕ
  pub value : T

module _ {T : Type 0} where
  -- What a snapshot at `epoch` sees of the versions, if it would see `d` of the earlier ones.
  abbrev pub seen : ℕ → T → List (Version T) → T
  seen epoch d [] = d
  seen epoch d (v ∷ vs) = seen epoch (if leb v.valid_from epoch then v.value else d) vs

  -- The oldest version serves the snapshots that are older than every version.
  abbrev pub read_at : ℕ → List (Version T) → Option T
  read_at epoch [] = none
  read_at epoch (v ∷ vs) = some (seen epoch v.value vs)

  -- The versions behind a history whose first value is valid from `from`.
  abbrev pub versions : ℕ → List (Entry T) → T → List (Version T)
  versions from [] current = record { valid_from = from; value = current } ∷ []
  versions from (e ∷ es) current =
      record { valid_from = from; value = e.value } ∷ versions e.valid_to es current

  -- The same with the newest version as the last entry.
  abbrev pub starts : ℕ → List (Entry T) → List (Version T)
  starts from [] = []
  starts from (e ∷ es) = record { valid_from = from; value = e.value } ∷ starts e.valid_to es

  -- The epochs of a history increase strictly, from above `from`.
  abbrev pub Increasing : ℕ → List (Entry T) → Type 0
  Increasing from [] = Unit
  Increasing from (e ∷ es) = (from < e.valid_to) × Increasing e.valid_to es

  -- The epochs of a history are at most `bound`.
  abbrev pub UpTo : ℕ → List (Entry T) → Type 0
  UpTo bound [] = Unit
  UpTo bound (e ∷ es) = (e.valid_to ≤ bound) × UpTo bound es

  -- Version number `i` is in the history, valid from `f` and up to, but not at, `t`.
  abbrev pub IsVersion : ℕ → List (Entry T) → ℕ → ℕ → ℕ → Type 0
  IsVersion from [] i f t = ⊥
  IsVersion from (e ∷ es) zero f t = (from ≡ f) × (e.valid_to ≡ t)
  IsVersion from (e ∷ es) (suc i) f t = IsVersion e.valid_to es i f t

  -- The epoch at which the newest version became valid.
  abbrev pub newest_from : ℕ → List (Entry T) → ℕ
  newest_from from [] = from
  newest_from from (e ∷ es) = newest_from e.valid_to es

  -- Without version number `i + 1`: the version before it stays valid for as long as that one was.
  abbrev pub forget : List (Entry T) → ℕ → List (Entry T)
  forget [] i = []
  forget (e ∷ []) i = e ∷ []
  forget (e ∷ x ∷ xs) zero = record e { valid_to = x.valid_to } ∷ xs
  forget (e ∷ x ∷ xs) (suc i) = e ∷ forget (x ∷ xs) i

  -- With another epoch at which version number `i` ends and version number `i + 1` begins.
  abbrev pub move_end : List (Entry T) → ℕ → ℕ → List (Entry T)
  move_end [] i new = []
  move_end (e ∷ es) zero new = record e { valid_to = new } ∷ es
  move_end (e ∷ es) (suc i) new = e ∷ move_end es i new
