-- ===== src/Isolation/Pairs.antt =====
-- The cleanups of one object in the map of jmvcc/snapshot.cc, in the order of the entries.
use libjmvcc.Base.{
  ℕ, ◌≡◌, refl, ap, ap₂, ◌∙◌, sym, List, [], ◌∷◌, ◌++◌, Option, none, some, All, ◌⊎◌, inl, inr,
  ◌==◌, if◌then◌else◌, Bool-cases, get_last?, leb,
}
use mathlib.Core.List.{append_assoc, append-nil}
use libjmvcc.SnapshotInfo.Registry.{CleanupEntry, Entry}
use libjmvcc.SnapshotInfo.{add_cleanups, share}

-- The begins of the versions of the object that are to be cleaned up.
abbrev pub vals : ℕ → List CleanupEntry → List ℕ
vals q [] = []
vals q (c ∷ cs) = let rest = vals q cs in if c.object == q then c.valid_from ∷ rest else rest

abbrev pub in_entry : ℕ → List ℕ → List (ℕ × ℕ)
in_entry k [] = []
in_entry k (v ∷ vs) = (k, v) ∷ in_entry k vs

-- With the epochs of the entries that they stand in.
abbrev pub pairs : ℕ → List Entry → List (ℕ × ℕ)
pairs q [] = []
pairs q (e ∷ es) = in_entry e.epoch (vals q e.cleanups) ++ pairs q es

pub vals-append : (q : ℕ) (cs ds : List CleanupEntry) → vals q (cs ++ ds) ≡ vals q cs ++ vals q ds
vals-append q [] ds = refl
vals-append q (c ∷ cs) ds = elim (Bool-cases (c.object == q)) [
  | inl h ↦ rw h (ap (◌∷◌ c.valid_from) (vals-append q cs ds))
  | inr h ↦ rw h (vals-append q cs ds)
]

pub in_entry-append :
    (k : ℕ) (vs ws : List ℕ) → in_entry k (vs ++ ws) ≡ in_entry k vs ++ in_entry k ws
in_entry-append k [] ws = refl
in_entry-append k (v ∷ vs) ws = ap (◌∷◌ (k, v)) (in_entry-append k vs ws)

pub pairs-append : (q : ℕ) (b a : List Entry) → pairs q (b ++ a) ≡ pairs q b ++ pairs q a
pairs-append q [] a = refl
pairs-append q (e ∷ b) a =
    ap (λ x. in_entry e.epoch (vals q e.cleanups) ++ x) (pairs-append q b a)
    ∙ sym (append_assoc (in_entry e.epoch (vals q e.cleanups)) (pairs q b) (pairs q a))

-- The cleanups that are added stand in the last entry.
pub pairs-add_cleanups :
    (q : ℕ) (es : List Entry) (l : Entry) (cs : List CleanupEntry)
    → get_last? es ≡ some l
    → pairs q (add_cleanups es cs) ≡ pairs q es ++ in_entry l.epoch (vals q cs)
unfolding add_cleanups
pairs-add_cleanups q [] l cs h = cc
pairs-add_cleanups q (e ∷ []) l cs h =
    let same : e.epoch ≡ l.epoch = cc in
    let here = in_entry e.epoch (vals q e.cleanups) in
    append-nil _
    ∙ ap (in_entry e.epoch) (vals-append q e.cleanups cs)
    ∙ in_entry-append e.epoch (vals q e.cleanups) (vals q cs)
    ∙ ap (λ x. x ++ in_entry e.epoch (vals q cs)) (sym (append-nil here))
    ∙ ap (λ k. (here ++ []) ++ in_entry k (vals q cs)) same
pairs-add_cleanups q (e ∷ x ∷ es) l cs h =
    let here = in_entry e.epoch (vals q e.cleanups) in
    ap (λ x. here ++ x) (pairs-add_cleanups q (x ∷ es) l cs h)
    ∙ sym (append_assoc here (pairs q (x ∷ es)) (in_entry l.epoch (vals q cs)))

pub vals-All :
    (P : ℕ → Type 0) (q : ℕ) (cs : List CleanupEntry)
    → All (λ c. P c.valid_from) cs
    → All P (vals q cs)
vals-All P q [] p = tt
vals-All P q (c ∷ cs) p = elim (Bool-cases (c.object == q)) [
  | inl h ↦ rw h (p.0, vals-All P q cs p.1)
  | inr h ↦ rw h (vals-All P q cs p.1)
]

-- An object without cleanups has none in either part.
pub share-vals_none :
    (q : ℕ) (prev : Option Entry) (cs : List CleanupEntry)
    → vals q cs ≡ []
    → (vals q (share prev cs).0 ≡ []) × (vals q (share prev cs).1 ≡ [])
unfolding share
share-vals_none q none cs h = (refl, h)
share-vals_none q (some p) [] h = (refl, refl)
share-vals_none q (some p) (c ∷ cs) h = elim (Bool-cases (c.object == q)) [
  | inl e ↦ absurd (nonempty c.valid_from (vals q cs) (sym (rw e refl) ∙ h))
  | inr e ↦
      let (x, y) = share-vals_none q (some p) cs (sym (rw e refl) ∙ h) in
      elim (Bool-cases (leb c.valid_from p.epoch)) [
        | inl l ↦ (rw (l, e) x, rw l y)
        | inr l ↦ (rw l x, rw (l, e) y)
      ]
]
  where
    nonempty : (v : ℕ) (vs : List ℕ) → v ∷ vs ≡ [] → ⊥
    nonempty v vs h = cc

-- The one cleanup of an object is in one part.
pub share-vals_one :
    (q v : ℕ) (prev : Option Entry) (cs : List CleanupEntry)
    → vals q cs ≡ v ∷ []
    → ((vals q (share prev cs).0 ≡ v ∷ []) × (vals q (share prev cs).1 ≡ []))
      ⊎ ((vals q (share prev cs).0 ≡ []) × (vals q (share prev cs).1 ≡ v ∷ []))
unfolding share
share-vals_one q v none cs h = inr (refl, h)
share-vals_one q v (some p) [] h = cc
share-vals_one q v (some p) (c ∷ cs) h = elim (Bool-cases (c.object == q)) [
  | inl e ↦
      let (head, behind) = parts c.valid_from (vals q cs) (sym (rw e refl) ∙ h) in
      let (x, y) = share-vals_none q (some p) cs behind in
      elim (Bool-cases (leb c.valid_from p.epoch)) [
        | inl l ↦ inl (rw (l, e) (ap₂ ◌∷◌ head x), rw l y)
        | inr l ↦ inr (rw l x, rw (l, e) (ap₂ ◌∷◌ head y))
      ]
  | inr e ↦ elim (share-vals_one q v (some p) cs (sym (rw e refl) ∙ h)) [
    | inl (x, y) ↦ elim (Bool-cases (leb c.valid_from p.epoch)) [
      | inl l ↦ inl (rw (l, e) x, rw l y)
      | inr l ↦ inl (rw l x, rw (l, e) y)
    ]
    | inr (x, y) ↦ elim (Bool-cases (leb c.valid_from p.epoch)) [
      | inl l ↦ inr (rw (l, e) x, rw l y)
      | inr l ↦ inr (rw l x, rw (l, e) y)
    ]
  ]
]
  where
    parts : (a : ℕ) (vs : List ℕ) → a ∷ vs ≡ v ∷ [] → (a ≡ v) × (vs ≡ [])
    parts a vs h = (cc, cc)
