-- ===== src/Garbage/Chain.antt =====
-- The doubly linked list of the sections in jmvcc/garbage.cc, as a segment of a queue.
use libjmvcc.Base.{
  ltb, length, suc, ℕ, ◌≡◌, ◌≢◌, refl, ap, ap₂, ◌∙◌, sym, true, false, List, [], ◌∷◌, ◌++◌, map,
  arith, Option, none, some, contains, contains-here, contains-there, Bool-cases, inl, inr,
}
use libjmvcc.Garbage.{CriticalInfo, take_cleanups_from}
use libjmvcc.Garbage.Queue.{Scheduled, Open, owners, released, release_all}

abbrev pub names : List Scheduled → List ℕ
names = map λ c. c.cleanup

abbrev pub head_or : Option ℕ → List Open → Option ℕ
head_or nx [] = nx
head_or nx (x ∷ xs) = some x.owner

abbrev pub last_or : Option ℕ → List Open → Option ℕ
last_or pr [] = pr
last_or pr (x ∷ xs) = last_or (some x.owner) xs

-- The sections `l`, oldest first, are linked to each other, to `pr` before them and `nx` behind.
abbrev pub Linked : Option ℕ → List Open → Option ℕ → (ℕ → CriticalInfo) → Type 0
Linked pr [] nx info = Unit
Linked pr (x ∷ xs) nx info =
    (info x.owner
      ≡ record { live = true; prev = pr; next = head_or nx xs; cleanups = names x.cleanups })
    × Linked (some x.owner) xs nx info

pub Linked-split :
    (pr nx : Option ℕ) (info : ℕ → CriticalInfo) (b c : List Open)
    → Linked pr (b ++ c) nx info
    → Linked pr b (head_or nx c) info × Linked (last_or pr b) c nx info
Linked-split pr nx info [] c l = (tt, l)
Linked-split pr nx info (x ∷ []) [] l = (l, tt)
Linked-split pr nx info (x ∷ []) (y ∷ c) l = ((l.0, tt), l.1)
Linked-split pr nx info (x ∷ y ∷ b) c l =
    let (p, q) = Linked-split (some x.owner) nx info (y ∷ b) c l.1 in ((l.0, p), q)

pub Linked-join :
    (pr nx : Option ℕ) (info : ℕ → CriticalInfo) (b c : List Open)
    → Linked pr b (head_or nx c) info
    → Linked (last_or pr b) c nx info
    → Linked pr (b ++ c) nx info
Linked-join pr nx info [] c p q = q
Linked-join pr nx info (x ∷ []) [] p q = p
Linked-join pr nx info (x ∷ []) (y ∷ c) p q = (p.0, q)
Linked-join pr nx info (x ∷ y ∷ b) c p q = (p.0, Linked-join (some x.owner) nx info (y ∷ b) c p.1 q)

-- A segment is linked in any store that agrees on its sections.
pub Linked-agree :
    (pr nx : Option ℕ) (f g : ℕ → CriticalInfo) (l : List Open)
    → ((q : ℕ) → contains q (owners l) ≡ true → g q ≡ f q)
    → Linked pr l nx f
    → Linked pr l nx g
Linked-agree pr nx f g [] a l = tt
Linked-agree pr nx f g (x ∷ xs) a l = (
  a x.owner (contains-here x.owner (owners xs)) ∙ l.0,
  Linked-agree (some x.owner) nx f g xs (λ q m. a q (contains-there q x.owner (owners xs) m)) l.1,
)

pub names-nil : (cs : List Scheduled) → names cs ≡ [] → cs ≡ []
names-nil [] e = refl
names-nil (c ∷ cs) e = cc

pub length-names : (cs : List Scheduled) → length (names cs) ≡ length cs
length-names [] = refl
length-names (c ∷ cs) = ap suc (length-names cs)

pub names-append : (xs ys : List Scheduled) → names (xs ++ ys) ≡ names xs ++ names ys
names-append [] ys = refl
names-append (x ∷ xs) ys = ap (◌∷◌ x.cleanup) (names-append xs ys)

pub some_inj : (x y : ℕ) → some x ≡ some y → x ≡ y
some_inj x y e = cc

pub names-released : (k : ℕ) (cs : List Scheduled) → names (released k cs) ≡ names cs
names-released k [] = refl
names-released k (c ∷ cs) = ap (◌∷◌ c.cleanup) (names-released k cs)

head_or-release_all :
    (k : ℕ) (nx : Option ℕ) (l : List Open) → head_or nx (release_all k l) ≡ head_or nx l
head_or-release_all k nx [] = refl
head_or-release_all k nx (x ∷ l) = refl

-- The links do not depend on what the cleanups wait for.
pub Linked-release_all :
    (k : ℕ) (pr nx : Option ℕ) (f : ℕ → CriticalInfo) (l : List Open)
    → Linked pr l nx f
    → Linked pr (release_all k l) nx f
Linked-release_all k pr nx f [] l = tt
Linked-release_all k pr nx f (x ∷ xs) l = (
  l.0
      ∙ ap₂ (λ n c. record { live = true; prev = pr; next = n; cleanups = c })
          (sym (head_or-release_all k nx xs)) (sym (names-released k x.cleanups)),
  Linked-release_all k (some x.owner) nx f xs l.1,
)

pub head-ne : (t : ℕ) (a : List Open) → contains t (owners a) ≡ false → head_or none a ≢ some t
head-ne t [] m e = cc
head-ne t (x ∷ a) m e = absurd (ground (arith, m, e))

pub owners-append : (b c : List Open) → owners (b ++ c) ≡ owners b ++ owners c
owners-append [] c = refl
owners-append (x ∷ b) c = ap (◌∷◌ x.owner) (owners-append b c)

pub last_or-append :
    (pr : Option ℕ) (b c : List Open) → last_or pr (b ++ c) ≡ last_or (last_or pr b) c
last_or-append pr [] c = refl
last_or-append pr (x ∷ b) c = last_or-append (some x.owner) b c

pub names-take_cleanups_from :
    (xs ys : List Scheduled)
    → names (take_cleanups_from xs ys) ≡ take_cleanups_from (names xs) (names ys)
unfolding take_cleanups_from
names-take_cleanups_from xs ys = elim (Bool-cases (ltb (length xs) (length ys))) [
  | inl h ↦ rw (length-names xs, length-names ys, h) (names-append ys xs)
  | inr h ↦ rw (length-names xs, length-names ys, h) (names-append xs ys)
]

-- An open section with its links.
abbrev pub open_info : Option ℕ → Option ℕ → List ℕ → CriticalInfo
open_info pr nx cs = record { live = true; prev = pr; next = nx; cleanups = cs }
