-- ===== src/Garbage/Link.antt =====
-- `insert` of jmvcc/garbage.cc, on the linked list of the sections.
use libjmvcc.Base.{
  update-same, Once-append, contains-neither, ℕ, ◌≡◌, ◌≢◌, refl, ap, ◌∙◌, sym, subst, true, false,
  List, [], ◌∷◌, ◌++◌, Option, none, some, contains, contains-ne, update, contains-append_neither,
  snoc-cases, Once, ne→==, inl, inr, ok, update-other,
}
use mathlib.Core.List.{append_assoc}
use libjmvcc.Garbage.{Sections, CriticalInfo, insert, link_newest}
use libjmvcc.Garbage.Queue.{Open, owners}
use libjmvcc.Garbage.Chain.{
  open_info, last_or, Linked, Linked-split, Linked-join, Linked-agree, owners-append,
  last_or-append,
}

-- The state once `t` is open behind `pr`.
abbrev pub opening : Sections → ℕ → Option ℕ → Sections
opening s t none = record s { newest_ci = some t; info = update s.info t (open_info none none []) }
opening s t (some p) = record s {
  newest_ci = some t;
  info =
      update (update s.info p (record (s.info p) { next = some t })) t (open_info (some p) none []);
}

abbrev pub entered : ℕ → Open
entered t = record { owner = t; cleanups = [] }

insert_first :
    (s : Sections) (t : ℕ)
    → s.newest_ci ≡ none
    → (s.info t).live ≡ false
    → (s.info t).cleanups ≡ []
    → insert s t ≡ ok (opening s t none)
unfolding insert link_newest
insert_first s t n l c = simp (n, l, c)

insert_behind :
    (s : Sections) (t p : ℕ)
    → s.newest_ci ≡ some p
    → (s.info p).next ≡ none
    → p ≢ t
    → (s.info t).live ≡ false
    → (s.info t).cleanups ≡ []
    → insert s t ≡ ok (opening s t (some p))
unfolding insert link_newest
insert_behind s t p n x d l c = simp (n, x, ne→== p t d, l, c)

abbrev with_next : Option ℕ → CriticalInfo → CriticalInfo
with_next nx i = record i { next = nx }

-- `insert` of section `t` opens it behind the sections `l`, and changes no other but the newest.
abbrev pub Inserted : Sections → List Open → ℕ → Option ℕ → Type 0
Inserted s l t pr =
    (insert s t ≡ ok (opening s t pr))
    × (last_or none l ≡ pr)
    × Linked none (l ++ entered t ∷ []) none (opening s t pr).info
    × ((q : ℕ) → contains q (owners l) ≡ false → q ≢ t → (opening s t pr).info q ≡ s.info q)

Inserted-snoc :
    (s : Sections) (b : List Open) (x : Open) (t : ℕ)
    → Linked none (b ++ x ∷ []) none s.info
    → s.newest_ci ≡ last_or none (b ++ x ∷ [])
    → Once (owners (b ++ x ∷ []))
    → contains t (owners (b ++ x ∷ [])) ≡ false
    → (s.info t).live ≡ false
    → (s.info t).cleanups ≡ []
    → Inserted s (b ++ x ∷ []) t (some x.owner)
Inserted-snoc s b x t k n o m live cs =
    let one = update s.info x.owner (record (s.info x.owner) { next = some t }) in
    let u = opening s t (some x.owner) in
    let last : last_or none (b ++ x ∷ []) ≡ some x.owner = last_or-append none b (x ∷ []) in
    let (lb, (lx, _)) = Linked-split none none s.info b (x ∷ []) k in
    let (mb, mx) =
      contains-append_neither t (owners b) (x.owner ∷ [])
        (subst (λ ks. contains t ks ≡ false) (owners-append b (x ∷ [])) m) in
    let (ob, _, apart) =
      Once-append (owners b) (x.owner ∷ []) (subst Once (owners-append b (x ∷ [])) o) in
    let (tx, _) = contains-neither t x.owner [] mx in
    let same : (q : ℕ) → q ≢ x.owner → q ≢ t → u.info q ≡ s.info q =
      λ q d e. simp (ne→== t q (λ f. e (sym f)), ne→== x.owner q (λ f. d (sym f))) in
    let agree : (q : ℕ) → contains q (owners b) ≡ true → u.info q ≡ s.info q = λ q w.
      same q (contains-neither q x.owner [] (apart q w)).0 (contains-ne q t (owners b) w mb) in
    (
      insert_behind s t x.owner (n ∙ last) (ap (λ i. i.next) lx) (λ e. tx (sym e)) live cs,
      last,
      subst (λ l. Linked none l none u.info) (sym (append_assoc b (x ∷ []) (entered t ∷ [])))
          (Linked-join none none u.info b (x ∷ entered t ∷ [])
            (Linked-agree none (some x.owner) s.info u.info b agree lb)
            (
              update-other one t x.owner _ (λ e. tx (sym e))
                  ∙ update-same s.info x.owner _
                  ∙ ap (with_next (some t)) lx,
              (update-same one t _, tt),
            )),
      λ q w e.
          same q
            (contains-neither q x.owner []
              (contains-append_neither q (owners b) (x.owner ∷ [])
                (subst (λ ks. contains q ks ≡ false) (owners-append b (x ∷ [])) w)).1).0
            e,
    )

pub insert-Inserted :
    (s : Sections) (l : List Open) (t : ℕ)
    → Linked none l none s.info
    → s.newest_ci ≡ last_or none l
    → Once (owners l)
    → contains t (owners l) ≡ false
    → (s.info t).live ≡ false
    → (s.info t).cleanups ≡ []
    → (pr : Option ℕ) × Inserted s l t pr
insert-Inserted s l t k n o m live cs = elim (snoc-cases l) [
  | inl e ↦ (
    none,
    subst (λ l. Inserted s l t none) (sym e)
        (
          insert_first s t (n ∙ ap (last_or none) e) live cs,
          refl,
          (update-same s.info t _, tt),
          λ q w d. update-other s.info t q _ d,
        ),
  )
  | inr (b, x, e) ↦ (
    some x.owner,
    subst (λ l. Inserted s l t (some x.owner)) (sym e)
        (Inserted-snoc s b x t (subst (λ l. Linked none l none s.info) e k)
          (n ∙ ap (last_or none) e) (subst (λ l. Once (owners l)) e o)
          (subst (λ l. contains t (owners l) ≡ false) e m) live cs),
  )
]
