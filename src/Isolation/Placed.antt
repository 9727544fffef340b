-- ===== src/Isolation/Placed.antt =====
-- The cleanups of one object in the map of jmvcc/snapshot.cc against the epochs in its history.
use libjmvcc.Base.{
  ℕ, ◌≤◌, ◌<◌, ◌≡◌, refl, ap, sym, subst, List, [], ◌∷◌, ◌++◌, arith, All, ◌⊎◌, inl, inr,
}

-- No epoch of `ks` lies above `k` and below `t`.
abbrev pub Gap : List ℕ → ℕ → ℕ → Type 0
Gap ks k t = All (λ j. (j ≤ k) ⊎ (t ≤ j)) ks

-- The epoch at which the newest version begins, behind versions that end at `ts`.
abbrev pub newest : ℕ → List ℕ → ℕ
newest lo [] = lo
newest lo (t ∷ ts) = newest t ts

-- The cleanups `ps`, each with the epoch of its entry and of the begin of its version, are those of
-- the versions from `lo` on that end at `ts`, in their order. The entry sees the version, and no
-- later epoch of `ks` does.
abbrev pub Placed : List ℕ → ℕ → List (ℕ × ℕ) → List ℕ → Type 0
Placed ks lo [] [] = Unit
Placed ks lo [] (t ∷ ts) = ⊥
Placed ks lo (p ∷ ps) [] = ⊥
Placed ks lo (p ∷ ps) (t ∷ ts) =
    (p.1 ≡ lo) × (p.1 ≤ p.0) × (p.0 < t) × Gap ks p.0 t × Placed ks t ps ts

pub newest-append : (lo : ℕ) (us bs : List ℕ) → newest lo (us ++ bs) ≡ newest (newest lo us) bs
newest-append lo [] bs = refl
newest-append lo (a ∷ us) bs = newest-append a us bs

-- The version that is superseded at `new` goes to the entry of epoch `k`.
pub Placed-push :
    (ks : List ℕ) (lo k new : ℕ) (ps : List (ℕ × ℕ)) (ts : List ℕ)
    → Placed ks lo ps ts
    → newest lo ts ≤ k
    → k < new
    → Gap ks k new
    → Placed ks lo (ps ++ (k, newest lo ts) ∷ []) (ts ++ new ∷ [])
Placed-push ks lo k new [] [] h l u g = (refl, l, u, g, tt)
Placed-push ks lo k new [] (t ∷ ts) h l u g = elim h [ ]
Placed-push ks lo k new (p ∷ ps) [] h l u g = elim h [ ]
Placed-push ks lo k new (p ∷ ps) (t ∷ ts) (a, b, c, d, h) l u g =
    (a, b, c, d, Placed-push ks t k new ps ts h l u g)

pub newest-ge :
    (ks : List ℕ) (lo : ℕ) (ps : List (ℕ × ℕ)) (ts : List ℕ)
    → Placed ks lo ps ts
    → lo ≤ newest lo ts
newest-ge ks lo [] [] h = omega arith
newest-ge ks lo [] (t ∷ ts) h = elim h [ ]
newest-ge ks lo (p ∷ ps) [] h = elim h [ ]
newest-ge ks lo (p ∷ ps) (t ∷ ts) (a, b, c, d, h) = omega (arith, newest-ge ks t ps ts h)

-- The end of any version is at most the begin of the newest.
pub newest-mid :
    (ks : List ℕ) (lo lo' : ℕ) (ps : List (ℕ × ℕ)) (bs : List ℕ) (t : ℕ) (es : List ℕ)
    → Placed ks lo ps (bs ++ t ∷ es)
    → t ≤ newest lo' (bs ++ t ∷ es)
newest-mid ks lo lo' [] [] t es h = elim h [ ]
newest-mid ks lo lo' (p ∷ ps) [] t es (a, b, c, d, h) = newest-ge ks t ps es h
newest-mid ks lo lo' [] (b ∷ bs) t es h = elim h [ ]
newest-mid ks lo lo' (p ∷ ps) (b ∷ bs) t es (x, y, z, w, h) = newest-mid ks b b ps bs t es h

-- Other epochs, of which none falls into a gap.
pub Placed-keys :
    (ks js : List ℕ) (lo : ℕ) (ps : List (ℕ × ℕ)) (ts : List ℕ)
    → ((k t : ℕ) → k < t → t ≤ newest lo ts → Gap ks k t → Gap js k t)
    → Placed ks lo ps ts
    → Placed js lo ps ts
Placed-keys ks js lo [] [] f h = tt
Placed-keys ks js lo [] (t ∷ ts) f h = elim h [ ]
Placed-keys ks js lo (p ∷ ps) [] f h = elim h [ ]
Placed-keys ks js lo (p ∷ ps) (t ∷ ts) f (a, b, c, d, h) =
    (a, b, c, f p.0 t c (newest-ge ks t ps ts h) d, Placed-keys ks js t ps ts f h)

-- The parts of the epochs round one cleanup.
pub Placed-split :
    (ks : List ℕ) (lo k v : ℕ) (us cs : List (ℕ × ℕ)) (ts : List ℕ)
    → Placed ks lo (us ++ (k, v) ∷ cs) ts
    → (bs : List ℕ) × (t : ℕ) × (es : List ℕ) × (ts ≡ bs ++ t ∷ es)
      × Placed ks lo us bs
      × (v ≡ newest lo bs)
      × (v ≤ k)
      × (k < t)
      × Gap ks k t
      × Placed ks t cs es
Placed-split ks lo k v [] cs [] h = elim h [ ]
Placed-split ks lo k v [] cs (t ∷ ts) (a, b, c, d, h) = ([], t, ts, refl, tt, a, b, c, d, h)
Placed-split ks lo k v (p ∷ us) cs [] h = elim h [ ]
Placed-split ks lo k v (p ∷ us) cs (t ∷ ts) (a, b, c, d, h) =
    let (bs, u, es, e, x, y, z, w, g, r) = Placed-split ks t k v us cs ts h in
    (t ∷ bs, u, es, ap (◌∷◌ t) e, (a, b, c, d, x), y, z, w, g, r)

pub Placed-join :
    (ks : List ℕ) (lo : ℕ) (us cs : List (ℕ × ℕ)) (bs es : List ℕ)
    → Placed ks lo us bs
    → Placed ks (newest lo bs) cs es
    → Placed ks lo (us ++ cs) (bs ++ es)
Placed-join ks lo [] cs [] es h g = g
Placed-join ks lo [] cs (b ∷ bs) es h g = elim h [ ]
Placed-join ks lo (p ∷ us) cs [] es h g = elim h [ ]
Placed-join ks lo (p ∷ us) cs (b ∷ bs) es (x, y, z, w, h) g =
    (x, y, z, w, Placed-join ks b us cs bs es h g)

-- No two cleanups are in one entry.
pub Placed-apart :
    (ks : List ℕ) (lo k v w : ℕ) (us cs : List (ℕ × ℕ)) (ts : List ℕ)
    → Placed ks lo (us ++ (k, v) ∷ (k, w) ∷ cs) ts
    → ⊥
Placed-apart ks lo k v w us cs ts h =
    let (bs, t, es, _, _, _, _, l, _, r) = Placed-split ks lo k v us ((k, w) ∷ cs) ts h in
    two t es l r
  where
    two : (t : ℕ) (es : List ℕ) → k < t → Placed ks t ((k, w) ∷ cs) es → ⊥
    two t [] l r = r
    two t (e ∷ es) l r = omega (arith, l, r.0, r.1)

pub All-both :
    (P Q R : ℕ → Type 0) (ks : List ℕ)
    → ((k : ℕ) → P k → Q k → R k)
    → All P ks
    → All Q ks
    → All R ks
All-both P Q R [] f p q = tt
All-both P Q R (k ∷ ks) f p q = (f k p.0 q.0, All-both P Q R ks f p.1 q.1)

-- The epochs `js` are some of `ks`.
abbrev pub Some : List ℕ → List ℕ → Type 1
Some ks js = (P : ℕ → Type 0) → All P ks → All P js

-- No epoch of `js` sees the version from `v` on that ends at `t`.
abbrev pub Past : List ℕ → ℕ → ℕ → Type 0
Past js v t = All (λ j. (j < v) ⊎ (t ≤ j)) js

Past-Gap : (js : List ℕ) (k v t : ℕ) → Gap js k t → All (λ j. (j < v) ⊎ (k < j)) js → Past js v t
Past-Gap js k v t g u =
    All-both (λ j. (j ≤ k) ⊎ (t ≤ j)) (λ j. (j < v) ⊎ (k < j)) (λ j. (j < v) ⊎ (t ≤ j)) js
      (λ j x y. later j x y) g u
  where
    later : (j : ℕ) → (j ≤ k) ⊎ (t ≤ j) → (j < v) ⊎ (k < j) → (j < v) ⊎ (t ≤ j)
    later j x (inl y) = inl y
    later j (inl x) (inr y) = absurd (omega (arith, x, y))
    later j (inr x) (inr y) = inr x

-- A version that an entry of another epoch takes over.
pub Placed-move :
    (ks js : List ℕ) (lo k l v : ℕ) (us cs : List (ℕ × ℕ)) (ts : List ℕ)
    → Some ks js
    → v ≤ l
    → l < k
    → All (λ j. (j ≤ l) ⊎ (k < j)) js
    → Placed ks lo (us ++ (k, v) ∷ cs) ts
    → Placed js lo (us ++ (l, v) ∷ cs) ts
Placed-move ks js lo k l v us cs ts sub a b out h =
    let (bs, t, es, e, x, y, z, w, g, r) = Placed-split ks lo k v us cs ts h in
    let keep : (k t : ℕ) → Gap ks k t → Gap js k t = λ k t g. sub (λ j. (j ≤ k) ⊎ (t ≤ j)) g in
    let gap : Gap js l t =
      All-both (λ j. (j ≤ k) ⊎ (t ≤ j)) (λ j. (j ≤ l) ⊎ (k < j)) (λ j. (j ≤ l) ⊎ (t ≤ j)) js nearer
        (keep k t g) out in
    subst (Placed js lo (us ++ (l, v) ∷ cs)) (sym e) (
      Placed-join js lo us ((l, v) ∷ cs) bs (t ∷ es)
        (Placed-keys ks js lo us bs (λ k t _ _ g. keep k t g) x)
        (y, a, omega (arith, b, w), gap, Placed-keys ks js t cs es (λ k t _ _ g. keep k t g) r))
  where
    nearer : {t : ℕ} (j : ℕ) → (j ≤ k) ⊎ (t ≤ j) → (j ≤ l) ⊎ (k < j) → (j ≤ l) ⊎ (t ≤ j)
    nearer j x (inl y) = inl y
    nearer j (inl x) (inr y) = absurd (omega (arith, x, y))
    nearer j (inr x) (inr y) = inr x

-- What is left of the epochs `ts` of a history, and of the cleanups `ps`, once the version from `v`
-- on is cleaned up: it was the oldest, or the one before it lasts until its end.
abbrev pub Cleaned : List ℕ → ℕ → ℕ → List (ℕ × ℕ) → List ℕ → Type 0
Cleaned js lo v ps ts =
    ((t : ℕ) × (es : List ℕ) × (ts ≡ t ∷ es) × (v < t) × All (λ j. t ≤ j) js × Placed js t ps es)
    ⊎ ((bs : List ℕ) × (t : ℕ) × (es : List ℕ) × (ts ≡ bs ++ v ∷ t ∷ es)
        × Past js v t
        × Placed js lo ps (bs ++ t ∷ es))

-- The version from `v` on stands behind the one of `p`.
Placed-clean_later :
    (ks js : List ℕ) (lo k v : ℕ) (p : ℕ × ℕ) (us cs : List (ℕ × ℕ)) (ts : List ℕ)
    → Some ks js
    → All (λ j. (j < v) ⊎ (k < j)) js
    → Placed ks lo (p ∷ us ++ (k, v) ∷ cs) ts
    → (bs : List ℕ) × (t : ℕ) × (es : List ℕ) × (ts ≡ bs ++ v ∷ t ∷ es)
      × Past js v t
      × Placed js lo (p ∷ us ++ cs) (bs ++ t ∷ es)
Placed-clean_later ks js lo k v p us cs [] sub out h = elim h [ ]
Placed-clean_later ks js lo k v p [] cs (t ∷ []) sub out h = absurd h.4
Placed-clean_later ks js lo k v p [] cs (t ∷ u ∷ es) sub out (a, b, c, d, (a', b', c', d', h)) =
    let keep : (k t : ℕ) → Gap ks k t → Gap js k t = λ k t g. sub (λ j. (j ≤ k) ⊎ (t ≤ j)) g in
    let past : Past js v u = Past-Gap js k v u (keep k u d') out in
    let gap : Gap js p.0 u =
      All-both (λ j. (j ≤ p.0) ⊎ (t ≤ j)) (λ j. (j < v) ⊎ (u ≤ j)) (λ j. (j ≤ p.0) ⊎ (u ≤ j)) js
        (λ j x y. wider j x y) (keep p.0 t d) past in
    (
      [],
      u,
      es,
      ap (λ x. x ∷ u ∷ es) (sym a'),
      past,
      (
        a,
        b,
        omega (arith, c, a', b', c'),
        gap,
        Placed-keys ks js u cs es (λ k t _ _ g. keep k t g) h,
      ),
    )
  where
    wider : (j : ℕ) → (j ≤ p.0) ⊎ (t ≤ j) → (j < v) ⊎ (u ≤ j) → (j ≤ p.0) ⊎ (u ≤ j)
    wider j x (inr y) = inr y
    wider j (inl x) (inl y) = inl x
    wider j (inr x) (inl y) = absurd (omega (arith, x, y, a'))
Placed-clean_later ks js lo k v p (q ∷ us) cs (t ∷ ts) sub out (a, b, c, d, h) =
    let (bs, u, es, e, past, r) = Placed-clean_later ks js t k v q us cs ts sub out h in
    (t ∷ bs, u, es, ap (◌∷◌ t) e, past, (a, b, c, sub (λ j. (j ≤ p.0) ⊎ (t ≤ j)) d, r))

pub Placed-clean :
    (ks js : List ℕ) (lo k v : ℕ) (us cs : List (ℕ × ℕ)) (ts : List ℕ)
    → Some ks js
    → All (λ j. lo ≤ j) ks
    → All (λ j. (j < v) ⊎ (k < j)) js
    → Placed ks lo (us ++ (k, v) ∷ cs) ts
    → Cleaned js lo v (us ++ cs) ts
Placed-clean ks js lo k v (p ∷ us) cs ts sub low out h =
    inr (Placed-clean_later ks js lo k v p us cs ts sub out h)
Placed-clean ks js lo k v [] cs [] sub low out h = elim h [ ]
Placed-clean ks js lo k v [] cs (t ∷ es) sub low out (a, b, c, d, h) =
    let past : Past js v t = Past-Gap js k v t (sub (λ j. (j ≤ k) ⊎ (t ≤ j)) d) out in
    inl (
      t,
      es,
      refl,
      omega (arith, b, c),
      All-both (λ j. lo ≤ j) (λ j. (j < v) ⊎ (t ≤ j)) (λ j. t ≤ j) js (λ j x y. above j x y)
          (sub (λ j. lo ≤ j) low) past,
      Placed-keys ks js t cs es (λ k t _ _ g. sub (λ j. (j ≤ k) ⊎ (t ≤ j)) g) h,
    )
  where
    above : (j : ℕ) → lo ≤ j → (j < v) ⊎ (t ≤ j) → t ≤ j
    above j x (inr y) = y
    above j x (inl y) = absurd (omega (arith, x, y, a))
