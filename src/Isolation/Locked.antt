-- ===== src/Isolation/Locked.antt =====
-- `Versioned<T>` of jmvcc/versioned.h, as the map and the commit rely on it.
use libjmvcc.Base.{
  ℕ, suc, ◌+◌, ◌≤◌, ◌<◌, ◌≡◌, refl, ap, ap₂, ◌∙◌, sym, subst, true, false, Option, some, List, [],
  ◌∷◌, ◌++◌, arith, length, ok, ◌⊎◌, inr, le→leb, lt→leb, lt→ltb, if◌then◌else◌, tail,
}
use native.Mathlib.Nat.{mod-eq_of_lt}
use libjmvcc.CircularBuffer.{CircularBuffer}
use libjmvcc.Timeline.{
  Entry, versions, read_at, Increasing, UpTo, UpTo-mono, IsVersion, newest_from, newest_from-le,
  forget,
}
use libjmvcc.Versioned.{Versioned, epoch_mod, value_at_epoch, setup, cleanup, fake_commit}
use libjmvcc.Versioned.Reads.{value_at_epoch-eq-read_at}
use libjmvcc.Versioned.Updates.{
  IsValid, pushed, pushed_list, pushed-reads, pushed-IsValid, setup_pushed, setup_conflict,
  fake_commit-pushed,
}
use libjmvcc.Versioned.Cleanup.{
  cleaned, cleanup_first, cleanup-cleaned, cleaned-reads, Increasing-cleaned, UpTo-cleaned,
}
use libjmvcc.Versioned.Object.{versioned_object}
use libjmvcc.Versioned.Undo.{versioned_undoable}
use libjmvcc.Isolation.Placed.{newest}
use libjmvcc.Isolation.Laws.{Laws}

module _ {T : Type 0} where
  -- The epochs at which the versions of a history end.
  abbrev pub history_ends : List (Entry T) → List ℕ
  history_ends [] = []
  history_ends (e ∷ es) = e.valid_to ∷ history_ends es

  history_ends-append :
      (h g : List (Entry T)) → history_ends (h ++ g) ≡ history_ends h ++ history_ends g
  history_ends-append [] g = refl
  history_ends-append (e ∷ h) g = ap (◌∷◌ e.valid_to) (history_ends-append h g)

  newest-history_ends :
      (lo : ℕ) (h : List (Entry T)) → newest lo (history_ends h) ≡ newest_from lo h
  newest-history_ends lo [] = refl
  newest-history_ends lo (e ∷ h) = newest-history_ends e.valid_to h

  -- The version that begins at the one end of a history and lasts until the next.
  IsVersion-between :
      (lo : ℕ) (h : List (Entry T)) (bs : List ℕ) (f t : ℕ) (es : List ℕ)
      → history_ends h ≡ bs ++ f ∷ t ∷ es
      → IsVersion lo h (suc (length bs)) f t × (history_ends (forget h (length bs)) ≡ bs ++ t ∷ es)
  IsVersion-between lo [] [] f t es p = cc
  IsVersion-between lo [] (b ∷ bs) f t es p = cc
  IsVersion-between lo (e ∷ []) [] f t es p = cc
  IsVersion-between lo (e ∷ []) (b ∷ []) f t es p = cc
  IsVersion-between lo (e ∷ []) (b ∷ c ∷ bs) f t es p = cc
  IsVersion-between lo (e ∷ x ∷ h) [] f t es p = ((cc, cc), cc)
  IsVersion-between lo (e ∷ x ∷ h) (b ∷ bs) f t es p =
      let (v, q) = IsVersion-between e.valid_to (x ∷ h) bs f t es (ap tail p) in
      (v, ap₂ ◌∷◌ (heads p) q)
    where
      heads : {n m : ℕ} {ns ms : List ℕ} → n ∷ ns ≡ m ∷ ms → n ≡ m
      heads e = cc

module _ {T : Type 0} (B : CircularBuffer (Entry T)) where
  abbrev pub ends_of : Versioned B → List ℕ
  ends_of v = history_ends (B.to_list v.history)

  pub same_reads :
      (x y : Versioned B) (j : ℕ)
      → 1 ≤ j
      → x.current ≡ y.current
      → B.to_list x.history ≡ B.to_list y.history
      → value_at_epoch B x j ≡ value_at_epoch B y j
  same_reads x y j l p q =
      value_at_epoch-eq-read_at B x j l
      ∙ ap₂ (λ h c. read_at j (versions 1 h c)) q p
      ∙ sym (value_at_epoch-eq-read_at B y j l)

  -- An object whose history is that of `v` without version number `i`.
  without_version :
      (v w : Versioned B) (i f t c : ℕ)
      → IsValid B c v
      → IsVersion 1 (B.to_list v.history) i f t
      → w.current ≡ v.current
      → B.to_list w.history ≡ cleaned (B.to_list v.history) i
      → IsValid B c w
        × ((j : ℕ) → 1 ≤ j → (j < f) ⊎ (t ≤ j) → value_at_epoch B w j ≡ value_at_epoch B v j)
  without_version v w i f t c valid at p q = (
    record {
      increasing =
          subst (Increasing 1) (sym q)
            (Increasing-cleaned B (B.to_list v.history) i valid.increasing);
      up_to = subst (UpTo c) (sym q) (UpTo-cleaned B c (B.to_list v.history) i valid.up_to);
    },
    λ j l out.
        value_at_epoch-eq-read_at B w j l
        ∙ ap₂ (λ h c. read_at j (versions 1 h c)) q p
        ∙ cleaned-reads B (B.to_list v.history) v.current i f t j l out at
        ∙ sym (value_at_epoch-eq-read_at B v j l),
  )

  pub newest-ends_of :
      (v : Versioned B) → newest 1 (ends_of v) ≡ newest_from 1 (B.to_list v.history)
  newest-ends_of v = newest-history_ends 1 (B.to_list v.history)

  pub accepts_lem :
      (c old : ℕ) (v : Versioned B) (val : T)
      → IsValid B c v
      → 1 ≤ c
      → c + 1 < epoch_mod
      → newest 1 (ends_of v) ≤ old
      → (x : Versioned B) × (setup B c v old (c + 1) val ≡ ok (true, x))
        × IsValid B (c + 1) x
        × (ends_of x ≡ ends_of v ++ (c + 1) ∷ [])
        × (ok (fake_commit B x) ≡ ok (newest 1 (ends_of v)))
        × ((j : ℕ) → 1 ≤ j → j ≤ c → value_at_epoch B x j ≡ value_at_epoch B v j)
        × ((j : ℕ) → c + 1 ≤ j → value_at_epoch B x j ≡ some val)
  accepts_lem c old v val valid l fits le =
      let n = newest-ends_of v in
      let bound = newest_from-le 1 c (B.to_list v.history) l valid.up_to in
      (
        pushed B v (c + 1) val,
        setup_pushed B c old v val fits (omega (arith, le, n)),
        pushed-IsValid B v c val valid l (omega (arith, bound)),
        ap history_ends (pushed_list B v (c + 1) val) ∙ history_ends-append (B.to_list v.history) _,
        ap ok (fake_commit-pushed B v (c + 1) val ∙ sym n),
        λ j a b.
            pushed-reads B v (c + 1) j val a
            ∙ ap (λ b. if b then some val else value_at_epoch B v j)
                (lt→leb (c + 1) j (omega (arith, b))),
        λ j a.
            pushed-reads B v (c + 1) j val (omega (arith, a))
            ∙ ap (λ b. if b then some val else value_at_epoch B v j) (le→leb (c + 1) j a),
      )

  pub cleans_first_lem :
      (c : ℕ) (v : Versioned B) (f t : ℕ) (es : List ℕ) (h : List (Entry T))
      → B.to_list v.history ≡ h
      → IsValid B c v
      → history_ends h ≡ t ∷ es
      → f < t
      → (x : Versioned B) × (cleanup B v f ≡ ok x)
        × IsValid B c x
        × (ends_of x ≡ es)
        × ((j : ℕ) → t ≤ j → value_at_epoch B x j ≡ value_at_epoch B v j)
  cleans_first_lem c v f t es [] p valid q l = cc
  cleans_first_lem c v f t es (e ∷ h) p valid q l =
      let first : e.valid_to ≡ t = heads q in
      let x = record v { history = B.pop_front v.history } in
      let list : B.to_list x.history ≡ tail (B.to_list v.history) = B.to_list-pop_front v.history in
      let (good, reads) =
        without_version v x 0 1 t c valid (subst (λ h. IsVersion 1 h 0 1 t) (sym p) (refl, first))
          refl list in
      (
        x,
        cleanup_first B v f e h p (lt→ltb f e.valid_to (omega (arith, l, first))),
        good,
        ap history_ends (list ∙ ap tail p) ∙ ap tail q,
        λ j a. reads j (omega (arith, l, a)) (inr a),
      )
    where
      heads : {n : ℕ} {ns : List ℕ} → n ∷ ns ≡ t ∷ es → n ≡ t
      heads e = cc

  pub cleans_later_lem :
      (c : ℕ) (v : Versioned B) (bs : List ℕ) (f t : ℕ) (es : List ℕ)
      → IsValid B c v
      → ends_of v ≡ bs ++ f ∷ t ∷ es
      → (x : Versioned B) × (cleanup B v f ≡ ok x)
        × IsValid B c x
        × (ends_of x ≡ bs ++ t ∷ es)
        × ((j : ℕ) → 1 ≤ j → (j < f) ⊎ (t ≤ j) → value_at_epoch B x j ≡ value_at_epoch B v j)
  cleans_later_lem c v bs f t es valid q =
      let (at, after) = IsVersion-between 1 (B.to_list v.history) bs f t es q in
      let (x, run, same, list) = cleanup-cleaned B v (suc (length bs)) f t valid.increasing at in
      let (good, reads) = without_version v x (suc (length bs)) f t c valid at same list in
      (x, run, good, ap history_ends list ∙ after, reads)

  unfoldable pub versioned_laws : Laws (versioned_object B)
  unfolding versioned_undoable
  versioned_laws = record {
    undoable = versioned_undoable B;
    Reading = Option T;
    read = value_at_epoch B;
    sees = some;
    ends = ends_of;
    Valid = IsValid B;
    valid_mono = λ c d v l w. record {
      increasing = w.increasing;
      up_to = UpTo-mono c d (B.to_list v.history) l w.up_to;
    };
    ends_bound = λ c v l w.
        subst (λ n. n ≤ c) (sym (newest-ends_of v))
          (newest_from-le 1 c (B.to_list v.history) l w.up_to);
    same = λ c x y s w. (
      record {
        increasing = subst (Increasing 1) (sym s.1) w.increasing;
        up_to = subst (UpTo c) (sym s.1) w.up_to;
      },
      ap history_ends s.1,
      λ j l. same_reads x y j l s.0 s.1,
    );
    accepts = accepts_lem;
    refuses = λ c old v val fits l.
        subst (λ n. setup B c v old n val ≡ ok (false, v)) (mod-eq_of_lt fits)
          ((setup_conflict B c old v val).1 (subst (λ n. old < n) (newest-ends_of v) l));
    cleans_first = λ c v f t es w p l. cleans_first_lem c v f t es (B.to_list v.history) refl w p l;
    cleans_later = cleans_later_lem;
  }
