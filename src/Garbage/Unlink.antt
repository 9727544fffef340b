-- ===== src/Garbage/Unlink.antt =====
-- `remove` of jmvcc/garbage.cc, on the linked list of the sections.
use libjmvcc.Base.{
  contains-append_neither, contains-neither, ℕ, ◌≡◌, ◌≢◌, refl, ap, ◌∙◌, sym, subst, true, false,
  List, [], ◌∷◌, ◌++◌, arith, Option, none, some, contains, contains-there, contains-ne,
  update-other, Once, Once-append, ◌==◌, ==-self, ne→==, ok,
}
use libjmvcc.Garbage.{
  Sections, CriticalInfo, set_info, take_cleanups_from, unlink_prev, unlink_next, remove,
}
use libjmvcc.Garbage.Queue.{Open, owners}
use libjmvcc.Garbage.Chain.{
  names, open_info, head_or, last_or, Linked, Linked-split, Linked-join, Linked-agree, head-ne,
  owners-append, names-take_cleanups_from, some_inj,
}

abbrev pub closed : List ℕ → CriticalInfo
closed cs = record { live = false; prev = none; next = none; cleanups = cs }

-- The cleanups that a section keeps when it is removed with `pr` before it.
abbrev pub kept : Option ℕ → List ℕ → List ℕ
kept none cs = cs
kept (some p) cs = []

-- The newest section once one is removed that stands between `pr` and `nx`.
abbrev pub newest_after : Option ℕ → Option ℕ → Option ℕ → Option ℕ
newest_after pr none newest = pr
newest_after pr (some n) newest = newest

-- What `remove` leaves of section `t`, which stands between `pr` and `nx` with the cleanups `cs`.
abbrev Before : Sections → Sections → Option ℕ → Option ℕ → List ℕ → Type 0
Before s u none nx cs = Unit
Before s u (some p) nx cs =
    u.info p ≡ record (s.info p) { next = nx; cleanups = take_cleanups_from (s.info p).cleanups cs }

abbrev with_prev : Option ℕ → CriticalInfo → CriticalInfo
with_prev pr i = record i { prev = pr }

abbrev with_next : Option ℕ → List ℕ → CriticalInfo → CriticalInfo
with_next nx cs i = record i { next = nx; cleanups = take_cleanups_from i.cleanups cs }

abbrev Behind : Sections → Sections → Option ℕ → Option ℕ → Type 0
Behind s u pr none = Unit
Behind s u pr (some n) = u.info n ≡ record (s.info n) { prev = pr }

record Unlinked (s u : Sections) (t : ℕ) (pr nx : Option ℕ) (cs : List ℕ) : Type 0 where
  gone : u.info t ≡ closed (kept pr cs)
  before : Before s u pr nx cs
  behind : Behind s u pr nx
  others : (q : ℕ) → q ≢ t → pr ≢ some q → nx ≢ some q → u.info q ≡ s.info q

-- The state that `remove` computes.
abbrev after_remove : Sections → ℕ → Option ℕ → Option ℕ → List ℕ → Sections
after_remove s t none none cs = set_info (record s { newest_ci = none }) t (closed cs)
after_remove s t none (some n) cs =
    set_info (set_info s n (record (s.info n) { prev = none })) t (closed cs)
after_remove s t (some p) none cs =
    let i = record (s.info p) {
      next = none;
      cleanups = take_cleanups_from (s.info p).cleanups cs;
    } in
    set_info
      (record (set_info (set_info s p i) t (record (s.info t) { cleanups = [] })) {
        newest_ci = some p;
      })
      t (closed [])
after_remove s t (some p) (some n) cs =
    let i = record (s.info p) {
      next = some n;
      cleanups = take_cleanups_from (s.info p).cleanups cs;
    } in
    let s' = set_info (set_info s p i) t (record (s.info t) { cleanups = [] }) in
    set_info (set_info s' n (record (s.info n) { prev = some p })) t (closed [])

-- The fields of section `t` as it stands between `pr` and `nx`.
record Between (s : Sections) (t : ℕ) (pr nx : Option ℕ) (cs : List ℕ) : Type 0 where
  live : (s.info t).live ≡ true
  prev : (s.info t).prev ≡ pr
  next : (s.info t).next ≡ nx
  holds : (s.info t).cleanups ≡ cs
  not_prev : pr ≢ some t
  not_next : nx ≢ some t
  apart : (p : ℕ) → pr ≡ some p → nx ≢ some p

remove-after :
    (s : Sections) (t : ℕ) (pr nx : Option ℕ) (cs : List ℕ)
    → Between s t pr nx cs
    → remove s t ≡ ok (after_remove s t pr nx cs)
unfolding remove unlink_prev unlink_next
remove-after s t none none cs b = simp (b.live, b.prev, b.next, b.holds)
remove-after s t none (some n) cs b =
    let nt : (n == t) ≡ false = ne→== n t (λ e. b.not_next (ap some e)) in
    simp (b.live, b.prev, b.next, b.holds, nt)
remove-after s t (some p) none cs b =
    let pt : (p == t) ≡ false = ne→== p t (λ e. b.not_prev (ap some e)) in
    simp (b.live, b.prev, b.next, b.holds, pt, ==-self t)
remove-after s t (some p) (some n) cs b =
    let pt : (p == t) ≡ false = ne→== p t (λ e. b.not_prev (ap some e)) in
    let nt : (n == t) ≡ false = ne→== n t (λ e. b.not_next (ap some e)) in
    let pn : (p == n) ≡ false = ne→== p n (λ e. b.apart p refl (ap some (sym e))) in
    let tn : (t == n) ≡ false = ne→== t n (λ e. b.not_next (ap some (sym e))) in
    simp (b.live, b.prev, b.next, b.holds, pt, nt, pn, tn, ==-self t)

remove-Unlinked :
    (s : Sections) (t : ℕ) (pr nx : Option ℕ) (cs : List ℕ)
    → Between s t pr nx cs
    → Unlinked s (after_remove s t pr nx cs) t pr nx cs
remove-Unlinked s t none none cs b = record {
  gone = simp (==-self t);
  before = tt;
  behind = tt;
  others = λ q d h k. update-other s.info t q _ d;
}
remove-Unlinked s t none (some n) cs b =
    let tn : (t == n) ≡ false = ne→== t n (λ e. b.not_next (ap some (sym e))) in
    record {
      gone = simp (==-self t);
      before = tt;
      behind = simp (==-self n, tn);
      others = λ q d h k. simp (ne→== t q (λ e. d (sym e)), ne→== n q (λ e. k (ap some e)));
    }
remove-Unlinked s t (some p) none cs b =
    let tp : (t == p) ≡ false = ne→== t p (λ e. b.not_prev (ap some (sym e))) in
    record {
      gone = simp (==-self t);
      before = simp (==-self p, tp);
      behind = tt;
      others = λ q d h k. simp (ne→== t q (λ e. d (sym e)), ne→== p q (λ e. h (ap some e)));
    }
remove-Unlinked s t (some p) (some n) cs b =
    let tp : (t == p) ≡ false = ne→== t p (λ e. b.not_prev (ap some (sym e))) in
    let tn : (t == n) ≡ false = ne→== t n (λ e. b.not_next (ap some (sym e))) in
    let np : (n == p) ≡ false = ne→== n p (λ e. b.apart p refl (ap some e)) in
    record {
      gone = simp (==-self t);
      before = simp (==-self p, tp, np);
      behind = simp (==-self n, tn);
      others = λ q d h k. simp (
        ne→== t q (λ e. d (sym e)),
        ne→== p q (λ e. h (ap some e)),
        ne→== n q (λ e. k (ap some e)),
      );
    }

-- The sections behind the one that is removed.
relink :
    (s u : Sections) (t : ℕ) (pr : Option ℕ) (cs : List ℕ) (from : ℕ) (a : List Open)
    → Unlinked s u t pr (head_or none a) cs
    → Once (owners a)
    → contains t (owners a) ≡ false
    → ((q : ℕ) → contains q (owners a) ≡ true → pr ≢ some q)
    → Linked (some from) a none s.info
    → Linked pr a none u.info
relink s u t pr cs from [] un o m f l = tt
relink s u t pr cs from (n ∷ a) un o m f l = (
  un.behind ∙ ap (with_prev pr) l.0,
  Linked-agree (some n.owner) none s.info u.info a
      (λ q w.
        un.others q
          (λ e. contains-ne q t (n.owner ∷ owners a) (contains-there q n.owner (owners a) w) m e)
          (f q (contains-there q n.owner (owners a) w))
          (λ e. contains-ne q n.owner (owners a) w o.0 (ground (arith, e))))
      l.1,
)

-- The state once the section `x` is removed, with `pr` before it and `a` behind.
abbrev pub closing : Sections → Option ℕ → Open → List Open → Sections
closing s pr x a = after_remove s x.owner pr (head_or none a) (names x.cleanups)

pub remove_oldest :
    (s : Sections) (x : Open) (a : List Open)
    → Linked none (x ∷ a) none s.info
    → Once (owners (x ∷ a))
    → (remove s x.owner ≡ ok (closing s none x a))
      × Linked none a none (closing s none x a).info
      × ((closing s none x a).info x.owner ≡ closed (names x.cleanups))
      × ((q : ℕ) → contains q (owners (x ∷ a)) ≡ false → (closing s none x a).info q ≡ s.info q)
remove_oldest s x a l o =
    let between : Between s x.owner none (head_or none a) (names x.cleanups) = record {
      live = ap (λ i. i.live) l.0;
      prev = ap (λ i. i.prev) l.0;
      next = ap (λ i. i.next) l.0;
      holds = ap (λ i. i.cleanups) l.0;
      not_prev = λ e. cc;
      not_next = head-ne x.owner a o.0;
      apart = λ p e. cc;
    } in
    let un = remove-Unlinked s x.owner none (head_or none a) (names x.cleanups) between in
    (
      remove-after s x.owner none (head_or none a) (names x.cleanups) between,
      relink s (closing s none x a) x.owner none (names x.cleanups) x.owner a un o.1 o.0
          (λ q m e. cc) l.1,
      un.gone,
      λ q m.
          let (ne, n) = contains-neither q x.owner (owners a) m in
          un.others q ne (λ e. cc) (head-ne q a n),
    )

-- The sections `b ++ p ∷ x ∷ a`, once `x` is removed.
abbrev pub merged : Open → Open → Open
merged p x = record p { cleanups = take_cleanups_from p.cleanups x.cleanups }

pub remove_later :
    (s : Sections) (b : List Open) (p x : Open) (a : List Open)
    → Linked none (b ++ p ∷ x ∷ a) none s.info
    → Once (owners (b ++ p ∷ x ∷ a))
    → let u = closing s (some p.owner) x a in
      (remove s x.owner ≡ ok u)
      × Linked none (b ++ merged p x ∷ a) none u.info
      × (u.info x.owner ≡ closed [])
      × ((q : ℕ) → contains q (owners (b ++ p ∷ x ∷ a)) ≡ false → u.info q ≡ s.info q)
remove_later s b p x a l o =
    let u = closing s (some p.owner) x a in
    let (lb, (lp, (lx, la))) = Linked-split none none s.info b (p ∷ x ∷ a) l in
    let (ob, op, apart) =
      Once-append (owners b) (p.owner ∷ x.owner ∷ owners a)
        (subst Once (owners-append b (p ∷ x ∷ a)) o) in
    let (px, pa) = contains-neither p.owner x.owner (owners a) op.0 in
    let between : Between s x.owner (some p.owner) (head_or none a) (names x.cleanups) = record {
      live = ap (λ i. i.live) lx;
      prev = ap (λ i. i.prev) lx;
      next = ap (λ i. i.next) lx;
      holds = ap (λ i. i.cleanups) lx;
      not_prev = λ e. px (some_inj p.owner x.owner e);
      not_next = head-ne x.owner a op.1.0;
      apart = λ k e h. head-ne p.owner a pa (h ∙ sym e);
    } in
    let un = remove-Unlinked s x.owner (some p.owner) (head_or none a) (names x.cleanups) between in
    let elsewhere : (q : ℕ)
        → contains q (p.owner ∷ x.owner ∷ owners a) ≡ false
        → u.info q ≡ s.info q =
      λ q m.
        let (qp, n) = contains-neither q p.owner (x.owner ∷ owners a) m in
        let (qx, qa) = contains-neither q x.owner (owners a) n in
        un.others q qx (λ e. qp (sym (some_inj p.owner q e))) (head-ne q a qa) in
    let agree : (q : ℕ) → contains q (owners b) ≡ true → u.info q ≡ s.info q =
      λ q m. elsewhere q (apart q m) in
    (
      remove-after s x.owner (some p.owner) (head_or none a) (names x.cleanups) between,
      Linked-join none none u.info b (merged p x ∷ a)
          (Linked-agree none (some p.owner) s.info u.info b agree lb)
          (
            un.before
                ∙ ap (with_next (head_or none a) (names x.cleanups)) lp
                ∙ ap (open_info (last_or none b) (head_or none a))
                    (sym (names-take_cleanups_from p.cleanups x.cleanups)),
            relink s u x.owner (some p.owner) (names x.cleanups) x.owner a un op.1.1 op.1.0
                (λ q m e. contains-ne q p.owner (owners a) m pa (sym (some_inj p.owner q e))) la,
          ),
      un.gone,
      λ q m.
          elsewhere q
            (contains-append_neither q (owners b) (p.owner ∷ x.owner ∷ owners a)
              (subst (λ ks. contains q ks ≡ false) (owners-append b (p ∷ x ∷ a)) m)).1,
    )
