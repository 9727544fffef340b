-- ===== src/Garbage/Newest.antt =====
-- The newest section of jmvcc/garbage.cc with other cleanups.
use libjmvcc.Base.{
  ℕ, suc, ◌≡◌, ◌≢◌, refl, ap, ◌∙◌, sym, subst, false, List, [], ◌∷◌, ◌++◌, none, some, contains,
  Once, Once-append, update, update-same, update-other, length, contains-append_neither,
  contains-neither,
}
use libjmvcc.Garbage.{Sections, CriticalInfo, local_cleanups}
use libjmvcc.Garbage.Queue.{Scheduled, Open, Queue, owners}
use libjmvcc.Garbage.Chain.{
  names, last_or, Linked, Linked-split, Linked-join, Linked-agree, owners-append, last_or-append,
}
use libjmvcc.Garbage.Safety.{owners-newest}
use libjmvcc.Garbage.Around.{Moved, Around}

abbrev with_cleanups : List ℕ → CriticalInfo → CriticalInfo
with_cleanups cs i = record i { cleanups = cs }

-- The newest section gets another list of cleanups.
pub Linked-newest :
    (f : ℕ → CriticalInfo) (b : List Open) (x : Open) (cs : List Scheduled)
    → Linked none (b ++ x ∷ []) none f
    → Once (owners (b ++ x ∷ []))
    → Linked none
        (b ++ record x { cleanups = cs } ∷ [])
        none
        (update f x.owner (record (f x.owner) { cleanups = names cs }))
Linked-newest f b x cs k o =
    let (lb, (lx, _)) = Linked-split none none f b (x ∷ []) k in
    let (_, _, apart) =
      Once-append (owners b) (x.owner ∷ []) (subst Once (owners-append b (x ∷ [])) o) in
    let g = update f x.owner (record (f x.owner) { cleanups = names cs }) in
    Linked-join none none g b (record x { cleanups = cs } ∷ [])
      (Linked-agree none (some x.owner) f g b
        (λ q m. update-other f x.owner q _ (contains-neither q x.owner [] (apart q m)).0) lb)
      (update-same f x.owner _ ∙ ap (with_cleanups (names cs)) lx, tt)

pub length-owners : (l : List Open) → length (owners l) ≡ length l
length-owners [] = refl
length-owners (x ∷ l) = ap suc (length-owners l)

-- The newest section gets other cleanups: what else the state must do to stand for the new queue.
pub Moved-newest :
    (s u : Sections) (q p : Queue) (t : ℕ) (b : List Open) (x : Open) (cs : List Scheduled)
    → Around s q t
    → q.sections ≡ b ++ x ∷ []
    → p.sections ≡ b ++ record x { cleanups = cs } ∷ []
    → u.newest_ci ≡ s.newest_ci
    → u.num_in_critical ≡ s.num_in_critical
    → u.info ≡ update s.info x.owner (record (s.info x.owner) { cleanups = names cs })
    → ((k : ℕ) → k ≢ t → u.thread k ≡ s.thread k)
    → ((k : ℕ) → k ≢ t → names (p.own k) ≡ names (q.own k))
    → local_cleanups (u.thread t).cleanups ≡ names (p.own t)
    → u.ran ≡ names p.ran
    → Moved s u q p t
Moved-newest s u q p t b x cs r e f n c i th ow mi ra =
    let same : owners p.sections ≡ owners q.sections =
      ap owners f ∙ owners-newest b x cs ∙ sym (ap owners e) in
    record {
      chain =
          subst (λ l. Linked none l none u.info) (sym f)
            (subst (λ g. Linked none (b ++ record x { cleanups = cs } ∷ []) none g) (sym i)
              (Linked-newest s.info b x cs (subst (λ l. Linked none l none s.info) e r.chain)
                (subst (λ l. Once (owners l)) e r.once)));
      newest =
          n
          ∙ r.newest
          ∙ ap (last_or none) e
          ∙ last_or-append none b (x ∷ [])
          ∙ sym (last_or-append none b (record x { cleanups = cs } ∷ []))
          ∙ sym (ap (last_or none) f);
      once = subst Once (sym same) r.once;
      count =
          c
          ∙ r.count
          ∙ sym (length-owners q.sections)
          ∙ sym (ap length same)
          ∙ length-owners p.sections;
      threads = th;
      infos = λ k d m.
          ap (λ g. g k) i
          ∙ update-other s.info x.owner k _
              (contains-neither k x.owner []
                (contains-append_neither k (owners b) (x.owner ∷ []) (
                  subst (λ ks. contains k ks ≡ false) (ap owners e ∙ owners-append b (x ∷ []))
                    m)).1).0;
      members = λ k d. ap (contains k) same;
      own = ow;
      mine = mi;
      ran = ra;
    }

-- The cleanups of the newest section.
pub Linked-newest_cleanups :
    (f : ℕ → CriticalInfo) (l b : List Open) (x : Open)
    → Linked none l none f
    → l ≡ b ++ x ∷ []
    → (f x.owner).cleanups ≡ names x.cleanups
Linked-newest_cleanups f l b x k e =
    let (_, (lx, _)) =
      Linked-split none none f b (x ∷ []) (subst (λ l. Linked none l none f) e k) in
    ap (λ i. i.cleanups) lx
