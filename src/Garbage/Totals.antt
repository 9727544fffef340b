-- ===== src/Garbage/Totals.antt =====
-- How many cleanups the queue of the critical sections of jmvcc/garbage.cc holds.
use libjmvcc.Base.{
  ℕ, ◌+◌, ◌≡◌, refl, ap, ap₂, ◌∙◌, sym, true, false, List, [], ◌∷◌, ◌++◌, arith, contains,
  contains-neither, Once, ◌==◌, ne→==, update, update-same, update-other, inl, inr, total,
  Bool-cases, ==→eq, ==→ne,
}
use libjmvcc.Garbage.Queue.{Scheduled, Open, Queue, owners, released, release_all}

-- No thread is in two sections, and one in none has nothing to hand over.
pub record Tidy (q : Queue) : Type 0 where
  pub once : Once (owners q.sections)
  pub own : (t : ℕ) → contains t (owners q.sections) ≡ false → q.own t ≡ []

abbrev pub weigh : (ℕ → ℕ) → Scheduled → ℕ
weigh w c = w c.cleanup

-- The cleanups on the lists of the sections.
abbrev pub held_total : (ℕ → ℕ) → List Open → ℕ
held_total w [] = 0
held_total w (x ∷ l) = total (weigh w) x.cleanups + held_total w l

-- Those that the threads `ks` have not handed over.
abbrev pub own_total : (ℕ → ℕ) → (ℕ → List Scheduled) → List ℕ → ℕ
own_total w own [] = 0
own_total w own (k ∷ ks) = total (weigh w) (own k) + own_total w own ks

-- All that were ever scheduled, and so have run or wait.
abbrev pub measure : (ℕ → ℕ) → Queue → ℕ
measure w q =
    total (weigh w) q.ran + held_total w q.sections + own_total w q.own (owners q.sections)

module _ (w : ℕ → ℕ) where
  pub total-released :
      (k : ℕ) (cs : List Scheduled) → total (weigh w) (released k cs) ≡ total (weigh w) cs
  total-released k [] = refl
  total-released k (c ∷ cs) = ap (λ n. w c.cleanup + n) (total-released k cs)

  pub held_total-append :
      (b c : List Open) → held_total w (b ++ c) ≡ held_total w b + held_total w c
  held_total-append [] c = omega arith
  held_total-append (x ∷ b) c = omega (arith, held_total-append b c)

  pub held_total-release_all :
      (k : ℕ) (l : List Open) → held_total w (release_all k l) ≡ held_total w l
  held_total-release_all k [] = refl
  held_total-release_all k (x ∷ l) =
      ap₂ (λ m n. m + n) (total-released k x.cleanups) (held_total-release_all k l)

  pub own_total-append :
      (own : ℕ → List Scheduled) (ks ls : List ℕ)
      → own_total w own (ks ++ ls) ≡ own_total w own ks + own_total w own ls
  own_total-append own [] ls = omega arith
  own_total-append own (k ∷ ks) ls = omega (arith, own_total-append own ks ls)

  pub own_total-released :
      (k : ℕ) (own : ℕ → List Scheduled) (ks : List ℕ)
      → own_total w (λ t. released k (own t)) ks ≡ own_total w own ks
  own_total-released k own [] = refl
  own_total-released k own (t ∷ ks) =
      ap₂ (λ m n. m + n) (total-released k (own t)) (own_total-released k own ks)

  pub own_total-other :
      (own : ℕ → List Scheduled) (t : ℕ) (cs : List Scheduled) (ks : List ℕ)
      → contains t ks ≡ false
      → own_total w (update own t cs) ks ≡ own_total w own ks
  own_total-other own t cs [] m = refl
  own_total-other own t cs (k ∷ ks) m =
      let (d, n) = contains-neither t k ks m in
      ap₂ (λ m n. m + n) (ap (total (weigh w)) (update-other own t k cs (λ e. d (sym e))))
        (own_total-other own t cs ks n)

  pub own_total-update :
      (own : ℕ → List Scheduled) (t : ℕ) (cs : List Scheduled) (ks : List ℕ)
      → Once ks
      → contains t ks ≡ true
      → own_total w (update own t cs) ks + total (weigh w) (own t)
        ≡ own_total w own ks + total (weigh w) cs
  own_total-update own t cs [] o m = absurd (ground (arith, m))
  own_total-update own t cs (k ∷ ks) o m = elim (Bool-cases (t == k)) [
    | inl h ↦
        let e = ==→eq t k h in
        let away : contains t ks ≡ false = ap (λ t. contains t ks) e ∙ o.0 in
        let here : total (weigh w) (update own t cs k) ≡ total (weigh w) cs =
          ap (λ k. total (weigh w) (update own t cs k)) (sym e)
          ∙ ap (total (weigh w)) (update-same own t cs) in
        let was : total (weigh w) (own t) ≡ total (weigh w) (own k) =
          ap (λ t. total (weigh w) (own t)) e in
        omega (arith, here, was, own_total-other own t cs ks away)
    | inr h ↦
        let d = ==→ne t k h in
        let there : contains t ks ≡ true = ground (arith, m, ne→== k t (λ e. d (sym e))) in
        let same : total (weigh w) (update own t cs k) ≡ total (weigh w) (own k) =
          ap (total (weigh w)) (update-other own t k cs (λ e. d (sym e))) in
        omega (arith, same, own_total-update own t cs ks o.1 there)
  ]
