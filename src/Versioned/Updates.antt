-- ===== src/Versioned/Updates.antt =====
-- `setup`, `rollback` and `fake_commit` of jmvcc/versioned.h.
use libjmvcc.Base.{
  get_last-index, ℕ, suc, ◌+◌, ◌-◌, ◌%◌, ◌≤◌, ◌<◌, ◌≡◌, refl, ap, ◌∙◌, sym, Bool, true, false, some,
  List, [], ◌∷◌, ◌++◌, arith, leb, ltb, ltb→lt, ◌↔◌, subst, lt→ltb, le→ltb, if◌then◌else◌, length,
  length-append, get_elem?, get_last?, get_last?-append, init, init-append, Bool-cases, inl, inr,
  ==-self, ok, Result,
}
use libjmvcc.CircularBuffer.{CircularBuffer}
use libjmvcc.Timeline.{
  newest_from-le, Entry, seen_push, read_at, versions, newest_from, Increasing, UpTo, IsVersion,
  Increasing-push, UpTo-push, UpTo-mono,
}
use libjmvcc.Versioned.{
  Versioned, epoch_mod, valid_from, valid_to_or, value_at_epoch, setup, rollback, fake_commit,
}
use libjmvcc.Versioned.Reads.{value_at_epoch-eq-read_at, valid_from-eq-newest_from}

module _ {T : Type 0} (B : CircularBuffer (Entry T)) where
  -- The epochs of the history increase strictly from above 1, and are at most `bound`.
  pub record IsValid (bound : ℕ) (v : Versioned B) : Type 0 where
    pub increasing : Increasing 1 (B.to_list v.history)
    pub up_to : UpTo bound (B.to_list v.history)

  -- What a successful `setup` leaves.
  unfoldable pub pushed : Versioned B → ℕ → T → Versioned B
  pushed v new val = record v {
    history = B.push_back v.history (record { valid_to = new; value = v.current });
    current = val;
  }

  pub pushed_list :
      (v : Versioned B) (new : ℕ) (val : T)
      → B.to_list (pushed v new val).history
        ≡ B.to_list v.history ++ record { valid_to = new; value = v.current } ∷ []
  unfolding pushed
  pushed_list v new val =
      B.to_list-push_back v.history (record { valid_to = new; value = v.current })

  -- `setup` refuses exactly the transactions that began before the newest version.
  pub setup_cases :
      (current_epoch old : ℕ) (v : Versioned B) (val : T)
      → let new = (current_epoch + 1) % epoch_mod in
        setup B current_epoch v old new val ≡ (
          if ltb old (valid_from (B.to_list v.history))
          then ok (false, v)
          else ok (true, pushed v new val))
  unfolding setup pushed valid_from
  setup_cases current_epoch old v val = rw (==-self ((current_epoch + 1) % epoch_mod))

  pub pushed-reads :
      (v : Versioned B) (new epoch : ℕ) (val : T)
      → 1 ≤ epoch
      → value_at_epoch B (pushed v new val) epoch
        ≡ (if leb new epoch then some val else value_at_epoch B v epoch)
  unfolding pushed
  pushed-reads v new epoch val q =
      rw
        (
          value_at_epoch-eq-read_at B (pushed v new val) epoch q,
          value_at_epoch-eq-read_at B v epoch q,
          B.to_list-push_back v.history (record { valid_to = new; value = v.current }),
        )
        (read_push (B.to_list v.history) v.current)
    where
      read_push :
          (h : List (Entry T)) (c : T)
          → read_at epoch (versions 1 (h ++ record { valid_to = new; value = c } ∷ []) val)
            ≡ (if leb new epoch then some val else read_at epoch (versions 1 h c))
      read_push [] c = ground arith
      read_push (e ∷ es) c = ground (arith, seen_push epoch e.valid_to new e.value c val es)

  pub pushed-IsValid :
      (v : Versioned B) (bound : ℕ) (val : T)
      → IsValid bound v
      → 1 ≤ bound
      → newest_from 1 (B.to_list v.history) < bound + 1
      → IsValid (bound + 1) (pushed v (bound + 1) val)
  unfolding pushed
  pushed-IsValid v bound val w b q = record {
    increasing =
        rw (B.to_list-push_back v.history (record { valid_to = bound + 1; value = v.current }))
          (Increasing-push 1 (bound + 1) v.current (B.to_list v.history) w.increasing q);
    up_to =
        rw (B.to_list-push_back v.history (record { valid_to = bound + 1; value = v.current })) (
          UpTo-push (bound + 1) (bound + 1) v.current (B.to_list v.history)
            (UpTo-mono bound (bound + 1) (B.to_list v.history) (omega arith) w.up_to)
            (omega arith));
  }

  rollback_last :
      (v : Versioned B) (e : Entry T)
      → get_last? (B.to_list v.history) ≡ some e
      → rollback B v ≡ ok (record v { current = e.value; history = B.pop_back v.history })
  unfolding rollback
  rollback_last v e q = rw (q, rollback)

  -- `rollback` undoes `setup`.
  pub rollback-pushed :
      (v : Versioned B) (new : ℕ) (val : T)
      → (w : Versioned B) × (rollback B (pushed v new val) ≡ ok w)
        × (w.current ≡ v.current)
        × (B.to_list w.history ≡ B.to_list v.history)
  unfolding pushed
  rollback-pushed v new val =
      let e : Entry T = record { valid_to = new; value = v.current } in
      let push = B.to_list-push_back v.history e in
      (
        record v { history = B.pop_back (B.push_back v.history e) },
        rollback_last (pushed v new val) e
            (ap get_last? push ∙ get_last?-append (B.to_list v.history) e),
        refl,
        B.to_list-pop_back _ ∙ ap init push ∙ init-append (B.to_list v.history) e,
      )

  -- The version that `setup` superseded, by its number and its two epochs.
  IsVersion-append :
      (from new : ℕ) (c : T) (h : List (Entry T))
      → IsVersion from
          (h ++ record { valid_to = new; value = c } ∷ [])
          (length h)
          (newest_from from h)
          new
  IsVersion-append from new c [] = (refl, refl)
  IsVersion-append from new c (e ∷ es) = IsVersion-append e.valid_to new c es

  penultimate-push :
      (n : Entry T) (h : List (Entry T))
      → (if ltb 1 (length (h ++ n ∷ []))
          then valid_to_or 1 (get_elem? (h ++ n ∷ []) (length (h ++ n ∷ []) - 2))
          else 1)
        ≡ newest_from 1 h
  unfolding valid_from
  penultimate-push n [] = refl
  penultimate-push n (e ∷ es) =
      let i : suc (length (es ++ n ∷ [])) - 2 ≡ length es =
        omega (arith, length-append es (n ∷ [])) in
      let many : ltb 1 (suc (length (es ++ n ∷ []))) ≡ true =
        lt→ltb _ _ (omega (arith, length-append es (n ∷ []))) in
      rw (many, i, get_last-index e es (n ∷ [])) (valid_from-eq-newest_from (e ∷ es))

  pub fake_commit-pushed :
      (v : Versioned B) (new : ℕ) (val : T)
      → fake_commit B (pushed v new val) ≡ newest_from 1 (B.to_list v.history)
  unfolding fake_commit pushed
  fake_commit-pushed v new val =
      rw (B.to_list-push_back v.history (record { valid_to = new; value = v.current }))
        (penultimate-push (record { valid_to = new; value = v.current }) (B.to_list v.history))

  pub fake_commit-IsVersion :
      (v : Versioned B) (new : ℕ) (val : T)
      → IsVersion 1
          (B.to_list (pushed v new val).history)
          (length (B.to_list v.history))
          (fake_commit B (pushed v new val))
          new
  unfolding pushed
  fake_commit-IsVersion v new val =
      rw
        (
          fake_commit-pushed v new val,
          B.to_list-push_back v.history (record { valid_to = new; value = v.current }),
        )
        (IsVersion-append 1 new v.current (B.to_list v.history))

  pub setup_pushed :
      (current_epoch old : ℕ) (v : Versioned B) (val : T)
      → current_epoch + 1 < epoch_mod
      → newest_from 1 (B.to_list v.history) ≤ old
      → setup B current_epoch v old (current_epoch + 1) val
        ≡ ok (true, pushed v (current_epoch + 1) val)
  setup_pushed current_epoch old v val b c =
      let m : (current_epoch + 1) % epoch_mod ≡ current_epoch + 1 = omega arith in
      subst (λ n. setup B current_epoch v old n val ≡ ok (true, pushed v n val)) m
        (setup_cases current_epoch old v val
          ∙ ap
              (λ b.
                if b
                then ok (false, v)
                else ok (true, pushed v ((current_epoch + 1) % epoch_mod) val))
              (ap (ltb old) (valid_from-eq-newest_from (B.to_list v.history)) ∙ le→ltb old _ c))

  -- `setup` of a transaction that began no earlier than the newest version of a valid object
  -- succeeds, if the next epoch does not wrap round. The object stays valid, a read at the new epoch
  -- or later sees the new value, any read from epoch 1 on before it what it saw, and `rollback`
  -- restores the value and the history.
  pub setup-reads :
      (current_epoch old : ℕ) (v : Versioned B) (val : T) (epoch : ℕ)
      → IsValid current_epoch v
      → 1 ≤ current_epoch
      → current_epoch + 1 < epoch_mod
      → newest_from 1 (B.to_list v.history) ≤ old
      → 1 ≤ epoch
      → (w : Versioned B) × (setup B current_epoch v old (current_epoch + 1) val ≡ ok (true, w))
        × IsValid (current_epoch + 1) w
        × (value_at_epoch B w epoch
            ≡ (if leb (current_epoch + 1) epoch then some val else value_at_epoch B v epoch))
        × ((u : Versioned B) × (rollback B w ≡ ok u)
            × (u.current ≡ v.current)
            × (B.to_list u.history ≡ B.to_list v.history))
  setup-reads current_epoch old v val epoch valid a b c q = (
    pushed v (current_epoch + 1) val,
    setup_pushed current_epoch old v val b c,
    pushed-IsValid v current_epoch val valid a
        (omega (arith, newest_from-le 1 current_epoch (B.to_list v.history) a valid.up_to)),
    pushed-reads v (current_epoch + 1) epoch val q,
    rollback-pushed v (current_epoch + 1) val,
  )

  -- `setup` at the next epoch refuses a transaction, and changes nothing, exactly if the newest
  -- version began after the epoch of the transaction.
  pub setup_conflict :
      (current_epoch old : ℕ) (v : Versioned B) (val : T)
      → (setup B current_epoch v old ((current_epoch + 1) % epoch_mod) val ≡ ok (false, v))
        ↔ (old < newest_from 1 (B.to_list v.history))
  setup_conflict current_epoch old v val = (
    λ h.
        forward (valid_from (B.to_list v.history)) (valid_from-eq-newest_from _)
          (sym (setup_cases current_epoch old v val) ∙ h),
    λ h.
        setup_cases current_epoch old v val
        ∙ ap
            (λ b.
              if b
              then ok (false, v)
              else ok (true, pushed v ((current_epoch + 1) % epoch_mod) val))
            (ap (ltb old) (valid_from-eq-newest_from (B.to_list v.history)) ∙ lt→ltb old _ h),
  )
    where
      forward :
          (n : ℕ)
          → n ≡ newest_from 1 (B.to_list v.history)
          → ◌≡◌ {A = Result (Bool × Versioned B)}
              (if ltb old n
                then ok (false, v)
                else ok (true, pushed v ((current_epoch + 1) % epoch_mod) val))
              (ok (false, v))
          → old < newest_from 1 (B.to_list v.history)
      forward n e h = elim (Bool-cases (ltb old n)) [
        | inl q ↦ omega (arith, ltb→lt old n q)
        | inr q ↦ absurd (ground arith)
      ]
