-- ===== src/Versioned/Commit.antt =====
-- A committed write of jmvcc/versioned.h and the cleanup that it registers, and `validate`.
use libjmvcc.Base.{
  ℕ, ◌+◌, ◌%◌, ◌≤◌, ◌<◌, ◌≡◌, ◌↔◌, refl, true, List, [], ◌∷◌, arith, length, ok, ◌⊎◌,
}
use libjmvcc.CircularBuffer.{CircularBuffer}
use libjmvcc.Timeline.{Entry, newest_from, Increasing, UpTo, newest_from-le}
use libjmvcc.Versioned.{
  Versioned, epoch_mod, value_at_epoch, setup, fake_commit, cleanup, validate_from, validate,
}
use libjmvcc.Versioned.Updates.{
  IsValid, pushed, pushed-IsValid, fake_commit-pushed, fake_commit-IsVersion, setup_pushed,
}
use libjmvcc.Versioned.Cleanup.{cleanup-reads}

module _ {T : Type 0} (B : CircularBuffer (Entry T)) where
  -- The version that `commit` registers for cleanup after a successful `setup` of a valid object is
  -- the one that the new value superseded: cleaning it up succeeds, keeps the object valid, and
  -- changes no read at the new epoch or later, nor at an epoch from 1 on that is before the
  -- superseded version.
  pub cleanup-commit :
      (current_epoch old : ℕ) (v : Versioned B) (val : T) (epoch : ℕ)
      → IsValid B current_epoch v
      → 1 ≤ current_epoch
      → current_epoch + 1 < epoch_mod
      → newest_from 1 (B.to_list v.history) ≤ old
      → 1 ≤ epoch
      → (epoch < newest_from 1 (B.to_list v.history)) ⊎ (current_epoch + 1 ≤ epoch)
      → (w u : Versioned B) × (setup B current_epoch v old (current_epoch + 1) val ≡ ok (true, w))
        × (fake_commit B w ≡ newest_from 1 (B.to_list v.history))
        × (cleanup B w (fake_commit B w) ≡ ok u)
        × IsValid B (current_epoch + 1) u
        × (value_at_epoch B u epoch ≡ value_at_epoch B w epoch)
  cleanup-commit current_epoch old v val epoch valid a b c q out =
      let w = pushed B v (current_epoch + 1) val in
      let (u, run, valid', reads) =
        cleanup-reads B w (current_epoch + 1) (length (B.to_list v.history)) _ (current_epoch + 1)
          epoch
          (pushed-IsValid B v current_epoch val valid a
            (omega (arith, newest_from-le 1 current_epoch (B.to_list v.history) a valid.up_to)))
          (fake_commit-IsVersion B v (current_epoch + 1) val) q
          (rw (fake_commit-pushed B v (current_epoch + 1) val) out) in
      (
        w,
        u,
        setup_pushed B current_epoch old v val b c,
        fake_commit-pushed B v (current_epoch + 1) val,
        run,
        valid',
        reads,
      )

  validate_from_iff :
      (current_epoch e : ℕ) (h : List (Entry T))
      → (validate_from B current_epoch e h ≡ ok tt)
        ↔ (Increasing e h × UpTo ((current_epoch + 1) % epoch_mod) h)
  unfolding validate_from
  validate_from_iff current_epoch e [] = (λ _. (tt, tt), λ _. refl)
  validate_from_iff current_epoch e (x ∷ xs) =
      ground (arith, validate_from_iff current_epoch x.valid_to xs)

  -- `validate` accepts exactly the histories whose epochs increase strictly, are positive and are at
  -- most the epoch after the current one, which is taken modulo 2 ^ 32.
  pub validate_iff :
      (current_epoch : ℕ) (v : Versioned B)
      → (validate B current_epoch v ≡ ok tt) ↔ (
          Increasing 0 (B.to_list v.history)
          × UpTo ((current_epoch + 1) % epoch_mod) (B.to_list v.history))
  unfolding validate
  validate_iff current_epoch v = validate_from_iff current_epoch 0 (B.to_list v.history)
