-- ===== src/Versioned/Undo.antt =====
-- `setup` and `rollback` of jmvcc/versioned.h as `Sandbox::commit` relies on them.
use libjmvcc.Base.{
  ℕ, ◌≡◌, ◌+◌, ◌%◌, refl, ap, ◌∙◌, sym, Bool, true, false, ok, throw, Result, ◌==◌, ltb,
  if◌then◌else◌, Bool-cases, inl, inr, Error,
}
use libjmvcc.CircularBuffer.{CircularBuffer}
use libjmvcc.Timeline.{Entry}
use libjmvcc.Versioned.{Versioned, setup, rollback, epoch_mod, valid_from}
use libjmvcc.Versioned.Object.{versioned_object}
use libjmvcc.Versioned.Updates.{pushed, rollback-pushed}
use libjmvcc.Sandbox.Atomic.{Undoable}

module _ {T : Type 0} (B : CircularBuffer (Entry T)) where
  -- What `setup` returns, if it returns at all.
  abbrev pub returned : Bool → Bool → Versioned B → Versioned B → Result (Bool × Versioned B)
  returned true late v w = if late then ok (false, v) else ok (true, w)
  returned false late v w = throw Error.epochs_out_of_order

  pub setup-returned :
      (current old new : ℕ) (v : Versioned B) (val : T)
      → setup B current v old new val
        ≡ returned
            (new == (current + 1) % epoch_mod)
            (ltb old (valid_from (B.to_list v.history)))
            v
            (pushed B v new val)
  unfolding setup pushed valid_from
  setup-returned current old new v val = elim (Bool-cases (new == (current + 1) % epoch_mod)) [
    | inl h ↦ rw h
    | inr h ↦ rw h
  ]

  pub returned-refused :
      (a b : Bool) (v w x : Versioned B) → returned a b v w ≡ ok (false, x) → x ≡ v
  returned-refused true true v w x e = cc
  returned-refused true false v w x e = cc
  returned-refused false b v w x e = cc

  pub returned-accepted :
      (a b : Bool) (v w x : Versioned B) → returned a b v w ≡ ok (true, x) → x ≡ w
  returned-accepted true true v w x e = cc
  returned-accepted true false v w x e = cc
  returned-accepted false b v w x e = cc

  unfoldable pub versioned_undoable : Undoable (versioned_object B)
  versioned_undoable = record {
    Same = λ x y. (x.current ≡ y.current) × (B.to_list x.history ≡ B.to_list y.history);
    same_refl = λ x. (refl, refl);
    refused = λ current o o' old new v e.
        returned-refused _ _ o _ o' (sym (setup-returned current old new o v) ∙ e);
    undo = λ current o o' old new v e.
        let same = returned-accepted _ _ o _ o' (sym (setup-returned current old new o v) ∙ e) in
        let (u, run, p, q) = rollback-pushed B o new v in (u, ap (rollback B) same ∙ run, (p, q));
  }
