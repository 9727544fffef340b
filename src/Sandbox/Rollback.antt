-- ===== src/Sandbox/Rollback.antt =====
-- The branch of `commit` in jmvcc/sandbox.cc on which an object has refused.
use libjmvcc.Base.{
  Once, contains, contains-cases, contains-here, contains-ne, contains-neither, contains-there,
  update, update-other, update-same, ℕ, ◌≡◌, refl, ap, ◌∙◌, sym, subst, true, false, List, [], ◌∷◌,
  arith, ok, ◌>>=◌, inl, inr,
}
use libjmvcc.VersionedObject.{VersionedObject}
use libjmvcc.LocalValues.{LocalValues}
use libjmvcc.Sandbox.{rollback_loop}

module _ (V : VersionedObject) (L : LocalValues V.Value) where
  open V use {Object}

  -- The loop over `rollback`, if each object that is set up can be rolled back: it rolls back each
  -- of them once, and no other object.
  pub rollback_loop-each :
      (g : ℕ → Object) (done : List ℕ)
      → Once done
      → ((q : ℕ) → contains q done ≡ true → (u : Object) × (V.rollback (g q) ≡ ok u))
      → (h : ℕ → Object) × (rollback_loop V L g done ≡ ok h)
        × ((q : ℕ) → contains q done ≡ true → V.rollback (g q) ≡ ok (h q))
        × ((q : ℕ) → contains q done ≡ false → h q ≡ g q)
  unfolding rollback_loop
  rollback_loop-each g [] o each = (g, refl, λ q m. absurd (ground (arith, m)), λ q m. refl)
  rollback_loop-each g (k ∷ ks) o each =
      let (u, ru) = each k (contains-here k ks) in
      let g' = update g k u in
      let away : (q : ℕ) → contains q ks ≡ true → g' q ≡ g q =
        λ q m. update-other g k q u (contains-ne q k ks m o.0) in
      let (h, run, ins, outs) = rollback_loop-each g' ks o.1 (λ q m.
        subst (λ x. (u : Object) × (V.rollback x ≡ ok u)) (sym (away q m))
          (each q (contains-there q k ks m))) in
      (
        h,
        ap (λ r. r >>= λ x. rollback_loop V L (update g k x) ks) ru ∙ run,
        λ q m. elim (contains-cases q k ks m) [
          | inl e ↦
              ap (λ x. V.rollback (g x)) e
              ∙ ru
              ∙ ap ok (sym (ap h e ∙ outs k o.0 ∙ update-same g k u))
          | inr n ↦ ap V.rollback (sym (away q n)) ∙ ins q n
        ],
        λ q m. let (ne, n) = contains-neither q k ks m in outs q n ∙ update-other g k q u ne,
      )
