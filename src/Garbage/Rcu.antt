-- ===== src/Garbage/Rcu.antt =====
-- The template `RCU` of jmvcc/garbage.h: a pointer that readers follow inside critical sections. A
-- pointer is a number, 0 is the null pointer, and the cleanup `p` is `Deleter` on the pointer `p`.
use libjmvcc.Base.{ℕ, ◌≡◌, ap, subst, Bool, true, false, [], ◌∷◌, ◌++◌, ◌==◌, if◌then◌else◌}
use libjmvcc.CompareExchange.{CompareExchange}
use libjmvcc.Garbage.{Sections, schedule_cleanup}
use libjmvcc.Garbage.Queue.{Queue, Step}
use libjmvcc.Garbage.Represents.{Represents}
use libjmvcc.Garbage.Schedule.{schedule_cleanup-Step}

-- `RCU`
pub record Rcu : Type 0 where
  pub pointer : ℕ

abbrev pub read : Rcu → ℕ
read r = r.pointer

-- `~RCU()`
pub destroy : Sections → ℕ → Rcu → Sections
destroy s t r = if r.pointer == 0 then s else schedule_cleanup s t r.pointer

module _ (X : CompareExchange ℕ) where
  -- The branches of `publish` on the result of the exchange.
  pub dispose : Sections → ℕ → ℕ → ℕ → Bool → Sections
  dispose s t old_data new_data true = schedule_cleanup s t old_data
  dispose s t old_data new_data false = record s { ran = s.ran ++ new_data ∷ [] }

  pub publish : Sections → ℕ → Rcu → ℕ → ℕ → Bool × Rcu × Sections
  publish s t r old_data new_data =
      let (result, pointer, _) = X.cmp_xchg r.pointer old_data new_data in
      (result, record { pointer = pointer }, dispose s t old_data new_data result)

  -- `publish` by a thread that has read the current pointer replaces it, and schedules the deletion
  -- of what the old one points to: in a state that stands for a queue, it then waits for all the
  -- sections that are open.
  pub publish-Step :
      (s : Sections) (q : Queue) (t : ℕ) (r : Rcu) (old_data new_data : ℕ)
      → Represents s q
      → read r ≡ old_data
      → (u : Sections) × (publish s t r old_data new_data
          ≡ (true, record { pointer = new_data }, u))
        × (p : Queue) × Step q (old_data ∷ []) p
        × Represents u p
  unfolding publish dispose
  publish-Step s q t r old_data new_data x e =
      let (p, step, y) = schedule_cleanup-Step s q t old_data x in
      let run : X.cmp_xchg r.pointer old_data new_data ≡ (true, new_data, old_data) =
        subst (λ o. X.cmp_xchg r.pointer o new_data ≡ (true, new_data, o)) e
          (X.as_expected r.pointer new_data) in
      (
        schedule_cleanup s t old_data,
        ap (λ x. (x.0, record { pointer = x.1 }, dispose s t old_data new_data x.0)) run,
        p,
        step,
        y,
      )
