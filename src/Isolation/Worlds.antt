-- ===== src/Isolation/Worlds.antt =====
-- Transactions of jmvcc/transaction.cc and jmvcc/transaction_impl.h, on the map, the objects and the
-- critical sections together.
use libjmvcc.Base.{
  ℕ, ◌+◌, ◌^◌, ◌<◌, ◌≡◌, refl, ap, ◌∙◌, sym, subst, Bool, true, false, Option, none, [], contains,
  ok, ◌⊎◌, inl, inr,
}
use libjmvcc.VersionedObject.{VersionedObject}
use libjmvcc.LocalValues.{LocalValues, lookup}
use libjmvcc.Versioned.{epoch_mod}
use libjmvcc.Garbage.{Sections}
use libjmvcc.Garbage.Queue.{Queue, Reach, owners}
use libjmvcc.Garbage.Represents.{Represents}
use libjmvcc.Garbage.Depth.{Entering, Leaving}
use libjmvcc.Garbage.Enter.{enter_critical-Reach}
use libjmvcc.Garbage.Departure.{leave_critical-Reach}
use libjmvcc.Garbage.Renew.{Renewed, new_critical-Reach}
use libjmvcc.Transaction.{Transaction, World, begin_local, end_local, commit, renew_critical}
use libjmvcc.Isolation.Laws.{Laws}
use libjmvcc.Isolation.Members.{Free}
use libjmvcc.Isolation.Remove.{Sound, Removed, remove_snapshot-Removed}
use libjmvcc.Isolation.Register.{Present, Joined}
use libjmvcc.Isolation.Restart.{new_snapshot-Joined}
use libjmvcc.Isolation.Finished.{Finished}
use libjmvcc.Isolation.Transactions.{commit-Finished}

-- The thread is in a section, and can be there once more.
abbrev pub IsInside : Sections → Queue → ℕ → Type 0
IsInside s q thread =
    (contains thread (owners q.sections) ≡ true) × ((s.thread thread).nesting < 2 ^ 32)

-- The sections after `renew_critical`: the thread's is renewed, or they are as they were.
abbrev pub Renewal : Bool → Sections → Sections → Queue → ℕ → Type 0
Renewal use_critical s g q thread =
    ((use_critical ≡ true) × ((r : Queue) × Reach q [] r × Represents g r × Renewed s g q r thread))
    ⊎ ((use_critical ≡ false) × (g ≡ s))

module _ (V : VersionedObject) (L : Laws V) (T : LocalValues V.Value) where
  renew-Renewal :
      (b : Bool) (s : Sections) (q : Queue) (thread : ℕ)
      → Represents s q
      → (b ≡ true → IsInside s q thread)
      → (g : Sections) × (renew_critical V T b s thread ≡ ok g) × Renewal b s g q thread
  unfolding renew_critical
  renew-Renewal true s q thread r i =
      let (m, n) = i refl in
      let (g, run, p, a, x, d) = new_critical-Reach s q thread r m n in
      (g, run, inl (refl, (p, a, x, d)))
  renew-Renewal false s q thread r i = (s, refl, inr (refl, refl))

  -- The commit of a transaction whose snapshot is registered throws nothing, in a sound state with
  -- epochs left, whose sections stand for a queue, by a thread that is in a section if the transaction
  -- renews it. It succeeds exactly if no object that the transaction wrote has a version newer than
  -- its snapshot. Then the epoch has moved on by one, and at the new epoch each object that it wrote
  -- has the value that it wrote, and every other object the value that a read at that epoch found
  -- before. Otherwise the epoch stays, and every object reads at it as before. In both cases the
  -- transaction's snapshot is at the current epoch, all other snapshots and what they read are as they
  -- were, and the state is sound. The sections are as they were if the transaction does not renew its
  -- section. If it does, they stand for a queue that steps of the threads lead to, in which the
  -- thread's section is behind the others if the thread was in it once, and which is the same if it
  -- was there more than once; every thread is as deep in its section as before.
  pub commit-Renewal :
      (w : World V T) (t : Transaction V T) (thread : ℕ) (q : Queue)
      → Sound V L w.registry
      → Represents w.sections q
      → Present V L w.registry t.snapshot
      → w.registry.current_epoch + 1 < epoch_mod
      → (t.use_critical ≡ true → IsInside w.sections q thread)
      → (b : Bool) × (u : World V T) × (t' : Transaction V T) × (commit V T w t thread
          ≡ ok (b, u, t'))
        × Finished V L T w.registry u.registry t.snapshot t.local_values b
        × Renewal t.use_critical w.sections u.sections q thread
  commit-Renewal w t thread q sound stands present fits inside =
      let (g, renewed, on) = renew-Renewal t.use_critical w.sections q thread stands inside in
      let (b, u, t', run, same, f) =
        commit-Finished V L T w t thread g sound present fits renewed in
      (b, u, t', run, f, subst (λ g. Renewal t.use_critical w.sections g q thread) (sym same) on)

  -- A new local transaction, on a snapshot that no entry holds, begins without an exception in a sound
  -- state whose sections stand for a queue, if the thread is not 2 ^ 32 - 1 deep in its section: its
  -- snapshot is at the current epoch, it has no local value, all other snapshots and what they read
  -- are as they were, and the state is sound. The sections stand for a queue that steps lead to: the
  -- same if the thread was in a section, and otherwise the one with a section of the thread behind
  -- the others. The thread is one deeper in its section, and no other thread is.
  pub begin_local-Entering :
      (w : World V T) (current_trans : Option (Transaction V T)) (p thread : ℕ) (q : Queue)
      → Sound V L w.registry
      → Represents w.sections q
      → Free p w.registry.entries
      → (w.sections.thread thread).nesting + 1 < 2 ^ 32
      → (u : World V T) × (t : Transaction V T) × (begin_local V T w current_trans p thread
          ≡ ok (u, t, current_trans))
        × (t.snapshot ≡ p)
        × ((obj : ℕ) → T.find t.local_values obj ≡ none)
        × Joined V L w.registry u.registry p
        × ((r : Queue) × Reach q [] r
            × Represents u.sections r
            × Entering w.sections u.sections q r thread)
  unfolding begin_local
  begin_local-Entering w current_trans p thread q sound stands free n =
      let (g, run, r, a, x, n) = enter_critical-Reach w.sections q thread stands n in
      let (s, run2, j) = new_snapshot-Joined V L w.registry p sound free in
      (
        record { registry = s; sections = g },
        record { snapshot = p; local_values = T.empty; use_critical = true },
        rw run (rw run2 refl),
        refl,
        λ obj. T.find-to_list T.empty obj ∙ ap (lookup obj) T.to_list-empty,
        j,
        (r, a, x, n),
      )

  -- A local transaction whose snapshot is registered ends without an exception, by a thread that is in
  -- a section, in a sound state whose sections stand for a queue: no entry holds its snapshot, the
  -- others and what they read are as they were, and the state is sound. The thread is one less deep in
  -- its section, and no other thread is. The sections stand for a queue that steps lead to: the same
  -- if the thread was there more than once, and otherwise one with the sections of the other threads,
  -- in their order, in which the thread's own list is handed over.
  pub end_local-Leaving :
      (w : World V T) (t : Transaction V T) (old_trans : Option (Transaction V T)) (thread : ℕ)
      (q : Queue)
      → Sound V L w.registry
      → Represents w.sections q
      → Present V L w.registry t.snapshot
      → contains thread (owners q.sections) ≡ true
      → (u : World V T) × (end_local V T w t old_trans thread ≡ ok (u, old_trans))
        × Removed V L w.registry u.registry t.snapshot
        × ((r : Queue) × Reach q [] r
            × Represents u.sections r
            × Leaving w.sections u.sections q r thread)
  unfolding end_local
  end_local-Leaving w t old_trans thread q sound stands present m =
      let (s, run, r) = remove_snapshot-Removed V L w.registry t.snapshot sound present in
      let (g, run2, p, a, x, d) = leave_critical-Reach w.sections q thread stands m in
      (record { registry = s; sections = g }, rw run (rw run2 refl), r, (p, a, x, d))
