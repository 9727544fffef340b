-- ===== src/Transaction/Access.antt =====
-- `read` and `write` of objects through a transaction.
use libjmvcc.Base.{
  ℕ, ◌≡◌, ◌≢◌, refl, ap, ◌∙◌, sym, some, Option-cases, ==-self, ne→==, if◌then◌else◌, Result, ok,
  inl, inr,
}
use libjmvcc.VersionedObject.{VersionedObject}
use libjmvcc.LocalValues.{LocalValues, overwrite}
use libjmvcc.SnapshotInfo.Registry.{State}
use libjmvcc.Sandbox.{local_value, local_value_or-absent}
use libjmvcc.Transaction.{Transaction, mutate_found, mutate, write, read_found, read_in, read}

module _ (V : VersionedObject) (L : LocalValues V.Value) where
  open V use {Object, Value}
  open L use {Table}

  module _ (value_at_epoch : Object → ℕ → Result Value) where
    read_in-local :
        (s : State Object) (t : Transaction V L) (obj : ℕ) (val : Value)
        → L.find t.local_values obj ≡ some val
        → read_in V L value_at_epoch s t obj ≡ ok val
    unfolding read_in read_found local_value
    read_in-local s t obj val p = ap (read_found V L value_at_epoch s t obj) p

    read_in-eq :
        (s : State Object) (t : Transaction V L) (l : Table) (q : ℕ)
        → L.find l q ≡ L.find t.local_values q
        → read_in V L value_at_epoch s (record t { local_values = l }) q
          ≡ read_in V L value_at_epoch s t q
    unfolding read_in read_found local_value
    read_in-eq s t l q p = elim (Option-cases (L.find t.local_values q)) [
      | inl n ↦
          ap (read_found V L value_at_epoch s (record t { local_values = l }) q) (p ∙ n)
          ∙ sym (ap (read_found V L value_at_epoch s t q) n)
      | inr (v, n) ↦
          ap (read_found V L value_at_epoch s (record t { local_values = l }) q) (p ∙ n)
          ∙ sym (ap (read_found V L value_at_epoch s t q) n)
    ]

    find-insert_other :
        (l : Table) (obj q : ℕ) (v : Value) → q ≢ obj → L.find (L.insert l obj v) q ≡ L.find l q
    find-insert_other l obj q v d =
        L.find-insert l obj q v
        ∙ ap (λ b. if b then some v else L.find l q) (ne→== obj q (λ e. d (sym e)))

    find-assign_other :
        (l : Table) (obj q : ℕ) (v : Value) → q ≢ obj → L.find (L.assign l obj v) q ≡ L.find l q
    find-assign_other l obj q v d =
        L.find-assign l obj q v
        ∙ ap (λ b. if b then overwrite v (L.find l q) else L.find l q)
            (ne→== obj q (λ e. d (sym e)))

    find-assign_same :
        (l : Table) (obj : ℕ) (v w : Value)
        → L.find l obj ≡ some w
        → L.find (L.assign l obj v) obj ≡ some v
    find-assign_same l obj v w p =
        L.find-assign l obj obj v
        ∙ ap (λ b. if b then overwrite v (L.find l obj) else L.find l obj) (==-self obj)
        ∙ ap (overwrite v) p

    -- `mutate` leaves the table that it was given, or that table with an entry for the object.
    mutate_cases :
        (s : State Object) (t : Transaction V L) (obj q : ℕ) (x : Value)
        → value_at_epoch (s.object obj) (s.snapshot t.snapshot).epoch ≡ ok x
        → q ≢ obj
        → (v : Value) × (l : Table) × (mutate V L value_at_epoch s (some t) obj
            ≡ ok (v, record t { local_values = l }))
          × (L.find l q ≡ L.find t.local_values q)
          × (L.find l obj ≡ some v)
    unfolding mutate mutate_found local_value
    mutate_cases s t obj q x e d = elim (Option-cases (L.find t.local_values obj)) [
      | inl p ↦ (
        x,
        L.insert t.local_values obj x,
        ap (mutate_found V L value_at_epoch s t obj) p
            ∙ simp (e, local_value_or-absent V L t.local_values obj x p),
        find-insert_other t.local_values obj q x d,
        L.find-insert t.local_values obj obj x
            ∙ ap (λ b. if b then some x else L.find t.local_values obj) (==-self obj),
      )
      | inr (v, p) ↦ (v, t.local_values, ap (mutate_found V L value_at_epoch s t obj) p, refl, p)
    ]

    -- Writing an object that can be read at the epoch of the transaction succeeds. The transaction
    -- then reads the value that was written, and of any other object what it read before.
    pub read-write :
        (s : State Object) (t : Transaction V L) (obj q : ℕ) (x val : Value)
        → value_at_epoch (s.object obj) (s.snapshot t.snapshot).epoch ≡ ok x
        → q ≢ obj
        → (u : Transaction V L) × (write V L value_at_epoch s (some t) obj val ≡ ok u)
          × (read V L value_at_epoch s (some u) obj ≡ ok val)
          × (read V L value_at_epoch s (some u) q ≡ read V L value_at_epoch s (some t) q)
    unfolding write read
    read-write s t obj q x val e d =
        let (v, l, run, same, there) = mutate_cases s t obj q x e d in
        (
          record t { local_values = L.assign l obj val },
          simp run,
          read_in-local s (record t { local_values = L.assign l obj val }) obj val
              (find-assign_same l obj val v there),
          read_in-eq s t (L.assign l obj val) q (find-assign_other l obj q val d ∙ same),
        )
