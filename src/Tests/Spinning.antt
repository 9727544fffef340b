-- ===== src/Tests/Spinning.antt =====
-- A thread at the lock of jmvcc/spinlock.h, and two threads that share it.
use libjmvcc.Base.{ℕ, ◌+◌, ◌*◌, ◌≤◌, ◌≡◌, [], ◌∷◌, ◌++◌, some}
use libjmvcc.Spinlock.{
  acquire, acquire-free, start, tries, Exclusive, new_lock, try_acquire, Steps-Exclusive,
}

acquire-free_example :
    (n : ℕ) × (acquire ((1 ∷ 1 ∷ []) ++ 0 ∷ 1 ∷ []) ≡ some n) × (n * 100 ≤ 2) × (2 ≤ n * 100 + 100)
acquire-free_example = acquire-free (1 ∷ 1 ∷ []) (1 ∷ []) ((λ e. cc), ((λ e. cc), tt))

Steps-Exclusive_example : Exclusive (try_acquire (try_acquire new_lock 1) 2)
Steps-Exclusive_example =
    Steps-Exclusive (try_acquire (try_acquire new_lock 1) 2) (tries 2 (tries 1 start))
