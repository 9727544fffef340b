-- ===== src/Garbage/Queue.antt =====
-- The open critical sections of jmvcc/garbage.cc in the abstract: a queue, oldest first, in which
-- each cleanup carries the sections that were open when it was scheduled and have not ended since.
use libjmvcc.Base.{
  ℕ, ◌≡◌, sym, subst, true, false, List, [], ◌∷◌, ◌++◌, map, All, contains, update, if◌then◌else◌,
  ◌==◌,
}
use mathlib.Core.List.{append_assoc}
use libjmvcc.Garbage.{take_cleanups_from}

-- A scheduled cleanup, and the threads whose sections it still waits for.
pub record Scheduled : Type 0 where
  pub cleanup : ℕ
  pub waits : List ℕ

-- An open section: the thread that is in it, and the cleanups on its list.
pub record Open : Type 0 where
  pub owner : ℕ
  pub cleanups : List Scheduled

-- The sections, what each thread has scheduled and not handed over, and what has run.
pub record Queue : Type 0 where
  pub sections : List Open
  pub own : ℕ → List Scheduled
  pub ran : List Scheduled

abbrev pub owners : List Open → List ℕ
owners = map λ x. x.owner

-- The section of thread `k` ends: no cleanup waits for it any longer.
abbrev pub without : ℕ → List ℕ → List ℕ
without k [] = []
without k (q ∷ qs) = if q == k then without k qs else q ∷ without k qs

abbrev pub released : ℕ → List Scheduled → List Scheduled
released k [] = []
released k (c ∷ cs) = record c { waits = without k c.waits } ∷ released k cs

abbrev pub release_all : ℕ → List Open → List Open
release_all k [] = []
release_all k (x ∷ xs) = record x { cleanups = released k x.cleanups } ∷ release_all k xs

-- What the threads do, and the cleanups they schedule. A new cleanup waits for all the sections
-- that are open.
pub data Step (q : Queue) : List ℕ → Queue → Type 0 where
  enter :
      (t : ℕ)
      → contains t (owners q.sections) ≡ false
      → Step q [] (record q { sections = q.sections ++ record { owner = t; cleanups = [] } ∷ [] })
  schedule_inside :
      (t c : ℕ)
      → contains t (owners q.sections) ≡ true
      → Step q (c ∷ []) (record q {
        own = update q.own t (q.own t ++ record { cleanup = c; waits = owners q.sections } ∷ []);
      })
  schedule_outside :
      (c : ℕ) (b : List Open) (x : Open)
      → q.sections ≡ b ++ x ∷ []
      → Step q (c ∷ []) (record q {
        sections =
            b
            ++ record x {
              cleanups = x.cleanups ++ record { cleanup = c; waits = owners q.sections } ∷ [];
            }
              ∷ [];
      })
  schedule_now :
      (c : ℕ)
      → q.sections ≡ []
      → Step q (c ∷ []) (record q { ran = q.ran ++ record { cleanup = c; waits = [] } ∷ [] })
  hand_over :
      (t : ℕ) (b : List Open) (x : Open)
      → contains t (owners q.sections) ≡ true
      → q.sections ≡ b ++ x ∷ []
      → Step q [] (record q {
        sections = b ++ record x { cleanups = take_cleanups_from x.cleanups (q.own t) } ∷ [];
        own = update q.own t [];
      })
  leave_oldest :
      (x : Open) (a : List Open)
      → q.sections ≡ x ∷ a
      → q.own x.owner ≡ []
      → Step q [] (record q {
        sections = release_all x.owner a;
        own = λ t. released x.owner (q.own t);
        ran = q.ran ++ released x.owner x.cleanups;
      })
  leave_later :
      (b : List Open) (p x : Open) (a : List Open)
      → q.sections ≡ b ++ p ∷ x ∷ a
      → q.own x.owner ≡ []
      → Step q [] (record q {
        sections =
            release_all x.owner
              (b ++ record p { cleanups = take_cleanups_from p.cleanups x.cleanups } ∷ a);
        own = λ t. released x.owner (q.own t);
      })

pub data Reach (q : Queue) : List ℕ → Queue → Type 0 where
  here : Reach q [] q
  later : {cs ds : List ℕ} {r s : Queue} → Reach q cs r → Step r ds s → Reach q (ds ++ cs) s

pub Reach-trans :
    {cs : List ℕ} {q r : Queue}
    → Reach q cs r
    → {ds : List ℕ} {s : Queue} → Reach r ds s
    → Reach q (ds ++ cs) s
Reach-trans p here = p
Reach-trans {cs} {q} p (later {cs = ds} {ds = es} {s = s} a b) =
    subst (λ l. Reach q l s) (sym (append_assoc es ds cs)) (later (Reach-trans p a) b)

abbrev pub no_section : Queue
no_section = record { sections = []; own = λ t. []; ran = [] }

-- The cleanup waits for sections of `ks` only.
abbrev pub Within : List ℕ → Scheduled → Type 0
Within ks c = (q : ℕ) → contains q c.waits ≡ true → contains q ks ≡ true

-- A cleanup on the list of a section waits for that section and older ones only.
abbrev pub Held : List ℕ → List Open → Type 0
Held older [] = Unit
Held older (x ∷ xs) = All (Within (x.owner ∷ older)) x.cleanups × Held (x.owner ∷ older) xs

pub record Safe (q : Queue) : Type 0 where
  pub held : Held [] q.sections
  pub own : (t : ℕ) → All (Within (owners q.sections)) (q.own t)
  pub done : All (Within []) q.ran
