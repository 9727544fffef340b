-- ===== src/Tests/Sections.antt =====
-- Concrete critical sections of jmvcc/garbage.cc.
use libjmvcc.Base.{refl, false, true, Bool, [], ◌∷◌, none, some, ◌==◌, if◌then◌else◌}
use libjmvcc.Garbage.{Sections}
use libjmvcc.Garbage.Leave.{InNewest}

-- Section 0 is open, with a cleanup 10. With `both`, section 1 is open behind it, with a cleanup 20,
-- and its thread has scheduled 30 and 40.
abbrev sections : Bool → Sections
sections both = record {
  newest_ci = some (if both then 1 else 0);
  num_in_critical = if both then 2 else 1;
  debug_mode = false;
  info = λ ci. record {
    live = true;
    prev = if ci == 1 then some 0 else none;
    next = if ci == 0 then (if both then some 1 else none) else none;
    cleanups = if ci == 1 then 20 ∷ [] else 10 ∷ [];
  };
  thread = λ t. record {
    critical = some t;
    critical_alloc = some t;
    cleanups = if t == 1 then some (30 ∷ 40 ∷ []) else none;
    nesting = 1;
  };
  ran = [];
}

abbrev second-InNewest : InNewest (sections true) 1 1 (some 0)
second-InNewest = record {
  nested_once = refl;
  critical = refl;
  allocated = refl;
  live = refl;
  prev = refl;
  next = refl;
  newest = refl;
  not_debug = refl;
}

abbrev first-InNewest : InNewest (sections false) 0 0 none
first-InNewest = record {
  nested_once = refl;
  critical = refl;
  allocated = refl;
  live = refl;
  prev = refl;
  next = refl;
  newest = refl;
  not_debug = refl;
}
