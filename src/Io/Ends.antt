-- ===== src/Io/Ends.antt =====
-- How a part of a request may end: it goes on or stops, and is never stuck.
use u_gds.Prelude.{ℤ}
use u_gds.Io.Types.{Progress, Attempt, go, stop, Step, and_then}

pub data Ends {A : Type 0} (P : A → Progress → Type 0) (Q : ℤ → Progress → Type 0)
    : Attempt A → Type 0 where
  goes : {a : A} {s : Progress} → P a s → Ends P Q (go a s)
  stops : {r : ℤ} {s : Progress} → Q r s → Ends P Q (stop r s)

module _ {A : Type 0} {P : A → Progress → Type 0} {Q : ℤ → Progress → Type 0} where
  pub bind :
      {B : Type 0} {R : B → Progress → Type 0} {m : Attempt A} {k : A → Step B}
      → Ends P Q m
      → ((a : A) (s : Progress) → P a s → Ends R Q (k a s))
      → Ends R Q (and_then m k)
  bind (goes p) next = next _ _ p
  bind (stops q) next = stops q

  pub mono :
      {P' : A → Progress → Type 0} {Q' : ℤ → Progress → Type 0} {m : Attempt A}
      → Ends P Q m
      → ((a : A) (s : Progress) → P a s → P' a s)
      → ((r : ℤ) (s : Progress) → Q r s → Q' r s)
      → Ends P' Q' m
  mono (goes p) f g = goes (f _ _ p)
  mono (stops q) f g = stops (g _ _ q)
