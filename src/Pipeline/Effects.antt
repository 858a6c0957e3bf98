-- ===== src/Pipeline/Effects.antt =====
-- The parts of a call of the pipeline: they change it, and may raise or not end.
use cuebee_speaker_serving.Base.{Option, none, some}
use cuebee_speaker_serving.Domain.{Result, ok, raised}

-- `none` where the frontend's loop does not end, or else the value or the exception, with the changes
-- that were made before.
abbrev pub Flow : Type 0 → Type 0 → Type 0
Flow P B = P → Option (Result B × P)

module _ {P B : Type 0} where
  abbrev pub return : B → Flow P B
  return b p = some (ok b, p)

  -- A call that changes nothing.
  abbrev pub attempt : Result B → Flow P B
  attempt r p = some (r, p)

module _ {P B C : Type 0} where
  abbrev pub continued : Option (Result B × P) → (B → Flow P C) → Option (Result C × P)
  continued none next = none
  continued (some (raised e, p)) next = some (raised e, p)
  continued (some (ok b, p)) next = next b p

  infixl 5 ◌>>=◌
  abbrev pub ◌>>=◌ : Flow P B → (B → Flow P C) → Flow P C
  (first >>= next) p = continued (first p) next

module _ {P B : Type 0} where
  infixl 5 ◌>>◌
  abbrev pub ◌>>◌ : Flow P (Unit {0}) → Flow P B → Flow P B
  first >> later = first >>= λ _. later
