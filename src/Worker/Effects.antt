-- ===== src/Worker/Effects.antt =====
-- Methods of the client: they change it and may raise, and what was changed before a raise stays.
use cuebee_speaker_serving.Base.{ℕ, Bool, String, Option, none, some, List}
use cuebee_speaker_serving.Domain.{
  Error, worker_unavailable, worker_execution_error, Result, ok, raised,
}
use cuebee_speaker_serving.Worker.Wire.{Bytes}

-- `NativeWorkerBackend`: whether it has a process, and its other variables. `exchanges` and `starts`
-- count the calls of the environment; `written` holds the requests, the last one first.
pub record Backend : Type 0 where
  pub running : Bool
  pub next_request_id : ℕ
  pub closed : Bool
  pub exchanges : ℕ
  pub starts : ℕ
  pub written : List Bytes

abbrev pub Method : Type 0 → Type 0
Method A = Backend → Result A × Backend

-- The text of a `NativeWorkerUnavailable`.
unfoldable pub unavailable_text : Error → Option String
unavailable_text (worker_unavailable s) = some s
unavailable_text e = none

module _ {A : Type 0} where
  abbrev pub return : A → Method A
  return a b = (ok a, b)

  abbrev pub raise : Error → Method A
  raise e b = (raised e, b)

  abbrev pub lift : Result A → Method A
  lift r b = (r, b)

  abbrev pub rescued : (String → Method A) → Error → Option String → Method A
  rescued handler e none = raise e
  rescued handler e (some s) = handler s

  abbrev pub handled : (String → Method A) → Result A → Method A
  handled handler (raised e) = rescued handler e (unavailable_text e)
  handled handler (ok a) = return a

  -- `except NativeWorkerUnavailable`
  abbrev pub on_unavailable : Method A → (String → Method A) → Method A
  on_unavailable first handler b = let (r, b') = first b in handled handler r b'

abbrev pub modify : (Backend → Backend) → Method (Unit {0})
modify f b = (ok tt, f b)

abbrev forgiven : {A : Type 0} → Result A → Result (Unit {0})
forgiven (raised (worker_unavailable s)) = ok tt
forgiven (raised (worker_execution_error s)) = ok tt
forgiven (raised e) = raised e
forgiven (ok a) = ok tt

-- `except NativeWorkerError: pass`
abbrev pub ignore_worker_error : {A : Type 0} → Method A → Method (Unit {0})
ignore_worker_error first b = let (r, b') = first b in (forgiven r, b')

module _ {A B : Type 0} where
  abbrev continue : Result A → (A → Method B) → Method B
  continue (raised e) next b = (raised e, b)
  continue (ok a) next b = next a b

  infixl 5 ◌>>=◌
  abbrev pub ◌>>=◌ : Method A → (A → Method B) → Method B
  ◌>>=◌ first next b = let (r, b') = first b in continue r next b'

infixl 5 ◌>>◌
abbrev pub ◌>>◌ : {B : Type 0} → Method (Unit {0}) → Method B → Method B
first >> later = first >>= λ _. later
