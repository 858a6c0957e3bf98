-- ===== src/Server/Connection.antt =====
-- `handle_client`: a connection that carries one JSON message a line.
use cuebee_speaker_serving.Base.{
  ℕ, Bool, true, false, List, [], ◌∷◌, Option, none, some, length, if◌then◌else◌,
}
use cuebee_speaker_serving.Base.Eq.{string_eq}
use cuebee_speaker_serving.Base.Float.{Float}
use cuebee_speaker_serving.Base.Int.{ℤ, pos, ltb_ℤ}
use cuebee_speaker_serving.Base.Text.{codes}
use cuebee_speaker_serving.Domain.{Error, value_error, type_error, key_error, Result, ok, raised}
use cuebee_speaker_serving.Metrics.{increment}
use cuebee_speaker_serving.Pipeline.{}
use cuebee_speaker_serving.Pipeline.Effects.{Flow, attempt, ◌>>=◌}
use cuebee_speaker_serving.Server.Json.{Value}
use cuebee_speaker_serving.Server.{
  ServiceRuntime, Surroundings, Response, refused, message_too_large, dispatch,
}

-- The exceptions that `handle_client` answers; the Unicode, JSON and base64 ones are ValueErrors.
abbrev pub is_answered : Error → Bool
is_answered (value_error s) = true
is_answered (type_error s) = true
is_answered (key_error s) = true
is_answered e = false

-- What the connection does at one turn: what `readline` gives, and whether the write of the
-- response to it is drained.
pub record Turn : Type 0 where
  pub line : Result (List ℕ)
  pub drained : Result (Unit {0})

-- `json.loads` of a line, and `json.dumps` of a response with its encoding.
pub record Codec (R : Type 0) : Type 0 where
  pub loads : List ℕ → Result (Value R)
  pub dumps : Response R → Result (List ℕ)

-- The state of a connection: the lines that were written, the newest last, and the runtime behind
-- them. `left` is the exception that leaves the loop, if there is one.
pub record Served (R A S : Type 0) : Type 0 where
  pub written : List (List ℕ)
  pub left : Result (Unit {0})
  pub runtime : ServiceRuntime R A S

module _ {R A S : Type 0} where
  abbrev pub or_refused :
      Option (Result (Response R) × ServiceRuntime R A S)
      → Option (Result (Response R) × ServiceRuntime R A S)
  or_refused none = none
  or_refused (some (ok response, rt)) = some (ok response, rt)
  or_refused (some (raised e, rt)) =
      if is_answered e then some (ok (refused e), rt) else some (raised e, rt)

  -- One more line before those that follow.
  abbrev pub before : List ℕ → Option (Served R A S) → Option (Served R A S)
  before line none = none
  before line (some s) = some (record s { written = (line) ∷ s.written })

  abbrev pub stopped :
      ServiceRuntime R A S → Result (Unit {0}) → List (List ℕ) → Option (Served R A S)
  stopped rt left written = some (record { written = written; left = left; runtime = rt })

  -- `_write`, and the rest of the connection.
  abbrev pub wrote :
      Result (List ℕ)
      → Result (Unit {0})
      → ServiceRuntime R A S
      → Option (Served R A S)
      → Option (Served R A S)
  wrote (raised e) drained rt rest = stopped rt (raised e) []
  wrote (ok line) (raised e) rt rest = stopped rt (raised e) (line ∷ [])
  wrote (ok line) (ok u) rt rest = before line rest

-- An exception of the `finally` replaces the one that is on its way.
abbrev pub replaced : Result (Unit {0}) → Result (Unit {0}) → Result (Unit {0})
replaced (raised e) left = raised e
replaced (ok u) left = left

module _ {R A V S : Type 0} ⦃float : Float R⦄ (env : Surroundings R A V S) (codec : Codec R)
    (max_line_bytes : ℤ) where
  -- The body of the `try`: the response to a line.
  unfoldable pub answered_line : List ℕ → Flow (ServiceRuntime R A S) (Response R)
  answered_line line = attempt (codec.loads line) >>= λ message. dispatch env message

  unfoldable pub respond :
      Result (Unit {0})
      → (ServiceRuntime R A S → Option (Served R A S))
      → Option (Result (Response R) × ServiceRuntime R A S)
      → Option (Served R A S)
  respond drained rest none = none
  respond drained rest (some (raised e, rt)) = stopped rt (raised e) []
  respond drained rest (some (ok response, rt)) = wrote (codec.dumps response) drained rt (rest rt)

  -- One round of the loop: `readline` raises on a line beyond the limit of the stream and on a lost
  -- connection, and returns nothing at the end.
  unfoldable pub at_line :
      Result (List ℕ)
      → Result (Unit {0})
      → (ServiceRuntime R A S → Option (Served R A S))
      → ServiceRuntime R A S
      → Option (Served R A S)
  at_line (raised e) drained rest rt = stopped rt (raised e) []
  at_line (ok []) drained rest rt = stopped rt (ok tt) []
  at_line (ok (b ∷ line)) drained rest rt =
      if ltb_ℤ max_line_bytes (pos (length (b ∷ line)))
      then respond drained (λ rt'. stopped rt' (ok tt) []) (some (ok message_too_large, rt))
      else respond drained rest (or_refused (answered_line (b ∷ line) rt))

  -- The loop of `handle_client`; no turn is left where the reader is at its end.
  unfoldable pub serve : List Turn → ServiceRuntime R A S → Option (Served R A S)
  serve [] rt = stopped rt (ok tt) []
  serve (turn ∷ turns) rt = at_line turn.line turn.drained (serve turns) rt

  -- The `finally`; `closed` is what `wait_closed` gives.
  unfoldable pub finished : Result (Unit {0}) → Option (Served R A S) → Option (Served R A S)
  finished closed none = none
  finished (raised e) (some s) = some (record s { left = raised e })
  finished (ok u) (some s) =
      let (r, m) =
        increment env.parts.numeric (codes "connections_closed") (float.decimal 1 0)
          s.runtime.metrics in
      some (record s { left = replaced r s.left; runtime = record s.runtime { metrics = m } })

  -- `handle_client`
  unfoldable pub handle_client :
      List Turn → Result (Unit {0}) → ServiceRuntime R A S → Option (Served R A S)
  handle_client turns closed rt = finished closed (serve turns rt)
