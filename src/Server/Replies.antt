-- ===== src/Server/Replies.antt =====
-- The responses of a connection, line by line.
use cuebee_speaker_serving.Base.{
  ℕ, suc, ◌≡◌, ◌≤◌, refl, subst, ap, List, [], ◌∷◌, Option, none, some, arith, length,
  if◌then◌else◌, Bool-cases, inl, inr,
}
use cuebee_speaker_serving.Base.Float.{Float}
use cuebee_speaker_serving.Base.Int.{ℤ, pos, ltb_ℤ}
use cuebee_speaker_serving.Domain.{Error, Result, ok, raised}
use cuebee_speaker_serving.Server.{ServiceRuntime, Surroundings, Response}
use cuebee_speaker_serving.Server.Connection.{
  Turn, Codec, Served, wrote, respond, at_line, serve, finished, replaced, handle_client,
}

abbrev taken_first : ℤ → Result (List ℕ) → List (List ℕ) → List (List ℕ)
taken_first max_line_bytes (raised e) later = []
taken_first max_line_bytes (ok []) later = []
taken_first max_line_bytes (ok (b ∷ line)) later =
    if ltb_ℤ max_line_bytes (pos (length (b ∷ line))) then (b ∷ line) ∷ [] else (b ∷ line) ∷ later

-- The lines that the connection takes: up to the end, a failed read, or a line that is too long,
-- which is the last one.
abbrev pub lines_taken : ℤ → List Turn → List (List ℕ)
lines_taken max_line_bytes [] = []
lines_taken max_line_bytes (turn ∷ turns) =
    taken_first max_line_bytes turn.line (lines_taken max_line_bytes turns)

module _ {R A S : Type 0} where
  -- At most one response was written for a line, and exactly one where no exception left the loop.
  abbrev pub IsAnswered : List (List ℕ) → Option (Served R A S) → Type 0
  IsAnswered lines none = Unit
  IsAnswered lines (some s) =
      (length s.written ≤ length lines) × (s.left ≡ ok tt → length s.written ≡ length lines)

raised_left : {X : Type 0} {e : Error} → ◌≡◌ {A = Result (Unit {0})} (raised e) (ok tt) → X
raised_left h = absurd (ground arith)

module _ {R A V S : Type 0} ⦃float : Float R⦄ (env : Surroundings R A V S) (codec : Codec R)
    (max_line_bytes : ℤ) where
  wrote-IsAnswered :
      (line : List ℕ) (lines : List (List ℕ)) (r : Result (List ℕ)) (drained : Result (Unit {0}))
      (rt : ServiceRuntime R A S) (rest : Option (Served R A S))
      → IsAnswered lines rest
      → IsAnswered (line ∷ lines) (wrote r drained rt rest)
  wrote-IsAnswered line lines (raised e) drained rt rest h = (omega arith, raised_left)
  wrote-IsAnswered line lines (ok l) (raised e) rt rest h = (omega arith, raised_left)
  wrote-IsAnswered line lines (ok l) (ok u) rt none h = tt
  wrote-IsAnswered line lines (ok l) (ok u) rt (some s) h =
      (omega (arith, h.0), λ e. ap suc (h.1 e))

  respond-IsAnswered :
      (line : List ℕ) (lines : List (List ℕ)) (drained : Result (Unit {0}))
      (rest : ServiceRuntime R A S → Option (Served R A S))
      (o : Option (Result (Response R) × ServiceRuntime R A S))
      → ((rt : ServiceRuntime R A S) → IsAnswered lines (rest rt))
      → IsAnswered (line ∷ lines) (respond env codec max_line_bytes drained rest o)
  unfolding respond
  respond-IsAnswered line lines drained rest none h = tt
  respond-IsAnswered line lines drained rest (some (raised e, rt)) h = (omega arith, raised_left)
  respond-IsAnswered line lines drained rest (some (ok response, rt)) h =
      wrote-IsAnswered line lines (codec.dumps response) drained rt (rest rt) (h rt)

  at_line-IsAnswered :
      (r : Result (List ℕ)) (lines : List (List ℕ)) (drained : Result (Unit {0}))
      (rest : ServiceRuntime R A S → Option (Served R A S)) (rt : ServiceRuntime R A S)
      → ((rt : ServiceRuntime R A S) → IsAnswered lines (rest rt))
      → IsAnswered
          (taken_first max_line_bytes r lines)
          (at_line env codec max_line_bytes r drained rest rt)
  unfolding at_line
  at_line-IsAnswered (raised e) lines drained rest rt h = (omega arith, raised_left)
  at_line-IsAnswered (ok []) lines drained rest rt h = (omega arith, λ e. refl)
  at_line-IsAnswered (ok (b ∷ line)) lines drained rest rt h =
      elim (Bool-cases (ltb_ℤ max_line_bytes (pos (length (b ∷ line))))) [
        | inl e ↦
            rw e (respond-IsAnswered (b ∷ line) [] drained _ _ (λ rt'. (omega arith, λ k. refl)))
        | inr e ↦ rw e (respond-IsAnswered (b ∷ line) lines drained rest _ h)
      ]

  serve-IsAnswered :
      (turns : List Turn) (rt : ServiceRuntime R A S)
      → IsAnswered (lines_taken max_line_bytes turns) (serve env codec max_line_bytes turns rt)
  unfolding serve
  serve-IsAnswered [] rt = (omega arith, λ e. refl)
  serve-IsAnswered (turn ∷ turns) rt =
      at_line-IsAnswered turn.line (lines_taken max_line_bytes turns) turn.drained
        (serve env codec max_line_bytes turns) rt (serve-IsAnswered turns)

  finished-IsAnswered :
      (lines : List (List ℕ)) (closed : Result (Unit {0})) (o : Option (Served R A S))
      → IsAnswered lines o
      → IsAnswered lines (finished env codec max_line_bytes closed o)
  unfolding finished
  finished-IsAnswered lines closed none h = tt
  finished-IsAnswered lines (raised e) (some s) h = (h.0, raised_left)
  finished-IsAnswered lines (ok u) (some s) h = (h.0, λ e. h.1 (was_ok _ s.left e))
    where
      was_ok : (r left : Result (Unit {0})) → replaced r left ≡ ok tt → left ≡ ok tt
      was_ok (raised e) left h = raised_left h
      was_ok (ok u) left h = h

  -- A connection that ends without an exception wrote one response for each line that it took, and
  -- any other wrote at most one for each.
  pub handle_client-IsAnswered :
      (turns : List Turn) (closed : Result (Unit {0})) (rt : ServiceRuntime R A S)
      (s : Served R A S)
      → handle_client env codec max_line_bytes turns closed rt ≡ some s
      → IsAnswered (lines_taken max_line_bytes turns) (some s)
  unfolding handle_client
  handle_client-IsAnswered turns closed rt s h =
      subst (IsAnswered (lines_taken max_line_bytes turns)) h (
        finished-IsAnswered (lines_taken max_line_bytes turns) closed _ (serve-IsAnswered turns rt))
