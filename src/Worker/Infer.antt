-- ===== src/Worker/Infer.antt =====
-- What `infer_batch` returns, and what it leaves of the process.
use cuebee_speaker_serving.Base.{
  ◌≡◌, refl, sym, ap, ◌∙◌, subst, Bool, true, false, not, ◌||◌, length, String, none, some, List,
  [], ◌∷◌, arith, if◌then◌else◌, ◌==◌,
}
use cuebee_speaker_serving.Base.Int.{ℤ, pos, pos_part, ltb_ℤ}
use cuebee_speaker_serving.Domain
use cuebee_speaker_serving.Domain.{
  Error, worker_unavailable, worker_execution_error, Result, ok, raised, ok_injective, refuse_if,
}
use cuebee_speaker_serving.Worker.{World, exchange, attempts, open_attempts, infer_batch}
use cuebee_speaker_serving.Worker.Request.{
  WorkerConfig, Arrays, check_matrix, check_matrices, validate_features,
}
use cuebee_speaker_serving.Worker.Effects.{Backend, lift, unavailable_text, ◌>>=◌}
use cuebee_speaker_serving.Worker.Retry.{IsTried, failed-IsTried, attempts-IsTried}

-- An exception, when there is one, is not that the worker is unavailable.
abbrev IsOther : {A : Type 0} → Result A → Type 0
IsOther (raised e) = unavailable_text e ≡ none
IsOther (ok a) = Unit

refuse_if-IsOther : (test : Bool) (s : String) → IsOther (refuse_if test s)
unfolding unavailable_text
refuse_if-IsOther true s = refl
refuse_if-IsOther false s = tt

then-IsOther :
    {A : Type 0} (first : Result (Unit {0})) (rest : Result A)
    → IsOther first
    → IsOther rest
    → IsOther (Domain.◌>>◌ first rest)
then-IsOther (raised d) rest f g = f
then-IsOther (ok u) rest f g = g

module _ {R V : Type 0} (world : World R) (np : Arrays V) where
  check_matrix-IsOther : (n : ℤ) (v : V) → IsOther (check_matrix np n v)
  check_matrix-IsOther n v = then-IsOther (refuse_if shape _) _ (refuse_if-IsOther shape _) (
      then-IsOther (refuse_if long _) _ (refuse_if-IsOther long _)
        (refuse_if-IsOther (not (np.is_finite v)) _))
    where
      shape : Bool
      shape = not (np.ndim v == 2) || np.rows v == 0 || not (np.columns v == 80)

      long : Bool
      long = ltb_ℤ n (pos (np.rows v))

  check_matrices-IsOther : (n : ℤ) (features : List V) → IsOther (check_matrices np n features)
  unfolding check_matrices
  check_matrices-IsOther n [] = tt
  check_matrices-IsOther n (v ∷ features) =
      then-IsOther (check_matrix np n v) (check_matrices np n features) (check_matrix-IsOther n v)
        (check_matrices-IsOther n features)

  validate_features-IsOther :
      (c : WorkerConfig R) (features : List V) → IsOther (validate_features np c features)
  unfolding validate_features
  validate_features-IsOther c features =
      then-IsOther (refuse_if large _) _ (refuse_if-IsOther large _) (
        then-IsOther (check_matrices np c.max_frames features) (ok features)
          (check_matrices-IsOther c.max_frames features) tt)
    where
      large : Bool
      large = ltb_ℤ c.max_batch_size (pos (length features))

  -- The part of a call behind the checks.
  checked-IsTried :
      (c : WorkerConfig R) (q : Result (List V)) (b : Backend)
      → b.closed ≡ false
      → IsOther q
      → let out = (lift q >>= open_attempts world np c) b in
        IsTried world (pos_part c.restart_attempts) b.next_request_id b out.1 out.0
  unfolding unavailable_text
  checked-IsTried c (ok features) b h o =
      subst
        (λ closed.
          let out = if closed then shut else tried in
          IsTried world (pos_part c.restart_attempts) b.next_request_id b out.1 out.0)
        (sym h)
        (attempts-IsTried world np (pos_part c.restart_attempts) b.next_request_id features b
          (omega arith))
    where
      shut : Result (List (R × List R)) × Backend
      shut = (raised (worker_unavailable "native worker backend is closed"), b)

      tried : Result (List (R × List R)) × Backend
      tried = attempts world np (pos_part c.restart_attempts) features b
  checked-IsTried c (raised e) b h o =
      failed-IsTried world (pos_part c.restart_attempts) b.next_request_id b b e (omega arith)
        (omega arith) (omega arith) refl
        (λ s g. let two : some s ≡ none = ap unavailable_text (sym g) ∙ o in absurd (ground arith))

  -- A call of an open client makes at most one exchange more than its restarts, and starts no more
  -- processes than those. The rows that it returns are those of a response that the environment
  -- delivered to the latest exchange, with status 0 and the id that was taken for it, which no earlier
  -- call took. When it raises that the worker is unavailable, no process is kept.
  pub infer_batch-IsTried :
      (c : WorkerConfig R) (v : V) (features : List V) (b : Backend)
      → b.closed ≡ false
      → let out = infer_batch world np c (v ∷ features) b in
        IsTried world (pos_part c.restart_attempts) b.next_request_id b out.1 out.0
  unfolding infer_batch
  infer_batch-IsTried c v features b h =
      checked-IsTried c (validate_features np c (v ∷ features)) b h
        (validate_features-IsOther c (v ∷ features))

  -- A round without a process and without restarts.
  down-stuck :
      (features : List V) (b : Backend)
      → let down = record b { running = false; closed = false } in
        attempts world np 0 features down
        ≡ (raised (worker_unavailable "native worker is not running"), down)
  unfolding attempts exchange unavailable_text
  down-stuck features b = refl

  -- A client that allows no restart and has no process: a call with arrays that pass the checks raises
  -- that the worker is unavailable, whatever the environment does, and leaves the client as it is.
  pub infer_batch-stuck :
      (c : WorkerConfig R) (v : V) (features : List V) (b : Backend)
      → c.restart_attempts ≡ pos 0
      → b.running ≡ false
      → b.closed ≡ false
      → validate_features np c (v ∷ features) ≡ ok (v ∷ features)
      → infer_batch world np c (v ∷ features) b
        ≡ (raised (worker_unavailable "native worker is not running"), b)
  unfolding infer_batch
  infer_batch-stuck c v features b h r o f =
      ap (λ q. (lift q >>= open_attempts world np c) b) f
      ∙ subst (λ n. IsStuck n b) (sym h)
          (subst (IsStuck (pos 0)) (λ i. record b { running = sym r i; closed = sym o i })
            (down-stuck (v ∷ features) b))
    where
      IsStuck : ℤ → Backend → Type 0
      IsStuck n a =
          (if a.closed
            then (raised (worker_unavailable "native worker backend is closed"), a)
            else attempts world np (pos_part n) (v ∷ features) a)
          ≡ (raised (worker_unavailable "native worker is not running"), a)
