-- ===== src/Worker/Retry.antt =====
-- The attempts of `infer_batch`: lost exchanges and restarts.
use cuebee_speaker_serving.Base.{
  ℕ, zero, suc, ◌+◌, ◌≤◌, ◌≡◌, refl, sym, ap, ◌∙◌, subst, inl, inr, true, false, String, Option,
  none, some, List, arith, if◌then◌else◌, Bool-cases,
}
use cuebee_speaker_serving.Domain.{Error, worker_unavailable, Result, ok, raised, ok_injective}
use cuebee_speaker_serving.Worker.{World, op_infer, stop_process, start_process, exchange, attempts}
use cuebee_speaker_serving.Worker.Wire.{WorkerResponse}
use cuebee_speaker_serving.Worker.Request.{Arrays}
use cuebee_speaker_serving.Worker.Effects.{
  Backend, Method, return, lift, unavailable_text, rescued, on_unavailable, ◌>>=◌, ◌>>◌,
}
use cuebee_speaker_serving.Worker.Exchange.{IsAnswered, IsExchanged, exchange-IsExchanged}

module _ {R : Type 0} (world : World R) where
  -- What holds of a run of the attempts. On success the last exchange gave the rows; when the worker
  -- is unavailable, no process is kept.
  pub record IsTried (restarts first : ℕ) (b b' : Backend) (result : Result (List (R × List R)))
      : Type 0 where
    pub counted : b'.exchanges ≤ b.exchanges + restarts + 1
    pub started : b'.starts ≤ b.starts + restarts
    pub ids : first ≤ b'.next_request_id
    pub same_closed : b'.closed ≡ b.closed
    pub on_ok :
        (rows : List (R × List R))
        → result ≡ ok rows
        → (r : WorkerResponse R) × (rows ≡ r.rows) × IsAnswered world first b' r
    pub on_unavailable : (s : String) → result ≡ raised (worker_unavailable s) → b'.running ≡ false

  succeeded-IsTried :
      (restarts first : ℕ) (b b' : Backend) (r : WorkerResponse R)
      → first ≤ b.next_request_id
      → IsExchanged world b b' (ok r)
      → IsTried restarts first b b' (ok r.rows)
  succeeded-IsTried restarts first b b' r f h = record {
    counted = omega (arith, h.counted);
    started = omega (arith, h.same_starts);
    ids = omega (arith, h.ids);
    same_closed = h.same_closed;
    on_ok = λ rows e.
        let a = h.on_ok r refl in
        (
          r,
          sym (ok_injective e),
          record {
            exchange_number = a.exchange_number;
            latest = a.latest;
            delivered = a.delivered;
            success = a.success;
            id = a.id;
            new = omega (arith, a.new);
          },
        );
    on_unavailable = λ s e. absurd (ground arith);
  }

  pub failed-IsTried :
      (restarts first : ℕ) (b b' : Backend) (e : Error)
      → b'.exchanges ≤ b.exchanges + restarts + 1
      → b'.starts ≤ b.starts + restarts
      → first ≤ b'.next_request_id
      → b'.closed ≡ b.closed
      → ((s : String) → e ≡ worker_unavailable s → b'.running ≡ false)
      → IsTried restarts first b b' (raised e)
  failed-IsTried restarts first b b' e x s n c r = record {
    counted = x;
    started = s;
    ids = n;
    same_closed = c;
    on_ok = λ rows h. absurd (ground arith);
    on_unavailable = λ t h. r t (ground arith);
  }

  other-IsTried :
      (restarts first : ℕ) (b b' : Backend) (e : Error)
      → first ≤ b.next_request_id
      → IsExchanged world b b' (raised e)
      → unavailable_text e ≡ none
      → IsTried restarts first b b' (raised e)
  unfolding unavailable_text
  other-IsTried restarts first b b' e f h n =
      failed-IsTried restarts first b b' e (omega (arith, h.counted)) (omega (arith, h.same_starts))
        (omega (arith, h.ids)) h.same_closed
        (λ s g. let two : some s ≡ none = ap unavailable_text (sym g) ∙ n in absurd (ground arith))

  -- The attempts that follow a lost exchange count as restarts.
  later-IsTried :
      (restarts first : ℕ) (b b1 b' : Backend) (result : Result (List (R × List R)))
      → b1.exchanges ≤ b.exchanges + 1
      → b1.starts ≤ b.starts + 1
      → b1.closed ≡ b.closed
      → IsTried restarts first b1 b' result
      → IsTried (suc restarts) first b b' result
  later-IsTried restarts first b b1 b' result x s c h = record {
    counted = omega (arith, h.counted);
    started = omega (arith, h.started);
    ids = h.ids;
    same_closed = h.same_closed ∙ c;
    on_ok = h.on_ok;
    on_unavailable = h.on_unavailable;
  }

  -- The rest of a round, behind its exchange, with what a lost exchange is answered by.
  abbrev finished :
      (String → Method (List (R × List R))) → Result (WorkerResponse R) → Method (List (R × List R))
  finished handler r = on_unavailable (lift r >>= λ q. return q.rows) handler

  finished-IsTried :
      (restarts first : ℕ) (handler : String → Method (List (R × List R))) (b b' : Backend)
      (result : Result (WorkerResponse R))
      → first ≤ b.next_request_id
      → IsExchanged world b b' result
      → ((s : String) → IsTried restarts first b (handler s b').1 (handler s b').0)
      → IsTried restarts first b (finished handler result b').1 (finished handler result b').0
  finished-IsTried restarts first handler b b' (ok r) f h k =
      succeeded-IsTried restarts first b b' r f h
  finished-IsTried restarts first handler b b' (raised e) f h k = go (unavailable_text e) refl
    where
      go :
          (o : Option String)
          → unavailable_text e ≡ o
          → IsTried restarts first b (rescued handler e o b').1 (rescued handler e o b').0
      go none n = other-IsTried restarts first b b' e f h n
      go (some s) n = k s

  module _ {V : Type 0} (np : Arrays V) where
    -- What a lost exchange is answered by while restarts are left.
    abbrev restarted : ℕ → List V → String → Method (List (R × List R))
    restarted restarts features s =
        stop_process >> (start_process world >> attempts world np restarts features)

    restarted-IsTried :
        (restarts first : ℕ) (features : List V) (b b' : Backend) (s : String)
        → b'.exchanges ≤ b.exchanges + 1
        → b'.starts ≡ b.starts
        → b'.closed ≡ b.closed
        → first ≤ b'.next_request_id
        → let b1 = record b' { running = true; starts = b'.starts + 1 } in
          IsTried restarts first b1
            (attempts world np restarts features b1).1
            (attempts world np restarts features b1).0
          → IsTried
              (suc restarts)
              first
              b
              (restarted restarts features s b').1
              (restarted restarts features s b').0
    unfolding start_process
    restarted-IsTried restarts first features b b' s x n c f h =
        elim (Bool-cases (world.starts b'.starts)) [
          | inl e ↦
              subst
                (λ r.
                  let out = rest (if r then up else down) in
                  IsTried (suc restarts) first b out.1 out.0)
                (sym e) (later-IsTried restarts first b _ _ _ x (omega (arith, n)) c h)
          | inr e ↦
              subst
                (λ r.
                  let out = rest (if r then up else down) in
                  IsTried (suc restarts) first b out.1 out.0)
                (sym e)
                (failed-IsTried (suc restarts) first b _ _ (omega (arith, x)) (omega (arith, n)) f c
                  (λ t g. refl))
        ]
      where
        up : Result (Unit {0}) × Backend
        up = (ok tt, record b' { running = true; starts = b'.starts + 1 })

        down : Result (Unit {0}) × Backend
        down = (
          raised (worker_unavailable "failed to start native worker"),
          record b' { running = false; starts = b'.starts + 1 },
        )

        rest : Result (Unit {0}) × Backend → Result (List (R × List R)) × Backend
        rest out = (lift out.0 >>= (λ _. attempts world np restarts features)) out.1

    pub attempts-IsTried :
        (restarts first : ℕ) (features : List V) (b : Backend)
        → first ≤ b.next_request_id
        → IsTried restarts first b
            (attempts world np restarts features b).1
            (attempts world np restarts features b).0
    unfolding attempts
    attempts-IsTried zero first features b f =
        let h = exchange-IsExchanged world np op_infer features b in
        finished-IsTried 0 first _ b (exchange world np op_infer features b).1
          (exchange world np op_infer features b).0 f h
          (λ s.
            failed-IsTried 0 first b _ (worker_unavailable s) (omega (arith, h.counted))
              (omega (arith, h.same_starts)) (omega (arith, h.ids)) h.same_closed (λ t g. refl))
    attempts-IsTried (suc restarts) first features b f =
        let h = exchange-IsExchanged world np op_infer features b in
        let b' = (exchange world np op_infer features b).1 in
        finished-IsTried (suc restarts) first _ b b' (exchange world np op_infer features b).0 f h
          (λ s.
            restarted-IsTried restarts first features b b' s h.counted h.same_starts h.same_closed
              (omega (arith, h.ids))
              (attempts-IsTried restarts first features
                (record b' { running = true; starts = b'.starts + 1 }) (omega (arith, h.ids))))
