-- ===== src/Worker/Exchange.antt =====
-- What one exchange returns, and what it leaves of the client.
use cuebee_speaker_serving.Base.{
  ℕ, ◌+◌, ◌≤◌, ◌≡◌, refl, sym, ap, ◌∙◌, subst, inl, inr, List, arith, if◌then◌else◌, Bool-cases,
}
use cuebee_speaker_serving.Domain.{Error, worker_unavailable, Result, ok, raised}
use cuebee_speaker_serving.Worker.{
  Outcome, exited, write_fails, times_out, delivers, World, checked, answered, requested, exchange,
}
use cuebee_speaker_serving.Worker.Wire.{Bytes, WorkerResponse, Message, response, failure}
use cuebee_speaker_serving.Worker.Request.{Arrays, request}
use cuebee_speaker_serving.Worker.Effects.{Backend, lift, ◌>>=◌}

module _ {R : Type 0} (world : World R) where
  -- The environment delivered this response to the latest exchange; it succeeded, and its id is the
  -- latest that was taken, not before `first`.
  pub record IsAnswered (first : ℕ) (b : Backend) (r : WorkerResponse R) : Type 0 where
    pub exchange_number : ℕ
    pub latest : exchange_number + 1 ≡ b.exchanges
    pub delivered : world.outcome exchange_number ≡ delivers (response r)
    pub success : r.status ≡ 0
    pub id : r.request_id + 1 ≡ b.next_request_id
    pub new : first ≤ r.request_id

  checked-IsAnswered :
      (request_id : ℕ) (m : Message R) (r : WorkerResponse R)
      → checked world request_id m ≡ ok r
      → (m ≡ response r) × (r.request_id ≡ request_id) × (r.status ≡ 0)
  checked-IsAnswered request_id (failure e) r h = absurd (ground arith)
  checked-IsAnswered request_id (response q) r h = ground arith

  -- What holds of every exchange: counters move by one at most, and the rest stays.
  pub record IsExchanged (b b' : Backend) (result : Result (WorkerResponse R)) : Type 0 where
    pub same_running : b'.running ≡ b.running
    pub same_closed : b'.closed ≡ b.closed
    pub same_starts : b'.starts ≡ b.starts
    pub counted : b'.exchanges ≤ b.exchanges + 1
    pub ids : b.next_request_id ≤ b'.next_request_id
    pub on_ok : (r : WorkerResponse R) → result ≡ ok r → IsAnswered b.next_request_id b' r

  -- A result that is an exception, with the counters moved.
  raised-IsExchanged :
      (b b' : Backend) (e : Error)
      → b'.running ≡ b.running
      → b'.closed ≡ b.closed
      → b'.starts ≡ b.starts
      → b'.exchanges ≤ b.exchanges + 1
      → b.next_request_id ≤ b'.next_request_id
      → IsExchanged b b' (raised e)
  raised-IsExchanged b b' e r c s x n = record {
    same_running = r;
    same_closed = c;
    same_starts = s;
    counted = x;
    ids = n;
    on_ok = λ q h. absurd (ground arith);
  }

  sent-IsExchanged :
      (b : Backend) (q : Result Bytes) (o : Outcome R)
      → world.outcome b.exchanges ≡ o
      → let s = record b { exchanges = b.exchanges + 1; next_request_id = b.next_request_id + 1 } in
        let out = (lift q >>= answered world b.next_request_id o) s in IsExchanged b out.1 out.0
  sent-IsExchanged b (raised e) o h =
      raised-IsExchanged b _ e refl refl refl (omega arith) (omega arith)
  sent-IsExchanged b (ok bytes) exited h =
      raised-IsExchanged b _ _ refl refl refl (omega arith) (omega arith)
  sent-IsExchanged b (ok bytes) write_fails h =
      raised-IsExchanged b _ _ refl refl refl (omega arith) (omega arith)
  sent-IsExchanged b (ok bytes) times_out h =
      raised-IsExchanged b _ _ refl refl refl (omega arith) (omega arith)
  sent-IsExchanged b (ok bytes) (delivers m) h = record {
    same_running = refl;
    same_closed = refl;
    same_starts = refl;
    counted = omega arith;
    ids = omega arith;
    on_ok = λ r e.
        let (same, id, success) = checked-IsAnswered b.next_request_id m r e in
        record {
          exchange_number = b.exchanges;
          latest = refl;
          delivered = h ∙ ap delivers same;
          success = success;
          id = omega (arith, id);
          new = omega (arith, id);
        };
  }

  module _ {V : Type 0} (np : Arrays V) where
    requested-IsExchanged :
        (operation : ℕ) (features : List V) (b : Backend) (o : Outcome R)
        → world.outcome b.exchanges ≡ o
        → let out =
            requested world np operation features o (record b { exchanges = b.exchanges + 1 }) in
          IsExchanged b out.1 out.0
    requested-IsExchanged operation features b exited h =
        raised-IsExchanged b _ _ refl refl refl (omega arith) (omega arith)
    requested-IsExchanged operation features b write_fails h =
        sent-IsExchanged b (request np operation b.next_request_id features) write_fails h
    requested-IsExchanged operation features b times_out h =
        sent-IsExchanged b (request np operation b.next_request_id features) times_out h
    requested-IsExchanged operation features b (delivers m) h =
        sent-IsExchanged b (request np operation b.next_request_id features) (delivers m) h

    pub exchange-IsExchanged :
        (operation : ℕ) (features : List V) (b : Backend)
        → IsExchanged b
            (exchange world np operation features b).1
            (exchange world np operation features b).0
    unfolding exchange
    exchange-IsExchanged operation features b = elim (Bool-cases b.running) [
      | inl e ↦
          subst (λ r. let out = if r then asked else down in IsExchanged b out.1 out.0) (sym e)
            (requested-IsExchanged operation features b (world.outcome b.exchanges) refl)
      | inr e ↦
          subst (λ r. let out = if r then asked else down in IsExchanged b out.1 out.0) (sym e)
            (raised-IsExchanged b b _ refl refl refl (omega arith) (omega arith))
    ]
      where
        asked : Result (WorkerResponse R) × Backend
        asked =
            requested world np operation features (world.outcome b.exchanges)
              (record b { exchanges = b.exchanges + 1 })

        down : Result (WorkerResponse R) × Backend
        down = (raised (worker_unavailable "native worker is not running"), b)
