-- ===== src/Batcher/Close.antt =====
-- What `close` leaves of the batcher.
use cuebee_speaker_serving.Base.{
  ℕ, zero, suc, ◌<◌, ◌≡◌, refl, sym, ap, ◌∙◌, subst, Bool, true, false, List, arith, not, ◌&&◌,
  Option, some, length, if◌then◌else◌,
}
use cuebee_speaker_serving.Base.Float.{Float}
use cuebee_speaker_serving.Batcher.{Batcher, QueuedRequest}
use cuebee_speaker_serving.Batcher.Run.{
  Round, Runner, Step, waits, ends, sleeps, executes, fails, items_of, execute, run_step, run,
  close, close_after,
}
use cuebee_speaker_serving.Config.{BatcherConfig, check_batcher}
use cuebee_speaker_serving.Domain.{Result, ok, raised}
use cuebee_speaker_serving.Batcher.Reach.{Reachable, Reachable-IsBatcher}
use cuebee_speaker_serving.Batcher.Drain.{IsClosing, IsDrained, run-IsDrained}

-- Whether a call returned.
abbrev pub has_returned : Result (Unit {0}) → Bool
has_returned (raised e) = false
has_returned (ok u) = true

module _ {R V : Type 0} ⦃float : Float R⦄ where
  -- The runner neither closes the backend nor changes what it is.
  record IsKept (s s' : Runner R V) : Type 0 where
    closed : s'.backend_closed ≡ s.backend_closed
    closes : s'.backend_closes ≡ s.backend_closes
    has_close : s'.has_close ≡ s.has_close

  execute-IsKept :
      (s s' : Runner R V) (round : Round R V) (b' : Batcher R V) (k : ℕ)
      (batch : List (QueuedRequest R V))
      → IsKept (execute (record s { batcher = b' }) round k batch) s'
      → IsKept s s'
  unfolding execute
  execute-IsKept s s' round b' k batch h = record {
    closed = h.closed;
    closes = h.closes;
    has_close = h.has_close;
  }

  run-IsKept : (n : ℕ) (rounds : ℕ → Round R V) (s : Runner R V) → IsKept s (run n rounds s).1
  unfolding run
  run-IsKept zero rounds s = record { closed = refl; closes = refl; has_close = refl }
  run-IsKept (suc n) rounds s = go (run_step s.batcher (rounds n)) (λ s'. run-IsKept n rounds s')
    where
      go :
          (step : Step R V)
          → ((s' : Runner R V) → IsKept s' (run n rounds s').1)
          → IsKept s
              (elim step as (λ _. Bool × Runner R V) [
                | waits ↦ (false, s)
                | ends ↦ (true, s)
                | sleeps time ↦ (false, s)
                | executes b bucket batch ↦
                    run n rounds (execute (record s { batcher = b }) (rounds n) bucket batch)
                | fails e ↦ (false, s)
              ]).1
      go waits later = record { closed = refl; closes = refl; has_close = refl }
      go ends later = record { closed = refl; closes = refl; has_close = refl }
      go (sleeps time) later = record { closed = refl; closes = refl; has_close = refl }
      go (executes b k batch) later =
          execute-IsKept s _ (rounds n) b k batch
            (later (execute (record s { batcher = b }) (rounds n) k batch))
      go (fails e) later = record { closed = refl; closes = refl; has_close = refl }

  -- Whether `close` calls the backend's `close`.
  abbrev pub calls_close : Runner R V → Bool
  calls_close s = not s.backend_closed && s.has_close

  -- What `close` of a batcher with a runner gives and leaves, where the backend's `close` gives or
  -- raises `told`.
  pub record IsClosed (s : Runner R V) (told : Result (Unit {0}))
      (out : Option (Result (Unit {0})) × Runner R V) : Type 0 where
    pub drained : IsDrained s (true, out.1)
    pub result : out.0 ≡ some (if calls_close s then told else ok tt)
    pub backend_closed : out.1.backend_closed ≡ (if calls_close s then has_returned told else true)
    pub closed_once :
        out.1.backend_closes ≡ (if calls_close s then suc s.backend_closes else s.backend_closes)

  drained-IsClosed :
      (s : Runner R V) (told : Result (Unit {0})) (out : Bool × Runner R V)
      → IsDrained s out
      → IsKept s out.1
      → IsClosed s told (close_after told out)
  drained-IsClosed s told (false, s') d k = let no : false ≡ true = d.ended in absurd (ground arith)
  drained-IsClosed s told (true, s') d k = go s.backend_closed s.has_close told refl refl
    where
      go :
          (closed has : Bool) (told : Result (Unit {0}))
          → s.backend_closed ≡ closed
          → s.has_close ≡ has
          → IsClosed s told (close_after told (true, s'))
      go true has told e f =
          rw (k.closed ∙ e, e)
            (record {
              drained = record {
                ended = refl;
                emptied = d.emptied;
                once = d.once;
                futures = d.futures;
              };
              result = refl;
              backend_closed = refl;
              closed_once = k.closes;
            })
      go false false told e f =
          rw (k.closed ∙ e, e, k.has_close ∙ f, f)
            (record {
              drained = record {
                ended = refl;
                emptied = d.emptied;
                once = d.once;
                futures = d.futures;
              };
              result = refl;
              backend_closed = refl;
              closed_once = k.closes;
            })
      go false true (raised x) e f =
          rw (k.closed ∙ e, e, k.has_close ∙ f, f)
            (record {
              drained = record {
                ended = refl;
                emptied = d.emptied;
                once = d.once;
                futures = d.futures;
              };
              result = refl;
              backend_closed = refl;
              closed_once = ap suc k.closes;
            })
      go false true (ok u) e f =
          rw (k.closed ∙ e, e, k.has_close ∙ f, f)
            (record {
              drained = record {
                ended = refl;
                emptied = d.emptied;
                once = d.once;
                futures = d.futures;
              };
              result = refl;
              backend_closed = refl;
              closed_once = ap suc k.closes;
            })

  Reachable-IsClosing :
      (c : BatcherConfig) (b : Batcher R V)
      → check_batcher c ≡ ok tt
      → Reachable c b
      → IsClosing (record b { closing = true })
  Reachable-IsClosing c b v r =
      let h = Reachable-IsBatcher c b v r in
      record {
        closing = refl;
        valid = subst (λ c. check_batcher c ≡ ok tt) (sym h.configured) v;
        dict = h.dict;
        distinct = h.distinct;
      }

  -- `close` of a batcher with a runner, that submissions and batches taken led to under a valid
  -- configuration, with more rounds than requests wait: whatever the clock and the backend give, the
  -- runner returns, no request waits, the backend was given each request that waited exactly once,
  -- their pending futures have results for their chunks or exceptions, and no other future is changed.
  -- The `close` of the backend is called once, where it has one and is not closed, and not otherwise;
  -- what it raises is raised, and the backend then does not count as closed.
  pub close-IsClosed :
      (n : ℕ) (rounds : ℕ → Round R V) (told : Result (Unit {0})) (s : Runner R V)
      (c : BatcherConfig)
      → check_batcher c ≡ ok tt
      → Reachable c s.batcher
      → s.started ≡ true
      → length (items_of s.batcher.queues) < n
      → IsClosed s told (close n rounds told s)
  unfolding close
  close-IsClosed n rounds told s c v reached r m =
      let s' = record s { batcher = record s.batcher { closing = true } } in
      let d = run-IsDrained n rounds s' (Reachable-IsClosing c s.batcher v reached) m in
      let k = run-IsKept n rounds s' in
      subst
        (λ started.
          IsClosed s told (close_after told (if started then run n rounds s' else (true, s'))))
        (sym r)
        (drained-IsClosed s told (run n rounds s')
          (record { ended = d.ended; emptied = d.emptied; once = d.once; futures = d.futures })
          (record { closed = k.closed; closes = k.closes; has_close = k.has_close }))
