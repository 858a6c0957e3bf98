-- ===== src/Worker.antt =====
-- src/cuebee_speaker/inference/native_worker.py: the client of the native embedding worker. A call
-- holds the lock, so it is one step. The process and its pipes are the environment: it says of each
-- exchange what comes of it, and of each start whether it succeeds.
pub mod Wire
pub mod Request
pub mod Effects
pub mod Stream
pub mod Answer
pub mod Header
pub mod Codec
pub mod Exchange
pub mod Retry
pub mod Infer
use cuebee_speaker_serving.Base.{
  ℕ, zero, suc, ◌+◌, Bool, true, false, not, String, List, [], ◌∷◌, ◌++◌, arith, if◌then◌else◌,
  ◌==◌,
}
use cuebee_speaker_serving.Base.Int.{ℤ, pos_part}
use cuebee_speaker_serving.Base.Float.{Float}
use cuebee_speaker_serving.Domain.{
  Error, worker_unavailable, worker_execution_error, Result, ok, raised,
}
use Wire.{Bytes, WorkerResponse, Message, response, failure}
use Request.{WorkerConfig, Arrays, check_worker, validate_features, request}
use Effects.{
  Backend, Method, return, raise, lift, modify, on_unavailable, ignore_worker_error, ◌>>=◌, ◌>>◌,
}

-- What comes of an exchange: the process has ended, the write fails, no message comes in time, or the
-- reader puts one into the queue. Each start makes a new queue.
pub data Outcome (R : Type 0) : Type 0 where
  exited write_fails times_out : Outcome R
  delivers : Message R → Outcome R

pub record World (R : Type 0) : Type 0 where
  pub outcome : ℕ → Outcome R
  pub starts : ℕ → Bool

abbrev pub op_infer : ℕ
op_infer = 1

abbrev pub op_ping : ℕ
op_ping = 2

abbrev pub op_shutdown : ℕ
op_shutdown = 3

-- `__init__`, before its process is started.
abbrev pub initial : Backend
initial = record {
  running = false;
  next_request_id = 1;
  closed = false;
  exchanges = 0;
  starts = 0;
  written = [];
}

-- `_stop_process`
abbrev pub stop_process : Method (Unit {0})
stop_process = modify (λ b. record b { running = false })

module _ {R : Type 0} (world : World R) where
  -- `_start_process`
  unfoldable pub start_process : Method (Unit {0})
  start_process b =
      if world.starts b.starts
      then (ok tt, record b { running = true; starts = b.starts + 1 })
      else (
        raised (worker_unavailable "failed to start native worker"),
        record b { starts = b.starts + 1 },
      )

  -- The checks of a message, against the id of the request.
  abbrev pub checked : ℕ → Message R → Result (WorkerResponse R)
  checked request_id (failure e) = raised (worker_unavailable "native worker failed")
  checked request_id (response r) =
      if not (r.request_id == request_id)
      then raised (worker_unavailable "native worker response mismatch")
      else if not (r.status == 0)
      then raised (worker_execution_error "native worker failed with status")
      else ok r

  -- What follows when the bytes of the request are made.
  abbrev pub answered : ℕ → Outcome R → Bytes → Method (WorkerResponse R)
  answered request_id exited bytes b =
      (raised (worker_unavailable "native worker is not running"), b)
  answered request_id write_fails bytes b =
      (raised (worker_unavailable "failed to write native worker request"), b)
  answered request_id times_out bytes b = (
    raised (worker_unavailable "native worker timed out"),
    record b { written = bytes ∷ b.written },
  )
  answered request_id (delivers message) bytes b =
      (checked request_id message, record b { written = bytes ∷ b.written })

  module _ {V : Type 0} (np : Arrays V) where
    -- The part of `_exchange` behind its first test: the id is taken, and the request is made.
    abbrev pub requested : ℕ → List V → Outcome R → Method (WorkerResponse R)
    requested operation features exited b =
        (raised (worker_unavailable "native worker is not running"), b)
    requested operation features outcome b =
        (lift (request np operation b.next_request_id features)
            >>= answered b.next_request_id outcome)
          (record b { next_request_id = b.next_request_id + 1 })

    -- `_exchange`
    unfoldable pub exchange : ℕ → List V → Method (WorkerResponse R)
    exchange operation features b =
        if b.running
        then requested operation features (world.outcome b.exchanges)
            (record b { exchanges = b.exchanges + 1 })
        else (raised (worker_unavailable "native worker is not running"), b)

    -- The loop over the attempts of `infer_batch`, with the restarts that are left.
    unfoldable pub attempts : ℕ → List V → Method (List (R × List R))
    attempts zero features =
        on_unavailable (exchange op_infer features >>= λ r. return r.rows)
          (λ s. stop_process >> raise (worker_unavailable s))
    attempts (suc restarts) features =
        on_unavailable (exchange op_infer features >>= λ r. return r.rows)
          (λ s. stop_process >> (start_process >> attempts restarts features))

    -- The test of `_closed`, under the lock.
    abbrev pub open_attempts : WorkerConfig R → List V → Method (List (R × List R))
    open_attempts c features b =
        if b.closed
        then (raised (worker_unavailable "native worker backend is closed"), b)
        else attempts (pos_part c.restart_attempts) features b

    -- `infer_batch`: a row is a quality and an embedding.
    unfoldable pub infer_batch : WorkerConfig R → List V → Method (List (R × List R))
    infer_batch c [] = return []
    infer_batch c (v ∷ features) = lift (validate_features np c (v ∷ features)) >>= open_attempts c

    -- `close`
    unfoldable pub close : Method (Unit {0})
    close b =
        if b.closed
        then (ok tt, b)
        else (if b.running
              then ignore_worker_error (exchange op_shutdown []) >> stop_process
              else stop_process)
            (record b { closed = true })

    -- `except Exception: stop; raise`
    abbrev or_stop : Result (WorkerResponse R) → Method (Unit {0})
    or_stop (ok r) = return tt
    or_stop (raised e) = stop_process >> raise e

    abbrev pinged : Method (Unit {0})
    pinged b = let (r, b') = exchange op_ping [] b in or_stop r b'

    -- `__init__`
    unfoldable pub init : ⦃float : Float R⦄ → Bool → Bool → WorkerConfig R → Method (Unit {0})
    init is_file is_executable c = do
      lift (check_worker is_file is_executable c)
      start_process
      pinged
