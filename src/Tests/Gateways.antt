-- ===== src/Tests/Gateways.antt =====
-- Runs of src/cuebee_speaker/gateway.py: two sessions, a gap, a retransmission and a new epoch.
use cuebee_speaker_serving.Base.{
  ℕ, ◌≡◌, refl, ◌≢◌, ap, ◌↔◌, false, String, List, [], ◌∷◌, map, some, arith,
}
use cuebee_speaker_serving.Base.Int.{pos}
use cuebee_speaker_serving.Base.Eq.{string_eq, pair_eq}
use cuebee_speaker_serving.Base.Dict.{get, set, pop}
use cuebee_speaker_serving.Domain.{AudioChunk, duplicate}
use cuebee_speaker_serving.Gateway.{Cursor, EventGateway, accept, accept_at, forget}
use cuebee_speaker_serving.Gateway.Gaps.{
  InRange, IsSkipped, accept-missing_iff, accept-missing_duplicate,
}
use cuebee_speaker_serving.Gateway.Trace.{
  Call, accepts, forgets, admissions, IsIncreasing, admissions-IsIncreasing,
}

abbrev packet : String → ℕ → ℕ → AudioChunk
packet session epoch seq = record {
  tenant_id = "t";
  session_id = session;
  client_epoch = epoch;
  seq_no = seq;
  start_ms = pos 0;
  end_ms = pos 100;
  pcm = [];
  sample_rate = 16_000;
  is_final = false;
}

abbrev started : EventGateway
started = (("t", "a"), record { epoch = 1; last_seq = 4 }) ∷ []

jumps : (accept started (packet "a" 1 7)).1.missing_range ≡ some (5, 6)
unfolding accept accept_at get set
jumps = refl

abbrev history : List Call
history =
    accepts (packet "a" 1 5)
    ∷ accepts (packet "a" 1 5)
    ∷ forgets "t" "b"
    ∷ accepts (packet "b" 1 0)
    ∷ accepts (packet "a" 1 8)
    ∷ accepts (packet "a" 1 6)
    ∷ accepts (packet "a" 2 0)
    ∷ []

abbrev pairs : List Cursor → List (ℕ × ℕ)
pairs = map (λ c. (c.epoch, c.last_seq))

history_admits : pairs (admissions ("t", "a") started history) ≡ (1, 5) ∷ (1, 8) ∷ (2, 0) ∷ []
unfolding admissions accept accept_at forget get set pop
history_admits = refl

accept-missing_iff_example :
    InRange (accept started (packet "a" 1 7)).1.missing_range 5
    ↔ IsSkipped (get ("t", "a") started) (packet "a" 1 7) 5
accept-missing_iff_example = accept-missing_iff started (packet "a" 1 7) 5

accept-missing_duplicate_example :
    (accept (accept started (packet "a" 1 7)).0 (packet "a" 1 6)).1.status ≡ duplicate
unfolding accept accept_at get set
accept-missing_duplicate_example =
    accept-missing_duplicate started (packet "a" 1 7) (packet "a" 1 6) refl refl (omega arith)

other_session : ◌≢◌ {A = String × String} ("t", "b") ("t", "a")
other_session = λ e. ground (arith, string_eq.same_iff "b" "a", ap (λ (p : String × String). p.1) e)

admissions-IsIncreasing_example : IsIncreasing (admissions ("t", "a") started history)
admissions-IsIncreasing_example =
    admissions-IsIncreasing ("t", "a") started history (other_session, tt)
