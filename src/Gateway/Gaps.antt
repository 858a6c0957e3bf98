-- ===== src/Gateway/Gaps.antt =====
-- The gaps that `EventGateway.accept` reports, and what becomes of a late retransmission.
use cuebee_speaker_serving.Base.{ℕ, ◌≤◌, ◌<◌, ◌≡◌, ◌↔◌, Option, none, some, arith}
use cuebee_speaker_serving.Base.Eq.{string_eq, pair_eq}
use cuebee_speaker_serving.Base.Dict.{get, set, get-set_self}
use cuebee_speaker_serving.Domain.{duplicate, AudioChunk, session_key}
use cuebee_speaker_serving.Gateway.{Cursor, EventGateway, accept, accept_at}
use cuebee_speaker_serving.Gateway.Admission.{cursor_of, IsNewer}

abbrev pub InRange : Option (ℕ × ℕ) → ℕ → Type 0
InRange none n = ⊥
InRange (some (a, b)) n = (a ≤ n) × (n ≤ b)

-- Before the event's number, and not yet passed by the cursor.
abbrev pub IsSkipped : Option Cursor → AudioChunk → ℕ → Type 0
IsSkipped o c n = (n < c.seq_no) × IsNewer o (record { epoch = c.client_epoch; last_seq = n })

accept_at-reports :
    (g : EventGateway) (c : AudioChunk) (o : Option Cursor) (n : ℕ)
    → InRange (accept_at g c o).1.missing_range n
    → IsSkipped o c n
unfolding accept_at
accept_at-reports g c none n h = ground arith
accept_at-reports g c (some cursor) n h = ground arith

accept_at-covers :
    (g : EventGateway) (c : AudioChunk) (o : Option Cursor) (n : ℕ)
    → IsSkipped o c n
    → InRange (accept_at g c o).1.missing_range n
unfolding accept_at
accept_at-covers g c none n h = ground arith
accept_at-covers g c (some cursor) n h = ground arith

-- The reported range holds exactly the skipped numbers: those before the number of the event that
-- come after the cursor of the session in the event's epoch. On a refusal there are none.
pub accept-missing_iff :
    (g : EventGateway) (c : AudioChunk) (n : ℕ)
    → InRange (accept g c).1.missing_range n ↔ IsSkipped (get (session_key c) g) c n
unfolding accept
accept-missing_iff g c n = (
  accept_at-reports g c (get (session_key c) g) n,
  accept_at-covers g c (get (session_key c) g) n,
)

reported-passed :
    (g : EventGateway) (c : AudioChunk) (o : Option Cursor) (n : ℕ)
    → InRange (accept_at g c o).1.missing_range n
    → ((accept_at g c o).0 ≡ set (session_key c) (cursor_of c) g) × (n < c.seq_no)
unfolding accept_at
reported-passed g c none n h = ground arith
reported-passed g c (some cursor) n h = ground arith

accept_at-old :
    (g : EventGateway) (c late : AudioChunk)
    → late.client_epoch ≡ c.client_epoch
    → late.seq_no < c.seq_no
    → (accept_at g late (some (cursor_of c))).1.status ≡ duplicate
unfolding accept_at
accept_at-old g c late e h = ground arith

-- A retransmission of a number in a reported range, in the same session and epoch, is then
-- judged a duplicate.
pub accept-missing_duplicate :
    (g : EventGateway) (c late : AudioChunk)
    → session_key late ≡ session_key c
    → late.client_epoch ≡ c.client_epoch
    → InRange (accept g c).1.missing_range late.seq_no
    → (accept (accept g c).0 late).1.status ≡ duplicate
unfolding accept
accept-missing_duplicate g c late k e h =
    let (state, passed) = reported-passed g c (get (session_key c) g) late.seq_no h in
    rw (state, k, get-set_self (session_key c) (cursor_of c) g) (accept_at-old _ c late e passed)
