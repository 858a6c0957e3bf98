-- ===== src/Gateway.antt =====
-- src/cuebee_speaker/gateway.py: admission of audio events by epoch and sequence number. The lock
-- makes each call one step.
pub mod Admission
pub mod Trace
pub mod Gaps
use cuebee_speaker_serving.Base.{ℕ, ◌+◌, ◌-◌, String, Option, none, some, ltb, leb, if◌then◌else◌}
use cuebee_speaker_serving.Base.Eq.{string_eq, pair_eq}
use cuebee_speaker_serving.Base.Dict.{Dict, get, set, pop}
use cuebee_speaker_serving.Domain.{
  GatewayStatus, accepted, gap_accepted, duplicate, stale_epoch, GatewayDecision, AudioChunk,
  session_key,
}

-- `_Cursor`
pub record Cursor : Type 0 where
  pub epoch : ℕ
  pub last_seq : ℕ

-- The field `_cursors`.
abbrev pub EventGateway : Type 0
EventGateway = Dict (String × String) Cursor

abbrev decide : GatewayStatus → ℕ → Option (ℕ × ℕ) → GatewayDecision
decide s n m = record { status = s; expected_next_seq = n; missing_range = m }

-- The first branch of `accept`: no cursor yet, or a newer epoch.
abbrev restart : EventGateway → AudioChunk → EventGateway × GatewayDecision
restart g c =
    let missing = if ltb 0 c.seq_no then some (0, c.seq_no - 1) else none in
    let status = if ltb 0 c.seq_no then gap_accepted else accepted in
    (
      set (session_key c) (record { epoch = c.client_epoch; last_seq = c.seq_no }) g,
      decide status (c.seq_no + 1) missing,
    )

-- Its last branch: the epoch of the cursor, and a later number.
abbrev advance : EventGateway → Cursor → AudioChunk → EventGateway × GatewayDecision
advance g cursor c =
    let late = ltb (cursor.last_seq + 1) c.seq_no in
    let missing = if late then some (cursor.last_seq + 1, c.seq_no - 1) else none in
    let status = if late then gap_accepted else accepted in
    (
      set (session_key c) (record cursor { last_seq = c.seq_no }) g,
      decide status (c.seq_no + 1) missing,
    )

-- The body of `accept`, with the result of `self._cursors.get(key)`.
unfoldable pub accept_at :
    EventGateway → AudioChunk → Option Cursor → EventGateway × GatewayDecision
accept_at g c none = restart g c
accept_at g c (some cursor) =
    if ltb cursor.epoch c.client_epoch
    then restart g c
    else if ltb c.client_epoch cursor.epoch
    then (g, decide stale_epoch (cursor.last_seq + 1) none)
    else if leb c.seq_no cursor.last_seq
    then (g, decide duplicate (cursor.last_seq + 1) none)
    else advance g cursor c

-- `EventGateway.accept`
unfoldable pub accept : EventGateway → AudioChunk → EventGateway × GatewayDecision
accept g c = accept_at g c (get (session_key c) g)

-- `EventGateway.forget`
unfoldable pub forget : String → String → EventGateway → EventGateway
forget tenant_id session_id g = pop (tenant_id, session_id) g
