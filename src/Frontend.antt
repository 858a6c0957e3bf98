-- ===== src/Frontend.antt =====
-- src/cuebee_speaker/audio/frontend.py: the windows of a stream. The voice detector and the filter
-- bank are numeric code, of which the frontend uses a ratio and the features; they are parameters.
pub mod Windows
pub mod Grid
pub mod Owner
use cuebee_speaker_serving.Base.{
  ℕ, zero, suc, ◌+◌, ◌-◌, ◌*◌, ◌/◌, ◌%◌, Bool, true, false, not, ◌||◌, String, List, [], ◌∷◌, ◌++◌,
  Option, none, some, arith, ltb, leb, length, take, drop, replicate, if◌then◌else◌, ◌==◌,
}
use cuebee_speaker_serving.Base.Int.{ℤ, pos, pos_part, ltb_ℤ, ◌+ℤ◌, ◌-ℤ◌, ◌*ℤ◌, max_ℤ, abs}
use cuebee_speaker_serving.Base.Eq.{string_eq, pair_eq}
use cuebee_speaker_serving.Base.Dict.{Dict, get, set, pop}
use cuebee_speaker_serving.Base.Float.{Float}
use cuebee_speaker_serving.Base.Text.{codes}
use cuebee_speaker_serving.Config.{AudioConfig}
use cuebee_speaker_serving.Domain.{
  AudioChunk, FeatureChunk, duration_ms, Result, ok, raised, ◌>>=◌, ◌>>◌, refuse_if,
}
use cuebee_speaker_serving.Store.SpeakerId.{digits}

-- What the frontend takes from its parts and from Python's arithmetic.
pub record Signal (R A F : Type 0) : Type 0 where
  -- The sample of a signed 16-bit word: its value / 32768.
  pub sample : ℕ → ℕ → A
  -- `EnergyVAD.analyze(s).speech_ratio`
  pub speech_ratio : List A → R
  -- `LogMelFbank.extract`, and its `frame_samples`
  pub extract : List A → F
  pub frame_samples : ℕ
  -- `round(a / b)` on integers, and `int(x)`
  pub round_ratio : ℤ → ℤ → ℤ
  pub truncate : R → ℤ

-- `_StreamState`
pub record Stream (A : Type 0) : Type 0 where
  pub epoch : ℕ
  pub audio : List A
  pub base_ms : ℤ
  pub expected_end_ms : ℤ
  pub emitted : ℕ

-- `_states`
abbrev pub Streams : Type 0 → Type 0
Streams A = Dict (String × String) (Stream A)

-- `f"{tenant_id}:{session_id}:{epoch}:{emitted:08d}"`
unfoldable pub chunk_name : String → String → ℕ → ℕ → List ℕ
chunk_name tenant_id session_id epoch emitted =
    let d = digits (suc emitted) emitted in
    codes tenant_id
    ++ codes ":"
    ++ codes session_id
    ++ codes ":"
    ++ digits (suc epoch) epoch
    ++ codes ":"
    ++ replicate (8 - length d) 48
    ++ d

module _ {R A F : Type 0} ⦃float : Float R⦄ (signal : Signal R A F) where
  open float use {lt, le, decimal, mul, of_int}

  -- `pcm16le_to_float32`, word by word; the low byte is first.
  unfoldable pub samples : List ℕ → List A
  samples [] = []
  samples (low ∷ []) = []
  samples (low ∷ high ∷ payload) = signal.sample low high ∷ samples payload

  unfoldable pub decoded : List ℕ → Result (List A)
  decoded payload = do
    refuse_if (not (length payload % 2 == 0))
        "PCM signed 16-bit payload must contain complete samples"
    ok (samples payload)

  module _ (c : AudioConfig R) where
    -- `_window_samples` and `_hop_samples`: the rate and the times of a checked configuration are
    -- positive.
    abbrev pub samples_in : ℤ → ℕ
    samples_in ms = pos_part c.sample_rate * pos_part ms / 1000

    -- `_make_feature_chunk`
    abbrev pub feature_chunk : String → String → Stream A → ℤ → ℤ → List A → R → FeatureChunk R F
    feature_chunk tenant_id session_id s start_ms end_ms audio ratio = record {
      tenant_id = tenant_id;
      session_id = session_id;
      chunk_id = chunk_name tenant_id session_id s.epoch s.emitted;
      start_ms = start_ms;
      end_ms = end_ms;
      features = signal.extract audio;
      speech_ratio = ratio;
    }

    -- The window at the start of the audio, if it is speech, and the count of the chunks made.
    unfoldable pub heard : String → String → Stream A → Stream A × List (FeatureChunk R F)
    heard tenant_id session_id s =
        let window = take (samples_in c.window_ms) s.audio in
        let ratio = signal.speech_ratio window in
        if le c.min_speech_ratio ratio
        then (
          record s { emitted = s.emitted + 1 },
          feature_chunk tenant_id session_id s s.base_ms (s.base_ms +ℤ c.window_ms) window ratio
              ∷ [],
        )
        else (s, [])

    -- The hop.
    abbrev pub slid : Stream A → Stream A
    slid s = record s {
      audio = drop (samples_in c.hop_ms) s.audio;
      base_ms = s.base_ms +ℤ c.hop_ms;
    }

    abbrev pub prepended :
        List (FeatureChunk R F)
        → Option (Stream A × List (FeatureChunk R F))
        → Option (Stream A × List (FeatureChunk R F))
    prepended emitted none = none
    prepended emitted (some (s, rest)) = some (s, emitted ++ rest)

    -- The loop of `_emit_complete_windows` in at most that many rounds; `none` if it is not done.
    unfoldable pub windows :
        ℕ → String → String → Stream A → Option (Stream A × List (FeatureChunk R F))
    windows zero tenant_id session_id s = none
    windows (suc rounds) tenant_id session_id s =
        let (s', emitted) = heard tenant_id session_id s in
        let rest = windows rounds tenant_id session_id (slid s') in
        if ltb (length s.audio) (samples_in c.window_ms)
        then some (s, [])
        else prepended emitted rest

    -- `_emit_complete_windows`
    unfoldable pub emit_complete_windows :
        String → String → Stream A → Option (Stream A × List (FeatureChunk R F))
    emit_complete_windows tenant_id session_id s =
        windows (suc (length s.audio)) tenant_id session_id s

    abbrev pub fresh : AudioChunk → Stream A
    fresh chunk = record {
      epoch = chunk.client_epoch;
      audio = [];
      base_ms = chunk.start_ms;
      expected_end_ms = chunk.start_ms;
      emitted = 0;
    }

    -- The state of the session, or a new one where there is none or its epoch differs.
    abbrev pub current : AudioChunk → Option (Stream A) → Stream A
    current chunk none = fresh chunk
    current chunk (some s) = if s.epoch == chunk.client_epoch then s else fresh chunk

    -- The checks of `push`; the samples of the chunk.
    unfoldable pub received : AudioChunk → Result (List A)
    received chunk = do
      refuse_if (not (chunk.sample_rate == pos_part c.sample_rate))
          "sample-rate conversion is not implicit"
      audio ← decoded chunk.pcm
      refuse_if
          (let expected =
              signal.round_ratio (duration_ms chunk *ℤ pos chunk.sample_rate) (pos 1000) in
            let tolerance = max_ℤ (pos 2) (signal.truncate (mul (of_int expected) (decimal 2 2))) in
            ltb_ℤ tolerance (abs (pos (length audio) -ℤ expected)))
          "PCM payload duration disagrees with the timestamp range"
      ok audio

    -- The stream with the samples behind its audio.
    abbrev pub appended : AudioChunk → List A → Stream A → Stream A
    appended chunk audio s = record s {
      audio = s.audio ++ audio;
      expected_end_ms = max_ℤ s.expected_end_ms chunk.end_ms;
    }

    -- The branches of `push` on the gap: `none` where the overlap takes every sample.
    unfoldable pub joined : AudioChunk → List A → Stream A → Option (Stream A)
    joined chunk audio s =
        let gap_ms = chunk.start_ms -ℤ s.expected_end_ms in
        let overlap =
          pos_part (signal.round_ratio ((pos 0 -ℤ gap_ms) *ℤ c.sample_rate) (pos 1000)) in
        if ltb_ℤ c.frame_ms gap_ms
        then some (appended chunk audio (record s { audio = []; base_ms = chunk.start_ms }))
        else if ltb_ℤ gap_ms (pos 0)
        then (if leb (length audio) overlap
            then none
            else some (appended chunk (drop overlap audio) s))
        else some (appended chunk audio s)

    abbrev pub kept_in :
        Streams A
        → AudioChunk
        → Option (Stream A × List (FeatureChunk R F))
        → Option (Streams A × List (FeatureChunk R F))
    kept_in streams chunk none = none
    kept_in streams chunk (some (s, emitted)) =
        some (set (chunk.tenant_id, chunk.session_id) s streams, emitted)

    abbrev pub pushed :
        Streams A → AudioChunk → Option (Stream A) → Option (Streams A × List (FeatureChunk R F))
    pushed streams chunk none = some (streams, [])
    pushed streams chunk (some s) =
        kept_in streams chunk (emit_complete_windows chunk.tenant_id chunk.session_id s)

    -- `push`; `none` where the loop over the windows does not end.
    unfoldable pub push :
        Streams A → AudioChunk → Result (Option (Streams A × List (FeatureChunk R F)))
    push streams chunk = do
      audio ← received chunk
      ok (
          pushed streams chunk
            (joined chunk audio (current chunk (get (chunk.tenant_id, chunk.session_id) streams))))

    -- The rest of the audio of a stream, if it is long enough and speech.
    unfoldable pub last_chunk : String → String → Option (Stream A) → List (FeatureChunk R F)
    last_chunk tenant_id session_id none = []
    last_chunk tenant_id session_id (some s) =
        let least = samples_in (pos 300) in
        let minimum = if ltb signal.frame_samples least then least else signal.frame_samples in
        let ratio = signal.speech_ratio s.audio in
        let duration = signal.round_ratio (pos (length s.audio * 1000)) c.sample_rate in
        if ltb (length s.audio) minimum
        then []
        else if lt ratio c.min_speech_ratio
        then []
        else feature_chunk tenant_id session_id s s.base_ms (s.base_ms +ℤ duration) s.audio ratio
          ∷ []

    -- `flush`
    unfoldable pub flush : Streams A → String → String → Streams A × List (FeatureChunk R F)
    flush streams tenant_id session_id = (
      pop (tenant_id, session_id) streams,
      last_chunk tenant_id session_id (get (tenant_id, session_id) streams),
    )

-- `forget`
unfoldable pub forget : {A : Type 0} → Streams A → String → String → Streams A
forget streams tenant_id session_id = pop (tenant_id, session_id) streams
