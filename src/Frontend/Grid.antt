-- ===== src/Frontend/Grid.antt =====
-- What the loop of `_emit_complete_windows` makes of the audio of a stream.
use cuebee_speaker_serving.Base.{
  ℕ, zero, suc, ◌+◌, ◌*◌, ◌<◌, ◌≡◌, String, List, [], ◌∷◌, length, take, drop, if◌then◌else◌,
}
use cuebee_speaker_serving.Base.Int.{ℤ, ◌+ℤ◌}
use cuebee_speaker_serving.Base.Float.{Float}
use cuebee_speaker_serving.Config.{AudioConfig}
use cuebee_speaker_serving.Domain.{FeatureChunk}
use cuebee_speaker_serving.Frontend.{Signal, Stream, samples_in, feature_chunk}

-- The start of the window `i` hops after `base_ms`.
unfoldable pub start_after : ℤ → ℤ → ℕ → ℤ
start_after base_ms hop_ms zero = base_ms
start_after base_ms hop_ms (suc i) = start_after (base_ms +ℤ hop_ms) hop_ms i

module _ {R A F : Type 0} ⦃float : Float R⦄ (signal : Signal R A F) (c : AudioConfig R)
    (t k : String) where
  -- The audio of the window `i` hops after the start of the stream.
  abbrev window_at : Stream A → ℕ → List A
  window_at s i =
      take (samples_in signal c c.window_ms) (drop (i * samples_in signal c c.hop_ms) s.audio)

  -- The chunks of the `n` windows from the one with the index `i` on, where `count` chunks were made
  -- before: one of each that is speech, of its own audio and times.
  unfoldable pub grid : Stream A → ℕ → ℕ → ℕ → List (FeatureChunk R F)
  grid s i zero count = []
  grid s i (suc n) count =
      let ratio = signal.speech_ratio (window_at s i) in
      let start_ms = start_after s.base_ms c.hop_ms i in
      let rest =
        grid s (suc i) n (if float.le c.min_speech_ratio ratio then count + 1 else count) in
      if float.le c.min_speech_ratio ratio
      then feature_chunk signal c t k (record s { emitted = count }) start_ms
          (start_ms +ℤ c.window_ms) (window_at s i) ratio
        ∷ rest
      else rest

  -- The loop took so many windows, one hop after the other, until less than a window was left, and
  -- made the chunks of those that are speech.
  pub record IsOnGrid (s s' : Stream A) (emitted : List (FeatureChunk R F)) : Type 0 where
    pub taken : ℕ
    pub chunks : emitted ≡ grid s 0 taken s.emitted
    pub audio : s'.audio ≡ drop (taken * samples_in signal c c.hop_ms) s.audio
    pub base_ms : s'.base_ms ≡ start_after s.base_ms c.hop_ms taken
    pub short : length s'.audio < samples_in signal c c.window_ms
