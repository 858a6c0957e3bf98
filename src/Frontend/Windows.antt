-- ===== src/Frontend/Windows.antt =====
-- The loop of `_emit_complete_windows`.
use cuebee_speaker_serving.Base.{
  ℕ, zero, suc, ◌-◌, ◌≤◌, ◌<◌, ◌≡◌, refl, ◌∙◌, false, String, List, [], ◌∷◌, ◌++◌, none, some,
  arith, ltb, length, take, drop, Bool-cases, inl, inr,
}
use cuebee_speaker_serving.Base.Float.{Float}
use cuebee_speaker_serving.Config.{AudioConfig}
use cuebee_speaker_serving.Domain.{FeatureChunk}
use cuebee_speaker_serving.Frontend.{Signal, Stream, samples_in, heard, slid, windows}

length-drop : {A : Type 0} (n : ℕ) (l : List A) → length (drop n l) ≡ length l - n
length-drop zero [] = omega arith
length-drop (suc n) [] = omega arith
length-drop zero (x ∷ l) = omega arith
length-drop (suc n) (x ∷ l) = length-drop n l ∙ omega arith

module _ {R A F : Type 0} ⦃float : Float R⦄ (signal : Signal R A F) (c : AudioConfig R) where
  heard-audio : (t k : String) (s : Stream A) → (heard signal c t k s).0.audio ≡ s.audio
  unfolding heard
  heard-audio t k s =
      elim (Bool-cases (
        float.le c.min_speech_ratio
          (signal.speech_ratio (take (samples_in signal c c.window_ms) s.audio)))) [
            | inl e ↦ rw e
            | inr e ↦ rw e
          ]

  -- The loop is done, and less than a window is left.
  pub record IsDone (rounds : ℕ) (t k : String) (s : Stream A) : Type 0 where
    pub stream : Stream A
    pub emitted : List (FeatureChunk R F)
    pub result : windows signal c rounds t k s ≡ some (stream, emitted)
    pub short : length stream.audio < samples_in signal c c.window_ms

  windows-IsDone :
      (rounds : ℕ) (t k : String) (s : Stream A)
      → 0 < samples_in signal c c.hop_ms
      → 0 < samples_in signal c c.window_ms
      → length s.audio < rounds
      → IsDone rounds t k s
  unfolding windows
  windows-IsDone zero t k s h w l = absurd (omega arith)
  windows-IsDone (suc rounds) t k s h w l =
      elim (Bool-cases (ltb (length s.audio) (samples_in signal c c.window_ms))) [
        | inl e ↦ record { stream = s; emitted = []; result = rw e; short = ground arith }
        | inr e ↦
            let s' = (heard signal c t k s).0 in
            let shorter : length (slid signal c s').audio < rounds =
              rw (length-drop (samples_in signal c c.hop_ms) s'.audio, heard-audio t k s)
                (ground arith) in
            let rest = windows-IsDone rounds t k (slid signal c s') h w shorter in
            record {
              stream = rest.stream;
              emitted = (heard signal c t k s).1 ++ rest.emitted;
              result = rw (e, rest.result);
              short = rest.short;
            }
      ]

  -- Where a hop and a window have a sample at least, one round more than the stream has samples ends
  -- the loop, and less than a window of audio is left.
  pub emit_complete_windows-IsDone :
      (t k : String) (s : Stream A)
      → 0 < samples_in signal c c.hop_ms
      → 0 < samples_in signal c c.window_ms
      → IsDone (suc (length s.audio)) t k s
  emit_complete_windows-IsDone t k s h w =
      windows-IsDone (suc (length s.audio)) t k s h w (omega arith)

  -- Where a hop has no sample and the stream holds a complete window, no number of rounds ends the
  -- loop.
  pub windows-endless :
      (rounds : ℕ) (t k : String) (s : Stream A)
      → samples_in signal c c.hop_ms ≡ 0
      → samples_in signal c c.window_ms ≤ length s.audio
      → windows signal c rounds t k s ≡ none
  unfolding windows
  windows-endless zero t k s h w = refl
  windows-endless (suc rounds) t k s h w =
      let s' = (heard signal c t k s).0 in
      let full : ltb (length s.audio) (samples_in signal c c.window_ms) ≡ false = ground arith in
      let same : length (slid signal c s').audio ≡ length s.audio =
        rw (length-drop (samples_in signal c c.hop_ms) s'.audio, heard-audio t k s) (omega arith) in
      let rest = windows-endless rounds t k (slid signal c s') h (omega arith) in rw (full, rest)
