-- ===== src/Tests/Frontends.antt =====
-- Runs of src/cuebee_speaker/audio/frontend.py.
use cuebee_speaker_serving.Base.{ℕ, suc, ◌≡◌, refl, List, [], ◌∷◌, none, arith, length}
use cuebee_speaker_serving.Base.Int.{ℤ, pos}
use cuebee_speaker_serving.Config.{AudioConfig, check_audio}
use cuebee_speaker_serving.Domain.{ok}
use cuebee_speaker_serving.Frontend.{Signal, Stream, windows}
use cuebee_speaker_serving.Frontend.Windows.{IsDone, emit_complete_windows-IsDone, windows-endless}
use cuebee_speaker_serving.Tests.Floats.{milli}

-- Samples are numbers, and every window is speech.
abbrev loud : Signal ℤ ℕ (List ℕ)
loud = record {
  sample = λ low high. low;
  speech_ratio = λ l. pos 1000;
  extract = λ l. l;
  frame_samples = 1;
  round_ratio = λ a b. a;
  truncate = λ x. x;
}

abbrev pub config_of : ℕ → ℕ → ℕ → AudioConfig ℤ
config_of rate window_ms hop_ms = record {
  sample_rate = pos rate;
  frame_ms = pos 30;
  vad_threshold_dbfs = pos 0;
  min_speech_ratio = pos 300;
  window_ms = pos window_ms;
  hop_ms = pos hop_ms;
  fbank_bins = pos 80;
  fbank_frame_ms = pos 25;
  fbank_hop_ms = pos 10;
}

abbrev stream : Stream ℕ
stream = record {
  epoch = 1;
  audio = 1 ∷ 2 ∷ 3 ∷ 4 ∷ 5 ∷ 6 ∷ 7 ∷ [];
  base_ms = pos 100;
  expected_end_ms = pos 107;
  emitted = 0;
}

abbrev pub usual : AudioConfig ℤ
usual = config_of 1000 4 2

emit_complete_windows-IsDone_example : IsDone loud usual (suc (length stream.audio)) "t" "s" stream
emit_complete_windows-IsDone_example =
    emit_complete_windows-IsDone loud usual "t" "s" stream (omega arith) (omega arith)

abbrev finished : IsDone loud usual (suc (length stream.audio)) "t" "s" stream
finished = emit_complete_windows-IsDone loud usual "t" "s" stream (omega arith) (omega arith)

-- One sample a second, and a hop of half a second.
abbrev pub slow : AudioConfig ℤ
slow = config_of 1 1000 500

slow_checked : check_audio slow ≡ ok tt
unfolding check_audio
slow_checked = refl

windows-endless_example : windows loud slow 5 "t" "s" stream ≡ none
windows-endless_example = windows-endless loud slow 5 "t" "s" stream refl (omega arith)
