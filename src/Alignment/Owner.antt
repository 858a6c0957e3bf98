-- ===== src/Alignment/Owner.antt =====
-- Whose spans an alignment returns.
use cuebee_speaker_serving.Base.{ℕ, ◌≡◌, refl, Bool, List, [], ◌∷◌}
use cuebee_speaker_serving.Base.Keep.{All, keep}
use cuebee_speaker_serving.Base.Float.{Float}
use cuebee_speaker_serving.Domain.{
  AttributedTranscriptSpan, SpeakerSegment, SttSegment, SttWord, Result, ok, raised, ◌>>=◌,
  Returning, Returning->>=,
}
use cuebee_speaker_serving.Alignment.{
  join_words, spans, span_of, last_word_end, group_words, assign_words, is_compatible, align,
  align_compatible,
}

-- The span is of the segment's tenant and session.
abbrev pub IsSpanOf : SttSegment → AttributedTranscriptSpan → Type 0
IsSpanOf stt s = (s.tenant_id ≡ stt.tenant_id) × (s.session_id ≡ stt.session_id)

module _ (is_space : ℕ → Bool) (stt : SttSegment) where
  spans-IsSpanOf :
      (groups : List (List ℕ × List SttWord))
      → Returning (All (IsSpanOf stt)) (spans is_space stt groups)
  unfolding spans
  spans-IsSpanOf [] = tt
  spans-IsSpanOf ((speaker, []) ∷ groups) = tt
  spans-IsSpanOf ((speaker, w ∷ words) ∷ groups) =
      Returning->>= (All (IsSpanOf stt)) (join_words is_space [] (w ∷ words)) from_text
        (λ text. later text (spans is_space stt groups) (spans-IsSpanOf groups))
    where
      from_text : List ℕ → Result (List AttributedTranscriptSpan)
      from_text text = spans is_space stt groups >>= λ rest.
          ok (span_of stt speaker text w.start_ms (last_word_end w words) ∷ rest)

      later :
          (text : List ℕ) (r : Result (List AttributedTranscriptSpan))
          → Returning (All (IsSpanOf stt)) r
          → Returning (All (IsSpanOf stt)) (
              r >>= λ rest. ok (span_of stt speaker text w.start_ms (last_word_end w words) ∷ rest))
      later text (raised e) h = tt
      later text (ok rest) h = ((refl, refl), h)

  module _ {R : Type 0} ⦃float : Float R⦄ where
    align_compatible-IsSpanOf :
        (compatible : List (SpeakerSegment R)) (words : List SttWord)
        → Returning (All (IsSpanOf stt)) (align_compatible is_space stt compatible words)
    unfolding align_compatible
    align_compatible-IsSpanOf compatible [] = ((refl, refl), tt)
    align_compatible-IsSpanOf compatible (w ∷ words) =
        spans-IsSpanOf (group_words [] (assign_words compatible (w ∷ words)))

    -- What an alignment returns is of the segment's tenant and session.
    pub align-IsSpanOf :
        (speakers : List (SpeakerSegment R))
        → Returning (All (IsSpanOf stt)) (align is_space stt speakers)
    unfolding align
    align-IsSpanOf speakers =
        align_compatible-IsSpanOf (keep (is_compatible stt) speakers) stt.words
