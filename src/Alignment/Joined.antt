-- ===== src/Alignment/Joined.antt =====
-- The joining of words never raises where each word has a text.
use cuebee_speaker_serving.Base.{
  ℕ, ◌≡◌, refl, ◌≢◌, Bool, ◌||◌, List, [], ◌∷◌, ◌++◌, Bool-cases, inl, inr,
}
use cuebee_speaker_serving.Base.Keep.{All, All-append, keep}
use cuebee_speaker_serving.Base.Float.{Float}
use cuebee_speaker_serving.Base.Eq.{text_same}
use cuebee_speaker_serving.Domain.{
  SpeakerSegment, SttSegment, SttWord, AttributedTranscriptSpan, Result, ok,
}
use cuebee_speaker_serving.Alignment.{
  no_leading_space, member, last_code, is_cjk, join_word, join_words, spans, add_word, group_words,
  assign_words, is_compatible, span_of, last_word_end, best_speaker, align, align_compatible,
}
use cuebee_speaker_serving.Alignment.Aligner.{IsFilled, group_words-IsFilled}

-- Each word has a text.
abbrev pub HaveText : List SttWord → Type 0
HaveText = All (λ w. w.text ≢ [])

abbrev Returns : {A : Type 0} → Result A → Type 0
Returns {A} r = (a : A) × (r ≡ ok a)

module _ (is_space : ℕ → Bool) where
  join_word-Returns : (text value : List ℕ) → value ≢ [] → Returns (join_word is_space text value)
  unfolding join_word
  join_word-Returns text [] h = absurd (h refl)
  join_word-Returns [] (v ∷ value) h = (v ∷ value, refl)
  join_word-Returns (c ∷ text) (v ∷ value) h =
      elim (Bool-cases (member v no_leading_space || is_space (last_code c text))) [
        | inl e ↦ ((c ∷ text) ++ (v ∷ value), rw e)
        | inr e ↦ elim (Bool-cases (is_cjk (last_code c text) || is_cjk v)) [
          | inl f ↦ ((c ∷ text) ++ (v ∷ value), rw (e, f))
          | inr f ↦ ((c ∷ text) ++ (32 ∷ v ∷ value), rw (e, f))
        ]
      ]

  join_words-Returns :
      (text : List ℕ) (words : List SttWord)
      → HaveText words
      → Returns (join_words is_space text words)
  unfolding join_words
  join_words-Returns text [] h = (text, refl)
  join_words-Returns text (w ∷ words) h =
      let (joined, e) = join_word-Returns text w.text h.0 in
      let (whole, f) = join_words-Returns joined words h.1 in (whole, rw (e, f))

  spans-Returns :
      (stt : SttSegment) (groups : List (List ℕ × List SttWord))
      → IsFilled groups
      → All (λ g. HaveText g.1) groups
      → Returns (spans is_space stt groups)
  unfolding spans
  spans-Returns stt [] f h = ([], refl)
  spans-Returns stt ((speaker, []) ∷ groups) f h = absurd (f.0 refl)
  spans-Returns stt ((speaker, w ∷ words) ∷ groups) f h =
      let (text, e) = join_words-Returns [] (w ∷ words) h.0 in
      let (rest, g) = spans-Returns stt groups f.1 h.1 in
      (span_of stt speaker text w.start_ms (last_word_end w words) ∷ rest, rw (e, g))

add_word-HaveText :
    (groups : List (List ℕ × List SttWord)) (w : SttWord) (speaker : List ℕ)
    → w.text ≢ []
    → All (λ g. HaveText g.1) groups
    → All (λ g. HaveText g.1) (add_word groups w speaker)
unfolding add_word
add_word-HaveText [] w speaker n h = ((n, tt), tt)
add_word-HaveText ((s, words) ∷ []) w speaker n h = elim (Bool-cases (text_same s speaker)) [
  | inl e ↦ rw e (All-append (λ v. v.text ≢ []) words (w ∷ []) h.0 (n, tt), tt)
  | inr e ↦ rw e (h.0, ((n, tt), tt))
]
add_word-HaveText (g ∷ g' ∷ groups) w speaker n h =
    (h.0, add_word-HaveText (g' ∷ groups) w speaker n h.1)

module _ {R : Type 0} ⦃float : Float R⦄ where
  assigned-HaveText :
      (groups : List (List ℕ × List SttWord)) (compatible : List (SpeakerSegment R))
      (words : List SttWord)
      → HaveText words
      → All (λ g. HaveText g.1) groups
      → All (λ g. HaveText g.1) (group_words groups (assign_words compatible words))
  unfolding group_words
  assigned-HaveText groups compatible [] h k = k
  assigned-HaveText groups compatible (w ∷ words) h k =
      let speaker = best_speaker w.start_ms w.end_ms compatible in
      assigned-HaveText (add_word groups w speaker) compatible words h.1
        (add_word-HaveText groups w speaker h.0 k)

  align_compatible-Returns :
      (is_space : ℕ → Bool) (stt : SttSegment) (compatible : List (SpeakerSegment R))
      (words : List SttWord)
      → HaveText words
      → Returns (align_compatible is_space stt compatible words)
  unfolding align_compatible
  align_compatible-Returns is_space stt compatible [] h = (
    span_of stt (best_speaker stt.start_ms stt.end_ms compatible) stt.text stt.start_ms stt.end_ms
        ∷ [],
    refl,
  )
  align_compatible-Returns is_space stt compatible (w ∷ words) h =
      spans-Returns is_space stt (group_words [] (assign_words compatible (w ∷ words)))
        (group_words-IsFilled [] (assign_words compatible (w ∷ words)) tt)
        (assigned-HaveText [] compatible (w ∷ words) h tt)

  -- Where each word of the segment has a text, the alignment returns: neither an empty group nor an
  -- empty value is indexed.
  pub align-Returns :
      (is_space : ℕ → Bool) (stt : SttSegment) (speakers : List (SpeakerSegment R))
      → HaveText stt.words
      → (spans : List AttributedTranscriptSpan) × (align is_space stt speakers ≡ ok spans)
  unfolding align
  align-Returns is_space stt speakers h =
      align_compatible-Returns is_space stt (keep (is_compatible stt) speakers) stt.words h
