-- ===== src/Alignment/Aligner.antt =====
-- `TimelineAligner`: the choice of a speaker, and the grouping of the words.
use mathlib.Core.List.{append_assoc, append-nil}
use cuebee_speaker_serving.Base.{
  ℕ, ◌≡◌, refl, sym, subst, ap, ◌∙◌, ◌≢◌, ◌⊎◌, inl, inr, Bool, false, List, [], ◌∷◌, ◌++◌, map,
  arith, Bool-cases,
}
use cuebee_speaker_serving.Base.Int.{ℤ, pos, ltb_ℤ, ◌≤ℤ◌, ◌<ℤ◌}
use cuebee_speaker_serving.Base.Eq.{text_same, text_same_iff, int_eq, string_eq}
use cuebee_speaker_serving.Base.Keep.{All, All-map, In, here}
use cuebee_speaker_serving.Base.Float.{Float, IsOrdered}
use cuebee_speaker_serving.Base.Sort.{
  sorted, sorted-IsSorted, sorted-All, IsSorted, NoneBefore, IsStrictWeak, lex, lex-IsStrictWeak,
  sorted-In,
}
use cuebee_speaker_serving.Domain.{SpeakerSegment, SttWord}
use cuebee_speaker_serving.Alignment.{
  overlap_ms, best_speaker, first_speaker, ranks_before, unknown, add_word, group_words,
}

abbrev pub said : List ℕ → List SttWord → List (SttWord × List ℕ)
said speaker = map (λ w. (w, speaker))

-- The words of the groups, each with the speaker of its group.
unfoldable pub flat : List (List ℕ × List SttWord) → List (SttWord × List ℕ)
flat [] = []
flat ((speaker, words) ∷ groups) = said speaker words ++ flat groups

-- Neighbouring groups have different speakers.
abbrev pub IsAlternating : List (List ℕ × List SttWord) → Type 0
IsAlternating [] = Unit
IsAlternating (g ∷ []) = Unit
IsAlternating (g ∷ h ∷ groups) = (g.0 ≢ h.0) × IsAlternating (h ∷ groups)

-- No group is empty.
abbrev pub IsFilled : List (List ℕ × List SttWord) → Type 0
IsFilled = All (λ g. g.1 ≢ [])

map-snoc :
    (s : List ℕ) (words : List SttWord) (w : SttWord)
    → said s (words ++ w ∷ []) ≡ said s words ++ (w, s) ∷ []
map-snoc s [] w = refl
map-snoc s (x ∷ words) w = ap (◌∷◌ (x, s)) (map-snoc s words w)

flat-add_word :
    (groups : List (List ℕ × List SttWord)) (w : SttWord) (speaker : List ℕ)
    → flat (add_word groups w speaker) ≡ flat groups ++ (w, speaker) ∷ []
unfolding flat add_word
flat-add_word [] w speaker = refl
flat-add_word ((s, words) ∷ []) w speaker = elim (Bool-cases (text_same s speaker)) [
  | inl e ↦
      let same : s ≡ speaker = (text_same_iff s speaker).0 e in
      rw (e, same) (simp (append-nil, map-snoc speaker words w))
  | inr e ↦ rw e (simp append-nil)
]
flat-add_word ((s, words) ∷ h ∷ groups) w speaker =
    rw (flat-add_word (h ∷ groups) w speaker) (simp append_assoc)

flat-group_words :
    (groups : List (List ℕ × List SttWord)) (assignments : List (SttWord × List ℕ))
    → flat (group_words groups assignments) ≡ flat groups ++ assignments
unfolding group_words
flat-group_words groups [] = sym (append-nil (flat groups))
flat-group_words groups ((w, speaker) ∷ rest) =
    flat-group_words (add_word groups w speaker) rest
    ∙ rw (flat-add_word groups w speaker) (append_assoc (flat groups) ((w, speaker) ∷ []) rest)

add_word-IsAlternating :
    (groups : List (List ℕ × List SttWord)) (w : SttWord) (speaker : List ℕ)
    → IsAlternating groups
    → IsAlternating (add_word groups w speaker)
unfolding add_word
add_word-IsAlternating [] w speaker h = tt
add_word-IsAlternating ((s, words) ∷ []) w speaker h = elim (Bool-cases (text_same s speaker)) [
  | inl e ↦ rw e tt
  | inr e ↦ rw e ((λ same. absurd (ground (arith, text_same_iff s speaker))), tt)
]
add_word-IsAlternating (g ∷ h ∷ []) w speaker k = elim (Bool-cases (text_same h.0 speaker)) [
  | inl e ↦ rw e (k.0, tt)
  | inr e ↦ rw e (k.0, ((λ same. absurd (ground (arith, text_same_iff h.0 speaker))), tt))
]
add_word-IsAlternating (g ∷ h ∷ i ∷ groups) w speaker k =
    (k.0, add_word-IsAlternating (h ∷ i ∷ groups) w speaker k.1)

group_words-IsAlternating :
    (groups : List (List ℕ × List SttWord)) (assignments : List (SttWord × List ℕ))
    → IsAlternating groups
    → IsAlternating (group_words groups assignments)
unfolding group_words
group_words-IsAlternating groups [] h = h
group_words-IsAlternating groups ((w, speaker) ∷ rest) h =
    group_words-IsAlternating (add_word groups w speaker) rest
      (add_word-IsAlternating groups w speaker h)

snoc-ne-nil : (words : List SttWord) (w : SttWord) → words ++ w ∷ [] ≢ []
snoc-ne-nil [] w = λ e. cc
snoc-ne-nil (x ∷ words) w = λ e. cc

add_word-IsFilled :
    (groups : List (List ℕ × List SttWord)) (w : SttWord) (speaker : List ℕ)
    → IsFilled groups
    → IsFilled (add_word groups w speaker)
unfolding add_word
add_word-IsFilled [] w speaker h = (snoc-ne-nil [] w, tt)
add_word-IsFilled ((s, words) ∷ []) w speaker h = elim (Bool-cases (text_same s speaker)) [
  | inl e ↦ rw e (snoc-ne-nil words w, tt)
  | inr e ↦ rw e (h.0, (snoc-ne-nil [] w, tt))
]
add_word-IsFilled (g ∷ h ∷ groups) w speaker k = (k.0, add_word-IsFilled (h ∷ groups) w speaker k.1)

pub group_words-IsFilled :
    (groups : List (List ℕ × List SttWord)) (assignments : List (SttWord × List ℕ))
    → IsFilled groups
    → IsFilled (group_words groups assignments)
unfolding group_words
group_words-IsFilled groups [] h = h
group_words-IsFilled groups ((w, speaker) ∷ rest) h =
    group_words-IsFilled (add_word groups w speaker) rest (add_word-IsFilled groups w speaker h)

-- The groups hold every word once, in order and with the speaker assigned to it; none is empty,
-- and neighbours have different speakers.
pub group_words-runs :
    (assignments : List (SttWord × List ℕ))
    → (flat (group_words [] assignments) ≡ assignments)
      × IsAlternating (group_words [] assignments)
      × IsFilled (group_words [] assignments)
unfolding flat
group_words-runs assignments = (
  flat-group_words [] assignments,
  group_words-IsAlternating [] assignments tt,
  group_words-IsFilled [] assignments tt,
)

module _ {R : Type 0} ⦃float : Float R⦄ where
  abbrev pub overlap : ℤ → ℤ → SpeakerSegment R → ℤ
  overlap start_ms end_ms s = overlap_ms start_ms end_ms s.start_ms s.end_ms

  -- A segment of the list that overlaps, as much as any other.
  pub record IsBest (start_ms end_ms : ℤ) (speakers : List (SpeakerSegment R)) (id : List ℕ)
      : Type 0 where
    pub best : SpeakerSegment R
    pub member : In best speakers
    pub positive : pos 0 <ℤ overlap start_ms end_ms best
    pub maximal : All (λ s. overlap start_ms end_ms s ≤ℤ overlap start_ms end_ms best) speakers
    pub speaker : id ≡ best.speaker_id

  ranks_before-IsStrictWeak :
      IsOrdered float → (start_ms end_ms : ℤ) → IsStrictWeak (ranks_before {R = R} start_ms end_ms)
  ranks_before-IsStrictWeak o start_ms end_ms = record {
    asym = λ a b. order.asym b a;
    incomparable_trans = λ a b c h k. order.incomparable_trans c b a k h;
  }
    where
      order : IsStrictWeak (λ a b. ranks_before {R = R} start_ms end_ms b a)
      order =
          lex-IsStrictWeak (λ a b. ltb_ℤ (overlap start_ms end_ms a) (overlap start_ms end_ms b))
            (λ a b. int_eq.same (overlap start_ms end_ms a) (overlap start_ms end_ms b))
            (lex (λ a b. float.lt a.confidence b.confidence)
              (λ a b. float.eq a.confidence b.confidence) (λ a b. ltb_ℤ b.start_ms a.start_ms))
            (λ a b. ground arith)
            (record {
              asym = λ a b h. ground arith;
              incomparable_trans = λ a b c h k. ground arith;
            })
            (lex-IsStrictWeak (λ a b. float.lt a.confidence b.confidence)
              (λ a b. float.eq a.confidence b.confidence) (λ a b. ltb_ℤ b.start_ms a.start_ms)
              (λ a b. o.eq-not-lt a.confidence b.confidence)
              (record {
                asym = λ a b. o.lt_asym a.confidence b.confidence;
                incomparable_trans =
                    λ a b c. o.lt_incomparable a.confidence b.confidence c.confidence;
              })
              (record {
                asym = λ a b h. ground arith;
                incomparable_trans = λ a b c h k. ground arith;
              }))

  least-overlap :
      (start_ms end_ms : ℤ) (a b : SpeakerSegment R)
      → ranks_before start_ms end_ms b a ≡ false
      → overlap start_ms end_ms b ≤ℤ overlap start_ms end_ms a
  least-overlap start_ms end_ms a b h = ground arith

  none-least :
      (start_ms end_ms : ℤ) (best : SpeakerSegment R) (l : List (SpeakerSegment R))
      → NoneBefore (ranks_before start_ms end_ms) best l
      → All (λ s. overlap start_ms end_ms s ≤ℤ overlap start_ms end_ms best) l
  none-least start_ms end_ms best [] n = tt
  none-least start_ms end_ms best (s ∷ l) n =
      (least-overlap start_ms end_ms best s n.0, none-least start_ms end_ms best l n.1)

  -- Where the confidences are ordered, the attributed speaker is that of a segment with the largest
  -- overlap, which is positive; or no segment overlaps, and it is `spk_unknown`.
  pub best_speaker-IsBest :
      (start_ms end_ms : ℤ) (speakers : List (SpeakerSegment R))
      → IsOrdered float
      → IsBest start_ms end_ms speakers (best_speaker start_ms end_ms speakers)
        ⊎ (All (λ s. overlap start_ms end_ms s ≤ℤ pos 0) speakers
            × (best_speaker start_ms end_ms speakers ≡ unknown))
  unfolding best_speaker
  best_speaker-IsBest start_ms end_ms speakers o =
      go (sorted before speakers) refl
        (sorted-IsSorted before (ranks_before-IsStrictWeak o start_ms end_ms) speakers)
    where
      before : SpeakerSegment R → SpeakerSegment R → Bool
      before = ranks_before start_ms end_ms

      go :
          (l : List (SpeakerSegment R))
          → sorted before speakers ≡ l
          → IsSorted before l
          → IsBest start_ms end_ms speakers (first_speaker start_ms end_ms l)
            ⊎ (All (λ s. overlap start_ms end_ms s ≤ℤ pos 0) speakers
                × (first_speaker start_ms end_ms l ≡ unknown))
      go [] e s = inr (
        sorted-All before (λ s. overlap start_ms end_ms s ≤ℤ pos 0) speakers
            (subst (All (λ s. overlap start_ms end_ms s ≤ℤ pos 0)) (sym e) tt),
        refl,
      )
      go (best ∷ ranked) e s = elim (Bool-cases (ltb_ℤ (pos 0) (overlap start_ms end_ms best))) [
        | inl f ↦ rw f (
            inl (record {
              best = best;
              member = sorted-In before speakers (subst (In best) (sym e) (here refl));
              positive = ground arith;
              maximal = most;
              speaker = refl;
            }))
        | inr f ↦ rw f (inr (All-map (λ s h. ground arith) speakers most, refl))
      ]
        where
          most : All (λ s. overlap start_ms end_ms s ≤ℤ overlap start_ms end_ms best) speakers
          most = sorted-All before _ speakers (
              subst (All (λ s. overlap start_ms end_ms s ≤ℤ overlap start_ms end_ms best)) (sym e)
                (omega arith, none-least start_ms end_ms best ranked s.0))
