-- ===== src/Alignment.antt =====
-- src/cuebee_speaker/alignment.py: the timeline of speaker segments, and the attribution of words.
-- Texts are lists of code points; `str.isspace` is a parameter.
pub mod Timeline
pub mod Slots
pub mod Aligner
pub mod Joined
pub mod Owner
use cuebee_speaker_serving.Base.{
  ℕ, Bool, true, false, not, ◌&&◌, ◌||◌, String, List, [], ◌∷◌, ◌++◌, map, Option, none, some,
  arith, leb, ltb, if◌then◌else◌,
}
use cuebee_speaker_serving.Base.Eq.{Eq, string_eq, pair_eq, int_eq, text_eq, text_same, nat_eq}
use cuebee_speaker_serving.Base.Int.{ℤ, pos, ltb_ℤ, ◌-ℤ◌, max_ℤ, min_ℤ}
use cuebee_speaker_serving.Base.Dict.{Dict, get, set, pop, values}
use cuebee_speaker_serving.Base.Sort.{sorted, lex}
use cuebee_speaker_serving.Base.Keep.{keep}
use cuebee_speaker_serving.Base.Float.{Float}
use cuebee_speaker_serving.Base.Text.{codes}
use cuebee_speaker_serving.Domain.{
  SpeakerSegment, SttSegment, SttWord, AttributedTranscriptSpan, Result, ok, raised, index_error,
  ◌>>=◌,
}

-- `_overlap_ms`
unfoldable pub overlap_ms : ℤ → ℤ → ℤ → ℤ → ℤ
overlap_ms start_a end_a start_b end_b = max_ℤ (pos 0) (min_ℤ end_a end_b -ℤ max_ℤ start_a start_b)

abbrev pub or_empty {ℓ} : {A : Type ℓ} → Option (List A) → List A
or_empty none = []
or_empty (some l) = l

-- `SpeakerTimeline._segments`; the retention is an argument of `add`.
abbrev pub Segments : Type 0 → Type 0
Segments R = Dict (String × String) (List (SpeakerSegment R))

-- The order of the slots (start_ms, end_ms).
abbrev pub slot_lt : ℤ × ℤ → ℤ × ℤ → Bool
slot_lt a b = lex (λ a b. ltb_ℤ a.0 b.0) (λ a b. int_eq.same a.0 b.0) (λ a b. ltb_ℤ a.1 b.1) a b

module _ {R : Type 0} where
  abbrev pub key_of : SpeakerSegment R → String × String
  key_of s = (s.tenant_id, s.session_id)

  abbrev pub slot_of : SpeakerSegment R → ℤ × ℤ
  slot_of s = (s.start_ms, s.end_ms)

  -- `grouped[...].append(segment)`
  abbrev pub filed : Segments R → SpeakerSegment R → Segments R
  filed grouped s = set (key_of s) (or_empty (get (key_of s) grouped) ++ s ∷ []) grouped

  -- The first loop of `add`: `grouped`.
  unfoldable pub group : Segments R → List (SpeakerSegment R) → Segments R
  group grouped [] = grouped
  group grouped (s ∷ segments) = group (filed grouped s) segments

  -- The comprehension that fills `current`.
  unfoldable pub index :
      Dict (ℤ × ℤ) (SpeakerSegment R) → List (SpeakerSegment R) → Dict (ℤ × ℤ) (SpeakerSegment R)
  index current [] = current
  index current (s ∷ segments) = index (set (slot_of s) s current) segments

  abbrev supersedes : Option (SpeakerSegment R) → SpeakerSegment R → Bool
  supersedes none s = true
  supersedes (some prior) s = leb prior.revision s.revision

  -- The loop over `new_segments`.
  unfoldable pub revise :
      Dict (ℤ × ℤ) (SpeakerSegment R) → List (SpeakerSegment R) → Dict (ℤ × ℤ) (SpeakerSegment R)
  revise current [] = current
  revise current (s ∷ segments) =
      revise (if supersedes (get (slot_of s) current) s then set (slot_of s) s current else current)
        segments

  last_end : ℤ → List (SpeakerSegment R) → ℤ
  last_end e [] = e
  last_end e (s ∷ segments) = last_end s.end_ms segments

  -- The cut by the retention.
  unfoldable pub retain : ℤ → List (SpeakerSegment R) → List (SpeakerSegment R)
  unfolding last_end
  retain retention_ms ordered =
      let cutoff = last_end (pos 0) ordered -ℤ retention_ms in
      keep (λ item. not (ltb_ℤ item.end_ms cutoff)) ordered

  -- One round of the loop over the groups: the new list of a session.
  unfoldable pub merged :
      ℤ → List (SpeakerSegment R) → List (SpeakerSegment R) → List (SpeakerSegment R)
  merged retention_ms old new =
      retain retention_ms
        (sorted (λ a b. slot_lt (slot_of a) (slot_of b)) (values (revise (index [] old) new)))

  -- `self._segments[key] = ordered`
  abbrev pub stored : ℤ → Segments R → String × String → List (SpeakerSegment R) → Segments R
  stored retention_ms t key new = set key (merged retention_ms (or_empty (get key t)) new) t

  unfoldable pub add_groups : ℤ → Segments R → Segments R → Segments R
  add_groups retention_ms t [] = t
  add_groups retention_ms t ((key, new) ∷ grouped) =
      add_groups retention_ms (stored retention_ms t key new) grouped

  -- `SpeakerTimeline.add`
  unfoldable pub add : ℤ → Segments R → List (SpeakerSegment R) → Segments R
  add retention_ms t segments = add_groups retention_ms t (group [] segments)

  -- `SpeakerTimeline.query`
  unfoldable pub query : Segments R → String → String → ℤ → ℤ → List (SpeakerSegment R)
  query t tenant_id session_id start_ms end_ms =
      keep (λ item. ltb_ℤ (pos 0) (overlap_ms start_ms end_ms item.start_ms item.end_ms))
        (or_empty (get (tenant_id, session_id) t))

  -- `SpeakerTimeline.forget`
  unfoldable pub forget : Segments R → String → String → Segments R
  forget t tenant_id session_id = pop (tenant_id, session_id) t

abbrev pub unknown : List ℕ
unknown = codes "spk_unknown"

module _ {R : Type 0} ⦃float : Float R⦄ where
  -- The key by which `_best_speaker` sorts, in reverse: overlap, confidence, earlier start.
  abbrev pub ranks_before : ℤ → ℤ → SpeakerSegment R → SpeakerSegment R → Bool
  ranks_before start_ms end_ms a b =
      lex (λ a b. ltb_ℤ (overlap a) (overlap b)) (λ a b. int_eq.same (overlap a) (overlap b))
        (lex (λ a b. float.lt a.confidence b.confidence) (λ a b. float.eq a.confidence b.confidence)
          (λ a b. ltb_ℤ b.start_ms a.start_ms))
        b a
    where
      overlap : SpeakerSegment R → ℤ
      overlap s = overlap_ms start_ms end_ms s.start_ms s.end_ms

  unfoldable pub first_speaker : ℤ → ℤ → List (SpeakerSegment R) → List ℕ
  first_speaker start_ms end_ms [] = unknown
  first_speaker start_ms end_ms (best ∷ ranked) =
      if ltb_ℤ (pos 0) (overlap_ms start_ms end_ms best.start_ms best.end_ms)
      then best.speaker_id
      else unknown

  -- `_best_speaker`
  unfoldable pub best_speaker : ℤ → ℤ → List (SpeakerSegment R) → List ℕ
  unfolding first_speaker
  best_speaker start_ms end_ms speakers =
      first_speaker start_ms end_ms (sorted (ranks_before start_ms end_ms) speakers)

-- `groups[-1][1].append(word)`, or a new group.
unfoldable pub add_word :
    List (List ℕ × List SttWord) → SttWord → List ℕ → List (List ℕ × List SttWord)
add_word [] word speaker = (speaker, word ∷ []) ∷ []
add_word ((s, words) ∷ []) word speaker =
    if text_same s speaker
    then (s, words ++ word ∷ []) ∷ []
    else (s, words) ∷ (speaker, word ∷ []) ∷ []
add_word (g ∷ h ∷ groups) word speaker = g ∷ add_word (h ∷ groups) word speaker

-- The loop over `assignments`.
unfoldable pub group_words :
    List (List ℕ × List SttWord) → List (SttWord × List ℕ) → List (List ℕ × List SttWord)
group_words groups [] = groups
group_words groups ((word, speaker) ∷ assignments) =
    group_words (add_word groups word speaker) assignments

-- `_is_cjk`
abbrev pub is_cjk : ℕ → Bool
is_cjk c = leb 0x3400 c && leb c 0x9fff

abbrev pub no_leading_space : List ℕ
no_leading_space = codes ",.!?;:，。！？；：)]}"

unfoldable pub member : ℕ → List ℕ → Bool
member c [] = false
member c (d ∷ l) = nat_eq.same d c || member c l

abbrev pub last_code : ℕ → List ℕ → ℕ
last_code c [] = c
last_code c (d ∷ l) = last_code d l

module _ (is_space : ℕ → Bool) where
  -- One round of `_join_words`, on the text so far and the value of a word. `value[0]` raises on
  -- an empty value.
  unfoldable pub join_word : List ℕ → List ℕ → Result (List ℕ)
  unfolding member
  join_word [] value = ok value
  join_word (c ∷ text) [] =
      if is_space (last_code c text)
      then ok (c ∷ text)
      else if is_cjk (last_code c text)
      then ok (c ∷ text)
      else raised (index_error "string index out of range")
  join_word (c ∷ text) (v ∷ value) =
      if member v no_leading_space || is_space (last_code c text)
      then ok ((c ∷ text) ++ (v ∷ value))
      else if is_cjk (last_code c text) || is_cjk v
      then ok ((c ∷ text) ++ (v ∷ value))
      else ok ((c ∷ text) ++ (32 ∷ v ∷ value))

  -- `_join_words`, from the text so far.
  unfoldable pub join_words : List ℕ → List SttWord → Result (List ℕ)
  join_words text [] = ok text
  join_words text (word ∷ words) = do text' ← join_word text word.text; join_words text' words

abbrev first_start : SttWord → List SttWord → ℤ
first_start w words = w.start_ms

abbrev last_word_end : SttWord → List SttWord → ℤ
last_word_end w [] = w.end_ms
last_word_end w (v ∷ words) = last_word_end v words

-- The span of a text, a speaker and times, with the ids of the STT segment.
abbrev pub span_of : SttSegment → List ℕ → List ℕ → ℤ → ℤ → AttributedTranscriptSpan
span_of stt speaker text start_ms end_ms = record {
  tenant_id = stt.tenant_id;
  session_id = stt.session_id;
  segment_id = stt.segment_id;
  revision = stt.revision;
  speaker_id = speaker;
  text = text;
  start_ms = start_ms;
  end_ms = end_ms;
}

module _ (is_space : ℕ → Bool) where
  -- The comprehension over `groups`. No group is empty; `words[0]` would raise.
  unfoldable pub spans :
      SttSegment → List (List ℕ × List SttWord) → Result (List AttributedTranscriptSpan)
  spans stt [] = ok []
  spans stt ((speaker, []) ∷ groups) = raised (index_error "list index out of range")
  spans stt ((speaker, w ∷ words) ∷ groups) = do
    text ← join_words is_space [] (w ∷ words)
    rest ← spans stt groups
    ok (span_of stt speaker text w.start_ms (last_word_end w words) ∷ rest)

abbrev pub is_compatible : {R : Type 0} → SttSegment → SpeakerSegment R → Bool
is_compatible stt s =
    string_eq.same s.tenant_id stt.tenant_id && string_eq.same s.session_id stt.session_id

module _ {R : Type 0} ⦃float : Float R⦄ where
  -- `assignments`
  abbrev pub assign_words : List (SpeakerSegment R) → List SttWord → List (SttWord × List ℕ)
  assign_words compatible = map (λ w. (w, best_speaker w.start_ms w.end_ms compatible))

module _ {R : Type 0} ⦃float : Float R⦄ (is_space : ℕ → Bool) where
  -- `TimelineAligner.align`, behind the filter of the segments.
  align_compatible :
      SttSegment → List (SpeakerSegment R) → List SttWord → Result (List AttributedTranscriptSpan)
  align_compatible stt compatible [] = ok (
      span_of stt (best_speaker stt.start_ms stt.end_ms compatible) stt.text stt.start_ms stt.end_ms
      ∷ [])
  align_compatible stt compatible (w ∷ words) =
      spans is_space stt (group_words [] (assign_words compatible (w ∷ words)))

  -- `TimelineAligner.align`
  unfoldable pub align :
      SttSegment → List (SpeakerSegment R) → Result (List AttributedTranscriptSpan)
  unfolding align_compatible
  align stt speakers = align_compatible stt (keep (is_compatible stt) speakers) stt.words
