-- ===== src/Tests/Alignments.antt =====
-- Runs of src/cuebee_speaker/alignment.py.
use cuebee_speaker_serving.Base.{Bool, true, ℕ, ◌≡◌, ◌⊎◌, refl, String, List, [], ◌∷◌, some}
use cuebee_speaker_serving.Base.Int.{ℤ, pos, ◌≤ℤ◌, ◌-ℤ◌}
use cuebee_speaker_serving.Base.Eq.{nat_eq, string_eq, pair_eq, int_eq}
use cuebee_speaker_serving.Base.Dict.{get}
use cuebee_speaker_serving.Base.Keep.{keep, All, Pairwise}
use cuebee_speaker_serving.Base.Sort.{IsSorted, sorted}
use cuebee_speaker_serving.Base.Text.{codes}
use cuebee_speaker_serving.Domain.{
  ok, AttributedTranscriptSpan, SpeakerSegment, SttSegment, SttWord, raised, index_error,
}
use cuebee_speaker_serving.Alignment.{
  align, add, merged, revise, index, slot_of, group_words, best_speaker, unknown, first_speaker,
  join_word, join_words, overlap_ms,
}
use cuebee_speaker_serving.Alignment.Joined.{align-Returns}
use cuebee_speaker_serving.Alignment.Timeline.{of_key, updated, get-add}
use cuebee_speaker_serving.Alignment.Slots.{
  by_slot, HasOtherSlot, HasRevision, merged-IsSorted, revise_newest,
}
use cuebee_speaker_serving.Alignment.Aligner.{
  flat, IsAlternating, IsFilled, group_words-runs, overlap, IsBest, best_speaker-IsBest,
}
use cuebee_speaker_serving.Tests.Floats.{milli, milli-IsOrdered}

abbrev segment : String → ℕ → ℕ → ℕ → SpeakerSegment ℤ
segment id start_ms end_ms revision = record {
  tenant_id = "t";
  session_id = "s";
  speaker_id = codes id;
  start_ms = pos start_ms;
  end_ms = pos end_ms;
  confidence = pos 900;
  revision = revision;
}

abbrev heard : List (SpeakerSegment ℤ)
heard = segment "spk_001" 0 1500 1 ∷ segment "spk_002" 1500 3000 1 ∷ []

abbrev again : List (SpeakerSegment ℤ)
again = segment "spk_003" 1500 3000 2 ∷ segment "spk_004" 0 1500 0 ∷ []

get-add_example :
    get {K = String × String} ("t", "s") (add (pos 10_000) [] heard)
    ≡ updated
        (pos 10_000)
        (get {K = String × String} ("t", "s") [])
        (keep (of_key ("t", "s")) heard)
get-add_example = get-add (pos 10_000) [] heard ("t", "s")

merged-IsSorted_example :
    IsSorted by_slot (merged (pos 10_000) heard again)
    × Pairwise HasOtherSlot (merged (pos 10_000) heard again)
merged-IsSorted_example = merged-IsSorted (pos 10_000) heard again

revise_newest_example :
    All (λ s. HasRevision (revise (index [] heard) again) (slot_of s) s.revision) again
    × ((slot : ℤ × ℤ) (w : SpeakerSegment ℤ)
        → get slot (index [] heard) ≡ some w
        → HasRevision (revise (index [] heard) again) slot w.revision)
revise_newest_example = revise_newest (index [] heard) again

abbrev word : String → ℕ → ℕ → SttWord
word text start_ms end_ms = record {
  text = codes text;
  start_ms = pos start_ms;
  end_ms = pos end_ms;
}

abbrev said_words : List (SttWord × List ℕ)
said_words =
    (word "hello" 100 500, codes "spk_001")
    ∷ (word "there" 600 1400, codes "spk_001")
    ∷ (word "hi" 1600 2000, codes "spk_002")
    ∷ []

group_words-runs_example :
    (flat (group_words [] said_words) ≡ said_words)
    × IsAlternating (group_words [] said_words)
    × IsFilled (group_words [] said_words)
group_words-runs_example = group_words-runs said_words

best_speaker-IsBest_example :
    IsBest (pos 1000) (pos 2500) heard (best_speaker (pos 1000) (pos 2500) heard)
    ⊎ (All (λ s. overlap (pos 1000) (pos 2500) s ≤ℤ pos 0) heard
        × (best_speaker (pos 1000) (pos 2500) heard ≡ unknown))
best_speaker-IsBest_example = best_speaker-IsBest (pos 1000) (pos 2500) heard milli-IsOrdered

second_speaker : best_speaker (pos 1000) (pos 2500) heard ≡ codes "spk_002"
unfolding best_speaker first_speaker sorted overlap_ms ◌-ℤ◌
second_speaker = refl

-- A word with an empty text behind another word.
empty_word :
    join_words (λ c. nat_eq.same c 32) [] (word "hello" 0 10 ∷ word "" 10 20 ∷ [])
    ≡ raised (index_error "string index out of range")
unfolding join_words join_word
empty_word = refl

abbrev transcript : SttSegment
transcript = record {
  tenant_id = "t";
  session_id = "s";
  segment_id = "g";
  revision = pos 1;
  text = codes "hello hi";
  start_ms = pos 0;
  end_ms = pos 3000;
  is_final = true;
  words = word "hello" 100 500 ∷ word "hi" 1600 2000 ∷ [];
}

abbrev is_blank : ℕ → Bool
is_blank c = nat_eq.same c 32

align-Returns_example :
    (spans : List AttributedTranscriptSpan) × (align is_blank transcript heard ≡ ok spans)
align-Returns_example = align-Returns is_blank transcript heard ((λ e. cc), ((λ e. cc), tt))
