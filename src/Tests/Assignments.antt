-- ===== src/Tests/Assignments.antt =====
-- Runs of src/cuebee_speaker/assignment.py.
use cuebee_speaker_serving.Base.{arith, ◌≡◌, refl, [], ◌∷◌, some}
use cuebee_speaker_serving.Base.Text.{codes}
use cuebee_speaker_serving.Base.Int.{ℤ, pos}
use cuebee_speaker_serving.Base.Dict.{without, get, set}
use cuebee_speaker_serving.Base.Sort.{insert, sorted}
use cuebee_speaker_serving.Config.{AssignmentConfig}
use cuebee_speaker_serving.Domain.{EmbeddingResult, SpeakerProfile, SpeakerSegment, ok}
use cuebee_speaker_serving.Store.{Store, empty, new_profile, inserted, list_profiles}
use cuebee_speaker_serving.Store.Memory
use cuebee_speaker_serving.Store.Fresh.{empty-IsStore, memory_step-IsStore}
use cuebee_speaker_serving.Store.SpeakerId.{format_id, padded, digits}
use cuebee_speaker_serving.Assignment.{
  assign, nearest, scores_of, similarity, normalize, enrolled, placed, identified, segment_of,
  rename, profiles,
}
use cuebee_speaker_serving.Assignment.Nearest.{IsNearest, nearest-IsNearest}
use cuebee_speaker_serving.Assignment.Stores.{memory_store, sqlite_store, assign-agree}
use cuebee_speaker_serving.Assignment.Identity.{Outcome, assign-Outcome}
use cuebee_speaker_serving.Store.Calls.{Call, create_profile_call, memory_step}
use cuebee_speaker_serving.Tests.Stores.{ascii}
use cuebee_speaker_serving.Tests.Floats.{milli}
use cuebee_speaker_serving.Tests.Vectors.{numbers, numbers-FindsGreatest, best, first_greatest}

abbrev pub settings : AssignmentConfig ℤ
settings = record {
  cosine_threshold = pos 650;
  min_quality = pos 400;
  quality_ema_alpha = pos 200;
  max_centroid_weight = pos 20_000;
}

abbrev embedded : EmbeddingResult ℤ ℤ
embedded = record {
  chunk = record {
    tenant_id = "t";
    session_id = "s";
    chunk_id = codes "c";
    start_ms = pos 0;
    end_ms = pos 1500;
    features = pos 0;
    speech_ratio = pos 900;
  };
  embedding = pos 500;
  quality = pos 800;
  worker_id = "w";
  batch_size = 1;
  queue_delay_ms = pos 0;
  inference_ms = pos 0;
}

abbrev start : Store ℤ ℤ
start = empty

abbrev created : SpeakerProfile ℤ ℤ
created = new_profile ("t", "s") 1 (pos 1000) (pos 800) (pos 1500)

abbrev outcome : Store ℤ ℤ × SpeakerSegment ℤ
outcome =
    (inserted start ("t", "s") 1 created, segment_of numbers embedded created.speaker_id (pos 800))

first_speaker : assign numbers memory_store settings start embedded ≡ ok outcome
unfolding assign identified enrolled placed nearest normalize empty Memory.create_profile
    list_profiles sorted without get
first_speaker = refl

-- The store with that speaker, in which the same embedding is recognised.
abbrev meeting : Call ℤ ℤ
meeting = create_profile_call ("t", "s") (pos 1000) (pos 800) (pos 1500)

abbrev met : Store ℤ ℤ
met = (memory_step start meeting).0

assign-agree_example :
    assign numbers sqlite_store settings met embedded
    ≡ assign numbers memory_store settings met embedded
unfolding list_profiles empty sorted insert without get set memory_step Memory.create_profile
assign-agree_example =
    assign-agree numbers settings met embedded (memory_step-IsStore start meeting empty-IsStore)
      (omega arith) (refl, refl) ((refl, refl), tt)

assign-Outcome_example : Outcome numbers settings start embedded outcome
assign-Outcome_example =
    assign-Outcome numbers settings start embedded outcome empty-IsStore first_speaker

abbrev other : SpeakerProfile ℤ ℤ
other = new_profile ("t", "s") 2 (pos 700) (pos 800) (pos 1500)

nearest_first : nearest numbers (pos 1000) (created ∷ other ∷ []) ≡ ok (some (created, pos 1000))
unfolding nearest scores_of similarity normalize first_greatest best
nearest_first = refl

nearest-IsNearest_example : IsNearest numbers (pos 1000) (created ∷ other ∷ []) created (pos 1000)
nearest-IsNearest_example =
    nearest-IsNearest numbers (pos 1000) (created ∷ other ∷ []) created (pos 1000)
      numbers-FindsGreatest nearest_first

renamed_profiles :
    profiles memory_store
      (rename memory_store outcome.0 ("t", "s") created.speaker_id "Ada").0
      ("t", "s")
    ≡ record created { display_name = some "Ada" } ∷ []
unfolding profiles rename Memory.rename_speaker list_profiles sorted get set empty without format_id
    padded digits
renamed_profiles = refl
