-- ===== src/Tests/Stores.antt =====
-- Runs of src/cuebee_speaker/state/store.py.
use cuebee_speaker_serving.Base.{
  ◌&&◌, ℕ, ◌≡◌, ◌≢◌, refl, sym, ap, ◌∙◌, inl, inr, List, [], ◌∷◌, none, some, arith,
}
use cuebee_speaker_serving.Base.Int.{ℤ, pos}
use cuebee_speaker_serving.Base.Eq.{string_eq, pair_eq, text_eq}
use cuebee_speaker_serving.Base.Dict.{get, set, values, without, pop, get-set-some}
use cuebee_speaker_serving.Base.Keep.{All, keep}
use cuebee_speaker_serving.Base.Text.{codes}
use cuebee_speaker_serving.Domain.{SpeakerProfile, ok, raised, overflow_error}
use cuebee_speaker_serving.Store.{
  Store, SessionKey, session_eq, key_of, empty, session_profiles, new_profile, inserted,
}
use cuebee_speaker_serving.Tests.Floats.{milli}
use cuebee_speaker_serving.Store.Memory
use cuebee_speaker_serving.Store.Sqlite
use cuebee_speaker_serving.Store.Sqlite.{int_limit, max_suffix}
use cuebee_speaker_serving.Store.SpeakerId.{
  suffix-format_id, Digits, ReadsAscii, is_some_text, all_digits, int_of, last_field, format_id,
  padded, digits, suffix,
}
use cuebee_speaker_serving.Store.Calls.{
  Call, list_profiles_call, create_profile_call, rename_speaker_call, delete_session_call,
  memory_step, sqlite_step, replies, run, session_of,
}
use cuebee_speaker_serving.Store.Fresh.{IsStore, empty-IsStore, memory_step-IsStore}
use cuebee_speaker_serving.Store.Refinement.{IsStorableCall, replies-agree}
use cuebee_speaker_serving.Store.Isolation.{replies_of, replies_of-replies}
use cuebee_speaker_serving.Store.Unique.{create_profile-run_ne, create_profile-recovers}

-- A reading of digits of ASCII only.
instance abbrev pub ascii : Digits
ascii = record { isdigit = λ s. is_some_text s && all_digits s; int = λ s. ok (int_of 0 s) }

ascii-ReadsAscii : ReadsAscii ascii
ascii-ReadsAscii = record { isdigit = λ s e f. ground arith; int = λ s e f. refl }

abbrev monday : SessionKey
monday = ("t", "monday")

abbrev friday : SessionKey
friday = ("t", "friday")

-- Centroids are a number here, and qualities thousandths.
abbrev created : SessionKey → ℕ → Call ℤ ℕ
created k centroid = create_profile_call k centroid (pos 800) (pos 1000)

abbrev calls : List (Call ℤ ℕ)
calls =
    created monday 5
    ∷ created friday 6
    ∷ created monday 7
    ∷ rename_speaker_call monday (codes "spk_002") (some "Ada")
    ∷ rename_speaker_call friday (codes "spk_002") none
    ∷ list_profiles_call monday
    ∷ delete_session_call friday
    ∷ created friday 8
    ∷ []

second_id : format_id 12 ≡ codes "spk_012"
unfolding format_id padded digits
second_id = refl

long_id : format_id 1234 ≡ codes "spk_1234"
unfolding format_id padded digits
long_id = refl

no_number : suffix (codes "guest") ≡ ok none
unfolding suffix all_digits
no_number = refl

suffix-format_id_example : suffix (format_id 12) ≡ ok (some 12)
suffix-format_id_example = suffix-format_id 12 ascii-ReadsAscii (omega arith)

abbrev start : Store ℤ ℕ
start = empty

storable : All IsStorableCall calls
storable =
    ((refl, refl), ((refl, refl), ((refl, refl), (tt, (tt, (tt, (tt, ((refl, refl), tt))))))))

replies-agree_example : replies sqlite_step start calls ≡ replies memory_step start calls
replies-agree_example = replies-agree calls (omega arith) storable

-- A time that SQLite does not store.
not_stored :
    Sqlite.create_profile start monday 5 (pos 800) (pos int_limit)
    ≡ raised (overflow_error "Python int too large to convert to SQLite INTEGER")
unfolding Sqlite.create_profile empty get without max_suffix
not_stored = refl

replies_of-replies_example :
    replies_of memory_step monday start calls
    ≡ replies memory_step start (keep (λ c. session_eq.same (session_of c) monday) calls)
replies_of-replies_example = replies_of-replies start monday calls

memory_step-IsStore_example : IsStore (memory_step start (created monday 5)).0
memory_step-IsStore_example = memory_step-IsStore start (created monday 5) empty-IsStore

abbrev first : SpeakerProfile ℤ ℕ
first = new_profile monday 1 5 (pos 800) (pos 1000)

create_first :
    Memory.create_profile start monday 5 (pos 800) (pos 1000)
    ≡ ok (inserted start monday 1 first, first)
unfolding Memory.create_profile empty get
create_first = refl

abbrev between : List (Call ℤ ℕ)
between = delete_session_call friday ∷ created friday 3 ∷ []

abbrev middle : Store ℤ ℕ
middle = run memory_step (inserted start monday 1 first) between

abbrev second : SpeakerProfile ℤ ℕ
second = new_profile monday 2 7 (pos 700) (pos 2000)

create_second :
    Memory.create_profile middle monday 7 (pos 700) (pos 2000)
    ≡ ok (inserted middle monday 2 second, second)
unfolding Memory.create_profile Memory.delete_session empty run memory_step get set without pop
create_second = refl

create_profile-run_ne_example : first.speaker_id ≢ second.speaker_id
create_profile-run_ne_example =
    create_profile-run_ne start (inserted start monday 1 first) (inserted middle monday 2 second)
      monday 5 7 (pos 800) (pos 700) (pos 1000) (pos 2000) first second between create_first
      (refl, (refl, tt)) create_second

-- The table of a session whose counter is missing.
abbrev orphans : Store ℤ ℕ
orphans = record { profiles = (key_of second, second) ∷ []; next_ids = [] }

orphans-keyed :
    (j : SessionKey × List ℕ) (p : SpeakerProfile ℤ ℕ)
    → get j orphans.profiles ≡ some p
    → key_of p ≡ j
unfolding get set
orphans-keyed j p e = elim (get-set-some (key_of second) j second p [] e) [
  | inl (s, t) ↦ ap key_of (sym t) ∙ s
  | inr s ↦ absurd (ground arith)
]

orphans-max_suffix : max_suffix (values (session_profiles monday orphans.profiles)) ≡ ok 2
unfolding max_suffix suffix format_id padded digits last_field all_digits int_of without
orphans-max_suffix = refl

create_profile-recovers_example :
    Sqlite.create_profile orphans monday 9 (pos 500) (pos 3000)
    ≡ ok (
      inserted orphans monday 3 (new_profile monday 3 9 (pos 500) (pos 3000)),
      new_profile monday 3 9 (pos 500) (pos 3000),
    )
unfolding get
create_profile-recovers_example =
    create_profile-recovers orphans monday 9 (pos 500) (pos 3000) 2 ascii-ReadsAscii orphans-keyed
      refl orphans-max_suffix (omega arith) (refl, refl)
