-- ===== src/Store.antt =====
-- src/cuebee_speaker/state/store.py: what the two stores share. Each method runs
-- under its lock, so it is one step. A table with a primary key is a dictionary of its rows, and a
-- transaction that fails leaves the tables as they were. Centroids are flat float32 vectors, which
-- the conversions of both stores leave as they are.
pub mod SpeakerId
pub mod Memory
pub mod Sqlite
pub mod Calls
pub mod Fresh
pub mod Isolation
pub mod Unique
pub mod Refinement
use cuebee_speaker_serving.Base.{
  ℕ, ◌+◌, Bool, true, false, not, ◌&&◌, String, List, [], ◌∷◌, Option, none, some, arith, ltb,
  if◌then◌else◌, ◌==◌,
}
use cuebee_speaker_serving.Base.Int.{ℤ}
use cuebee_speaker_serving.Base.Eq.{Eq, string_eq, pair_eq, text_eq}
use cuebee_speaker_serving.Base.Dict.{Dict, get, set, pop, values, without}
use cuebee_speaker_serving.Base.Sort.{sorted}
use cuebee_speaker_serving.Domain.{
  SpeakerProfile, Result, ok, raised, Error, key_error, runtime_error, ◌>>=◌,
}
use SpeakerId.{format_id}

abbrev pub SessionKey : Type 0
SessionKey = String × String

-- The key (tenant, session, speaker), and the primary key of `speaker_profiles`.
abbrev pub ProfileKey : Type 0
ProfileKey = SessionKey × List ℕ

abbrev pub session_eq : Eq SessionKey
session_eq = pair_eq

abbrev pub profile_eq : Eq ProfileKey
profile_eq = pair_eq

-- The state of either store: the profiles, and the counters `_next_ids` or `session_counters`.
pub record Store (R V : Type 0) : Type 0 where
  pub profiles : Dict ProfileKey (SpeakerProfile R V)
  pub next_ids : Dict SessionKey ℕ

unfoldable pub empty : {R V : Type 0} → Store R V
empty = record { profiles = []; next_ids = [] }

-- `<` on identifiers, by code points.
unfoldable pub text_lt : List ℕ → List ℕ → Bool
text_lt [] [] = false
text_lt [] (y ∷ ys) = true
text_lt (x ∷ xs) [] = false
text_lt (x ∷ xs) (y ∷ ys) = if x == y then text_lt xs ys else ltb x y

-- `d.get(k, default)`
abbrev pub get_or : ℕ → Option ℕ → ℕ
get_or d none = d
get_or d (some n) = n

module _ {R V : Type 0} where
  abbrev pub key_of : SpeakerProfile R V → ProfileKey
  key_of p = ((p.tenant_id, p.session_id), p.speaker_id)

  -- The entries of a session.
  abbrev pub session_profiles :
      SessionKey → Dict ProfileKey (SpeakerProfile R V) → Dict ProfileKey (SpeakerProfile R V)
  session_profiles k = without (λ j. not (session_eq.same j.0 k))

  -- `list_profiles`, of both stores.
  unfoldable pub list_profiles : Store R V → SessionKey → List (SpeakerProfile R V)
  list_profiles st k =
      sorted (λ p q. text_lt p.speaker_id q.speaker_id) (values (session_profiles k st.profiles))

  -- The profile that `create_profile` makes.
  abbrev pub new_profile : SessionKey → ℕ → V → R → ℤ → SpeakerProfile R V
  new_profile k n centroid quality last_active_ms = record {
    tenant_id = k.0;
    session_id = k.1;
    speaker_id = format_id n;
    centroid = centroid;
    sample_count = 1;
    quality_ema = quality;
    last_active_ms = last_active_ms;
    display_name = none;
  }

  -- The counter and the profile that a creation writes.
  abbrev pub inserted : Store R V → SessionKey → ℕ → SpeakerProfile R V → Store R V
  inserted st k n p = record {
    profiles = set (key_of p) p st.profiles;
    next_ids = set k (n + 1) st.next_ids;
  }
