-- ===== src/Store/Calls.antt =====
-- The calls of the `SpeakerStore` protocol, and each store as a step on them.
use cuebee_speaker_serving.Base.{ℕ, Bool, String, List, [], ◌∷◌, Option}
use cuebee_speaker_serving.Base.Int.{ℤ}
use cuebee_speaker_serving.Domain.{SpeakerProfile, Result, ok, raised, Error}
use cuebee_speaker_serving.Store.{Store, SessionKey, key_of, list_profiles}
use cuebee_speaker_serving.Base.Float.{Float}
use cuebee_speaker_serving.Store.SpeakerId.{Digits}
use cuebee_speaker_serving.Store.Memory
use cuebee_speaker_serving.Store.Sqlite

pub data Call (R V : Type 0) : Type 0 where
  list_profiles_call : SessionKey → Call R V
  create_profile_call : SessionKey → V → R → ℤ → Call R V
  update_profile_call : SpeakerProfile R V → Call R V
  rename_speaker_call : SessionKey → List ℕ → Option String → Call R V
  delete_session_call : SessionKey → Call R V

-- What a call returns or raises.
pub data Reply (R V : Type 0) : Type 0 where
  profiles_reply : List (SpeakerProfile R V) → Reply R V
  created_reply : SpeakerProfile R V → Reply R V
  renamed_reply : Bool → Reply R V
  none_reply : Reply R V
  raised_reply : Error → Reply R V

module _ {R V : Type 0} where
  abbrev pub session_of : Call R V → SessionKey
  session_of (list_profiles_call k) = k
  session_of (create_profile_call k centroid quality last_active_ms) = k
  session_of (update_profile_call p) = (key_of p).0
  session_of (rename_speaker_call k id name) = k
  session_of (delete_session_call k) = k

  abbrev pub after_create :
      Store R V → Result (Store R V × SpeakerProfile R V) → Store R V × Reply R V
  after_create st (raised e) = (st, raised_reply e)
  after_create st (ok (st', p)) = (st', created_reply p)

  abbrev pub after_update : Store R V → Result (Store R V) → Store R V × Reply R V
  after_update st (raised e) = (st, raised_reply e)
  after_update st (ok st') = (st', none_reply)

  abbrev pub after_rename : Store R V × Bool → Store R V × Reply R V
  after_rename (st, found) = (st, renamed_reply found)

  unfoldable pub memory_step : Store R V → Call R V → Store R V × Reply R V
  memory_step st (list_profiles_call k) = (st, profiles_reply (list_profiles st k))
  memory_step st (create_profile_call k centroid quality last_active_ms) =
      after_create st (Memory.create_profile st k centroid quality last_active_ms)
  memory_step st (update_profile_call p) = after_update st (Memory.update_profile st p)
  memory_step st (rename_speaker_call k id name) = after_rename (Memory.rename_speaker st k id name)
  memory_step st (delete_session_call k) = (Memory.delete_session st k, none_reply)

  unfoldable pub sqlite_step :
      ⦃float : Float R⦄ ⦃digits : Digits⦄ → Store R V → Call R V → Store R V × Reply R V
  sqlite_step st (list_profiles_call k) = (st, profiles_reply (list_profiles st k))
  sqlite_step st (create_profile_call k centroid quality last_active_ms) =
      after_create st (Sqlite.create_profile st k centroid quality last_active_ms)
  sqlite_step st (update_profile_call p) = after_update st (Sqlite.update_profile st p)
  sqlite_step st (rename_speaker_call k id name) = after_rename (Sqlite.rename_speaker st k id name)
  sqlite_step st (delete_session_call k) = (Sqlite.delete_session st k, none_reply)

  -- The replies to a sequence of calls.
  unfoldable pub replies :
      (Store R V → Call R V → Store R V × Reply R V)
      → Store R V
      → List (Call R V)
      → List (Reply R V)
  replies step st [] = []
  replies step st (c ∷ calls) = (step st c).1 ∷ replies step (step st c).0 calls

  -- The store that a sequence of calls leaves.
  unfoldable pub run :
      (Store R V → Call R V → Store R V × Reply R V) → Store R V → List (Call R V) → Store R V
  run step st [] = st
  run step st (c ∷ calls) = run step (step st c).0 calls
