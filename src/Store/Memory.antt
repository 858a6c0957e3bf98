-- ===== src/Store/Memory.antt =====
-- `InMemorySpeakerStore`.
use cuebee_speaker_serving.Base.{ℕ, Bool, true, false, String, List, Option, none, some}
use cuebee_speaker_serving.Base.Int.{ℤ}
use cuebee_speaker_serving.Base.Eq.{string_eq, pair_eq, text_eq}
use cuebee_speaker_serving.Base.Dict.{get, set, pop, without}
use cuebee_speaker_serving.Domain.{SpeakerProfile, Result, ok, raised, key_error}
use cuebee_speaker_serving.Store.{
  Store, SessionKey, ProfileKey, session_eq, key_of, new_profile, get_or, inserted,
}

module _ {R V : Type 0} where
  abbrev pub next_id : Store R V → SessionKey → ℕ
  next_id st k = get_or 1 (get k st.next_ids)

  unfoldable pub create_profile :
      Store R V → SessionKey → V → R → ℤ → Result (Store R V × SpeakerProfile R V)
  create_profile st k centroid quality last_active_ms =
      let p = new_profile k (next_id st k) centroid quality last_active_ms in
      ok (inserted st k (next_id st k) p, p)

  -- The branches of `update_profile` on the entry of the key.
  abbrev replaced :
      Store R V → SpeakerProfile R V → Option (SpeakerProfile R V) → Result (Store R V)
  replaced st p none = raised (key_error "speaker profile not found")
  replaced st p (some old) = ok (record st { profiles = set (key_of p) p st.profiles })

  unfoldable pub update_profile : Store R V → SpeakerProfile R V → Result (Store R V)
  update_profile st p = replaced st p (get (key_of p) st.profiles)

  abbrev named :
      Store R V → ProfileKey → Option String → Option (SpeakerProfile R V) → Store R V × Bool
  named st j name none = (st, false)
  named st j name (some p) =
      (record st { profiles = set j (record p { display_name = name }) st.profiles }, true)

  unfoldable pub rename_speaker : Store R V → SessionKey → List ℕ → Option String → Store R V × Bool
  rename_speaker st k id name = named st (k, id) name (get (k, id) st.profiles)

  unfoldable pub delete_session : Store R V → SessionKey → Store R V
  delete_session st k = record {
    profiles = without (λ j. session_eq.same j.0 k) st.profiles;
    next_ids = pop k st.next_ids;
  }
