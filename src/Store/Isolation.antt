-- ===== src/Store/Isolation.antt =====
-- The sessions of a store do not see each other.
use cuebee_speaker_serving.Base.{
  ℕ, ◌+◌, ◌≡◌, refl, sym, subst, ap, ◌∙◌, ◌≢◌, inl, inr, not, if◌then◌else◌, List, [], ◌∷◌, arith,
  Bool-cases, Option-cases,
}
use cuebee_speaker_serving.Base.Eq.{string_eq, pair_eq, text_eq, same_refl}
use cuebee_speaker_serving.Base.Dict.{
  Dict, get, set, get-without, get-set_self, get-set_ne, get-pop_self, get-pop_ne, without-set,
  without-without, without-not,
}
use cuebee_speaker_serving.Base.Keep.{keep}
use cuebee_speaker_serving.Domain.{SpeakerProfile}
use cuebee_speaker_serving.Store.{
  Store, SessionKey, ProfileKey, session_eq, key_of, session_profiles, new_profile, list_profiles,
}
use cuebee_speaker_serving.Store.Memory
use cuebee_speaker_serving.Store.Memory.{next_id}
use cuebee_speaker_serving.Store.Calls.{
  Call, list_profiles_call, create_profile_call, update_profile_call, rename_speaker_call,
  delete_session_call, memory_step, replies, Reply, session_of,
}

-- The replies to the calls of the session `k`, in a run that serves every session.
unfoldable pub replies_of :
    {R V : Type 0}
    → (Store R V → Call R V → Store R V × Reply R V)
    → SessionKey
    → Store R V
    → List (Call R V)
    → List (Reply R V)
replies_of step k st [] = []
replies_of step k st (c ∷ calls) =
    let rest = replies_of step k (step st c).0 calls in
    if session_eq.same (session_of c) k then (step st c).1 ∷ rest else rest

module _ {R V : Type 0} where
  -- The stores agree on the session `k`.
  abbrev Agree : SessionKey → Store R V → Store R V → Type 0
  Agree k s t =
      (session_profiles k s.profiles ≡ session_profiles k t.profiles)
      × (get k s.next_ids ≡ get k t.next_ids)

  get-Agree :
      (k : SessionKey) (id : List ℕ) (s t : Store R V)
      → Agree k s t
      → get (k, id) s.profiles ≡ get (k, id) t.profiles
  get-Agree k id s t h = sym (own s.profiles) ∙ ap (get (k, id)) h.0 ∙ own t.profiles
    where
      own :
          (d : Dict ProfileKey (SpeakerProfile R V))
          → get (k, id) (session_profiles k d) ≡ get (k, id) d
      own d = get-without (λ i. not (session_eq.same i.0 k)) (k, id) d ∙ rw (same_refl k)

  pub set-other :
      (k : SessionKey) (j : ProfileKey) (p : SpeakerProfile R V)
      (d : Dict ProfileKey (SpeakerProfile R V))
      → j.0 ≢ k
      → session_profiles k (set j p d) ≡ session_profiles k d
  set-other k j p d ne = elim (Bool-cases (session_eq.same j.0 k)) [
    | inl e ↦ absurd (ne ((session_eq.same_iff j.0 k).0 e))
    | inr e ↦ without-set (λ (i : ProfileKey). not (session_eq.same i.0 k)) j p d ∙ rw e
  ]

  set-own :
      (j : ProfileKey) (p : SpeakerProfile R V) (d d' : Dict ProfileKey (SpeakerProfile R V))
      → session_profiles j.0 d ≡ session_profiles j.0 d'
      → session_profiles j.0 (set j p d) ≡ session_profiles j.0 (set j p d')
  set-own j p d d' h = own d ∙ ap (set j p) h ∙ sym (own d')
    where
      own :
          (c : Dict ProfileKey (SpeakerProfile R V))
          → session_profiles j.0 (set j p c) ≡ set j p (session_profiles j.0 c)
      own c = without-set (λ i. not (session_eq.same i.0 j.0)) j p c ∙ rw (same_refl j.0)

  -- A call of another session keeps what the store holds of `k`.
  other-Agree :
      (st : Store R V) (k : SessionKey) (c : Call R V)
      → session_of c ≢ k
      → Agree k (memory_step st c).0 st
  unfolding memory_step Memory.create_profile Memory.update_profile Memory.rename_speaker
      Memory.delete_session
  other-Agree st k (list_profiles_call j) ne = (refl, refl)
  other-Agree st k (create_profile_call j centroid quality last_active_ms) ne =
      let p = new_profile j (next_id st j) centroid quality last_active_ms in
      (set-other k (key_of p) p st.profiles ne, get-set_ne j k (next_id st j + 1) st.next_ids ne)
  other-Agree st k (update_profile_call p) ne = elim (Option-cases (get (key_of p) st.profiles)) [
    | inl e ↦ rw e (refl, refl)
    | inr (old, e) ↦ rw e (set-other k (key_of p) p st.profiles ne, refl)
  ]
  other-Agree st k (rename_speaker_call j id name) ne =
      elim (Option-cases (get (j, id) st.profiles)) [
        | inl e ↦ rw e (refl, refl)
        | inr (old, e) ↦
            rw e (set-other k (j, id) (record old { display_name = name }) st.profiles ne, refl)
      ]
  other-Agree st k (delete_session_call j) ne = (
    without-without (λ (i : ProfileKey). not (session_eq.same i.0 k)) (λ i. session_eq.same i.0 j)
        st.profiles
        (λ i e. ground (arith, session_eq.same_iff i.0 k, session_eq.same_iff i.0 j, ne)),
    get-pop_ne j k st.next_ids ne,
  )

  -- Stores that agree on the session of a call give the same reply and still agree on it.
  own-Agree :
      (s t : Store R V) (c : Call R V)
      → Agree (session_of c) s t
      → ((memory_step s c).1 ≡ (memory_step t c).1)
        × Agree (session_of c) (memory_step s c).0 (memory_step t c).0
  unfolding memory_step Memory.create_profile Memory.update_profile Memory.rename_speaker
      Memory.delete_session list_profiles
  own-Agree s t (list_profiles_call j) h = (rw h.0, h)
  own-Agree s t (create_profile_call j centroid quality last_active_ms) h =
      let p = new_profile j (next_id t j) centroid quality last_active_ms in
      rw h.1 (
        refl,
        (
          set-own (key_of p) p s.profiles t.profiles h.0,
          get-set_self j (next_id t j + 1) s.next_ids
              ∙ sym (get-set_self j (next_id t j + 1) t.next_ids),
        ),
      )
  own-Agree s t (update_profile_call p) h = elim (Option-cases (get (key_of p) t.profiles)) [
    | inl e ↦ rw (get-Agree (key_of p).0 p.speaker_id s t h, e) (refl, h)
    | inr (old, e) ↦
        rw (get-Agree (key_of p).0 p.speaker_id s t h, e)
          (refl, (set-own (key_of p) p s.profiles t.profiles h.0, h.1))
  ]
  own-Agree s t (rename_speaker_call j id name) h = elim (Option-cases (get (j, id) t.profiles)) [
    | inl e ↦ rw (get-Agree j id s t h, e) (refl, h)
    | inr (old, e) ↦
        rw (get-Agree j id s t h, e)
          (
            refl,
            (set-own (j, id) (record old { display_name = name }) s.profiles t.profiles h.0, h.1),
          )
  ]
  own-Agree s t (delete_session_call j) h = (
    refl,
    (
      without-not (λ (i : ProfileKey). session_eq.same i.0 j) s.profiles
          ∙ sym (without-not (λ (i : ProfileKey). session_eq.same i.0 j) t.profiles),
      get-pop_self j s.next_ids ∙ sym (get-pop_self j t.next_ids),
    ),
  )

  replies_of-Agree :
      (s t : Store R V) (k : SessionKey) (calls : List (Call R V))
      → Agree k s t
      → replies_of memory_step k s calls
        ≡ replies memory_step t (keep (λ c. session_eq.same (session_of c) k) calls)
  unfolding replies_of replies
  replies_of-Agree s t k [] h = refl
  replies_of-Agree s t k (c ∷ calls) h = elim (Bool-cases (session_eq.same (session_of c) k)) [
    | inl e ↦
        let same : session_of c ≡ k = (session_eq.same_iff (session_of c) k).0 e in
        let step = own-Agree s t c (subst (λ j. Agree j s t) (sym same) h) in
        rw (
          e,
          step.0,
          replies_of-Agree (memory_step s c).0 (memory_step t c).0 k calls
              (subst (λ j. Agree j (memory_step s c).0 (memory_step t c).0) same step.1),
        )
    | inr e ↦
        let (a, b) =
          other-Agree s k c
            (λ f. absurd (ground (arith, (session_eq.same_iff (session_of c) k).1 f))) in
        rw (e, replies_of-Agree (memory_step s c).0 t k calls (a ∙ h.0, b ∙ h.1))
  ]

  -- What a session is told in a run that serves every session is what it is told when only its own
  -- calls are made.
  pub replies_of-replies :
      (st : Store R V) (k : SessionKey) (calls : List (Call R V))
      → replies_of memory_step k st calls
        ≡ replies memory_step st (keep (λ c. session_eq.same (session_of c) k) calls)
  replies_of-replies st k calls = replies_of-Agree st st k calls (refl, refl)
