-- ===== src/Store/Fresh.antt =====
-- The invariant of a store, and the identifiers that it allocates.
use cuebee_speaker_serving.Base.{
  ℕ, ◌+◌, ◌≤◌, ◌<◌, ◌≡◌, refl, sym, subst, ap, ◌∙◌, inl, inr, String, List, Option, none, some,
  arith, if◌then◌else◌, Bool-cases, Option-cases,
}
use cuebee_speaker_serving.Base.Int.{ℤ}
use cuebee_speaker_serving.Base.Eq.{string_eq, pair_eq, text_eq}
use cuebee_speaker_serving.Base.Dict.{
  Dict, get, set, get-set, get-set_ne, get-set-some, get-set-none, get-set_absent, get-pop_ne,
  get-without-some, without-IsDict, get-without, IsDict, set-IsDict,
}
use cuebee_speaker_serving.Domain.{SpeakerProfile}
use cuebee_speaker_serving.Store.{
  Store, SessionKey, ProfileKey, session_eq, key_of, new_profile, get_or, inserted, empty,
}
use cuebee_speaker_serving.Store.SpeakerId.{format_id, format_id_injective}
use cuebee_speaker_serving.Store.Memory
use cuebee_speaker_serving.Store.Calls.{
  Call, list_profiles_call, create_profile_call, update_profile_call, rename_speaker_call,
  delete_session_call, memory_step,
}
use cuebee_speaker_serving.Store.Memory.{next_id}

module _ {R V : Type 0} where
  -- Each profile stands once, under its own key; a number from the counter on names no profile of
  -- its session, and a session with no counter has no profile.
  pub record IsStore (st : Store R V) : Type 0 where
    pub is_dict : IsDict st.profiles
    pub keyed :
        (j : ProfileKey) (p : SpeakerProfile R V) → get j st.profiles ≡ some p → key_of p ≡ j
    pub fresh :
        (k : SessionKey) (n : ℕ) → next_id st k ≤ n → get (k, format_id n) st.profiles ≡ none
    pub unstarted :
        (k : SessionKey) (id : List ℕ) → get k st.next_ids ≡ none → get (k, id) st.profiles ≡ none

  pub empty-IsStore : IsStore empty
  unfolding empty get
  empty-IsStore = record {
    is_dict = tt;
    keyed = λ j p e. absurd (ground arith);
    fresh = λ k n h. refl;
    unstarted = λ k id h. refl;
  }

  pub next-inserted :
      (st : Store R V) (k j : SessionKey) (n : ℕ) (p : SpeakerProfile R V)
      → next_id (inserted st k n p) j ≡ (if session_eq.same k j then n + 1 else next_id st j)
  next-inserted st k j n p = elim (Bool-cases (session_eq.same k j)) [
    | inl e ↦ rw (get-set k j (n + 1) st.next_ids, e)
    | inr e ↦ rw (get-set k j (n + 1) st.next_ids, e)
  ]

  inserted-keyed :
      (d : Dict ProfileKey (SpeakerProfile R V)) (p : SpeakerProfile R V)
      → ((j : ProfileKey) (q : SpeakerProfile R V) → get j d ≡ some q → key_of q ≡ j)
      → (j : ProfileKey) (q : SpeakerProfile R V) → get j (set (key_of p) p d) ≡ some q
      → key_of q ≡ j
  inserted-keyed d p h j q e = elim (get-set-some (key_of p) j p q d e) [
    | inl (s, t) ↦ ap key_of (sym t) ∙ s
    | inr s ↦ h j q s
  ]

  inserted-fresh :
      (st : Store R V) (k : SessionKey) (p : SpeakerProfile R V) (j : SessionKey) (m : ℕ)
      → IsStore st
      → key_of p ≡ (k, format_id (next_id st k))
      → next_id (inserted st k (next_id st k) p) j ≤ m
      → get (j, format_id m) (inserted st k (next_id st k) p).profiles ≡ none
  inserted-fresh st k p j m h key le = elim (Bool-cases (session_eq.same k j)) [
    | inl s ↦
        let above : next_id st k < m = ground (arith, next-inserted st k j (next_id st k) p) in
        let same : k ≡ j = (session_eq.same_iff k j).0 s in
        get-set_ne (key_of p) (j, format_id m) p st.profiles
          (λ e. absurd (
            ground (
              arith,
              format_id_injective (next_id st k) m (ap (λ (i : ProfileKey). i.1) (sym key ∙ e)),
            )))
        ∙ h.fresh j m (subst (λ i. next_id st i ≤ m) same (ground arith))
    | inr s ↦
        get-set_ne (key_of p) (j, format_id m) p st.profiles
          (λ e. absurd (
            ground
              (arith, (session_eq.same_iff k j).1 (ap (λ (i : ProfileKey). i.0) (sym key ∙ e)))))
        ∙ h.fresh j m (ground (arith, next-inserted st k j (next_id st k) p))
  ]

  inserted-unstarted :
      (st : Store R V) (k : SessionKey) (n : ℕ) (p : SpeakerProfile R V) (j : SessionKey)
      (id : List ℕ)
      → IsStore st
      → key_of p ≡ (k, format_id n)
      → get j (inserted st k n p).next_ids ≡ none
      → get (j, id) (inserted st k n p).profiles ≡ none
  inserted-unstarted st k n p j id h key e =
      let (ne, old) = get-set-none k j (n + 1) st.next_ids e in
      get-set_ne (key_of p) (j, id) p st.profiles
        (λ f. ne (ap (λ (i : ProfileKey). i.0) (sym key ∙ f)))
      ∙ h.unstarted j id old

  pub inserted-IsStore :
      (st : Store R V) (k : SessionKey) (centroid : V) (quality : R) (last_active_ms : ℤ)
      → IsStore st
      → IsStore (
          inserted st k
            (next_id st k)
            (new_profile k (next_id st k) centroid quality last_active_ms))
  inserted-IsStore st k centroid quality last_active_ms h =
      let p = new_profile k (next_id st k) centroid quality last_active_ms in
      record {
        is_dict = set-IsDict (key_of p) p st.profiles h.is_dict;
        keyed = inserted-keyed st.profiles p h.keyed;
        fresh = λ j m. inserted-fresh st k p j m h refl;
        unstarted = λ j id. inserted-unstarted st k (next_id st k) p j id h refl;
      }

  pub replaced-IsStore :
      (st : Store R V) (p old : SpeakerProfile R V)
      → IsStore st
      → get (key_of p) st.profiles ≡ some old
      → IsStore (record st { profiles = set (key_of p) p st.profiles })
  replaced-IsStore st p old h e = record {
    is_dict = set-IsDict (key_of p) p st.profiles h.is_dict;
    keyed = inserted-keyed st.profiles p h.keyed;
    fresh =
        λ k n le. get-set_absent (key_of p) (k, format_id n) p old st.profiles e (h.fresh k n le);
    unstarted =
        λ k id c. get-set_absent (key_of p) (k, id) p old st.profiles e (h.unstarted k id c);
  }

  delete_session-fresh :
      (st : Store R V) (k j : SessionKey) (n : ℕ)
      → IsStore st
      → next_id (Memory.delete_session st k) j ≤ n
      → get (j, format_id n) (Memory.delete_session st k).profiles ≡ none
  unfolding Memory.delete_session
  delete_session-fresh st k j n h le = elim (Bool-cases (session_eq.same j k)) [
    | inl e ↦
        rw (get-without (λ (i : ProfileKey). session_eq.same i.0 k) (j, format_id n) st.profiles, e)
    | inr e ↦
        get-without (λ i. session_eq.same i.0 k) (j, format_id n) st.profiles
        ∙ rw e (
            h.fresh j n (
              subst (λ o. get_or 1 o ≤ n)
                (get-pop_ne k j st.next_ids
                  (λ f. absurd (ground (arith, (session_eq.same_iff j k).1 (sym f)))))
                le))
  ]

  delete_session-unstarted :
      (st : Store R V) (k j : SessionKey) (id : List ℕ)
      → IsStore st
      → get j (Memory.delete_session st k).next_ids ≡ none
      → get (j, id) (Memory.delete_session st k).profiles ≡ none
  unfolding Memory.delete_session
  delete_session-unstarted st k j id h c = elim (Bool-cases (session_eq.same j k)) [
    | inl e ↦ rw (get-without (λ (i : ProfileKey). session_eq.same i.0 k) (j, id) st.profiles, e)
    | inr e ↦
        get-without (λ i. session_eq.same i.0 k) (j, id) st.profiles
        ∙ rw e (
            h.unstarted j id (
              sym (
                get-pop_ne k j st.next_ids
                  (λ f. absurd (ground (arith, (session_eq.same_iff j k).1 (sym f)))))
              ∙ c))
  ]

  delete_session-IsStore :
      (st : Store R V) (k : SessionKey) → IsStore st → IsStore (Memory.delete_session st k)
  unfolding Memory.delete_session
  delete_session-IsStore st k h = record {
    is_dict = without-IsDict (λ j. session_eq.same j.0 k) st.profiles h.is_dict;
    keyed =
        λ j p e. h.keyed j p (get-without-some (λ i. session_eq.same i.0 k) j p st.profiles e).1;
    fresh = λ j n le. delete_session-fresh st k j n h le;
    unstarted = λ j id c. delete_session-unstarted st k j id h c;
  }

  update_profile-IsStore :
      (st : Store R V) (p : SpeakerProfile R V)
      → IsStore st
      → IsStore (memory_step st (update_profile_call p)).0
  unfolding memory_step Memory.update_profile
  update_profile-IsStore st p h = elim (Option-cases (get (key_of p) st.profiles)) [
    | inl e ↦ rw e h
    | inr (old, e) ↦ rw e (replaced-IsStore st p old h e)
  ]

  rename_speaker-IsStore :
      (st : Store R V) (k : SessionKey) (id : List ℕ) (name : Option String)
      → IsStore st
      → IsStore (Memory.rename_speaker st k id name).0
  unfolding Memory.rename_speaker
  rename_speaker-IsStore st k id name h = elim (Option-cases (get (k, id) st.profiles)) [
    | inl e ↦ rw e h
    | inr (old, e) ↦
        let p : SpeakerProfile R V = record old { display_name = name } in
        let key : key_of old ≡ (k, id) = h.keyed (k, id) old e in
        let found : get (key_of old) st.profiles ≡ some old =
          subst (λ j. get j st.profiles ≡ some old) (sym key) e in
        rw e (
          subst (λ j. IsStore (record st { profiles = set j p st.profiles })) key
            (replaced-IsStore st p old h found))
  ]

  -- Every call keeps the invariant of the store: each profile once and under its own key, no number
  -- from the counter on in use, and no profile in a session without a counter.
  pub memory_step-IsStore :
      (st : Store R V) (c : Call R V) → IsStore st → IsStore (memory_step st c).0
  unfolding memory_step Memory.create_profile
  memory_step-IsStore st (list_profiles_call k) h = h
  memory_step-IsStore st (create_profile_call k centroid quality last_active_ms) h =
      inserted-IsStore st k centroid quality last_active_ms h
  memory_step-IsStore st (update_profile_call p) h = update_profile-IsStore st p h
  memory_step-IsStore st (rename_speaker_call k id name) h = rename_speaker-IsStore st k id name h
  memory_step-IsStore st (delete_session_call k) h = delete_session-IsStore st k h
