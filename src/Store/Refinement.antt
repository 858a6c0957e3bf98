-- ===== src/Store/Refinement.antt =====
-- The two stores as one: the SQL statements do what the dictionaries do.
use cuebee_speaker_serving.Base.{
  ◌+◌, ◌<◌, ◌≤◌, length, ltb, ℕ, ◌≡◌, refl, subst, ap, inl, inr, true, ◌&&◌, if◌then◌else◌, String,
  List, [], ◌∷◌, Option, none, some, arith, Bool-cases, Option-cases,
}
use cuebee_speaker_serving.Base.Int.{ℤ, pos}
use cuebee_speaker_serving.Base.Eq.{string_eq, pair_eq, text_eq}
use cuebee_speaker_serving.Base.Dict.{Dict, get, set, get-pop, without, IsDict, pop-is-without}
use cuebee_speaker_serving.Base.Float.{Float}
use cuebee_speaker_serving.Base.Keep.{All}
use cuebee_speaker_serving.Store.SpeakerId.{Digits}
use cuebee_speaker_serving.Domain.{SpeakerProfile, ok}
use cuebee_speaker_serving.Store.{
  Store, SessionKey, ProfileKey, session_eq, profile_eq, key_of, session_profiles, empty,
  new_profile,
}
use cuebee_speaker_serving.Store.Memory
use cuebee_speaker_serving.Store.Memory.{next_id}
use cuebee_speaker_serving.Store.Sqlite
use cuebee_speaker_serving.Store.Sqlite.{int_limit, fits, max_suffix, next_speaker, update_row}
use cuebee_speaker_serving.Store.Calls.{
  Call, list_profiles_call, create_profile_call, update_profile_call, rename_speaker_call,
  delete_session_call, memory_step, sqlite_step, replies, session_of,
}
use cuebee_speaker_serving.Store.Fresh.{next-inserted, IsStore, empty-IsStore, memory_step-IsStore}

-- A quality that is not NaN, which alone is not equal to itself, and a time of 64 bits.
abbrev pub IsStorable : {R : Type 0} ⦃float : Float R⦄ → R → ℤ → Type 0
IsStorable ⦃float⦄ quality last_active_ms =
    (fits last_active_ms ≡ true) × (float.eq quality quality ≡ true)

module _ {R V : Type 0} where
  no_profiles :
      (k : SessionKey) (d : Dict ProfileKey (SpeakerProfile R V))
      → ((id : List ℕ) → get (k, id) d ≡ none)
      → session_profiles k d ≡ []
  unfolding get without
  no_profiles k [] h = refl
  no_profiles k (((i, id), p) ∷ d) h = elim (Bool-cases (session_eq.same i k)) [
    | inl e ↦
        let here : profile_eq.same (i, id) (k, id) ≡ true =
          (profile_eq.same_iff (i, id) (k, id)).1
            (ap (λ s. (s, id)) ((session_eq.same_iff i k).0 e)) in
        let hit : some p ≡ none =
          subst (λ b. (if b then some p else get (k, id) d) ≡ none) here (h id) in
        absurd (ground arith)
    | inr e ↦ rw e (
        no_profiles k d (λ id'.
          subst (λ b. (if b && text_eq.same id id' then some p else get (k, id') d) ≡ none) e
            (h id')))
  ]

  next_speaker-next_id :
      ⦃digits : Digits⦄
      → (st : Store R V) (k : SessionKey) → IsStore st
      → next_speaker st k ≡ ok (next_id st k)
  unfolding max_suffix
  next_speaker-next_id st k h = elim (Option-cases (get k st.next_ids)) [
    | inl e ↦ rw (e, no_profiles k st.profiles (λ id. h.unstarted k id e))
    | inr (n, e) ↦ rw e
  ]

  pub create_profile-agree :
      ⦃float : Float R⦄ ⦃digits : Digits⦄
      → (st : Store R V) (k : SessionKey) (centroid : V) (quality : R) (last_active_ms : ℤ)
      → IsStore st
      → next_id st k + 1 < int_limit
      → IsStorable quality last_active_ms
      → Sqlite.create_profile st k centroid quality last_active_ms
        ≡ Memory.create_profile st k centroid quality last_active_ms
  unfolding Memory.create_profile Sqlite.create_profile
  create_profile-agree st k centroid quality last_active_ms h room s =
      let counted : ltb (next_id st k + 1) int_limit ≡ true = ground arith in
      rw (next_speaker-next_id st k h, counted, s.0, s.1, h.fresh k (next_id st k) (omega arith))

  update_row-absent :
      (j : ProfileKey) (f : SpeakerProfile R V → SpeakerProfile R V)
      (d : Dict ProfileKey (SpeakerProfile R V))
      → get j d ≡ none
      → update_row j f d ≡ (d, 0)
  unfolding get update_row
  update_row-absent j f [] h = refl
  update_row-absent j f ((i, p) ∷ d) h = elim (Bool-cases (profile_eq.same i j)) [
    | inl e ↦
        let hit : some p ≡ none = subst (λ b. (if b then some p else get j d) ≡ none) e h in
        absurd (ground arith)
    | inr e ↦
        rw (e, update_row-absent j f d (subst (λ b. (if b then some p else get j d) ≡ none) e h))
  ]

  update_row-present :
      (j : ProfileKey) (f : SpeakerProfile R V → SpeakerProfile R V) (old : SpeakerProfile R V)
      (d : Dict ProfileKey (SpeakerProfile R V))
      → IsDict d
      → get j d ≡ some old
      → update_row j f d ≡ (set j (f old) d, 1)
  unfolding get set update_row
  update_row-present j f old [] u h = absurd (ground arith)
  update_row-present j f old ((i, p) ∷ d) u h = elim (Bool-cases (profile_eq.same i j)) [
    | inl e ↦
        let hit : some p ≡ some old = subst (λ b. (if b then some p else get j d) ≡ some old) e h in
        let rest : get j d ≡ none =
          subst (λ l. get l d ≡ none) ((profile_eq.same_iff i j).0 e) u.0 in
        let same : p ≡ old = ground arith in rw (e, update_row-absent j f d rest, same)
    | inr e ↦
        let rest : get j d ≡ some old =
          subst (λ b. (if b then some p else get j d) ≡ some old) e h in
        rw (e, update_row-present j f old d u.1 rest)
  ]

  pub update_profile-agree :
      ⦃float : Float R⦄
      → (st : Store R V) (p : SpeakerProfile R V) → IsStore st
      → fits (pos p.sample_count) ≡ true
      → IsStorable p.quality_ema p.last_active_ms
      → Sqlite.update_profile st p ≡ Memory.update_profile st p
  unfolding Memory.update_profile Sqlite.update_profile
  update_profile-agree st p h n s = elim (Option-cases (get (key_of p) st.profiles)) [
    | inl e ↦ rw (n, s.0, e, update_row-absent (key_of p) (Sqlite.overwrite p) st.profiles e)
    | inr (old, e) ↦
        let same : Sqlite.overwrite p old ≡ p =
          ap
            (λ (j : ProfileKey). record p {
              tenant_id = j.0.0;
              session_id = j.0.1;
              speaker_id = j.1;
            })
            (h.keyed (key_of p) old e) in
        rw (
          n,
          s.0,
          e,
          update_row-present (key_of p) (Sqlite.overwrite p) old st.profiles h.is_dict e,
          s.1,
          same,
        )
  ]

  rename_speaker-agree :
      (st : Store R V) (k : SessionKey) (id : List ℕ) (name : Option String)
      → IsStore st
      → Sqlite.rename_speaker st k id name ≡ Memory.rename_speaker st k id name
  unfolding Memory.rename_speaker Sqlite.rename_speaker
  rename_speaker-agree st k id name h = elim (Option-cases (get (k, id) st.profiles)) [
    | inl e ↦
        rw (e, update_row-absent (k, id) (λ p. record p { display_name = name }) st.profiles e)
    | inr (old, e) ↦ rw (
      e,
      update_row-present (k, id) (λ p. record p { display_name = name }) old st.profiles h.is_dict
          e,
    )
  ]

  delete_session-agree :
      (st : Store R V) (k : SessionKey) → Sqlite.delete_session st k ≡ Memory.delete_session st k
  unfolding Memory.delete_session Sqlite.delete_session
  delete_session-agree st k = rw (pop-is-without k st.next_ids)

  -- SQLite can hold what the call writes.
  abbrev pub IsStorableCall : ⦃float : Float R⦄ → Call R V → Type 0
  IsStorableCall (create_profile_call k centroid quality last_active_ms) =
      IsStorable quality last_active_ms
  IsStorableCall (update_profile_call p) =
      (fits (pos p.sample_count) ≡ true) × IsStorable p.quality_ema p.last_active_ms
  IsStorableCall (list_profiles_call k) = Unit
  IsStorableCall (rename_speaker_call k id name) = Unit
  IsStorableCall (delete_session_call k) = Unit

  -- A call moves the counter of a session by one at most.
  next_id-le-suc :
      (st : Store R V) (k : SessionKey) (c : Call R V)
      → next_id (memory_step st c).0 k ≤ next_id st k + 1
  unfolding memory_step Memory.create_profile Memory.update_profile Memory.rename_speaker
      Memory.delete_session
  next_id-le-suc st k (list_profiles_call j) = omega arith
  next_id-le-suc st k (create_profile_call j centroid quality last_active_ms) =
      let p = new_profile j (next_id st j) centroid quality last_active_ms in
      elim (Bool-cases (session_eq.same j k)) [
        | inl e ↦
            let same : next_id st j ≡ next_id st k =
              ap (next_id st) ((session_eq.same_iff j k).0 e) in
            ground (arith, next-inserted st j k (next_id st j) p)
        | inr e ↦ ground (arith, next-inserted st j k (next_id st j) p)
      ]
  next_id-le-suc st k (update_profile_call p) = elim (Option-cases (get (key_of p) st.profiles)) [
    | inl e ↦ rw e (omega arith)
    | inr (old, e) ↦ rw e (omega arith)
  ]
  next_id-le-suc st k (rename_speaker_call j id name) =
      elim (Option-cases (get (j, id) st.profiles)) [
        | inl e ↦ rw e (omega arith)
        | inr (old, e) ↦ rw e (omega arith)
      ]
  next_id-le-suc st k (delete_session_call j) = elim (Bool-cases (session_eq.same j k)) [
    | inl e ↦ rw (get-pop j k st.next_ids, e) (omega arith)
    | inr e ↦ rw (get-pop j k st.next_ids, e) (omega arith)
  ]

module _ {R V : Type 0} ⦃float : Float R⦄ ⦃digits : Digits⦄ where
  -- On a store whose invariant holds, each call that SQLite can store does and answers the same in
  -- both stores.
  steps-agree :
      (st : Store R V) (c : Call R V)
      → IsStore st
      → next_id st (session_of c) + 1 < int_limit
      → IsStorableCall c
      → sqlite_step st c ≡ memory_step st c
  unfolding memory_step sqlite_step
  steps-agree st (list_profiles_call k) h room s = refl
  steps-agree st (create_profile_call k centroid quality last_active_ms) h room s =
      rw (create_profile-agree st k centroid quality last_active_ms h room s)
  steps-agree st (update_profile_call p) h room s = rw (update_profile-agree st p h s.0 s.1)
  steps-agree st (rename_speaker_call k id name) h room s = rw (rename_speaker-agree st k id name h)
  steps-agree st (delete_session_call k) h room s = rw (delete_session-agree st k)

  replies-agree_from :
      (st : Store R V) (calls : List (Call R V))
      → IsStore st
      → ((k : SessionKey) → next_id st k + length calls < int_limit)
      → All IsStorableCall calls
      → replies sqlite_step st calls ≡ replies memory_step st calls
  unfolding replies
  replies-agree_from st [] h room s = refl
  replies-agree_from st (c ∷ calls) h room s =
      let here : next_id st (session_of c) + 1 < int_limit = omega (arith, room (session_of c)) in
      rw (
        steps-agree st c h here s.0,
        replies-agree_from (memory_step st c).0 calls (memory_step-IsStore st c h)
            (λ k. omega (arith, room k, next_id-le-suc st k c)) s.1,
      )

  -- From an empty store, both stores give the same replies to any sequence of fewer than 2 ^ 63 - 1
  -- calls whose integers have 64 bits and whose qualities are not NaN.
  pub replies-agree :
      (calls : List (Call R V))
      → length calls + 1 < int_limit
      → All IsStorableCall calls
      → replies sqlite_step empty calls ≡ replies memory_step empty calls
  unfolding empty get
  replies-agree calls room s =
      replies-agree_from empty calls empty-IsStore (λ k. omega (arith, room)) s
