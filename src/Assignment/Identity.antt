-- ===== src/Assignment/Identity.antt =====
-- What an assignment does to the store in memory, and the speaker that its segment names.
use cuebee_speaker_serving.Base.{
  ℕ, ◌≡◌, ◌≢◌, ◌⊎◌, refl, sym, subst, ap, ◌∙◌, Bool, true, List, [], ◌∷◌, Option, none, some, arith,
  Bool-cases, inl, inr,
}
use cuebee_speaker_serving.Base.Int.{ℤ}
use cuebee_speaker_serving.Base.Eq.{string_eq, pair_eq, text_eq, same_refl}
use cuebee_speaker_serving.Base.Dict.{
  Dict, get, set, values, without, IsDict, get-set, get-set_self,
}
use cuebee_speaker_serving.Base.Keep.{All, All-map, All-In}
use cuebee_speaker_serving.Base.Sort.{All-sorted}
use cuebee_speaker_serving.Base.Float.{Float}
use cuebee_speaker_serving.Config.{AssignmentConfig}
use cuebee_speaker_serving.Domain.{
  EmbeddingResult, SpeakerProfile, SpeakerSegment, ok, >>=-eq-ok, ok_injective,
}
use cuebee_speaker_serving.Store.{
  Store, SessionKey, ProfileKey, session_eq, profile_eq, key_of, session_profiles, new_profile,
  inserted, list_profiles,
}
use cuebee_speaker_serving.Store.Memory
use cuebee_speaker_serving.Store.Memory.{next_id}
use cuebee_speaker_serving.Store.Fresh.{IsStore, inserted-IsStore, replaced-IsStore}
use cuebee_speaker_serving.Store.Isolation.{set-other}
use cuebee_speaker_serving.Alignment.{unknown}
use cuebee_speaker_serving.Assignment.{
  Vectors, assign, identified, placed, enrolled, recognised, normalize, nearest, updated_profile,
  session_of, segment_of,
}
use cuebee_speaker_serving.Assignment.Nearest.{nearest-In}
use cuebee_speaker_serving.Assignment.Stores.{memory_store}

module _ {R V : Type 0} where
  -- The profile is the one that the store holds of a speaker of the session.
  abbrev IsListed : SessionKey → Dict ProfileKey (SpeakerProfile R V) → SpeakerProfile R V → Type 0
  IsListed k d p = ((key_of p).0 ≡ k) × (get (key_of p) d ≡ some p)

  get-cons :
      (j i : ProfileKey) (p q : SpeakerProfile R V) (d : Dict ProfileKey (SpeakerProfile R V))
      → get j d ≡ none
      → get i d ≡ some q
      → get i ((j, p) ∷ d) ≡ some q
  unfolding get
  get-cons j i p q d h e = elim (Bool-cases (profile_eq.same j i)) [
    | inl f ↦
        let gone : get i d ≡ none = subst (λ k. get k d ≡ none) ((profile_eq.same_iff j i).0 f) h in
        absurd (ground arith)
    | inr f ↦ rw f e
  ]

  entries :
      (d : Dict ProfileKey (SpeakerProfile R V)) → IsDict d → All (λ e. get e.0 d ≡ some e.1) d
  unfolding get
  entries [] h = tt
  entries ((j, p) ∷ d) h = (
    rw (same_refl j),
    All-map {P = λ (e : ProfileKey × SpeakerProfile R V). get e.0 d ≡ some e.1}
        {Q = λ e. get e.0 ((j, p) ∷ d) ≡ some e.1} (λ e f. get-cons j e.0 p e.1 d h.0 f) d
        (entries d h.1),
  )

  listed :
      (Q : SpeakerProfile R V → Type 0) (k : SessionKey) (d : Dict ProfileKey (SpeakerProfile R V))
      → All (λ e. session_eq.same e.0.0 k ≡ true → Q e.1) d
      → All Q (values (session_profiles k d))
  unfolding without
  listed Q k [] h = tt
  listed Q k ((j, p) ∷ d) h = elim (Bool-cases (session_eq.same j.0 k)) [
    | inl e ↦ rw e (h.0 e, listed Q k d h.1)
    | inr e ↦ rw e (listed Q k d h.1)
  ]

  -- What a write of the profile `p` in the session `k` leaves of the store.
  pub record Effect (st st' : Store R V) (k : SessionKey) : Type 0 where
    pub sound : IsStore st'
    pub isolated :
        (j : SessionKey) → k ≢ j → session_profiles j st'.profiles ≡ session_profiles j st.profiles
    pub kept :
        (j : ProfileKey) (p : SpeakerProfile R V)
        → get j st.profiles ≡ some p
        → (q : SpeakerProfile R V) × (get j st'.profiles ≡ some q)

  set-kept :
      (j i : ProfileKey) (p q : SpeakerProfile R V) (d : Dict ProfileKey (SpeakerProfile R V))
      → get j d ≡ some p
      → (r : SpeakerProfile R V) × (get j (set i q d) ≡ some r)
  set-kept j i p q d h = elim (Bool-cases (profile_eq.same i j)) [
    | inl e ↦ (q, get-set i j q d ∙ rw e)
    | inr e ↦ (p, get-set i j q d ∙ rw e h)
  ]

  -- For a result of low quality no speaker is named and the store is as it was; or the store holds
  -- the speaker that is named.
  abbrev pub IsNamed : Bool → Store R V → Store R V → SessionKey → List ℕ → Type 0
  IsNamed low st st' k id =
      ((low ≡ true) × (st' ≡ st) × (id ≡ unknown))
      ⊎ ((p : SpeakerProfile R V) × (get (k, id) st'.profiles ≡ some p))

  list_profiles-IsListed :
      (st : Store R V) (k : SessionKey)
      → IsStore st
      → All (IsListed k st.profiles) (list_profiles st k)
  unfolding list_profiles
  list_profiles-IsListed st k h =
      All-sorted _ (IsListed k st.profiles) (values (session_profiles k st.profiles)) (
        listed (IsListed k st.profiles) k st.profiles (
          All-map {P = λ (e : ProfileKey × SpeakerProfile R V). get e.0 st.profiles ≡ some e.1}
            {Q = λ e. session_eq.same e.0.0 k ≡ true → IsListed k st.profiles e.1}
            (λ e f same.
              let key : key_of e.1 ≡ e.0 = h.keyed e.0 e.1 f in
              (
                ap (λ (j : ProfileKey). j.0) key ∙ (session_eq.same_iff e.0.0 k).0 same,
                subst (λ j. get j st.profiles ≡ some e.1) (sym key) f,
              ))
            st.profiles (entries st.profiles h.is_dict)))

  -- A write under a key of the session.
  written-Effect :
      (st st' : Store R V) (k : SessionKey) (i : ProfileKey) (q : SpeakerProfile R V)
      → IsStore st'
      → st'.profiles ≡ set i q st.profiles
      → i.0 ≡ k
      → Effect st st' k
  written-Effect st st' k i q h e f = record {
    sound = h;
    isolated =
        λ j ne. ap (session_profiles j) e ∙ set-other j i q st.profiles (λ g. ne (sym f ∙ g));
    kept = λ j p g.
        subst (λ d. (r : SpeakerProfile R V) × (get j d ≡ some r)) (sym e)
          (set-kept j i p q st.profiles g);
  }

  unchanged-Effect : (st : Store R V) (k : SessionKey) → IsStore st → Effect st st k
  unchanged-Effect st k h = record { sound = h; isolated = λ j ne. refl; kept = λ j p g. (p, g) }

module _ {R V : Type 0} ⦃float : Float R⦄ (np : Vectors R V) (c : AssignmentConfig R) where
  -- The effect of an assignment, and the name that its segment carries.
  abbrev pub Outcome : Store R V → EmbeddingResult R V → Store R V × SpeakerSegment R → Type 0
  Outcome st result r =
      Effect st r.0 (session_of np result)
      × IsNamed (float.lt result.quality c.min_quality) st r.0 (session_of np result) r.1.speaker_id

  enrolled-Outcome :
      (st : Store R V) (result : EmbeddingResult R V) (embedding : V)
      (r : Store R V × SpeakerSegment R)
      → IsStore st
      → enrolled np memory_store c st result embedding ≡ ok r
      → Outcome st result r
  unfolding enrolled Memory.create_profile
  enrolled-Outcome st result embedding r h e =
      let k = session_of np result in
      let n = next_id st k in
      let p = new_profile k n embedding result.quality result.chunk.end_ms in
      let st' = inserted st k n p in
      subst (Outcome st result) (ok_injective e) (
        written-Effect st st' k (key_of p) p
            (inserted-IsStore st k embedding result.quality result.chunk.end_ms h) refl refl,
        inr (p, get-set_self (key_of p) p st.profiles),
      )

  updated_profile-key_of :
      (p q : SpeakerProfile R V) (embedding : V) (quality : R) (last_active_ms : ℤ)
      → updated_profile np c p embedding quality last_active_ms ≡ ok q
      → key_of p ≡ key_of q
  unfolding updated_profile
  updated_profile-key_of p q embedding quality last_active_ms e =
      let (sum, e1, f1) = >>=-eq-ok (np.plus _ _) _ e in
      let (centroid, e2, f2) = >>=-eq-ok (normalize np sum) _ f1 in ap key_of (ok_injective f2)

  recognised-Outcome :
      (st : Store R V) (result : EmbeddingResult R V) (embedding : V) (p : SpeakerProfile R V)
      (score : R) (r : Store R V × SpeakerSegment R)
      → IsStore st
      → IsListed (session_of np result) st.profiles p
      → recognised np memory_store c st result embedding p score ≡ ok r
      → Outcome st result r
  unfolding recognised Memory.update_profile
  recognised-Outcome st result embedding p score r h (own, found) e =
      let k = session_of np result in
      let (q, e1, f1) =
        >>=-eq-ok (updated_profile np c p embedding result.quality result.chunk.end_ms) _ e in
      let key : key_of p ≡ key_of q =
        updated_profile-key_of p q embedding result.quality result.chunk.end_ms e1 in
      let there : get (key_of q) st.profiles ≡ some p =
        subst (λ j. get j st.profiles ≡ some p) key found in
      let st' : Store R V = record st { profiles = set (key_of q) q st.profiles } in
      let mine : (key_of q).0 ≡ k = ap (λ (j : ProfileKey). j.0) (sym key) ∙ own in
      let (st1, e2, f2) = >>=-eq-ok (Memory.update_profile st q) _ f1 in
      let same : st' ≡ st1 = ok_injective {A = Store R V} (sym (rw there) ∙ e2) in
      subst (Outcome st result) (ok_injective f2) (
        subst
          (λ s. Effect st s k × IsNamed (float.lt result.quality c.min_quality) st s k q.speaker_id)
          same
          (
            written-Effect st st' k (key_of q) q (replaced-IsStore st q p h there) refl mine,
            inr (
              q,
              subst (λ j. get (j, q.speaker_id) st'.profiles ≡ some q) mine
                  (get-set_self (key_of q) q st.profiles),
            ),
          ))

  placed-Outcome :
      (st : Store R V) (result : EmbeddingResult R V) (embedding : V)
      (best : Option (SpeakerProfile R V × R)) (r : Store R V × SpeakerSegment R)
      → IsStore st
      → nearest np embedding (list_profiles st (session_of np result)) ≡ ok best
      → placed np memory_store c st result embedding best ≡ ok r
      → Outcome st result r
  unfolding placed
  placed-Outcome st result embedding none r h n e = enrolled-Outcome st result embedding r h e
  placed-Outcome st result embedding (some (p, score)) r h n e =
      elim (Bool-cases (float.lt score c.cosine_threshold)) [
        | inl f ↦ enrolled-Outcome st result embedding r h (sym (rw f) ∙ e)
        | inr f ↦
            let k = session_of np result in
            let mine =
              All-In (IsListed k st.profiles) (list_profiles st k) (list_profiles-IsListed st k h)
                (nearest-In np embedding (list_profiles st k) p score n) in
            recognised-Outcome st result embedding p score r h mine (sym (rw f) ∙ e)
      ]

  -- An assignment that returns keeps the invariant of the store, what the store holds of every other
  -- session, and every speaker of its own. Its segment names a speaker of the session that the store
  -- then holds; or it names none, the quality is below the minimum, and the store is unchanged.
  pub assign-Outcome :
      (st : Store R V) (result : EmbeddingResult R V) (r : Store R V × SpeakerSegment R)
      → IsStore st
      → assign np memory_store c st result ≡ ok r
      → Outcome st result r
  unfolding assign identified
  assign-Outcome st result r h e = elim (Bool-cases (float.lt result.quality c.min_quality)) [
    | inl f ↦
        let low : ok (st, segment_of np result unknown result.quality) ≡ ok r = sym (rw f) ∙ e in
        subst (Outcome st result) (ok_injective low)
          (unchanged-Effect st (session_of np result) h, inl (f, refl, refl))
    | inr f ↦
        let whole : identified np memory_store c st result ≡ ok r = sym (rw f) ∙ e in
        let (embedding, e1, f1) = >>=-eq-ok (normalize np result.embedding) _ whole in
        let (best, e2, f2) =
          >>=-eq-ok (nearest np embedding (list_profiles st (session_of np result))) _ f1 in
        placed-Outcome st result embedding best r h e2 f2
  ]
