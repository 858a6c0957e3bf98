-- ===== src/Assignment/Stores.antt =====
-- The assigner on each of the two stores.
use cuebee_speaker_serving.Base.{
  ℕ, zero, suc, ◌+◌, ◌<◌, true, List, [], ◌∷◌, get_elem?, ◌≡◌, refl, Option, none, some, Bool-cases,
  inl, inr,
}
use cuebee_speaker_serving.Base.Float.{Float}
use cuebee_speaker_serving.Config.{AssignmentConfig}
use cuebee_speaker_serving.Domain.{
  EmbeddingResult, SpeakerProfile, Result, ok, raised, ◌>>=◌, Returning, Returning->>=,
}
use cuebee_speaker_serving.Store.{Store, list_profiles}
use cuebee_speaker_serving.Store.Memory
use cuebee_speaker_serving.Store.Sqlite
use cuebee_speaker_serving.Store.Sqlite.{fits, int_limit}
use cuebee_speaker_serving.Store.Memory.{next_id}
use cuebee_speaker_serving.Store.SpeakerId.{Digits}
use cuebee_speaker_serving.Base.Int.{ℤ, pos}
use cuebee_speaker_serving.Base.Keep.{All}
use cuebee_speaker_serving.Store.Fresh.{IsStore}
use cuebee_speaker_serving.Store.Refinement.{IsStorable, create_profile-agree, update_profile-agree}
use cuebee_speaker_serving.Assignment.{
  Vectors, SpeakerStore, assign, identified, placed, enrolled, recognised, normalize, nearest,
  scores_of, chosen, updated_profile, session_of,
}

abbrev pub memory_store : {R V : Type 0} → SpeakerStore R V (Store R V)
memory_store = record {
  list_profiles = list_profiles;
  create_profile = Memory.create_profile;
  update_profile = Memory.update_profile;
  rename_speaker = Memory.rename_speaker;
}

abbrev pub sqlite_store :
    {R V : Type 0} ⦃float : Float R⦄ ⦃digits : Digits⦄ → SpeakerStore R V (Store R V)
sqlite_store = record {
  list_profiles = list_profiles;
  create_profile = Sqlite.create_profile;
  update_profile = Sqlite.update_profile;
  rename_speaker = Sqlite.rename_speaker;
}

-- Chains with continuations that are equal on what the first call may return.
>>=-cong :
    {A B : Type 0} (P : A → Type 0) (first : Result A) (f g : A → Result B)
    → Returning P first
    → ((a : A) → P a → f a ≡ g a)
    → (first >>= f) ≡ (first >>= g)
>>=-cong P (raised e) f g r h = refl
>>=-cong P (ok a) f g r h = h a r

anything : {A : Type 0} (r : Result A) → Returning (λ a. Unit) r
anything (raised e) = tt
anything (ok a) = tt

module _ {R V : Type 0} ⦃float : Float R⦄ ⦃digits : Digits⦄ (np : Vectors R V)
    (c : AssignmentConfig R) where
  open float use {add, sub, mul, decimal}

  -- The count that an update of the profile writes has 64 bits, and its mean quality is not NaN.
  abbrev pub IsUpdatable : R → SpeakerProfile R V → Type 0
  IsUpdatable quality p =
      let ema =
        add (mul (sub (decimal 1 0) c.quality_ema_alpha) p.quality_ema)
          (mul c.quality_ema_alpha quality) in
      (fits (pos (p.sample_count + 1)) ≡ true) × (float.eq ema ema ≡ true)

  -- A profile that is selected has the property.
  abbrev OfSelected : (SpeakerProfile R V → Type 0) → Option (SpeakerProfile R V × R) → Type 0
  OfSelected P none = Unit
  OfSelected P (some (p, score)) = P p

  get_elem?-All :
      (P : SpeakerProfile R V → Type 0) (l : List (SpeakerProfile R V)) (i : ℕ) (score : Option R)
      → All P l
      → Returning (OfSelected P) (chosen np (get_elem? l i) score)
  get_elem?-All P [] i score h = tt
  get_elem?-All P (p ∷ l) zero none h = tt
  get_elem?-All P (p ∷ l) zero (some score) h = h.0
  get_elem?-All P (p ∷ l) (suc i) score h = get_elem?-All P l i score h.1

  nearest-Returning :
      (P : SpeakerProfile R V → Type 0) (embedding : V) (l : List (SpeakerProfile R V))
      → All P l
      → Returning (OfSelected P) (nearest np embedding l)
  unfolding nearest
  nearest-Returning P embedding [] h = tt
  nearest-Returning P embedding (p ∷ l) h =
      Returning->>= (OfSelected P) (scores_of np embedding (p ∷ l)) _ (λ scores.
        get_elem?-All P (p ∷ l) (np.argmax scores) (get_elem? scores (np.argmax scores)) h)

  -- What `_updated_profile` gives can be stored.
  abbrev IsStorableProfile : SpeakerProfile R V → Type 0
  IsStorableProfile q =
      (fits (pos q.sample_count) ≡ true) × IsStorable q.quality_ema q.last_active_ms

  updated_profile-Returning :
      (p : SpeakerProfile R V) (embedding : V) (quality : R) (last_active_ms : ℤ)
      → IsUpdatable quality p
      → fits last_active_ms ≡ true
      → Returning IsStorableProfile (updated_profile np c p embedding quality last_active_ms)
  unfolding updated_profile
  updated_profile-Returning p embedding quality last_active_ms u f =
      Returning->>= IsStorableProfile _ _
        (λ sum. Returning->>= IsStorableProfile (normalize np sum) _ (λ centroid. (u.0, (f, u.1))))

  module _ (st : Store R V) (result : EmbeddingResult R V) (h : IsStore st)
      (room : next_id st (session_of np result) + 1 < int_limit)
      (storable : IsStorable result.quality result.chunk.end_ms) where
    enrolled-agree :
        (embedding : V)
        → enrolled np sqlite_store c st result embedding
          ≡ enrolled np memory_store c st result embedding
    unfolding enrolled
    enrolled-agree embedding = rw (
        create_profile-agree st (session_of np result) embedding result.quality result.chunk.end_ms
          h room storable)

    recognised-agree :
        (embedding : V) (p : SpeakerProfile R V) (score : R)
        → IsUpdatable result.quality p
        → recognised np sqlite_store c st result embedding p score
          ≡ recognised np memory_store c st result embedding p score
    unfolding recognised
    recognised-agree embedding p score u =
        >>=-cong IsStorableProfile
          (updated_profile np c p embedding result.quality result.chunk.end_ms) _ _
          (updated_profile-Returning p embedding result.quality result.chunk.end_ms u storable.0)
          (λ q s. rw (update_profile-agree st q h s.0 s.1))

    placed-agree :
        (embedding : V) (best : Option (SpeakerProfile R V × R))
        → OfSelected (IsUpdatable result.quality) best
        → placed np sqlite_store c st result embedding best
          ≡ placed np memory_store c st result embedding best
    unfolding placed
    placed-agree embedding none u = enrolled-agree embedding
    placed-agree embedding (some (p, score)) u =
        rw (enrolled-agree embedding, recognised-agree embedding p score u)

    -- On a store whose invariant holds, with a counter of the session that is below 2 ^ 63 - 1, the
    -- assigner does the same over the SQLite store as over the store in memory: the segment, the store
    -- behind it and the exceptions are equal. The result's quality is not NaN and its end has 64 bits;
    -- and for each profile of the session, the count that an update writes has 64 bits and the mean
    -- quality is not NaN.
    pub assign-agree :
        All (IsUpdatable result.quality) (list_profiles st (session_of np result))
        → assign np sqlite_store c st result ≡ assign np memory_store c st result
    unfolding assign identified
    assign-agree u = elim (Bool-cases (float.lt result.quality c.min_quality)) [
      | inl e ↦ rw e
      | inr e ↦ rw e (
          >>=-cong (λ a. Unit) (normalize np result.embedding) _ _
            (anything (normalize np result.embedding))
            (λ embedding x.
              >>=-cong (OfSelected (IsUpdatable result.quality))
                (nearest np embedding (list_profiles st (session_of np result))) _ _
                (nearest-Returning (IsUpdatable result.quality) embedding
                  (list_profiles st (session_of np result)) u)
                (λ best v. placed-agree embedding best v)))
    ]
