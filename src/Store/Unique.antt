-- ===== src/Store/Unique.antt =====
-- The identifiers that the stores allocate name no other speaker.
use cuebee_speaker_serving.Base.{
  ℕ, ◌<◌, ltb, true, Option, ◌+◌, ◌≤◌, ◌≡◌, refl, sym, subst, ap, ◌∙◌, ◌≢◌, inl, inr, Bool, false,
  not, if◌then◌else◌, List, [], ◌∷◌, none, some, arith, Bool-cases, Option-cases,
}
use cuebee_speaker_serving.Base.Int.{ℤ}
use cuebee_speaker_serving.Base.Eq.{string_eq, pair_eq, text_eq, same_refl}
use cuebee_speaker_serving.Base.Dict.{Dict, get, values, get-set_self, get-without, get-pop_ne}
use cuebee_speaker_serving.Base.Keep.{All}
use cuebee_speaker_serving.Base.Float.{Float}
use Prim.Native.Nat.{max}
use cuebee_speaker_serving.Domain.{SpeakerProfile, ok, ok_injective, >>=-eq-ok}
use cuebee_speaker_serving.Store.{
  Store, SessionKey, ProfileKey, session_eq, profile_eq, key_of, session_profiles, new_profile,
  get_or, inserted,
}
use cuebee_speaker_serving.Store.SpeakerId.{
  Digits, ReadsAscii, format_id, suffix, suffix-format_id, format_id_injective,
}
use cuebee_speaker_serving.Store.Memory
use cuebee_speaker_serving.Store.Memory.{next_id}
use cuebee_speaker_serving.Store.Sqlite
use cuebee_speaker_serving.Store.Sqlite.{int_limit, max_suffix}
use cuebee_speaker_serving.Store.Refinement.{IsStorable}
use cuebee_speaker_serving.Store.Calls.{
  Call, list_profiles_call, create_profile_call, update_profile_call, rename_speaker_call,
  delete_session_call, memory_step, run,
}
use cuebee_speaker_serving.Store.Fresh.{next-inserted}

module _ {R V : Type 0} where
  -- Whether a call deletes the session.
  abbrev pub deletes : SessionKey → Call R V → Bool
  deletes k (list_profiles_call j) = false
  deletes k (create_profile_call j centroid quality last_active_ms) = false
  deletes k (update_profile_call p) = false
  deletes k (rename_speaker_call j id name) = false
  deletes k (delete_session_call j) = session_eq.same j k

  next_id-step :
      (st : Store R V) (k : SessionKey) (c : Call R V)
      → deletes k c ≡ false
      → next_id st k ≤ next_id (memory_step st c).0 k
  unfolding memory_step Memory.create_profile Memory.update_profile Memory.rename_speaker
      Memory.delete_session
  next_id-step st k (list_profiles_call j) h = omega arith
  next_id-step st k (create_profile_call j centroid quality last_active_ms) h =
      let p = new_profile j (next_id st j) centroid quality last_active_ms in
      elim (Bool-cases (session_eq.same j k)) [
        | inl e ↦
            let same : next_id st j ≡ next_id st k =
              ap (next_id st) ((session_eq.same_iff j k).0 e) in
            ground (arith, next-inserted st j k (next_id st j) p)
        | inr e ↦ ground (arith, next-inserted st j k (next_id st j) p)
      ]
  next_id-step st k (update_profile_call p) h = elim (Option-cases (get (key_of p) st.profiles)) [
    | inl e ↦ rw e (omega arith)
    | inr (old, e) ↦ rw e (omega arith)
  ]
  next_id-step st k (rename_speaker_call j id name) h =
      elim (Option-cases (get (j, id) st.profiles)) [
        | inl e ↦ rw e (omega arith)
        | inr (old, e) ↦ rw e (omega arith)
      ]
  next_id-step st k (delete_session_call j) h =
      rw (get-pop_ne j k st.next_ids (λ f. absurd (ground (arith, (session_eq.same_iff j k).1 f))))
        (omega arith)

  next_id-run :
      (st : Store R V) (k : SessionKey) (calls : List (Call R V))
      → All (λ c. deletes k c ≡ false) calls
      → next_id st k ≤ next_id (run memory_step st calls) k
  unfolding run
  next_id-run st k [] h = omega arith
  next_id-run st k (c ∷ calls) h =
      ground (arith, next_id-step st k c h.0, next_id-run (memory_step st c).0 k calls h.1)

  created_id :
      (st st' : Store R V) (k : SessionKey) (centroid : V) (quality : R) (last_active_ms : ℤ)
      (p : SpeakerProfile R V)
      → Memory.create_profile st k centroid quality last_active_ms ≡ ok (st', p)
      → (p.speaker_id ≡ format_id (next_id st k)) × (next_id st' k ≡ next_id st k + 1)
  unfolding Memory.create_profile
  created_id st st' k centroid quality last_active_ms p e =
      let n = next_id st k in
      let q = new_profile k n centroid quality last_active_ms in
      let same : (inserted st k n q, q) ≡ (st', p) = ok_injective e in
      subst
        (λ (r : Store R V × SpeakerProfile R V).
          (r.1.speaker_id ≡ format_id n) × (next_id r.0 k ≡ n + 1))
        same (refl, ap (get_or 1) (get-set_self k (n + 1) st.next_ids))

  -- Two speakers that a session creates have different identifiers, whatever is called between the
  -- two creations, the deletion of that session excepted.
  pub create_profile-run_ne :
      (st st1 st2 : Store R V) (k : SessionKey) (centroid centroid' : V) (quality quality' : R)
      (last_active_ms last_active_ms' : ℤ) (p q : SpeakerProfile R V) (calls : List (Call R V))
      → Memory.create_profile st k centroid quality last_active_ms ≡ ok (st1, p)
      → All (λ c. deletes k c ≡ false) calls
      → Memory.create_profile (run memory_step st1 calls) k centroid' quality' last_active_ms'
        ≡ ok (st2, q)
      → p.speaker_id ≢ q.speaker_id
  create_profile-run_ne st st1 st2 k centroid centroid' quality quality' last_active_ms
        last_active_ms' p q calls e h f same =
      let (a, b) = created_id st st1 k centroid quality last_active_ms p e in
      let (c, d) =
        created_id (run memory_step st1 calls) st2 k centroid' quality' last_active_ms' q f in
      let eq : next_id st k ≡ next_id (run memory_step st1 calls) k =
        format_id_injective (next_id st k) (next_id (run memory_step st1 calls) k)
          (sym a ∙ same ∙ c) in
      let le = next_id-run st1 k calls h in absurd (omega arith)

module _ {R V : Type 0} ⦃digits : Digits⦄ where
  -- The number of the first row and that of the rest are not above the largest.
  max_suffix-cons :
      (p : SpeakerProfile R V) (rows : List (SpeakerProfile R V)) (m : ℕ)
      → max_suffix (p ∷ rows) ≡ ok m
      → (n : Option ℕ) × (rest : ℕ) × (suffix p.speaker_id ≡ ok n)
        × (max_suffix rows ≡ ok rest)
        × (get_or 0 n ≤ m)
        × (rest ≤ m)
  unfolding max_suffix
  max_suffix-cons p rows m h =
      let (n, e, h1) = >>=-eq-ok (suffix p.speaker_id) _ h in
      let (rest, f, h2) = >>=-eq-ok (max_suffix rows) _ h1 in
      let same : max (get_or 0 n) rest ≡ m = ok_injective h2 in
      (n, rest, e, f, omega arith, omega arith)

  suffix-le-max_suffix :
      (j : ProfileKey) (p : SpeakerProfile R V) (d : Dict ProfileKey (SpeakerProfile R V)) (m n : ℕ)
      → get j d ≡ some p
      → max_suffix (values d) ≡ ok m
      → suffix p.speaker_id ≡ ok (some n)
      → n ≤ m
  unfolding get
  suffix-le-max_suffix j p [] m n h a b = absurd (ground arith)
  suffix-le-max_suffix j p ((i, q) ∷ d) m n h a b =
      let (o, rest, e, f, le, le') = max_suffix-cons q (values d) m a in
      elim (Bool-cases (profile_eq.same i j)) [
        | inl s ↦
            let hit : some q ≡ some p = subst (λ b. (if b then some q else get j d) ≡ some p) s h in
            let same : q ≡ p = ground arith in
            let read : o ≡ some n =
              ok_injective
                (sym e ∙ ap (λ (q : SpeakerProfile R V). suffix q.speaker_id) same ∙ b) in
            let own : get_or 0 o ≡ n = ap (get_or 0) read in omega arith
        | inr s ↦
            let later =
              suffix-le-max_suffix j p d rest n
                (subst (λ b. (if b then some q else get j d) ≡ some p) s h) f b in
            omega arith
      ]

  allocated-absent :
      (st : Store R V) (k : SessionKey) (p : SpeakerProfile R V) (m : ℕ)
      → ReadsAscii digits
      → m + 1 < int_limit
      → ((j : ProfileKey) (q : SpeakerProfile R V) → get j st.profiles ≡ some q → key_of q ≡ j)
      → max_suffix (values (session_profiles k st.profiles)) ≡ ok m
      → get (k, format_id (m + 1)) st.profiles ≢ some p
  allocated-absent st k p m ascii room keyed e f =
      let n = m + 1 in
      let id : p.speaker_id ≡ format_id n =
        ap (λ (j : ProfileKey). j.1) (keyed (k, format_id n) p f) in
      let own : get (k, format_id n) (session_profiles k st.profiles) ≡ some p =
        get-without (λ j. not (session_eq.same j.0 k)) (k, format_id n) st.profiles
        ∙ rw (same_refl k) f in
      let read : suffix p.speaker_id ≡ ok (some n) = rw id (suffix-format_id n ascii room) in
      let bound =
        suffix-le-max_suffix (k, format_id n) p (session_profiles k st.profiles) m n own e read in
      absurd (omega arith)

  -- Where Python reads ASCII digits as numbers, each row stands under its own key, the counter of the
  -- session is missing, and the largest number that the suffixes of its rows give is `m`, with
  -- `m + 2` below 2 ^ 63: for a quality that is not NaN and a time of 64 bits, the SQLite store
  -- creates a profile with the number `m + 1`. No row has that identifier, and the INSERT does not
  -- fail.
  pub create_profile-recovers :
      ⦃float : Float R⦄
      → (st : Store R V) (k : SessionKey) (centroid : V) (quality : R) (last_active_ms : ℤ) (m : ℕ)
      → ReadsAscii digits
      → ((j : ProfileKey) (p : SpeakerProfile R V) → get j st.profiles ≡ some p → key_of p ≡ j)
      → get k st.next_ids ≡ none
      → max_suffix (values (session_profiles k st.profiles)) ≡ ok m
      → m + 2 < int_limit
      → IsStorable quality last_active_ms
      → Sqlite.create_profile st k centroid quality last_active_ms
        ≡ ok (
          inserted st k (m + 1) (new_profile k (m + 1) centroid quality last_active_ms),
          new_profile k (m + 1) centroid quality last_active_ms,
        )
  unfolding Sqlite.create_profile
  create_profile-recovers st k centroid quality last_active_ms m ascii keyed e largest room s =
      let counted : ltb (m + 1 + 1) int_limit ≡ true = ground arith in
      let next : m + 1 < int_limit = omega arith in
      elim (Option-cases (get (k, format_id (m + 1)) st.profiles)) [
        | inl f ↦ rw (e, largest, counted, s.0, s.1, f)
        | inr (p, f) ↦ absurd (allocated-absent st k p m ascii next keyed largest f)
      ]
