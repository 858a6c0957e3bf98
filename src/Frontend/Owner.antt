-- ===== src/Frontend/Owner.antt =====
-- Whose features the frontend returns.
use cuebee_speaker_serving.Base.{
  ℕ, zero, suc, ◌*◌, ◌≡◌, refl, subst, Bool, true, false, String, List, [], ◌∷◌, Option, none, some,
  length, ltb, take, if◌then◌else◌, Bool-cases, inl, inr,
}
use cuebee_speaker_serving.Base.Int.{pos, ◌+ℤ◌}
use cuebee_speaker_serving.Base.Keep.{All, All-append}
use cuebee_speaker_serving.Base.Float.{Float}
use cuebee_speaker_serving.Base.Dict.{get}
use cuebee_speaker_serving.Base.Eq.{string_eq, pair_eq}
use cuebee_speaker_serving.Config.{AudioConfig}
use cuebee_speaker_serving.Domain.{AudioChunk, FeatureChunk, ok, >>=-eq-ok, ok_injective}
use cuebee_speaker_serving.Frontend.{
  Signal, Stream, Streams, heard, slid, windows, prepended, emit_complete_windows, pushed, kept_in,
  received, push, last_chunk, flush, samples_in, feature_chunk,
}

-- The features are of this tenant and session.
abbrev pub IsOwned : {R F : Type 0} → String → String → FeatureChunk R F → Type 0
IsOwned t k f = (f.tenant_id ≡ t) × (f.session_id ≡ k)

module _ {R A F : Type 0} ⦃float : Float R⦄ (signal : Signal R A F) (c : AudioConfig R) where
  heard-IsOwned : (t k : String) (s : Stream A) → All (IsOwned t k) (heard signal c t k s).1
  unfolding heard
  heard-IsOwned t k s =
      elim (Bool-cases (
        float.le c.min_speech_ratio
          (signal.speech_ratio (take (samples_in signal c c.window_ms) s.audio)))) [
            | inl e ↦ rw e ((refl, refl), tt)
            | inr e ↦ rw e tt
          ]

  -- The features of a loop that ended.
  abbrev Owned : {S : Type 0} → String → String → Option (S × List (FeatureChunk R F)) → Type 0
  Owned t k none = Unit
  Owned t k (some (s, emitted)) = All (IsOwned t k) emitted

  prepended-Owned :
      (t k : String) (emitted : List (FeatureChunk R F))
      (o : Option (Stream A × List (FeatureChunk R F)))
      → All (IsOwned t k) emitted
      → Owned t k o
      → Owned t k (prepended signal c emitted o)
  prepended-Owned t k emitted none h r = tt
  prepended-Owned t k emitted (some (s, rest)) h r = All-append _ emitted rest h r

  windows-Owned :
      (rounds : ℕ) (t k : String) (s : Stream A) → Owned t k (windows signal c rounds t k s)
  unfolding windows
  windows-Owned zero t k s = tt
  windows-Owned (suc rounds) t k s =
      let later =
        prepended-Owned t k (heard signal c t k s).1 _ (heard-IsOwned t k s)
          (windows-Owned rounds t k (slid signal c (heard signal c t k s).0)) in
      elim (Bool-cases (ltb (length s.audio) (samples_in signal c c.window_ms))) [
        | inl e ↦ rw e tt
        | inr e ↦ rw e later
      ]

  kept_in-Owned :
      (streams : Streams A) (chunk : AudioChunk) (o : Option (Stream A × List (FeatureChunk R F)))
      → Owned chunk.tenant_id chunk.session_id o
      → Owned chunk.tenant_id chunk.session_id (kept_in signal c streams chunk o)
  kept_in-Owned streams chunk none h = tt
  kept_in-Owned streams chunk (some (s, emitted)) h = h

  pub pushed-Owned :
      (streams : Streams A) (chunk : AudioChunk) (o : Option (Stream A))
      → Owned chunk.tenant_id chunk.session_id (pushed signal c streams chunk o)
  unfolding emit_complete_windows
  pushed-Owned streams chunk none = tt
  pushed-Owned streams chunk (some s) =
      kept_in-Owned streams chunk _
        (windows-Owned (suc (length s.audio)) chunk.tenant_id chunk.session_id s)

  -- What `push` returns is of the chunk's session.
  pub push-IsOwned :
      (streams streams' : Streams A) (chunk : AudioChunk) (features : List (FeatureChunk R F))
      → push signal c streams chunk ≡ ok (some (streams', features))
      → All (IsOwned chunk.tenant_id chunk.session_id) features
  unfolding push
  push-IsOwned streams streams' chunk features h =
      let (audio, e, f) = >>=-eq-ok (received signal c chunk) _ h in
      subst (Owned chunk.tenant_id chunk.session_id) (ok_injective f) (pushed-Owned streams chunk _)

  if-IsOwned :
      (t k : String) (b : Bool) (xs ys : List (FeatureChunk R F))
      → All (IsOwned t k) xs
      → All (IsOwned t k) ys
      → All (IsOwned t k) (if b then xs else ys)
  if-IsOwned t k true xs ys h j = h
  if-IsOwned t k false xs ys h j = j

  last_chunk-IsOwned :
      (t k : String) (o : Option (Stream A)) → All (IsOwned t k) (last_chunk signal c t k o)
  unfolding last_chunk
  last_chunk-IsOwned t k none = tt
  last_chunk-IsOwned t k (some s) =
      if-IsOwned t k _ []
        (if float.lt (signal.speech_ratio s.audio) c.min_speech_ratio then [] else last ∷ []) tt
        (if-IsOwned t k (float.lt (signal.speech_ratio s.audio) c.min_speech_ratio) [] (last ∷ [])
          tt ((refl, refl), tt))
    where
      last : FeatureChunk R F
      last =
          feature_chunk signal c t k s s.base_ms
            (s.base_ms +ℤ signal.round_ratio (pos (length s.audio * 1000)) c.sample_rate) s.audio
            (signal.speech_ratio s.audio)

  -- What `flush` returns is of the session.
  pub flush-IsOwned :
      (streams : Streams A) (t k : String) → All (IsOwned t k) (flush signal c streams t k).1
  unfolding flush
  flush-IsOwned streams t k = last_chunk-IsOwned t k (get (t, k) streams)
