-- ===== src/Server/Frame.antt =====
-- What each type of message can change in the runtime.
use cuebee_speaker_serving.Base.{
  ◌≡◌, refl, subst, String, Option, some, Bool, true, false, if◌then◌else◌,
}
use cuebee_speaker_serving.Base.Dict.{get}
use cuebee_speaker_serving.Base.Eq.{string_eq}
use cuebee_speaker_serving.Base.Float.{Float}
use cuebee_speaker_serving.Domain.{Result}
use cuebee_speaker_serving.Pipeline.{}
use cuebee_speaker_serving.Pipeline.Keeps.{}
use cuebee_speaker_serving.Server.{
  ServiceRuntime, Surroundings, Response, is_type, dispatch_object, dispatch,
}
use cuebee_speaker_serving.Server.Json.{Members, object, members}
use cuebee_speaker_serving.Server.Messages.{Fields}
use cuebee_speaker_serving.Server.Reads.{}
use cuebee_speaker_serving.Server.Leaves.{After, Leaves, unchanged}
use cuebee_speaker_serving.Server.Branches.{
  on_audio-After, on_stt-After, on_flush-After, on_rename-After, on_profiles-After,
  on_autoscale-After,
}

module _ {R A V S : Type 0} ⦃float : Float R⦄ (env : Surroundings R A V S) where
  if-After :
      {P B : Type 0} (K : P → Type 0) (b : Bool) (x y : Option (Result B × P))
      → (b ≡ true → After K x)
      → (b ≡ false → After K y)
      → After K (if b then x else y)
  if-After K true x y h k = h refl
  if-After K false x y h k = k refl

  dispatch_object-After :
      (fields : Fields R) (rt : ServiceRuntime R A S)
      → After (Leaves fields rt) (dispatch_object env fields rt)
  unfolding dispatch_object
  dispatch_object-After fields rt =
      if-After K (named "health") _ _ (λ h. unchanged fields rt)
        (λ h.
          if-After K (named "metrics") _ _ (λ h. unchanged fields rt)
            (λ h.
              if-After K (named "audio") _ _ (λ h. on_audio-After env fields rt h)
                (λ h.
                  if-After K (named "stt") _ _ (λ h. on_stt-After env fields rt h)
                    (λ h.
                      if-After K (named "profiles") _ _ (λ h. on_profiles-After env fields rt)
                        (λ h.
                          if-After K (named "rename") _ _ (λ h. on_rename-After env fields rt h)
                            (λ h.
                              if-After K (named "flush") _ _ (λ h. on_flush-After env fields rt h)
                                (λ h.
                                  if-After K (named "autoscale") _ _
                                    (λ h. on_autoscale-After env fields rt h)
                                    (λ h. unchanged fields rt))))))))
    where
      K : ServiceRuntime R A S → Type 0
      K = Leaves fields rt

      named : String → Bool
      named = is_type (get "type" fields)

  -- A message that is served, or refused with an exception, changes no other part than its type may.
  pub dispatch-Leaves :
      (ms : Members R) (rt rt' : ServiceRuntime R A S) (r : Result (Response R))
      → dispatch env (object ms) rt ≡ some (r, rt')
      → Leaves (members ms) rt rt'
  unfolding dispatch
  dispatch-Leaves ms rt rt' r h =
      subst (After (Leaves (members ms) rt)) h (dispatch_object-After (members ms) rt)
