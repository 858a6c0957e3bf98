-- ===== src/Autoscaler/History.antt =====
-- Sequences of recommendations: the cooldown between actions, and the windows before a scale-down.
use cuebee_speaker_serving.Base.{
  ◌≡◌, refl, subst, inl, inr, true, List, [], ◌∷◌, Option, none, some, Bool-cases,
}
use cuebee_speaker_serving.Base.Int.{ℤ, ltb_ℤ}
use cuebee_speaker_serving.Base.Float.{Float}
use cuebee_speaker_serving.Config.{AutoscalerConfig}
use cuebee_speaker_serving.Domain.{Result, ok, raised}
use cuebee_speaker_serving.Autoscaler.{
  ScalingSample, Action, scale_up, scale_down, hold, Reason, ScalingDecision, Autoscaler, cooled,
  grow, shrink, decide, recommend, observed, due,
}
use cuebee_speaker_serving.Autoscaler.Decision.{recommend-eq-ok, due-cooled}

module _ {R : Type 0} ⦃float : Float R⦄ where
  -- What a decision does to the time of the last action.
  abbrev Stamps : Autoscaler R → R → Autoscaler R × ScalingDecision → Action → Type 0
  Stamps a now r hold = r.0.last_action_at ≡ a.last_action_at
  Stamps a now r scale_up = (cooled a now ≡ true) × (r.0.last_action_at ≡ now)
  Stamps a now r scale_down = (cooled a now ≡ true) × (r.0.last_action_at ≡ now)

  abbrev Keeps : Autoscaler R → R → Autoscaler R × ScalingDecision → Type 0
  Keeps a now r = Stamps a now r r.1.action × (r.0.config ≡ a.config)

  decide-Keeps :
      (a : Autoscaler R) (now : R) (s : ScalingSample R) (raw : ℤ) (w : ℤ × List Reason)
      → Keeps a now (decide a now s raw w)
  unfolding decide grow shrink
  decide-Keeps a now s raw w = elim (Bool-cases (ltb_ℤ s.current_replicas w.0)) [
    | inl up ↦ rw up (elim (Bool-cases (cooled a now)) [
      | inl e ↦ rw e ((e, refl), refl)
      | inr e ↦ rw e (refl, refl)
    ])
    | inr down ↦ rw down (elim (Bool-cases (due a now s w.0)) [
      | inl e ↦ rw e ((due-cooled a now s w.0 e, refl), refl)
      | inr e ↦ rw e (refl, refl)
    ])
  ]

  -- One call, with the reading of the clock; a call that raises leaves the state.
  unfoldable pub next : Autoscaler R → R × ScalingSample R → Autoscaler R
  next a (monotonic, s) = elim (recommend a monotonic s) [ ok (a', d) ↦ a' | raised e ↦ a ]

  -- The time of the call, where it recommends an action.
  unfoldable pub action_time : Autoscaler R → R × ScalingSample R → Option R
  action_time a (monotonic, s) = elim (recommend a monotonic s) [
    | ok (a', d) ↦ elim d.action [ hold ↦ none | _ ↦ some (observed monotonic s) ]
    | raised e ↦ none
  ]

  unfoldable pub action_times : Autoscaler R → List (R × ScalingSample R) → List R
  action_times a [] = []
  action_times a (call ∷ calls) =
      let rest = action_times (next a call) calls in
      elim (action_time a call) [ none ↦ rest | some t ↦ t ∷ rest ]

  abbrev pub IsSpaced : R → R → List R → Type 0
  IsSpaced gap last [] = Unit
  IsSpaced gap last (t ∷ ts) = (float.le gap (float.sub t last) ≡ true) × IsSpaced gap t ts

  abbrev Timed : Autoscaler R → Autoscaler R → Option R → Type 0
  Timed a a' none = (a'.last_action_at ≡ a.last_action_at) × (a'.config ≡ a.config)
  Timed a a' (some t) = (cooled a t ≡ true) × (a'.last_action_at ≡ t) × (a'.config ≡ a.config)

  next-Timed :
      (a : Autoscaler R) (call : R × ScalingSample R) → Timed a (next a call) (action_time a call)
  unfolding next action_time
  next-Timed a (monotonic, s) =
      go (recommend a monotonic s)
        (λ r e.
          let (raw, w, _, e') = recommend-eq-ok a monotonic s e in
          subst (Keeps a (observed monotonic s)) e' (decide-Keeps a (observed monotonic s) s raw w))
        refl
    where
      after : Result (Autoscaler R × ScalingDecision) → Autoscaler R
      after o = elim o [ ok (a', d) ↦ a' | raised e ↦ a ]

      at : Result (Autoscaler R × ScalingDecision) → Option R
      at o = elim o [
        | ok (a', d) ↦ elim d.action [ hold ↦ none | _ ↦ some (observed monotonic s) ]
        | raised e ↦ none
      ]

      of_action :
          (a' : Autoscaler R) (d : ScalingDecision) (c : Action)
          → Stamps a (observed monotonic s) (a', d) c
          → a'.config ≡ a.config
          → Timed a a' (elim c [ hold ↦ none | _ ↦ some (observed monotonic s) ])
      of_action a' d hold h k = (h, k)
      of_action a' d scale_up h k = (h.0, h.1, k)
      of_action a' d scale_down h k = (h.0, h.1, k)

      go :
          (o : Result (Autoscaler R × ScalingDecision))
          → ((r : Autoscaler R × ScalingDecision)
              → recommend a monotonic s ≡ ok r
              → Keeps a (observed monotonic s) r)
          → recommend a monotonic s ≡ o
          → Timed a (after o) (at o)
      go (ok (a', d)) keeps e = of_action a' d d.action (keeps (a', d) e).0 (keeps (a', d) e).1
      go (raised x) keeps e = (refl, refl)

  IsSpaced-step :
      (a a' : Autoscaler R) (o : Option R) (ts : List R)
      → Timed a a' o
      → IsSpaced a'.config.cooldown_seconds a'.last_action_at ts
      → IsSpaced a.config.cooldown_seconds a.last_action_at (elim o [ none ↦ ts | some t ↦ t ∷ ts ])
  IsSpaced-step a a' none ts h k = rw (← h.0, ← h.1) k
  IsSpaced-step a a' (some t) ts h k = (
    h.0,
    subst (λ (c : AutoscalerConfig R). IsSpaced c.cooldown_seconds t ts) h.2
        (subst (λ l. IsSpaced a'.config.cooldown_seconds l ts) h.1 k),
  )

  -- Over any sequence of calls, each action comes at least the cooldown after the one before it,
  -- and the first at least the cooldown after the last action of the starting state.
  pub action_times-IsSpaced :
      (a : Autoscaler R) (calls : List (R × ScalingSample R))
      → IsSpaced a.config.cooldown_seconds a.last_action_at (action_times a calls)
  unfolding action_times
  action_times-IsSpaced a [] = tt
  action_times-IsSpaced a (call ∷ calls) =
      IsSpaced-step a (next a call) (action_time a call) _ (next-Timed a call)
        (action_times-IsSpaced (next a call) calls)
