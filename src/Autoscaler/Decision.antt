-- ===== src/Autoscaler/Decision.antt =====
-- One recommendation: its bounds and its cooldown, on every branch.
use cuebee_speaker_serving.Base.{◌≡◌, subst, inl, inr, true, List, arith, Bool-cases}
use cuebee_speaker_serving.Base.Int.{ℤ, pos, ltb_ℤ, ◌≤ℤ◌, ◌<ℤ◌, ◌-ℤ◌, max_ℤ, -ℤ_parts}
use cuebee_speaker_serving.Base.Float.{Float}
use cuebee_speaker_serving.Config.{AutoscalerConfig}
use cuebee_speaker_serving.Domain.{ok, >>=-eq-ok, >>-eq-ok, ok_injective}
use cuebee_speaker_serving.Autoscaler.{
  ScalingSample, Action, scale_up, scale_down, hold, Reason, ScalingDecision, Autoscaler, clamp,
  cooled, grow, shrink, decide, with_queue, validate, raw_capacity, with_backlog, demand, recommend,
  observed, is_low_load, due,
}

module _ {R : Type 0} ⦃float : Float R⦄ where
  abbrev pub InBounds : AutoscalerConfig R → ℤ → Type 0
  InBounds c n = (c.min_replicas ≤ℤ n) × (n ≤ℤ c.max_replicas)

  clamp_bounds :
      (c : AutoscalerConfig R) (n : ℤ) → c.min_replicas ≤ℤ c.max_replicas → InBounds c (clamp c n)
  clamp_bounds c n h = ground arith

  with_queue-InBounds :
      (c : AutoscalerConfig R) (s : ScalingSample R) (w : ℤ × List Reason)
      → c.min_replicas ≤ℤ c.max_replicas
      → InBounds c (with_queue c s w).0
  unfolding with_queue
  with_queue-InBounds c s w h = elim (Bool-cases (float.le c.queue_high_ms s.queue_p95_ms)) [
    | inl e ↦ rw e (clamp_bounds c _ h)
    | inr e ↦ rw e (clamp_bounds c _ h)
  ]

  clamp_below :
      (c : AutoscalerConfig R) (n m : ℤ)
      → InBounds c n
      → n <ℤ m
      → clamp c (max_ℤ n (m -ℤ pos 1)) <ℤ m
  clamp_below c n m b h = ground (arith, -ℤ_parts m (pos 1))

  -- What an action says of the count that is recommended.
  abbrev pub Moves : AutoscalerConfig R → ScalingDecision → Action → Type 0
  Moves c d scale_up = (d.current_replicas <ℤ d.desired_replicas) × InBounds c d.desired_replicas
  Moves c d scale_down = (d.desired_replicas <ℤ d.current_replicas) × InBounds c d.desired_replicas
  Moves c d hold = d.desired_replicas ≡ d.current_replicas

  grow-Moves :
      (a : Autoscaler R) (now : R) (s : ScalingSample R) (raw : ℤ) (w : ℤ × List Reason)
      → InBounds a.config w.0
      → s.current_replicas <ℤ w.0
      → Moves a.config (grow a now s raw w).1 (grow a now s raw w).1.action
  unfolding grow
  grow-Moves a now s raw w b h = elim (Bool-cases (cooled a now)) [
    | inl e ↦ rw e (h, b)
    | inr e ↦ rw e
  ]

  low-below :
      (c : AutoscalerConfig R) (s : ScalingSample R) (n : ℤ)
      → is_low_load c s n ≡ true
      → n <ℤ s.current_replicas
  unfolding is_low_load
  low-below c s n h = ground arith

  pub due-low :
      (a : Autoscaler R) (now : R) (s : ScalingSample R) (n : ℤ)
      → due a now s n ≡ true
      → is_low_load a.config s n ≡ true
  due-low a now s n h = ground arith

  pub due-cooled :
      (a : Autoscaler R) (now : R) (s : ScalingSample R) (n : ℤ)
      → due a now s n ≡ true
      → cooled a now ≡ true
  due-cooled a now s n h = ground arith

  shrink-Moves :
      (a : Autoscaler R) (now : R) (s : ScalingSample R) (raw : ℤ) (w : ℤ × List Reason)
      → a.config.min_replicas ≤ℤ a.config.max_replicas
      → InBounds a.config w.0
      → Moves a.config (shrink a now s raw w).1 (shrink a now s raw w).1.action
  unfolding shrink
  shrink-Moves a now s raw w m b = elim (Bool-cases (due a now s w.0)) [
    | inl e ↦ rw e (
      clamp_below a.config w.0 s.current_replicas b
          (low-below a.config s w.0 (due-low a now s w.0 e)),
      clamp_bounds a.config _ m,
    )
    | inr e ↦ rw e
  ]

  decide-Moves :
      (a : Autoscaler R) (now : R) (s : ScalingSample R) (raw : ℤ) (w : ℤ × List Reason)
      → a.config.min_replicas ≤ℤ a.config.max_replicas
      → InBounds a.config w.0
      → Moves a.config (decide a now s raw w).1 (decide a now s raw w).1.action
  unfolding decide
  decide-Moves a now s raw w m b = elim (Bool-cases (ltb_ℤ s.current_replicas w.0)) [
    | inl e ↦ rw e (grow-Moves a now s raw w b (ground arith))
    | inr e ↦ rw e (shrink-Moves a now s raw w m b)
  ]

  demand-InBounds :
      (c : AutoscalerConfig R) (s : ScalingSample R) {r : ℤ × (ℤ × List Reason)}
      → c.min_replicas ≤ℤ c.max_replicas
      → demand c s ≡ ok r
      → InBounds c r.1.0
  unfolding demand
  demand-InBounds c s m h =
      let h₁ = >>-eq-ok (validate s) _ h in
      let (raw, _, h₂) = >>=-eq-ok (raw_capacity c s) _ h₁ in
      let (wanted, _, h₃) = >>=-eq-ok (with_backlog c s raw) _ h₂ in
      subst (λ (p : ℤ × (ℤ × List Reason)). InBounds c p.1.0) (ok_injective h₃)
        (with_queue-InBounds c s wanted m)

  -- A result of `recommend` comes from the demand of the sample.
  pub recommend-eq-ok :
      (a : Autoscaler R) (monotonic : R) (s : ScalingSample R) {r : Autoscaler R × ScalingDecision}
      → recommend a monotonic s ≡ ok r
      → (raw : ℤ) × (w : ℤ × List Reason) × (demand a.config s ≡ ok (raw, w))
        × (decide a (observed monotonic s) s raw w ≡ r)
  unfolding recommend
  recommend-eq-ok a monotonic s h =
      let ((raw, w), e, h₁) = >>=-eq-ok (demand a.config s) _ h in (raw, w, e, ok_injective h₁)

  -- Within valid replica bounds, `recommend` scales up only to a larger count and down only to a
  -- smaller one, both within the bounds, and otherwise recommends the present count.
  pub recommend-Moves :
      (a : Autoscaler R) (monotonic : R) (s : ScalingSample R) {a' : Autoscaler R}
      {d : ScalingDecision}
      → a.config.min_replicas ≤ℤ a.config.max_replicas
      → recommend a monotonic s ≡ ok (a', d)
      → Moves a.config d d.action
  recommend-Moves a monotonic s m h =
      let (raw, w, e, e') = recommend-eq-ok a monotonic s h in
      subst (λ (r : Autoscaler R × ScalingDecision). Moves a.config r.1 r.1.action) e'
        (decide-Moves a (observed monotonic s) s raw w m (demand-InBounds a.config s m e))
