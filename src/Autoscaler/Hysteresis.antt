-- ===== src/Autoscaler/Hysteresis.antt =====
-- The count of low windows against the history of the samples.
use cuebee_speaker_serving.Base.{
  ℕ, suc, ◌≤◌, ◌≡◌, refl, subst, inl, inr, Bool, true, false, List, [], ◌∷◌, arith, if◌then◌else◌,
  Bool-cases,
}
use cuebee_speaker_serving.Base.Int.{ℤ, pos, ltb_ℤ, ◌≤ℤ◌}
use cuebee_speaker_serving.Base.Float.{Float}
use cuebee_speaker_serving.Config.{AutoscalerConfig}
use cuebee_speaker_serving.Domain.{ok, raised}
use cuebee_speaker_serving.Autoscaler.{
  ScalingSample, scale_down, Reason, ScalingDecision, Autoscaler, cooled, grow, shrink, decide,
  demand, recommend, observed, is_low_load, due, counted, init,
}
use cuebee_speaker_serving.Autoscaler.Decision.{recommend-eq-ok}

module _ {R : Type 0} ⦃float : Float R⦄ where
  -- The samples for which `recommend` returned, newest first, and the state that they lead to.
  pub data Runs (c : AutoscalerConfig R) : List (ScalingSample R) → Autoscaler R → Type 0 where
    start : Runs c [] (init c)
    observes :
        {h : List (ScalingSample R)} {a a' : Autoscaler R} {d : ScalingDecision} (monotonic : R)
        (s : ScalingSample R)
        → Runs c h a
        → recommend a monotonic s ≡ ok (a', d)
        → Runs c (s ∷ h) a'

  -- The sample shows low load against the count that it asks for.
  unfoldable pub is_low : AutoscalerConfig R → ScalingSample R → Bool
  is_low c s = elim (demand c s) [ ok (raw, w) ↦ is_low_load c s w.0 | raised e ↦ false ]

  -- How many of the latest samples show low load, with none between that does not.
  unfoldable pub low_run : AutoscalerConfig R → List (ScalingSample R) → ℕ
  low_run c [] = 0
  low_run c (s ∷ h) = if is_low c s then suc (low_run c h) else 0

  abbrev Below : AutoscalerConfig R → ℕ → Autoscaler R × ScalingDecision → Type 0
  Below c n r =
      (r.0.low_windows ≤ n)
      × (r.1.action ≡ scale_down → c.scale_down_windows ≤ℤ pos n)
      × (r.0.config ≡ c)

  decide-Below :
      (a : Autoscaler R) (now : R) (s : ScalingSample R) (raw : ℤ) (w : ℤ × List Reason)
      → Below a.config (counted a s w.0) (decide a now s raw w)
  unfolding decide grow shrink
  decide-Below a now s raw w = elim (Bool-cases (ltb_ℤ s.current_replicas w.0)) [
    | inl up ↦ rw up (elim (Bool-cases (cooled a now)) [
      | inl e ↦ rw e (omega arith, (λ x. absurd (ground arith)), refl)
      | inr e ↦ rw e (omega arith, (λ x. absurd (ground arith)), refl)
    ])
    | inr down ↦ rw down (elim (Bool-cases (due a now s w.0)) [
      | inl e ↦ rw e (omega arith, (λ x. reached e), refl)
      | inr e ↦ rw e (omega arith, (λ x. absurd (ground arith)), refl)
    ])
  ]
    where
      reached : due a now s w.0 ≡ true → a.config.scale_down_windows ≤ℤ pos (counted a s w.0)
      reached e = ground arith

  is_low-eq :
      (c : AutoscalerConfig R) (s : ScalingSample R) (raw : ℤ) (w : ℤ × List Reason)
      → demand c s ≡ ok (raw, w)
      → is_low c s ≡ is_low_load c s w.0
  unfolding is_low
  is_low-eq c s raw w e = rw (e, is_low)

  counted-low_run :
      (c : AutoscalerConfig R) (a : Autoscaler R) (s : ScalingSample R) (h : List (ScalingSample R))
      (raw : ℤ) (w : ℤ × List Reason)
      → a.config ≡ c
      → a.low_windows ≤ low_run c h
      → demand a.config s ≡ ok (raw, w)
      → counted a s w.0 ≤ low_run c (s ∷ h)
  unfolding low_run
  counted-low_run c a s h raw w ec le e =
      let low : is_low c s ≡ is_low_load a.config s w.0 =
        rw (← ec) (is_low-eq a.config s raw w e) in
      rw low (ground arith)

  recommend-Below :
      (c : AutoscalerConfig R) (a : Autoscaler R) (h : List (ScalingSample R)) (monotonic : R)
      (s : ScalingSample R) {r : Autoscaler R × ScalingDecision}
      → a.config ≡ c
      → a.low_windows ≤ low_run c h
      → recommend a monotonic s ≡ ok r
      → Below c (low_run c (s ∷ h)) r
  recommend-Below c a h monotonic s {r} ec le e =
      let (raw, w, e₁, e₂) = recommend-eq-ok a monotonic s e in
      let n : counted a s w.0 ≤ low_run c (s ∷ h) = counted-low_run c a s h raw w ec le e₁ in
      let b : Below a.config (counted a s w.0) r =
        subst (Below a.config (counted a s w.0)) e₂
          (decide-Below a (observed monotonic s) s raw w) in
      let b' : Below c (counted a s w.0) r = subst (λ c. Below c (counted a s w.0) r) ec b in
      (omega arith, (λ x. let k = b'.1 x in omega arith), b'.2)

  Runs-windows :
      (c : AutoscalerConfig R) {h : List (ScalingSample R)} {a : Autoscaler R}
      → Runs c h a
      → (a.config ≡ c) × (a.low_windows ≤ low_run c h)
  unfolding init low_run
  Runs-windows c start = (refl, omega arith)
  Runs-windows c (observes {h} {a} monotonic s r e) =
      let (ec, le) = Runs-windows c r in
      let b = recommend-Below c a h monotonic s ec le e in (b.2, b.0)

  -- In every state that a sequence of samples leads to, a scale-down is recommended only when at
  -- least `scale_down_windows` of the latest samples, this one included, showed low load in a row.
  pub scale_down-sustained :
      (c : AutoscalerConfig R) (h : List (ScalingSample R)) (a : Autoscaler R) (monotonic : R)
      (s : ScalingSample R) {a' : Autoscaler R} {d : ScalingDecision}
      → Runs c h a
      → recommend a monotonic s ≡ ok (a', d)
      → d.action ≡ scale_down
      → c.scale_down_windows ≤ℤ pos (low_run c (s ∷ h))
  scale_down-sustained c h a monotonic s r e act =
      let (ec, le) = Runs-windows c r in (recommend-Below c a h monotonic s ec le e).1 act
