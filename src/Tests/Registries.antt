-- ===== src/Tests/Registries.antt =====
-- Runs of src/cuebee_speaker/metrics.py.
use cuebee_speaker_serving.Base.{ℕ, ◌≡◌, refl, not, List, [], ◌∷◌, some, length, ◌==◌}
use cuebee_speaker_serving.Base.Int.{ℤ, pos}
use cuebee_speaker_serving.Base.Text.{codes}
use cuebee_speaker_serving.Base.Eq.{text_eq}
use cuebee_speaker_serving.Base.Dict.{get, set}
use cuebee_speaker_serving.Domain.{ok}
use cuebee_speaker_serving.Metrics.{MetricRegistry, Numeric, observe_all, observe}
use cuebee_speaker_serving.Metrics.Window.{observe_all-histogram, histogram_of, finite_of}
use cuebee_speaker_serving.Tests.Floats.{milli}

-- 666 stands for a NaN.
abbrev pub numpy : Numeric ℤ
numpy = record {
  is_finite = λ r. not (milli.eq r (pos 666));
  sum = λ values. pos (length values);
  percentile = λ values q. pos q;
  text = λ r. codes "1.5";
  is_alnum = λ c. not (c == 46);
}

abbrev events : List (List ℕ × ℤ)
events =
    (codes "a", pos 1)
    ∷ (codes "b", pos 9)
    ∷ (codes "a", pos 666)
    ∷ (codes "a", pos 2)
    ∷ (codes "a", pos 3)
    ∷ []

abbrev pub new_registry : MetricRegistry ℤ
new_registry = record { max_observations = pos 2; counters = []; gauges = []; histograms = [] }

last_two :
    get (codes "a") (observe_all numpy events new_registry).1.histograms ≡ some (pos 2 ∷ pos 3 ∷ [])
unfolding observe_all observe get set
last_two = refl

observe_all-histogram_example :
    ((observe_all numpy events new_registry).0 ≡ ok tt)
    × (get (codes "a") (observe_all numpy events new_registry).1.histograms
        ≡ histogram_of numpy 2 (finite_of numpy (codes "a") events))
observe_all-histogram_example = observe_all-histogram numpy 2 events (codes "a")
