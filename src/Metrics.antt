-- ===== src/Metrics.antt =====
-- src/cuebee_speaker/metrics.py: counters, gauges and histograms, and their export. A call holds the
-- lock, so it is one step.
pub mod Window
use cuebee_speaker_serving.Base.{
  ℕ, ◌-◌, ◌+◌, Bool, true, false, not, ◌||◌, ◌&&◌, List, [], ◌∷◌, ◌++◌, Option, none, some, map,
  arith, ltb, length, drop, if◌then◌else◌, ◌==◌,
}
use cuebee_speaker_serving.Base.Eq.{text_eq}
use cuebee_speaker_serving.Base.Int.{ℤ, pos, ltb_ℤ, pos_part}
use cuebee_speaker_serving.Base.Text.{codes}
use cuebee_speaker_serving.Base.Dict.{Dict, get, set}
use cuebee_speaker_serving.Base.Sort.{sorted}
use cuebee_speaker_serving.Base.Float.{Float}
use cuebee_speaker_serving.Batcher.Run.{BatchObservation}
use cuebee_speaker_serving.Domain.{Result, ok, raised, value_error}
use cuebee_speaker_serving.Store.{text_lt}
use cuebee_speaker_serving.Store.SpeakerId.{digits}

-- `MetricRegistry`
pub record MetricRegistry (R : Type 0) : Type 0 where
  pub max_observations : ℤ
  pub counters : Dict (List ℕ) R
  pub gauges : Dict (List ℕ) R
  pub histograms : Dict (List ℕ) (List R)

-- `_summarize`
pub record Summary (R : Type 0) : Type 0 where
  pub count : ℕ
  pub sum : R
  pub p50 : R
  pub p95 : R
  pub p99 : R

pub record Snapshot (R : Type 0) : Type 0 where
  pub counters : Dict (List ℕ) R
  pub gauges : Dict (List ℕ) R
  pub histograms : Dict (List ℕ) (Summary R)

-- What the registry calls on numbers and characters: `math.isfinite`, `np.sum`, `np.percentile`,
-- `str` of a float and `str.isalnum`.
pub record Numeric (R : Type 0) : Type 0 where
  pub is_finite : R → Bool
  pub sum : List R → R
  pub percentile : List R → ℕ → R
  pub text : R → List ℕ
  pub is_alnum : ℕ → Bool

-- A method of the registry: it may raise, and what was changed before stays.
abbrev pub Method : Type 0 → Type 0
Method R = MetricRegistry R → Result (Unit {0}) × MetricRegistry R

module _ {R : Type 0} where
  abbrev next : Result (Unit {0}) → Method R → Method R
  next (raised e) later m = (raised e, m)
  next (ok u) later m = later m

  infixl 5 ◌>>◌
  abbrev pub ◌>>◌ : Method R → Method R → Method R
  first >> later = λ m. let (r, m') = first m in next r later m'

-- The values of a `deque` with this `maxlen`: an append drops the oldest ones.
abbrev pub last_of {ℓ} : {A : Type ℓ} → ℕ → List A → List A
last_of n values = drop (length values - n) values

-- `str.join`
unfoldable pub join : List ℕ → List (List ℕ) → List ℕ
join separator [] = []
join separator (line ∷ []) = line
join separator (line ∷ next ∷ lines) = line ++ separator ++ join separator (next ∷ lines)

-- `sorted(d.items())`; the names of a dictionary are distinct.
abbrev pub by_name : {A : Type 0} → Dict (List ℕ) A → Dict (List ℕ) A
by_name = sorted (λ a b. text_lt a.0 b.0)

module _ {R : Type 0} ⦃float : Float R⦄ (np : Numeric R) where
  open float use {lt, add, decimal, of_int}

  abbrev pub counter_of : Option R → R
  counter_of none = decimal 0 0
  counter_of (some r) = r

  unfoldable pub increment : List ℕ → R → Method R
  increment name value m =
      if lt value (decimal 0 0)
      then (raised (value_error "counter increments cannot be negative"), m)
      else (
        ok tt,
        record m { counters = set name (add (counter_of (get name m.counters)) value) m.counters },
      )

  unfoldable pub set_gauge : List ℕ → R → Method R
  set_gauge name value m = (ok tt, record m { gauges = set name value m.gauges })

  -- A `deque` cannot be made with a negative `maxlen`.
  abbrev recorded :
      List ℕ → R → MetricRegistry R → Option (List R) → Result (Unit {0}) × MetricRegistry R
  recorded name value m none =
      if ltb_ℤ m.max_observations (pos 0)
      then (raised (value_error "maxlen must be non-negative"), m)
      else (
        ok tt,
        record m {
          histograms = set name (last_of (pos_part m.max_observations) (value ∷ [])) m.histograms;
        },
      )
  recorded name value m (some values) = (
    ok tt,
    record m {
      histograms =
          set name (last_of (pos_part m.max_observations) (values ++ value ∷ [])) m.histograms;
    },
  )

  unfoldable pub observe : List ℕ → R → Method R
  observe name value m =
      if np.is_finite value then recorded name value m (get name m.histograms) else (ok tt, m)

  unfoldable pub summarize : List R → Summary R
  summarize [] = record {
    count = 0;
    sum = decimal 0 0;
    p50 = decimal 0 0;
    p95 = decimal 0 0;
    p99 = decimal 0 0;
  }
  summarize (v ∷ values) = record {
    count = length (v ∷ values);
    sum = np.sum (v ∷ values);
    p50 = np.percentile (v ∷ values) 50;
    p95 = np.percentile (v ∷ values) 95;
    p99 = np.percentile (v ∷ values) 99;
  }

  unfoldable pub snapshot : MetricRegistry R → Snapshot R
  snapshot m = record {
    counters = m.counters;
    gauges = m.gauges;
    histograms = map (λ e. (e.0, summarize e.1)) m.histograms;
  }

  abbrev pub safe_name : List ℕ → List ℕ
  safe_name = map (λ c. if np.is_alnum c then c else 95)

  -- `f"{prefix}_{name}{suffix} {value}"`
  abbrev line : List ℕ → List ℕ → List ℕ → List ℕ → List ℕ
  line prefix name suffix value =
      prefix ++ codes "_" ++ safe_name name ++ suffix ++ codes " " ++ value

  abbrev quantile_line : List ℕ → List ℕ → List ℕ → R → List ℕ
  quantile_line prefix name label value =
      line prefix name (codes "{quantile=\"" ++ label ++ codes "\"}") (np.text value)

  abbrev summary_lines : List ℕ → List ℕ → Summary R → List (List ℕ)
  summary_lines prefix name s =
      quantile_line prefix name (codes "0.50") s.p50
      ∷ quantile_line prefix name (codes "0.95") s.p95
      ∷ quantile_line prefix name (codes "0.99") s.p99
      ∷ line prefix name (codes "_count") (digits (s.count + 1) s.count)
      ∷ line prefix name (codes "_sum") (np.text s.sum)
      ∷ []

  unfoldable pub all_lines :
      {A : Type 0} → (List ℕ → A → List (List ℕ)) → Dict (List ℕ) A → List (List ℕ)
  all_lines lines [] = []
  all_lines lines ((name, a) ∷ d) = lines name a ++ all_lines lines d

  unfoldable pub prometheus_text : List ℕ → MetricRegistry R → List ℕ
  prometheus_text prefix m =
      let s = snapshot m in
      join (codes "\n") (
        all_lines (λ name value. line prefix name (codes "_total") (np.text value) ∷ [])
          (by_name s.counters)
        ++ all_lines (λ name value. line prefix name [] (np.text value) ∷ []) (by_name s.gauges)
        ++ all_lines (summary_lines prefix) (by_name s.histograms))
      ++ codes "\n"

  unfoldable pub observe_batch : BatchObservation R → Method R
  observe_batch o =
      increment (codes "batches") (decimal 1 0)
      >> increment (codes "embedded_audio_seconds") o.audio_seconds
      >> observe (codes "batch_size") (of_int (pos o.batch_size))
      >> observe (codes "queue_delay_ms") o.oldest_queue_delay_ms
      >> observe (codes "inference_latency_ms") o.inference_ms

  -- The calls of `observe`, one after the other.
  unfoldable pub observe_all : List (List ℕ × R) → Method R
  observe_all [] m = (ok tt, m)
  observe_all ((name, value) ∷ events) m = (observe name value >> observe_all events) m
