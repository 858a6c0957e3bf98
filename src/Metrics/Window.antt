-- ===== src/Metrics/Window.antt =====
-- What a histogram holds: the latest of the finite values that were observed for its name.
use mathlib.Core.List.{append_assoc, append-nil}
use cuebee_speaker_serving.Base.{
  ℕ, ◌+◌, ◌-◌, ◌≡◌, refl, sym, ap, ◌∙◌, subst, inl, inr, true, false, ◌&&◌, List, [], ◌∷◌, ◌++◌,
  Option, none, some, arith, length, length-append, length-drop, zero, suc, drop, if◌then◌else◌,
  Bool-cases,
}
use cuebee_speaker_serving.Base.Split.{drop-append_le}
use cuebee_speaker_serving.Base.Int.{pos, ltb_ℤ, pos_part}
use cuebee_speaker_serving.Base.Eq.{text_eq}
use cuebee_speaker_serving.Base.Dict.{get, set, get-set_self, get-set_ne}
use cuebee_speaker_serving.Base.Float.{Float}
use cuebee_speaker_serving.Domain.{Result, ok}
use cuebee_speaker_serving.Metrics.{
  MetricRegistry, Numeric, last_of, recorded, observe, observe_all, next,
}

module _ {ℓ} {A : Type ℓ} where
  drop-nil : (a : ℕ) → drop {A = A} a [] ≡ []
  drop-nil zero = refl
  drop-nil (suc a) = refl

  drop-drop : (a b : ℕ) (xs : List A) → drop a (drop b xs) ≡ drop (b + a) xs
  drop-drop a zero xs = ap (λ k. drop k xs) {x = a} {y = 0 + a} (omega arith)
  drop-drop a (suc b) [] = drop-nil a ∙ sym (drop-nil (suc b + a))
  drop-drop a (suc b) (x ∷ xs) =
      drop-drop a b xs ∙ ap (λ k. drop k (x ∷ xs)) {x = suc (b + a)} {y = suc b + a} (omega arith)

  -- A list that is cut and longer by one is cut as the whole would be.
  last_of-snoc :
      (n : ℕ) (xs : List A) (x : A) → last_of n (last_of n xs ++ x ∷ []) ≡ last_of n (xs ++ x ∷ [])
  last_of-snoc n xs x =
      let cut = length xs - n in
      let whole : drop cut xs ++ x ∷ [] ≡ drop cut (xs ++ x ∷ []) =
        sym (drop-append_le cut xs (x ∷ []) (omega arith)) in
      let kept : length (drop cut xs ++ x ∷ []) ≡ length xs - cut + 1 =
        length-append (drop cut xs) (x ∷ []) ∙ ap (λ k. k + 1) (length-drop cut xs) in
      let count : cut + (length (drop cut xs ++ x ∷ []) - n) ≡ length (xs ++ x ∷ []) - n =
        omega (arith, kept, length-append xs (x ∷ [])) in
      ap (drop (length (drop cut xs ++ x ∷ []) - n)) whole
      ∙ drop-drop (length (drop cut xs ++ x ∷ []) - n) cut (xs ++ x ∷ [])
      ∙ ap (λ k. drop k (xs ++ x ∷ [])) count

module _ {R : Type 0} (np : Numeric R) where
  -- The finite values among the events of a name, in their order.
  abbrev pub finite_of : List ℕ → List (List ℕ × R) → List R
  finite_of name [] = []
  finite_of name ((other, value) ∷ events) =
      let rest = finite_of name events in
      if text_eq.same other name && np.is_finite value then value ∷ rest else rest

  -- The histogram of these values: none, before the first.
  abbrev pub histogram_of : ℕ → List R → Option (List R)
  histogram_of n [] = none
  histogram_of n (v ∷ values) = some (last_of n (v ∷ values))

  finite_of-append :
      (name : List ℕ) (past events : List (List ℕ × R))
      → finite_of name (past ++ events) ≡ finite_of name past ++ finite_of name events
  finite_of-append name [] events = refl
  finite_of-append name ((other, value) ∷ past) events =
      ground (arith, finite_of-append name past events)

  -- An event that counts for a name, and one that does not.
  finite_of-snoc :
      (name : List ℕ) (past : List (List ℕ × R)) (value : R)
      → np.is_finite value ≡ true
      → finite_of name (past ++ (name, value) ∷ []) ≡ finite_of name past ++ value ∷ []
  finite_of-snoc name past value f =
      let counts : (text_eq.same name name && np.is_finite value) ≡ true =
        ground (arith, f, (text_eq.same_iff name name).1 refl) in
      finite_of-append name past ((name, value) ∷ [])
      ∙ ap (λ b. finite_of name past ++ (if b then value ∷ [] else [])) counts

  finite_of-snoc_other :
      (name other : List ℕ) (past : List (List ℕ × R)) (value : R)
      → (text_eq.same other name && np.is_finite value) ≡ false
      → finite_of name (past ++ (other, value) ∷ []) ≡ finite_of name past
  finite_of-snoc_other name other past value f =
      finite_of-append name past ((other, value) ∷ [])
      ∙ ap (λ b. finite_of name past ++ (if b then value ∷ [] else [])) f
      ∙ append-nil (finite_of name past)

  histogram_of-snoc :
      (n : ℕ) (xs : List R) (x : R)
      → histogram_of n (xs ++ x ∷ []) ≡ some (last_of n (xs ++ x ∷ []))
  histogram_of-snoc n [] x = refl
  histogram_of-snoc n (y ∷ xs) x = refl

  -- The histograms are those of the events.
  abbrev Holds : ℕ → List (List ℕ × R) → MetricRegistry R → Type 0
  Holds n past m = (name : List ℕ) → get name m.histograms ≡ histogram_of n (finite_of name past)

  record IsObserved (n : ℕ) (past : List (List ℕ × R)) (out : Result (Unit {0}) × MetricRegistry R)
      : Type 0 where
    ends : out.0 ≡ ok tt
    limit : out.1.max_observations ≡ pos n
    holds : Holds n past out.1

  set-Holds :
      (n : ℕ) (past : List (List ℕ × R)) (name : List ℕ) (value : R) (m : MetricRegistry R)
      (values : List R)
      → np.is_finite value ≡ true
      → Holds n past m
      → values ≡ last_of n (finite_of name past ++ value ∷ [])
      → Holds n
          (past ++ (name, value) ∷ [])
          (record m { histograms = set name values m.histograms })
  set-Holds n past name value m values f h v other = elim (Bool-cases (text_eq.same name other)) [
    | inl e ↦
        subst
          (λ k.
            get k (set name values m.histograms)
            ≡ histogram_of n (finite_of k (past ++ (name, value) ∷ [])))
          ((text_eq.same_iff name other).0 e)
          (get-set_self name values m.histograms
            ∙ ap some v
            ∙ sym (
                ap (histogram_of n) (finite_of-snoc name past value f)
                ∙ histogram_of-snoc n (finite_of name past) value))
    | inr e ↦
        get-set_ne name other values m.histograms
          (λ p. absurd (ground (arith, e, (text_eq.same_iff name other).1 p)))
        ∙ h other
        ∙ sym (ap (histogram_of n) (finite_of-snoc_other other name past value (ground (arith, e))))
  ]

module _ {R : Type 0} ⦃float : Float R⦄ (np : Numeric R) where
  recorded-IsObserved :
      (n : ℕ) (past : List (List ℕ × R)) (name : List ℕ) (value : R) (m : MetricRegistry R)
      (old : List R)
      → finite_of np name past ≡ old
      → np.is_finite value ≡ true
      → m.max_observations ≡ pos n
      → Holds np n past m
      → IsObserved np n
          (past ++ (name, value) ∷ [])
          (recorded np name value m (histogram_of np n old))
  recorded-IsObserved n past name value m [] o f e h =
      let fine : ltb_ℤ m.max_observations (pos 0) ≡ false = rw e (ground arith) in
      rw fine (record {
        ends = refl;
        limit = e;
        holds =
            set-Holds np n past name value m _ f h
              (rw o (ap (λ k. last_of (pos_part k) (value ∷ [])) e));
      })
  recorded-IsObserved n past name value m (v ∷ old) o f e h = record {
    ends = refl;
    limit = e;
    holds = set-Holds np n past name value m _ f h (
        ap (λ k. last_of (pos_part k) (last_of n (v ∷ old) ++ value ∷ [])) e
        ∙ last_of-snoc n (v ∷ old) value
        ∙ ap (λ l. last_of n (l ++ value ∷ [])) (sym o));
  }

  -- One more observation.
  observe-IsObserved :
      (n : ℕ) (past : List (List ℕ × R)) (name : List ℕ) (value : R) (m : MetricRegistry R)
      → m.max_observations ≡ pos n
      → Holds np n past m
      → IsObserved np n (past ++ (name, value) ∷ []) (observe np name value m)
  unfolding observe
  observe-IsObserved n past name value m e h = elim (Bool-cases (np.is_finite value)) [
    | inr f ↦ rw f (record {
      ends = refl;
      limit = e;
      holds = λ other.
          h other
          ∙ sym (
              ap (histogram_of np n)
                (finite_of-snoc_other np other name past value (ground (arith, f))));
    })
    | inl f ↦
        rw (f, h name) (recorded-IsObserved n past name value m (finite_of np name past) refl f e h)
  ]

  observe_all-IsObserved :
      (n : ℕ) (past events : List (List ℕ × R)) (m : MetricRegistry R)
      → m.max_observations ≡ pos n
      → Holds np n past m
      → IsObserved np n (past ++ events) (observe_all np events m)
  unfolding observe_all
  observe_all-IsObserved n past [] m e h =
      subst (λ l. IsObserved np n l (ok tt, m)) (sym (append-nil past))
        (record { ends = refl; limit = e; holds = h })
  observe_all-IsObserved n past ((name, value) ∷ events) m e h =
      let first = observe-IsObserved n past name value m e h in
      let later =
        observe_all-IsObserved n (past ++ (name, value) ∷ []) events (observe np name value m).1
          first.limit first.holds in
      subst
        (λ r.
          IsObserved np n (past ++ (name, value) ∷ events)
            (next r (observe_all np events) (observe np name value m).1))
        (sym first.ends)
        (subst (λ l. IsObserved np n l (observe_all np events (observe np name value m).1))
          (append_assoc past ((name, value) ∷ []) events) later)

  -- From a fresh registry with a limit that is not negative: after any observations, none of which
  -- raises, the histogram of a name holds the latest of the finite values observed for it, as many
  -- as the limit allows, in their order; a name with no finite value has no histogram.
  pub observe_all-histogram :
      (n : ℕ) (events : List (List ℕ × R)) (name : List ℕ)
      → let out =
          observe_all np events
            (record { max_observations = pos n; counters = []; gauges = []; histograms = [] }) in
        (out.0 ≡ ok tt) × (get name out.1.histograms ≡ histogram_of np n (finite_of np name events))
  unfolding get
  observe_all-histogram n events name =
      let h = observe_all-IsObserved n [] events _ refl (λ other. refl) in (h.ends, h.holds name)
