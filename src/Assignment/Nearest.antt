-- ===== src/Assignment/Nearest.antt =====
-- `_nearest`: the profile that it selects.
use cuebee_speaker_serving.Base.{
  ℕ, zero, suc, ◌≡◌, sym, subst, ap, ◌∙◌, false, List, [], ◌∷◌, Option, none, some, arith,
  get_elem?,
}
use cuebee_speaker_serving.Base.Float.{Float}
use cuebee_speaker_serving.Base.Keep.{All, In, here, there}
use cuebee_speaker_serving.Domain.{SpeakerProfile, ok, >>=-eq-ok, ok_injective}
use cuebee_speaker_serving.Assignment.{Vectors, similarity, scores_of, chosen, nearest}

get_elem?-In : {A : Type 0} (l : List A) (i : ℕ) (x : A) → get_elem? l i ≡ some x → In x l
get_elem?-In [] i x h = absurd (ground arith)
get_elem?-In (y ∷ l) zero x h = here (ground arith)
get_elem?-In (y ∷ l) (suc i) x h = there (get_elem?-In l i x h)

module _ {R V : Type 0} ⦃float : Float R⦄ (np : Vectors R V) where
  -- `np.argmax` on numbers other than NaN: no score is above the one at the index.
  abbrev pub FindsGreatest : Type 0
  FindsGreatest =
      (l : List R) (x : R) → get_elem? l (np.argmax l) ≡ some x → All (λ y. float.lt x y ≡ false) l

  -- The profile is in the list, the score is its own, and no other profile scores higher.
  pub record IsNearest (embedding : V) (profiles : List (SpeakerProfile R V))
      (p : SpeakerProfile R V) (score : R) : Type 0 where
    pub member : In p profiles
    pub scored : similarity np embedding p ≡ ok score
    pub greatest :
        All
          (λ q. (other : R) → similarity np embedding q ≡ ok other → float.lt score other ≡ false)
          profiles

  scores_of-get :
      (embedding : V) (profiles : List (SpeakerProfile R V)) (scores : List R) (i : ℕ)
      (p : SpeakerProfile R V) (score : R)
      → scores_of np embedding profiles ≡ ok scores
      → get_elem? profiles i ≡ some p
      → get_elem? scores i ≡ some score
      → similarity np embedding p ≡ ok score
  unfolding scores_of
  scores_of-get embedding [] scores i p score h a b = absurd (ground arith)
  scores_of-get embedding (q ∷ profiles) scores zero p score h a b =
      let (s, e, h1) = >>=-eq-ok (similarity np embedding q) _ h in
      let (rest, e2, h2) = >>=-eq-ok (scores_of np embedding profiles) _ h1 in
      let found : some s ≡ some score =
        subst (λ l. get_elem? l 0 ≡ some score) (sym (ok_injective h2)) b in
      let same : q ≡ p = ground arith in
      let own : s ≡ score = ground arith in ap (similarity np embedding) (sym same) ∙ e ∙ ap ok own
  scores_of-get embedding (q ∷ profiles) scores (suc i) p score h a b =
      let (s, e, h1) = >>=-eq-ok (similarity np embedding q) _ h in
      let (rest, e2, h2) = >>=-eq-ok (scores_of np embedding profiles) _ h1 in
      scores_of-get embedding profiles rest i p score e2 a
        (subst (λ l. get_elem? l (suc i) ≡ some score) (sym (ok_injective h2)) b)

  scores_of-All :
      (embedding : V) (profiles : List (SpeakerProfile R V)) (scores : List R) (score : R)
      → scores_of np embedding profiles ≡ ok scores
      → All (λ y. float.lt score y ≡ false) scores
      → All
          (λ q. (other : R) → similarity np embedding q ≡ ok other → float.lt score other ≡ false)
          profiles
  unfolding scores_of
  scores_of-All embedding [] scores score h a = tt
  scores_of-All embedding (q ∷ profiles) scores score h a =
      let (s, e, h1) = >>=-eq-ok (similarity np embedding q) _ h in
      let (rest, e2, h2) = >>=-eq-ok (scores_of np embedding profiles) _ h1 in
      let b = subst (All (λ y. float.lt score y ≡ false)) (sym (ok_injective h2)) a in
      (
        (λ other f. subst (λ t. float.lt score t ≡ false) (ok_injective (sym e ∙ f)) b.0),
        scores_of-All embedding profiles rest score e2 b.1,
      )

  chosen-eq-ok :
      (o : Option (SpeakerProfile R V)) (s : Option R) (p : SpeakerProfile R V) (score : R)
      → chosen np o s ≡ ok (some (p, score))
      → (o ≡ some p) × (s ≡ some score)
  chosen-eq-ok none s p score h = absurd (ground arith)
  chosen-eq-ok (some q) none p score h = absurd (ground arith)
  chosen-eq-ok (some q) (some t) p score h = (ground arith, ground arith)

  -- With the documented behaviour of `np.argmax`, the profile that `_nearest` selects is one of the
  -- list, with its own score, and no other profile of the list scores higher.
  pub nearest-IsNearest :
      (embedding : V) (profiles : List (SpeakerProfile R V)) (p : SpeakerProfile R V) (score : R)
      → FindsGreatest
      → nearest np embedding profiles ≡ ok (some (p, score))
      → IsNearest embedding profiles p score
  unfolding nearest
  nearest-IsNearest embedding [] p score law h = absurd (ground arith)
  nearest-IsNearest embedding (q ∷ profiles) p score law h =
      let (scores, e, f) = >>=-eq-ok (scores_of np embedding (q ∷ profiles)) _ h in
      let (a, b) =
        chosen-eq-ok (get_elem? (q ∷ profiles) (np.argmax scores))
          (get_elem? scores (np.argmax scores)) p score f in
      record {
        member = get_elem?-In (q ∷ profiles) (np.argmax scores) p a;
        scored = scores_of-get embedding (q ∷ profiles) scores (np.argmax scores) p score e a b;
        greatest = scores_of-All embedding (q ∷ profiles) scores score e (law scores score b);
      }

  pub nearest-In :
      (embedding : V) (profiles : List (SpeakerProfile R V)) (p : SpeakerProfile R V) (score : R)
      → nearest np embedding profiles ≡ ok (some (p, score))
      → In p profiles
  unfolding nearest
  nearest-In embedding [] p score h = absurd (ground arith)
  nearest-In embedding (q ∷ profiles) p score h =
      let (scores, e, f) = >>=-eq-ok (scores_of np embedding (q ∷ profiles)) _ h in
      let (a, b) =
        chosen-eq-ok (get_elem? (q ∷ profiles) (np.argmax scores))
          (get_elem? scores (np.argmax scores)) p score f in
      get_elem?-In (q ∷ profiles) (np.argmax scores) p a
