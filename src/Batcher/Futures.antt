-- ===== src/Batcher/Futures.antt =====
-- What `_execute` does to the futures of a batch.
use cuebee_speaker_serving.Base.{
  ℕ, suc, ◌≡◌, refl, sym, ◌∙◌, subst, ◌≢◌, ◌⊎◌, inl, inr, List, [], ◌∷◌, arith, ◌==◌, ==_iff,
  length, map, Bool-cases,
}
use cuebee_speaker_serving.Base.Keep.{All, All-zip, All_of}
use cuebee_speaker_serving.Base.Float.{Float}
use cuebee_speaker_serving.Domain.{EmbeddingResult, Error, Result, ok, raised, invalid_state}
use cuebee_speaker_serving.Batcher.{QueuedRequest}
use cuebee_speaker_serving.Batcher.Batch.{IsDistinct}
use cuebee_speaker_serving.Batcher.Run.{
  Future, pending, cancelled, resolved, failed, Inferred, Round, Runner, put, fail_all, recovered,
  resolve_from, result_at, valid_shapes, answered, execute,
}

module _ {R V : Type 0} where
  -- The future has an exception, or a result for the request's chunk.
  abbrev pub IsDone : Future R V → QueuedRequest R V → Type 0
  IsDone (resolved r) x = r.chunk ≡ x.chunk
  IsDone (failed e) x = Unit
  IsDone pending x = ⊥
  IsDone cancelled x = ⊥

  -- A pending future is done, and any other stays as it was.
  abbrev pub IsSettled : Future R V → Future R V → QueuedRequest R V → Type 0
  IsSettled pending g x = IsDone g x
  IsSettled f g x = g ≡ f

  -- The futures of these requests are settled, and no other is changed.
  pub record AreSettled (batch : List (QueuedRequest R V)) (f g : ℕ → Future R V) : Type 0 where
    pub settled : All (λ x. IsSettled (f x.ordinal) (g x.ordinal) x) batch
    pub untouched : (k : ℕ) → All (λ x. k ≢ x.ordinal) batch → g k ≡ f k

  pub put_self : (k : ℕ) (future : Future R V) (f : ℕ → Future R V) → put k future f k ≡ future
  put_self k future f = rw ((==_iff k k).1 refl)

  pub put_ne : (k j : ℕ) (future : Future R V) (f : ℕ → Future R V) → k ≢ j → put k future f j ≡ f j
  put_ne k j future f n = elim (Bool-cases (k == j)) [
    | inl e ↦ absurd (n ((==_iff k j).0 e))
    | inr e ↦ rw e
  ]

  -- A future is put for the first request, and the rest is settled behind it.
  put-AreSettled :
      (x : QueuedRequest R V) (rest : List (QueuedRequest R V)) (future : Future R V)
      (f g : ℕ → Future R V)
      → All (λ y. x.ordinal ≢ y.ordinal) rest
      → IsSettled (f x.ordinal) future x
      → AreSettled rest (put x.ordinal future f) g
      → AreSettled (x ∷ rest) f g
  put-AreSettled x rest future f g d s h = record {
    settled = (
      subst (λ t. IsSettled (f x.ordinal) t x)
          (sym (h.untouched x.ordinal d ∙ put_self x.ordinal future f)) s,
      All-zip
          (λ y n t.
            subst (λ u. IsSettled u (g y.ordinal) y) (put_ne x.ordinal y.ordinal future f n) t)
          rest d h.settled,
    );
    untouched = λ k n. h.untouched k n.1 ∙ put_ne x.ordinal k future f (λ e. n.0 (sym e));
  }

  -- A future that is not pending stays.
  same-AreSettled :
      (x : QueuedRequest R V) (rest : List (QueuedRequest R V)) (f g : ℕ → Future R V)
      → All (λ y. x.ordinal ≢ y.ordinal) rest
      → IsSettled (f x.ordinal) (f x.ordinal) x
      → AreSettled rest f g
      → AreSettled (x ∷ rest) f g
  same-AreSettled x rest f g d s h = record {
    settled =
        (subst (λ t. IsSettled (f x.ordinal) t x) (sym (h.untouched x.ordinal d)) s, h.settled);
    untouched = λ k n. h.untouched k n.1;
  }

  pub fail_all-AreSettled :
      (e : Error) (batch : List (QueuedRequest R V)) (f : ℕ → Future R V)
      → IsDistinct batch
      → AreSettled batch f (fail_all e batch f)
  unfolding fail_all
  fail_all-AreSettled e [] f d = record { settled = tt; untouched = λ k n. refl }
  fail_all-AreSettled e (x ∷ rest) f d =
      go (f x.ordinal) refl (λ g. fail_all-AreSettled e rest g d.1)
    where
      go :
          (t : Future R V)
          → f x.ordinal ≡ t
          → ((g : ℕ → Future R V) → AreSettled rest g (fail_all e rest g))
          → AreSettled (x ∷ rest) f (elim t [
            | pending ↦ fail_all e rest (put x.ordinal (failed e) f)
            | cancelled ↦ fail_all e rest f
            | resolved r ↦ fail_all e rest f
            | failed d ↦ fail_all e rest f
          ])
      go pending h later =
          put-AreSettled x rest (failed e) f _ d.0
            (subst (λ u. IsSettled u (failed e) x) (sym h) tt) (later _)
      go cancelled h later =
          same-AreSettled x rest f _ d.0 (subst (λ u. IsSettled u u x) (sym h) refl) (later f)
      go (resolved r) h later =
          same-AreSettled x rest f _ d.0 (subst (λ u. IsSettled u u x) (sym h) refl) (later f)
      go (failed c) h later =
          same-AreSettled x rest f _ d.0 (subst (λ u. IsSettled u u x) (sym h) refl) (later f)

  -- Where `set_result` raised, the futures of the batch are settled by `set_exception`.
  settled_after :
      (f g h : Future R V) (x : QueuedRequest R V)
      → (g ≡ f) ⊎ IsSettled f g x
      → IsSettled g h x
      → IsSettled f h x
  settled_after f g h x (inl e) s = subst (λ t. IsSettled t h x) e s
  settled_after pending pending h x (inr p) s = absurd p
  settled_after pending cancelled h x (inr p) s = absurd p
  settled_after pending (resolved r) h x (inr p) s = subst (λ t. IsDone t x) (sym s) p
  settled_after pending (failed e) h x (inr p) s = subst (λ t. IsDone t x) (sym s) p
  settled_after cancelled g h x (inr p) s = subst (λ t. IsSettled t h x) p s
  settled_after (resolved r) g h x (inr p) s = subst (λ t. IsSettled t h x) p s
  settled_after (failed e) g h x (inr p) s = subst (λ t. IsSettled t h x) p s

  -- What the loop of `set_result` leaves when it ends or raises.
  pub record IsTried (batch : List (QueuedRequest R V)) (f : ℕ → Future R V)
      (out : Result (Unit {0}) × (ℕ → Future R V)) : Type 0 where
    tried :
        All
          (λ x. (out.1 x.ordinal ≡ f x.ordinal) ⊎ IsSettled (f x.ordinal) (out.1 x.ordinal) x)
          batch
    pub untouched : (k : ℕ) → All (λ x. k ≢ x.ordinal) batch → out.1 k ≡ f k
    on_ok : out.0 ≡ ok tt → AreSettled batch f out.1

  put-IsTried :
      (x : QueuedRequest R V) (rest : List (QueuedRequest R V)) (future : Future R V)
      (f : ℕ → Future R V) (out : Result (Unit {0}) × (ℕ → Future R V))
      → All (λ y. x.ordinal ≢ y.ordinal) rest
      → IsSettled (f x.ordinal) future x
      → IsTried rest (put x.ordinal future f) out
      → IsTried (x ∷ rest) f out
  put-IsTried x rest future f out d s h = record {
    tried = (
      inr (
          subst (λ t. IsSettled (f x.ordinal) t x)
            (sym (h.untouched x.ordinal d ∙ put_self x.ordinal future f)) s),
      All-zip
          (λ y n t.
            subst (λ u. (out.1 y.ordinal ≡ u) ⊎ IsSettled u (out.1 y.ordinal) y)
              (put_ne x.ordinal y.ordinal future f n) t)
          rest d h.tried,
    );
    untouched = λ k n. h.untouched k n.1 ∙ put_ne x.ordinal k future f (λ e. n.0 (sym e));
    on_ok = λ e. put-AreSettled x rest future f out.1 d s (h.on_ok e);
  }

  same-IsTried :
      (x : QueuedRequest R V) (rest : List (QueuedRequest R V)) (f : ℕ → Future R V)
      (out : Result (Unit {0}) × (ℕ → Future R V))
      → All (λ y. x.ordinal ≢ y.ordinal) rest
      → IsSettled (f x.ordinal) (f x.ordinal) x
      → IsTried rest f out
      → IsTried (x ∷ rest) f out
  same-IsTried x rest f out d s h = record {
    tried = (inl (h.untouched x.ordinal d), h.tried);
    untouched = λ k n. h.untouched k n.1;
    on_ok = λ e. same-AreSettled x rest f out.1 d s (h.on_ok e);
  }

  unchanged-IsTried :
      (batch : List (QueuedRequest R V)) (f : ℕ → Future R V) (e : Error)
      → IsTried batch f (raised e, f)
  unchanged-IsTried batch f e = record {
    tried = All_of (λ x. inl refl) batch;
    untouched = λ k n. refl;
    on_ok = λ h. absurd (ground arith);
  }

  recovered-AreSettled :
      (batch : List (QueuedRequest R V)) (f : ℕ → Future R V) (r : Result (Unit {0}))
      (g : ℕ → Future R V)
      → IsDistinct batch
      → IsTried batch f (r, g)
      → AreSettled batch f (recovered batch (r, g))
  recovered-AreSettled batch f (ok u) g d h = h.on_ok refl
  recovered-AreSettled batch f (raised e) g d h =
      let later = fail_all-AreSettled e batch g d in
      record {
        settled =
            All-zip (λ x p s. settled_after (f x.ordinal) (g x.ordinal) _ x p s) batch h.tried
              later.settled;
        untouched = λ k n. later.untouched k n ∙ h.untouched k n;
      }

module _ {R V : Type 0} ⦃float : Float R⦄ where
  pub resolve_from-IsTried :
      (result : ℕ → QueuedRequest R V → EmbeddingResult R V) (index : ℕ)
      (batch : List (QueuedRequest R V)) (f : ℕ → Future R V)
      → ((i : ℕ) (x : QueuedRequest R V) → (result i x).chunk ≡ x.chunk)
      → IsDistinct batch
      → IsTried batch f (resolve_from result index batch f)
  unfolding resolve_from
  resolve_from-IsTried result index [] f c d = record {
    tried = tt;
    untouched = λ k n. refl;
    on_ok = λ h. record { settled = tt; untouched = λ k n. refl };
  }
  resolve_from-IsTried result index (x ∷ rest) f c d =
      go (f x.ordinal) refl (λ g. resolve_from-IsTried result (suc index) rest g c d.1)
    where
      go :
          (t : Future R V)
          → f x.ordinal ≡ t
          → ((g : ℕ → Future R V) → IsTried rest g (resolve_from result (suc index) rest g))
          → IsTried (x ∷ rest) f (elim t [
            | pending ↦
                resolve_from result (suc index) rest (put x.ordinal (resolved (result index x)) f)
            | cancelled ↦ resolve_from result (suc index) rest f
            | resolved r ↦ (raised (invalid_state "invalid state"), f)
            | failed e ↦ (raised (invalid_state "invalid state"), f)
          ])
      go pending h later =
          put-IsTried x rest (resolved (result index x)) f _ d.0
            (subst (λ u. IsSettled u (resolved (result index x)) x) (sym h) (c index x)) (later _)
      go cancelled h later =
          same-IsTried x rest f _ d.0 (subst (λ u. IsSettled u u x) (sym h) refl) (later f)
      go (resolved r) h later = unchanged-IsTried (x ∷ rest) f _
      go (failed e) h later = unchanged-IsTried (x ∷ rest) f _

  answered-IsTried :
      (s : Runner R V) (round : Round R V) (batch : List (QueuedRequest R V))
      (answer : Result (Inferred R V))
      → IsDistinct batch
      → IsTried batch s.futures (answered s round batch answer)
  answered-IsTried s round batch (raised e) d = unchanged-IsTried batch s.futures e
  answered-IsTried s round batch (ok answer) d =
      elim (Bool-cases (valid_shapes (length batch) s.embedding_dimension answer)) [
        | inl e ↦ rw e (
            resolve_from-IsTried (result_at s round answer (length batch)) 0 batch s.futures
              (λ i x. refl) d)
        | inr e ↦ rw e (unchanged-IsTried batch s.futures _)
      ]

  pub execute-AreSettled :
      (s : Runner R V) (round : Round R V) (bucket : ℕ) (batch : List (QueuedRequest R V))
      → IsDistinct batch
      → AreSettled batch s.futures (execute s round bucket batch).futures
  unfolding execute
  execute-AreSettled s round bucket batch d = recovered-AreSettled batch s.futures _ _ d (
      answered-IsTried s round batch (round.infer_batch (map (λ item. item.chunk.features) batch))
        d)
