-- ===== src/Batcher/Reach.antt =====
-- The batchers that calls can lead to.
use cuebee_speaker_serving.Base.{
  ℕ, suc, ◌<◌, ◌≡◌, refl, sym, ap, subst, true, false, Option, List, [], ◌∷◌, ◌++◌, some, none,
  arith,
}
use cuebee_speaker_serving.Base.Int.{ℤ}
use cuebee_speaker_serving.Base.Eq.{nat_eq}
use cuebee_speaker_serving.Base.Dict.{IsDict, get}
use cuebee_speaker_serving.Base.Keep.{
  All, All-map, All-append, All-append_left, All-append_right, All-Picks,
}
use cuebee_speaker_serving.Base.Float.{Float}
use cuebee_speaker_serving.Config.{BatcherConfig, check_batcher}
use cuebee_speaker_serving.Domain.{FeatureChunk, ok}
use cuebee_speaker_serving.Batcher.{
  QueuedRequest, Batcher, submit, take_batch, batch_of, left_in, put_back,
}
use cuebee_speaker_serving.Batcher.Batch.{IsDistinct}
use cuebee_speaker_serving.Batcher.Run.{items_of}
use cuebee_speaker_serving.Batcher.Submitted.{IsInserted, submit-IsSubmitted}
use cuebee_speaker_serving.Batcher.Queues.{Queues, get-IsSplit, items_of-put_back, put_back-IsDict}
use cuebee_speaker_serving.Batcher.Taken.{others-Picks, others-IsDistinct}

module _ {R V : Type 0} ⦃float : Float R⦄ where
  -- `CrossSessionMicroBatcher(...)`
  abbrev pub new_batcher : BatcherConfig → Batcher R V
  new_batcher c = record { config = c; queues = []; closing = false; ordinal = 0 }

  -- A call that changes the queues, or the start of `close`.
  pub data Moves (b : Batcher R V) : Batcher R V → Type 0 where
    submits :
        {b' : Batcher R V} (now : R) (frames : ℕ) (chunk : FeatureChunk R V)
        (deadline_ms : Option ℤ)
        → submit b now frames chunk deadline_ms ≡ ok b'
        → Moves b b'
    takes :
        {b' : Batcher R V} {batch : List (QueuedRequest R V)} (bucket : ℕ)
        → take_batch b bucket ≡ some (b', batch)
        → Moves b b'
    closes : Moves b (record b { closing = true })

  -- What such calls lead to.
  pub data Reachable (c : BatcherConfig) : Batcher R V → Type 0 where
    starts : Reachable c (new_batcher c)
    moves : {b b' : Batcher R V} → Reachable c b → Moves b b' → Reachable c b'

  -- The queues are a dictionary, and the ordinals of the requests that wait are distinct and below the
  -- next one.
  pub record IsBatcher (c : BatcherConfig) (b : Batcher R V) : Type 0 where
    pub configured : b.config ≡ c
    pub dict : IsDict b.queues
    pub distinct : IsDistinct (items_of b.queues)
    pub below : All (λ x. x.ordinal < b.ordinal) (items_of b.queues)

  insert-IsDistinct :
      (l r : List (QueuedRequest R V)) (x : QueuedRequest R V)
      → All (λ y. y.ordinal < x.ordinal) (l ++ r)
      → IsDistinct (l ++ r)
      → IsDistinct (l ++ x ∷ r)
  insert-IsDistinct [] r x h d = (All-map (λ y n e. absurd (omega arith)) r h, d)
  insert-IsDistinct (y ∷ l) r x h d = (
    All-append _ l (x ∷ r) (All-append_left _ l r d.0)
        ((λ e. absurd (omega (arith, h.0))), All-append_right _ l r d.0),
    insert-IsDistinct l r x h.1 d.1,
  )

  insert_below :
      (l r : List (QueuedRequest R V)) (x : QueuedRequest R V)
      → All (λ y. y.ordinal < x.ordinal) (l ++ r)
      → All (λ y. y.ordinal < suc x.ordinal) (l ++ x ∷ r)
  insert_below [] r x h = (omega arith, All-map (λ y n. omega arith) r h)
  insert_below (y ∷ l) r x h = (omega (arith, h.0), insert_below l r x h.1)

  inserted-IsBatcher :
      (c : BatcherConfig) (b : Batcher R V) (x : QueuedRequest R V) (q' : Queues R V)
      → x.ordinal ≡ b.ordinal
      → IsBatcher c b
      → IsInserted x b.queues q'
      → IsBatcher c (record b { queues = q'; ordinal = suc b.ordinal })
  inserted-IsBatcher c b x q' o h i =
      let below =
        subst (λ n. All (λ y. y.ordinal < n) (i.before ++ i.after)) (sym o)
          (subst (All (λ y. y.ordinal < b.ordinal)) i.old h.below) in
      record {
        configured = h.configured;
        dict = i.dict;
        distinct =
            subst IsDistinct (sym i.new)
              (insert-IsDistinct i.before i.after x below (subst IsDistinct i.old h.distinct));
        below =
            subst (λ n. All (λ y. y.ordinal < suc n) (items_of q')) o
              (subst (All (λ y. y.ordinal < suc x.ordinal)) (sym i.new)
                (insert_below i.before i.after x below));
      }

  submit-IsBatcher :
      (c : BatcherConfig) (b b' : Batcher R V) (now : R) (frames : ℕ) (chunk : FeatureChunk R V)
      (deadline_ms : Option ℤ)
      → IsBatcher c b
      → submit b now frames chunk deadline_ms ≡ ok b'
      → IsBatcher c b'
  submit-IsBatcher c b b' now frames chunk deadline_ms h e =
      let (x, q', i) = submit-IsSubmitted b b' now frames chunk deadline_ms h.dict e in
      subst (IsBatcher c) i.result (inserted-IsBatcher c b x q' i.ordinal h i.inserted)

  left-IsBatcher :
      (c : BatcherConfig) (b : Batcher R V) (bucket : ℕ) (queue : List (QueuedRequest R V))
      → check_batcher c ≡ ok tt
      → IsBatcher c b
      → get bucket b.queues ≡ some queue
      → IsBatcher c
          (record b { queues = put_back bucket (left_in (batch_of b.config queue) queue) b.queues })
  left-IsBatcher c b bucket queue v h a =
      let split = get-IsSplit bucket queue b.queues a h.dict in
      let valid = subst (λ c. check_batcher c ≡ ok tt) (sym h.configured) v in
      let rest = left_in (batch_of b.config queue) queue in
      let left = items_of-put_back bucket queue rest b.queues split in
      let distinct = subst IsDistinct split.whole h.distinct in
      record {
        configured = h.configured;
        dict = put_back-IsDict bucket rest b.queues h.dict;
        distinct =
            subst IsDistinct (sym left)
              (others-IsDistinct b.config valid split.before queue split.after distinct);
        below = subst (All (λ x. x.ordinal < b.ordinal)) (sym left) (
            All-Picks _ (others-Picks b.config valid split.before queue split.after distinct)
              (subst (All (λ x. x.ordinal < b.ordinal)) split.whole h.below));
      }

  take_batch-IsBatcher :
      (c : BatcherConfig) (b b' : Batcher R V) (bucket : ℕ) (batch : List (QueuedRequest R V))
      → check_batcher c ≡ ok tt
      → IsBatcher c b
      → take_batch b bucket ≡ some (b', batch)
      → IsBatcher c b'
  unfolding take_batch
  take_batch-IsBatcher c b b' bucket batch v h e = go (get bucket b.queues) refl e
    where
      taken : Option (List (QueuedRequest R V)) → Option (Batcher R V × List (QueuedRequest R V))
      taken none = none
      taken (some queue) =
          let selected = batch_of b.config queue in
          some (record b { queues = put_back bucket (left_in selected queue) b.queues }, selected)

      first : Option (Batcher R V × List (QueuedRequest R V)) → Batcher R V
      first none = b
      first (some p) = p.0

      go :
          (o : Option (List (QueuedRequest R V)))
          → get bucket b.queues ≡ o
          → taken o ≡ some (b', batch)
          → IsBatcher c b'
      go none a t = absurd (ground arith)
      go (some queue) a t = subst (IsBatcher c) (ap first t) (left-IsBatcher c b bucket queue v h a)

  moved-IsBatcher :
      (c : BatcherConfig) (b b' : Batcher R V)
      → check_batcher c ≡ ok tt
      → IsBatcher c b
      → Moves b b'
      → IsBatcher c b'
  moved-IsBatcher c b b' v h (submits now frames chunk deadline_ms e) =
      submit-IsBatcher c b b' now frames chunk deadline_ms h e
  moved-IsBatcher c b b' v h (takes {batch = batch} bucket e) =
      take_batch-IsBatcher c b b' bucket batch v h e
  moved-IsBatcher c b _ v h closes = record {
    configured = h.configured;
    dict = h.dict;
    distinct = h.distinct;
    below = h.below;
  }

  -- Every batcher that submissions, batches taken and the start of `close` lead to, in any order, has
  -- its configuration, queues that are a dictionary, and waiting requests whose ordinals are distinct
  -- and below the next one.
  pub Reachable-IsBatcher :
      (c : BatcherConfig) (b : Batcher R V)
      → check_batcher c ≡ ok tt
      → Reachable c b
      → IsBatcher c b
  Reachable-IsBatcher c b v starts = record {
    configured = refl;
    dict = tt;
    distinct = tt;
    below = tt;
  }
  Reachable-IsBatcher c b v (moves {b = b0} r m) =
      moved-IsBatcher c b0 b v (Reachable-IsBatcher c b0 v r) m
