-- ===== src/Batcher/Runs.antt =====
-- The runs of the batcher, step by step, and the results that their futures get.
use cuebee_speaker_serving.Base.{
  ℕ, suc, ◌≡◌, refl, sym, ap, subst, true, List, [], ◌∷◌, ◌++◌, Option, some, none, arith, ==_iff,
}
use cuebee_speaker_serving.Base.Eq.{nat_eq}
use cuebee_speaker_serving.Base.Int.{ℤ}
use cuebee_speaker_serving.Base.Dict.{get}
use cuebee_speaker_serving.Base.Float.{Float}
use cuebee_speaker_serving.Base.Keep.{
  All, All-map, All-append, All-append_left, All-append_right, All-Picks, Pairwise-left,
  Pairwise-right,
}
use cuebee_speaker_serving.Config.{BatcherConfig, check_batcher}
use cuebee_speaker_serving.Domain.{FeatureChunk, ok}
use cuebee_speaker_serving.Batcher.{
  QueuedRequest, Batcher, submit, take_batch, batch_of, left_in, put_back,
}
use cuebee_speaker_serving.Batcher.Batch.{IsDistinct}
use cuebee_speaker_serving.Batcher.Run.{pending, cancelled, Round, Runner, items_of, put, execute}
use cuebee_speaker_serving.Batcher.Futures.{execute-AreSettled}
use cuebee_speaker_serving.Batcher.Queues.{get-IsSplit, items_of-put_back}
use cuebee_speaker_serving.Batcher.Reach.{new_batcher, Reachable, moves, Reachable-IsBatcher}
use cuebee_speaker_serving.Batcher.Reach
use cuebee_speaker_serving.Batcher.Submitted.{submit-IsSubmitted}
use cuebee_speaker_serving.Batcher.Taken.{All-batch_of, batch_of-IsDistinct, others-Picks}
use cuebee_speaker_serving.Batcher.Asked.{
  Asked, asked_also, IsAsked, IsAnswer, settled-IsAnswer, asked_also-IsAsked, put-IsAnswer,
  asked_also-IsAnswer,
}

module _ {R V : Type 0} ⦃float : Float R⦄ where
  -- `take_batch` and what it says of the requests, for a property that all waiting ones have.
  record IsTaken (P : QueuedRequest R V → Type 0) (b b' : Batcher R V)
      (batch : List (QueuedRequest R V)) : Type 0 where
    batch_all : All P batch
    left_all : All P (items_of b'.queues)
    distinct : IsDistinct batch
    ordinal : b'.ordinal ≡ b.ordinal

  take_batch-IsTaken :
      (P : QueuedRequest R V → Type 0) (c : BatcherConfig) (b b' : Batcher R V) (bucket : ℕ)
      (batch : List (QueuedRequest R V))
      → check_batcher c ≡ ok tt
      → Reachable c b
      → All P (items_of b.queues)
      → take_batch b bucket ≡ some (b', batch)
      → IsTaken P b b' batch
  unfolding take_batch
  take_batch-IsTaken P c b b' bucket batch v r all e = go (get bucket b.queues) refl e
    where
      taken : Option (List (QueuedRequest R V)) → Option (Batcher R V × List (QueuedRequest R V))
      taken none = none
      taken (some queue) =
          let selected = batch_of b.config queue in
          some (record b { queues = put_back bucket (left_in selected queue) b.queues }, selected)

      of_queue :
          (queue : List (QueuedRequest R V))
          → get bucket b.queues ≡ some queue
          → IsTaken P b
              (record b {
                queues = put_back bucket (left_in (batch_of b.config queue) queue) b.queues;
              })
              (batch_of b.config queue)
      of_queue queue a =
          let h = Reachable-IsBatcher c b v r in
          let split = get-IsSplit bucket queue b.queues a h.dict in
          let valid = subst (λ c. check_batcher c ≡ ok tt) (sym h.configured) v in
          let distinct = subst IsDistinct split.whole h.distinct in
          let all' = subst (All P) split.whole all in
          let queue_all =
            All-append_left P queue split.after
              (All-append_right P split.before (queue ++ split.after) all') in
          let queue_distinct =
            Pairwise-left _ queue split.after
              (Pairwise-right _ split.before (queue ++ split.after) distinct) in
          record {
            batch_all = All-batch_of b.config valid P queue queue_all;
            left_all =
                subst (All P)
                  (sym (
                    items_of-put_back bucket queue (left_in (batch_of b.config queue) queue)
                      b.queues split))
                  (All-Picks P (others-Picks b.config valid split.before queue split.after distinct)
                    all');
            distinct = batch_of-IsDistinct b.config valid queue queue_distinct;
            ordinal = refl;
          }

      first :
          Option (Batcher R V × List (QueuedRequest R V)) → Batcher R V × List (QueuedRequest R V)
      first none = (b, [])
      first (some p) = p

      go :
          (o : Option (List (QueuedRequest R V)))
          → get bucket b.queues ≡ o
          → taken o ≡ some (b', batch)
          → IsTaken P b b' batch
      go none a t = absurd (ground arith)
      go (some queue) a t =
          subst (λ (p : Batcher R V × List (QueuedRequest R V)). IsTaken P b p.0 p.1) (ap first t)
            (of_queue queue a)

  -- The batcher behind its constructor.
  abbrev pub IsNew : BatcherConfig → Runner R V → Type 0
  IsNew c s = (s.batcher ≡ new_batcher c) × ((k : ℕ) → s.futures k ≡ pending)

  -- The runs of the batcher: what was asked, the runner's state and the batch that the backend has,
  -- which submissions, cancellations and the start of `close` do not wait for.
  pub data Runs (c : BatcherConfig)
      : Asked R V → Runner R V → List (QueuedRequest R V) → Type 0 where
    starts : {s : Runner R V} → IsNew c s → Runs c (λ k. none) s []
    submits :
        {asked : Asked R V} {s : Runner R V} {batch : List (QueuedRequest R V)} {b : Batcher R V}
        (now : R) (frames : ℕ) (chunk : FeatureChunk R V) (deadline_ms : Option ℤ)
        → Runs c asked s batch
        → submit s.batcher now frames chunk deadline_ms ≡ ok b
        → Runs c
            (asked_also s.batcher.ordinal chunk asked)
            (record s { batcher = b; futures = put s.batcher.ordinal pending s.futures })
            batch
    cancels :
        {asked : Asked R V} {s : Runner R V} {batch : List (QueuedRequest R V)} (k : ℕ)
        → Runs c asked s batch
        → s.futures k ≡ pending
        → Runs c asked (record s { futures = put k cancelled s.futures }) batch
    takes :
        {asked : Asked R V} {s : Runner R V} {batch : List (QueuedRequest R V)} {b : Batcher R V}
        (bucket : ℕ)
        → Runs c asked s []
        → take_batch s.batcher bucket ≡ some (b, batch)
        → Runs c asked (record s { batcher = b }) batch
    executes :
        {asked : Asked R V} {s : Runner R V} {batch : List (QueuedRequest R V)} (round : Round R V)
        (bucket : ℕ)
        → Runs c asked s batch
        → Runs c asked (execute s round bucket batch) []
    closes :
        {asked : Asked R V} {s : Runner R V} {batch : List (QueuedRequest R V)}
        → Runs c asked s batch
        → Runs c asked (record s { batcher = record s.batcher { closing = true } }) batch

  -- Every request that waits or that the backend has was asked, and every result answers what was
  -- asked.
  pub record IsOrderly (c : BatcherConfig) (asked : Asked R V) (s : Runner R V)
      (batch : List (QueuedRequest R V)) : Type 0 where
    reached : Reachable c s.batcher
    waiting : All (IsAsked asked s.batcher.ordinal) (items_of s.batcher.queues)
    in_flight : All (IsAsked asked s.batcher.ordinal) batch
    distinct : IsDistinct batch
    pub answers : (k : ℕ) → IsAnswer asked k (s.futures k)

  submitted-IsOrderly :
      (c : BatcherConfig) (asked : Asked R V) (s : Runner R V) (batch : List (QueuedRequest R V))
      (b : Batcher R V) (now : R) (frames : ℕ) (chunk : FeatureChunk R V) (deadline_ms : Option ℤ)
      → check_batcher c ≡ ok tt
      → IsOrderly c asked s batch
      → submit s.batcher now frames chunk deadline_ms ≡ ok b
      → IsOrderly c
          (asked_also s.batcher.ordinal chunk asked)
          (record s { batcher = b; futures = put s.batcher.ordinal pending s.futures })
          batch
  submitted-IsOrderly c asked s batch b now frames chunk deadline_ms v h e =
      let (x, q', i) =
        submit-IsSubmitted s.batcher b now frames chunk deadline_ms
          (Reachable-IsBatcher c s.batcher v h.reached).dict e in
      let also = asked_also s.batcher.ordinal chunk asked in
      let old = All-map (λ y. asked_also-IsAsked asked s.batcher.ordinal chunk y) in
      let own : IsAsked also (suc s.batcher.ordinal) x = (
        omega (arith, i.ordinal),
        rw ((==_iff s.batcher.ordinal x.ordinal).1 (sym i.ordinal)) (ap some (sym i.chunk_of)),
      ) in
      let kept = subst (All (IsAsked asked s.batcher.ordinal)) i.inserted.old h.waiting in
      let before = All-append_left _ i.inserted.before i.inserted.after kept in
      let after = All-append_right _ i.inserted.before i.inserted.after kept in
      record {
        reached = moves h.reached (Reach.submits now frames chunk deadline_ms e);
        waiting =
            subst (λ b. All (IsAsked also b.ordinal) (items_of b.queues)) i.result
              (subst (All (IsAsked also (suc s.batcher.ordinal))) (sym i.inserted.new) (
                All-append _ i.inserted.before (x ∷ i.inserted.after) (old i.inserted.before before)
                  (own, old i.inserted.after after)));
        in_flight =
            subst (λ b. All (IsAsked also b.ordinal) batch) i.result (old batch h.in_flight);
        distinct = h.distinct;
        answers = asked_also-IsAnswer asked s.batcher.ordinal chunk s.futures h.answers;
      }

  pub Runs-IsOrderly :
      (c : BatcherConfig) (asked : Asked R V) (s : Runner R V) (batch : List (QueuedRequest R V))
      → check_batcher c ≡ ok tt
      → Runs c asked s batch
      → IsOrderly c asked s batch
  unfolding execute
  Runs-IsOrderly c asked s batch v (starts n) = record {
    reached = subst (Reachable c) (sym n.0) Reach.starts;
    waiting = subst (λ b. All (IsAsked asked b.ordinal) (items_of b.queues)) (sym n.0) tt;
    in_flight = tt;
    distinct = tt;
    answers = λ k. subst (IsAnswer asked k) (sym (n.1 k)) tt;
  }
  Runs-IsOrderly c _ _ batch v (submits {asked} {s} {b = b} now frames chunk deadline_ms r e) =
      submitted-IsOrderly c asked s batch b now frames chunk deadline_ms v
        (Runs-IsOrderly c asked s batch v r) e
  Runs-IsOrderly c asked _ batch v (cancels {s = s} k r e) =
      let h = Runs-IsOrderly c asked s batch v r in
      record {
        reached = h.reached;
        waiting = h.waiting;
        in_flight = h.in_flight;
        distinct = h.distinct;
        answers = put-IsAnswer asked k cancelled s.futures tt h.answers;
      }
  Runs-IsOrderly c asked _ batch v (takes {s = s} {b = b} bucket r e) =
      let h = Runs-IsOrderly c asked s [] v r in
      let t = take_batch-IsTaken _ c s.batcher b bucket batch v h.reached h.waiting e in
      record {
        reached = moves h.reached (Reach.takes bucket e);
        waiting = subst (λ n. All (IsAsked asked n) (items_of b.queues)) (sym t.ordinal) t.left_all;
        in_flight = subst (λ n. All (IsAsked asked n) batch) (sym t.ordinal) t.batch_all;
        distinct = t.distinct;
        answers = h.answers;
      }
  Runs-IsOrderly c asked _ _ v (executes {s = s} {batch = batch} round bucket r) =
      let h = Runs-IsOrderly c asked s batch v r in
      let x = execute-AreSettled s round bucket batch h.distinct in
      record {
        reached = h.reached;
        waiting = h.waiting;
        in_flight = tt;
        distinct = tt;
        answers = λ k.
            settled-IsAnswer asked s.batcher.ordinal s.futures _ k batch h.in_flight x.settled
              (x.untouched k) (h.answers k);
      }
  Runs-IsOrderly c asked _ batch v (closes {s = s} r) =
      let h = Runs-IsOrderly c asked s batch v r in
      record {
        reached = moves h.reached Reach.closes;
        waiting = h.waiting;
        in_flight = h.in_flight;
        distinct = h.distinct;
        answers = h.answers;
      }
