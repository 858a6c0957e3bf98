-- ===== src/Batcher/Taken.antt =====
-- What a batch is among all the requests that wait.
use mathlib.Core.List.{Perm}
use cuebee_speaker_serving.Base.{
  ◌<◌, ◌≡◌, refl, sym, ap, subst, ◌≢◌, true, false, not, List, [], ◌∷◌, ◌++◌, arith, length,
  length-append,
}
use cuebee_speaker_serving.Base.Keep.{
  All, All-map, All-zip, All-append, All-append_left, All-append_right, All-Picks, All-keep-true,
  Picks, Picks-refl, Picks-append, keep-Picks, Pairwise-Picks, Pairwise-left, Pairwise-right,
  Pairwise-across, across-flip, keep-not-All,
}
use cuebee_speaker_serving.Base.Perms.{Perm-length, Perm-front}
use cuebee_speaker_serving.Base.Sort.{sorted, All-sorted, sorted-All, sorted-Pairwise}
use cuebee_speaker_serving.Base.Float.{Float}
use cuebee_speaker_serving.Config.{BatcherConfig, check_batcher}
use cuebee_speaker_serving.Domain.{ok}
use cuebee_speaker_serving.Batcher.{QueuedRequest, batch_of, is_selected, left_in, earlier}
use cuebee_speaker_serving.Batcher.Batch.{
  IsDistinct, batch_of-loop, batch_of-partition, batch_of_bounds, keep-batch_of, picked,
  not_selected,
}

module _ {R V : Type 0} ⦃float : Float R⦄ where
  pub selected_none :
      (batch : List (QueuedRequest R V)) (x : QueuedRequest R V)
      → is_selected batch x ≡ false
      → All (λ y. x.ordinal ≢ y.ordinal) batch
  unfolding is_selected
  selected_none [] x h = tt
  selected_none (y ∷ batch) x h = ground (arith, selected_none batch x)

  -- The identity alone decides.
  pub selected_same :
      (batch : List (QueuedRequest R V)) (x y : QueuedRequest R V)
      → x.ordinal ≡ y.ordinal
      → is_selected batch x ≡ is_selected batch y
  unfolding is_selected
  selected_same [] x y h = refl
  selected_same (z ∷ batch) x y h = ground (arith, selected_same batch x y h)

module _ {R V : Type 0} ⦃float : Float R⦄ (c : BatcherConfig)
    (valid : check_batcher c ≡ ok tt) where
  pub All-batch_of :
      (P : QueuedRequest R V → Type 0) (queue : List (QueuedRequest R V))
      → All P queue
      → All P (batch_of c queue)
  All-batch_of P queue h =
      rw (batch_of-loop c queue valid)
        (All-Picks P (picked c (sorted earlier queue)) (All-sorted earlier P queue h))

  pub batch_of-IsDistinct :
      (queue : List (QueuedRequest R V)) → IsDistinct queue → IsDistinct (batch_of c queue)
  batch_of-IsDistinct queue d = rw (batch_of-loop c queue valid) (
      Pairwise-Picks _ (picked c (sorted earlier queue))
        (sorted-Pairwise earlier _ (λ a b n e. n (sym e)) queue d))

  -- What holds of the batch holds of the queue's requests that are in it.
  batch_of-All :
      (P : QueuedRequest R V → Type 0) (queue : List (QueuedRequest R V))
      → IsDistinct queue
      → All P (batch_of c queue)
      → All (λ x. is_selected (batch_of c queue) x ≡ true → P x) queue
  batch_of-All P queue d h = sorted-All earlier _ queue (
      All-keep-true P (is_selected (batch_of c queue)) (sorted earlier queue)
        (subst (All P) (sym (keep-batch_of c queue valid d)) h))

  module _ (before queue after : List (QueuedRequest R V))
      (distinct : IsDistinct (before ++ (queue ++ after))) where
    abbrev pub batch : List (QueuedRequest R V)
    batch = batch_of c queue

    -- The requests that wait behind the batch.
    abbrev pub others : List (QueuedRequest R V)
    others = before ++ (left_in batch queue ++ after)

    pub queue-IsDistinct : IsDistinct queue
    queue-IsDistinct =
        Pairwise-left _ queue after (Pairwise-right _ before (queue ++ after) distinct)

    pub others-Picks : Picks others (before ++ (queue ++ after))
    others-Picks =
        Picks-append (Picks-refl before) (Picks-append (keep-Picks _ queue) (Picks-refl after))

    pub others-IsDistinct : IsDistinct others
    others-IsDistinct = Pairwise-Picks _ others-Picks distinct

    pub others_perm : Perm (batch ++ others) (before ++ (queue ++ after))
    others_perm =
        Perm-front batch before (left_in batch queue) queue after
          (batch_of-partition c queue valid queue-IsDistinct)

    pub length-others : 0 < length queue → length others < length (before ++ (queue ++ after))
    length-others h =
        let (some_taken, most, share) = batch_of_bounds c queue ("", "") valid h in
        omega (arith, Perm-length others_perm, length-append batch others)

    -- No request outside the queue is in the batch, and none that stays.
    before_not : All (λ x. is_selected batch x ≡ false) before
    before_not =
        All-map
          (λ x h. not_selected x batch (All-batch_of _ queue (All-append_left _ queue after h)))
          before (Pairwise-across _ before (queue ++ after) distinct)

    after_not : All (λ x. is_selected batch x ≡ false) after
    after_not =
        All-map (λ x h. not_selected x batch (All-batch_of _ queue h)) after
          (across-flip _ (λ a b n e. n (sym e)) queue after
            (Pairwise-across _ queue after (Pairwise-right _ before (queue ++ after) distinct)))

    left_not : All (λ x. is_selected batch x ≡ false) (left_in batch queue)
    left_not = keep-not-All (is_selected batch) queue

    pub others_not : All (λ x. is_selected batch x ≡ false) others
    others_not =
        All-append _ before _ before_not
          (All-append _ (left_in batch queue) after left_not after_not)

    -- A property of the batch and one of what stays, for all requests.
    pub All-items :
        (P Q : QueuedRequest R V → Type 0)
        → All P batch
        → All Q others
        → All
            (λ x. (is_selected batch x ≡ true → P x) × (is_selected batch x ≡ false → Q x))
            (before ++ (queue ++ after))
    All-items P Q p q =
        let behind = All-append_right Q before (left_in batch queue ++ after) q in
        All-append _ before (queue ++ after)
          (All-zip outside before before_not
            (All-append_left Q before (left_in batch queue ++ after) q))
          (All-append _ queue after
            (All-zip inside queue (batch_of-All P queue queue-IsDistinct p)
              (All-keep-true Q _ queue (All-append_left Q (left_in batch queue) after behind)))
            (All-zip outside after after_not
              (All-append_right Q (left_in batch queue) after behind)))
      where
        Both : QueuedRequest R V → Type 0
        Both x = (is_selected batch x ≡ true → P x) × (is_selected batch x ≡ false → Q x)

        outside : (x : QueuedRequest R V) → is_selected batch x ≡ false → Q x → Both x
        outside x n k = ((λ e. absurd (ground arith)), (λ e. k))

        inside :
            (x : QueuedRequest R V)
            → (is_selected batch x ≡ true → P x)
            → (not (is_selected batch x) ≡ true → Q x)
            → Both x
        inside x h k = (h, (λ e. k (ap not e)))
