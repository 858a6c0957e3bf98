-- ===== src/Batcher/Batch.antt =====
-- The batch that `_take_batch` selects: its size, each session's share, its order, and what is left.
use mathlib.Core.List.{Perm}
use mathlib.Core.List.Perm
use cuebee_speaker_serving.Base.{
  ◌<◌, ◌≡◌, refl, sym, subst, ◌≢◌, true, false, String, List, [], ◌∷◌, ◌++◌, arith, length, ap,
}
use cuebee_speaker_serving.Base.Int.{pos, ◌≤ℤ◌, ◌<ℤ◌}
use cuebee_speaker_serving.Base.Dict.{get}
use cuebee_speaker_serving.Base.Keep.{
  keep, tally, Picks, done, take, skip, All, Pairwise, All-Picks, keep-split,
}
use cuebee_speaker_serving.Base.Float.{Float, IsOrdered}
use cuebee_speaker_serving.Base.Sort.{
  sorted, keep-sorted-perm, length-sorted, sorted-Pairwise, sorted-IsSorted, IsSorted, IsStrictWeak,
  lex-IsStrictWeak, IsSorted-Picks,
}
use cuebee_speaker_serving.Config.{BatcherConfig, check_batcher}
use cuebee_speaker_serving.Domain.{ok}
use cuebee_speaker_serving.Batcher.{
  QueuedRequest, collect, batch_of, or_first, is_selected, left_in, earlier,
}
use cuebee_speaker_serving.Batcher.Collect.{
  of_session, share, collect_cases, collect-le, collect-capped, collect-Extends, Extends,
}

pub check_batcher-positive :
    (c : BatcherConfig)
    → check_batcher c ≡ ok tt
    → (pos 0 <ℤ c.max_batch_size) × (pos 0 <ℤ c.per_session_batch_limit)
unfolding check_batcher
check_batcher-positive c h = ground arith

module _ {R V : Type 0} where
  -- The requests are distinct objects.
  abbrev pub IsDistinct : List (QueuedRequest R V) → Type 0
  IsDistinct = Pairwise (λ x y. x.ordinal ≢ y.ordinal)

module _ {R V : Type 0} ⦃float : Float R⦄ where
  abbrev batch_loop : BatcherConfig → List (QueuedRequest R V) → List (QueuedRequest R V)
  batch_loop c queue = collect c (sorted earlier queue) [] []

  pub picked :
      (c : BatcherConfig) (ordered : List (QueuedRequest R V))
      → Picks (collect c ordered [] []) ordered
  picked c ordered =
      let (more, e, p) = collect-Extends c ordered [] [] in subst (λ l. Picks l ordered) (sym e) p

  collect_some :
      (c : BatcherConfig) (x : QueuedRequest R V) (rest : List (QueuedRequest R V))
      → pos 0 <ℤ c.per_session_batch_limit
      → 0 < length (collect c (x ∷ rest) [] [])
  unfolding get
  collect_some c x rest h =
      collect_cases (λ out. 0 < length out) c x rest [] [] (λ e. absurd (ground arith))
        (λ _ _. omega arith) (λ _ _. longer (collect-Extends c rest (x ∷ []) _))
    where
      longer : {out : List (QueuedRequest R V)} → Extends (x ∷ []) rest out → 0 < length out
      longer (more, e, p) = omega (arith, ap length e)

  or_first_some :
      (ordered out : List (QueuedRequest R V)) → 0 < length out → or_first ordered out ≡ out
  or_first_some ordered (x ∷ out) h = refl
  or_first_some ordered [] h = absurd (omega arith)

  or_first-nil : (out : List (QueuedRequest R V)) → Picks out [] → or_first [] out ≡ out
  or_first-nil [] p = refl
  or_first-nil (x ∷ out) p = refl

  -- Under a valid configuration the fallback to `ordered[0]` is never taken.
  pub batch_of-loop :
      (c : BatcherConfig) (queue : List (QueuedRequest R V))
      → check_batcher c ≡ ok tt
      → batch_of c queue ≡ batch_loop c queue
  unfolding batch_of
  batch_of-loop c queue h = go (sorted earlier queue)
    where
      go :
          (ordered : List (QueuedRequest R V))
          → or_first ordered (collect c ordered [] []) ≡ collect c ordered [] []
      go [] = or_first-nil (collect c [] [] []) (picked c [])
      go (x ∷ rest) =
          or_first_some (x ∷ rest) (collect c (x ∷ rest) [] [])
            (collect_some c x rest (check_batcher-positive c h).1)

  sorted_some :
      (queue : List (QueuedRequest R V))
      → 0 < length queue
      → (x : QueuedRequest R V) × (rest : List (QueuedRequest R V)) × (sorted earlier queue
          ≡ x ∷ rest)
  sorted_some queue h = go (sorted earlier queue) refl
    where
      go :
          (l : List (QueuedRequest R V))
          → sorted earlier queue ≡ l
          → (x : QueuedRequest R V) × (rest : List (QueuedRequest R V)) × (sorted earlier queue
              ≡ x ∷ rest)
      go [] e = absurd (omega (arith, ap length e, length-sorted earlier queue))
      go (x ∷ rest) e = (x, rest, e)

  -- The batch of a queue that is not empty has at least one and at most `max_batch_size` requests,
  -- and at most `per_session_batch_limit` of each session.
  pub batch_of_bounds :
      (c : BatcherConfig) (queue : List (QueuedRequest R V)) (k : String × String)
      → check_batcher c ≡ ok tt
      → 0 < length queue
      → (0 < length (batch_of c queue))
        × (pos (length (batch_of c queue)) ≤ℤ c.max_batch_size)
        × (pos (tally (of_session k) (batch_of c queue)) ≤ℤ c.per_session_batch_limit)
  unfolding get
  batch_of_bounds c queue k h q =
      let (x, rest, e) = sorted_some queue q in
      let (most, share) = check_batcher-positive c h in
      rw (batch_of-loop c queue h) (
        rw e (collect_some c x rest share),
        collect-le c (sorted earlier queue) [] [] (ground arith),
        collect-capped c (sorted earlier queue) [] [] (λ j. refl) (λ j. omega arith) k,
      )

  -- `earlier` compares as the tuples do.
  pub earlier-IsStrictWeak : IsOrdered float → IsStrictWeak (earlier {R = R} {V = V})
  earlier-IsStrictWeak o =
      lex-IsStrictWeak (λ a b. float.lt a.deadline_at b.deadline_at)
        (λ a b. float.eq a.deadline_at b.deadline_at) _
        (λ a b. o.eq-not-lt a.deadline_at b.deadline_at) (by_field (λ q. q.deadline_at))
        (lex-IsStrictWeak (λ a b. float.lt a.enqueued_at b.enqueued_at)
          (λ a b. float.eq a.enqueued_at b.enqueued_at) _
          (λ a b. o.eq-not-lt a.enqueued_at b.enqueued_at) (by_field (λ q. q.enqueued_at))
          (record { asym = λ a b h. ground arith; incomparable_trans = λ a b c h k. ground arith }))
    where
      by_field : (f : QueuedRequest R V → R) → IsStrictWeak (λ a b. float.lt (f a) (f b))
      by_field f = record {
        asym = λ a b. o.lt_asym (f a) (f b);
        incomparable_trans = λ a b c. o.lt_incomparable (f a) (f b) (f c);
      }

  pub batch_of-IsSorted :
      (c : BatcherConfig) (queue : List (QueuedRequest R V))
      → IsOrdered float
      → check_batcher c ≡ ok tt
      → IsSorted earlier (batch_of c queue)
  batch_of-IsSorted c queue o h = rw (batch_of-loop c queue h) (
      IsSorted-Picks earlier (picked c (sorted earlier queue))
        (sorted-IsSorted earlier (earlier-IsStrictWeak o) queue))

  selected_self :
      (x : QueuedRequest R V) (out : List (QueuedRequest R V)) → is_selected (x ∷ out) x ≡ true
  unfolding is_selected
  selected_self x out = ground arith

  pub not_selected :
      (x : QueuedRequest R V) (out : List (QueuedRequest R V))
      → All (λ y. x.ordinal ≢ y.ordinal) out
      → is_selected out x ≡ false
  unfolding is_selected
  not_selected x [] h = refl
  not_selected x (y ∷ out) h = ground (arith, not_selected x out h.1)

  keep_without :
      (x : QueuedRequest R V) (out l : List (QueuedRequest R V))
      → All (λ y. x.ordinal ≢ y.ordinal) l
      → keep (is_selected (x ∷ out)) l ≡ keep (is_selected out) l
  unfolding is_selected
  keep_without x out [] h = refl
  keep_without x out (y ∷ l) h = ground (arith, keep_without x out l h.1)

  -- Of distinct requests, those with the identity of a picked one are the picked ones.
  keep_picked :
      {out l : List (QueuedRequest R V)}
      → Picks out l
      → IsDistinct l
      → keep (is_selected out) l ≡ out
  keep_picked done d = refl
  keep_picked (take {xs} {ys} x p) d =
      let first : is_selected (x ∷ xs) x ≡ true = selected_self x xs in
      rw (first, keep_without x xs ys d.0, keep_picked p d.1)
  keep_picked (skip {xs} {ys} y p) d =
      rw (not_selected y xs (All-Picks _ p d.0)) (keep_picked p d.1)

  pub keep-batch_of :
      (c : BatcherConfig) (queue : List (QueuedRequest R V))
      → check_batcher c ≡ ok tt
      → IsDistinct queue
      → keep (is_selected (batch_of c queue)) (sorted earlier queue) ≡ batch_of c queue
  keep-batch_of c queue h d = rw (batch_of-loop c queue h) (
      keep_picked (picked c (sorted earlier queue))
        (sorted-Pairwise earlier _ (λ a b n e. n (sym e)) queue d))

  -- Nothing is lost or made twice: the batch and what stays in the queue are the queue, reordered.
  pub batch_of-partition :
      (c : BatcherConfig) (queue : List (QueuedRequest R V))
      → check_batcher c ≡ ok tt
      → IsDistinct queue
      → Perm (batch_of c queue ++ left_in (batch_of c queue) queue) queue
  batch_of-partition c queue h d =
      let ordered = sorted earlier queue in
      let batch = batch_loop c queue in
      let distinct : IsDistinct ordered =
        sorted-Pairwise earlier _ (λ a b n e. n (sym e)) queue d in
      let taken : Perm batch (keep (is_selected batch) queue) =
        subst (λ l. Perm l (keep (is_selected batch) queue))
          (keep_picked (picked c ordered) distinct)
          (keep-sorted-perm earlier (is_selected batch) queue) in
      rw (batch_of-loop c queue h) (
        Perm.trans (Perm.append_right (left_in batch queue) taken)
          (keep-split (is_selected batch) queue))
