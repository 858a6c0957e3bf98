-- ===== src/Batcher/Drain.antt =====
-- The runner of a closing batcher: it executes every request that waits, and then returns.
use mathlib.Core.List.{Perm, append_assoc}
use mathlib.Core.List.Perm
use cuebee_speaker_serving.Base.{
  ℕ, zero, suc, ◌<◌, ◌≡◌, refl, sym, ap, ◌∙◌, subst, ◌⊎◌, inl, inr, Bool, true, false, List, [],
  ◌∷◌, ◌++◌, some, arith, length, Bool-cases,
}
use cuebee_speaker_serving.Base.Eq.{nat_eq}
use cuebee_speaker_serving.Base.Dict.{IsDict, get}
use cuebee_speaker_serving.Base.Keep.{All-map, All-append_left, All-append_right, All-Picks}
use cuebee_speaker_serving.Base.Perms.{Perm-append_comm}
use cuebee_speaker_serving.Base.Float.{Float}
use cuebee_speaker_serving.Config.{check_batcher}
use cuebee_speaker_serving.Domain.{ok}
use cuebee_speaker_serving.Batcher.{
  QueuedRequest, Batcher, batch_of, left_in, is_selected, has_pending, take_batch, put_back,
}
use cuebee_speaker_serving.Batcher.Batch.{IsDistinct}
use cuebee_speaker_serving.Batcher.Run.{
  Future, Round, Runner, Step, waits, ends, sleeps, executes, fails, items_of, execute, run_step,
  run, taken,
}
use cuebee_speaker_serving.Batcher.Futures.{IsSettled, AreSettled, execute-AreSettled}
use cuebee_speaker_serving.Batcher.Queues.{
  get-IsSplit, items_of-put_back, put_back-IsDict, has_pending-none, select_closing,
}
use cuebee_speaker_serving.Batcher.Taken.{
  batch_of-IsDistinct, others, others-Picks, queue-IsDistinct, others-IsDistinct, others_perm,
  length-others, others_not, All-items, selected_none, selected_same, All-batch_of,
}

-- The requests of several batches.
abbrev pub all_executed {ℓ} : {A : Type ℓ} → List (List A) → List A
all_executed [] = []
all_executed (batch ∷ batches) = batch ++ all_executed batches

module _ {R V : Type 0} where
  -- The batcher closes, its queues are a dictionary of distinct requests, and its configuration is one
  -- that the constructor takes.
  pub record IsClosing (b : Batcher R V) : Type 0 where
    pub closing : b.closing ≡ true
    pub valid : check_batcher b.config ≡ ok tt
    pub dict : IsDict b.queues
    pub distinct : IsDistinct (items_of b.queues)

  -- The runner has returned; no request waits; the backend was given each request that waited exactly
  -- once; each of their futures that was pending has a result for its chunk or an exception, and every
  -- other future is as it was.
  pub record IsDrained (s : Runner R V) (out : Bool × Runner R V) : Type 0 where
    pub ended : out.0 ≡ true
    pub emptied : items_of out.1.batcher.queues ≡ []
    pub once :
        Perm (all_executed out.1.executed) (items_of s.batcher.queues ++ all_executed s.executed)
    pub futures : AreSettled (items_of s.batcher.queues) s.futures out.1.futures

module _ {R V : Type 0} ⦃float : Float R⦄ where
  -- What a step of a closing batcher takes.
  record IsTaken (b b' : Batcher R V) (bucket : ℕ) (batch : List (QueuedRequest R V)) : Type 0 where
    closing : IsClosing b'
    distinct : IsDistinct batch
    fewer : length (items_of b'.queues) < length (items_of b.queues)
    partition : Perm (batch ++ items_of b'.queues) (items_of b.queues)
    settled :
        (f g h : ℕ → Future R V)
        → AreSettled batch f g
        → AreSettled (items_of b'.queues) g h
        → AreSettled (items_of b.queues) f h

  module _ (b : Batcher R V) (h : IsClosing b) (before queue after : List (QueuedRequest R V))
      (whole : items_of b.queues ≡ before ++ (queue ++ after)) where
    spread : IsDistinct (before ++ (queue ++ after))
    spread = subst IsDistinct whole h.distinct

    both-AreSettled :
        (f g k : ℕ → Future R V)
        → AreSettled (batch_of b.config queue) f g
        → AreSettled (others b.config h.valid before queue after spread) g k
        → AreSettled (before ++ (queue ++ after)) f k
    both-AreSettled f g k first second = record {
      settled =
          All-map each (before ++ (queue ++ after))
            (All-items b.config h.valid before queue after spread _ _ first.settled second.settled);
      untouched = λ j n.
          second.untouched j
            (All-Picks _ (others-Picks b.config h.valid before queue after spread) n)
          ∙ first.untouched j (
              All-batch_of b.config h.valid _ queue
                (All-append_left _ queue after (All-append_right _ before (queue ++ after) n)));
    }
      where
        each :
            (x : QueuedRequest R V)
            → (is_selected (batch_of b.config queue) x ≡ true
                → IsSettled (f x.ordinal) (g x.ordinal) x)
              × (is_selected (batch_of b.config queue) x ≡ false
                  → IsSettled (g x.ordinal) (k x.ordinal) x)
            → IsSettled (f x.ordinal) (k x.ordinal) x
        each x (p, q) = elim (Bool-cases (is_selected (batch_of b.config queue) x)) [
          | inl e ↦
              subst (λ t. IsSettled (f x.ordinal) t x)
                (sym (
                  second.untouched x.ordinal (
                    All-map
                      (λ z n same.
                        absurd (ground (arith, selected_same (batch_of b.config queue) x z same)))
                      _ (others_not b.config h.valid before queue after spread))))
                (p e)
          | inr e ↦
              subst (λ t. IsSettled t (k x.ordinal) x)
                (first.untouched x.ordinal (selected_none (batch_of b.config queue) x e)) (q e)
        ]

  -- `_take_batch` on a bucket with requests.
  take_batch-IsTaken :
      (b : Batcher R V) (k : ℕ) (x : QueuedRequest R V) (l : List (QueuedRequest R V))
      → IsClosing b
      → get k b.queues ≡ some (x ∷ l)
      → let batch = batch_of b.config (x ∷ l) in
        IsTaken b (record b { queues = put_back k (left_in batch (x ∷ l)) b.queues }) k batch
  take_batch-IsTaken b k x l h e =
      let split = get-IsSplit k (x ∷ l) b.queues e h.dict in
      let batch = batch_of b.config (x ∷ l) in
      let d = spread b h split.before (x ∷ l) split.after split.whole in
      let left = items_of-put_back k (x ∷ l) (left_in batch (x ∷ l)) b.queues split in
      record {
        closing = record {
          closing = h.closing;
          valid = h.valid;
          dict = put_back-IsDict k (left_in batch (x ∷ l)) b.queues h.dict;
          distinct =
              subst IsDistinct (sym left)
                (others-IsDistinct b.config h.valid split.before (x ∷ l) split.after d);
        };
        distinct =
            batch_of-IsDistinct b.config h.valid (x ∷ l)
              (queue-IsDistinct b.config h.valid split.before (x ∷ l) split.after d);
        fewer = omega (
          arith,
          ap length left,
          ap length split.whole,
          length-others b.config h.valid split.before (x ∷ l) split.after d (omega arith),
        );
        partition =
            subst (λ i. Perm (batch ++ i) (items_of b.queues)) (sym left)
              (subst (Perm _) (sym split.whole)
                (others_perm b.config h.valid split.before (x ∷ l) split.after d));
        settled = λ f g j first second.
            subst (λ i. AreSettled i f j) (sym split.whole)
              (both-AreSettled b h split.before (x ∷ l) split.after split.whole f g j first
                (subst (λ i. AreSettled i g j) left second));
      }

  take_batch-some :
      (b : Batcher R V) (k : ℕ) (queue : List (QueuedRequest R V))
      → get k b.queues ≡ some queue
      → let batch = batch_of b.config queue in
        take_batch b k
        ≡ some (record b { queues = put_back k (left_in batch queue) b.queues }, batch)
  unfolding take_batch
  take_batch-some b k queue e = rw (take_batch, e) refl

  -- One step of the runner of a closing batcher.
  run_step-cases :
      (b : Batcher R V) (round : Round R V)
      → IsClosing b
      → ((run_step b round ≡ ends) × (items_of b.queues ≡ []))
        ⊎ ((b' : Batcher R V) × (k : ℕ) × (batch : List (QueuedRequest R V)) × (run_step b round
              ≡ executes b' k batch)
            × IsTaken b b' k batch)
  unfolding run_step
  run_step-cases b round h = elim (Bool-cases (has_pending b.queues)) [
    | inr p ↦ inl (rw (p, h.closing), has_pending-none b.queues p)
    | inl p ↦
        let (k, chosen, x, l, e) = select_closing b round.now h.closing p h.dict in
        inr (
          _,
          k,
          _,
          rw (p, chosen) (ap (taken k) (take_batch-some b k (x ∷ l) e)),
          take_batch-IsTaken b k x l h e,
        )
  ]

  taken-IsDrained :
      (s : Runner R V) (round : Round R V) (b' : Batcher R V) (k : ℕ)
      (batch : List (QueuedRequest R V)) (out : Bool × Runner R V)
      → IsTaken s.batcher b' k batch
      → IsDrained (execute (record s { batcher = b' }) round k batch) out
      → IsDrained s out
  unfolding execute
  taken-IsDrained s round b' k batch out t h = record {
    ended = h.ended;
    emptied = h.emptied;
    once = Perm.trans h.once (
        subst (λ l. Perm l (items_of s.batcher.queues ++ all_executed s.executed))
          (append_assoc (items_of b'.queues) batch (all_executed s.executed))
          (Perm.append_right (all_executed s.executed)
            (Perm.trans (Perm-append_comm (items_of b'.queues) batch) t.partition)));
    futures =
        t.settled s.futures (execute (record s { batcher = b' }) round k batch).futures
          out.1.futures (execute-AreSettled (record s { batcher = b' }) round k batch t.distinct)
          h.futures;
  }

  executed-IsClosing :
      (s : Runner R V) (round : Round R V) (b' : Batcher R V) (k : ℕ)
      (batch : List (QueuedRequest R V))
      → IsClosing b'
      → IsClosing (execute (record s { batcher = b' }) round k batch).batcher
  unfolding execute
  executed-IsClosing s round b' k batch h = h

  executed-fewer :
      (s : Runner R V) (round : Round R V) (b' : Batcher R V) (k : ℕ)
      (batch : List (QueuedRequest R V)) (n : ℕ)
      → length (items_of b'.queues) < n
      → length (items_of (execute (record s { batcher = b' }) round k batch).batcher.queues) < n
  unfolding execute
  executed-fewer s round b' k batch n h = h

  -- With more rounds than requests, the runner of a closing batcher drains it.
  pub run-IsDrained :
      (n : ℕ) (rounds : ℕ → Round R V) (s : Runner R V)
      → IsClosing s.batcher
      → length (items_of s.batcher.queues) < n
      → IsDrained s (run n rounds s)
  unfolding run
  run-IsDrained zero rounds s h m = absurd (omega arith)
  run-IsDrained (suc n) rounds s h m = elim (run_step-cases s.batcher (rounds n) h) [
    | inl (e, none_left) ↦
        subst (λ step. IsDrained s (next step)) (sym e)
          (record {
            ended = refl;
            emptied = none_left;
            once =
                subst (λ i. Perm (all_executed s.executed) (i ++ all_executed s.executed))
                  (sym none_left) Perm.rfl;
            futures =
                subst (λ i. AreSettled i s.futures s.futures) (sym none_left)
                  (record { settled = tt; untouched = λ k n. refl });
          })
    | inr (b', k, batch, e, t) ↦
        subst (λ step. IsDrained s (next step)) (sym e)
          (taken-IsDrained s (rounds n) b' k batch _ t (
            run-IsDrained n rounds (execute (record s { batcher = b' }) (rounds n) k batch)
              (executed-IsClosing s (rounds n) b' k batch t.closing)
              (executed-fewer s (rounds n) b' k batch n (omega (arith, t.fewer)))))
  ]
    where
      next : Step R V → Bool × Runner R V
      next waits = (false, s)
      next ends = (true, s)
      next (sleeps time) = (false, s)
      next (executes b k batch) =
          run n rounds (execute (record s { batcher = b }) (rounds n) k batch)
      next (fails e) = (false, s)
