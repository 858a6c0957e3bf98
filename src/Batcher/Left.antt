-- ===== src/Batcher/Left.antt =====
-- Why a request stays behind when `_take_batch` selects a batch.
use mathlib.Core.List.{append_assoc, append-nil}
use cuebee_speaker_serving.Base.{
  ℕ, ◌≡◌, refl, sym, ◌⊎◌, inl, inr, Bool, true, false, not, ◌&&◌, String, List, [], ◌∷◌, ◌++◌,
  arith,
}
use cuebee_speaker_serving.Base.Int.{pos, ◌≤ℤ◌}
use cuebee_speaker_serving.Base.Dict.{Dict, get}
use cuebee_speaker_serving.Base.Keep.{
  tally, tally-append, tally-and, tally-All, Picks-nil, All, All-map, All-append,
}
use cuebee_speaker_serving.Base.Float.{Float, IsOrdered}
use cuebee_speaker_serving.Base.Sort.{sorted, sorted-IsSorted, sorted-All, IsSorted, NoneBefore}
use cuebee_speaker_serving.Config.{BatcherConfig, check_batcher}
use cuebee_speaker_serving.Domain.{ok}
use cuebee_speaker_serving.Batcher.{
  QueuedRequest, session_key, collect, batch_of, is_selected, earlier,
}
use cuebee_speaker_serving.Batcher.Collect.{
  of_session, Tracks, Tracks-snoc, share, room, collect_cases, collect-Extends, Extends,
}
use cuebee_speaker_serving.Batcher.Batch.{batch_of-loop, batch_of-IsSorted, earlier-IsStrictWeak}

module _ {R V : Type 0} ⦃float : Float R⦄ where
  -- `x` does not come strictly before `y`.
  abbrev pub not_before : QueuedRequest R V → QueuedRequest R V → Bool
  not_before x y = not (earlier x y)

  -- The batch holds the whole share of the session of `x`, or is full, of requests before which
  -- `x` does not come.
  abbrev pub Yields : BatcherConfig → List (QueuedRequest R V) → QueuedRequest R V → Type 0
  Yields c batch x =
      (c.per_session_batch_limit
        ≤ℤ pos (tally (λ y. of_session (session_key x) y && not_before x y) batch))
      ⊎ (c.max_batch_size ≤ℤ pos (tally (not_before x) batch))

  abbrev pub StaysFairly : BatcherConfig → List (QueuedRequest R V) → QueuedRequest R V → Type 0
  StaysFairly c batch x = is_selected batch x ≡ false → Yields c batch x

  -- Nothing in the rest comes before what is selected.
  abbrev Led : List (QueuedRequest R V) → List (QueuedRequest R V) → Type 0
  Led rest = All (λ s. NoneBefore earlier s rest)

  Led-head :
      (x : QueuedRequest R V) (rest selected : List (QueuedRequest R V))
      → Led (x ∷ rest) selected
      → All (λ s. not_before x s ≡ true) selected
  Led-head x rest = All-map (λ s h. ground (arith, h.0))

  Led-tail :
      (x : QueuedRequest R V) (rest selected : List (QueuedRequest R V))
      → Led (x ∷ rest) selected
      → Led rest selected
  Led-tail x rest = All-map (λ s h. h.1)

  is_selected-append :
      (xs ys : List (QueuedRequest R V)) (x : QueuedRequest R V)
      → is_selected (xs ++ x ∷ ys) x ≡ true
  unfolding is_selected
  is_selected-append [] ys x = ground arith
  is_selected-append (z ∷ xs) ys x = ground (arith, is_selected-append xs ys x)

  full-Yields :
      (c : BatcherConfig) (rest selected : List (QueuedRequest R V))
      → room c selected ≡ false
      → Led rest selected
      → All (StaysFairly c selected) rest
  full-Yields c [] selected full led = tt
  full-Yields c (x ∷ rest) selected full led = (
    (λ _. inr (ground (arith, tally-All (not_before x) selected (Led-head x rest selected led)))),
    full-Yields c rest selected full (Led-tail x rest selected led),
  )

  share-Yields :
      (c : BatcherConfig) (x : QueuedRequest R V) (rest selected out : List (QueuedRequest R V))
      (d : Dict (String × String) ℕ)
      → Tracks d selected
      → share c d x ≡ false
      → Led (x ∷ rest) selected
      → Extends selected rest out
      → Yields c out x
  share-Yields c x rest selected out d t closed led (more, e, _) =
      let test = λ (y : QueuedRequest R V). of_session (session_key x) y && not_before x y in
      inl (
        rw e (
          ground (
            arith,
            t (session_key x),
            tally-append test selected more,
            tally-and (of_session (session_key x)) (not_before x) selected
                (Led-head x rest selected led),
          )))

  selected-StaysFairly :
      (c : BatcherConfig) (x : QueuedRequest R V) (rest selected out : List (QueuedRequest R V))
      → Extends (selected ++ x ∷ []) rest out
      → StaysFairly c out x
  selected-StaysFairly c x rest selected out (more, e, _) h =
      let found : is_selected out x ≡ true =
        rw (e, append_assoc selected (x ∷ []) more) (is_selected-append selected more x) in
      absurd (ground arith)

  collect-StaysFairly :
      (c : BatcherConfig) (rest selected : List (QueuedRequest R V)) (d : Dict (String × String) ℕ)
      → Tracks d selected
      → Led rest selected
      → IsSorted earlier rest
      → All (StaysFairly c (collect c rest selected d)) rest
  collect-StaysFairly c [] selected d t led s = tt
  collect-StaysFairly c (x ∷ rest) selected d t led s =
      collect_cases (λ out. All (StaysFairly c out) (x ∷ rest)) c x rest selected d
        (λ e. (
          (λ _. share-Yields c x rest selected _ d t e led (collect-Extends c rest selected d)),
          collect-StaysFairly c rest selected d t (Led-tail x rest selected led) s.1,
        ))
        (λ e e'. (
          selected-StaysFairly c x rest selected _
              ([], sym (append-nil (selected ++ x ∷ [])), Picks-nil rest),
          full-Yields c rest _ e' next,
        ))
        (λ e e'. (
          selected-StaysFairly c x rest selected _ (collect-Extends c rest _ _),
          collect-StaysFairly c rest _ _ (Tracks-snoc d selected x t) next s.1,
        ))
    where
      next : Led rest (selected ++ x ∷ [])
      next = All-append _ selected (x ∷ []) (Led-tail x rest selected led) (s.0, tt)

  -- Earliest deadline first: the batch is in the order of deadline, arrival and ordinal, and a
  -- request that stays behind yields to requests that it does not come before: they fill the share
  -- of its session, or the whole batch.
  pub batch_of-StaysFairly :
      (c : BatcherConfig) (queue : List (QueuedRequest R V))
      → IsOrdered float
      → check_batcher c ≡ ok tt
      → IsSorted earlier (batch_of c queue) × All (StaysFairly c (batch_of c queue)) queue
  unfolding get
  batch_of-StaysFairly c queue o h = (
    batch_of-IsSorted c queue o h,
    rw (batch_of-loop c queue h) (
        sorted-All earlier _ queue (
          collect-StaysFairly c (sorted earlier queue) [] [] (λ k. refl) tt
            (sorted-IsSorted earlier (earlier-IsStrictWeak o) queue))),
  )
