-- ===== src/Batcher/Select.antt =====
-- The bucket that `_select_ready_bucket` chooses, and the time at which the runner wakes for it.
use cuebee_speaker_serving.Base.{
  ℕ, ◌≡◌, refl, sym, subst, ◌∙◌, ◌≢◌, ◌⊎◌, inl, inr, ◌↔◌, Bool, true, false, List, [], ◌∷◌, none,
  some, arith, if◌then◌else◌,
}
use cuebee_speaker_serving.Base.Dict.{Dict}
use cuebee_speaker_serving.Base.Keep.{All, In, here, there}
use cuebee_speaker_serving.Base.Float.{Float, min_float}
use cuebee_speaker_serving.Config.{BatcherConfig}
use cuebee_speaker_serving.Batcher.{
  QueuedRequest, Batcher, Ready, choose, is_ready, flush_at, earliest_deadline, ready_buckets,
  select_ready_bucket, flush_times, next_wake_at, min_from, least_time,
}

abbrev Queues : (R V : Type 0) → Type 0
Queues R V = Dict ℕ (List (QueuedRequest R V))

module _ {R : Type 0} ⦃float : Float R⦄ where
  nothing-idle :
      (r : Bool) (x : Ready R) (l : List (Ready R))
      → (if r then x ∷ l else l) ≡ []
      → (r ≡ false) × (l ≡ [])
  nothing-idle true x l h = cc
  nothing-idle false x l h = (refl, h)

  choose-none : (l : List (Ready R)) → choose l ≡ none → l ≡ []
  choose-none [] h = refl
  choose-none (r ∷ l) h = cc

  -- The time of a wake-up is the flush time of one of the queues.
  min_from-In : (t : R) (l : List R) → (min_from t l ≡ t) ⊎ In (min_from t l) l
  unfolding min_from
  min_from-In t [] = inl refl
  min_from-In t (u ∷ l) = go (float.lt u t) refl (min_from-In (min_float t u) l)
    where
      go :
          (c : Bool)
          → float.lt u t ≡ c
          → (min_from (min_float t u) l ≡ min_float t u) ⊎ In (min_from (min_float t u) l) l
          → (min_from (min_float t u) l ≡ t) ⊎ In (min_from (min_float t u) l) (u ∷ l)
      go c e (inr i) = inr (there i)
      go true e (inl h) = let least : min_float t u ≡ u = rw e in inr (here (sym (h ∙ least)))
      go false e (inl h) = let least : min_float t u ≡ t = rw e in inl (h ∙ least)

  least_time-In : (l : List R) {t : R} → least_time l ≡ some t → In t l
  least_time-In [] h = absurd (ground arith)
  least_time-In (u ∷ l) {t} h = go (min_from-In u l) (ground arith)
    where
      go : (min_from u l ≡ u) ⊎ In (min_from u l) l → min_from u l ≡ t → In t (u ∷ l)
      go (inl e) e' = here (sym e ∙ e')
      go (inr i) e' = there (subst (λ t. In t l) e' i)

module _ {R V : Type 0} ⦃float : Float R⦄ where
  -- The tuple of a bucket whose queue is `first ∷ rest`.
  abbrev pub tuple_of : BatcherConfig → ℕ → QueuedRequest R V → List (QueuedRequest R V) → Ready R
  tuple_of c bucket first rest = record {
    deadline = earliest_deadline first rest;
    flush = flush_at c first rest;
    bucket = bucket;
  }

  -- No request waits in the bucket, or its queue is not ready.
  abbrev pub IsIdle : Batcher R V → R → ℕ × List (QueuedRequest R V) → Type 0
  IsIdle b now (bucket, []) = Unit
  IsIdle b now (bucket, first ∷ rest) = is_ready b now first rest ≡ false

  ready_buckets-IsIdle :
      (b : Batcher R V) (now : R) (q : Queues R V)
      → ready_buckets b now q ≡ []
      → All (IsIdle b now) q
  unfolding ready_buckets
  ready_buckets-IsIdle b now [] h = tt
  ready_buckets-IsIdle b now ((k, []) ∷ q) h = (tt, ready_buckets-IsIdle b now q h)
  ready_buckets-IsIdle b now ((k, x ∷ l) ∷ q) h =
      let (n, h') =
        nothing-idle (is_ready b now x l) (tuple_of b.config k x l) (ready_buckets b now q) h in
      (n, ready_buckets-IsIdle b now q h')

  IsIdle-ready_buckets :
      (b : Batcher R V) (now : R) (q : Queues R V)
      → All (IsIdle b now) q
      → ready_buckets b now q ≡ []
  unfolding ready_buckets
  IsIdle-ready_buckets b now [] h = refl
  IsIdle-ready_buckets b now ((k, []) ∷ q) h = IsIdle-ready_buckets b now q h.1
  IsIdle-ready_buckets b now ((k, x ∷ l) ∷ q) h = rw h.0 (IsIdle-ready_buckets b now q h.1)

  -- No bucket is chosen exactly when every queue with a request is short of a full batch, of its
  -- flush time and of the closing of the batcher.
  pub select_ready_bucket-none_iff :
      (b : Batcher R V) (now : R) → (select_ready_bucket b now ≡ none) ↔ All (IsIdle b now) b.queues
  unfolding select_ready_bucket
  select_ready_bucket-none_iff b now = (
    (λ h. ready_buckets-IsIdle b now b.queues (choose-none _ h)),
    (λ h. rw (IsIdle-ready_buckets b now b.queues h)),
  )

  IsIdle-late :
      (b : Batcher R V) (now : R) (q : Queues R V) {t : R}
      → All (IsIdle b now) q
      → In t (flush_times b.config q)
      → float.le t now ≡ false
  unfolding flush_times
  IsIdle-late b now [] h i = elim i [ ]
  IsIdle-late b now ((k, []) ∷ q) h i = IsIdle-late b now q h.1 i
  IsIdle-late b now ((k, x ∷ l) ∷ q) h (here e) =
      subst (λ t. float.le t now ≡ false) e (ground (arith, h.0))
  IsIdle-late b now ((k, x ∷ l) ∷ q) h (there i) = IsIdle-late b now q h.1 i

  -- When the runner wakes at or after the time that it computed, some bucket is chosen: it never
  -- waits again with the same queues.
  pub next_wake_at-selects :
      (b : Batcher R V) (now : R) {t : R}
      → next_wake_at b ≡ some t
      → float.le t now ≡ true
      → select_ready_bucket b now ≢ none
  unfolding next_wake_at
  next_wake_at-selects b now h le n =
      let late =
        IsIdle-late b now b.queues ((select_ready_bucket-none_iff b now).0 n)
          (least_time-In (flush_times b.config b.queues) h) in
      absurd (ground arith)
