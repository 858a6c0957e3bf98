-- ===== src/Batcher/Submitted.antt =====
-- Where `submit` puts a request.
use mathlib.Core.List.{append_assoc, append-nil}
use cuebee_speaker_serving.Base.{
  ℕ, suc, ◌≡◌, refl, sym, ap, ◌∙◌, inl, inr, Option, List, [], ◌∷◌, ◌++◌, some, none, arith,
  Option-cases, Bool-cases,
}
use cuebee_speaker_serving.Base.Int.{ℤ}
use cuebee_speaker_serving.Base.Eq.{nat_eq}
use cuebee_speaker_serving.Base.Dict.{IsDict, get, set, set-IsDict}
use cuebee_speaker_serving.Base.Keep.{}
use cuebee_speaker_serving.Base.Float.{Float}
use cuebee_speaker_serving.Domain.{FeatureChunk, ok, >>-eq-ok, ok_injective}
use cuebee_speaker_serving.Batcher.{
  QueuedRequest, Batcher, submit, bucket_for_frames, or_empty, seconds, delay_ms,
}
use cuebee_speaker_serving.Batcher.Run.{items_of}
use cuebee_speaker_serving.Batcher.Queues.{Queues, get-IsSplit}

module _ {R V : Type 0} ⦃float : Float R⦄ where
  set_absent :
      (k : ℕ) (w : List (QueuedRequest R V)) (q : Queues R V)
      → get k q ≡ none
      → items_of (set k w q) ≡ items_of q ++ w
  unfolding get set
  set_absent k w [] h = append-nil w
  set_absent k w ((j, v) ∷ q) h = elim (Bool-cases (nat_eq.same j k)) [
    | inl e ↦ absurd (ground arith)
    | inr e ↦
        rw e (ap (◌++◌ v) (set_absent k w q (ground arith)) ∙ sym (append_assoc v (items_of q) w))
  ]

  -- The queue of a bucket with one request more.
  abbrev with_request :
      ℕ → QueuedRequest R V → Queues R V → Option (List (QueuedRequest R V)) → Queues R V
  with_request k x q none = set k ([] ++ x ∷ []) q
  with_request k x q (some queue) = set k (queue ++ x ∷ []) q

  -- A new request stands somewhere among the others.
  pub record IsInserted (x : QueuedRequest R V) (q q' : Queues R V) : Type 0 where
    pub before : List (QueuedRequest R V)
    pub after : List (QueuedRequest R V)
    pub old : items_of q ≡ before ++ after
    pub new : items_of q' ≡ before ++ x ∷ after
    pub dict : IsDict q'

  with_request-IsInserted :
      (k : ℕ) (x : QueuedRequest R V) (q : Queues R V) (o : Option (List (QueuedRequest R V)))
      → get k q ≡ o
      → IsDict q
      → IsInserted x q (with_request k x q o)
  with_request-IsInserted k x q none h d = record {
    before = items_of q;
    after = [];
    old = sym (append-nil (items_of q));
    new = set_absent k (x ∷ []) q h;
    dict = set-IsDict k (x ∷ []) q d;
  }
  with_request-IsInserted k x q (some queue) h d =
      let split = get-IsSplit k queue q h d in
      record {
        before = split.before ++ queue;
        after = split.after;
        old = split.whole ∙ sym (append_assoc split.before queue split.after);
        new =
            split.set_to (queue ++ x ∷ [])
            ∙ ap (◌++◌ split.before) (append_assoc queue (x ∷ []) split.after)
            ∙ sym (append_assoc split.before queue (x ∷ split.after));
        dict = set-IsDict k (queue ++ x ∷ []) q d;
      }

  -- The batcher behind a submission: the request `x` has the next ordinal and the chunk.
  pub record IsSubmitted (b b' : Batcher R V) (chunk : FeatureChunk R V) (x : QueuedRequest R V)
      (q' : Queues R V) : Type 0 where
    pub ordinal : x.ordinal ≡ b.ordinal
    pub chunk_of : x.chunk ≡ chunk
    pub inserted : IsInserted x b.queues q'
    pub result : record b { queues = q'; ordinal = suc b.ordinal } ≡ b'

  pub submit-IsSubmitted :
      (b b' : Batcher R V) (now : R) (frames : ℕ) (chunk : FeatureChunk R V)
      (deadline_ms : Option ℤ)
      → IsDict b.queues
      → submit b now frames chunk deadline_ms ≡ ok b'
      → (x : QueuedRequest R V) × (q' : Queues R V) × IsSubmitted b b' chunk x q'
  unfolding submit
  submit-IsSubmitted b b' now frames chunk deadline_ms d e = (
    request,
    set bucket (or_empty (get bucket b.queues) ++ request ∷ []) b.queues,
    record {
      ordinal = refl;
      chunk_of = refl;
      inserted = elim (Option-cases (get bucket b.queues)) [
        | inl a ↦ rw a (with_request-IsInserted bucket request b.queues none a d)
        | inr (queue, a) ↦ rw a (with_request-IsInserted bucket request b.queues (some queue) a d)
      ];
      result = ok_injective (>>-eq-ok _ _ (>>-eq-ok _ _ e));
    },
  )
    where
      bucket : ℕ
      bucket = bucket_for_frames b.config frames

      request : QueuedRequest R V
      request = record {
        chunk = chunk;
        deadline_at = float.add now (seconds (delay_ms b.config deadline_ms));
        enqueued_at = now;
        ordinal = b.ordinal;
      }
