-- ===== src/Batcher/Queues.antt =====
-- The queue of a bucket among the queues.
use mathlib.Core.List.{append_assoc}
use cuebee_speaker_serving.Base.{
  ℕ, ◌≡◌, refl, sym, ap, ◌∙◌, subst, ◌≢◌, inl, inr, Bool, true, false, List, [], ◌∷◌, ◌++◌, none,
  some, arith, if◌then◌else◌, Bool-cases,
}
use cuebee_speaker_serving.Base.Eq.{nat_eq}
use cuebee_speaker_serving.Base.Dict.{Dict, IsDict, get, set, pop, set-IsDict, pop-IsDict}
use cuebee_speaker_serving.Base.Keep.{In, here, there}
use cuebee_speaker_serving.Base.Float.{Float}
use cuebee_speaker_serving.Batcher.{
  QueuedRequest, Batcher, Ready, ready_lt, least, choose, is_ready, ready_buckets,
  select_ready_bucket, has_pending, put_back, earliest_deadline, flush_at,
}
use cuebee_speaker_serving.Batcher.Run.{items_of}

abbrev pub Queues : (R V : Type 0) → Type 0
Queues R V = Dict ℕ (List (QueuedRequest R V))

module _ {R V : Type 0} where
  -- Where the requests of a bucket stand among all.
  pub record IsSplit (k : ℕ) (queue : List (QueuedRequest R V)) (q : Queues R V) : Type 0 where
    pub before : List (QueuedRequest R V)
    pub after : List (QueuedRequest R V)
    pub whole : items_of q ≡ before ++ (queue ++ after)
    pub set_to : (w : List (QueuedRequest R V)) → items_of (set k w q) ≡ before ++ (w ++ after)
    pub popped : items_of (pop k q) ≡ before ++ after

  pop_absent : (k : ℕ) (q : Queues R V) → get k q ≡ none → pop k q ≡ q
  unfolding get pop
  pop_absent k [] h = refl
  pop_absent k ((j, w) ∷ q) h = ground (arith, pop_absent k q)

  first-IsSplit :
      (k : ℕ) (w : List (QueuedRequest R V)) (q : Queues R V)
      → get k q ≡ none
      → IsSplit k w ((k, w) ∷ q)
  unfolding set pop
  first-IsSplit k w q a = record {
    before = [];
    after = items_of q;
    whole = refl;
    set_to = λ v. rw ((nat_eq.same_iff k k).1 refl);
    popped = rw ((nat_eq.same_iff k k).1 refl, pop_absent k q a);
  }

  later-IsSplit :
      (k j : ℕ) (queue w : List (QueuedRequest R V)) (q : Queues R V)
      → nat_eq.same j k ≡ false
      → IsSplit k queue q
      → IsSplit k queue ((j, w) ∷ q)
  unfolding set pop
  later-IsSplit k j queue w q n h = record {
    before = w ++ h.before;
    after = h.after;
    whole = ap (◌++◌ w) h.whole ∙ sym (append_assoc w h.before (queue ++ h.after));
    set_to = λ v. rw n (ap (◌++◌ w) (h.set_to v) ∙ sym (append_assoc w h.before (v ++ h.after)));
    popped = rw n (ap (◌++◌ w) h.popped ∙ sym (append_assoc w h.before h.after));
  }

  pub get-IsSplit :
      (k : ℕ) (queue : List (QueuedRequest R V)) (q : Queues R V)
      → get k q ≡ some queue
      → IsDict q
      → IsSplit k queue q
  unfolding get
  get-IsSplit k queue [] h d = absurd (ground arith)
  get-IsSplit k queue ((j, w) ∷ q) h d = elim (Bool-cases (nat_eq.same j k)) [
    | inl e ↦
        let same : w ≡ queue = ground arith in
        let key : j ≡ k = (nat_eq.same_iff j k).0 e in
        subst (λ v. IsSplit k v ((j, w) ∷ q)) same
          (subst (λ i. IsSplit i w ((j, w) ∷ q)) key (first-IsSplit j w q d.0))
    | inr e ↦ later-IsSplit k j queue w q e (get-IsSplit k queue q (ground arith) d.1)
  ]

  get_later :
      (k m : ℕ) (w v : List (QueuedRequest R V)) (q : Queues R V)
      → get k q ≡ none
      → get m q ≡ some v
      → get m ((k, w) ∷ q) ≡ some v
  unfolding get
  get_later k m w v q a h = elim (Bool-cases (nat_eq.same k m)) [
    | inl e ↦
        let b : get m q ≡ none = subst (λ i. get i q ≡ none) ((nat_eq.same_iff k m).0 e) a in
        absurd (ground arith)
    | inr e ↦ rw e h
  ]

module _ {R V : Type 0} ⦃float : Float R⦄ where
  -- `_take_batch` replaces the bucket's requests.
  pub items_of-put_back :
      (k : ℕ) (queue w : List (QueuedRequest R V)) (q : Queues R V) (h : IsSplit k queue q)
      → items_of (put_back k w q) ≡ h.before ++ (w ++ h.after)
  items_of-put_back k queue [] q h = h.popped
  items_of-put_back k queue (x ∷ w) q h = h.set_to (x ∷ w)

  pub put_back-IsDict :
      (k : ℕ) (w : List (QueuedRequest R V)) (q : Queues R V) → IsDict q → IsDict (put_back k w q)
  put_back-IsDict k [] q d = pop-IsDict k q d
  put_back-IsDict k (x ∷ w) q d = set-IsDict k (x ∷ w) q d

  pub has_pending-none : (q : Queues R V) → has_pending q ≡ false → items_of q ≡ []
  unfolding has_pending
  has_pending-none [] h = refl
  has_pending-none ((k, []) ∷ q) h = has_pending-none q h
  has_pending-none ((k, x ∷ l) ∷ q) h = absurd (ground arith)

module _ {R : Type 0} ⦃float : Float R⦄ where
  least-In : (best : Ready R) (l : List (Ready R)) → In (least best l) (best ∷ l)
  unfolding least
  least-In best [] = here refl
  least-In best (r ∷ l) = elim (Bool-cases (ready_lt r best)) [
    | inl e ↦ rw e (there (least-In r l))
    | inr e ↦ rw e (behind (least-In best l))
  ]
    where
      behind : {a : Ready R} → In a (best ∷ l) → In a (best ∷ r ∷ l)
      behind (here e) = here e
      behind (there i) = there (there i)

  choose-In : (l : List (Ready R)) → l ≢ [] → (r : Ready R) × (choose l ≡ some r.bucket) × In r l
  choose-In [] h = absurd (h refl)
  choose-In (r ∷ l) h = (least r l, refl, least-In r l)

module _ {R V : Type 0} ⦃float : Float R⦄ where
  -- The bucket has requests.
  HasRequests : ℕ → Queues R V → Type 0
  HasRequests k q =
      (x : QueuedRequest R V) × (l : List (QueuedRequest R V)) × (get k q ≡ some (x ∷ l))

  first-HasRequests :
      (k : ℕ) (x : QueuedRequest R V) (l : List (QueuedRequest R V)) (q : Queues R V)
      → HasRequests k ((k, x ∷ l) ∷ q)
  unfolding HasRequests get
  first-HasRequests k x l q = (x, l, rw ((nat_eq.same_iff k k).1 refl))

  later-HasRequests :
      (k m : ℕ) (w : List (QueuedRequest R V)) (q : Queues R V)
      → get k q ≡ none
      → HasRequests m q
      → HasRequests m ((k, w) ∷ q)
  unfolding HasRequests
  later-HasRequests k m w q a (x, l, h) = (x, l, get_later k m w (x ∷ l) q a h)

  ready_buckets-get :
      (b : Batcher R V) (now : R) (q : Queues R V) (r : Ready R)
      → IsDict q
      → In r (ready_buckets b now q)
      → HasRequests r.bucket q
  unfolding ready_buckets
  ready_buckets-get b now [] r d i = elim i [ ]
  ready_buckets-get b now ((k, []) ∷ q) r d i =
      later-HasRequests k r.bucket [] q d.0 (ready_buckets-get b now q r d.1 i)
  ready_buckets-get b now ((k, x ∷ l) ∷ q) r d i =
      go (is_ready b now x l) i (λ j. ready_buckets-get b now q r d.1 j)
    where
      tuple : Ready R
      tuple = record { deadline = earliest_deadline x l; flush = flush_at b.config x l; bucket = k }

      go :
          (c : Bool)
          → In r (if c then tuple ∷ ready_buckets b now q else ready_buckets b now q)
          → (In r (ready_buckets b now q) → HasRequests r.bucket q)
          → HasRequests r.bucket ((k, x ∷ l) ∷ q)
      go true (here e) later =
          subst (λ t. HasRequests t.bucket ((k, x ∷ l) ∷ q)) e (first-HasRequests k x l q)
      go true (there j) later = later-HasRequests k r.bucket (x ∷ l) q d.0 (later j)
      go false j later = later-HasRequests k r.bucket (x ∷ l) q d.0 (later j)

  ready_buckets-closing :
      (b : Batcher R V) (now : R) (q : Queues R V)
      → b.closing ≡ true
      → has_pending q ≡ true
      → ready_buckets b now q ≢ []
  unfolding ready_buckets has_pending
  ready_buckets-closing b now [] c p e = absurd (ground arith)
  ready_buckets-closing b now ((k, []) ∷ q) c p e = ready_buckets-closing b now q c p e
  ready_buckets-closing b now ((k, x ∷ l) ∷ q) c p e =
      let now_ready : is_ready b now x l ≡ true = rw c in
      let some_ready =
        subst (λ t. (if t then tuple ∷ ready_buckets b now q else ready_buckets b now q) ≡ [])
          now_ready e in
      absurd (ground arith)
    where
      tuple : Ready R
      tuple = record { deadline = earliest_deadline x l; flush = flush_at b.config x l; bucket = k }

  -- While the batcher closes, a bucket with requests is chosen where there is one.
  pub select_closing :
      (b : Batcher R V) (now : R)
      → b.closing ≡ true
      → has_pending b.queues ≡ true
      → IsDict b.queues
      → (k : ℕ) × (select_ready_bucket b now ≡ some k)
        × (x : QueuedRequest R V) × (l : List (QueuedRequest R V)) × (get k b.queues ≡ some (x ∷ l))
  unfolding select_ready_bucket HasRequests
  select_closing b now c p d =
      let (r, chosen, i) =
        choose-In (ready_buckets b now b.queues) (ready_buckets-closing b now b.queues c p) in
      let (x, l, h) = ready_buckets-get b now b.queues r d i in (r.bucket, chosen, x, l, h)
