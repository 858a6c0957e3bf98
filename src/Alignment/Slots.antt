-- ===== src/Alignment/Slots.antt =====
-- The list that the timeline keeps of a session: one segment to a slot, in order, the newest
-- revision, and no older than the retention.
use cuebee_speaker_serving.Base.{
  ℕ, ◌≤◌, ◌≡◌, sym, subst, ◌≢◌, inl, inr, Bool, true, List, [], ◌∷◌, none, some, arith, leb,
  Bool-cases, Option-cases,
}
use cuebee_speaker_serving.Base.Int.{ℤ, ltb_ℤ}
use cuebee_speaker_serving.Base.Eq.{string_eq, pair_eq, int_eq}
use cuebee_speaker_serving.Base.Dict.{Dict, get, values, get-set, get-set_self}
use cuebee_speaker_serving.Base.Keep.{All, Pairwise, keep-Picks, Pairwise-Picks}
use cuebee_speaker_serving.Base.Sort.{
  sorted, sorted-IsSorted, IsSorted, IsStrictWeak, lex-IsStrictWeak, IsSorted-Picks,
  sorted-Pairwise,
}
use cuebee_speaker_serving.Domain.{SpeakerSegment}
use cuebee_speaker_serving.Alignment.{slot_of, slot_lt, index, revise, retain, merged, supersedes}
use cuebee_speaker_serving.Alignment.Timeline.{
  slot_eq, IsSlotted, IsCurrent, settled, index-IsCurrent, revise-IsCurrent,
}

slot_lt-IsStrictWeak : IsStrictWeak slot_lt
slot_lt-IsStrictWeak =
    lex-IsStrictWeak (λ a b. ltb_ℤ a.0 b.0) (λ a b. int_eq.same a.0 b.0) (λ a b. ltb_ℤ a.1 b.1)
      (λ a b. ground arith)
      (record { asym = λ a b h. ground arith; incomparable_trans = λ a b c h k. ground arith })
      (record { asym = λ a b h. ground arith; incomparable_trans = λ a b c h k. ground arith })

module _ {R : Type 0} where
  abbrev pub by_slot : SpeakerSegment R → SpeakerSegment R → Bool
  by_slot a b = slot_lt (slot_of a) (slot_of b)

  abbrev pub HasOtherSlot : SpeakerSegment R → SpeakerSegment R → Type 0
  HasOtherSlot a b = slot_of a ≢ slot_of b

  absent-others :
      (s : SpeakerSegment R) (d : Dict (ℤ × ℤ) (SpeakerSegment R))
      → IsSlotted d
      → get (slot_of s) d ≡ none
      → All (HasOtherSlot s) (values d)
  unfolding get
  absent-others s [] h n = tt
  absent-others s ((j, w) ∷ d) h n = (
    (λ e. absurd (ground (arith, slot_eq.same_iff j (slot_of s), h.0))),
    absent-others s d h.1 (ground arith),
  )

  values-Pairwise :
      (d : Dict (ℤ × ℤ) (SpeakerSegment R)) → IsCurrent d → Pairwise HasOtherSlot (values d)
  values-Pairwise [] h = tt
  values-Pairwise ((j, w) ∷ d) h = (
    absent-others w d h.1.1 (subst (λ i. get i d ≡ none) (sym h.1.0) h.0.0),
    values-Pairwise d (h.0.1, h.1.1),
  )

  -- The list that `add` stores holds at most one segment for each slot, in the order of the slots.
  pub merged-IsSorted :
      (retention_ms : ℤ) (old new : List (SpeakerSegment R))
      → IsSorted by_slot (merged retention_ms old new)
        × Pairwise HasOtherSlot (merged retention_ms old new)
  unfolding merged retain
  merged-IsSorted retention_ms old new = (
    IsSorted-Picks by_slot (keep-Picks _ (sorted by_slot current))
        (sorted-IsSorted by_slot order current),
    Pairwise-Picks HasOtherSlot (keep-Picks _ (sorted by_slot current)) (
        sorted-Pairwise by_slot HasOtherSlot (λ a b n e. n (sym e)) current
          (values-Pairwise (revise (index [] old) new)
            (revise-IsCurrent (index [] old) new (index-IsCurrent [] old (tt, tt))))),
  )
    where
      current : List (SpeakerSegment R)
      current = values (revise (index [] old) new)

      order : IsStrictWeak by_slot
      order = record {
        asym = λ a b. slot_lt-IsStrictWeak.asym (slot_of a) (slot_of b);
        incomparable_trans =
            λ a b c. slot_lt-IsStrictWeak.incomparable_trans (slot_of a) (slot_of b) (slot_of c);
      }

  -- A segment of the slot, at least as new.
  abbrev pub HasRevision : Dict (ℤ × ℤ) (SpeakerSegment R) → ℤ × ℤ → ℕ → Type 0
  HasRevision d slot n = (w : SpeakerSegment R) × (get slot d ≡ some w) × (n ≤ w.revision)

  settled-HasRevision :
      (d : Dict (ℤ × ℤ) (SpeakerSegment R)) (s : SpeakerSegment R) (slot : ℤ × ℤ) (n : ℕ)
      → HasRevision d slot n
      → HasRevision (settled d s) slot n
  settled-HasRevision d s slot n (w, e, le) = elim (Bool-cases (supersedes (get (slot_of s) d) s)) [
    | inr f ↦ rw f (w, e, le)
    | inl f ↦ rw f (elim (Bool-cases (slot_eq.same (slot_of s) slot)) [
      | inr g ↦ (w, rw (get-set (slot_of s) slot s d, g) e, le)
      | inl g ↦ (
        s,
        rw (get-set (slot_of s) slot s d, g),
        newer f ((slot_eq.same_iff (slot_of s) slot).0 g),
      )
    ])
  ]
    where
      newer : supersedes (get (slot_of s) d) s ≡ true → slot_of s ≡ slot → n ≤ s.revision
      newer f same =
          let found : get (slot_of s) d ≡ some w = subst (λ i. get i d ≡ some w) (sym same) e in
          let over : supersedes (some w) s ≡ true = subst (λ o. supersedes o s ≡ true) found f in
          ground arith

  settled_self :
      (d : Dict (ℤ × ℤ) (SpeakerSegment R)) (s : SpeakerSegment R)
      → HasRevision (settled d s) (slot_of s) s.revision
  settled_self d s = elim (Option-cases (get (slot_of s) d)) [
    | inl n ↦ rw n (s, get-set_self (slot_of s) s d, omega arith)
    | inr (w, e) ↦ elim (Bool-cases (leb w.revision s.revision)) [
      | inl f ↦ rw (e, f) (s, get-set_self (slot_of s) s d, omega arith)
      | inr f ↦ rw (e, f) (w, e, ground arith)
    ]
  ]

  revise-HasRevision :
      (d : Dict (ℤ × ℤ) (SpeakerSegment R)) (l : List (SpeakerSegment R)) (slot : ℤ × ℤ) (n : ℕ)
      → HasRevision d slot n
      → HasRevision (revise d l) slot n
  unfolding revise
  revise-HasRevision d [] slot n h = h
  revise-HasRevision d (s ∷ l) slot n h =
      revise-HasRevision (settled d s) l slot n (settled-HasRevision d s slot n h)

  revise_new :
      (d : Dict (ℤ × ℤ) (SpeakerSegment R)) (l : List (SpeakerSegment R))
      → All (λ s. HasRevision (revise d l) (slot_of s) s.revision) l
  unfolding revise
  revise_new d [] = tt
  revise_new d (s ∷ l) = (
    revise-HasRevision (settled d s) l (slot_of s) s.revision (settled_self d s),
    revise_new (settled d s) l,
  )

  -- No revision is lost: after the loop of `add` the slot of each new segment, and each slot that
  -- was there, holds a segment whose revision is at least as high.
  pub revise_newest :
      (d : Dict (ℤ × ℤ) (SpeakerSegment R)) (l : List (SpeakerSegment R))
      → All (λ s. HasRevision (revise d l) (slot_of s) s.revision) l
        × ((slot : ℤ × ℤ) (w : SpeakerSegment R)
            → get slot d ≡ some w
            → HasRevision (revise d l) slot w.revision)
  revise_newest d l =
      (revise_new d l, (λ slot w e. revise-HasRevision d l slot w.revision (w, e, omega arith)))
