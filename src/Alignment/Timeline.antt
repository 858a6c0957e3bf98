-- ===== src/Alignment/Timeline.antt =====
-- `SpeakerTimeline`: which segments `add` changes, their order, and their revisions.
use cuebee_speaker_serving.Base.{
  ◌≡◌, refl, sym, subst, ap, ◌∙◌, inl, inr, Bool, String, List, [], ◌∷◌, ◌++◌, Option, none, some,
  if◌then◌else◌, Bool-cases,
}
use mathlib.Core.List.{append_assoc}
use cuebee_speaker_serving.Base.Int.{ℤ}
use cuebee_speaker_serving.Base.Eq.{Eq, string_eq, pair_eq, int_eq}
use cuebee_speaker_serving.Base.Dict.{Dict, get, set, get-set, get-set_self, IsDict, set-IsDict}
use cuebee_speaker_serving.Base.Keep.{keep, All}
use cuebee_speaker_serving.Base.Sort.{}
use cuebee_speaker_serving.Domain.{SpeakerSegment}
use cuebee_speaker_serving.Alignment.{
  Segments, key_of, slot_of, group, index, revise, merged, add_groups, add, or_empty, supersedes,
  filed, stored,
}

abbrev pub session_eq : Eq (String × String)
session_eq = pair_eq

abbrev pub slot_eq : Eq (ℤ × ℤ)
slot_eq = pair_eq

module _ {R : Type 0} where
  abbrev pub of_key : String × String → SpeakerSegment R → Bool
  of_key k s = session_eq.same (key_of s) k

  -- What `add` makes of a session's list, given the new segments of that session.
  abbrev pub updated :
      ℤ
      → Option (List (SpeakerSegment R))
      → List (SpeakerSegment R)
      → Option (List (SpeakerSegment R))
  updated retention_ms old [] = old
  updated retention_ms old (s ∷ new) = some (merged retention_ms (or_empty old) (s ∷ new))

  -- The entry of `grouped` for a list of segments.
  abbrev entry :
      Option (List (SpeakerSegment R)) → List (SpeakerSegment R) → Option (List (SpeakerSegment R))
  entry o [] = o
  entry o (s ∷ new) = some (or_empty o ++ s ∷ new)

  entry-snoc :
      (o : Option (List (SpeakerSegment R))) (s : SpeakerSegment R) (new : List (SpeakerSegment R))
      → entry (some (or_empty o ++ s ∷ [])) new ≡ some (or_empty o ++ s ∷ new)
  entry-snoc o s [] = refl
  entry-snoc o s (x ∷ new) = ap some (append_assoc (or_empty o) (s ∷ []) (x ∷ new))

  get-group :
      (k : String × String) (g : Segments R) (segments : List (SpeakerSegment R))
      → get k (group g segments) ≡ entry (get k g) (keep (of_key k) segments)
  unfolding group
  get-group k g [] = refl
  get-group k g (s ∷ segments) = elim (Bool-cases (of_key k s)) [
    | inl e ↦
        let same : key_of s ≡ k = (session_eq.same_iff (key_of s) k).0 e in
        get-group k (filed g s) segments
        ∙ rw (e, same, get-set_self k (or_empty (get k g) ++ s ∷ []) g)
            (entry-snoc (get k g) s (keep (of_key k) segments))
    | inr e ↦
        get-group k (filed g s) segments
        ∙ rw (e, get-set (key_of s) k (or_empty (get (key_of s) g) ++ s ∷ []) g, e)
  ]

  group-IsDict :
      (g : Segments R) (segments : List (SpeakerSegment R)) → IsDict g → IsDict (group g segments)
  unfolding group
  group-IsDict g [] h = h
  group-IsDict g (s ∷ segments) h = group-IsDict (filed g s) segments (set-IsDict (key_of s) _ g h)

  abbrev via :
      ℤ
      → Option (List (SpeakerSegment R))
      → Option (List (SpeakerSegment R))
      → Option (List (SpeakerSegment R))
  via retention_ms old none = old
  via retention_ms old (some new) = some (merged retention_ms (or_empty old) new)

  get-add_groups :
      (r : ℤ) (k : String × String) (t grouped : Segments R)
      → IsDict grouped
      → get k (add_groups r t grouped) ≡ via r (get k t) (get k grouped)
  unfolding add_groups get
  get-add_groups r k t [] h = refl
  get-add_groups r k t ((j, new) ∷ grouped) h = elim (Bool-cases (session_eq.same j k)) [
    | inl e ↦
        let same : j ≡ k = (session_eq.same_iff j k).0 e in
        let last : get k grouped ≡ none = subst (λ i. get i grouped ≡ none) same h.0 in
        let here : get k (stored r t j new) ≡ some (merged r (or_empty (get k t)) new) =
          subst (λ i. get i (stored r t j new) ≡ some (merged r (or_empty (get i t)) new)) same
            (get-set_self j (merged r (or_empty (get j t)) new) t) in
        get-add_groups r k (stored r t j new) grouped h.1 ∙ rw (last, here, e)
    | inr e ↦
        get-add_groups r k (stored r t j new) grouped h.1
        ∙ rw (get-set j k (merged r (or_empty (get j t)) new) t, e)
  ]

  entry-via :
      (r : ℤ) (o : Option (List (SpeakerSegment R))) (new : List (SpeakerSegment R))
      → via r o (entry none new) ≡ updated r o new
  entry-via r o [] = refl
  entry-via r o (s ∷ new) = refl

  -- The whole effect of `add` on a session: the new segments of its own tenant and session are
  -- merged into its list; with none of those, its list stays as it was.
  pub get-add :
      (retention_ms : ℤ) (t : Segments R) (segments : List (SpeakerSegment R)) (k : String × String)
      → get k (add retention_ms t segments)
        ≡ updated retention_ms (get k t) (keep (of_key k) segments)
  unfolding add get
  get-add retention_ms t segments k =
      get-add_groups retention_ms k t (group [] segments) (group-IsDict [] segments tt)
      ∙ ap (via retention_ms (get k t)) (get-group k [] segments)
      ∙ entry-via retention_ms (get k t) (keep (of_key k) segments)

  -- Every entry of `current` stands under its own slot.
  abbrev pub IsSlotted : Dict (ℤ × ℤ) (SpeakerSegment R) → Type 0
  IsSlotted = All (λ e. slot_of e.1 ≡ e.0)

  set-IsSlotted :
      (s : SpeakerSegment R) (d : Dict (ℤ × ℤ) (SpeakerSegment R))
      → IsSlotted d
      → IsSlotted (set (slot_of s) s d)
  unfolding set
  set-IsSlotted s [] h = (refl, tt)
  set-IsSlotted s ((j, w) ∷ d) h = elim (Bool-cases (slot_eq.same j (slot_of s))) [
    | inl e ↦ rw e (sym ((slot_eq.same_iff j (slot_of s)).0 e), h.1)
    | inr e ↦ rw e (h.0, set-IsSlotted s d h.1)
  ]

  abbrev pub IsCurrent : Dict (ℤ × ℤ) (SpeakerSegment R) → Type 0
  IsCurrent d = IsDict d × IsSlotted d

  set-IsCurrent :
      (s : SpeakerSegment R) (d : Dict (ℤ × ℤ) (SpeakerSegment R))
      → IsCurrent d
      → IsCurrent (set (slot_of s) s d)
  set-IsCurrent s d h = (set-IsDict (slot_of s) s d h.0, set-IsSlotted s d h.1)

  pub index-IsCurrent :
      (d : Dict (ℤ × ℤ) (SpeakerSegment R)) (l : List (SpeakerSegment R))
      → IsCurrent d
      → IsCurrent (index d l)
  unfolding index
  index-IsCurrent d [] h = h
  index-IsCurrent d (s ∷ l) h = index-IsCurrent (set (slot_of s) s d) l (set-IsCurrent s d h)

  abbrev pub settled :
      Dict (ℤ × ℤ) (SpeakerSegment R) → SpeakerSegment R → Dict (ℤ × ℤ) (SpeakerSegment R)
  settled d s = if supersedes (get (slot_of s) d) s then set (slot_of s) s d else d

  settled-IsCurrent :
      (s : SpeakerSegment R) (d : Dict (ℤ × ℤ) (SpeakerSegment R))
      → IsCurrent d
      → IsCurrent (settled d s)
  settled-IsCurrent s d h = elim (Bool-cases (supersedes (get (slot_of s) d) s)) [
    | inl e ↦ rw e (set-IsCurrent s d h)
    | inr e ↦ rw e h
  ]

  pub revise-IsCurrent :
      (d : Dict (ℤ × ℤ) (SpeakerSegment R)) (l : List (SpeakerSegment R))
      → IsCurrent d
      → IsCurrent (revise d l)
  unfolding revise
  revise-IsCurrent d [] h = h
  revise-IsCurrent d (s ∷ l) h = revise-IsCurrent (settled d s) l (settled-IsCurrent s d h)
