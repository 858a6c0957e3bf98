-- ===== src/Gateway/Trace.antt =====
-- A history of calls of the gateway, and what it admits of one session.
use cuebee_speaker_serving.Base.{
  ◌≡◌, refl, subst, ◌≢◌, Bool, true, false, ◌&&◌, String, List, [], ◌∷◌, Option, none, some, arith,
  if◌then◌else◌,
}
use cuebee_speaker_serving.Base.Eq.{string_eq, pair_eq}
use cuebee_speaker_serving.Base.Dict.{get, get-pop_ne}
use cuebee_speaker_serving.Domain.{AudioChunk, session_key, is_accepted}
use cuebee_speaker_serving.Gateway.{Cursor, EventGateway, accept, forget}
use cuebee_speaker_serving.Gateway.Admission.{
  cursor_of, Precedes, IsNewer, key_eq, accept-admits_iff, get-accept,
}

pub data Call : Type 0 where
  accepts : AudioChunk → Call
  forgets : String → String → Call

-- The admitted (epoch, sequence number) pairs of the session `k`, oldest first.
unfoldable pub admissions : String × String → EventGateway → List Call → List Cursor
admissions k g [] = []
admissions k g (accepts c ∷ calls) =
    let rest = admissions k (accept g c).0 calls in
    if is_accepted (accept g c).1 && key_eq.same (session_key c) k then cursor_of c ∷ rest else rest
admissions k g (forgets t s ∷ calls) = admissions k (forget t s g) calls

-- The session `k` is not forgotten.
abbrev pub Remembers : String × String → List Call → Type 0
Remembers k [] = Unit
Remembers k (accepts c ∷ calls) = Remembers k calls
Remembers k (forgets t s ∷ calls) = ((t, s) ≢ k) × Remembers k calls

abbrev pub AllNewer : Option Cursor → List Cursor → Type 0
AllNewer o [] = Unit
AllNewer o (a ∷ rest) = IsNewer o a × AllNewer o rest

-- Each pair precedes all pairs behind it.
abbrev pub IsIncreasing : List Cursor → Type 0
IsIncreasing [] = Unit
IsIncreasing (a ∷ rest) = AllNewer (some a) rest × IsIncreasing rest

IsNewer-trans : (o : Option Cursor) (b c : Cursor) → IsNewer o b → Precedes b c → IsNewer o c
IsNewer-trans none b c h k = tt
IsNewer-trans (some a) b c h k = omega arith

AllNewer-trans :
    (o : Option Cursor) (b : Cursor) (l : List Cursor)
    → IsNewer o b
    → AllNewer (some b) l
    → AllNewer o l
AllNewer-trans o b [] h k = tt
AllNewer-trans o b (c ∷ l) h k = (IsNewer-trans o b c h k.0, AllNewer-trans o b l h k.1)

abbrev Claim : String × String → EventGateway → List Call → Type 0
Claim k g calls = AllNewer (get k g) (admissions k g calls) × IsIncreasing (admissions k g calls)

-- One event more in front, admitted if `b`.
extend :
    (b : Bool) (o o' : Option Cursor) (x : Cursor) (rest : List Cursor)
    → o' ≡ (if b then some x else o)
    → (b ≡ true → IsNewer o x)
    → AllNewer o' rest × IsIncreasing rest
    → AllNewer o (if b then x ∷ rest else rest) × IsIncreasing (if b then x ∷ rest else rest)
extend true o o' x rest e newer h =
    let below : AllNewer (some x) rest = subst (λ p. AllNewer p rest) e h.0 in
    ((newer refl, AllNewer-trans o x rest (newer refl) below), (below, h.1))
extend false o o' x rest e newer h = (subst (λ p. AllNewer p rest) e h.0, h.1)

admitted-IsNewer :
    (k : String × String) (g : EventGateway) (c : AudioChunk)
    → (is_accepted (accept g c).1 && key_eq.same (session_key c) k) ≡ true
    → IsNewer (get k g) (cursor_of c)
admitted-IsNewer k g c h =
    let same : session_key c ≡ k = (key_eq.same_iff (session_key c) k).0 (ground arith) in
    rw (← same) ((accept-admits_iff g c).0 (ground arith))

accepts-Claim :
    (k : String × String) (g : EventGateway) (c : AudioChunk) (calls : List Call)
    → Claim k (accept g c).0 calls
    → Claim k g (accepts c ∷ calls)
unfolding admissions
accepts-Claim k g c calls ih =
    extend _ (get k g) (get k (accept g c).0) (cursor_of c) _ (get-accept g c k)
      (admitted-IsNewer k g c) ih

admissions-Claim :
    (k : String × String) (g : EventGateway) (calls : List Call)
    → Remembers k calls
    → Claim k g calls
unfolding admissions forget
admissions-Claim k g [] h = (tt, tt)
admissions-Claim k g (accepts c ∷ calls) h =
    accepts-Claim k g c calls (admissions-Claim k (accept g c).0 calls h)
admissions-Claim k g (forgets t s ∷ calls) h =
    rw (← get-pop_ne (t, s) k g h.0) (admissions-Claim k (forget t s g) calls h.1)

-- Over any history in which a session is not forgotten, its admitted (epoch, sequence number)
-- pairs increase strictly: no retransmission and no older stream is ever admitted.
pub admissions-IsIncreasing :
    (k : String × String) (g : EventGateway) (calls : List Call)
    → Remembers k calls
    → IsIncreasing (admissions k g calls)
admissions-IsIncreasing k g calls h = (admissions-Claim k g calls h).1
