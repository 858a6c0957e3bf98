-- ===== src/Gateway/Admission.antt =====
-- One call of `EventGateway.accept`, on every branch.
use cuebee_speaker_serving.Base.{
  ◌<◌, ◌≡◌, ◌↔◌, ◌⊎◌, true, ◌&&◌, String, Option, none, some, arith, if◌then◌else◌,
}
use cuebee_speaker_serving.Base.Eq.{string_eq, pair_eq, Eq}
use cuebee_speaker_serving.Base.Dict.{get, set, get-set}
use cuebee_speaker_serving.Domain.{AudioChunk, session_key, is_accepted}
use cuebee_speaker_serving.Gateway.{Cursor, EventGateway, accept, accept_at}

abbrev pub cursor_of : AudioChunk → Cursor
cursor_of c = record { epoch = c.client_epoch; last_seq = c.seq_no }

-- The order of the pairs (epoch, sequence number).
abbrev pub Precedes : Cursor → Cursor → Type 0
Precedes a b = (a.epoch < b.epoch) ⊎ ((a.epoch ≡ b.epoch) × (a.last_seq < b.last_seq))

abbrev pub IsNewer : Option Cursor → Cursor → Type 0
IsNewer none b = Unit
IsNewer (some a) b = Precedes a b

abbrev pub key_eq : Eq (String × String)
key_eq = pair_eq

accept_at-IsNewer :
    (g : EventGateway) (c : AudioChunk) (o : Option Cursor)
    → is_accepted (accept_at g c o).1 ≡ true
    → IsNewer o (cursor_of c)
unfolding accept_at
accept_at-IsNewer g c none h = tt
accept_at-IsNewer g c (some cursor) h = ground arith

accept_at-accepts :
    (g : EventGateway) (c : AudioChunk) (o : Option Cursor)
    → IsNewer o (cursor_of c)
    → is_accepted (accept_at g c o).1 ≡ true
unfolding accept_at
accept_at-accepts g c none h = ground arith
accept_at-accepts g c (some cursor) h = ground arith

-- An event is admitted exactly when its session has no cursor, or its (epoch, sequence number)
-- comes after the cursor in lexicographic order.
pub accept-admits_iff :
    (g : EventGateway) (c : AudioChunk)
    → (is_accepted (accept g c).1 ≡ true) ↔ IsNewer (get (session_key c) g) (cursor_of c)
unfolding accept
accept-admits_iff g c =
    (accept_at-IsNewer g c (get (session_key c) g), accept_at-accepts g c (get (session_key c) g))

pub accept_at-state :
    (g : EventGateway) (c : AudioChunk) (o : Option Cursor)
    → (accept_at g c o).0
      ≡ (if is_accepted (accept_at g c o).1 then set (session_key c) (cursor_of c) g else g)
unfolding accept_at
accept_at-state g c none = ground arith
accept_at-state g c (some cursor) = ground arith

-- The whole effect on the cursors: an admitted event moves the cursor of its own session to its
-- epoch and number; a refused one changes nothing; every other session keeps its cursor.
pub get-accept :
    (g : EventGateway) (c : AudioChunk) (k : String × String)
    → get k (accept g c).0 ≡ (
        if is_accepted (accept g c).1 && key_eq.same (session_key c) k
        then some (cursor_of c)
        else get k g)
unfolding accept
get-accept g c k =
    ground (
      arith,
      accept_at-state g c (get (session_key c) g),
      get-set (session_key c) k (cursor_of c) g,
    )
