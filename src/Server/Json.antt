-- ===== src/Server/Json.antt =====
-- The values that `json.loads` returns.
use cuebee_speaker_serving.Base.{Bool, String, List, [], ◌∷◌}
use cuebee_speaker_serving.Base.Dict.{Dict}
use cuebee_speaker_serving.Base.Int.{ℤ}

-- A list and a dict have list types of their own.
mutual
  pub data Value (R : Type 0) : Type 0 where
    null : Value R
    boolean : Bool → Value R
    integer : ℤ → Value R
    number : R → Value R
    text : String → Value R
    array : Items R → Value R
    object : Members R → Value R

  pub data Items (R : Type 0) : Type 0 where
    nil : Items R
    cons : Value R → Items R → Items R

  pub data Members (R : Type 0) : Type 0 where
    end : Members R
    member : String → Value R → Members R → Members R

module _ {R : Type 0} where
  abbrev pub items : Items R → List (Value R)
  items nil = []
  items (cons v vs) = v ∷ items vs

  abbrev pub members : Members R → Dict String (Value R)
  members end = []
  members (member k v ms) = (k, v) ∷ members ms
