-- ===== src/Base/Text.antt =====
-- Texts that the code takes apart, as lists of code points.
use Prim.Native.Char.{code}
use cuebee_speaker_serving.Base.{ℕ, String, List, [], ◌∷◌}

abbrev pub codes : String → List ℕ
codes String.[] = []
codes (String.◌∷◌ c s) = code c ∷ codes s
