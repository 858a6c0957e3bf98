-- ===== src/Worker/Answer.antt =====
-- Responses as docs/native-worker-protocol.md describes them.
use cuebee_speaker_serving.Base.{ℕ, ◌^◌, ◌≤◌, ◌<◌, ◌≡◌, ◌⊎◌, List, [], ◌∷◌, ◌++◌, map, length}
use cuebee_speaker_serving.Base.Keep.{All}
use cuebee_speaker_serving.Base.Text.{codes}
use cuebee_speaker_serving.Worker.Wire.{Bytes, le_bytes, WorkerResponse}

-- The bytes of a float.
abbrev pub Word : Type 0
Word = (ℕ × ℕ) × (ℕ × ℕ)

abbrev pub word_bytes : Word → Bytes
word_bytes ((a, b), (c, d)) = a ∷ b ∷ c ∷ d ∷ []

abbrev pub words_bytes : List Word → Bytes
words_bytes [] = []
words_bytes (w ∷ words) = word_bytes w ++ words_bytes words

-- A quality and the 192 numbers of an embedding.
abbrev pub Row : Type 0
Row = Word × List Word

abbrev pub rows_bytes : List Row → Bytes
rows_bytes [] = []
rows_bytes ((quality, embedding) ∷ rows) = words_bytes (quality ∷ embedding) ++ rows_bytes rows

-- What a worker answers.
pub record Answer : Type 0 where
  pub request_id : ℕ
  pub status : ℕ
  pub error : Bytes
  pub rows : List Row

abbrev pub dimension_of : List Row → ℕ
dimension_of [] = 0
dimension_of (row ∷ rows) = 192

abbrev pub payload : Answer → Bytes
payload a = a.error ++ rows_bytes a.rows

-- The header: magic, version, status, request id, batch size, dimension, length of the payload and
-- of the error text in it.
abbrev pub header : Answer → Bytes
header a =
    codes "CBSR"
    ++ le_bytes 2 1
    ++ le_bytes 2 a.status
    ++ le_bytes 8 a.request_id
    ++ le_bytes 4 (length a.rows)
    ++ le_bytes 4 (dimension_of a.rows)
    ++ le_bytes 4 (length (payload a))
    ++ le_bytes 4 (length a.error)

abbrev pub encoded : Answer → Bytes
encoded a = header a ++ payload a

-- An answer that the protocol has: its fields fit, its rows have 193 numbers, its payload is within
-- 256 MiB, and a failure has no rows.
pub record IsAnswer (a : Answer) : Type 0 where
  pub id_fits : a.request_id < 2 ^ 64
  pub status_fits : a.status < 2 ^ 16
  pub payload_fits : length (payload a) ≤ 268_435_456
  pub wide : All (λ (row : Row). length row.1 ≡ 192) a.rows
  pub empty_failure : (a.status ≡ 0) ⊎ (a.rows ≡ [])

-- The bytes of several answers.
abbrev pub all_encoded : List Answer → Bytes
all_encoded [] = []
all_encoded (a ∷ answers) = encoded a ++ all_encoded answers

module _ {R : Type 0} (float32 : ℕ → ℕ → ℕ → ℕ → R) where
  abbrev pub number : Word → R
  number ((a, b), (c, d)) = float32 a b c d

  abbrev pub row_value : Row → R × List R
  row_value (quality, embedding) = (number quality, map number embedding)

  -- The response that carries an answer.
  abbrev pub as_response : Answer → WorkerResponse R
  as_response a = record {
    request_id = a.request_id;
    status = a.status;
    error = a.error;
    rows = map row_value a.rows;
  }
