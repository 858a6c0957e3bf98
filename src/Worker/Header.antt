-- ===== src/Worker/Header.antt =====
-- The header of a response, read back.
use cuebee_speaker_serving.Base.{
  ℕ, ◌+◌, ◌*◌, ◌^◌, ◌<◌, ◌≡◌, refl, false, ◌||◌, List, [], ◌∷◌, ◌++◌, arith, ltb, length, take,
  drop,
}
use cuebee_speaker_serving.Base.Keep.{All}
use cuebee_speaker_serving.Base.Text.{codes}
use cuebee_speaker_serving.Domain.{ok}
use cuebee_speaker_serving.Worker.Wire.{
  Bytes, le_bytes, le_value, ResponseHeader, response_header, check_header,
}
use cuebee_speaker_serving.Base.{length-append}
use cuebee_speaker_serving.Worker.Answer.{
  Word, words_bytes, Row, rows_bytes, Answer, dimension_of, payload, header, IsAnswer,
}

u16_lem : (n : ℕ) → n < 2 ^ 16 → le_value (le_bytes 2 n) ≡ n
unfolding le_value le_bytes
u16_lem n h = omega arith

u32_lem : (n : ℕ) → n < 2 ^ 32 → le_value (le_bytes 4 n) ≡ n
unfolding le_value le_bytes
u32_lem n h = omega arith

u64_lem : (n : ℕ) → n < 2 ^ 64 → le_value (le_bytes 8 n) ≡ n
unfolding le_value le_bytes
u64_lem n h = omega arith

-- The fields of an answer.
abbrev pub fields : Answer → ResponseHeader
fields a = record {
  magic = codes "CBSR";
  version = 1;
  status = a.status;
  request_id = a.request_id;
  batch_size = length a.rows;
  dimension = dimension_of a.rows;
  payload_bytes = length (payload a);
  error_bytes = length a.error;
}

pub length-words_bytes : (words : List Word) → length (words_bytes words) ≡ length words * 4
length-words_bytes [] = omega arith
length-words_bytes (w ∷ words) = omega (arith, length-words_bytes words)

pub length-rows_bytes :
    (rows : List Row)
    → All (λ (row : Row). length row.1 ≡ 192) rows
    → length (rows_bytes rows) ≡ length rows * 772
length-rows_bytes [] h = omega arith
length-rows_bytes ((q, e) ∷ rows) h = omega (
  arith,
  length-append (words_bytes (q ∷ e)) (rows_bytes rows),
  length-words_bytes (q ∷ e),
  length-rows_bytes rows h.1,
)

pub length-rows_of_payload :
    (a : Answer) → IsAnswer a → length (payload a) ≡ length a.error + length a.rows * 772
length-rows_of_payload a h =
    omega (arith, length-append a.error (rows_bytes a.rows), length-rows_bytes a.rows h.wide)

dimension_of-lt : (rows : List Row) → dimension_of rows < 2 ^ 32
dimension_of-lt [] = omega arith
dimension_of-lt (row ∷ rows) = omega arith

-- The header is read back.
pub response_header-header :
    (a : Answer) (rest : Bytes)
    → IsAnswer a
    → response_header (take 32 (header a ++ rest)) ≡ fields a
unfolding response_header le_bytes
response_header-header a rest h =
    let size = length-rows_of_payload a h in
    let version : le_value (le_bytes 2 1) ≡ 1 = u16_lem 1 (omega arith) in
    let status = u16_lem a.status h.status_fits in
    let id = u64_lem a.request_id h.id_fits in
    let count = u32_lem (length a.rows) (omega arith) in
    let dimension = u32_lem (dimension_of a.rows) (dimension_of-lt a.rows) in
    let bytes = u32_lem (length (payload a)) (omega arith) in
    let text = u32_lem (length a.error) (omega arith) in
    λ i. record {
      magic = codes "CBSR";
      version = version i;
      status = status i;
      request_id = id i;
      batch_size = count i;
      dimension = dimension i;
      payload_bytes = bytes i;
      error_bytes = text i;
    }

pub length-header : (a : Answer) → length (header a) ≡ 32
unfolding le_bytes
length-header a = refl

pub header-drop : (a : Answer) (rest : Bytes) → drop 32 (header a ++ rest) ≡ rest
unfolding le_bytes
header-drop a rest = refl

pub check_header-fields : (a : Answer) → IsAnswer a → check_header (fields a) ≡ ok tt
unfolding check_header
check_header-fields a h =
    let size = length-rows_of_payload a h in
    let within : (ltb 268435456 (length (payload a)) || ltb (length (payload a)) (length a.error))
        ≡ false =
      ground arith in
    rw within
