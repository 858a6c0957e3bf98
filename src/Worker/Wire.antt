-- ===== src/Worker/Wire.antt =====
-- The bytes of the protocol: the fields of `struct`, the request that is written, and one round of
-- the reader. A read of the pipe returns one packet, or the part of it that is asked for.
use cuebee_speaker_serving.Base.{
  ℕ, zero, suc, ◌+◌, ◌-◌, ◌*◌, ◌/◌, ◌%◌, ◌^◌, Bool, true, false, not, ◌||◌, String, List, [], ◌∷◌,
  ◌++◌, ltb, leb, length, take, drop, if◌then◌else◌, ◌==◌,
}
use cuebee_speaker_serving.Base.Eq.{text_same}
use cuebee_speaker_serving.Base.Text.{codes}
use cuebee_speaker_serving.Domain.{
  Error, Result, ok, raised, struct_error, worker_unavailable, ◌>>=◌, ◌>>◌,
}

abbrev pub Bytes : Type 0
Bytes = List ℕ

-- The `width` bytes of a number, the low one first, and the number that bytes stand for.
unfoldable pub le_bytes : ℕ → ℕ → Bytes
le_bytes zero n = []
le_bytes (suc width) n = (n % 256) ∷ le_bytes width (n / 256)

unfoldable pub le_value : Bytes → ℕ
le_value [] = 0
le_value (b ∷ bytes) = b + 256 * le_value bytes

-- A field of `struct.pack`: `limit` is 2 to the power of its bits.
abbrev pub packed : ℕ → ℕ → ℕ → Result Bytes
packed width limit n =
    if ltb n limit then ok (le_bytes width n) else raised (struct_error "argument out of range")

abbrev pub pack_u16 : ℕ → Result Bytes
pack_u16 n = packed 2 (2 ^ 16) n

abbrev pub pack_u32 : ℕ → Result Bytes
pack_u32 n = packed 4 (2 ^ 32) n

abbrev pub pack_u64 : ℕ → Result Bytes
pack_u64 n = packed 8 (2 ^ 64) n

-- `_REQUEST_HEADER.pack`
unfoldable pub request_header : ℕ → ℕ → ℕ → ℕ → Result Bytes
request_header operation request_id batch_size payload_bytes = do
  version ← pack_u16 1
  op ← pack_u16 operation
  id ← pack_u64 request_id
  count ← pack_u32 batch_size
  bins ← pack_u32 80
  size ← pack_u32 payload_bytes
  reserved ← pack_u32 0
  ok (codes "CBSP" ++ version ++ op ++ id ++ count ++ bins ++ size ++ reserved)

-- A pipe, by the packets that arrive; an empty packet stands for its end, as does the empty list.
abbrev pub Pipe : Type 0
Pipe = List Bytes

abbrev pub closed {ℓ} : {A : Type ℓ} → Result A
closed = raised (worker_unavailable "native worker closed its response stream")

-- `_read_exact`: what it returns and what is left of the stream.
unfoldable pub read_exact : Pipe → ℕ → Result (Bytes × Pipe)
read_exact [] zero = ok ([], [])
read_exact [] (suc n) = closed
read_exact (packet ∷ stream) zero = ok ([], packet ∷ stream)
read_exact ([] ∷ stream) (suc n) = closed
read_exact ((b ∷ packet) ∷ stream) (suc n) =
    let more =
      read_exact stream (n - length packet) >>= λ rest. ok ((b ∷ packet) ++ rest.0, rest.1) in
    if leb (length packet) n
    then more
    else ok (take (suc n) (b ∷ packet), drop (suc n) (b ∷ packet) ∷ stream)

-- `_WorkerResponse`: the rows are the pairs of a quality and an embedding; the error text is kept as
-- its bytes.
pub record WorkerResponse (R : Type 0) : Type 0 where
  pub request_id : ℕ
  pub status : ℕ
  pub error : Bytes
  pub rows : List (R × List R)

-- What `_reader_loop` puts into its queue: responses, and last the exception that ends it.
pub data Message (R : Type 0) : Type 0 where
  response : WorkerResponse R → Message R
  failure : Error → Message R

-- A round of the loop puts the response and goes on, or puts the exception and ends.
abbrev pub after_read :
    {R : Type 0} → Result (WorkerResponse R × Pipe) → (Pipe → List (Message R)) → List (Message R)
after_read (raised e) more = failure e ∷ []
after_read (ok (r, rest)) more = response r ∷ more rest

-- The fields of a response header.
pub record ResponseHeader : Type 0 where
  pub magic : Bytes
  pub version : ℕ
  pub status : ℕ
  pub request_id : ℕ
  pub batch_size : ℕ
  pub dimension : ℕ
  pub payload_bytes : ℕ
  pub error_bytes : ℕ

-- `size` bytes of a buffer, from `offset` on.
abbrev slice : ℕ → ℕ → Bytes → Bytes
slice offset size buffer = take size (drop offset buffer)

-- `_RESPONSE_HEADER.unpack`
unfoldable pub response_header : Bytes → ResponseHeader
response_header header = record {
  magic = slice 0 4 header;
  version = le_value (slice 4 2 header);
  status = le_value (slice 6 2 header);
  request_id = le_value (slice 8 8 header);
  batch_size = le_value (slice 16 4 header);
  dimension = le_value (slice 20 4 header);
  payload_bytes = le_value (slice 24 4 header);
  error_bytes = le_value (slice 28 4 header);
}

-- `if b: raise NativeWorkerUnavailable(s)`
abbrev pub unavailable_if : Bool → String → Result (Unit {0})
unavailable_if true s = raised (worker_unavailable s)
unavailable_if false s = ok tt

-- The first test of a header, and the second.
unfoldable pub check_header : ResponseHeader → Result (Unit {0})
check_header h = do
  unavailable_if (not (text_same h.magic (codes "CBSR")) || not (h.version == 1))
      "native worker returned an invalid response header"
  unavailable_if (ltb 268435456 h.payload_bytes || ltb h.payload_bytes h.error_bytes)
      "native worker response exceeds protocol limits"

module _ {R : Type 0} (float32 : ℕ → ℕ → ℕ → ℕ → R) where
  -- `np.frombuffer(payload, dtype="<f4")`
  unfoldable pub floats : Bytes → List R
  floats (a ∷ b ∷ c ∷ d ∷ bytes) = float32 a b c d ∷ floats bytes
  floats _ = []

  -- A row of the records: its first column is the quality.
  abbrev pub row_of : List R → List (R × List R)
  row_of [] = []
  row_of (quality ∷ embedding) = (quality, embedding) ∷ []

  -- The `reshape(batch_size, dimension + 1)`, of rows of `width` bytes.
  unfoldable pub rows_of : ℕ → ℕ → Bytes → List (R × List R)
  rows_of zero width bytes = []
  rows_of (suc count) width bytes =
      row_of (floats (take width bytes)) ++ rows_of count width (drop width bytes)

  -- The results of a response.
  unfoldable pub results : ResponseHeader → Bytes → Result (List (R × List R))
  results h payload =
      if not (h.status == 0)
      then ok []
      else if h.batch_size == 0
      then (unavailable_if (not (h.dimension == 0) || not (length payload == 0))
            "invalid empty native worker response"
          >> ok [])
      else (unavailable_if (not (h.dimension == 192)) "native worker returned embedding dimension"
          >> unavailable_if (not (length payload == h.batch_size * (h.dimension + 1) * 4))
              "native worker response has invalid length"
          >> ok (rows_of h.batch_size ((h.dimension + 1) * 4) payload))

  -- One round of `_reader_loop`, behind the header.
  unfoldable pub read_body : ResponseHeader → Pipe → Result (WorkerResponse R × Pipe)
  read_body h stream = do
    check_header h
    body ← read_exact stream h.payload_bytes
    rows ← results h (drop h.error_bytes body.0)
    ok (
      record {
        request_id = h.request_id;
        status = h.status;
        error = take h.error_bytes body.0;
        rows = rows;
      },
      body.1,
    )

  -- One round of `_reader_loop`.
  unfoldable pub read_response : Pipe → Result (WorkerResponse R × Pipe)
  read_response stream = do head ← read_exact stream 32; read_body (response_header head.0) head.1

  -- `_reader_loop`, in at most that many rounds.
  unfoldable pub reader_loop : ℕ → Pipe → List (Message R)
  reader_loop zero stream = []
  reader_loop (suc rounds) stream = after_read (read_response stream) (reader_loop rounds)
