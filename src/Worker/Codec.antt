-- ===== src/Worker/Codec.antt =====
-- The reader on the bytes of the responses of docs/native-worker-protocol.md.
use mathlib.Core.List.{append_assoc}
use cuebee_speaker_serving.Base.{
  ℕ, zero, suc, ◌+◌, ◌*◌, ◌<◌, ◌≡◌, refl, ap, ◌∙◌, ◌⊎◌, inl, inr, true, false, List, [], ◌∷◌, ◌++◌,
  map, arith, length, take, drop, ◌==◌, Bool-cases, ==_iff,
}
use cuebee_speaker_serving.Base.Keep.{All}
use cuebee_speaker_serving.Domain.{ok, worker_unavailable}
use cuebee_speaker_serving.Worker.Wire.{
  Bytes, Pipe, closed, read_exact, ResponseHeader, response_header, floats, rows_of, results,
  read_body, read_response, response, failure, after_read, reader_loop,
}
use cuebee_speaker_serving.Worker.Stream.{flat, IsFilled, read_exact-IsCut, read_exact-closed}
use cuebee_speaker_serving.Base.Split.{take-append_exact, drop-append_exact}
use cuebee_speaker_serving.Base.{length-append}
use cuebee_speaker_serving.Worker.Answer.{
  Word, words_bytes, Row, rows_bytes, Answer, payload, header, encoded, IsAnswer, number, row_value,
  as_response, all_encoded,
}
use cuebee_speaker_serving.Worker.Header.{
  fields, length-words_bytes, length-rows_bytes, response_header-header, length-header, header-drop,
  check_header-fields,
}

module _ {R : Type 0} (float32 : ℕ → ℕ → ℕ → ℕ → R) where
  floats-words_bytes :
      (words : List Word) → floats float32 (words_bytes words) ≡ map (number float32) words
  unfolding floats
  floats-words_bytes [] = refl
  floats-words_bytes (((a, b), (c, d)) ∷ words) = rw (floats-words_bytes words)

  rows_of-rows_bytes :
      (rows : List Row)
      → All (λ (row : Row). length row.1 ≡ 192) rows
      → rows_of float32 (length rows) 772 (rows_bytes rows) ≡ map (row_value float32) rows
  unfolding rows_of
  rows_of-rows_bytes [] h = refl
  rows_of-rows_bytes ((q, e) ∷ rows) h =
      let size : length (words_bytes e) ≡ 768 = omega (arith, length-words_bytes e) in
      rw (
        take-append_exact 768 (words_bytes e) (rows_bytes rows) size,
        drop-append_exact 768 (words_bytes e) (rows_bytes rows) size,
        floats-words_bytes (q ∷ e),
        rows_of-rows_bytes rows h.1,
      )

  results-full :
      (h : ResponseHeader) (n : ℕ) (bytes : Bytes)
      → h.status ≡ 0
      → h.batch_size ≡ suc n
      → h.dimension ≡ 192
      → length bytes ≡ suc n * 772
      → results float32 h bytes ≡ ok (rows_of float32 h.batch_size ((h.dimension + 1) * 4) bytes)
  unfolding results
  results-full h n bytes s b d l =
      let success : (h.status == 0) ≡ true = ground arith in
      let some_rows : (h.batch_size == 0) ≡ false = ground arith in
      let wide : (h.dimension == 192) ≡ true = ground arith in
      let size : (length bytes == h.batch_size * (h.dimension + 1) * 4) ≡ true =
        let dims : h.batch_size * (h.dimension + 1) * 4 ≡ h.batch_size * (192 + 1) * 4 =
          ap (λ t. h.batch_size * (t + 1) * 4) d in
        (==_iff (length bytes) (h.batch_size * (h.dimension + 1) * 4)).1 (omega arith) in
      rw (success, some_rows, wide, size)

  results-payload :
      (a : Answer) (rows : List Row)
      → All (λ (row : Row). length row.1 ≡ 192) rows
      → (a.status ≡ 0) ⊎ (rows ≡ [])
      → results float32 (fields (record a { rows = rows })) (rows_bytes rows)
        ≡ ok (map (row_value float32) rows)
  unfolding results
  results-payload a [] w h = elim (Bool-cases (a.status == 0)) [ inl e ↦ rw e | inr e ↦ rw e ]
  results-payload a (row ∷ rows) w (inl e) =
      results-full (fields (record a { rows = row ∷ rows })) (length rows) (rows_bytes (row ∷ rows))
        e refl refl (length-rows_bytes (row ∷ rows) w)
      ∙ ap ok (rows_of-rows_bytes (row ∷ rows) w)
  results-payload a (row ∷ rows) w (inr e) = absurd (ground arith)

  read_body-fields :
      (stream rest : Pipe) (a : Answer) (tail : Bytes)
      → IsAnswer a
      → flat stream ≡ payload a ++ tail
      → read_exact stream (length (payload a)) ≡ ok (take (length (payload a)) (flat stream), rest)
      → read_body float32 (fields a) stream ≡ ok (as_response float32 a, rest)
  unfolding read_body
  read_body-fields stream rest a tail h e r =
      let body : take (length (payload a)) (flat stream) ≡ payload a =
        ap (take (length (payload a))) e
        ∙ take-append_exact (length (payload a)) (payload a) tail refl in
      let text : take (length a.error) (payload a) ≡ a.error =
        take-append_exact (length a.error) a.error (rows_bytes a.rows) refl in
      let rows : drop (length a.error) (payload a) ≡ rows_bytes a.rows =
        drop-append_exact (length a.error) a.error (rows_bytes a.rows) refl in
      rw (
        check_header-fields a h,
        r,
        body,
        rows,
        text,
        results-payload a a.rows h.wide h.empty_failure,
      )

  -- The next answer of a stream is read, and what is left is what stands behind it.
  record IsReceived (stream : Pipe) (a : Answer) (rest : Bytes) : Type 0 where
    next : Pipe
    result : read_response float32 stream ≡ ok (as_response float32 a, next)
    left : flat next ≡ rest
    filled : IsFilled next

  read_response-IsReceived :
      (stream : Pipe) (a : Answer) (rest : Bytes)
      → IsFilled stream
      → IsAnswer a
      → flat stream ≡ encoded a ++ rest
      → IsReceived stream a rest
  unfolding read_response
  read_response-IsReceived stream a rest f h e =
      let whole : flat stream ≡ header a ++ (payload a ++ rest) =
        e ∙ append_assoc (header a) (payload a) rest in
      let room : length (payload a ++ rest) + 32 ≡ length (flat stream) =
        omega
          (arith, ap length whole, length-append (header a) (payload a ++ rest), length-header a) in
      let first = read_exact-IsCut stream 32 f (omega arith) in
      let head : take 32 (flat stream) ≡ take 32 (header a ++ (payload a ++ rest)) =
        ap (take 32) whole in
      let behind : flat first.rest ≡ payload a ++ rest =
        first.left ∙ ap (drop 32) whole ∙ header-drop a (payload a ++ rest) in
      let second =
        read_exact-IsCut first.rest (length (payload a)) first.filled
          (omega (arith, ap length behind, length-append (payload a) rest)) in
      record {
        next = second.rest;
        result = rw (
          first.result,
          ap response_header head ∙ response_header-header a (payload a ++ rest) h,
          read_body-fields first.rest second.rest a rest h behind second.result,
        );
        left =
            second.left
            ∙ ap (drop (length (payload a))) behind
            ∙ drop-append_exact (length (payload a)) (payload a) rest refl;
        filled = second.filled;
      }

module _ {R : Type 0} (float32 : ℕ → ℕ → ℕ → ℕ → R) where
  -- However the pipe cuts their bytes into packets, the reader puts the answers of a worker into its
  -- queue, each with its id, status, error text and rows, in their order; behind them, where less
  -- than a header is left, it puts the failure of the closed stream. One round more than there are
  -- answers is enough.
  pub reader_loop-encoded :
      (rounds : ℕ) (stream : Pipe) (answers : List Answer) (tail : Bytes)
      → length answers < rounds
      → IsFilled stream
      → All IsAnswer answers
      → flat stream ≡ all_encoded answers ++ tail
      → length tail < 32
      → reader_loop float32 rounds stream
        ≡ map (λ a. response (as_response float32 a)) answers
          ++ failure (worker_unavailable "native worker closed its response stream") ∷ []
  unfolding reader_loop
  reader_loop-encoded zero stream answers tail n f h e t = absurd (omega arith)
  reader_loop-encoded (suc rounds) stream [] tail n f h e t =
      let short : read_exact stream 32 ≡ closed =
        read_exact-closed stream 32 (omega (arith, ap length e)) in
      let over : read_response float32 stream ≡ closed = unfold read_response in rw short in
      ap (λ r. after_read r (reader_loop float32 rounds)) over
  reader_loop-encoded (suc rounds) stream (a ∷ answers) tail n f h e t =
      let next =
        read_response-IsReceived float32 stream a (all_encoded answers ++ tail) f h.0
          (e ∙ append_assoc (encoded a) (all_encoded answers) tail) in
      ap (λ r. after_read r (reader_loop float32 rounds)) next.result
      ∙ rw (
          reader_loop-encoded rounds next.next answers tail (omega arith) next.filled h.1 next.left
            t)
