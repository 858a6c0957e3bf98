-- ===== src/Server/Messages.antt =====
-- How the server reads the fields of a message: `message[key]`, `message.get(key, default)`, and the
-- constructors `int`, `float` and `bool`.
use cuebee_speaker_serving.Base.{
  ℕ, Bool, true, false, not, String, List, [], ◌∷◌, Option, none, some, if◌then◌else◌, ◌==◌,
}
use cuebee_speaker_serving.Base.Dict.{Dict, get}
use cuebee_speaker_serving.Base.Eq.{string_eq}
use cuebee_speaker_serving.Base.Float.{Float}
use cuebee_speaker_serving.Base.Int.{ℤ, pos, negsuc}
use cuebee_speaker_serving.Base.Text.{codes}
use cuebee_speaker_serving.Domain.{
  Result, ok, raised, type_error, key_error, AudioChunk, audio_chunk, SttWord, SttSegment,
}
use cuebee_speaker_serving.Autoscaler.{ScalingSample}
use cuebee_speaker_serving.Pipeline.Effects.{Flow, return, attempt, ◌>>=◌}
use cuebee_speaker_serving.Server.Json.{
  Value, null, boolean, integer, number, text, array, object, nil, cons, end, member, items,
  members,
}

-- The conversions of Python and `base64.b64decode(_, validate=True)`, with the exceptions that they
-- raise.
pub record Conversions (R : Type 0) : Type 0 where
  pub int_of_float : R → Result ℤ
  pub int_of_text : String → Result ℤ
  pub float_of_int : ℤ → Result R
  pub float_of_text : String → Result R
  pub b64decode : String → Result (List ℕ)

abbrev pub Fields : Type 0 → Type 0
Fields R = Dict String (Value R)

module _ {R : Type 0} where
  abbrev pub present : String → Option (Value R) → Result (Value R)
  present key none = raised (key_error key)
  present key (some v) = ok v

  abbrev pub default_to : Value R → Option (Value R) → Value R
  default_to d none = d
  default_to d (some v) = v

module _ {R P : Type 0} where
  -- `message[key]`
  unfoldable pub item : Fields R → String → Flow P (Value R)
  item fields key = attempt (present key (get key fields))

  -- A field that is annotated as a text. Python passes any value on; the model ends at another one.
  unfoldable pub as_text : Value R → Flow P String
  as_text (text s) p = some (ok s, p)
  as_text v p = none

  unfoldable pub text_item : Fields R → String → Flow P String
  text_item fields key = item fields key >>= λ v. as_text v

module _ {R : Type 0} ⦃float : Float R⦄ (py : Conversions R) where
  -- `int(v)`
  unfoldable pub int : Value R → Result ℤ
  int null = raised (type_error "int() argument")
  int (boolean b) = ok (pos (if b then 1 else 0))
  int (integer n) = ok n
  int (number x) = py.int_of_float x
  int (text s) = py.int_of_text s
  int (array vs) = raised (type_error "int() argument")
  int (object ms) = raised (type_error "int() argument")

  -- `float(v)`
  unfoldable pub float_of : Value R → Result R
  float_of null = raised (type_error "float() argument")
  float_of (boolean b) = ok (if b then float.decimal 1 0 else float.decimal 0 0)
  float_of (integer n) = py.float_of_int n
  float_of (number x) = ok x
  float_of (text s) = py.float_of_text s
  float_of (array vs) = raised (type_error "float() argument")
  float_of (object ms) = raised (type_error "float() argument")

  -- `bool(v)`
  unfoldable pub truth : Value R → Bool
  truth null = false
  truth (boolean b) = b
  truth (integer (pos n)) = not (n == 0)
  truth (integer (negsuc n)) = true
  truth (number x) = not (float.eq x (float.decimal 0 0))
  truth (text s) = not (string_eq.same s "")
  truth (array nil) = false
  truth (array (cons v vs)) = true
  truth (object end) = false
  truth (object (member k v ms)) = true

  -- `base64.b64decode(v, validate=True)`
  unfoldable pub b64decode : Value R → Result (List ℕ)
  b64decode (text s) = py.b64decode s
  b64decode v = raised (type_error "argument should be a bytes-like object or ASCII string")

  -- `float(message.get("observed_at", 0.0))`
  abbrev pub observed_at_of : Option (Value R) → Result R
  observed_at_of none = ok (float.decimal 0 0)
  observed_at_of (some v) = float_of v

  module _ {P : Type 0} where
    unfoldable pub int_item : Fields R → String → Flow P ℤ
    int_item fields key = item fields key >>= λ v. attempt (int v)

    unfoldable pub float_item : Fields R → String → Flow P R
    float_item fields key = item fields key >>= λ v. attempt (float_of v)

    -- The chunk of an audio message.
    unfoldable pub read_audio : Fields R → Flow P AudioChunk
    read_audio fields = do
      encoded ← item fields "pcm_base64"
      payload ← attempt (b64decode encoded)
      tenant_id ← text_item fields "tenant_id"
      session_id ← text_item fields "session_id"
      client_epoch ← int_item fields "client_epoch"
      seq_no ← int_item fields "seq_no"
      start_ms ← int_item fields "start_ms"
      end_ms ← int_item fields "end_ms"
      sample_rate ← attempt (int (default_to (integer (pos 16000)) (get "sample_rate" fields)))
      channels ← attempt (int (default_to (integer (pos 1)) (get "channels" fields)))
      attempt (
          audio_chunk (record {
            tenant_id = tenant_id;
            session_id = session_id;
            client_epoch = client_epoch;
            seq_no = seq_no;
            start_ms = start_ms;
            end_ms = end_ms;
            pcm = payload;
            sample_rate = sample_rate;
            channels = channels;
            is_final = truth (default_to (boolean false) (get "is_final" fields));
          }))

    -- One item of `message["words"]`: a value that is no dict is not subscriptable by a text.
    unfoldable pub read_word : Value R → Flow P SttWord
    read_word (object ms) = do
      said ← text_item (members ms) "text"
      start_ms ← int_item (members ms) "start_ms"
      end_ms ← int_item (members ms) "end_ms"
      return (record { text = codes said; start_ms = start_ms; end_ms = end_ms })
    read_word v = attempt (raised (type_error "indices must be integers"))

    unfoldable pub read_words : List (Value R) → Flow P (List SttWord)
    read_words [] = return []
    read_words (v ∷ vs) = read_word v >>= λ word. read_words vs >>= λ words. return (word ∷ words)

    -- The generator over `message.get("words", ())`: the items of a text or a dict are texts.
    unfoldable pub read_all_words : Option (Value R) → Flow P (List SttWord)
    read_all_words none = return []
    read_all_words (some (array vs)) = read_words (items vs)
    read_all_words (some (object end)) = return []
    read_all_words (some (object (member k v ms))) =
        attempt (raised (type_error "string indices must be integers"))
    read_all_words (some (text s)) =
        if string_eq.same s ""
        then return []
        else attempt (raised (type_error "string indices must be integers"))
    read_all_words (some v) = attempt (raised (type_error "object is not iterable"))

    -- The segment of an stt message.
    unfoldable pub read_stt : Fields R → Flow P SttSegment
    read_stt fields = do
      words ← read_all_words (get "words" fields)
      tenant_id ← text_item fields "tenant_id"
      session_id ← text_item fields "session_id"
      segment_id ← text_item fields "segment_id"
      revision ← int_item fields "revision"
      said ← text_item fields "text"
      start_ms ← int_item fields "start_ms"
      end_ms ← int_item fields "end_ms"
      is_final ← item fields "is_final"
      return (record {
        tenant_id = tenant_id;
        session_id = session_id;
        segment_id = segment_id;
        revision = revision;
        text = codes said;
        start_ms = start_ms;
        end_ms = end_ms;
        is_final = truth is_final;
        words = words;
      })

    -- The sample of an autoscale message.
    unfoldable pub read_sample : Fields R → Flow P (ScalingSample R)
    read_sample fields = do
      arrival ← float_item fields "audio_arrival_seconds_per_second"
      real_time_factor ← float_item fields "real_time_factor"
      backlog_seconds ← float_item fields "backlog_seconds"
      queue_p95_ms ← float_item fields "queue_p95_ms"
      worker_utilization ← float_item fields "worker_utilization"
      current_replicas ← int_item fields "current_replicas"
      observed_at ← attempt (observed_at_of (get "observed_at" fields))
      return (record {
        audio_arrival_seconds_per_second = arrival;
        real_time_factor = real_time_factor;
        backlog_seconds = backlog_seconds;
        queue_p95_ms = queue_p95_ms;
        worker_utilization = worker_utilization;
        current_replicas = current_replicas;
        observed_at = observed_at;
      })
