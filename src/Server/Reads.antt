-- ===== src/Server/Reads.antt =====
-- Readers of a message leave the runtime alone, and the texts that they return are fields of it.
use cuebee_speaker_serving.Base.{
  ◌≡◌, refl, ◌∙◌, sym, subst, ap, String, List, [], ◌∷◌, Option, none, some, arith, Bool, true,
  false, if◌then◌else◌,
}
use cuebee_speaker_serving.Base.Dict.{get}
use cuebee_speaker_serving.Base.Eq.{string_eq}
use cuebee_speaker_serving.Base.Float.{Float}
use cuebee_speaker_serving.Base.Int.{pos}
use cuebee_speaker_serving.Domain.{
  Error, Result, ok, raised, AudioArguments, AudioChunk, SttSegment, audio_chunk,
}
use cuebee_speaker_serving.Pipeline.Effects.{Flow, return, attempt, continued, ◌>>=◌}
use cuebee_speaker_serving.Server.Json.{
  Value, null, boolean, integer, number, text, array, object, end, member, items, members,
}
use cuebee_speaker_serving.Server.Messages.{
  Conversions, Fields, int, b64decode, default_to, observed_at_of, present, item, as_text,
  text_item, int_item, float_item, read_audio, read_word, read_words, read_all_words, read_stt,
  read_sample,
}

-- What a call comes to: `K` holds of the state behind an exception, and `Q` of a value with the
-- state behind it.
pub data Gives {P B : Type 0} (K : P → Type 0) (Q : B → P → Type 0)
    : Option (Result B × P) → Type 0 where
  endless : Gives K Q none
  raises : {e : Error} {p : P} → K p → Gives K Q (some (raised e, p))
  returns : {b : B} {p : P} → Q b p → Gives K Q (some (ok b, p))

module _ {P B C : Type 0} {K : P → Type 0} where
  pub Gives-continued :
      {Q : B → P → Type 0} {T : C → P → Type 0} {o : Option (Result B × P)} {next : B → Flow P C}
      → Gives K Q o
      → ((b : B) (p : P) → Q b p → Gives K T (next b p))
      → Gives K T (continued o next)
  Gives-continued endless h = endless
  Gives-continued (raises k) h = raises k
  Gives-continued (returns q) h = h _ _ q

-- The call leaves the state alone, and `Q` holds of its value.
pub record Reads {P B : Type 0} (Q : B → Type 0) (m : Flow P B) : Type 0 where
  pub at : (p : P) → Gives (λ q. q ≡ p) (λ b q. (q ≡ p) × Q b) (m p)

abbrev pub Any : {B : Type 0} → B → Type 0
Any b = Unit

module _ {P B C : Type 0} {Q : B → Type 0} {T : C → Type 0} where
  pub Reads-bind :
      {m : Flow P B} {f : B → Flow P C}
      → Reads Q m
      → ((b : B) → Q b → Reads T (f b))
      → Reads T (m >>= f)
  Reads-bind {m} {f} r h = record {
    at = λ p. Gives-continued (r.at p) (λ b q e. moved q p e.0 ((h b e.1).at q));
  }
    where
      moved :
          (q p : P)
          → q ≡ p
          → {o : Option (Result C × P)} → Gives (λ s. s ≡ q) (λ c s. (s ≡ q) × T c) o
          → Gives (λ s. s ≡ p) (λ c s. (s ≡ p) × T c) o
      moved q p e endless = endless
      moved q p e (raises k) = raises (k ∙ e)
      moved q p e (returns k) = returns (k.0 ∙ e, k.1)

module _ {P B : Type 0} {Q : B → Type 0} where
  pub Reads-attempt : (r : Result B) → ((b : B) → r ≡ ok b → Q b) → Reads {P = P} Q (attempt r)
  Reads-attempt (raised e) h = record { at = λ p. raises refl }
  Reads-attempt (ok b) h = record { at = λ p. returns (refl, h b refl) }

  pub Reads-return : (b : B) → Q b → Reads {P = P} Q (return b)
  Reads-return b h = record { at = λ p. returns (refl, h) }

module _ {P B : Type 0} where
  pub Reads-Any : (r : Result B) → Reads {P = P} Any (attempt r)
  Reads-Any r = Reads-attempt r (λ b h. tt)

-- The field of the message is this text.
abbrev pub HasText : {R : Type 0} → Fields R → String → String → Type 0
HasText fields key s = get key fields ≡ some (text s)

module _ {R P : Type 0} where
  pub item-Reads :
      (fields : Fields R) (key : String)
      → Reads {P = P} (λ v. get key fields ≡ some v) (item fields key)
  unfolding item
  item-Reads fields key = Reads-attempt (present key (get key fields)) (from (get key fields))
    where
      from : (o : Option (Value R)) (v : Value R) → present key o ≡ ok v → o ≡ some v
      from none v h = absurd (ground arith)
      from (some w) v h = ground arith

  as_text-Reads : (v : Value R) → Reads {P = P} (λ s. some v ≡ some (text s)) (as_text v)
  unfolding as_text
  as_text-Reads (text s) = record { at = λ p. returns (refl, refl) }
  as_text-Reads null = record { at = λ p. endless }
  as_text-Reads (boolean b) = record { at = λ p. endless }
  as_text-Reads (integer n) = record { at = λ p. endless }
  as_text-Reads (number x) = record { at = λ p. endless }
  as_text-Reads (array vs) = record { at = λ p. endless }
  as_text-Reads (object ms) = record { at = λ p. endless }

  pub text_item-Reads :
      (fields : Fields R) (key : String) → Reads {P = P} (HasText fields key) (text_item fields key)
  unfolding text_item
  text_item-Reads fields key = Reads-bind (item-Reads fields key) (λ v e.
      subst (λ o. Reads {P = P} (λ s. o ≡ some (text s)) (as_text v)) (sym e) (as_text-Reads v))

-- A chunk's tenant and session are texts of the message.
abbrev pub IsOfMessage : {R : Type 0} → Fields R → AudioChunk → Type 0
IsOfMessage fields c =
    HasText fields "tenant_id" c.tenant_id × HasText fields "session_id" c.session_id

-- So are an event's.
abbrev pub IsEventOfMessage : {R : Type 0} → Fields R → SttSegment → Type 0
IsEventOfMessage fields e =
    HasText fields "tenant_id" e.tenant_id × HasText fields "session_id" e.session_id

audio_chunk-keys :
    (a : AudioArguments) (c : AudioChunk)
    → audio_chunk a ≡ ok c
    → (c.tenant_id ≡ a.tenant_id) × (c.session_id ≡ a.session_id)
unfolding audio_chunk
audio_chunk-keys a c h = ground arith

module _ {R P : Type 0} ⦃float : Float R⦄ (py : Conversions R) where
  int_item-Reads : (fields : Fields R) (key : String) → Reads {P = P} Any (int_item py fields key)
  unfolding int_item
  int_item-Reads fields key = Reads-bind (item-Reads fields key) (λ v e. Reads-Any _)

  pub read_audio-Reads :
      (fields : Fields R) → Reads {P = P} (IsOfMessage fields) (read_audio py fields)
  unfolding read_audio
  read_audio-Reads fields = Reads-bind (item-Reads fields "pcm_base64") (λ encoded _.
      Reads-bind (Reads-Any (b64decode py encoded)) (λ payload _.
        Reads-bind (text_item-Reads fields "tenant_id") (λ tenant_id ht.
          Reads-bind (text_item-Reads fields "session_id") (λ session_id hs.
            Reads-bind (int_item-Reads fields "client_epoch") (λ client_epoch _.
              Reads-bind (int_item-Reads fields "seq_no") (λ seq_no _.
                Reads-bind (int_item-Reads fields "start_ms") (λ start_ms _.
                  Reads-bind (int_item-Reads fields "end_ms") (λ end_ms _.
                    Reads-bind
                      (Reads-Any
                        (int py (default_to (integer (pos 16000)) (get "sample_rate" fields))))
                      (λ sample_rate _.
                        Reads-bind
                          (Reads-Any
                            (int py (default_to (integer (pos 1)) (get "channels" fields))))
                          (λ channels _. Reads-attempt _ (λ c e.
                            let (t, k) = audio_chunk-keys _ c e in
                            (
                              ht ∙ ap (λ s. some (text s)) (sym t),
                              hs ∙ ap (λ s. some (text s)) (sym k),
                            ))))))))))))

  read_word-Reads : (v : Value R) → Reads {P = P} Any (read_word py v)
  unfolding read_word
  read_word-Reads (object ms) = Reads-bind (text_item-Reads (members ms) "text") (λ said _.
      Reads-bind (int_item-Reads (members ms) "start_ms") (λ start_ms _.
        Reads-bind (int_item-Reads (members ms) "end_ms") (λ end_ms _. Reads-return _ tt)))
  read_word-Reads null = Reads-Any _
  read_word-Reads (boolean b) = Reads-Any _
  read_word-Reads (integer n) = Reads-Any _
  read_word-Reads (number x) = Reads-Any _
  read_word-Reads (text s) = Reads-Any _
  read_word-Reads (array vs) = Reads-Any _

  read_words-Reads : (vs : List (Value R)) → Reads {P = P} Any (read_words py vs)
  unfolding read_words
  read_words-Reads [] = Reads-return [] tt
  read_words-Reads (v ∷ vs) =
      Reads-bind (read_word-Reads v)
        (λ word _. Reads-bind (read_words-Reads vs) (λ words _. Reads-return (word ∷ words) tt))

  Reads-if :
      {B : Type 0} {Q : B → Type 0} (b : Bool) (m n : Flow P B)
      → Reads Q m
      → Reads Q n
      → Reads Q (if b then m else n)
  Reads-if true m n h k = h
  Reads-if false m n h k = k

  read_all_words-Reads : (o : Option (Value R)) → Reads {P = P} Any (read_all_words py o)
  unfolding read_all_words
  read_all_words-Reads none = Reads-return [] tt
  read_all_words-Reads (some (array vs)) = read_words-Reads (items vs)
  read_all_words-Reads (some (object end)) = Reads-return [] tt
  read_all_words-Reads (some (object (member k v ms))) = Reads-Any _
  read_all_words-Reads (some (text s)) = Reads-if _ _ _ (Reads-return [] tt) (Reads-Any _)
  read_all_words-Reads (some null) = Reads-Any _
  read_all_words-Reads (some (boolean b)) = Reads-Any _
  read_all_words-Reads (some (integer n)) = Reads-Any _
  read_all_words-Reads (some (number x)) = Reads-Any _

  pub read_stt-Reads :
      (fields : Fields R) → Reads {P = P} (IsEventOfMessage fields) (read_stt py fields)
  unfolding read_stt
  read_stt-Reads fields = Reads-bind (read_all_words-Reads (get "words" fields)) (λ words _.
      Reads-bind (text_item-Reads fields "tenant_id") (λ tenant_id ht.
        Reads-bind (text_item-Reads fields "session_id") (λ session_id hk.
          Reads-bind (text_item-Reads fields "segment_id") (λ segment_id _.
            Reads-bind (int_item-Reads fields "revision") (λ revision _.
              Reads-bind (text_item-Reads fields "text") (λ said _.
                Reads-bind (int_item-Reads fields "start_ms") (λ start_ms _.
                  Reads-bind (int_item-Reads fields "end_ms") (λ end_ms _.
                    Reads-bind (item-Reads fields "is_final")
                      (λ is_final _. Reads-return _ (ht, hk))))))))))

  float_item-Reads :
      (fields : Fields R) (key : String) → Reads {P = P} Any (float_item py fields key)
  unfolding float_item
  float_item-Reads fields key = Reads-bind (item-Reads fields key) (λ v e. Reads-Any _)

  pub read_sample-Reads : (fields : Fields R) → Reads {P = P} Any (read_sample py fields)
  unfolding read_sample
  read_sample-Reads fields =
      Reads-bind (float_item-Reads fields "audio_arrival_seconds_per_second") (λ arrival _.
        Reads-bind (float_item-Reads fields "real_time_factor") (λ factor _.
          Reads-bind (float_item-Reads fields "backlog_seconds") (λ backlog _.
            Reads-bind (float_item-Reads fields "queue_p95_ms") (λ queue _.
              Reads-bind (float_item-Reads fields "worker_utilization") (λ utilization _.
                Reads-bind (int_item-Reads fields "current_replicas") (λ replicas _.
                  Reads-bind (Reads-Any (observed_at_of py (get "observed_at" fields)))
                    (λ observed_at _. Reads-return _ tt)))))))
