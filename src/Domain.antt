-- ===== src/Domain.antt =====
-- src/cuebee_speaker/domain.py: the events that the layers exchange. A float is a value of a type
-- `R`, a numpy array a value of a type `V`, and `bytes` a list of numbers.
use cuebee_speaker_serving.Base.{
  ℕ, ◌%◌, ◌≡◌, refl, Bool, true, false, not, ◌||◌, String, List, Option, arith, length, ◌==◌,
  if◌then◌else◌,
}
use cuebee_speaker_serving.Base.Int.{ℤ, pos, negsuc, ltb_ℤ, ◌-ℤ◌, pos_part}
use cuebee_speaker_serving.Base.Eq.{string_eq}

-- The exceptions that the modelled code raises, with their messages.
pub data Error : Type 0 where
  value_error key_error index_error runtime_error overflow_error zero_division : String → Error
  invalid_state os_error struct_error assertion_error worker_unavailable worker_execution_error :
      String → Error
  type_error attribute_error : String → Error

-- What a call gives: its value, or the exception that it raises.
pub data Result {ℓ} (A : Type ℓ) : Type ℓ where
  raised : Error → Result A
  ok : A → Result A

module _ {ℓ κ} {A : Type ℓ} {B : Type κ} where
  infixl 5 ◌>>=◌
  abbrev pub ◌>>=◌ : Result A → (A → Result B) → Result B
  raised x >>= next = raised x
  ok a >>= next = next a

  -- A chain of steps succeeds only through the success of its first.
  pub >>=-eq-ok :
      (first : Result A) (next : A → Result B) {b : B}
      → (first >>= next) ≡ ok b
      → (a : A) × (first ≡ ok a) × (next a ≡ ok b)
  >>=-eq-ok (raised x) next h = absurd (ground arith)
  >>=-eq-ok (ok a) next h = (a, refl, h)

infixl 5 ◌>>◌
abbrev pub ◌>>◌ {κ} : {B : Type κ} → Result (Unit {0}) → Result B → Result B
raised x >> later = raised x
ok _ >> later = later

pub >>-eq-ok {κ} :
    {B : Type κ} (first : Result (Unit {0})) (later : Result B) {b : B}
    → (first >> later) ≡ ok b
    → later ≡ ok b
>>-eq-ok (raised x) later h = absurd (ground arith)
>>-eq-ok (ok _) later h = h

pub ok_injective {ℓ} : {A : Type ℓ} {a b : A} → ok a ≡ ok b → a ≡ b
ok_injective h = ground arith

-- What holds of the value, if there is one.
abbrev pub Returning : {A : Type 0} → (A → Type 0) → Result A → Type 0
Returning P (raised e) = Unit
Returning P (ok a) = P a

pub Returning->>= :
    {A B : Type 0} (P : B → Type 0) (first : Result A) (next : A → Result B)
    → ((a : A) → Returning P (next a))
    → Returning P (first >>= next)
Returning->>= P (raised e) next h = tt
Returning->>= P (ok a) next h = h a

pub Returning-if :
    {A : Type 0} (P : A → Type 0) (b : Bool) (m n : Result A)
    → Returning P m
    → Returning P n
    → Returning P (if b then m else n)
Returning-if P true m n h k = h
Returning-if P false m n h k = k

-- `if b: raise ValueError(s)`
abbrev pub refuse_if : Bool → String → Result (Unit {0})
refuse_if true s = raised (value_error s)
refuse_if false s = ok tt

pub data GatewayStatus : Type 0 where
  accepted gap_accepted duplicate stale_epoch : GatewayStatus

pub record GatewayDecision : Type 0 where
  pub status : GatewayStatus
  pub expected_next_seq : ℕ
  pub missing_range : Option (ℕ × ℕ)

-- The property `accepted`.
abbrev pub is_accepted : GatewayDecision → Bool
is_accepted d = elim d.status [
  | accepted ↦ true
  | gap_accepted ↦ true
  | duplicate ↦ false
  | stale_epoch ↦ false
]

-- The fields that the checks of `__post_init__` leave non-negative are natural numbers.
pub record AudioChunk : Type 0 where
  pub tenant_id : String
  pub session_id : String
  pub client_epoch : ℕ
  pub seq_no : ℕ
  pub start_ms : ℤ
  pub end_ms : ℤ
  pub pcm : List ℕ
  pub sample_rate : ℕ
  pub is_final : Bool

abbrev pub session_key : AudioChunk → String × String
session_key c = (c.tenant_id, c.session_id)

-- The keyword arguments of the constructor, before its checks.
pub record AudioArguments : Type 0 where
  pub tenant_id : String
  pub session_id : String
  pub client_epoch : ℤ
  pub seq_no : ℤ
  pub start_ms : ℤ
  pub end_ms : ℤ
  pub pcm : List ℕ
  pub sample_rate : ℤ
  pub channels : ℤ
  pub is_final : Bool

abbrev is_one : ℤ → Bool
is_one (pos n) = n == 1
is_one (negsuc n) = false

-- `AudioChunk.__post_init__`: the checks in their order.
unfoldable pub audio_chunk : AudioArguments → Result AudioChunk
audio_chunk a = do
  refuse_if (string_eq.same a.tenant_id "" || string_eq.same a.session_id "")
      "tenant_id and session_id are required"
  refuse_if (ltb_ℤ a.client_epoch (pos 0) || ltb_ℤ a.seq_no (pos 0))
      "client_epoch and seq_no must be non-negative"
  refuse_if (not (ltb_ℤ a.start_ms a.end_ms)) "end_ms must be greater than start_ms"
  refuse_if (not (ltb_ℤ (pos 0) a.sample_rate) || not (is_one a.channels))
      "only positive-rate mono audio is supported"
  refuse_if (not (length a.pcm % 2 == 0))
      "PCM signed 16-bit little-endian payload must have even length"
  ok (record {
    tenant_id = a.tenant_id;
    session_id = a.session_id;
    client_epoch = pos_part a.client_epoch;
    seq_no = pos_part a.seq_no;
    start_ms = a.start_ms;
    end_ms = a.end_ms;
    pcm = a.pcm;
    sample_rate = pos_part a.sample_rate;
    is_final = a.is_final;
  })

abbrev pub duration_ms : AudioChunk → ℤ
duration_ms c = c.end_ms -ℤ c.start_ms

pub record FeatureChunk (R V : Type 0) : Type 0 where
  pub tenant_id : String
  pub session_id : String
  pub chunk_id : List ℕ
  pub start_ms : ℤ
  pub end_ms : ℤ
  pub features : V
  pub speech_ratio : R

pub record EmbeddingResult (R V : Type 0) : Type 0 where
  pub chunk : FeatureChunk R V
  pub embedding : V
  pub quality : R
  pub worker_id : String
  pub batch_size : ℕ
  pub queue_delay_ms : R
  pub inference_ms : R

pub record SpeakerProfile (R V : Type 0) : Type 0 where
  pub tenant_id : String
  pub session_id : String
  pub speaker_id : List ℕ
  pub centroid : V
  pub sample_count : ℕ
  pub quality_ema : R
  pub last_active_ms : ℤ
  pub display_name : Option String

pub record SpeakerSegment (R : Type 0) : Type 0 where
  pub tenant_id : String
  pub session_id : String
  pub start_ms : ℤ
  pub end_ms : ℤ
  pub speaker_id : List ℕ
  pub confidence : R
  pub revision : ℕ

pub record SttWord : Type 0 where
  pub text : List ℕ
  pub start_ms : ℤ
  pub end_ms : ℤ

pub record SttSegment : Type 0 where
  pub tenant_id : String
  pub session_id : String
  pub segment_id : String
  pub revision : ℤ
  pub text : List ℕ
  pub start_ms : ℤ
  pub end_ms : ℤ
  pub is_final : Bool
  pub words : List SttWord

pub record AttributedTranscriptSpan : Type 0 where
  pub tenant_id : String
  pub session_id : String
  pub segment_id : String
  pub revision : ℤ
  pub speaker_id : List ℕ
  pub text : List ℕ
  pub start_ms : ℤ
  pub end_ms : ℤ
