-- ===== src/Store/SpeakerId.antt =====
-- The speaker identifiers `f"spk_{n:03d}"`, and the suffix that the SQLite store reads from one.
use mathlib.Core.List.{append_assoc, append-nil}
use cuebee_speaker_serving.Base.{
  ℕ, zero, suc, ◌+◌, ◌-◌, ◌*◌, ◌/◌, ◌%◌, ◌≤◌, ◌<◌, ◌≡◌, refl, sym, ap, ◌∙◌, Bool, true, false, ◌&&◌,
  List, [], ◌∷◌, ◌++◌, arith, ltb, leb, length, length-append, replicate, if◌then◌else◌, ◌==◌,
  Bool-cases, inl, inr, Option, none, some,
}
use cuebee_speaker_serving.Base.Keep.{All, All-append}
use cuebee_speaker_serving.Base.Text.{codes}
use cuebee_speaker_serving.Domain.{Result, ok, ◌>>=◌}

-- The decimal digits of `n`, with fuel; `suc n` rounds are enough.
unfoldable pub digits : ℕ → ℕ → List ℕ
digits zero n = []
digits (suc fuel) n =
    let rest = digits fuel (n / 10) ++ (48 + n % 10) ∷ [] in
    if ltb n 10 then (48 + n) ∷ [] else rest

-- `f"{n:03d}"`
unfoldable pub padded : ℕ → List ℕ
padded n = let d = digits (suc n) n in replicate (3 - length d) 48 ++ d

-- `f"spk_{next_id:03d}"`
unfoldable pub format_id : ℕ → List ℕ
format_id n = codes "spk_" ++ padded n

-- `s.split("_")[-1]`: what stands behind the last underscore; `field` is what stands before `s`
-- since the last one.
unfoldable pub last_field : List ℕ → List ℕ → List ℕ
last_field field [] = field
last_field field (c ∷ s) = last_field (if c == 95 then [] else field ++ c ∷ []) s

-- `str.isdigit`, which also holds of digits that are not of ASCII, and `int` of such a text, which
-- raises ValueError where it reads no number.
pub record Digits : Type 0 where
  pub isdigit : List ℕ → Bool
  pub int : List ℕ → Result ℕ

-- The number of the suffix, where `isdigit()` holds of it.
unfoldable pub suffix : ⦃digits : Digits⦄ → List ℕ → Result (Option ℕ)
unfolding last_field
suffix ⦃digits⦄ id =
    let field = last_field [] id in
    let read = digits.int field >>= λ n. ok (some n) in
    if digits.isdigit field then read else ok none

abbrev is_digit : ℕ → Bool
is_digit c = leb 48 c && leb c 57

unfoldable pub all_digits : List ℕ → Bool
all_digits [] = true
all_digits (c ∷ s) = is_digit c && all_digits s

-- The number that decimal digits write, behind `n`.
unfoldable pub int_of : ℕ → List ℕ → ℕ
int_of n [] = n
int_of n (c ∷ s) = int_of (n * 10 + (c - 48)) s

abbrev pub is_some_text : List ℕ → Bool
is_some_text [] = false
is_some_text (c ∷ s) = true

-- On digits of ASCII, at most 4300 of them, Python reads the number that they write.
pub record ReadsAscii (digits : Digits) : Type 0 where
  pub isdigit : (s : List ℕ) → is_some_text s ≡ true → all_digits s ≡ true → digits.isdigit s ≡ true
  pub int : (s : List ℕ) → all_digits s ≡ true → length s ≤ 4300 → digits.int s ≡ ok (int_of 0 s)

abbrev IsDigits : List ℕ → Type 0
IsDigits = All (λ c. (48 ≤ c) × (c ≤ 57))

digits-IsDigits : (fuel n : ℕ) → IsDigits (digits fuel n)
unfolding digits
digits-IsDigits zero n = tt
digits-IsDigits (suc fuel) n = elim (Bool-cases (ltb n 10)) [
  | inl e ↦ rw e ((omega arith, ground arith), tt)
  | inr e ↦ rw e (
      All-append _ (digits fuel (n / 10)) ((48 + n % 10) ∷ []) (digits-IsDigits fuel (n / 10))
        ((omega arith, omega arith), tt))
]

int_of-append : (n : ℕ) (s t : List ℕ) → int_of n (s ++ t) ≡ int_of (int_of n s) t
unfolding int_of
int_of-append n [] t = refl
int_of-append n (c ∷ s) t = int_of-append (n * 10 + (c - 48)) s t

int_of-digits : (fuel n : ℕ) → n < fuel → int_of 0 (digits fuel n) ≡ n
unfolding digits int_of
int_of-digits zero n h = absurd (omega arith)
int_of-digits (suc fuel) n h = elim (Bool-cases (ltb n 10)) [
  | inl e ↦ rw e (omega arith)
  | inr e ↦
      rw
        (
          e,
          int_of-append 0 (digits fuel (n / 10)) ((48 + n % 10) ∷ []),
          int_of-digits fuel (n / 10) (ground arith),
        )
        (omega arith)
]

zeros-IsDigits : (k : ℕ) → IsDigits (replicate k 48)
zeros-IsDigits zero = tt
zeros-IsDigits (suc k) = ((omega arith, omega arith), zeros-IsDigits k)

int_of-zeros : (k : ℕ) → int_of 0 (replicate k 48) ≡ 0
unfolding int_of
int_of-zeros zero = refl
int_of-zeros (suc k) = int_of-zeros k

padded-IsDigits : (n : ℕ) → IsDigits (padded n)
unfolding padded
padded-IsDigits n =
    All-append _ (replicate (3 - length (digits (suc n) n)) 48) (digits (suc n) n)
      (zeros-IsDigits (3 - length (digits (suc n) n))) (digits-IsDigits (suc n) n)

int_of-padded : (n : ℕ) → int_of 0 (padded n) ≡ n
unfolding padded
int_of-padded n =
    int_of-append 0 (replicate (3 - length (digits (suc n) n)) 48) (digits (suc n) n)
    ∙ rw (int_of-zeros (3 - length (digits (suc n) n))) (int_of-digits (suc n) n (omega arith))

last_field-IsDigits : (field s : List ℕ) → IsDigits s → last_field field s ≡ field ++ s
unfolding last_field
last_field-IsDigits field [] h = sym (append-nil field)
last_field-IsDigits field (c ∷ s) h =
    let plain : (c == 95) ≡ false = ground arith in
    rw plain (last_field-IsDigits (field ++ c ∷ []) s h.1 ∙ append_assoc field (c ∷ []) s)

all_digits-IsDigits : (s : List ℕ) → IsDigits s → all_digits s ≡ true
unfolding all_digits
all_digits-IsDigits [] h = refl
all_digits-IsDigits (c ∷ s) h = ground (arith, all_digits-IsDigits s h.1)

is_some_text-append : (s : List ℕ) (c : ℕ) (t : List ℕ) → is_some_text (s ++ c ∷ t) ≡ true
is_some_text-append [] c t = refl
is_some_text-append (x ∷ s) c t = refl

digits_some : (n : ℕ) → (c : ℕ) × (s : List ℕ) × (digits (suc n) n ≡ s ++ c ∷ [])
unfolding digits
digits_some n = elim (Bool-cases (ltb n 10)) [
  | inl e ↦ (48 + n, [], rw e)
  | inr e ↦ (48 + n % 10, digits n (n / 10), rw e)
]

padded_some : (n : ℕ) → is_some_text (padded n) ≡ true
unfolding padded
padded_some n =
    let (c, s, e) = digits_some n in
    let zeros = replicate (3 - length (digits (suc n) n)) 48 in
    let shape : zeros ++ digits (suc n) n ≡ (zeros ++ s) ++ c ∷ [] =
      ap (◌++◌ zeros) e ∙ sym (append_assoc zeros s (c ∷ [])) in
    ap is_some_text shape ∙ is_some_text-append (zeros ++ s) c []

last_field-format_id : (n : ℕ) → last_field [] (format_id n) ≡ padded n
unfolding format_id last_field
last_field-format_id n = last_field-IsDigits [] (padded n) (padded-IsDigits n)

unfoldable ten_to : ℕ → ℕ
ten_to zero = 1
ten_to (suc k) = 10 * ten_to k

length-digits : (fuel n k : ℕ) → n < ten_to k → length (digits fuel n) ≤ suc k
unfolding digits ten_to
length-digits zero n k h = omega arith
length-digits (suc fuel) n k h = elim (Bool-cases (ltb n 10)) [
  | inl e ↦ rw e (omega arith)
  | inr e ↦
      rw (e, length-append (digits fuel (n / 10)) ((48 + n % 10) ∷ []))
        (go k h e (λ k. length-digits fuel (n / 10) k))
]
  where
    go :
        (k : ℕ)
        → n < ten_to k
        → ltb n 10 ≡ false
        → ((k : ℕ) → n / 10 < ten_to k → length (digits fuel (n / 10)) ≤ suc k)
        → length (digits fuel (n / 10)) + 1 ≤ suc k
    go zero h e rest = absurd (ground arith)
    go (suc k) h e rest = let shorter = rest k (omega arith) in omega arith

length-replicate : (k c : ℕ) → length (replicate k c) ≡ k
length-replicate zero c = omega arith
length-replicate (suc k) c = let rest = length-replicate k c in omega arith

length-padded : (n : ℕ) → n < 9_223_372_036_854_775_808 → length (padded n) ≤ 4300
unfolding padded ten_to
length-padded n h =
    let d = digits (suc n) n in
    let most : length d ≤ 20 = length-digits (suc n) n 19 (omega arith) in
    rw (length-append (replicate (3 - length d) 48) d, length-replicate (3 - length d) 48)
      (omega arith)

-- Where Python reads ASCII digits as numbers: the suffix that the store reads from an identifier that
-- it wrote is the number it was made from, where that number is less than 2 ^ 63.
pub suffix-format_id :
    ⦃digits : Digits⦄
    → (n : ℕ) → ReadsAscii digits
    → n < 9_223_372_036_854_775_808
    → suffix (format_id n) ≡ ok (some n)
unfolding suffix
suffix-format_id n ascii h =
    let all = all_digits-IsDigits (padded n) (padded-IsDigits n) in
    rw
      (
        last_field-format_id n,
        ascii.isdigit (padded n) (padded_some n) all,
        ascii.int (padded n) all (length-padded n h),
      )
      (ap (λ k. ok (some k)) (int_of-padded n))

pub format_id_injective : (m n : ℕ) → format_id m ≡ format_id n → m ≡ n
format_id_injective m n e =
    sym (int_of-format_id m) ∙ ap (λ id. int_of 0 (last_field [] id)) e ∙ int_of-format_id n
  where
    int_of-format_id : (n : ℕ) → int_of 0 (last_field [] (format_id n)) ≡ n
    int_of-format_id n = ap (int_of 0) (last_field-format_id n) ∙ int_of-padded n
