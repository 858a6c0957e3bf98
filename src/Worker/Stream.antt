-- ===== src/Worker/Stream.antt =====
-- What the reader reads does not depend on how the pipe cuts the bytes into packets.
use cuebee_speaker_serving.Base.{
  ℕ, zero, suc, ◌-◌, ◌≤◌, ◌<◌, ◌≡◌, refl, sym, ◌∙◌, ◌≢◌, inl, inr, true, List, [], ◌∷◌, ◌++◌, arith,
  leb, length, take, drop, Bool-cases,
}
use cuebee_speaker_serving.Base.{length-append}
use cuebee_speaker_serving.Base.Split.{take-append_le, drop-append_le, take-append, drop-append}
use cuebee_speaker_serving.Base.Keep.{All}
use cuebee_speaker_serving.Domain.{ok}
use cuebee_speaker_serving.Worker.Wire.{Bytes, Pipe, closed, read_exact}

-- The bytes of a stream.
abbrev pub flat : Pipe → Bytes
flat [] = []
flat (packet ∷ stream) = packet ++ flat stream

-- No packet is empty: the pipe is open until its packets are read.
abbrev pub IsFilled : Pipe → Type 0
IsFilled = All (λ packet. packet ≢ [])

drop-ne-nil {ℓ} : {A : Type ℓ} (n : ℕ) (xs : List A) → n < length xs → drop n xs ≢ []
drop-ne-nil zero [] h = absurd (omega arith)
drop-ne-nil zero (x ∷ xs) h = λ e. cc
drop-ne-nil (suc n) [] h = absurd (omega arith)
drop-ne-nil (suc n) (x ∷ xs) h = drop-ne-nil n xs (omega arith)

-- A read that has its bytes.
pub record IsCut (stream : Pipe) (n : ℕ) : Type 0 where
  pub rest : Pipe
  pub result : read_exact stream n ≡ ok (take n (flat stream), rest)
  pub left : flat rest ≡ drop n (flat stream)
  pub filled : IsFilled rest

pub read_exact-IsCut :
    (stream : Pipe) (n : ℕ) → IsFilled stream → n ≤ length (flat stream) → IsCut stream n
unfolding read_exact
read_exact-IsCut [] zero f h = record { rest = []; result = refl; left = refl; filled = tt }
read_exact-IsCut [] (suc n) f h = absurd (omega arith)
read_exact-IsCut (packet ∷ stream) zero f h = record {
  rest = packet ∷ stream;
  result = refl;
  left = refl;
  filled = f;
}
read_exact-IsCut ([] ∷ stream) (suc n) f h = absurd (f.0 refl)
read_exact-IsCut ((b ∷ packet) ∷ stream) (suc n) f h = elim (Bool-cases (leb (length packet) n)) [
  | inl e ↦
      let within : length packet ≤ n = ground arith in
      let more =
        read_exact-IsCut stream (n - length packet) f.1
          (omega (arith, length-append packet (flat stream))) in
      record {
        rest = more.rest;
        result = rw (e, more.result, take-append n packet (flat stream) within);
        left = more.left ∙ sym (drop-append n packet (flat stream) within);
        filled = more.filled;
      }
  | inr e ↦
      let beyond : n < length packet = ground arith in
      record {
        rest = drop n packet ∷ stream;
        result = rw (e, take-append_le n packet (flat stream) (omega arith));
        left = sym (drop-append_le n packet (flat stream) (omega arith));
        filled = (drop-ne-nil n packet beyond, f.1);
      }
]

pub read_exact-closed :
    (stream : Pipe) (n : ℕ) → length (flat stream) < n → read_exact stream n ≡ closed
unfolding read_exact
read_exact-closed [] zero h = absurd (omega arith)
read_exact-closed [] (suc n) h = refl
read_exact-closed (packet ∷ stream) zero h = absurd (omega arith)
read_exact-closed ([] ∷ stream) (suc n) h = refl
read_exact-closed ((b ∷ packet) ∷ stream) (suc n) h =
    let within : leb (length packet) n ≡ true =
      ground (arith, length-append packet (flat stream)) in
    rw (
      within,
      read_exact-closed stream (n - length packet)
          (omega (arith, length-append packet (flat stream))),
    )
