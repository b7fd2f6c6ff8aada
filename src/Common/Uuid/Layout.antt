-- ===== src/Common/Uuid/Layout.antt =====
-- A reader of UUIDs gets the fields of RFC 9562 back from the text.
use Prim.Native.Nat.{bit_and, bit_or}
use uaop.Base.{
  ℕ, zero, suc, ◌+◌, ◌*◌, ◌/◌, ◌%◌, ◌^◌, ◌<◌, ◌≡◌, refl, ◌∙◌, ap, Bool-cases, inl, inr, [], ◌∷◌,
  Option, none, some, if◌then◌else◌, arith,
}
use uaop.Base.Bits.{bit_and-ones, bit_or_version, bit_or_variant}
use uaop.Base.Lists.{All, length}
use uaop.Base.Text.{Bytes, strip_prefix}
use uaop.Common.Json.{hex_value, then_read}
use uaop.Common.Uuid.{byte_at, uuid_bytes, hex_char, is_group_start, print_bytes, uuid_v7}

abbrev pub IsByte : ℕ → Type 0
IsByte b = b < 256

-- Two hexadecimal digits, and what follows.
abbrev pub read_byte : Bytes → Option (ℕ × Bytes)
read_byte [] = none
read_byte (c ∷ []) = none
read_byte (c ∷ d ∷ s) =
    then_read (hex_value c) (λ high. then_read (hex_value d) (λ low. some (high * 16 + low, s)))

-- The `n` bytes from the one at `i` on, with a dash before each group but the first.
unfoldable pub read_bytes : ℕ → ℕ → Bytes → Option Bytes
read_bytes zero i [] = some []
read_bytes zero i (c ∷ s) = none
read_bytes (suc n) i s =
    then_read (if is_group_start i then strip_prefix (b'-' ∷ []) s else some s) (λ s1.
      then_read (read_byte s1)
        (λ (b, s2). then_read (read_bytes n (suc i) s2) (λ bs. some (b ∷ bs))))

pub low_nibble : (b : ℕ) → bit_and b 0x0f ≡ b % 16
low_nibble b = bit_and-ones 4 b

hex_value-hex_char : (d : ℕ) → d < 16 → hex_value (hex_char d) ≡ some d
unfolding hex_value hex_char
hex_value-hex_char d h = ground arith

read_byte-hex_char :
    (b : ℕ) (s : Bytes)
    → IsByte b
    → read_byte (hex_char (bit_and (b / 2 ^ 4) 0x0f) ∷ hex_char (bit_and b 0x0f) ∷ s) ≡ some (b, s)
read_byte-hex_char b s h =
    rw (low_nibble (b / 2 ^ 4), low_nibble b)
      (rw
        (hex_value-hex_char (b / 16 % 16) (omega arith), hex_value-hex_char (b % 16) (omega arith))
        (ap (λ n. some (n, s)) (omega arith)))

read_bytes-print_bytes :
    (i : ℕ) (bs : Bytes) → All IsByte bs → read_bytes (length bs) i (print_bytes i bs) ≡ some bs
unfolding read_bytes print_bytes
read_bytes-print_bytes i [] h = refl
read_bytes-print_bytes i (b ∷ bs) h = elim (Bool-cases (is_group_start i)) [
  | inl dash ↦ rw dash (
      rw (read_byte-hex_char b (print_bytes (suc i) bs) h.0)
        (rw (read_bytes-print_bytes (suc i) bs h.1) refl))
  | inr none_here ↦ rw none_here (
      rw (read_byte-hex_char b (print_bytes (suc i) bs) h.0)
        (rw (read_bytes-print_bytes (suc i) bs h.1) refl))
]

-- The fields of RFC 9562, section 5.7.
pub record Fields : Type 0 where
  pub unix_ts_ms : ℕ
  pub ver : ℕ
  pub rand_a : ℕ
  pub var : ℕ
  pub rand_b : ℕ

-- A number from its bytes, the highest first.
abbrev pub from_bytes : ℕ → Bytes → ℕ
from_bytes acc [] = acc
from_bytes acc (b ∷ bs) = from_bytes (acc * 256 + b) bs

abbrev pub fields : Bytes → Option Fields
fields (m0 ∷ m1 ∷ m2 ∷ m3 ∷ m4 ∷ m5 ∷ a0 ∷ a1 ∷ b0 ∷ bs) = some (record {
  unix_ts_ms = from_bytes 0 (m0 ∷ m1 ∷ m2 ∷ m3 ∷ m4 ∷ m5 ∷ []);
  ver = a0 / 16;
  rand_a = a0 % 16 * 256 + a1;
  var = b0 / 64;
  rand_b = from_bytes (b0 % 64) bs;
})
fields _ = none

unfoldable pub read_uuid : Bytes → Option Fields
unfolding read_bytes
read_uuid s = then_read (read_bytes 16 0 s) fields

-- What each byte holds.
byte_at_lem : (v k : ℕ) → byte_at v k ≡ v / 2 ^ k % 256
byte_at_lem v k = rw (bit_and-ones 8 (v / 2 ^ k)) (omega arith)

low_byte : (v : ℕ) → bit_and v 0xff % 256 ≡ v % 256
low_byte v = rw (bit_and-ones 8 v) (omega arith)

version_byte :
    (rand_a : ℕ) → bit_or 0x70 (bit_and (rand_a / 2 ^ 8) 0x0f) % 256 ≡ 0x70 + rand_a / 2 ^ 8 % 16
version_byte rand_a =
    rw (low_nibble (rand_a / 2 ^ 8))
      (rw (bit_or_version (rand_a / 2 ^ 8 % 16) (omega arith)) (omega arith))

variant_byte :
    (rand_b : ℕ) → bit_or 0x80 (bit_and (rand_b / 2 ^ 56) 0x3f) % 256 ≡ 0x80 + rand_b / 2 ^ 56 % 64
variant_byte rand_b =
    rw (bit_and-ones 6 (rand_b / 2 ^ 56))
      (rw (bit_or_variant (rand_b / 2 ^ 56 % 64) (omega arith)) (omega arith))

-- The bytes without masks, from the fields.
unfoldable pub field_bytes : ℕ → ℕ → ℕ → Bytes
field_bytes ms rand_a rand_b =
    (ms / 2 ^ 40 % 256)
    ∷ (ms / 2 ^ 32 % 256)
    ∷ (ms / 2 ^ 24 % 256)
    ∷ (ms / 2 ^ 16 % 256)
    ∷ (ms / 2 ^ 8 % 256)
    ∷ (ms % 256)
    ∷ (0x70 + rand_a / 2 ^ 8 % 16)
    ∷ (rand_a % 256)
    ∷ (0x80 + rand_b / 2 ^ 56 % 64)
    ∷ (rand_b / 2 ^ 48 % 256)
    ∷ (rand_b / 2 ^ 40 % 256)
    ∷ (rand_b / 2 ^ 32 % 256)
    ∷ (rand_b / 2 ^ 24 % 256)
    ∷ (rand_b / 2 ^ 16 % 256)
    ∷ (rand_b / 2 ^ 8 % 256)
    ∷ (rand_b % 256)
    ∷ []

pub uuid_bytes-field_bytes :
    (ms draw_a draw_b : ℕ)
    → uuid_bytes ms draw_a draw_b ≡ field_bytes ms (draw_a % 2 ^ 12) (draw_b % 2 ^ 62)
unfolding uuid_bytes field_bytes
uuid_bytes-field_bytes ms draw_a draw_b =
    rw (bit_and-ones 12 draw_a, bit_and-ones 62 draw_b)
      (rw
        (
          low_byte ms,
          low_byte (draw_a % 2 ^ 12),
          low_byte (draw_b % 2 ^ 62),
          version_byte (draw_a % 2 ^ 12),
          variant_byte (draw_b % 2 ^ 62),
          byte_at_lem ms 40,
          byte_at_lem ms 32,
          byte_at_lem ms 24,
          byte_at_lem ms 16,
          byte_at_lem ms 8,
          byte_at_lem (draw_b % 2 ^ 62) 48,
          byte_at_lem (draw_b % 2 ^ 62) 40,
          byte_at_lem (draw_b % 2 ^ 62) 32,
          byte_at_lem (draw_b % 2 ^ 62) 24,
          byte_at_lem (draw_b % 2 ^ 62) 16,
          byte_at_lem (draw_b % 2 ^ 62) 8,
        )
        refl)

pub field_bytes-IsByte : (ms rand_a rand_b : ℕ) → All IsByte (field_bytes ms rand_a rand_b)
unfolding field_bytes
field_bytes-IsByte ms rand_a rand_b = omega arith

fields-field_bytes :
    (ms rand_a rand_b : ℕ)
    → rand_a < 2 ^ 12
    → rand_b < 2 ^ 62
    → fields (field_bytes ms rand_a rand_b)
      ≡ some
          (record { unix_ts_ms = ms % 2 ^ 48; ver = 7; rand_a = rand_a; var = 2; rand_b = rand_b })
unfolding field_bytes
fields-field_bytes ms rand_a rand_b ha hb = ground arith

-- A reader of the canonical text of a UUID gets back the 48 low bits of the time, version 7,
-- variant 2, and the 12 and 62 low bits of the two draws, whatever the clock and the generator
-- return.
pub read_uuid-uuid_v7 :
    (ms draw_a draw_b : ℕ)
    → read_uuid (uuid_v7 ms draw_a draw_b)
      ≡ some (record {
        unix_ts_ms = ms % 2 ^ 48;
        ver = 7;
        rand_a = draw_a % 2 ^ 12;
        var = 2;
        rand_b = draw_b % 2 ^ 62;
      })
unfolding read_uuid uuid_v7 field_bytes
read_uuid-uuid_v7 ms draw_a draw_b =
    let rand_a = draw_a % 2 ^ 12 in
    let rand_b = draw_b % 2 ^ 62 in
    ap (λ s. then_read (read_bytes 16 0 (print_bytes 0 s)) fields)
      (uuid_bytes-field_bytes ms draw_a draw_b)
    ∙ ap (λ r. then_read r fields)
        (read_bytes-print_bytes 0 (field_bytes ms rand_a rand_b)
          (field_bytes-IsByte ms rand_a rand_b))
    ∙ fields-field_bytes ms rand_a rand_b (omega arith) (omega arith)
