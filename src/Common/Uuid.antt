-- ===== src/Common/Uuid.antt =====
-- backend/services/common/include/uaop/common/uuid.h: UUIDv7. The clock's milliseconds and the two
-- draws of the random numbers, each below 2^64, are arguments.
pub mod Layout
pub mod Order
mod Tests
use uaop.Base.{
  ℕ, suc, ◌+◌, ◌/◌, ◌%◌, ◌^◌, Bool, ◌||◌, List, [], ◌∷◌, ◌++◌, ltb, ◌==◌, if◌then◌else◌,
}
use Prim.Native.Nat.{bit_and, bit_or}
use uaop.Base.Text.{Bytes}

-- `(v >> k) & 0xFF` as a byte.
abbrev pub byte_at : ℕ → ℕ → ℕ
byte_at v k = bit_and (v / 2 ^ k) 0xff % 256

-- The array `b`.
unfoldable pub uuid_bytes : ℕ → ℕ → ℕ → Bytes
uuid_bytes ms draw_a draw_b =
    let rand_a = bit_and draw_a 0x0fff in
    let rand_b = bit_and draw_b 0x3fffffffffffffff in
    byte_at ms 40
    ∷ byte_at ms 32
    ∷ byte_at ms 24
    ∷ byte_at ms 16
    ∷ byte_at ms 8
    ∷ (bit_and ms 0xff % 256)
    ∷ (bit_or 0x70 (bit_and (rand_a / 2 ^ 8) 0x0f) % 256)
    ∷ (bit_and rand_a 0xff % 256)
    ∷ (bit_or 0x80 (bit_and (rand_b / 2 ^ 56) 0x3f) % 256)
    ∷ byte_at rand_b 48
    ∷ byte_at rand_b 40
    ∷ byte_at rand_b 32
    ∷ byte_at rand_b 24
    ∷ byte_at rand_b 16
    ∷ byte_at rand_b 8
    ∷ (bit_and rand_b 0xff % 256)
    ∷ []

-- `kHex[d]`.
unfoldable pub hex_char : ℕ → ℕ
hex_char d = if ltb d 10 then b'0' + d else 87 + d

abbrev pub is_group_start : ℕ → Bool
is_group_start i = i == 4 || i == 6 || i == 8 || i == 10

-- The loop from `i` on.
unfoldable pub print_bytes : ℕ → Bytes → Bytes
print_bytes i [] = []
print_bytes i (b ∷ bs) =
    (if is_group_start i then b'-' ∷ [] else [])
    ++ (hex_char (bit_and (b / 2 ^ 4) 0x0f) ∷ hex_char (bit_and b 0x0f) ∷ print_bytes (suc i) bs)

unfoldable pub uuid_v7 : ℕ → ℕ → ℕ → Bytes
unfolding uuid_bytes print_bytes hex_char
uuid_v7 ms draw_a draw_b = print_bytes 0 (uuid_bytes ms draw_a draw_b)
