-- ===== src/Common/Uuid/Order.antt =====
-- UUIDs sort by time as texts.
use Prim.Native.Nat.{bit_and}
use uaop.Base.{
  ℕ, suc, ◌/◌, ◌%◌, ◌^◌, ◌<◌, ◌≤◌, ◌≡◌, refl, ◌∙◌, ap, true, [], ◌∷◌, ◌==◌, ltb, if◌then◌else◌,
  arith, Bool-cases, inl, inr,
}
use uaop.Base.Lists.{All}
use uaop.Base.Text.{Bytes, less}
use uaop.Common.Uuid.{uuid_bytes, hex_char, is_group_start, print_bytes, uuid_v7}
use uaop.Common.Uuid.Layout.{
  IsByte, low_nibble, field_bytes, uuid_bytes-field_bytes, field_bytes-IsByte,
}

hex_char-lt : (d e : ℕ) → d < e → e < 16 → hex_char d < hex_char e
unfolding hex_char
hex_char-lt d e h k = ground arith

less-hex_char :
    (b c : ℕ) (s t : Bytes)
    → IsByte b
    → IsByte c
    → less
        (hex_char (bit_and (b / 2 ^ 4) 0x0f) ∷ hex_char (bit_and b 0x0f) ∷ s)
        (hex_char (bit_and (c / 2 ^ 4) 0x0f) ∷ hex_char (bit_and c 0x0f) ∷ t)
      ≡ (if b == c then less s t else ltb b c)
unfolding less
less-hex_char b c s t hb hc =
    rw (low_nibble (b / 2 ^ 4), low_nibble b, low_nibble (c / 2 ^ 4), low_nibble c)
      (ground (
        arith,
        hex_char-lt (b / 16 % 16) (c / 16 % 16),
        hex_char-lt (c / 16 % 16) (b / 16 % 16),
        hex_char-lt (b % 16) (c % 16),
        hex_char-lt (c % 16) (b % 16),
      ))

-- The texts of bytes are ordered as the bytes.
less-print_bytes :
    (i : ℕ) (bs cs : Bytes)
    → All IsByte bs
    → All IsByte cs
    → less (print_bytes i bs) (print_bytes i cs) ≡ less bs cs
unfolding less print_bytes
less-print_bytes i [] [] h k = refl
less-print_bytes i [] (c ∷ cs) h k = ground arith
less-print_bytes i (b ∷ bs) [] h k = ground arith
less-print_bytes i (b ∷ bs) (c ∷ cs) h k =
    let step =
      less-hex_char b c (print_bytes (suc i) bs) (print_bytes (suc i) cs) h.0 k.0
      ∙ ap (λ r. if b == c then r else ltb b c) (less-print_bytes (suc i) bs cs h.1 k.1) in
    elim (Bool-cases (is_group_start i)) [
      | inl dash ↦ rw dash step
      | inr none_here ↦ rw none_here step
    ]

less_next :
    (p q : ℕ) (s t : Bytes)
    → p / 256 ≡ q / 256
    → p ≤ q
    → (p ≡ q → less s t ≡ true)
    → less ((p % 256) ∷ s) ((q % 256) ∷ t) ≡ true
unfolding less
less_next p q s t e h later = elim (Bool-cases (p == q)) [
  | inl same ↦ let eq : p ≡ q = ground arith in rw eq (ground (arith, later eq))
  | inr differ ↦ ground arith
]

less-field_bytes :
    (ms later a b c d : ℕ)
    → ms < later
    → later < 2 ^ 48
    → less (field_bytes ms a b) (field_bytes later c d) ≡ true
unfolding field_bytes
less-field_bytes ms later a b c d h k =
    less_next (ms / 2 ^ 40) (later / 2 ^ 40) _ _ (omega arith) (omega arith) (λ e5.
      less_next (ms / 2 ^ 32) (later / 2 ^ 32) _ _ (omega arith) (omega arith) (λ e4.
        less_next (ms / 2 ^ 24) (later / 2 ^ 24) _ _ (omega arith) (omega arith) (λ e3.
          less_next (ms / 2 ^ 16) (later / 2 ^ 16) _ _ (omega arith) (omega arith) (λ e2.
            less_next (ms / 2 ^ 8) (later / 2 ^ 8) _ _ (omega arith) (omega arith) (λ e1.
              less_next ms later _ _ (omega arith) (omega arith) (λ e0. absurd (omega arith)))))))

uuid_bytes-IsByte : (ms a b : ℕ) → All IsByte (uuid_bytes ms a b)
uuid_bytes-IsByte ms a b =
    rw (uuid_bytes-field_bytes ms a b) (field_bytes-IsByte ms (a % 2 ^ 12) (b % 2 ^ 62))

-- Of two UUIDs the one made in an earlier millisecond is smaller as a text, whatever was drawn,
-- as long as the clock stays below 2^48 ms (the year 10889).
pub uuid_v7-less :
    (ms later a b c d : ℕ)
    → ms < later
    → later < 2 ^ 48
    → less (uuid_v7 ms a b) (uuid_v7 later c d) ≡ true
unfolding uuid_v7
uuid_v7-less ms later a b c d h k =
    less-print_bytes 0 (uuid_bytes ms a b) (uuid_bytes later c d) (uuid_bytes-IsByte ms a b)
      (uuid_bytes-IsByte later c d)
    ∙ rw (uuid_bytes-field_bytes ms a b, uuid_bytes-field_bytes later c d)
        (less-field_bytes ms later (a % 2 ^ 12) (b % 2 ^ 62) (c % 2 ^ 12) (d % 2 ^ 62) h k)
