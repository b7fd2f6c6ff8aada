-- ===== src/Common/Logger/Stamp.antt =====
-- `rfc3339_now` of backend/services/common/src/logger.cpp: the time stamp of a line. The time is
-- the system clock's, in nanoseconds since 1970 and not before; `std::put_time` on what `gmtime_r`
-- makes of seconds is a parameter.
use uaop.Base.{
  ℕ, zero, suc, ◌-◌, ◌/◌, ◌%◌, ◌^◌, ◌+◌, ◌<◌, ◌≡◌, refl, ◌∙◌, sym, true, [], ◌∷◌, ◌++◌, ◌==◌, arith,
  Bool-cases, inl, inr,
}
use uaop.Base.Decimal.{to_string, print_onto}
use uaop.Base.Lists.{length}
use uaop.Base.Text.{Bytes, codes, less}

-- `std::setfill('0')` with a count of zeros in front.
abbrev zeros_before : ℕ → Bytes → Bytes
zeros_before zero s = s
zeros_before (suc n) s = b'0' ∷ zeros_before n s

-- `std::setw`: the text is filled up to a width.
unfoldable pub filled : ℕ → Bytes → Bytes
filled width s = zeros_before (width - length s) s

module _ (put_time : ℕ → Bytes) where
  unfoldable pub rfc3339_now : ℕ → Bytes
  unfolding filled to_string
  rfc3339_now now =
      let ms = now / 10 ^ 6 % 1000 in
      let t = now / 10 ^ 9 in put_time t ++ (codes "." ++ (filled 3 (to_string ms) ++ codes "Z"))

-- The three digits of a number of milliseconds.
abbrev three_digits : ℕ → Bytes
three_digits n = (b'0' + n / 100) ∷ (b'0' + n / 10 % 10) ∷ (b'0' + n % 10) ∷ []

filled-print_onto :
    (f n : ℕ) → n < 1000 → filled 3 (print_onto (suc (suc (suc f))) n []) ≡ three_digits n
unfolding filled print_onto
filled-print_onto f n h = ground arith

filled-three_digits : (n : ℕ) → n < 1000 → filled 3 (to_string n) ≡ three_digits n
unfolding filled to_string
filled-three_digits zero h = ground arith
filled-three_digits (suc zero) h = ground arith
filled-three_digits (suc (suc m)) h = filled-print_onto m (suc (suc m)) h

less-three_digits :
    (m n : ℕ) (x y : Bytes)
    → m < n
    → n < 1000
    → less (three_digits m ++ x) (three_digits n ++ y) ≡ true
unfolding less
less-three_digits m n x y h k = ground arith

less-append :
    (s t x y : Bytes) → length s ≡ length t → less s t ≡ true → less (s ++ x) (t ++ y) ≡ true
unfolding less
less-append [] [] x y e h = ground arith
less-append [] (d ∷ t) x y e h = absurd (omega (arith, e))
less-append (c ∷ s) [] x y e h = ground arith
less-append (c ∷ s) (d ∷ t) x y e h = ground (arith, less-append s t x y)

less-same_front : (s x y : Bytes) → less (s ++ x) (s ++ y) ≡ less x y
unfolding less
less-same_front [] x y = refl
less-same_front (c ∷ s) x y = ground (arith, less-same_front s x y)

module _ (put_time : ℕ → Bytes) where
  less-same_second :
      (t m n : ℕ)
      → m < n
      → n < 1000
      → less
          (put_time t ++ (codes "." ++ (filled 3 (to_string m) ++ codes "Z")))
          (put_time t ++ (codes "." ++ (filled 3 (to_string n) ++ codes "Z")))
        ≡ true
  less-same_second t m n h k =
      less-same_front (put_time t) _ _
      ∙ rw (filled-three_digits m (omega arith), filled-three_digits n k)
          (less-same_front (codes ".") _ _ ∙ less-three_digits m n (codes "Z") (codes "Z") h k)

  -- Up to a time until which the texts of seconds are of one length and sort by time, as they are
  -- for years of four digits: of two times in different milliseconds, the stamp of the earlier one
  -- sorts before that of the later one.
  pub rfc3339_now-less :
      (limit a b : ℕ)
      → ((t : ℕ) → t < limit → length (put_time t) ≡ 19)
      → ((s t : ℕ) → s < t → t < limit → less (put_time s) (put_time t) ≡ true)
      → b / 10 ^ 9 < limit
      → a / 10 ^ 6 < b / 10 ^ 6
      → less (rfc3339_now put_time a) (rfc3339_now put_time b) ≡ true
  unfolding rfc3339_now
  rfc3339_now-less limit a b wide sorts early later = elim (Bool-cases (a / 10 ^ 9 == b / 10 ^ 9)) [
    | inl same ↦
        let second : a / 10 ^ 9 ≡ b / 10 ^ 9 = ground arith in
        rw second (
          less-same_second (b / 10 ^ 9) (a / 10 ^ 6 % 1000) (b / 10 ^ 6 % 1000) (omega arith)
            (omega arith))
    | inr differ ↦
        let before : a / 10 ^ 9 < b / 10 ^ 9 = ground arith in
        less-append (put_time (a / 10 ^ 9)) (put_time (b / 10 ^ 9)) _ _
          (wide (a / 10 ^ 9) (omega arith) ∙ sym (wide (b / 10 ^ 9) early))
          (sorts (a / 10 ^ 9) (b / 10 ^ 9) before early)
  ]
