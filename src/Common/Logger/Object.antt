-- ===== src/Common/Logger/Object.antt =====
-- A reader of flat JSON objects, for the lines of the logger.
use mathlib.Core.List.{append_assoc}
use uaop.Base.{
  ℕ, zero, suc, ◌≤◌, ◌≡◌, ◌∙◌, refl, ap, Bool, true, false, ◌||◌, List, [], ◌∷◌, ◌++◌, Option, some,
  none, ◌==◌, if◌then◌else◌, arith,
}
use uaop.Base.Lists.{All, length, length-append, flat_map}
use uaop.Base.Text.{Bytes, codes, strip_prefix}
use uaop.Common.Json.{read_json, then_read}
use uaop.Common.Logger.{json_escaped}
use uaop.Common.Logger.Escape.{read_json-json_escaped}
use uaop.Common.Logger.Literal.{is_literal, ends_bare, is_literal-nil}

-- The value of a member: a string, or the text of a number, `true`, `false` or `null`.
pub data Scalar : Type 0 where
  string : Bytes → Scalar
  bare : Bytes → Scalar

abbrev bare_part : Bytes → Bytes × Bytes
bare_part [] = ([], [])
bare_part (c ∷ s) =
    let (b, rest) = bare_part s in if ends_bare c then ([], c ∷ s) else (c ∷ b, rest)

abbrev accept_bare : Bytes × Bytes → Option (Scalar × Bytes)
accept_bare (b, rest) = if is_literal b then some (bare b, rest) else none

abbrev read_scalar : Bytes → Option (Scalar × Bytes)
read_scalar [] = none
read_scalar (c ∷ s) =
    if c == b'"'
    then then_read (read_json (c ∷ s)) (λ (t, rest). some (string t, rest))
    else accept_bare (bare_part (c ∷ s))

abbrev pub Members : Type 0
Members = List (Bytes × Scalar)

-- One member, and what follows its value.
unfoldable pub read_member : Bytes → Option ((Bytes × Scalar) × Bytes)
read_member s = then_read (read_json s) (λ (key, s1).
    then_read (strip_prefix (codes ":") s1)
      (λ s2. then_read (read_scalar s2) (λ (v, rest). some ((key, v), rest))))

-- The members behind the first, each behind a comma, up to the closing brace. The fuel bounds their
-- number.
unfoldable pub read_members : ℕ → Bytes → Option (Members × Bytes)
read_members fuel [] = none
read_members zero (c ∷ s) = if c == b'}' then some ([], s) else none
read_members (suc fuel) (c ∷ s) =
    let more =
      then_read (read_member s)
        (λ (m, rest). then_read (read_members fuel rest) (λ (ms, end). some (m ∷ ms, end))) in
    if c == b'}' then some ([], s) else (if c == b',' then more else none)

unfoldable pub read_object : Bytes → Option (Members × Bytes)
read_object s = then_read (strip_prefix (codes "{") s) (λ s1.
    then_read (read_member s1)
      (λ (m, rest). then_read (read_members (length rest) rest) (λ (ms, end). some (m ∷ ms, end))))

-- How a member is written.
abbrev pub show_scalar : Scalar → Bytes
show_scalar (string s) = json_escaped s
show_scalar (bare b) = b

abbrev pub show_one : Bytes × Scalar → Bytes
show_one (key, v) = json_escaped key ++ (b':' ∷ show_scalar v)

abbrev pub show_more : Members → Bytes
show_more = flat_map (λ m. b',' ∷ show_one m)

abbrev pub IsReadable : Bytes × Scalar → Type 0
IsReadable (key, string s) = Unit {0}
IsReadable (key, bare b) = (is_literal b ≡ true) × All (λ c. ends_bare c ≡ false) b

-- A member is followed by a comma or the closing brace.
abbrev EndsMember : Bytes → Type 0
EndsMember [] = ⊥
EndsMember (c ∷ s) = (c == b',' || c == b'}') ≡ true

bare_part-append :
    (b rest : Bytes)
    → All (λ c. ends_bare c ≡ false) b
    → EndsMember rest
    → bare_part (b ++ rest) ≡ (b, rest)
bare_part-append [] [] h k = elim k [ ]
bare_part-append [] (c ∷ rest) h k = ground arith
bare_part-append (c ∷ b) rest h k = rw (bare_part-append b rest h.1 k, h.0) refl

else_branch : {A : Type 0} (b : Bool) (x y : A) → b ≡ false → (if b then x else y) ≡ y
else_branch true x y h = cc
else_branch false x y h = refl

read_scalar-bare :
    (b rest : Bytes)
    → is_literal b ≡ true
    → All (λ c. ends_bare c ≡ false) b
    → EndsMember rest
    → read_scalar (b ++ rest) ≡ some (bare b, rest)
read_scalar-bare [] rest l h k = let empty : false ≡ true = rw is_literal-nil at l in cc
read_scalar-bare (d ∷ b) rest l h k =
    let not_quote : (d == b'"') ≡ false = ground (arith, h.0) in
    else_branch (d == b'"') _ _ not_quote
    ∙ ap accept_bare (bare_part-append (d ∷ b) rest h k)
    ∙ rw l refl

read_scalar-show_scalar :
    (key : Bytes) (v : Scalar) (rest : Bytes)
    → IsReadable (key, v)
    → EndsMember rest
    → read_scalar (show_scalar v ++ rest) ≡ some (v, rest)
unfolding json_escaped
read_scalar-show_scalar key (string s) rest h k =
    ap (λ o. then_read o (λ (t, rest). some (string t, rest))) (read_json-json_escaped s rest)
read_scalar-show_scalar key (bare b) rest h k = read_scalar-bare b rest h.0 h.1 k

read_member-show_one :
    (m : Bytes × Scalar) (rest : Bytes)
    → IsReadable m
    → EndsMember rest
    → read_member (show_one m ++ rest) ≡ some (m, rest)
unfolding read_member
read_member-show_one (key, v) rest h k =
    rw (append_assoc (json_escaped key) (b':' ∷ show_scalar v) rest) (
      rw (read_json-json_escaped key (b':' ∷ (show_scalar v ++ rest)))
        (rw (read_scalar-show_scalar key v rest h k) refl))

show_more-EndsMember : (ms : Members) (rest : Bytes) → EndsMember (show_more ms ++ b'}' ∷ rest)
show_more-EndsMember [] rest = refl
show_more-EndsMember (m ∷ ms) rest = refl

read_members-show_more :
    (ms : Members) (fuel : ℕ) (rest : Bytes)
    → length ms ≤ fuel
    → All IsReadable ms
    → read_members fuel (show_more ms ++ b'}' ∷ rest) ≡ some (ms, rest)
unfolding read_members
read_members-show_more [] zero rest h k = refl
read_members-show_more [] (suc fuel) rest h k = refl
read_members-show_more (m ∷ ms) zero rest h k = elim h [ ]
read_members-show_more (m ∷ ms) (suc fuel) rest h k =
    rw (append_assoc (show_one m) (show_more ms) (b'}' ∷ rest)) (
      rw (read_member-show_one m (show_more ms ++ b'}' ∷ rest) k.0 (show_more-EndsMember ms rest))
        (rw (read_members-show_more ms fuel rest (omega arith) k.1) refl))

length-show_more : (ms : Members) → length ms ≤ length (show_more ms)
length-show_more [] = omega arith
length-show_more (m ∷ ms) =
    omega (arith, length-append (show_one m) (show_more ms), length-show_more ms)

pub read_object-show_more :
    (m : Bytes × Scalar) (ms : Members) (rest : Bytes)
    → All IsReadable (m ∷ ms)
    → read_object (b'{' ∷ (show_one m ++ (show_more ms ++ b'}' ∷ rest))) ≡ some (m ∷ ms, rest)
unfolding read_object
read_object-show_more m ms rest h =
    rw (read_member-show_one m (show_more ms ++ b'}' ∷ rest) h.0 (show_more-EndsMember ms rest)) (
      rw
        (read_members-show_more ms (length (show_more ms ++ b'}' ∷ rest)) rest
          (omega (arith, length-append (show_more ms) (b'}' ∷ rest), length-show_more ms)) h.1)
        refl)
