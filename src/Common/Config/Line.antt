-- ===== src/Common/Config/Line.antt =====
-- One line of a configuration file: the helpers and `parse_config_line` of
-- backend/services/common/src/config.cpp.
use uaop.Base.{
  ℕ, Bool, true, ◌&&◌, ◌||◌, [], ◌∷◌, ◌++◌, Option, none, some, leb, ◌==◌, if◌then◌else◌,
}
use uaop.Base.Text.{Bytes, codes, is_empty}
use uaop.Common.Result.{Error, invalid, Result, ok, err}

-- `std::isspace` in the "C" locale.
abbrev pub is_space : ℕ → Bool
is_space c = c == 32 || leb 9 c && leb c 13

-- The first loop of `trim` moves `start` past the leading white space.
unfoldable pub trim_start : Bytes → Bytes
trim_start [] = []
trim_start (c ∷ cs) = let rest = trim_start cs in if is_space c then rest else c ∷ cs

-- The second moves `end` back over the trailing white space.
unfoldable pub trim_end : Bytes → Bytes
trim_end [] = []
trim_end (c ∷ cs) = let rest = trim_end cs in if is_space c && is_empty rest then [] else c ∷ rest

unfoldable pub trim : Bytes → Bytes
trim s = trim_end (trim_start s)

-- `s.back()`, where `c` stands before `s`.
unfoldable pub back : ℕ → Bytes → ℕ
back c [] = c
back c (d ∷ ds) = back d ds

-- `s.substr(0, s.size() - 1)`.
unfoldable pub drop_back : Bytes → Bytes
drop_back [] = []
drop_back (c ∷ cs) = let rest = drop_back cs in if is_empty cs then [] else c ∷ rest

abbrev is_quote_pair : ℕ → ℕ → Bool
is_quote_pair a b = a == b'"' && b == b'"' || a == b'\'' && b == b'\''

unfoldable pub strip_quotes : Bytes → Bytes
strip_quotes [] = []
strip_quotes (c ∷ []) = c ∷ []
strip_quotes (c ∷ d ∷ cs) = if is_quote_pair c (back d cs) then drop_back (d ∷ cs) else c ∷ d ∷ cs

abbrev pub before : ℕ → Option (Bytes × Bytes) → Option (Bytes × Bytes)
before c none = none
before c (some (k, v)) = some (c ∷ k, v)

-- `line.find(':')`, as what stands before the first colon and what stands behind it.
unfoldable pub find_colon : Bytes → Option (Bytes × Bytes)
find_colon [] = none
find_colon (c ∷ cs) = let rest = find_colon cs in if c == b':' then some ([], cs) else before c rest

abbrev pub syntax_error : Bytes → Error
syntax_error message = record {
  error_class = invalid;
  code = codes "E_CONFIG_SYNTAX";
  message = message;
}

-- An entry, nothing for a blank line or a comment, or an error.
abbrev pub ParsedLine : Type 0
ParsedLine = Result (Option (Bytes × Bytes)) Error

unfoldable pub parse_entry : Bytes → Option (Bytes × Bytes) → ParsedLine
parse_entry line none = err (syntax_error (codes "expected 'key: value', got: " ++ line))
parse_entry line (some (k, v)) =
    let key = trim k in
    if is_empty key
    then err (syntax_error (codes "empty key in line: " ++ line))
    else ok (some (key, strip_quotes (trim v)))

-- The line is blank or a comment.
unfoldable pub is_skipped : Bytes → Bool
is_skipped [] = true
is_skipped (c ∷ cs) = c == b'#'

unfoldable pub parse_config_line : Bytes → ParsedLine
parse_config_line raw =
    let line = trim raw in if is_skipped line then ok none else parse_entry line (find_colon line)
