-- ===== src/Common/Logger/Lines.antt =====
-- What an event writes is one line, whatever it holds.
use uaop.Base.{
  ℕ, suc, ◌+◌, ◌≤◌, ◌≡◌, refl, true, false, List, [], ◌∷◌, ◌++◌, ◌==◌, if◌then◌else◌, arith,
}
use uaop.Base.Decimal.{is_digit, to_string, to_string-is_digit}
use uaop.Base.Int.{ℤ, pos, negsuc, print_int}
use uaop.Base.Lists.{All, All-append}
use uaop.Base.Text.{Bytes, codes}
use uaop.Common.Logger.{
  LogLevel, debug, info, warn, error, level_name, json_escaped, Value, text, int, double, bool,
  LogEvent, Logger, show_value, show_fields, show_member, show_event,
}
use uaop.Common.Logger.Escape.{Printable, json_escaped-Printable}

Printable-append : (s t : Bytes) → Printable s → Printable t → Printable (s ++ t)
Printable-append s t = All-append (λ c. 32 ≤ c) s t

digits-Printable : (s : Bytes) → All (λ c. is_digit c ≡ true) s → Printable s
digits-Printable [] h = tt
digits-Printable (c ∷ s) h = (ground (arith, h.0), digits-Printable s h.1)

print_int-Printable : (z : ℤ) → Printable (print_int z)
unfolding print_int
print_int-Printable (pos n) = digits-Printable (to_string n) (to_string-is_digit n)
print_int-Printable (negsuc n) =
    (omega arith, digits-Printable (to_string (suc n)) (to_string-is_digit (suc n)))

level_name-Printable : (l : LogLevel) → Printable (level_name l)
unfolding level_name
level_name-Printable debug = omega arith
level_name-Printable info = omega arith
level_name-Printable warn = omega arith
level_name-Printable error = omega arith

module _ {D : Type 0} (show_double : D → Bytes)
    (doubles : (d : D) → Printable (show_double d)) where
  show_value-Printable : (v : Value D) → Printable (show_value show_double v)
  unfolding show_value
  show_value-Printable (text s) = json_escaped-Printable s
  show_value-Printable (int z) = print_int-Printable z
  show_value-Printable (double d) = doubles d
  show_value-Printable (bool true) = omega arith
  show_value-Printable (bool false) = omega arith

  show_fields-Printable :
      (fields : List (Bytes × Value D)) → Printable (show_fields show_double fields)
  unfolding show_fields
  show_fields-Printable [] = tt
  show_fields-Printable ((key, v) ∷ fields) = (
    omega arith,
    Printable-append (json_escaped key) _ (json_escaped-Printable key) (
      omega arith,
      Printable-append (show_value show_double v) _ (show_value-Printable v)
          (show_fields-Printable fields),
    ),
  )

  show_member-Printable :
      (label s : Bytes) → Printable label → Printable (show_member show_double label s)
  unfolding show_member
  show_member-Printable label [] h = tt
  show_member-Printable label (c ∷ s) h =
      Printable-append label _ h (json_escaped-Printable (c ∷ s))

  pub show_event-Printable :
      (ts : Bytes) (owner : Logger) (e : LogEvent D) → Printable (show_event show_double ts owner e)
  unfolding show_event
  show_event-Printable ts owner e = Printable-append (codes "{\"ts\":") _ (omega arith) (
      Printable-append (json_escaped ts) _ (json_escaped-Printable ts) (
        Printable-append (codes ",\"lvl\":\"") _ (omega arith) (
          Printable-append (level_name e.level) _ (level_name-Printable e.level) (
            Printable-append (codes "\",\"svc\":") _ (omega arith) (
              Printable-append (json_escaped owner.service) _ (json_escaped-Printable owner.service)
                (Printable-append (show_member show_double (codes ",\"vehicle\":") e.vehicle) _
                  (show_member-Printable (codes ",\"vehicle\":") e.vehicle (omega arith))
                  (Printable-append (show_member show_double (codes ",\"corr\":") e.corr) _
                    (show_member-Printable (codes ",\"corr\":") e.corr (omega arith))
                    (Printable-append (codes ",\"event\":") _ (omega arith) (
                      Printable-append (json_escaped e.event) _ (json_escaped-Printable e.event) (
                        Printable-append (show_member show_double (codes ",\"msg\":") e.msg) _
                          (show_member-Printable (codes ",\"msg\":") e.msg (omega arith))
                          (Printable-append (show_fields show_double e.fields) _
                            (show_fields-Printable e.fields) (omega arith))))))))))))

-- The line feeds of a text.
abbrev pub line_feeds : Bytes → ℕ
line_feeds [] = 0
line_feeds (c ∷ cs) = (if c == b'\n' then 1 else 0) + line_feeds cs

pub line_feeds-append : (s t : Bytes) → line_feeds (s ++ t) ≡ line_feeds s + line_feeds t
line_feeds-append [] t = omega arith
line_feeds-append (c ∷ s) t = omega (arith, line_feeds-append s t)

pub line_feeds-Printable : (s : Bytes) → Printable s → line_feeds s ≡ 0
line_feeds-Printable [] h = refl
line_feeds-Printable (c ∷ s) h = ground (arith, line_feeds-Printable s h.1)
