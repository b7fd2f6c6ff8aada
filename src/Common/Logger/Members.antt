-- ===== src/Common/Logger/Members.antt =====
-- A log line as one JSON object: what a reader of the line gets back from it.
use mathlib.Core.List.{append_assoc, append-nil}
use uaop.Base.{
  ◌≡◌, refl, ◌∙◌, ap, true, false, List, [], ◌∷◌, ◌++◌, map, some, if◌then◌else◌, arith,
}
use uaop.Base.Int.{print_int}
use uaop.Base.Lists.{All, All-append, flat_map-append}
use uaop.Base.Text.{Bytes, codes, equal, is_empty}
use uaop.Common.Logger.{
  LogLevel, debug, info, warn, error, level_name, json_escaped, escape_all, escape_byte, Value,
  text, int, double, bool, LogEvent, Logger, show_value, show_fields, show_member, show_event,
}
use uaop.Common.Logger.Literal.{
  start, number_from, is_number, is_literal, number_from-bare, is_number-print_int,
}
use uaop.Common.Logger.Object.{
  Scalar, string, bare, Members, read_object, show_scalar, show_one, show_more, IsReadable,
  read_object-show_more,
}

number-IsReadable : (key b : Bytes) → is_number b ≡ true → IsReadable (key, bare b)
unfolding is_literal
number-IsReadable key b h = (rw h refl, number_from-bare start b h)

-- A member that is left out if its text is empty.
abbrev pub optional : Bytes → Bytes → Members
optional key s = if is_empty s then [] else (key, string s) ∷ []

module _ {D : Type 0} (show_double : D → Bytes) where
  abbrev pub scalar_of : Value D → Scalar
  scalar_of (text s) = string s
  scalar_of (int z) = bare (print_int z)
  scalar_of (double d) = bare (show_double d)
  scalar_of (bool true) = bare (codes "true")
  scalar_of (bool false) = bare (codes "false")

  abbrev behind_time : Logger → LogEvent D → Members
  behind_time owner e =
      (codes "lvl", string (level_name e.level))
      ∷ (codes "svc", string owner.service)
      ∷ (optional (codes "vehicle") e.vehicle
          ++ (optional (codes "corr") e.corr
              ++ ((codes "event", string e.event)
                  ∷ (optional (codes "msg") e.msg
                      ++ map (λ (key, v). (key, scalar_of v)) e.fields))))

  abbrev pub members_of : Bytes → Logger → LogEvent D → Members
  members_of ts owner e = (codes "ts", string ts) ∷ behind_time owner e

  show_value-scalar_of : (v : Value D) → show_value show_double v ≡ show_scalar (scalar_of v)
  unfolding show_value
  show_value-scalar_of (text s) = refl
  show_value-scalar_of (int z) = refl
  show_value-scalar_of (double d) = refl
  show_value-scalar_of (bool true) = refl
  show_value-scalar_of (bool false) = refl

  show_fields-show_more :
      (fields : List (Bytes × Value D))
      → show_fields show_double fields ≡ show_more (map (λ (key, v). (key, scalar_of v)) fields)
  unfolding show_fields
  show_fields-show_more [] = refl
  show_fields-show_more ((key, v) ∷ fields) =
      rw (show_value-scalar_of v, show_fields-show_more fields, append_assoc) refl

  show_member-optional :
      (label key s : Bytes)
      → label ≡ b',' ∷ (json_escaped key ++ b':' ∷ [])
      → show_member show_double label s ≡ show_more (optional key s)
  unfolding show_member
  show_member-optional label key [] e = refl
  show_member-optional label key (c ∷ s) e = rw e (simp (append_assoc, append-nil) refl)

  level-escaped : (l : LogLevel) → json_escaped (level_name l) ≡ b'"' ∷ (level_name l ++ b'"' ∷ [])
  unfolding level_name json_escaped escape_all escape_byte
  level-escaped debug = refl
  level-escaped info = refl
  level-escaped warn = refl
  level-escaped error = refl

  vehicle-optional :
      (s : Bytes)
      → show_member show_double (codes ",\"vehicle\":") s ≡ show_more (optional (codes "vehicle") s)
  vehicle-optional s =
      show_member-optional _ (codes "vehicle") s
        (unfold json_escaped escape_all escape_byte in refl)

  corr-optional :
      (s : Bytes)
      → show_member show_double (codes ",\"corr\":") s ≡ show_more (optional (codes "corr") s)
  corr-optional s =
      show_member-optional _ (codes "corr") s (unfold json_escaped escape_all escape_byte in refl)

  msg-optional :
      (s : Bytes)
      → show_member show_double (codes ",\"msg\":") s ≡ show_more (optional (codes "msg") s)
  msg-optional s =
      show_member-optional _ (codes "msg") s (unfold json_escaped escape_all escape_byte in refl)

  ts-escaped : json_escaped (codes "ts") ≡ codes "\"ts\""
  unfolding json_escaped escape_all escape_byte
  ts-escaped = refl

  lvl-escaped : json_escaped (codes "lvl") ≡ codes "\"lvl\""
  unfolding json_escaped escape_all escape_byte
  lvl-escaped = refl

  svc-escaped : json_escaped (codes "svc") ≡ codes "\"svc\""
  unfolding json_escaped escape_all escape_byte
  svc-escaped = refl

  event-escaped : json_escaped (codes "event") ≡ codes "\"event\""
  unfolding json_escaped escape_all escape_byte
  event-escaped = refl

  show_event-show_more :
      (ts : Bytes) (owner : Logger) (e : LogEvent D) (rest : Bytes)
      → show_event show_double ts owner e ++ rest
        ≡ b'{'
          ∷ (show_one (codes "ts", string ts) ++ (show_more (behind_time owner e) ++ b'}' ∷ rest))
  unfolding show_event
  show_event-show_more ts owner e rest =
      rw
        (
          vehicle-optional e.vehicle,
          corr-optional e.corr,
          msg-optional e.msg,
          show_fields-show_more e.fields,
        )
        (simp
          (
            flat_map-append, append_assoc, ts-escaped, lvl-escaped, svc-escaped, event-escaped,
            level-escaped,
          )
          refl)

  optional-IsReadable : (key s : Bytes) → All IsReadable (optional key s)
  optional-IsReadable key [] = tt
  optional-IsReadable key (c ∷ s) = (tt, tt)

  -- A double that is written as a number of JSON; NaN and the infinities are not.
  abbrev pub IsFinite : Bytes × Value D → Type 0
  IsFinite (key, text s) = Unit
  IsFinite (key, int z) = Unit
  IsFinite (key, double d) = is_number (show_double d) ≡ true
  IsFinite (key, bool b) = Unit

  scalar_of-IsReadable :
      (key : Bytes) (v : Value D) → IsFinite (key, v) → IsReadable (key, scalar_of v)
  unfolding is_literal number_from equal
  scalar_of-IsReadable key (text s) h = tt
  scalar_of-IsReadable key (int z) h = number-IsReadable key (print_int z) (is_number-print_int z)
  scalar_of-IsReadable key (double d) h = number-IsReadable key (show_double d) h
  scalar_of-IsReadable key (bool true) h = ground arith
  scalar_of-IsReadable key (bool false) h = ground arith

  fields-IsReadable :
      (fields : List (Bytes × Value D))
      → All IsFinite fields
      → All IsReadable (map (λ (key, v). (key, scalar_of v)) fields)
  fields-IsReadable [] h = tt
  fields-IsReadable ((key, v) ∷ fields) h =
      (scalar_of-IsReadable key v h.0, fields-IsReadable fields h.1)

  members_of-IsReadable :
      (ts : Bytes) (owner : Logger) (e : LogEvent D)
      → All IsFinite e.fields
      → All IsReadable (members_of ts owner e)
  members_of-IsReadable ts owner e h = (
    tt,
    (
      tt,
      (
        tt,
        All-append IsReadable (optional (codes "vehicle") e.vehicle) _
            (optional-IsReadable (codes "vehicle") e.vehicle)
            (All-append IsReadable (optional (codes "corr") e.corr) _
              (optional-IsReadable (codes "corr") e.corr)
              (
                tt,
                All-append IsReadable (optional (codes "msg") e.msg) _
                    (optional-IsReadable (codes "msg") e.msg) (fields-IsReadable e.fields h),
              )),
      ),
    ),
  )

  -- A JSON reader gets back from an event's line, whatever bytes its texts hold, the time, the
  -- level, the service, the event and every field in the order in which they were added, and the
  -- vehicle, the correlation and the message if they are not empty, as long as the doubles among
  -- the fields are written as numbers of JSON.
  pub read_object-show_event :
      (ts : Bytes) (owner : Logger) (e : LogEvent D) (rest : Bytes)
      → All IsFinite e.fields
      → read_object (show_event show_double ts owner e ++ rest) ≡ some (members_of ts owner e, rest)
  read_object-show_event ts owner e rest h =
      ap read_object (show_event-show_more ts owner e rest)
      ∙ read_object-show_more (codes "ts", string ts) (behind_time owner e) rest
          (members_of-IsReadable ts owner e h)
