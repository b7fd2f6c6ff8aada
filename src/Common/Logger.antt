-- ===== src/Common/Logger.antt =====
-- backend/services/common/src/logger.cpp and include/uaop/common/logger.h: one JSON object for each
-- log line. The time stamp and the printing of `double` are parameters; the stream is the text
-- written so far.
pub mod Escape
pub mod Lines
pub mod Lifecycle
pub mod Stamp
pub mod Literal
pub mod Object
pub mod Members
pub mod Emitted
mod Tests
use uaop.Base.{
  ℕ, ◌+◌, ◌/◌, ◌%◌, Bool, true, false, List, [], ◌∷◌, ◌++◌, Option, none, some, ltb, ◌==◌,
  if◌then◌else◌,
}
use uaop.Base.Int.{ℤ, print_int}
use uaop.Base.Text.{Bytes, codes, is_empty}

pub data LogLevel : Type 0 where
  debug info warn error : LogLevel

abbrev pub level_code : LogLevel → ℕ
level_code debug = 0
level_code info = 1
level_code warn = 2
level_code error = 3

unfoldable pub level_name : LogLevel → Bytes
level_name debug = codes "DEBUG"
level_name info = codes "INFO"
level_name warn = codes "WARN"
level_name error = codes "ERROR"

-- A digit of `std::hex`.
abbrev pub hex_digit : ℕ → ℕ
hex_digit d = if ltb d 10 then b'0' + d else 87 + d

-- What is written for one byte. A control byte takes at most two hexadecimal digits, which
-- `setw(4)` and `setfill('0')` pad to four.
unfoldable pub escape_byte : ℕ → Bytes
escape_byte c =
    if c == b'"'
    then codes "\\\""
    else if c == b'\\'
    then codes "\\\\"
    else if c == b'\n'
    then codes "\\n"
    else if c == b'\r'
    then codes "\\r"
    else if c == b'\t'
    then codes "\\t"
    else if ltb c 0x20
    then codes "\\u00" ++ (hex_digit (c / 16) ∷ hex_digit (c % 16) ∷ [])
    else c ∷ []

unfoldable pub escape_all : Bytes → Bytes
escape_all [] = []
escape_all (c ∷ s) = escape_byte c ++ escape_all s

-- `write_json_escaped`.
unfoldable pub json_escaped : Bytes → Bytes
unfolding escape_all
json_escaped s = b'"' ∷ (escape_all s ++ b'"' ∷ [])

-- The value of a field.
pub data Value (D : Type 0) : Type 0 where
  text : Bytes → Value D
  int : ℤ → Value D
  double : D → Value D
  bool : Bool → Value D

pub record LogEvent (D : Type 0) : Type 0 where
  pub level : LogLevel
  pub event : Bytes
  pub msg : Bytes
  pub vehicle : Bytes
  pub corr : Bytes
  pub fields : List (Bytes × Value D)
  pub emitted : Bool

pub record Logger : Type 0 where
  pub service : Bytes
  pub min_level : LogLevel

unfoldable pub set_min_level : LogLevel → Logger → Logger
set_min_level lvl l = record l { min_level = lvl }

module _ {D : Type 0} where
  -- `Logger::debug` and its like: a new event.
  unfoldable pub new_event : LogLevel → Bytes → LogEvent D
  new_event level event = record {
    level = level;
    event = event;
    msg = [];
    vehicle = [];
    corr = [];
    fields = [];
    emitted = false;
  }

  unfoldable pub set_msg : Bytes → LogEvent D → LogEvent D
  set_msg s e = record e { msg = s }

  unfoldable pub set_vehicle : Bytes → LogEvent D → LogEvent D
  set_vehicle s e = record e { vehicle = s }

  unfoldable pub set_corr : Bytes → LogEvent D → LogEvent D
  set_corr s e = record e { corr = s }

  unfoldable pub add_field : Bytes → Value D → LogEvent D → LogEvent D
  add_field key v e = record e { fields = e.fields ++ (key, v) ∷ [] }

  -- The move constructor: the new event, and the one moved from.
  unfoldable pub move : LogEvent D → LogEvent D × LogEvent D
  move e =
      (e, record e { event = []; msg = []; vehicle = []; corr = []; fields = []; emitted = true })

module _ {D : Type 0} (show_double : D → Bytes) where
  unfoldable pub show_value : Value D → Bytes
  unfolding json_escaped
  show_value (text s) = json_escaped s
  show_value (int z) = print_int z
  show_value (double d) = show_double d
  show_value (bool true) = codes "true"
  show_value (bool false) = codes "false"

  unfoldable pub show_fields : List (Bytes × Value D) → Bytes
  show_fields [] = []
  show_fields ((key, v) ∷ fields) =
      b',' ∷ (json_escaped key ++ (b':' ∷ (show_value v ++ show_fields fields)))

  -- An optional member, left out if it is empty.
  unfoldable pub show_member : Bytes → Bytes → Bytes
  show_member label s = if is_empty s then [] else label ++ json_escaped s

  -- The object without its end.
  unfoldable pub show_event : Bytes → Logger → LogEvent D → Bytes
  unfolding show_member show_fields
  show_event ts owner e =
      codes "{\"ts\":"
      ++ (json_escaped ts
          ++ (codes ",\"lvl\":\""
              ++ (level_name e.level
                  ++ (codes "\",\"svc\":"
                      ++ (json_escaped owner.service
                          ++ (show_member (codes ",\"vehicle\":") e.vehicle
                              ++ (show_member (codes ",\"corr\":") e.corr
                                  ++ (codes ",\"event\":"
                                      ++ (json_escaped e.event
                                          ++ (show_member (codes ",\"msg\":") e.msg
                                              ++ (show_fields e.fields ++ codes "}")))))))))))

  -- What `emit` writes for an event that was not emitted yet.
  unfoldable pub emission : Bytes → Option Logger → LogEvent D → Bytes
  emission ts none e = []
  emission ts (some owner) e =
      if ltb (level_code e.level) (level_code owner.min_level)
      then []
      else show_event ts owner e ++ b'\n' ∷ []

  -- `owner` is what `owner_` points at; the stream is the last argument.
  unfoldable pub emit : Bytes → Option Logger → LogEvent D → Bytes → LogEvent D × Bytes
  emit ts owner e out =
      if e.emitted then (e, out) else (record e { emitted = true }, out ++ emission ts owner e)

  -- `~LogEvent`.
  unfoldable pub destroy : Bytes → Option Logger → LogEvent D → Bytes → Bytes
  unfolding emit
  destroy ts owner e out = if e.emitted then out else (emit ts owner e out).1
