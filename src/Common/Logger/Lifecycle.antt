-- ===== src/Common/Logger/Lifecycle.antt =====
-- The life of a log event: built, perhaps moved, perhaps emitted early, and destroyed.
use uaop.Base.{List, [], ◌∷◌, some}
use uaop.Base.Text.{Bytes}
use uaop.Common.Logger.{
  Value, LogEvent, Logger, set_msg, set_vehicle, set_corr, add_field, move, emit, destroy,
}

-- A call on the event.
pub data Call (D : Type 0) : Type 0 where
  with_msg with_vehicle with_corr : Bytes → Call D
  with_field : Bytes → Value D → Call D
  emit_now : Call D
  moved : Call D

module _ {D : Type 0} (show_double : D → Bytes) (ts : Bytes) (owner : Logger) where
  -- The event that goes on living, and the stream. A moved-from event is destroyed.
  unfoldable pub perform : Call D → LogEvent D → Bytes → LogEvent D × Bytes
  perform (with_msg s) e out = (set_msg s e, out)
  perform (with_vehicle s) e out = (set_vehicle s e, out)
  perform (with_corr s) e out = (set_corr s e, out)
  perform (with_field k v) e out = (add_field k v e, out)
  perform emit_now e out = emit show_double ts (some owner) e out
  perform moved e out = let (e', old) = move e in (e', destroy show_double ts (some owner) old out)

  unfoldable pub live : List (Call D) → LogEvent D → Bytes → Bytes
  live [] e out = destroy show_double ts (some owner) e out
  live (c ∷ cs) e out = let (e', out') = perform c e out in live cs e' out'
