-- ===== src/Gateway/Streams.antt =====
-- backend/api-gateway/src/streams/websocket.js: `StreamState` and `pump`, which relay one stream to
-- a client. A frame is the value given to `JSON.stringify`; the texts of the time stamps and the
-- base64 of a payload come with each message.
pub mod Client
pub mod Gaps
use uaop.Base.{
  ℕ, ◌+◌, ◌^◌, Bool, true, false, List, [], ◌∷◌, ◌++◌, Option, none, some, ltb, if◌then◌else◌,
}
use uaop.Base.Dict.{Dict, insert}
use uaop.Base.Lists.{length, get_elem?, modify}
use uaop.Base.Text.{Bytes, codes}
use uaop.Gateway.Value.{
  Numbers, Value, text, property, field, or_empty, elements, is_text, null, to_text, to_number,
  is_truthy,
}

unfoldable pub telemetry_subject : Bytes → Bytes → Bytes
telemetry_subject vehicle category =
    codes "uaop.telemetry.v1." ++ (vehicle ++ (codes "." ++ category))

unfoldable pub event_subject : Bytes → Bytes
event_subject domain = codes "uaop.event.v1." ++ (domain ++ codes ".>")

-- `x + 1` on a whole number of JavaScript, exact up to 2^53, where it stays.
unfoldable pub plus_one : ℕ → ℕ
plus_one n = if ltb n (2 ^ 53) then n + 1 else n

pub record StreamState (D : Type 0) : Type 0 where
  pub key : Bytes
  pub seq : ℕ
  pub dropped : ℕ
  pub min_interval_ms : D
  pub last_forwarded_at : D

pub data Frame : Type 0 where
  gap : Bytes → ℕ → Frame
  relayed : Bytes → ℕ → Bytes → Bytes → Frame
  heartbeat : Bytes → Frame
  error : Bytes → Frame

-- A message of a subscription: the clock when the session takes it, the text of its time stamp,
-- and its data in base64.
pub record Message (D : Type 0) : Type 0 where
  pub now_ms : D
  pub ts : Bytes
  pub payload : Bytes

module _ {D : Type 0} where
  -- What `pump` does with a message that is forwarded: the state after it and the frames given to
  -- `send`.
  unfoldable pub report_gap : StreamState D → StreamState D × List Frame
  report_gap state =
      if ltb 0 state.dropped
      then (record state { dropped = 0 }, gap state.key state.dropped ∷ [])
      else (state, [])

  unfoldable pub relay : Message D → StreamState D → StreamState D × List Frame
  relay msg state =
      let (reported, frames) = report_gap state in
      let seq = plus_one reported.seq in
      (record reported { seq = seq }, frames ++ relayed reported.key seq msg.ts msg.payload ∷ [])

module _ {D : Type 0} (num : Numbers D) where
  -- `rateHz && rateHz > 0 ? 1000 / rateHz : 0`; the number is converted only where it is truthy.
  unfoldable pub min_interval : Value D → Option D
  min_interval rate =
      if is_truthy num rate
      then elim (to_number num rate) [
        | none ↦ none
        | some hz ↦
            some (
              if num.exceeds hz num.zero_number
              then num.divide num.thousand hz
              else num.zero_number)
      ]
      else some num.zero_number

  unfoldable pub new_state : Bytes → Value D → Option (StreamState D)
  new_state key rate = elim (min_interval rate) [
    | none ↦ none
    | some interval ↦ some (record {
      key = key;
      seq = 0;
      dropped = 0;
      min_interval_ms = interval;
      last_forwarded_at = num.zero_number;
    })
  ]

  unfoldable pub should_forward : D → StreamState D → StreamState D × Bool
  should_forward now state =
      if num.equals state.min_interval_ms num.zero_number
      then (state, true)
      else if num.at_least (num.minus now state.last_forwarded_at) state.min_interval_ms
      then (record state { last_forwarded_at = now }, true)
      else (record state { dropped = plus_one state.dropped }, false)

  -- One round of the loop of `pump`.
  unfoldable pub pump_one : Message D → StreamState D → StreamState D × List Frame
  pump_one msg state =
      let (shaped, forward) = should_forward msg.now_ms state in
      if forward then relay msg shaped else (shaped, [])

  -- The loop of `pump` on the messages that arrive.
  unfoldable pub pump : List (Message D) → StreamState D → StreamState D × List Frame
  pump [] state = (state, [])
  pump (msg ∷ msgs) state =
      let (next, frames) = pump_one msg state in
      let (last, rest) = pump msgs next in (last, frames ++ rest)
