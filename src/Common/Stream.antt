-- ===== src/Common/Stream.antt =====
-- backend/services/common/src/in_memory_jetstream.cpp and include/uaop/common/jetstream.h: the
-- in-memory stream. Handlers are called with the lock released, and may call the stream again, so
-- a handler is a name `H`, and `invoke` says what calling it does to the stream and to the rest of
-- the program, `W`.
pub mod Log
pub mod Delivery
pub mod Once
mod Tests
use uaop.Base.{
  ℕ, zero, suc, ◌+◌, ◌-◌, ◌%◌, ◌^◌, Bool, true, false, List, [], ◌∷◌, ◌++◌, Option, none, some, ltb,
  ◌==◌, if◌then◌else◌,
}
use uaop.Base.Lists.{select}
use uaop.Base.Text.{Bytes, equal}
use uaop.Base.Words.{u64_mod, sub_u64}
use uaop.Common.Result.{Error, Result, ok}

pub record JetStreamMessage : Type 0 where
  pub subject : Bytes
  pub payload : Bytes
  pub stream_sequence : ℕ

abbrev pub message : Bytes → Bytes → ℕ → JetStreamMessage
message subject payload n = record { subject = subject; payload = payload; stream_sequence = n }

pub record Subscription (H : Type 0) : Type 0 where
  pub subject : Bytes
  pub durable_name : Bytes
  pub handler : H

-- `std::map<uint64_t, JetStreamMessage>`, which is only written and looked up.
abbrev pub Log : Type 0
Log = List (ℕ × JetStreamMessage)

unfoldable pub find : ℕ → Log → Option JetStreamMessage
find n [] = none
find n ((k, msg) ∷ log) = let rest = find n log in if n == k then some msg else rest

unfoldable pub store : ℕ → JetStreamMessage → Log → Log
store n msg [] = (n, msg) ∷ []
store n msg ((k, old) ∷ log) =
    let rest = store n msg log in if n == k then (n, msg) ∷ log else (k, old) ∷ rest

pub record InMemoryJetStream (H : Type 0) : Type 0 where
  pub next_sequence : ℕ
  pub last_acked : ℕ
  pub log : Log
  pub subscriptions : List (Subscription H)

unfoldable pub new : {H : Type 0} → InMemoryJetStream H
new = record { next_sequence = 1; last_acked = 0; log = []; subscriptions = [] }

module _ {H : Type 0} where
  abbrev pub subscribers : Bytes → InMemoryJetStream H → List (Subscription H)
  subscribers subject s = select (λ sub. equal sub.subject subject) s.subscriptions

  -- What `publish` does under the lock.
  unfoldable pub append :
      Bytes → Bytes → InMemoryJetStream H → InMemoryJetStream H × JetStreamMessage
  append subject payload s =
      let msg = message subject payload s.next_sequence in
      (
        record s {
          next_sequence = (s.next_sequence + 1) % u64_mod;
          log = store s.next_sequence msg s.log;
        },
        msg,
      )

  unfoldable pub subscribe :
      Bytes → Bytes → H → InMemoryJetStream H → InMemoryJetStream H × Result (Unit {0}) Error
  subscribe subject durable_name handler s =
      let sub : Subscription H = record {
        subject = subject;
        durable_name = durable_name;
        handler = handler;
      } in
      (record s { subscriptions = s.subscriptions ++ sub ∷ [] }, ok tt)

  unfoldable pub ack : ℕ → InMemoryJetStream H → InMemoryJetStream H
  ack stream_sequence s =
      if ltb s.last_acked stream_sequence then record s { last_acked = stream_sequence } else s

  unfoldable pub last_published_sequence : InMemoryJetStream H → ℕ
  last_published_sequence s = sub_u64 s.next_sequence 1

  unfoldable pub last_acked_sequence : InMemoryJetStream H → ℕ
  last_acked_sequence s = s.last_acked

module _ {H W : Type 0}
    (invoke : H → JetStreamMessage → InMemoryJetStream H × W → InMemoryJetStream H × W) where
  -- The loop over `to_notify`.
  unfoldable pub deliver :
      List (Subscription H) → JetStreamMessage → InMemoryJetStream H × W → InMemoryJetStream H × W
  deliver [] msg st = st
  deliver (sub ∷ to_notify) msg st = deliver to_notify msg (invoke sub.handler msg st)

  unfoldable pub publish :
      Bytes → Bytes → InMemoryJetStream H × W → (InMemoryJetStream H × W) × Result (Unit {0}) Error
  unfolding append
  publish subject payload (s, w) =
      let (s', msg) = append subject payload s in
      (deliver (subscribers subject s) msg (s', w), ok tt)

  unfoldable pub redeliver_found :
      Option JetStreamMessage → InMemoryJetStream H × W → InMemoryJetStream H × W
  redeliver_found none st = st
  redeliver_found (some msg) (s, w) = deliver (subscribers msg.subject s) msg (s, w)

  unfoldable pub redeliver : ℕ → InMemoryJetStream H × W → InMemoryJetStream H × W
  redeliver stream_sequence (s, w) = redeliver_found (find stream_sequence s.log) (s, w)
