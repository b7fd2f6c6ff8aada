-- ===== src/Common/Stream/Tests.antt =====
-- Runs of the stream with the dedup set and the sequence counters, and the theorems at concrete
-- inputs.
use uaop.Base.{◌≡◌, refl, true, List, [], ◌∷◌, ◌++◌, arith}
use uaop.Base.Dict
use uaop.Base.Dict.{lookup, keep_if}
use uaop.Base.Text.{Bytes, codes, equal, less}
use uaop.Common.Dedup
use uaop.Common.Dedup.{DedupSet, sweep, try_emplace, unexpired, size}
use uaop.Common.Dedup.History.{Call, is_novel, last_accept, insert-is_novel, insert-unexpired}
use uaop.Common.Dedup.History as DedupHistory
use uaop.Common.Sequence.{next, next_of}
use uaop.Common.Sequence.History as SequenceHistory
use uaop.Common.Sequence.History.{next_of-count}
use uaop.Common.Stream.{
  JetStreamMessage, message, InMemoryJetStream, new, append, subscribe, ack,
  last_published_sequence, last_acked_sequence, publish, redeliver,
}
use uaop.Common.Stream.Delivery.{publish-redeliver}
use uaop.Common.Stream.Once.{Consumer, handle_once, redeliver_at, publish_once}

abbrev history : List Call
history = (40, codes "b") ∷ (20, codes "a") ∷ (10, codes "a") ∷ []

insert-is_novel_example : (Dedup.insert 50 (codes "a") (DedupHistory.run 30 history)).1 ≡ true
unfolding last_accept equal
insert-is_novel_example = insert-is_novel 30 50 (codes "a") history (omega arith)

sweeps : size (Dedup.insert 50 (codes "c") (DedupHistory.run 30 history)).0 ≡ 2
unfolding size Dedup.insert DedupHistory.run Dedup.new keep_if lookup Dict.insert equal less
sweeps = refl

abbrev expired : DedupSet
expired = record { ttl = 5; entries = (codes "a", 7) ∷ (codes "b", 30) ∷ [] }

next_of-count_example :
    (next_of (codes "v1") (SequenceHistory.run (codes "v2" ∷ codes "v1" ∷ []))).1 ≡ 2
unfolding equal
next_of-count_example = next_of-count (codes "v1") (codes "v2" ∷ codes "v1" ∷ [])

counter_wraps : (next 0xffff_ffff_ffff_ffff).1 ≡ 0
unfolding next
counter_wraps = refl

abbrev subject : Bytes
subject = codes "uaop.event.v1"

abbrev one_subscriber : InMemoryJetStream (Unit {0})
one_subscriber = record {
  next_sequence = 1;
  last_acked = 0;
  log = [];
  subscriptions = record { subject = subject; durable_name = codes "d"; handler = tt } ∷ [];
}

subscribe_example : (subscribe subject (codes "d") tt new).0 ≡ one_subscriber
unfolding subscribe new
subscribe_example = refl

abbrev consumer : Consumer
consumer = record { now = 100; dedup = record { ttl = 50; entries = [] }; processed = [] }

publish_once_example :
    (redeliver_at
      (120 ∷ 149 ∷ [])
      1
      (publish handle_once subject (codes "e1") (one_subscriber, consumer)).0).1.processed
    ≡ message subject (codes "e1") 1 ∷ []
unfolding equal Dedup.insert lookup keep_if
publish_once_example =
    publish_once subject (codes "e1") one_subscriber consumer
      (record { subject = subject; durable_name = codes "d"; handler = tt }) (120 ∷ 149 ∷ []) refl
      tt refl (omega arith)

-- A program that notes the calls of its handlers.
abbrev note :
    Unit {0}
    → JetStreamMessage
    → InMemoryJetStream (Unit {0}) × List (Unit {0} × JetStreamMessage)
    → InMemoryJetStream (Unit {0}) × List (Unit {0} × JetStreamMessage)
note h m (s, seen) = (s, seen ++ (h, m) ∷ [])

publish-redeliver_example :
    let st = (publish note subject (codes "e1") (one_subscriber, [])).0 in
    let again = redeliver note 1 st in
    let made : List (Unit {0} × JetStreamMessage) = (tt, message subject (codes "e1") 1) ∷ [] in
    (st.1 ≡ made) × (again.1 ≡ made ++ made) × (again.0 ≡ st.0)
unfolding equal
publish-redeliver_example =
    publish-redeliver note (λ seen. seen) (λ h m s w. refl) (λ h m s w. refl) subject (codes "e1")
      one_subscriber []

-- A handler that answers every message by another, which has no subscriber, and acknowledges it.
abbrev answer :
    Unit {0}
    → JetStreamMessage
    → InMemoryJetStream (Unit {0}) × Unit {0}
    → InMemoryJetStream (Unit {0}) × Unit {0}
answer h m (s, w) = (ack m.stream_sequence (append (codes "uaop.answer") m.payload s).0, w)

positions :
    let s = (append subject (codes "e1") one_subscriber).0 in
    (last_published_sequence s ≡ 1)
    × (last_acked_sequence (ack 1 s) ≡ 1)
    × (last_acked_sequence (ack 0 (ack 1 s)) ≡ 1)
unfolding append ack last_published_sequence last_acked_sequence
positions = (refl, refl, refl)
