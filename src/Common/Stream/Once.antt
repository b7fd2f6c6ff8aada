-- ===== src/Common/Stream/Once.antt =====
-- The consumer that jetstream.h and dedup.h ask for: each delivery goes through a `DedupSet`, so
-- that a message that is delivered again is not processed again.
use uaop.Base.{ℕ, ◌+◌, ◌<◌, ◌≡◌, refl, ap, ◌∙◌, true, List, [], ◌∷◌, ◌++◌, some, if◌then◌else◌}
use uaop.Base.Dict.{IsSorted, lookup}
use uaop.Base.Lists.{All}
use uaop.Base.Text.{Bytes}
use uaop.Common.Dedup
use uaop.Common.Dedup.{DedupSet}
use uaop.Common.Dedup.Step.{insert-IsSorted, insert_accepts, insert_refuses}
use uaop.Common.Stream.{
  JetStreamMessage, message, Subscription, find, InMemoryJetStream, append, deliver, publish,
  redeliver, redeliver_found, subscribers,
}
use uaop.Common.Stream.Log.{find-append, append-subscribers}

pub record Consumer : Type 0 where
  pub now : ℕ
  pub dedup : DedupSet
  pub processed : List JetStreamMessage

-- The handler: the payload is the event's identity, and only a novel delivery is processed.
unfoldable pub handle_once :
    Unit {0}
    → JetStreamMessage
    → InMemoryJetStream (Unit {0}) × Consumer
    → InMemoryJetStream (Unit {0}) × Consumer
handle_once h m (s, c) =
    let (dedup, novel) = Dedup.insert c.now m.payload c.dedup in
    (
      s,
      record c { dedup = dedup; processed = if novel then c.processed ++ m ∷ [] else c.processed },
    )

-- Redeliveries of one message, at these times.
unfoldable pub redeliver_at :
    List ℕ → ℕ → InMemoryJetStream (Unit {0}) × Consumer → InMemoryJetStream (Unit {0}) × Consumer
redeliver_at [] n st = st
redeliver_at (t ∷ ts) n (s, c) =
    redeliver_at ts n (redeliver handle_once n (s, record c { now = t }))

-- The consumer has processed the message: its key is held until `expiry`.
record IsDone (m : JetStreamMessage) (expiry : ℕ) (c : Consumer) : Type 0 where
  sorted : IsSorted c.dedup.entries
  held : lookup m.payload c.dedup.entries ≡ some expiry

module _ (n : ℕ) (m : JetStreamMessage) (s : InMemoryJetStream (Unit {0}))
    (sub : Subscription (Unit {0})) (one : subscribers m.subject s ≡ sub ∷ [])
    (logged : find n s.log ≡ some m) where
  redeliver_lem : (c : Consumer) → redeliver handle_once n (s, c) ≡ handle_once sub.handler m (s, c)
  unfolding redeliver redeliver_found
  redeliver_lem c =
      ap (λ o. redeliver_found handle_once o (s, c)) logged
      ∙ ap (λ subs. deliver handle_once subs m (s, c)) one
      ∙ unfold deliver in refl

  handle_again :
      (e : ℕ) (h : Unit {0}) (c : Consumer)
      → IsDone m e c
      → c.now < e
      → let st = handle_once h m (s, c) in
        (st.0 ≡ s) × IsDone m e st.1 × (st.1.processed ≡ c.processed)
  unfolding handle_once
  handle_again e h c d lt =
      let (refused, held) = insert_refuses c.now m.payload c.dedup d.sorted e d.held lt in
      (
        refl,
        record { sorted = insert-IsSorted c.now m.payload c.dedup d.sorted; held = held },
        rw refused,
      )

  redeliver_at_done :
      (ts : List ℕ) (e : ℕ) (c : Consumer)
      → IsDone m e c
      → All (λ t. t < e) ts
      → (redeliver_at ts n (s, c)).1.processed ≡ c.processed
  unfolding redeliver_at handle_once
  redeliver_at_done [] e c d h = refl
  redeliver_at_done (t ∷ ts) e c d h =
      let c' = record c { now = t } in
      let (kept, done, same) =
        handle_again e sub.handler c' (record { sorted = d.sorted; held = d.held }) h.0 in
      ap (λ st. (redeliver_at ts n st).1.processed) (redeliver_lem c')
      ∙ redeliver_at_done ts e (handle_once sub.handler m (s, c')).1 done h.1
      ∙ same

-- A message that is published to one such consumer and is novel for it is processed exactly once,
-- however often it is redelivered before its time to live is over.
pub publish_once :
    (subject payload : Bytes) (s : InMemoryJetStream (Unit {0})) (c : Consumer)
    (sub : Subscription (Unit {0})) (ts : List ℕ)
    → subscribers subject s ≡ sub ∷ []
    → IsSorted c.dedup.entries
    → (Dedup.insert c.now payload c.dedup).1 ≡ true
    → All (λ t. t < c.now + c.dedup.ttl) ts
    → (redeliver_at ts s.next_sequence (publish handle_once subject payload (s, c)).0).1.processed
      ≡ c.processed ++ message subject payload s.next_sequence ∷ []
publish_once subject payload s c sub ts one sorted novel h =
    let m = message subject payload s.next_sequence in
    let s1 = (append subject payload s).0 in
    let c1 = (handle_once sub.handler m (s1, c)).1 in
    let first : (publish handle_once subject payload (s, c)).0 ≡ (s1, c1) =
      unfold publish in
      ap (λ subs. deliver handle_once subs m (s1, c)) one ∙ unfold deliver handle_once in refl in
    let done : IsDone m (c.now + c.dedup.ttl) c1 =
      unfold handle_once in
      record {
        sorted = insert-IsSorted c.now payload c.dedup sorted;
        held = insert_accepts c.now payload c.dedup sorted novel;
      } in
    ap (λ st. (redeliver_at ts s.next_sequence st).1.processed) first
    ∙ redeliver_at_done s.next_sequence m s1 sub
        (append-subscribers subject payload s subject ∙ one) (find-append subject payload s) ts
        (c.now + c.dedup.ttl) c1 done h
    ∙ unfold handle_once in rw novel
