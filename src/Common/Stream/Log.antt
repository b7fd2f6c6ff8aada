-- ===== src/Common/Stream/Log.antt =====
-- The log of the stream: it holds exactly the messages published, each under its own sequence.
use uaop.Base.{
  ℕ, ◌+◌, ◌≤◌, ◌<◌, ◌≡◌, ◌⊎◌, refl, ◌∙◌, false, [], ◌∷◌, Option, none, some, ltb, ◌==◌,
  if◌then◌else◌, arith, Bool-cases, inl, inr,
}
use uaop.Base.Text.{Bytes}
use uaop.Common.Stream.{
  JetStreamMessage, message, Log, find, store, InMemoryJetStream, append, ack, subscribe, publish,
  redeliver, new, subscribers,
}
use uaop.Base.Words.{u64_mod}

pub find-store :
    (n k : ℕ) (msg : JetStreamMessage) (log : Log)
    → find n (store k msg log) ≡ (if n == k then some msg else find n log)
unfolding find store
find-store n k msg [] = refl
find-store n k msg ((j, old) ∷ log) = ground (arith, find-store n k msg log)

module _ {H : Type 0} (subject payload : Bytes) (s : InMemoryJetStream H) where
  -- The message that was just published is found under its number.
  pub find-append :
      find s.next_sequence (append subject payload s).0.log
      ≡ some (message subject payload s.next_sequence)
  unfolding append
  find-append =
      find-store s.next_sequence s.next_sequence (message subject payload s.next_sequence) s.log
      ∙ ground arith

  pub append-subscribers :
      (t : Bytes) → subscribers t (append subject payload s).0 ≡ subscribers t s
  unfolding append
  append-subscribers t = refl

-- What is found under a number: the message that bears it.
abbrev pub Holds : ℕ → Option JetStreamMessage → Type 0
Holds n none = ⊥
Holds n (some msg) = msg.stream_sequence ≡ n

-- While numbers are left: the log holds a message under each number from 1 up to the last one given,
-- and nothing else.
pub record IsConsistent (next : ℕ) (log : Log) : Type 0 where
  pub positive : 0 < next
  pub left : next < u64_mod
  pub published : (n : ℕ) → 0 < n → n < next → Holds n (find n log)
  pub nothing_else : (n : ℕ) → next ≤ n → find n log ≡ none
  pub not_zero : find 0 log ≡ none

-- The numbers have wrapped around: the next one is 0, or a message had the number 0.
abbrev pub IsExhausted : ℕ → Log → Type 0
IsExhausted next log = (next ≡ 0) ⊎ ((msg : JetStreamMessage) × (find 0 log ≡ some msg))

abbrev pub IsSound : {H : Type 0} → InMemoryJetStream H → Type 0
IsSound s = IsConsistent s.next_sequence s.log ⊎ IsExhausted s.next_sequence s.log

module _ {H : Type 0} where
  module _ (subject payload : Bytes) (s : InMemoryJetStream H) where
    module _ (room : s.next_sequence + 1 < u64_mod) (c : IsConsistent s.next_sequence s.log) where
      append-published :
          (n : ℕ)
          → 0 < n
          → n < (append subject payload s).0.next_sequence
          → Holds n (find n (append subject payload s).0.log)
      unfolding append
      append-published n p q = elim (Bool-cases (n == s.next_sequence)) [
        | inl e ↦ rw (find-store n s.next_sequence) (rw e (ground arith))
        | inr e ↦ rw (find-store n s.next_sequence) (rw e (c.published n p (ground arith)))
      ]

      append-nothing_else :
          (n : ℕ)
          → (append subject payload s).0.next_sequence ≤ n
          → find n (append subject payload s).0.log ≡ none
      unfolding append
      append-nothing_else n p =
          find-store n s.next_sequence _ s.log ∙ ground (arith, c.nothing_else n)

      append-IsConsistent :
          IsConsistent (append subject payload s).0.next_sequence (append subject payload s).0.log
      append-IsConsistent = record {
        positive = unfold append in omega arith;
        left = unfold append in omega arith;
        published = append-published;
        nothing_else = append-nothing_else;
        not_zero =
            unfold append in find-store 0 s.next_sequence _ s.log ∙ ground (arith, c.not_zero);
      }

    last-IsExhausted :
        IsConsistent s.next_sequence s.log
        → ltb (s.next_sequence + 1) u64_mod ≡ false
        → (append subject payload s).0.next_sequence ≡ 0
    unfolding append
    last-IsExhausted c full = ground (arith, c.left, full)

    append-IsExhausted :
        IsExhausted s.next_sequence s.log
        → IsExhausted (append subject payload s).0.next_sequence (append subject payload s).0.log
    append-IsExhausted e = elim (Bool-cases (0 == s.next_sequence)) [
      | inl here ↦
          let stored = message subject payload s.next_sequence in
          inr (stored, unfold append in find-store 0 s.next_sequence stored s.log ∙ rw here refl)
      | inr other ↦ elim e [
        | inl wrapped ↦ absurd (ground (arith, other, wrapped))
        | inr (msg, found) ↦
            inr (msg, unfold append in find-store 0 s.next_sequence _ s.log ∙ rw other found)
      ]
    ]

    pub append-IsSound : IsSound s → IsSound (append subject payload s).0
    append-IsSound (inr gone) = inr (append-IsExhausted gone)
    append-IsSound (inl c) = elim (Bool-cases (ltb (s.next_sequence + 1) u64_mod)) [
      | inl room ↦ inl (append-IsConsistent (ground (arith, room)) c)
      | inr full ↦ inr (inl (last-IsExhausted c full))
    ]

  pub ack-IsSound : (n : ℕ) (s : InMemoryJetStream H) → IsSound s → IsSound (ack n s)
  unfolding ack
  ack-IsSound n s c = elim (Bool-cases (ltb s.last_acked n)) [ inl e ↦ rw e c | inr e ↦ rw e c ]

module _ {H W : Type 0}
    (invoke : H → JetStreamMessage → InMemoryJetStream H × W → InMemoryJetStream H × W) where
  -- The states that the operations reach from a new stream.
  pub data Reach : InMemoryJetStream H × W → Type 0 where
    start : (w : W) → Reach (new, w)
    published :
        {st : InMemoryJetStream H × W} (subject payload : Bytes)
        → Reach st
        → Reach (publish invoke subject payload st).0
    redelivered : {st : InMemoryJetStream H × W} (n : ℕ) → Reach st → Reach (redeliver invoke n st)
    subscribed :
        {st : InMemoryJetStream H × W} (subject durable_name : Bytes) (h : H)
        → Reach st
        → Reach ((subscribe subject durable_name h st.0).0, st.1)
    acked : {st : InMemoryJetStream H × W} (n : ℕ) → Reach st → Reach (ack n st.0, st.1)
