-- ===== src/Gateway/Streams/Gaps.antt =====
-- The frames of a stream account for all its messages.
use mathlib.Core.List.{append_assoc, append-nil}
use uaop.Base.{
  ℕ, zero, suc, ◌+◌, ◌^◌, ◌≤◌, ◌≡◌, ◌⊎◌, refl, sym, ◌∙◌, ap, Bool-cases, Option-cases, inl, inr,
  List, [], ◌∷◌, ◌++◌, Option, none, some, ltb, arith,
}
use uaop.Base.Lists.{length, flat_map-append}
use uaop.Base.Text.{Bytes}
use uaop.Gateway.Value.{Numbers, Value}
use uaop.Gateway.Streams.{
  StreamState, Frame, gap, Message, plus_one, new_state, min_interval, should_forward, report_gap,
  relay, pump_one, pump,
}
use uaop.Gateway.Streams.Client.{
  missed, entries_of, replay, IsNumbered, Shaped, done, unshaped, due, early,
}

missed-suc : (n : ℕ) (out : List (Option Bytes)) → missed (suc n) ++ out ≡ missed n ++ none ∷ out
missed-suc zero out = refl
missed-suc (suc n) out = ap (λ l. none ∷ l) (missed-suc n out)

-- A message that is relayed.
record Relayed {D : Type 0} (msg : Message D) (state : StreamState D)
    (r : StreamState D × List Frame) : Type 0 where
  key : r.0.key ≡ state.key
  none_dropped : r.0.dropped ≡ 0
  next_seq : r.0.seq ≡ suc state.seq
  same_interval : r.0.min_interval_ms ≡ state.min_interval_ms
  same_last : r.0.last_forwarded_at ≡ state.last_forwarded_at
  read : replay r.1 ≡ missed state.dropped ++ some msg.payload ∷ []
  numbered :
      (rest : List Frame)
      → IsNumbered state.key (suc state.seq) rest
      → IsNumbered state.key state.seq (r.1 ++ rest)

plus_one_lem : (n : ℕ) → suc n ≤ 2 ^ 53 → plus_one n ≡ suc n
unfolding plus_one
plus_one_lem n b = ground arith

report_gap-cases :
    {D : Type 0} (state : StreamState D)
    → (report_gap state ≡ (record state { dropped = 0 }, gap state.key state.dropped ∷ []))
      ⊎ ((state.dropped ≡ 0) × (report_gap state ≡ (state, [])))
unfolding report_gap
report_gap-cases state = elim (Bool-cases (ltb 0 state.dropped)) [
  | inl any ↦ inl (rw any refl)
  | inr zero_dropped ↦ inr (ground arith, rw zero_dropped refl)
]

module _ {D : Type 0} where
  relay-Relayed :
      (msg : Message D) (state : StreamState D)
      → suc state.seq ≤ 2 ^ 53
      → Relayed msg state (relay msg state)
  unfolding relay
  relay-Relayed msg state b = elim (report_gap-cases state) [
    | inl e ↦
        rw (e, plus_one_lem state.seq b)
          (record {
            key = refl;
            none_dropped = refl;
            next_seq = refl;
            same_interval = refl;
            same_last = refl;
            read = refl;
            numbered = λ rest h. (refl, (refl, refl, h));
          })
    | inr (z, e) ↦
        rw (e, plus_one_lem state.seq b)
          (record {
            key = refl;
            none_dropped = z;
            next_seq = refl;
            same_interval = refl;
            same_last = refl;
            read = rw z refl;
            numbered = λ rest h. (refl, refl, h);
          })
  ]

-- The messages of a stream from any state on, split at what was dropped before.
record Accounted {D : Type 0} (num : Numbers D) (state : StreamState D) (msgs : List (Message D))
    (r : StreamState D × List Frame) : Type 0 where
  out : List (Option Bytes)
  shaped : Shaped num state.min_interval_ms state.last_forwarded_at msgs out
  read : replay r.1 ++ missed r.0.dropped ≡ missed state.dropped ++ out
  numbered : IsNumbered state.key state.seq r.1

module _ {D : Type 0} (num : Numbers D) where
  pump-relayed :
      (msg : Message D) (msgs : List (Message D)) (state : StreamState D)
      → state.seq + suc (length msgs) ≤ 2 ^ 53
      → ((relay msg state).0.seq + length msgs ≤ 2 ^ 53
          → (relay msg state).0.dropped + length msgs ≤ 2 ^ 53
          → Accounted num (relay msg state).0 msgs (pump num msgs (relay msg state).0))
      → (out : List (Option Bytes)) × Shaped num state.min_interval_ms state.last_forwarded_at msgs
          out
        × (replay ((relay msg state).1 ++ (pump num msgs (relay msg state).0).1)
              ++ missed (pump num msgs (relay msg state).0).0.dropped
            ≡ missed state.dropped ++ some msg.payload ∷ out)
        × IsNumbered state.key state.seq
            ((relay msg state).1 ++ (pump num msgs (relay msg state).0).1)
  pump-relayed msg msgs state b accounted =
      let first = relay-Relayed msg state (omega (arith, b)) in
      let rest =
        accounted (rw first.next_seq (omega (arith, b)))
          (rw first.none_dropped (omega (arith, b))) in
      let frames = (pump num msgs (relay msg state).0).1 in
      let left = missed (pump num msgs (relay msg state).0).0.dropped in
      let later : replay frames ++ left ≡ rest.out = rw first.none_dropped at rest.read in
      let whole : replay ((relay msg state).1 ++ frames) ++ left
          ≡ missed state.dropped ++ some msg.payload ∷ rest.out =
        ap (λ l. l ++ left) (flat_map-append entries_of (relay msg state).1 frames)
        ∙ append_assoc (replay (relay msg state).1) (replay frames) left
        ∙ rw (first.read, later)
            (append_assoc (missed state.dropped) (some msg.payload ∷ []) rest.out) in
      (
        rest.out,
        rw (first.same_interval, first.same_last) at rest.shaped,
        whole,
        first.numbered frames (rw (first.key, first.next_seq) at rest.numbered),
      )

  pump-Accounted :
      (msgs : List (Message D)) (state : StreamState D)
      → state.seq + length msgs ≤ 2 ^ 53
      → state.dropped + length msgs ≤ 2 ^ 53
      → Accounted num state msgs (pump num msgs state)
  unfolding pump pump_one should_forward
  pump-Accounted [] state a b = record {
    out = [];
    shaped = done state.last_forwarded_at;
    read = sym (append-nil (missed state.dropped));
    numbered = tt;
  }
  pump-Accounted (msg ∷ msgs) state a b =
      let now = record state { last_forwarded_at = msg.now_ms } in
      let one_more = record state { dropped = plus_one state.dropped } in
      let counted = plus_one_lem state.dropped (omega (arith, b)) in
      elim (Bool-cases (num.equals state.min_interval_ms num.zero_number)) [
        | inl every ↦
            let (out, h, r, n) =
              pump-relayed msg msgs state a (pump-Accounted msgs (relay msg state).0) in
            rw every (record {
              out = some msg.payload ∷ out;
              shaped = unshaped _ msg msgs out every h;
              read = r;
              numbered = n;
            })
        | inr shaping ↦
            elim (Bool-cases
              (num.at_least (num.minus msg.now_ms state.last_forwarded_at) state.min_interval_ms)) [
                | inl is_due ↦
                    let (out, h, r, n) =
                      pump-relayed msg msgs now a (pump-Accounted msgs (relay msg now).0) in
                    rw (shaping, is_due)
                      (record {
                        out = some msg.payload ∷ out;
                        shaped = due _ msg msgs out shaping is_due h;
                        read = r;
                        numbered = n;
                      })
                | inr is_early ↦
                    let rest =
                      pump-Accounted msgs one_more (omega (arith, a))
                        (rw counted (omega (arith, b))) in
                    rw (shaping, is_early)
                      (record {
                        out = none ∷ rest.out;
                        shaped = early _ msg msgs rest.out shaping is_early rest.shaped;
                        read =
                            rest.read
                            ∙ ap (λ n. missed n ++ rest.out) counted
                            ∙ missed-suc state.dropped rest.out;
                        numbered = rest.numbered;
                      })
              ]
      ]

module _ {D : Type 0} (num : Numbers D) where
  -- For a new stream and at most 2^53 messages: the frames are all of this stream, those relayed
  -- are numbered from 1 on, and counting the gaps and the relayed messages, with those dropped
  -- since, gives for each message of the source its payload where the rate lets it pass, and
  -- nothing where it does not.
  pub pump-Shaped :
      (key : Bytes) (rate : Value D) (state : StreamState D) (msgs : List (Message D))
      → new_state num key rate ≡ some state
      → length msgs ≤ 2 ^ 53
      → IsNumbered key 0 (pump num msgs state).1
        × Shaped num state.min_interval_ms num.zero_number msgs
            (replay (pump num msgs state).1 ++ missed (pump num msgs state).0.dropped)
  unfolding new_state
  pump-Shaped key rate state msgs made b = elim (Option-cases (min_interval num rate)) [
    | inl throws ↦
        let none_some : Path (Option (StreamState D)) none (some state) =
          rw (throws, new_state) at made in
        cc
    | inr (interval, e) ↦
        let fresh : StreamState D = record {
          key = key;
          seq = 0;
          dropped = 0;
          min_interval_ms = interval;
          last_forwarded_at = num.zero_number;
        } in
        let given : Path (Option (StreamState D)) (some fresh) (some state) =
          rw (e, new_state) at made in
        let same : fresh ≡ state = cc in
        let all = pump-Accounted num msgs fresh (omega (arith, b)) (omega (arith, b)) in
        rw (← same) (all.numbered, rw (sym all.read) at all.shaped)
  ]
