-- ===== src/Common/Stream/Delivery.antt =====
-- Who is called, with what: deliveries of the stream to handlers that leave the stream alone and
-- whose calls the program can observe.
use mathlib.Core.List.{append-nil, append_assoc}
use uaop.Base.{ℕ, ◌≡◌, refl, sym, ap, ◌∙◌, List, [], ◌∷◌, ◌++◌, map, Option, some}
use uaop.Base.Text.{Bytes}
use uaop.Common.Stream.{
  JetStreamMessage, message, Subscription, find, InMemoryJetStream, append, deliver, publish,
  redeliver, redeliver_found, subscribers,
}
use uaop.Common.Stream.Log.{find-append, append-subscribers}

-- The calls that a message makes: one for each subscription, in their order.
abbrev pub calls :
    {H : Type 0} → JetStreamMessage → List (Subscription H) → List (H × JetStreamMessage)
calls m = map (λ sub. (sub.handler, m))

module _ {H W : Type 0}
    (invoke : H → JetStreamMessage → InMemoryJetStream H × W → InMemoryJetStream H × W)
    (seen : W → List (H × JetStreamMessage))
    (quiet : (h : H) (m : JetStreamMessage) (s : InMemoryJetStream H) (w : W)
      → (invoke h m (s, w)).0 ≡ s)
    (records : (h : H) (m : JetStreamMessage) (s : InMemoryJetStream H) (w : W)
      → seen (invoke h m (s, w)).1 ≡ seen w ++ (h, m) ∷ []) where
  deliver-quiet :
      (subs : List (Subscription H)) (m : JetStreamMessage) (s : InMemoryJetStream H) (w : W)
      → (deliver invoke subs m (s, w)).0 ≡ s
  unfolding deliver
  deliver-quiet [] m s w = refl
  deliver-quiet (sub ∷ subs) m s w =
      deliver-quiet subs m _ (invoke sub.handler m (s, w)).1 ∙ quiet sub.handler m s w

  deliver-calls :
      (subs : List (Subscription H)) (m : JetStreamMessage) (s : InMemoryJetStream H) (w : W)
      → seen (deliver invoke subs m (s, w)).1 ≡ seen w ++ calls m subs
  unfolding deliver
  deliver-calls [] m s w = sym (append-nil (seen w))
  deliver-calls (sub ∷ subs) m s w =
      deliver-calls subs m _ (invoke sub.handler m (s, w)).1
      ∙ rw (records sub.handler m s w) (append_assoc (seen w) _ (calls m subs))

  redeliver_found-calls :
      (o : Option JetStreamMessage) (m : JetStreamMessage) (s : InMemoryJetStream H) (w : W)
      → o ≡ some m
      → (seen (redeliver_found invoke o (s, w)).1 ≡ seen w ++ calls m (subscribers m.subject s))
        × ((redeliver_found invoke o (s, w)).0 ≡ s)
  redeliver_found-calls o m s w e =
      rw (e) (unfold redeliver_found in (deliver-calls _ m s w, deliver-quiet _ m s w))

  redeliver-calls :
      (n : ℕ) (m : JetStreamMessage) (s : InMemoryJetStream H) (st : InMemoryJetStream H × W)
      → st.0 ≡ s
      → find n s.log ≡ some m
      → (seen (redeliver invoke n st).1 ≡ seen st.1 ++ calls m (subscribers m.subject s))
        × ((redeliver invoke n st).0 ≡ st.0)
  unfolding redeliver
  redeliver-calls n m s (s', w) q e =
      let (called, kept) =
        redeliver_found-calls (find n s'.log) m s' w (ap (λ r. find n r.log) q ∙ e) in
      (called ∙ ap (λ r. seen w ++ calls m (subscribers m.subject r)) q, kept)

  -- With handlers that leave the stream alone, neither publishing nor subscribing nor acknowledging,
  -- and a program that records every call of a handler: publishing calls the handler of every
  -- subscription to exactly this subject once, in the order of subscription, and no other, with the
  -- message under the next sequence number. Redelivering that number at once makes the same calls
  -- again and changes nothing in the stream.
  pub publish-redeliver :
      (subject payload : Bytes) (s : InMemoryJetStream H) (w : W)
      → let st = (publish invoke subject payload (s, w)).0 in
        let again = redeliver invoke s.next_sequence st in
        let made = calls (message subject payload s.next_sequence) (subscribers subject s) in
        (seen st.1 ≡ seen w ++ made) × (seen again.1 ≡ (seen w ++ made) ++ made) × (again.0 ≡ st.0)
  publish-redeliver subject payload s w =
      let m = message subject payload s.next_sequence in
      let s1 = (append subject payload s).0 in
      let first : seen (publish invoke subject payload (s, w)).0.1
          ≡ seen w ++ calls m (subscribers subject s) =
        unfold publish in deliver-calls (subscribers subject s) m _ w in
      let kept : (publish invoke subject payload (s, w)).0.0 ≡ s1 =
        unfold publish in deliver-quiet (subscribers subject s) m s1 w in
      let (second, kept2) =
        redeliver-calls s.next_sequence m s1 (publish invoke subject payload (s, w)).0 kept
          (find-append subject payload s) in
      (
        first,
        second
            ∙ rw first (
                ap (λ subs. (seen w ++ calls m (subscribers subject s)) ++ calls m subs)
                  (append-subscribers subject payload s subject)),
        kept2,
      )
