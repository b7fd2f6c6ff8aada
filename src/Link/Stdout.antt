-- ===== src/Link/Stdout.antt =====
-- tools/service-template/src/adapters/stdout_publisher.h: the publisher that prints, and what can
-- be read back from its output. The state is the text written to `std::cout` so far.
use uaop.Base.{
  ℕ, zero, suc, ◌≤◌, ◌≡◌, refl, List, [], ◌∷◌, ◌++◌, map, Option, none, some, Bool, ◌==◌,
  if◌then◌else◌, arith,
}
use uaop.Base.Lists.{length, length-append, flat_map}
use uaop.Base.Text.{Bytes, codes, strip_prefix}
use uaop.Base.Decimal.{to_string}
use uaop.Common.Result.{ok}
use uaop.Common.Json.{then_read}
use uaop.Link.Monitor.{LinkState, never_seen, alive, lost, Transition, LinkMonitor}
use uaop.Link.Monitor.History.{Input}
use uaop.Link.Supervise.{EventPublisher, link_subject, link_payload}
use uaop.Link.Supervise.Events.{IsTrace, event, supervise, supervise-outputs}

abbrev pub line : Bytes × Bytes → Bytes
line (subject, payload) = subject ++ (b' ' ∷ (payload ++ b'\n' ∷ []))

unfoldable pub stdout_publish : EventPublisher Bytes
stdout_publish out subject payload = (out ++ line (subject, payload), ok tt)

-- A reader of the output: the states of each line.
abbrev read_state : Bytes → Option (LinkState × Bytes)
read_state [] = none
read_state (c ∷ s) =
    if c == b'0'
    then some (never_seen, s)
    else (if c == b'1' then some (alive, s) else (if c == b'2' then some (lost, s) else none))

unfoldable pub read_line : Bytes → Option ((LinkState × LinkState) × Bytes)
read_line s = then_read (strip_prefix (link_subject ++ codes " {\"from\":") s) (λ s1.
    then_read (read_state s1) (λ (from, s2). then_read (strip_prefix (codes ",\"to\":") s2) (λ s3.
      then_read (read_state s3)
        (λ (to, s4). then_read (strip_prefix (codes "}\n") s4) (λ s5. some ((from, to), s5))))))

-- The fuel bounds the number of lines.
unfoldable pub read_lines : ℕ → Bytes → Option (List (LinkState × LinkState))
read_lines fuel [] = some []
read_lines zero (c ∷ s) = none
read_lines (suc fuel) (c ∷ s) =
    then_read (read_line (c ∷ s))
      (λ (t, rest). then_read (read_lines fuel rest) (λ ts. some (t ∷ ts)))

abbrev pub ends : Transition → LinkState × LinkState
ends t = (t.from, t.to)

read_line-states :
    (a b : LinkState) (c : Bool) (rest : Bytes)
    → read_line (line (event (record { from = a; to = b; changed = c })) ++ rest)
      ≡ some ((a, b), rest)
unfolding read_line link_payload to_string
read_line-states never_seen never_seen c rest = refl
read_line-states never_seen alive c rest = refl
read_line-states never_seen lost c rest = refl
read_line-states alive never_seen c rest = refl
read_line-states alive alive c rest = refl
read_line-states alive lost c rest = refl
read_line-states lost never_seen c rest = refl
read_line-states lost alive c rest = refl
read_line-states lost lost c rest = refl

read_line-line :
    (t : Transition) (rest : Bytes) → read_line (line (event t) ++ rest) ≡ some (ends t, rest)
read_line-line t rest = read_line-states t.from t.to t.changed rest

abbrev pub printed : List Transition → Bytes
printed = flat_map (λ t. line (event t))

read_lines-printed :
    (ts : List Transition) (fuel : ℕ)
    → length ts ≤ fuel
    → read_lines fuel (printed ts) ≡ some (map ends ts)
unfolding read_lines
read_lines-printed [] fuel h = refl
read_lines-printed (t ∷ ts) zero h = elim h [ ]
read_lines-printed (t ∷ ts) (suc fuel) h =
    rw (read_line-line t (printed ts), read_lines-printed ts fuel (omega arith)) refl

length-printed : (ts : List Transition) → length ts ≤ length (printed ts)
length-printed [] = omega arith
length-printed (t ∷ ts) =
    rw (length-append (line (event t)) (printed ts)) (omega (arith, length-printed ts))

read_lines-outputs :
    (ts : List Transition) (out : Bytes)
    → out ≡ printed ts
    → read_lines (length out) out ≡ some (map ends ts)
read_lines-outputs ts out e =
    simp e (read_lines-printed ts (length (printed ts)) (length-printed ts))

-- Over any run of the use case with this publisher, the text printed is read back as the changes of
-- the link's state, one line each: they lead from the first state to the last, each to another
-- state.
pub supervise-read_lines :
    (is : List Input) (m : LinkMonitor)
    → let s = supervise stdout_publish is (record { monitor = m; publisher = [] }) in
      (ts : List Transition) × (read_lines (length s.publisher) s.publisher ≡ some (map ends ts))
      × IsTrace m.state ts s.monitor.state
unfolding stdout_publish
supervise-read_lines is m =
    let (ts, printed_ts, trace) =
      supervise-outputs stdout_publish (λ out. out) line (λ out s b. refl) is
        (record { monitor = m; publisher = [] }) in
    (ts, read_lines-outputs ts _ printed_ts, trace)
