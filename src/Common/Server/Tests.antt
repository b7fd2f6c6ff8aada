-- ===== src/Common/Server/Tests.antt =====
-- Requests, and a server that is started and stopped.
use uaop.Base.{
  ℕ, zero, suc, ◌+◌, ◌≤◌, arith, ◌≡◌, refl, map, List, [], ◌∷◌, none, some, true, false,
}
use mathlib.Core.Option
use uaop.Base.Decimal.{to_string, is_digit, to_string-is_digit}
use uaop.Base.Lists.{length, All, get_elem?}
use uaop.Base.Dict.{lookup, insert}
use uaop.Base.Text.{Bytes, codes, equal, less}
use uaop.Common.Config.Store.{c_str}
use uaop.Common.Health.{HealthRegistry, set, fail, degraded, ok, overall}
use uaop.Common.Health.Worst.{Update, set_all}
use uaop.Common.Server.Probe.{probe, probe-latest}
use uaop.Common.Json.{then_read}
use uaop.Common.Metrics.{empty_registry, MetricRegistry, Labels, counter, gauge, key}
use uaop.Common.Metrics.Calls.{Call, get_counter, get_gauge, count, set_to, run, perform}
use uaop.Common.Metrics.Exposition.{sample_of}
use uaop.Common.Metrics.Scraper.{Lacks}
use uaop.Common.Server.Scrape.{scrape, value_of, scrape-counted}
use uaop.Common.Server.{
  HealthMetricsServer, not_started, Outcome, start, destroy, handle_connection, http_response,
}
use uaop.Common.Server.Loop
use uaop.Common.Server.Loop.{
  Listener, Action, thread_step, stop_called, waits, not_ready, ready, accepted, received, sent,
  receiving, exited, started_thread, step_from, act, reply_to, close_client,
}
use uaop.Common.Server.Loop.Stopping.{Returned, stop-exits}
use uaop.Common.Server.Sockets.{Reach, begin, started, IsHolding, destroy-IsHolding}

abbrev health : HealthRegistry
health = (codes "db", record { state = fail; reason = codes "down" }) ∷ []

handle_connection-unknown :
    handle_connection to_string (λ n. n) health empty_registry (codes "GET / HTTP/1.1\r\n\r\n")
    ≡ some (
        codes
          "HTTP/1.1 404 Not Found\r\nContent-Type: text/plain\r\nContent-Length: 10\r\nConnection: close\r\n\r\nnot found\n")
unfolding handle_connection c_str http_response to_string
handle_connection-unknown = refl

abbrev in_use : Outcome
in_use = record { socket = some 5; bind_ok = false; listen_ok = false; bound_port = none }

abbrev free : Outcome
free = record { socket = some 5; bind_ok = true; listen_ok = true; bound_port = some 40000 }

abbrev others : List ℕ
others = 1 ∷ 2 ∷ []

abbrev server : HealthMetricsServer
server = (start 0 free (start 9100 in_use (not_started others)).0).0

server-port : server.port ≡ 40000
unfolding start not_started
server-port = refl

server-Reach : Reach others server
unfolding start not_started
server-Reach =
    started 0 free (start 9100 in_use (not_started others)).0 (refl, (refl, tt))
      (started 9100 in_use (not_started others) (refl, (refl, tt)) begin)

destroy-IsHolding_example :
    IsHolding others server
    × ((destroy server).running ≡ false)
    × ((destroy server).joinable ≡ false)
    × ((destroy server).open_sockets ≡ others)
destroy-IsHolding_example = destroy-IsHolding others server server-Reach

-- A client is served, then `stop` is called while the thread waits for the next one.
abbrev served : List (Action ℕ)
served =
    thread_step not_ready
    ∷ thread_step ready
    ∷ thread_step waits
    ∷ thread_step (accepted 7)
    ∷ thread_step (received (codes "GET /x") health empty_registry)
    ∷ thread_step sent
    ∷ thread_step ready
    ∷ []

abbrev late : List (Action ℕ)
late =
    thread_step ready
    ∷ thread_step (accepted 8)
    ∷ thread_step (received (codes "GET /y") health empty_registry)
    ∷ stop_called
    ∷ thread_step sent
    ∷ thread_step not_ready
    ∷ []

abbrev at_stop : Listener
at_stop = Loop.run to_string (λ n. n) served started_thread

abbrev stopped : Listener
stopped = act to_string (λ n. n) stop_called at_stop

abbrev at_end : Listener
at_end = Loop.run to_string (λ n. n) late stopped

late-Returned : Returned to_string (λ n. n) late stopped
unfolding Loop.run act reply_to close_client handle_connection
late-Returned = (refl, (refl, (refl, (refl, (refl, tt)))))

stop-exits_example :
    (at_end.place ≡ exited)
    × (length at_end.replies ≤ length at_stop.replies + 1)
    × (at_end.clients ≡ [])
stop-exits_example = stop-exits to_string (λ n. n) served late (omega arith) late-Returned

late-replies : length at_end.replies ≡ 2
unfolding Loop.run act reply_to close_client handle_connection
late-replies = refl

-- A client that connects and sends nothing keeps the thread, and whoever joins it, waiting.
abbrev idle : List (Action ℕ)
idle = thread_step not_ready ∷ thread_step ready ∷ thread_step (accepted 7) ∷ stop_called ∷ []

abbrev wait_on : ℕ → List (Action ℕ)
wait_on zero = []
wait_on (suc n) = thread_step waits ∷ wait_on n

run-idle :
    Loop.run to_string (λ n. n) idle started_thread
    ≡ record { running = false; place = receiving 7; clients = 7 ∷ []; replies = [] }
unfolding Loop.run act
run-idle = refl

run-wait_on :
    (n fd : ℕ) (s : Listener)
    → s.place ≡ receiving fd
    → (Loop.run to_string (λ n. n) (wait_on n) s).place ≡ receiving fd
unfolding Loop.run act
run-wait_on zero fd s h = h
run-wait_on (suc n) fd s h =
    run-wait_on n fd (step_from to_string (λ n. n) s.place waits s) (simp h refl)

-- Whole numbers stand for doubles.
plain_digits : (s : Bytes) → All (λ c. is_digit c ≡ true) s → Lacks b'\n' s × Lacks b' ' s
plain_digits [] h = (tt, tt)
plain_digits (c ∷ s) h =
    let rest = plain_digits s h.1 in ((ground (arith, h.0), rest.0), (ground (arith, h.0), rest.1))

numbers_plain : (n : ℕ) → Lacks b'\n' (to_string n) × Lacks b' ' (to_string n)
numbers_plain n = plain_digits (to_string n) (to_string-is_digit n)

abbrev sum : ℕ → ℕ → ℕ
sum a b = a + b

abbrev before : List (Call ℕ)
before = get_gauge (codes "temp") (codes "T") [] ∷ []

abbrev later : List (Call ℕ)
later =
    count 0 2 ∷ get_counter (codes "req") (codes "H") [] ∷ count 1 5 ∷ set_to 0 7 ∷ count 0 1 ∷ []

abbrev eu : Labels
eu = (codes "r", codes "eu") ∷ []

abbrev asked : MetricRegistry ℕ
asked = (counter (codes "req") (codes "H") eu (run 0 sum before empty_registry)).0

first_handle : (counter (codes "req") (codes "H") eu (run 0 sum before empty_registry)).1 ≡ some 0
unfolding counter run perform gauge empty_registry lookup insert key equal less
first_handle = refl

first_value : get_elem? asked.counters 0 ≡ some 0
unfolding counter run perform gauge empty_registry lookup insert key equal less
first_value = refl

scrape-counted_example :
    let samples = scrape (
      handle_connection to_string
        (λ n. n)
        health
        (run 0 sum later asked)
        (codes "GET /metrics HTTP/1.1")) in
    (samples
      ≡ some (
          map
            (sample_of to_string (λ n. n) (run 0 sum later asked))
            (run 0 sum later asked).entries))
    × (then_read samples (value_of (key (codes "req") eu)) ≡ some (codes "3"))
unfolding to_string
scrape-counted_example =
    scrape-counted 0 sum to_string (λ n. n) health before later (codes "req") (codes "H") eu 0 0
      (codes " HTTP/1.1") numbers_plain (ground arith) (ground arith) (ground arith) first_handle
      (omega arith) first_value

abbrev posted : List Update
posted =
    (record { name = codes "nats"; state = degraded; reason = codes "slow" })
    ∷ (record { name = codes "db"; state = ok; reason = [] })
    ∷ (record { name = codes "nats"; state = fail; reason = codes "\"down\"" })
    ∷ []

probe-latest_example :
    let answer = probe (
      handle_connection to_string
        (λ n. n)
        (set_all posted)
        asked
        (codes "GET /healthz HTTP/1.1")) in
    (Option.map (λ r. r.0) answer ≡ some degraded)
    × (then_read answer (λ (status, checks). lookup (codes "nats") checks)
        ≡ some (record { state = degraded; reason = codes "slow" }))
unfolding overall set_all set insert equal less
probe-latest_example =
    probe-latest to_string (λ n. n) posted asked (codes " HTTP/1.1") (codes "nats")
      ((refl, refl), ((refl, refl), ((refl, refl), tt)))
