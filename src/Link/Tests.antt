-- ===== src/Link/Tests.antt =====
-- Runs of the link monitor, and the theorems at concrete inputs.
use uaop.Base.{◌≡◌, refl, ap, some, ◌++◌, List, [], ◌∷◌, true, false}
use uaop.Base.Text.{Bytes, codes}
use uaop.Base.Decimal.{to_string}
use uaop.Common.Result.{Error, transient, retryable, ok, err}
use uaop.Link.Monitor.{
  alive, lost, Transition, LinkMonitor, new, on_heartbeat, on_tick, time_regression,
}
use uaop.Link.Monitor.History.{Input, heartbeat, tick, run, step, expected, run-expected}
use uaop.Link.Monitor.Silence.{ticks, changes, ticks_lost_once}
use uaop.Link.Supervise.{EventPublisher, SuperviseLink, link_subject, link_payload}
use uaop.Link.Supervise
use uaop.Link.Stdout.{stdout_publish, read_lines, ends, supervise-read_lines}
use uaop.Link.Program.{main, main-then_alive}
use uaop.Base.Lists.{length}
use uaop.Link.Supervise.Events.{IsTrace, event, handle, supervise, supervise-sent}
use uaop.Base.{arith, map}

-- tools/service-template/src/main.cpp: heartbeats up to 2 s, then ticks up to 7 s.
abbrev main_history : List Input
main_history =
    tick 7000
    ∷ tick 6000
    ∷ tick 5000
    ∷ tick 4000
    ∷ tick 3000
    ∷ heartbeat 2000
    ∷ heartbeat 1000
    ∷ heartbeat 0
    ∷ []

run-main_history :
    run 3000 main_history ≡ record { timeout_ms = 3000; last_seen_ms = 2000; state = lost }
unfolding run step new on_heartbeat on_tick
run-main_history = refl

run-expected_example : (run 3000 main_history).state ≡ expected 3000 main_history
run-expected_example = run-expected 3000 main_history (omega arith)

abbrev live : LinkMonitor
live = record { timeout_ms = 3000; last_seen_ms = 2000; state = alive }

ticks_lost_once_example :
    ((ticks (3000 ∷ 6000 ∷ 7000 ∷ []) live).0.state ≡ lost)
    × (changes (ticks (3000 ∷ 6000 ∷ 7000 ∷ []) live).1 ≡ 1)
ticks_lost_once_example = ticks_lost_once (3000 ∷ 6000 ∷ 7000 ∷ []) live refl (omega arith)

-- A publisher that records what it is sent, and one that is out of order.
abbrev recorder : EventPublisher (List (Bytes × Bytes))
recorder sent s b = (sent ++ (s, b) ∷ [], ok tt)

abbrev unavailable : Error
unavailable = record { error_class = transient; code = codes "E_NATS"; message = codes "down" }

abbrev broken : EventPublisher (List (Bytes × Bytes))
broken sent s b = (sent, err unavailable)

abbrev start : SuperviseLink (List (Bytes × Bytes))
start = record { monitor = live; publisher = [] }

abbrev silence : List Input
silence = tick 3000 ∷ tick 6000 ∷ tick 7000 ∷ heartbeat 7500 ∷ []

supervise-sent_example :
    (ts : List Transition) × ((supervise recorder silence start).publisher ≡ map event ts)
    × IsTrace alive ts (supervise recorder silence start).monitor.state
supervise-sent_example = supervise-sent recorder (λ sent. sent) (λ p s b. refl) silence start

lost_payload :
    link_payload (record { from = alive; to = lost; changed = true })
    ≡ codes "{\"from\":1,\"to\":2}"
unfolding link_payload to_string
lost_payload = refl

regression_is_permanent : retryable time_regression ≡ false
unfolding retryable
regression_is_permanent = refl

abbrev print : Bytes → Bytes → Bytes
print out text = out ++ text

main-then_alive_example : main stdout_publish print [] ≡ record {
  publisher =
      codes
        "uaop.event.v1.tpl.link_state_changed {\"from\":0,\"to\":1}\nuaop.event.v1.tpl.link_state_changed {\"from\":1,\"to\":2}\nservice-template: done\n";
  cerr = [];
  status = 0;
}
unfolding stdout_publish link_payload to_string
main-then_alive_example = main-then_alive stdout_publish print []

main-broken : (main broken (λ sent text. sent) []).cerr ≡ codes "heartbeat error: down\n"
main-broken = ap (λ exit. exit.cerr) (main-then_alive broken (λ sent text. sent) [])

supervise-read_lines_example :
    let s = supervise stdout_publish silence (record { monitor = live; publisher = [] }) in
    (ts : List Transition) × (read_lines (length s.publisher) s.publisher ≡ some (map ends ts))
    × IsTrace alive ts s.monitor.state
supervise-read_lines_example = supervise-read_lines silence live

abbrev two_lines : Bytes
two_lines =
    codes
      "uaop.event.v1.tpl.link_state_changed {\"from\":1,\"to\":2}\nuaop.event.v1.tpl.link_state_changed {\"from\":2,\"to\":1}\n"

silence-printed :
    (supervise stdout_publish silence (record { monitor = live; publisher = [] })).publisher
    ≡ two_lines
unfolding stdout_publish supervise handle Supervise.heartbeat_received Supervise.tick on_heartbeat
    on_tick link_payload to_string
silence-printed = refl
