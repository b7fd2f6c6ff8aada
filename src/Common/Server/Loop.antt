-- ===== src/Common/Server/Loop.antt =====
-- The accept thread, `run`, beside the thread that calls `stop`: each step is one access of
-- `running_`, or one call of `select`, `accept`, `recv` or `send` that returns. The last three have
-- no time limit, so a call may wait as long as it likes.
pub mod Stopping
use uaop.Base.{ℕ, ◌++◌, Bool, true, false, List, [], ◌∷◌, Option, none, some, if◌then◌else◌}
use uaop.Base.Text.{Bytes}
use uaop.Common.Health.{HealthRegistry}
use uaop.Common.Metrics.{MetricRegistry}
use uaop.Common.Server.{handle_connection, close_socket}

-- Where the thread stands: before the loop's test, in one of the calls, or behind the loop.
pub data Place : Type 0 where
  checking polling accepting : Place
  receiving sending : ℕ → Place
  exited : Place

-- What the thread meets: its call has not returned, `select` finds no client (a timeout or an error)
-- or one, `accept` fails or opens a client's socket, `recv` returns what it read, with the registries
-- as they are then, or `send` returns.
pub data Poll (D : Type 0) : Type 0 where
  waits not_ready ready accept_failed : Poll D
  accepted : ℕ → Poll D
  received : Bytes → HealthRegistry → MetricRegistry D → Poll D
  sent : Poll D

-- A step of the accept thread, or what `stop` does first.
pub data Action (D : Type 0) : Type 0 where
  thread_step : Poll D → Action D
  stop_called : Action D

pub record Listener : Type 0 where
  pub running : Bool
  pub place : Place
  pub clients : List ℕ
  pub replies : List (ℕ × Bytes)

abbrev pub started_thread : Listener
started_thread = record { running = true; place = checking; clients = []; replies = [] }

-- The end of `handle_connection`, and the loop's next round.
unfoldable pub close_client : ℕ → Listener → Listener
close_client fd s = record s { clients = close_socket fd s.clients; place = checking }

-- What `handle_connection` does with what it read: nothing is sent where nothing was received.
unfoldable pub reply_to : ℕ → Option Bytes → Listener → Listener
unfolding close_client
reply_to fd none s = close_client fd s
reply_to fd (some reply) s = record s {
  replies = s.replies ++ (fd, reply) ∷ [];
  place = sending fd;
}

module _ {D : Type 0} (show_double : D → Bytes) (of_count : ℕ → D) where
  -- A poll that no call at this place can return leaves the thread waiting.
  abbrev pub step_from : Place → Poll D → Listener → Listener
  step_from checking p s = record s { place = if s.running then polling else exited }
  step_from polling not_ready s = record s { place = checking }
  step_from polling ready s = record s { place = accepting }
  step_from accepting accept_failed s = record s { place = checking }
  step_from accepting (accepted fd) s = record s { clients = fd ∷ s.clients; place = receiving fd }
  step_from (receiving fd) (received bytes health metrics) s =
      reply_to fd (handle_connection show_double of_count health metrics bytes) s
  step_from (sending fd) sent s = close_client fd s
  step_from place p s = s

  unfoldable pub act : Action D → Listener → Listener
  act (thread_step p) s = step_from s.place p s
  act stop_called s = record s { running = false }

  -- The actions in their order.
  unfoldable pub run : List (Action D) → Listener → Listener
  run [] s = s
  run (a ∷ actions) s = run actions (act a s)

-- The call at this place returns so; the test of the loop always does.
abbrev pub returns : {D : Type 0} → Place → Poll D → Bool
returns checking p = true
returns polling not_ready = true
returns polling ready = true
returns accepting accept_failed = true
returns accepting (accepted fd) = true
returns (receiving fd) (received bytes health metrics) = true
returns (sending fd) sent = true
returns exited p = true
returns place p = false
