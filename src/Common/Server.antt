-- ===== src/Common/Server.antt =====
-- backend/services/common/src/health_metrics_server.cpp and its header: the listener for
-- `GET /healthz` and `GET /metrics`. What the socket calls return are arguments; the sockets that
-- are open are part of the state.
pub mod Response
pub mod Sockets
pub mod Loop
pub mod Scrape
pub mod Probe
mod Tests
use uaop.Base.{ℕ, Bool, true, false, List, [], ◌∷◌, ◌++◌, Option, none, some, ◌==◌, if◌then◌else◌}
use uaop.Base.Decimal.{to_string}
use uaop.Base.Lists.{length, select}
use uaop.Base.Text.{Bytes, codes}
use uaop.Common.Config.Store.{c_str}
use uaop.Common.Health.{HealthRegistry, render_json}
use uaop.Common.Metrics.{MetricRegistry, render_prometheus}

unfoldable pub http_response : ℕ → Bytes → Bytes → Bytes → Bytes
http_response status status_text content_type body =
    codes "HTTP/1.1 "
    ++ (to_string status
        ++ (codes " "
            ++ (status_text
                ++ (codes "\r\nContent-Type: "
                    ++ (content_type
                        ++ (codes "\r\nContent-Length: "
                            ++ (to_string (length body)
                                ++ (codes "\r\nConnection: close\r\n\r\n" ++ body))))))))

-- `request.rfind(prefix, 0) == 0`.
abbrev pub starts_with : Bytes → Bytes → Bool
starts_with [] s = true
starts_with (c ∷ p) [] = false
starts_with (c ∷ p) (d ∷ s) = let rest = starts_with p s in if c == d then rest else false

module _ {D : Type 0} (show_double : D → Bytes) (of_count : ℕ → D) where
  unfoldable pub respond : HealthRegistry → MetricRegistry D → Bytes → Bytes
  respond health metrics request =
      if starts_with (codes "GET /healthz") request
      then http_response 200 (codes "OK") (codes "application/json") (render_json health)
      else if starts_with (codes "GET /metrics") request
      then http_response 200 (codes "OK") (codes "text/plain; version=0.0.4")
          (render_prometheus show_double of_count metrics)
      else http_response 404 (codes "Not Found") (codes "text/plain") (codes "not found\n")

  -- What `recv` put into the buffer, and what is sent; nothing is sent if it received nothing.
  -- The buffer becomes a `std::string` up to its first NUL.
  unfoldable pub handle_connection : HealthRegistry → MetricRegistry D → Bytes → Option Bytes
  unfolding respond
  handle_connection health metrics [] = none
  handle_connection health metrics (c ∷ buf) = some (respond health metrics (c_str (c ∷ buf)))

-- The members that `start` and `stop` use, and the process's open sockets.
pub record HealthMetricsServer : Type 0 where
  pub port : ℕ
  pub listen_fd : Option ℕ
  pub running : Bool
  pub joinable : Bool
  pub open_sockets : List ℕ

unfoldable pub not_started : List ℕ → HealthMetricsServer
not_started open_sockets = record {
  port = 0;
  listen_fd = none;
  running = false;
  joinable = false;
  open_sockets = open_sockets;
}

-- What the socket calls of one `start` return: a new socket or an error, whether `bind` and
-- `listen` succeed, and the port that `getsockname` gives, if it succeeds.
pub record Outcome : Type 0 where
  pub socket : Option ℕ
  pub bind_ok : Bool
  pub listen_ok : Bool
  pub bound_port : Option ℕ

unfoldable pub close_socket : ℕ → List ℕ → List ℕ
close_socket fd open_sockets = select (λ s. if s == fd then false else true) open_sockets

abbrev pub chosen_port : ℕ → Option ℕ → ℕ
chosen_port port none = port
chosen_port port (some bound) = if port == 0 then bound else port

-- `start` behind the call of `socket`.
unfoldable pub start_on : Option ℕ → ℕ → Outcome → HealthMetricsServer → HealthMetricsServer × Bool
start_on none port out s = (s, false)
start_on (some fd) port out s =
    let opened = fd ∷ s.open_sockets in
    if out.bind_ok
    then if out.listen_ok
      then (
        record s {
          port = chosen_port port out.bound_port;
          listen_fd = some fd;
          running = true;
          joinable = true;
          open_sockets = opened;
        },
        true,
      )
      else (record s { open_sockets = close_socket fd opened }, false)
    else (record s { open_sockets = close_socket fd opened }, false)

unfoldable pub start : ℕ → Outcome → HealthMetricsServer → HealthMetricsServer × Bool
unfolding start_on close_socket
start port out s = if s.running then (s, false) else start_on out.socket port out s

abbrev pub close_listener : Option ℕ → HealthMetricsServer → HealthMetricsServer
close_listener none s = s
close_listener (some fd) s = record s {
  listen_fd = none;
  open_sockets = close_socket fd s.open_sockets;
}

-- What `stop` has left behind when it returns: it joins the accept thread, which leaves its loop once
-- `running` is false, but waits in `accept`, `recv` and `send` without a time limit (`Loop`).
unfoldable pub stop : HealthMetricsServer → HealthMetricsServer
unfolding close_socket
stop s =
    if s.running
    then record (close_listener s.listen_fd (record s { running = false })) { joinable = false }
    else s

-- `~HealthMetricsServer`.
unfoldable pub destroy : HealthMetricsServer → HealthMetricsServer
unfolding stop
destroy s = stop s
