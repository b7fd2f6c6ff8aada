-- ===== src/Common/Server/Sockets.antt =====
-- The listener's socket over any sequence of `start` and `stop`.
use uaop.Base.{
  ℕ, ◌≡◌, refl, ◌∙◌, ap, true, false, Bool-cases, List, [], ◌∷◌, Option, none, some, ◌⊎◌, inl, inr,
  ◌==◌, if◌then◌else◌, arith,
}
use uaop.Base.Lists.{All, select}
use uaop.Common.Server.{
  HealthMetricsServer, not_started, Outcome, start, start_on, stop, destroy, close_socket,
}

-- `socket` never returns a descriptor that is open.
abbrev pub IsFresh : Option ℕ → List ℕ → Type 0
IsFresh none open_sockets = Unit
IsFresh (some fd) open_sockets = All (λ s. (s == fd) ≡ false) open_sockets

-- The servers that calls of `start` and `stop` lead to, where `others` are open from the outset.
pub data Reach (others : List ℕ) : HealthMetricsServer → Type 0 where
  begin : Reach others (not_started others)
  started :
      (port : ℕ) (out : Outcome) (s : HealthMetricsServer)
      → IsFresh out.socket s.open_sockets
      → Reach others s
      → Reach others (start port out s).0
  stopped : (s : HealthMetricsServer) → Reach others s → Reach others (stop s)

select_others :
    (fd : ℕ) (others : List ℕ)
    → All (λ s. (s == fd) ≡ false) others
    → select (λ s. if s == fd then false else true) others ≡ others
select_others fd [] h = refl
select_others fd (s ∷ others) h = rw h.0 (ap (λ r. s ∷ r) (select_others fd others h.1))

close_socket_fresh :
    (fd : ℕ) (others : List ℕ)
    → All (λ s. (s == fd) ≡ false) others
    → close_socket fd (fd ∷ others) ≡ others
unfolding close_socket
close_socket_fresh fd others h = rw (select_others fd others h) (ground arith)

-- The server is stopped and holds nothing, or it runs, holds one listening socket and its thread
-- can be joined.
abbrev pub IsHolding : List ℕ → HealthMetricsServer → Type 0
IsHolding others s =
    ((s.running ≡ false) × (s.listen_fd ≡ none) × (s.joinable ≡ false) × (s.open_sockets ≡ others))
    ⊎ ((fd : ℕ) × (s.running ≡ true)
        × (s.listen_fd ≡ some fd)
        × (s.joinable ≡ true)
        × (s.open_sockets ≡ fd ∷ others)
        × All (λ o. (o == fd) ≡ false) others)

start_on-IsHolding :
    (others : List ℕ) (o : Option ℕ) (port : ℕ) (out : Outcome) (s : HealthMetricsServer)
    → IsFresh o s.open_sockets
    → s.running ≡ false
    → s.listen_fd ≡ none
    → s.joinable ≡ false
    → s.open_sockets ≡ others
    → IsHolding others (start_on o port out s).0
unfolding start_on
start_on-IsHolding others none port out s fresh a b c d = inl (a, b, c, d)
start_on-IsHolding others (some fd) port out s fresh a b c d =
    let apart : All (λ o. (o == fd) ≡ false) others = rw d at fresh in
    let closed : close_socket fd (fd ∷ s.open_sockets) ≡ others =
      ap (λ os. close_socket fd (fd ∷ os)) d ∙ close_socket_fresh fd others apart in
    elim (Bool-cases out.bind_ok) [
      | inr failed ↦ simp failed (inl (a, b, c, closed))
      | inl bound ↦ simp bound (elim (Bool-cases out.listen_ok) [
        | inr failed ↦ simp failed (inl (a, b, c, closed))
        | inl listening ↦ simp listening (inr (fd, refl, refl, refl, ap (λ os. fd ∷ os) d, apart))
      ])
    ]

start-IsHolding :
    (others : List ℕ) (port : ℕ) (out : Outcome) (s : HealthMetricsServer)
    → IsFresh out.socket s.open_sockets
    → IsHolding others s
    → IsHolding others (start port out s).0
unfolding start
start-IsHolding others port out s fresh (inl (a, b, c, d)) =
    simp a (start_on-IsHolding others out.socket port out s fresh a b c d)
start-IsHolding others port out s fresh (inr (fd, a, b, c, d, apart)) =
    simp a (inr (fd, refl, b, c, d, apart))

stop-IsHolding :
    (others : List ℕ) (s : HealthMetricsServer)
    → IsHolding others s
    → ((stop s).running ≡ false)
      × ((stop s).listen_fd ≡ none)
      × ((stop s).joinable ≡ false)
      × ((stop s).open_sockets ≡ others)
unfolding stop
stop-IsHolding others s (inl (a, b, c, d)) = simp a (refl, b, c, d)
stop-IsHolding others s (inr (fd, a, b, c, d, apart)) =
    simp (a, b) (refl, refl, refl, ap (close_socket fd) d ∙ close_socket_fresh fd others apart)

pub Reach-IsHolding :
    (others : List ℕ) (s : HealthMetricsServer) → Reach others s → IsHolding others s
Reach-IsHolding others _ begin = unfold not_started in inl (refl, refl, refl, refl)
Reach-IsHolding others _ (started port out s fresh h) =
    start-IsHolding others port out s fresh (Reach-IsHolding others s h)
Reach-IsHolding others _ (stopped s h) = inl (stop-IsHolding others s (Reach-IsHolding others s h))

-- Whatever calls of `start` and `stop` were made, and however the socket calls ended, no socket
-- leaks: a running server holds exactly its listening socket, with a thread to join, and a
-- stopped one holds none. Destroying the server at any time closes its socket, leaves all others
-- open, and leaves no thread that could still be joined.
pub destroy-IsHolding :
    (others : List ℕ) (s : HealthMetricsServer)
    → Reach others s
    → IsHolding others s
      × ((destroy s).running ≡ false)
      × ((destroy s).joinable ≡ false)
      × ((destroy s).open_sockets ≡ others)
unfolding destroy
destroy-IsHolding others s reached =
    let holding = Reach-IsHolding others s reached in
    let (a, b, c, d) = stop-IsHolding others s holding in (holding, a, c, d)
