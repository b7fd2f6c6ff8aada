-- ===== src/Common/Server/Loop/Stopping.antt =====
-- What is left to do for the accept thread once `stop` was called.
use uaop.Base.{
  ℕ, suc, ◌+◌, ◌-◌, ◌≤◌, ◌≡◌, refl, sym, ◌∙◌, ap, true, false, List, [], ◌∷◌, Option, none, some,
  arith,
}
use uaop.Base.Lists.{length, length-append}
use uaop.Base.Text.{Bytes}
use uaop.Common.Server.{handle_connection, close_socket}
use uaop.Common.Server.Loop.{
  Place, checking, polling, accepting, receiving, sending, exited, Poll, not_ready, ready,
  accept_failed, accepted, received, sent, Action, thread_step, stop_called, Listener,
  started_thread, close_client, reply_to, step_from, act, run, returns,
}

-- The steps of the thread among the actions.
abbrev pub thread_steps : {D : Type 0} → List (Action D) → ℕ
thread_steps [] = 0
thread_steps (thread_step p ∷ actions) = suc (thread_steps actions)
thread_steps (stop_called ∷ actions) = thread_steps actions

-- How many steps, and how many replies, a stopped server has left.
abbrev steps_left : Place → ℕ
steps_left checking = 1
steps_left polling = 5
steps_left accepting = 4
steps_left (receiving fd) = 3
steps_left (sending fd) = 2
steps_left exited = 0

abbrev replies_left : Place → ℕ
replies_left polling = 1
replies_left accepting = 1
replies_left (receiving fd) = 1
replies_left place = 0

-- The client's socket that is open at this place.
abbrev held : Place → List ℕ
held (receiving fd) = fd ∷ []
held (sending fd) = fd ∷ []
held place = []

record Stopped (s s' : Listener) (steps : ℕ) : Type 0 where
  running_kept : s'.running ≡ false
  nearer : steps_left s'.place ≤ steps_left s.place - steps
  no_more : length s'.replies + replies_left s'.place ≤ length s.replies + replies_left s.place

reply_to-Stopped :
    (fd : ℕ) (reply : Option Bytes) (s : Listener)
    → s.place ≡ receiving fd
    → s.running ≡ false
    → Stopped s (reply_to fd reply s) 1
unfolding reply_to close_client
reply_to-Stopped fd none s e h = record {
  running_kept = h;
  nearer = ground (arith, e);
  no_more = ground (arith, e);
}
reply_to-Stopped fd (some reply) s e h = record {
  running_kept = h;
  nearer = ground (arith, e);
  no_more = ground (arith, e, length-append s.replies ((fd, reply) ∷ []));
}

close_only : (fd : ℕ) (fds : List ℕ) → fds ≡ fd ∷ [] → close_socket fd fds ≡ []
unfolding close_socket
close_only fd fds h = rw h (ground arith)

reply_to-held :
    (fd : ℕ) (reply : Option Bytes) (s : Listener)
    → s.clients ≡ fd ∷ []
    → (reply_to fd reply s).clients ≡ held (reply_to fd reply s).place
unfolding reply_to close_client
reply_to-held fd none s h = close_only fd s.clients h
reply_to-held fd (some reply) s h = h

module _ {D : Type 0} (show_double : D → Bytes) (of_count : ℕ → D) where
  -- Every call of the thread among the actions returns.
  abbrev pub Returned : List (Action D) → Listener → Type 0
  Returned [] s = Unit
  Returned (thread_step p ∷ actions) s =
      (returns s.place p ≡ true) × Returned actions (act show_double of_count (thread_step p) s)
  Returned (stop_called ∷ actions) s = Returned actions (act show_double of_count stop_called s)

  step_from-Stopped :
      (pl : Place) (p : Poll D) (s : Listener)
      → s.place ≡ pl
      → s.running ≡ false
      → returns pl p ≡ true
      → Stopped s (step_from show_double of_count pl p s) 1
  step_from-Stopped (receiving fd) (received bytes health metrics) s e h r =
      reply_to-Stopped fd (handle_connection show_double of_count health metrics bytes) s e h
  step_from-Stopped (sending fd) sent s e h r =
      unfold close_client in
      record { running_kept = h; nearer = ground (arith, e); no_more = ground (arith, e) }
  step_from-Stopped checking p s e h r = record {
    running_kept = h;
    nearer = ground (arith, e);
    no_more = ground (arith, e);
  }
  step_from-Stopped polling not_ready s e h r = record {
    running_kept = h;
    nearer = ground (arith, e);
    no_more = ground (arith, e);
  }
  step_from-Stopped polling ready s e h r = record {
    running_kept = h;
    nearer = ground (arith, e);
    no_more = ground (arith, e);
  }
  step_from-Stopped accepting accept_failed s e h r = record {
    running_kept = h;
    nearer = ground (arith, e);
    no_more = ground (arith, e);
  }
  step_from-Stopped accepting (accepted fd) s e h r = record {
    running_kept = h;
    nearer = ground (arith, e);
    no_more = ground (arith, e);
  }
  step_from-Stopped exited p s e h r = record {
    running_kept = h;
    nearer = ground (arith, e);
    no_more = ground (arith, e);
  }
  step_from-Stopped pl p s e h r = cc

  run-Stopped :
      (actions : List (Action D)) (s : Listener)
      → s.running ≡ false
      → Returned actions s
      → Stopped s (run show_double of_count actions s) (thread_steps actions)
  unfolding run act
  run-Stopped [] s h r = record { running_kept = h; nearer = omega arith; no_more = omega arith }
  run-Stopped (thread_step p ∷ actions) s h r =
      let one = step_from-Stopped s.place p s refl h r.0 in
      let more =
        run-Stopped actions (step_from show_double of_count s.place p s) one.running_kept r.1 in
      record {
        running_kept = more.running_kept;
        nearer = omega (arith, one.nearer, more.nearer);
        no_more = omega (arith, one.no_more, more.no_more);
      }
  run-Stopped (stop_called ∷ actions) s h r =
      let more = run-Stopped actions (record s { running = false }) refl r in
      record { running_kept = more.running_kept; nearer = more.nearer; no_more = more.no_more }

  -- Whatever the calls do, only the client that is being served has an open socket.
  step_from-held :
      (pl : Place) (p : Poll D) (s : Listener)
      → s.place ≡ pl
      → s.clients ≡ held pl
      → (step_from show_double of_count pl p s).clients
        ≡ held (step_from show_double of_count pl p s).place
  step_from-held (receiving fd) (received bytes health metrics) s e h =
      reply_to-held fd (handle_connection show_double of_count health metrics bytes) s h
  step_from-held (sending fd) sent s e h = unfold close_client in close_only fd s.clients h
  step_from-held checking p s e h = ground (arith, h)
  step_from-held polling not_ready s e h = h
  step_from-held polling ready s e h = h
  step_from-held accepting accept_failed s e h = h
  step_from-held accepting (accepted fd) s e h = ap (λ fds. fd ∷ fds) h
  step_from-held pl p s e h = h ∙ ap held (sym e)

  act-held :
      (a : Action D) (s : Listener)
      → s.clients ≡ held s.place
      → (act show_double of_count a s).clients ≡ held (act show_double of_count a s).place
  unfolding act
  act-held (thread_step p) s h = step_from-held s.place p s refl h
  act-held stop_called s h = h

  run-held :
      (actions : List (Action D)) (s : Listener)
      → s.clients ≡ held s.place
      → (run show_double of_count actions s).clients
        ≡ held (run show_double of_count actions s).place
  unfolding run
  run-held [] s h = h
  run-held (a ∷ actions) s h = run-held actions (act show_double of_count a s) (act-held a s h)

  exited_of_steps_left : (pl : Place) → steps_left pl ≤ 0 → pl ≡ exited
  exited_of_steps_left exited h = refl
  exited_of_steps_left pl h = absurd (omega (arith, h))

  steps_left-le : (pl : Place) → (steps_left pl ≤ 5) × (replies_left pl ≤ 1)
  steps_left-le checking = omega arith
  steps_left-le polling = omega arith
  steps_left-le accepting = omega arith
  steps_left-le (receiving fd) = omega arith
  steps_left-le (sending fd) = omega arith
  steps_left-le exited = omega arith

  -- Whatever the server has done before, once `stop` has cleared `running_` the accept thread leaves
  -- its loop after at most five of its own steps, if the calls it makes in them return. By then it
  -- has replied to at most one more client, and every client's socket is closed.
  pub stop-exits :
      (before after : List (Action D))
      → 5 ≤ thread_steps after
      → Returned after
          (act show_double of_count stop_called (run show_double of_count before started_thread))
      → let s = run show_double of_count before started_thread in
        let s' = run show_double of_count after (act show_double of_count stop_called s) in
        (s'.place ≡ exited) × (length s'.replies ≤ length s.replies + 1) × (s'.clients ≡ [])
  unfolding act
  stop-exits before after h r =
      let s = run show_double of_count before started_thread in
      let stopped = record s { running = false } in
      let left = run-Stopped after stopped refl r in
      let (steps, replies) = steps_left-le s.place in
      let s' = run show_double of_count after stopped in
      let ended : s'.place ≡ exited =
        exited_of_steps_left s'.place (omega (arith, left.nearer, steps, h)) in
      (
        ended,
        omega (arith, left.no_more, replies),
        run-held after stopped (run-held before started_thread refl) ∙ ap held ended,
      )
