-- ===== src/Common/Metrics/Calls.antt =====
-- Handles over the life of a registry: whatever is called, a name with its labels keeps its handle.
use uaop.Base.{ℕ, ◌≡◌, refl, sym, ◌∙◌, ap, List, [], ◌∷◌, none, some, inl}
use uaop.Base.Dict.{lookup}
use uaop.Base.Text.{Bytes}
use uaop.Common.Metrics.{
  Labels, MetricRegistry, empty_registry, key, counter, gauge, increment, set_gauge, gauge_add,
}
use uaop.Common.Metrics.Handles.{
  Follows, Follows-refl, counter-Registered, gauge-Registered, find_entry-IsWired, wired_apart,
}
use uaop.Common.Metrics.Registry.{find_entry, IsConsistent, counter-found, gauge-found}

-- A call on the registry, or through a handle.
pub data Call (D : Type 0) : Type 0 where
  get_counter get_gauge : Bytes → Bytes → Labels → Call D
  count : ℕ → ℕ → Call D
  set_to add_to : ℕ → D → Call D

module _ {D : Type 0} (zero_double : D) (plus : D → D → D) where
  unfoldable pub perform : Call D → MetricRegistry D → MetricRegistry D
  perform (get_counter name help labels) r = (counter name help labels r).0
  perform (get_gauge name help labels) r = (gauge zero_double name help labels r).0
  perform (count h delta) r = increment h delta r
  perform (set_to h v) r = set_gauge h v r
  perform (add_to h delta) r = gauge_add plus h delta r

  -- The calls in their order.
  unfoldable pub run : List (Call D) → MetricRegistry D → MetricRegistry D
  run [] r = r
  run (c ∷ cs) r = run cs (perform c r)

  perform-Follows : (c : Call D) (r : MetricRegistry D) → IsConsistent r → Follows r (perform c r)
  unfolding perform
  perform-Follows (get_counter name help labels) r h =
      (counter-Registered name help labels r h).follows
  perform-Follows (get_gauge name help labels) r h =
      (gauge-Registered zero_double name help labels r h).follows
  perform-Follows (count i delta) r h =
      unfold increment in
      record { consistent = record { indexed = h.indexed; wired = h.wired }; kept = λ k e f. f }
  perform-Follows (set_to i v) r h =
      unfold set_gauge in
      record { consistent = record { indexed = h.indexed; wired = h.wired }; kept = λ k e f. f }
  perform-Follows (add_to i delta) r h =
      unfold gauge_add in
      record { consistent = record { indexed = h.indexed; wired = h.wired }; kept = λ k e f. f }

  pub run-Follows :
      (cs : List (Call D)) (r : MetricRegistry D) → IsConsistent r → Follows r (run cs r)
  unfolding run
  run-Follows [] r h = Follows-refl r h
  run-Follows (c ∷ cs) r h =
      let one = perform-Follows c r h in
      let more = run-Follows cs (perform c r) one.consistent in
      record { consistent = more.consistent; kept = λ k e f. more.kept k e (one.kept k e f) }

  pub empty-IsConsistent : IsConsistent (empty_registry {D = D})
  unfolding empty_registry lookup find_entry
  empty-IsConsistent = record { indexed = λ k. inl (refl, refl); wired = tt }

  pub counter_same_key :
      (before between : List (Call D)) (name help name_again help_again : Bytes)
      (labels labels_again : Labels)
      → key name labels ≡ key name_again labels_again
      → let (r, handle) = counter name help labels (run before empty_registry) in
        counter name_again help_again labels_again (run between r) ≡ (run between r, handle)
  counter_same_key before between name help name_again help_again labels labels_again same =
      let start = run-Follows before empty_registry empty-IsConsistent in
      let first =
        counter-Registered name help labels (run before empty_registry) start.consistent in
      let r = (counter name help labels (run before empty_registry)).0 in
      let later = run-Follows between r first.follows.consistent in
      counter-found name_again help_again labels_again (run between r) first.entry
        (later.consistent.indexed (key name_again labels_again))
        (ap (λ k. find_entry k (run between r).entries) (sym same)
          ∙ later.kept (key name labels) first.entry first.found)
      ∙ ap (λ h. (run between r, h)) (sym first.answer)

  -- Whatever calls were made before and are made in between, asking again for the same name and
  -- labels, with any help text, changes nothing and returns the handle of the first time.
  pub counter-again :
      (before between : List (Call D)) (name help help_again : Bytes) (labels : Labels)
      → let (r, handle) = counter name help labels (run before empty_registry) in
        counter name help_again labels (run between r) ≡ (run between r, handle)
  counter-again before between name help help_again labels =
      counter_same_key before between name help name help_again labels labels refl

  -- Asking for a gauge under a name and labels that once gave a counter returns a null handle.
  pub gauge_of_counter-none :
      (before between : List (Call D)) (name help help_again : Bytes) (labels : Labels) (h : ℕ)
      → (counter name help labels (run before empty_registry)).1 ≡ some h
      → gauge zero_double name help_again labels
          (run between (counter name help labels (run before empty_registry)).0)
        ≡ (run between (counter name help labels (run before empty_registry)).0, none)
  gauge_of_counter-none before between name help help_again labels h given =
      let start = run-Follows before empty_registry empty-IsConsistent in
      let first =
        counter-Registered name help labels (run before empty_registry) start.consistent in
      let r = (counter name help labels (run before empty_registry)).0 in
      let later = run-Follows between r first.follows.consistent in
      let found = later.kept (key name labels) first.entry first.found in
      gauge-found zero_double name help_again labels (run between r) first.entry
        (later.consistent.indexed (key name labels)) found
      ∙ ap (λ o. (run between r, o))
          (wired_apart first.entry h
            (find_entry-IsWired (key name labels) (run between r).entries first.entry
              later.consistent.wired found)
            (sym first.answer ∙ given))
