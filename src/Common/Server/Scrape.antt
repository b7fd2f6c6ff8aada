-- ===== src/Common/Server/Scrape.antt =====
-- A scrape from end to end: calls on the registry, a request for the metrics, and the values that
-- the client reads in the answer.
use mathlib.Core.Option
use uaop.Base.{
  ℕ, ◌+◌, ◌%◌, ◌<◌, ◌≡◌, refl, sym, ◌∙◌, ap, List, [], ◌∷◌, ◌++◌, map, Option, some, none,
  if◌then◌else◌, Bool-cases, inl, inr,
}
use uaop.Base.Dict.{lookup}
use uaop.Base.Lists.{All, All-append, get_elem?}
use uaop.Base.Text.{Bytes, codes, equal}
use uaop.Base.Words.{u64_mod}
use uaop.Common.Config.Store.{c_str}
use uaop.Common.Health.{HealthRegistry}
use uaop.Common.Json.{then_read}
use uaop.Common.Metrics.{
  Labels, MetricEntry, MetricRegistry, empty_registry, key, counter, gauge, add_counter, add_gauge,
  increment, set_gauge, gauge_add, show_metric, render_prometheus,
}
use uaop.Common.Metrics.Calls.{
  Call, get_counter, get_gauge, count, set_to, add_to, perform, run, run-Follows,
  empty-IsConsistent,
}
use uaop.Common.Metrics.Exposition.{
  IsClean, IsCleanEntry, sample_of, read_exposition-render_prometheus,
}
use uaop.Common.Metrics.Handles.{counter-Registered, find_entry-IsWired}
use uaop.Common.Metrics.Registry.{find_entry, entry_key, IsWired}
use uaop.Common.Metrics.Scraper.{Lacks, Samples, read_exposition}
use uaop.Common.Metrics.Values.{counted, counters-run}
use uaop.Common.Server.{handle_connection}
use uaop.Common.Server.Response.{read_response, body_for, handle_connection-read}

-- The text of the first sample of a series.
unfoldable pub value_of : Bytes → Samples → Option Bytes
value_of k [] = none
value_of k ((series, value) ∷ samples) =
    let rest = value_of k samples in if equal k series then some value else rest

-- What a client makes of the bytes received.
unfoldable pub scrape : Option Bytes → Option Samples
scrape sent =
    then_read (Option.map read_response sent)
      (λ response. then_read response (λ (n, body). read_exposition body))

abbrev pub IsCleanCall : {D : Type 0} → Call D → Type 0
IsCleanCall (get_counter name help labels) = IsClean name help labels
IsCleanCall (get_gauge name help labels) = IsClean name help labels
IsCleanCall (count h delta) = Unit
IsCleanCall (set_to h v) = Unit
IsCleanCall (add_to h v) = Unit

abbrev IsCleanRegistry : {D : Type 0} → MetricRegistry D → Type 0
IsCleanRegistry r = All IsCleanEntry r.entries

module _ {D : Type 0} (zero_double : D) (plus : D → D → D) where
  add_counter-clean :
      (o : Option ℕ) (name help : Bytes) (labels : Labels) (r : MetricRegistry D)
      → IsClean name help labels
      → IsCleanRegistry r
      → IsCleanRegistry (add_counter o name help labels r).0
  unfolding add_counter
  add_counter-clean (some i) name help labels r c h = h
  add_counter-clean none name help labels r c h = All-append IsCleanEntry r.entries _ h (c, tt)

  counter-clean :
      (name help : Bytes) (labels : Labels) (r : MetricRegistry D)
      → IsClean name help labels
      → IsCleanRegistry r
      → IsCleanRegistry (counter name help labels r).0
  unfolding counter
  counter-clean name help labels r c h =
      add_counter-clean (lookup (key name labels) r.index) name help labels r c h

  empty-clean : IsCleanRegistry (empty_registry {D = D})
  unfolding empty_registry
  empty-clean = tt

  add_gauge-clean :
      (o : Option ℕ) (name help : Bytes) (labels : Labels) (r : MetricRegistry D)
      → IsClean name help labels
      → IsCleanRegistry r
      → IsCleanRegistry (add_gauge zero_double o name help labels r).0
  unfolding add_gauge
  add_gauge-clean (some i) name help labels r c h = h
  add_gauge-clean none name help labels r c h = All-append IsCleanEntry r.entries _ h (c, tt)

  perform-clean :
      (c : Call D) (r : MetricRegistry D)
      → IsCleanCall c
      → IsCleanRegistry r
      → IsCleanRegistry (perform zero_double plus c r)
  unfolding perform
  perform-clean (get_counter name help labels) r c h = counter-clean name help labels r c h
  perform-clean (get_gauge name help labels) r c h =
      unfold gauge in add_gauge-clean (lookup (key name labels) r.index) name help labels r c h
  perform-clean (count i delta) r c h = unfold increment in h
  perform-clean (set_to i v) r c h = unfold set_gauge in h
  perform-clean (add_to i v) r c h = unfold gauge_add in h

  run-clean :
      (cs : List (Call D)) (r : MetricRegistry D)
      → All IsCleanCall cs
      → IsCleanRegistry r
      → IsCleanRegistry (run zero_double plus cs r)
  unfolding run
  run-clean [] r c h = h
  run-clean (d ∷ cs) r c h =
      run-clean cs (perform zero_double plus d r) c.1 (perform-clean d r c.0 h)

module _ {D : Type 0} (show_double : D → Bytes) (of_count : ℕ → D) where
  value_of-find_entry :
      (k : Bytes) (r : MetricRegistry D) (es : List MetricEntry)
      → value_of k (map (sample_of show_double of_count r) es)
        ≡ Option.map (λ e. show_metric show_double of_count r e e.kind) (find_entry k es)
  unfolding value_of find_entry
  value_of-find_entry k r [] = refl
  value_of-find_entry k r (e ∷ es) = elim (Bool-cases (equal k (entry_key e))) [
    | inl here ↦ rw (here) refl
    | inr there ↦ rw (there) (value_of-find_entry k r es)
  ]

  counter_value :
      (e : MetricEntry) (r : MetricRegistry D) (h n : ℕ)
      → IsWired e
      → e.counter ≡ some h
      → get_elem? r.counters h ≡ some n
      → show_metric show_double of_count r e e.kind ≡ show_double (of_count n)
  unfolding show_metric
  counter_value e r h n (inl (i, a, b, c)) given held = simp (a, given, held) refl
  counter_value e r h n (inr (i, a, b, c)) given held =
      (let clash : Path (Option ℕ) none (some h) = sym b ∙ given in cc)

  scrape-metrics :
      (health : HealthRegistry) (r : MetricRegistry D) (rest : Bytes)
      → ((d : D) → Lacks b'\n' (show_double d) × Lacks b' ' (show_double d))
      → IsCleanRegistry r
      → scrape (handle_connection show_double of_count health r (codes "GET /metrics" ++ rest))
        ≡ some (map (sample_of show_double of_count r) r.entries)
  unfolding scrape
  scrape-metrics health r rest doubles clean =
      let routed : body_for show_double of_count health r (c_str (codes "GET /metrics" ++ rest))
          ≡ render_prometheus show_double of_count r =
        unfold c_str in refl in
      rw (handle_connection-read show_double of_count health r b'G' (codes "ET /metrics" ++ rest)) (
        ap read_exposition routed
        ∙ read_exposition-render_prometheus show_double of_count doubles r clean)

module _ {D : Type 0} (zero_double : D) (plus : D → D → D) (show_double : D → Bytes)
    (of_count : ℕ → D) where
  -- If no text registered holds a line feed, no name starts with `#`, and the printing of doubles
  -- yields neither spaces nor line feeds, then whatever was registered and updated before, a
  -- request for `/metrics` is answered so that the client reads for a counter that held `v` the
  -- text of `v` and all increments made through its handle since, modulo 2^64, and reads exactly
  -- the registered series.
  pub scrape-counted :
      (health : HealthRegistry) (before later : List (Call D)) (name help : Bytes) (labels : Labels)
      (h v : ℕ) (request : Bytes)
      → ((d : D) → Lacks b'\n' (show_double d) × Lacks b' ' (show_double d))
      → All IsCleanCall before
      → IsClean name help labels
      → All IsCleanCall later
      → (counter name help labels (run zero_double plus before empty_registry)).1 ≡ some h
      → v < u64_mod
      → get_elem?
          (counter name help labels (run zero_double plus before empty_registry)).0.counters
          h
        ≡ some v
      → let r =
          run zero_double plus later
            (counter name help labels (run zero_double plus before empty_registry)).0 in
        let samples =
          scrape
            (handle_connection show_double of_count health r (codes "GET /metrics" ++ request)) in
        (samples ≡ some (map (sample_of show_double of_count r) r.entries))
        × (then_read samples (value_of (key name labels))
            ≡ some (show_double (of_count ((v + counted h later) % u64_mod))))
  scrape-counted health before later name help labels h v request doubles c0 c1 c2 given b held =
      let start =
        run-Follows zero_double plus before empty_registry (empty-IsConsistent zero_double plus) in
      let r0 = run zero_double plus before empty_registry in
      let first = counter-Registered name help labels r0 start.consistent in
      let r1 = (counter name help labels r0).0 in
      let since = run-Follows zero_double plus later r1 first.follows.consistent in
      let r = run zero_double plus later r1 in
      let found = since.kept (key name labels) first.entry first.found in
      let read = scrape-metrics show_double of_count health r request doubles (
        run-clean zero_double plus later r1 c2 (
          counter-clean zero_double plus name help labels r0 c1 (
            run-clean zero_double plus before empty_registry c0 (empty-clean zero_double plus)))) in
      (
        read,
        rw read (
            value_of-find_entry show_double of_count (key name labels) r r.entries
            ∙ rw found (
                ap (λ s. some s)
                  (counter_value show_double of_count first.entry r h
                    ((v + counted h later) % u64_mod)
                    (find_entry-IsWired (key name labels) r.entries first.entry
                      since.consistent.wired found)
                    (sym first.answer ∙ given)
                    (counters-run zero_double plus later r1 h v b held)))),
      )
