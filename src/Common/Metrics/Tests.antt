-- ===== src/Common/Metrics/Tests.antt =====
-- A registry with three series, and the theorems on it.
use uaop.Base.{ℕ, ◌+◌, ◌≡◌, refl, List, [], ◌∷◌, some}
use uaop.Base.Decimal.{to_string}
use uaop.Base.Dict.{insert, lookup}
use uaop.Base.Text.{codes, equal, less}
use uaop.Common.Metrics.{
  Labels, MetricRegistry, empty_registry, counter, gauge, increment, set_gauge, gauge_add, key,
  render_prometheus,
}
use uaop.Common.Metrics.Calls.{
  Call, get_counter, get_gauge, count, set_to, add_to, perform, run, counter-again,
}

-- Whole numbers stand for doubles.
abbrev plus : ℕ → ℕ → ℕ
plus a b = a + b

abbrev eu : Labels
eu = (codes "r", codes "eu") ∷ []

abbrev calls : List (Call ℕ)
calls =
    get_counter (codes "req") (codes "H") eu
    ∷ get_gauge (codes "temp") (codes "T") []
    ∷ get_counter (codes "req") (codes "H") []
    ∷ count 0 2
    ∷ count 1 5
    ∷ count 0 1
    ∷ set_to 0 7
    ∷ add_to 0 4
    ∷ []

-- The series of one name are not next to each other, so its header is written twice.
render_prometheus-calls :
    render_prometheus to_string (λ n. n) (run 0 plus calls empty_registry)
    ≡ codes
        "# HELP req H\n# TYPE req counter\nreq{r=\"eu\"} 3\n# HELP temp T\n# TYPE temp gauge\ntemp 11\n# HELP req H\n# TYPE req counter\nreq 5\n"
unfolding render_prometheus run perform gauge_add set_gauge increment counter lookup gauge
    empty_registry insert equal key less to_string
render_prometheus-calls = refl

counter-again_example :
    counter
      (codes "req")
      (codes "other")
      eu
      (run 0 plus calls (counter (codes "req") (codes "H") eu empty_registry).0)
    ≡ (
      run 0 plus calls (counter (codes "req") (codes "H") eu empty_registry).0,
      (counter (codes "req") (codes "H") eu (empty_registry {D = ℕ})).1,
    )
unfolding run
counter-again_example = counter-again 0 plus [] calls (codes "req") (codes "H") (codes "other") eu

req_handle : (counter (codes "req") (codes "H") eu (run 0 plus [] empty_registry)).1 ≡ some 0
unfolding counter run empty_registry lookup
req_handle = refl

abbrev two : MetricRegistry ℕ
two = record { entries = []; index = []; counters = 3 ∷ 0xffffffffffffffff ∷ []; gauges = [] }
