-- ===== src/Common/Metrics.antt =====
-- backend/services/common/src/metrics.cpp and include/uaop/common/metrics.h: the registry of
-- counters and gauges. A `shared_ptr` is the position of its object in a heap, or nothing if it is
-- null. `double` is a type `D`; its zero, its sum, the cast from an integer and the printing are
-- parameters.
pub mod Registry
pub mod Handles
pub mod Calls
pub mod Values
pub mod Scraper
pub mod Exposition
mod Tests
use uaop.Base.{
  ℕ, zero, suc, ◌+◌, ◌%◌, Bool, true, false, List, [], ◌∷◌, ◌++◌, Option, none, some, if◌then◌else◌,
}
use uaop.Base.Dict.{Dict, lookup, insert}
use uaop.Base.Lists.{length, get_elem?, modify}
use uaop.Base.Text.{Bytes, codes, equal}
use uaop.Base.Words.{u64_mod}

abbrev pub Labels : Type 0
Labels = Dict Bytes

pub data Kind : Type 0 where
  counter_kind gauge_kind : Kind

pub record MetricEntry : Type 0 where
  pub name : Bytes
  pub help : Bytes
  pub labels : Labels
  pub kind : Kind
  pub counter : Option ℕ
  pub gauge : Option ℕ

-- The registry, with the heaps of the counters' and the gauges' values.
pub record MetricRegistry (D : Type 0) : Type 0 where
  pub entries : List MetricEntry
  pub index : Dict ℕ
  pub counters : List ℕ
  pub gauges : List D

unfoldable pub empty_registry : {D : Type 0} → MetricRegistry D
empty_registry = record { entries = []; index = []; counters = []; gauges = [] }

-- The loop of `render_labels`.
unfoldable pub render_pairs : Bool → Labels → Bytes
render_pairs first [] = []
render_pairs first ((k, v) ∷ labels) =
    (if first then [] else codes ",")
    ++ (k ++ (codes "=\"" ++ (v ++ (codes "\"" ++ render_pairs false labels))))

unfoldable pub render_labels : Labels → Bytes
unfolding render_pairs
render_labels [] = []
render_labels (p ∷ labels) = codes "{" ++ (render_pairs true (p ∷ labels) ++ codes "}")

unfoldable pub key : Bytes → Labels → Bytes
unfolding render_labels
key name labels = name ++ render_labels labels

abbrev pub counter_of : Option MetricEntry → Option ℕ
counter_of none = none
counter_of (some e) = e.counter

abbrev pub gauge_of : Option MetricEntry → Option ℕ
gauge_of none = none
gauge_of (some e) = e.gauge

module _ {D : Type 0} where
  unfoldable pub add_counter :
      Option ℕ → Bytes → Bytes → Labels → MetricRegistry D → MetricRegistry D × Option ℕ
  add_counter (some i) name help labels r = (r, counter_of (get_elem? r.entries i))
  add_counter none name help labels r =
      let entry : MetricEntry = record {
        name = name;
        help = help;
        labels = labels;
        kind = counter_kind;
        counter = some (length r.counters);
        gauge = none;
      } in
      (
        record r {
          index = insert (key name labels) (length r.entries) r.index;
          entries = r.entries ++ entry ∷ [];
          counters = r.counters ++ 0 ∷ [];
        },
        entry.counter,
      )

  unfoldable pub counter : Bytes → Bytes → Labels → MetricRegistry D → MetricRegistry D × Option ℕ
  unfolding add_counter
  counter name help labels r = add_counter (lookup (key name labels) r.index) name help labels r

  unfoldable pub add_gauge :
      D → Option ℕ → Bytes → Bytes → Labels → MetricRegistry D → MetricRegistry D × Option ℕ
  add_gauge zero_double (some i) name help labels r = (r, gauge_of (get_elem? r.entries i))
  add_gauge zero_double none name help labels r =
      let entry : MetricEntry = record {
        name = name;
        help = help;
        labels = labels;
        kind = gauge_kind;
        counter = none;
        gauge = some (length r.gauges);
      } in
      (
        record r {
          index = insert (key name labels) (length r.entries) r.index;
          entries = r.entries ++ entry ∷ [];
          gauges = r.gauges ++ zero_double ∷ [];
        },
        entry.gauge,
      )

  unfoldable pub gauge : D → Bytes → Bytes → Labels → MetricRegistry D → MetricRegistry D × Option ℕ
  unfolding add_gauge
  gauge zero_double name help labels r =
      add_gauge zero_double (lookup (key name labels) r.index) name help labels r

  -- `Counter::increment` through a handle.
  unfoldable pub increment : ℕ → ℕ → MetricRegistry D → MetricRegistry D
  increment handle delta r = record r {
    counters = modify handle (λ v. (v + delta) % u64_mod) r.counters;
  }

  unfoldable pub set_gauge : ℕ → D → MetricRegistry D → MetricRegistry D
  set_gauge handle v r = record r { gauges = modify handle (λ old. v) r.gauges }

  unfoldable pub gauge_add : (D → D → D) → ℕ → D → MetricRegistry D → MetricRegistry D
  gauge_add plus handle delta r = record r {
    gauges = modify handle (λ old. plus old delta) r.gauges;
  }

-- The text of the value behind a handle, of which the entry holds one of its kind.
module _ {D : Type 0} (show_double : D → Bytes) (of_count : ℕ → D) where
  abbrev pub show_counter : Option ℕ → Bytes
  show_counter none = []
  show_counter (some n) = show_double (of_count n)

  abbrev pub show_gauge : Option D → Bytes
  show_gauge none = []
  show_gauge (some d) = show_double d

  abbrev pub at : {A : Type 0} → Option ℕ → List A → Option A
  at none heap = none
  at (some i) heap = get_elem? heap i

  unfoldable pub show_metric : MetricRegistry D → MetricEntry → Kind → Bytes
  show_metric r e counter_kind = show_counter (at e.counter r.counters)
  show_metric r e gauge_kind = show_gauge (at e.gauge r.gauges)

  unfoldable pub kind_name : Kind → Bytes
  kind_name counter_kind = codes "counter"
  kind_name gauge_kind = codes "gauge"

  unfoldable pub header : MetricEntry → Bytes
  unfolding kind_name
  header e =
      codes "# HELP "
      ++ (e.name
          ++ (codes " "
              ++ (e.help
                  ++ (codes "\n# TYPE "
                      ++ (e.name ++ (codes " " ++ (kind_name e.kind ++ codes "\n")))))))

  unfoldable pub sample : MetricRegistry D → MetricEntry → Bytes
  unfolding show_metric
  sample r e =
      e.name ++ (render_labels e.labels ++ (codes " " ++ (show_metric r e e.kind ++ codes "\n")))

  -- The loop of `render_prometheus`; after a header `last_name` is the entry's name, and else it
  -- is already.
  unfoldable pub render_entries : MetricRegistry D → Bytes → List MetricEntry → Bytes
  unfolding header sample
  render_entries r last_name [] = []
  render_entries r last_name (e ∷ es) =
      (if equal e.name last_name then [] else header e)
      ++ (sample r e ++ render_entries r e.name es)

  unfoldable pub render_prometheus : MetricRegistry D → Bytes
  unfolding render_entries
  render_prometheus r = render_entries r [] r.entries
