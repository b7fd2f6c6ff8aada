-- ===== src/Common/Metrics/Exposition.antt =====
-- What a scraper reads back from the registry's exposition.
use mathlib.Core.List.{append_assoc}
use uaop.Base.{
  ℕ, ◌≡◌, refl, ◌∙◌, ap, Bool, true, false, List, [], ◌∷◌, ◌++◌, map, Option, some, none, arith,
  Bool-cases, inl, inr,
}
use uaop.Base.Lists.{All}
use uaop.Base.Text.{Bytes, codes, equal}
use uaop.Common.Json.{then_read}
use uaop.Common.Metrics.{
  Labels, Kind, counter_kind, gauge_kind, MetricEntry, MetricRegistry, key, render_pairs,
  render_labels, kind_name, header, sample, show_counter, show_gauge, at, show_metric,
  render_entries, render_prometheus,
}
use uaop.Common.Metrics.Registry.{entry_key}
use uaop.Common.Metrics.Scraper.{
  is_comment, read_samples, lines_from, read_exposition, Lacks, Lacks-append, read_samples-comment,
  read_samples-sample,
}

-- What a metric's texts must keep to: no line feeds, and a name that starts no comment.
abbrev pub IsClean : Bytes → Bytes → Labels → Type 0
IsClean name help labels =
    (is_comment name ≡ false)
    × Lacks b'\n' name
    × Lacks b'\n' help
    × All (λ (k, v). Lacks b'\n' k × Lacks b'\n' v) labels

abbrev pub IsCleanEntry : MetricEntry → Type 0
IsCleanEntry e = IsClean e.name e.help e.labels

pair-Lacks :
    (k v rest : Bytes)
    → Lacks b'\n' k
    → Lacks b'\n' v
    → Lacks b'\n' rest
    → Lacks b'\n' (k ++ (codes "=\"" ++ (v ++ (codes "\"" ++ rest))))
pair-Lacks k v rest hk hv h =
    Lacks-append b'\n' k _ hk (refl, (refl, Lacks-append b'\n' v _ hv (refl, h)))

render_pairs-Lacks :
    (first : Bool) (labels : Labels)
    → All (λ (k, v). Lacks b'\n' k × Lacks b'\n' v) labels
    → Lacks b'\n' (render_pairs first labels)
unfolding render_pairs
render_pairs-Lacks first [] h = tt
render_pairs-Lacks true ((k, v) ∷ labels) h =
    pair-Lacks k v (render_pairs false labels) h.0.0 h.0.1 (render_pairs-Lacks false labels h.1)
render_pairs-Lacks false ((k, v) ∷ labels) h = (
  refl,
  pair-Lacks k v (render_pairs false labels) h.0.0 h.0.1 (render_pairs-Lacks false labels h.1),
)

render_labels-Lacks :
    (labels : Labels)
    → All (λ (k, v). Lacks b'\n' k × Lacks b'\n' v) labels
    → Lacks b'\n' (render_labels labels)
unfolding render_labels
render_labels-Lacks [] h = tt
render_labels-Lacks (p ∷ labels) h = (
  refl,
  Lacks-append b'\n' (render_pairs true (p ∷ labels)) _ (render_pairs-Lacks true (p ∷ labels) h)
      (refl, tt),
)

module _ {D : Type 0} (show_double : D → Bytes) (of_count : ℕ → D) where
  -- The series and the value that an entry stands for.
  abbrev pub sample_of : MetricRegistry D → MetricEntry → Bytes × Bytes
  sample_of r e = (entry_key e, show_metric show_double of_count r e e.kind)

module _ {D : Type 0} (show_double : D → Bytes) (of_count : ℕ → D)
    (doubles : (d : D) → Lacks b'\n' (show_double d) × Lacks b' ' (show_double d)) where
  counter_text-Lacks :
      (o : Option ℕ)
      → Lacks b'\n' (show_counter show_double of_count o)
        × Lacks b' ' (show_counter show_double of_count o)
  counter_text-Lacks none = (tt, tt)
  counter_text-Lacks (some n) = doubles (of_count n)

  gauge_text-Lacks :
      (o : Option D)
      → Lacks b'\n' (show_gauge show_double of_count o)
        × Lacks b' ' (show_gauge show_double of_count o)
  gauge_text-Lacks none = (tt, tt)
  gauge_text-Lacks (some d) = doubles d

  show_metric-Lacks :
      (r : MetricRegistry D) (e : MetricEntry) (k : Kind)
      → Lacks b'\n' (show_metric show_double of_count r e k)
        × Lacks b' ' (show_metric show_double of_count r e k)
  unfolding show_metric
  show_metric-Lacks r e counter_kind =
      counter_text-Lacks (at show_double of_count e.counter r.counters)
  show_metric-Lacks r e gauge_kind = gauge_text-Lacks (at show_double of_count e.gauge r.gauges)

  kind_name-Lacks : (k : Kind) → Lacks b'\n' (kind_name show_double of_count k)
  unfolding kind_name
  kind_name-Lacks counter_kind = ground arith
  kind_name-Lacks gauge_kind = ground arith

  header-skipped :
      (e : MetricEntry) (rest : Bytes)
      → IsCleanEntry e
      → read_exposition (header show_double of_count e ++ rest) ≡ read_exposition rest
  unfolding header
  header-skipped e rest h =
      let help_line : Bytes = codes "# HELP " ++ (e.name ++ (codes " " ++ e.help)) in
      let kind : Bytes = kind_name show_double of_count e.kind in
      let type_line : Bytes = codes "# TYPE " ++ (e.name ++ (codes " " ++ kind)) in
      let two_lines : header show_double of_count e ++ rest
          ≡ help_line ++ b'\n' ∷ (type_line ++ b'\n' ∷ rest) =
        simp append_assoc refl in
      ap read_exposition two_lines
      ∙ read_samples-comment help_line (type_line ++ b'\n' ∷ rest)
          (Lacks-append b'\n' (codes "# HELP ") _ (ground arith)
            (Lacks-append b'\n' e.name _ h.1 (refl, h.2)))
          refl
      ∙ read_samples-comment type_line rest
          (Lacks-append b'\n' (codes "# TYPE ") _ (ground arith)
            (Lacks-append b'\n' e.name _ h.1 (refl, kind_name-Lacks e.kind)))
          refl

  sample-read :
      (r : MetricRegistry D) (e : MetricEntry) (rest : Bytes)
      → IsCleanEntry e
      → read_exposition (sample show_double of_count r e ++ rest)
        ≡ then_read (read_exposition rest) (λ ps. some (sample_of show_double of_count r e ∷ ps))
  unfolding sample key
  sample-read r e rest h =
      let value : Bytes = show_metric show_double of_count r e e.kind in
      let line : sample show_double of_count r e ++ rest
          ≡ (key e.name e.labels ++ b' ' ∷ value) ++ b'\n' ∷ rest =
        simp append_assoc refl in
      ap read_exposition line
      ∙ read_samples-sample e.name e.labels value rest h.0
          (Lacks-append b'\n' e.name _ h.1 (render_labels-Lacks e.labels h.3))
          (show_metric-Lacks r e e.kind).0 (show_metric-Lacks r e e.kind).1

  render_entries-read :
      (r : MetricRegistry D) (last_name : Bytes) (es : List MetricEntry)
      → All IsCleanEntry es
      → read_exposition (render_entries show_double of_count r last_name es)
        ≡ some (map (sample_of show_double of_count r) es)
  unfolding render_entries
  render_entries-read r last_name [] h = unfold read_exposition lines_from read_samples in refl
  render_entries-read r last_name (e ∷ es) h =
      let rest = render_entries show_double of_count r e.name es in
      let behind : read_exposition (sample show_double of_count r e ++ rest)
          ≡ some (sample_of show_double of_count r e ∷ map (sample_of show_double of_count r) es) =
        sample-read r e rest h.0 ∙ rw (render_entries-read r e.name es h.1) refl in
      elim (Bool-cases (equal e.name last_name)) [
        | inl same ↦ rw same behind
        | inr new ↦ rw new (header-skipped e (sample show_double of_count r e ++ rest) h.0 ∙ behind)
      ]

  -- If no text holds a line feed, no name starts with `#`, and the printing of doubles yields
  -- neither spaces nor line feeds, a scraper reads back from the exposition exactly the registered
  -- series, in the order of their registration, each under its name with its labels and with the
  -- text of its present value.
  pub read_exposition-render_prometheus :
      (r : MetricRegistry D)
      → All IsCleanEntry r.entries
      → read_exposition (render_prometheus show_double of_count r)
        ≡ some (map (sample_of show_double of_count r) r.entries)
  unfolding render_prometheus
  read_exposition-render_prometheus r h = render_entries-read r [] r.entries h
