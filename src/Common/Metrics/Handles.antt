-- ===== src/Common/Metrics/Handles.antt =====
-- A registration keeps the index, the entries and their wiring consistent, and leaves the entries
-- that are there.
use mathlib.Core.Path.{subst}
use uaop.Base.{
  ℕ, Bool-cases, ◌≡◌, refl, sym, ◌∙◌, List, [], ◌∷◌, ◌++◌, Option, none, some, inl, inr,
}
use uaop.Base.Lists.{All, All-append, length}
use uaop.Base.Text.{Bytes, equal, equal_refl}
use uaop.Common.Metrics.{
  Labels, counter_kind, gauge_kind, MetricEntry, MetricRegistry, key, counter, gauge, add_counter,
  add_gauge,
}
use uaop.Common.Metrics.Registry.{
  entry_key, find_entry, find_entry-append, IsWired, IsConsistent, IsIndexed-append, counter-found,
  gauge-found,
}

kept-append :
    (es : List MetricEntry) (d : MetricEntry) (k : Bytes) (e : MetricEntry)
    → find_entry k es ≡ some e
    → find_entry k (es ++ d ∷ []) ≡ some e
kept-append es d k e h = find_entry-append k es d ∙ rw h refl

find_entry-append_self :
    (es : List MetricEntry) (d : MetricEntry)
    → find_entry (entry_key d) es ≡ none
    → find_entry (entry_key d) (es ++ d ∷ []) ≡ some d
find_entry-append_self es d h =
    find_entry-append (entry_key d) es d ∙ rw (h, equal_refl (entry_key d)) refl

pub find_entry-IsWired :
    (k : Bytes) (es : List MetricEntry) (e : MetricEntry)
    → All IsWired es
    → find_entry k es ≡ some e
    → IsWired e
unfolding find_entry
find_entry-IsWired k [] e w f = cc
find_entry-IsWired k (d ∷ es) e w f = elim (Bool-cases (equal k (entry_key d))) [
  | inl here ↦
      let same : d ≡ e =
        (let g : Path (Option MetricEntry) (some d) (some e) = rw here at f in cc) in
      subst IsWired same w.0
  | inr there ↦ find_entry-IsWired k es e w.1 (rw there at f)
]

-- An entry that refers to a counter refers to no gauge.
pub wired_apart : (e : MetricEntry) (h : ℕ) → IsWired e → e.counter ≡ some h → e.gauge ≡ none
wired_apart e h (inl (i, a, b, c)) given = c
wired_apart e h (inr (i, a, b, c)) given =
    (let clash : Path (Option ℕ) none (some h) = sym b ∙ given in cc)

module _ {D : Type 0} where
  -- A later registry: it is consistent too, and keeps every entry under its key.
  pub record Follows (r r' : MetricRegistry D) : Type 0 where
    pub consistent : IsConsistent r'
    pub kept :
        (k : Bytes) (e : MetricEntry)
        → find_entry k r.entries ≡ some e
        → find_entry k r'.entries ≡ some e

  pub Follows-refl : (r : MetricRegistry D) → IsConsistent r → Follows r r
  Follows-refl r c = record { consistent = c; kept = λ k e h. h }

  -- What a registration leaves and answers, where `read` is the handle of the kind asked for.
  pub record Registered (read : MetricEntry → Option ℕ) (name : Bytes) (labels : Labels)
      (r : MetricRegistry D) (res : MetricRegistry D × Option ℕ) : Type 0 where
    pub follows : Follows r res.0
    pub entry : MetricEntry
    pub found : find_entry (key name labels) res.0.entries ≡ some entry
    pub answer : res.1 ≡ read entry

  counter_new :
      (name help : Bytes) (labels : Labels) (r : MetricRegistry D)
      → IsConsistent r
      → find_entry (key name labels) r.entries ≡ none
      → Registered (λ e. e.counter) name labels r (add_counter none name help labels r)
  counter_new name help labels r c fresh =
      let d : MetricEntry = record {
        name = name;
        help = help;
        labels = labels;
        kind = counter_kind;
        counter = some (length r.counters);
        gauge = none;
      } in
      unfold add_counter in
      record {
        follows = record {
          consistent = record {
            indexed = λ k. IsIndexed-append d r.entries r.index k fresh (c.indexed k);
            wired =
                All-append IsWired r.entries (d ∷ []) c.wired
                  (inl (length r.counters, refl, refl, refl), tt);
          };
          kept = kept-append r.entries d;
        };
        entry = d;
        found = find_entry-append_self r.entries d fresh;
        answer = refl;
      }

  pub counter-Registered :
      (name help : Bytes) (labels : Labels) (r : MetricRegistry D)
      → IsConsistent r
      → Registered (λ e. e.counter) name labels r (counter name help labels r)
  counter-Registered name help labels r c = elim (c.indexed (key name labels)) [
    | inl (a, b) ↦ unfold counter in rw a (counter_new name help labels r c b)
    | inr (i, e, a, b, f) ↦
        rw (counter-found name help labels r e (c.indexed (key name labels)) f)
          (record { follows = Follows-refl r c; entry = e; found = f; answer = refl })
  ]

  gauge_new :
      (zero_double : D) (name help : Bytes) (labels : Labels) (r : MetricRegistry D)
      → IsConsistent r
      → find_entry (key name labels) r.entries ≡ none
      → Registered (λ e. e.gauge) name labels r (add_gauge zero_double none name help labels r)
  gauge_new zero_double name help labels r c fresh =
      let d : MetricEntry = record {
        name = name;
        help = help;
        labels = labels;
        kind = gauge_kind;
        counter = none;
        gauge = some (length r.gauges);
      } in
      unfold add_gauge in
      record {
        follows = record {
          consistent = record {
            indexed = λ k. IsIndexed-append d r.entries r.index k fresh (c.indexed k);
            wired =
                All-append IsWired r.entries (d ∷ []) c.wired
                  (inr (length r.gauges, refl, refl, refl), tt);
          };
          kept = kept-append r.entries d;
        };
        entry = d;
        found = find_entry-append_self r.entries d fresh;
        answer = refl;
      }

  pub gauge-Registered :
      (zero_double : D) (name help : Bytes) (labels : Labels) (r : MetricRegistry D)
      → IsConsistent r
      → Registered (λ e. e.gauge) name labels r (gauge zero_double name help labels r)
  gauge-Registered zero_double name help labels r c = elim (c.indexed (key name labels)) [
    | inl (a, b) ↦ unfold gauge in rw a (gauge_new zero_double name help labels r c b)
    | inr (i, e, a, b, f) ↦
        rw (gauge-found zero_double name help labels r e (c.indexed (key name labels)) f)
          (record { follows = Follows-refl r c; entry = e; found = f; answer = refl })
  ]
