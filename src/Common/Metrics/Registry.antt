-- ===== src/Common/Metrics/Registry.antt =====
-- The registry's index agrees with its entries, so a name with its labels keeps its handle.
use uaop.Base.{
  ℕ, ◌≡◌, refl, sym, ◌∙◌, ap, List, [], ◌∷◌, ◌++◌, Option, none, some, if◌then◌else◌, arith,
  Bool-cases, inl, inr, ◌⊎◌,
}
use uaop.Base.Dict.{Dict, lookup, insert, lookup-insert}
use uaop.Base.Lists.{All, length, get_elem?, get_elem?-append, get_elem?-append_length}
use uaop.Base.Text.{Bytes, equal, equal_iff}
use uaop.Common.Metrics.{
  Labels, counter_kind, gauge_kind, MetricEntry, MetricRegistry, key, counter, gauge, counter_of,
  gauge_of,
}

abbrev pub entry_key : MetricEntry → Bytes
entry_key e = key e.name e.labels

-- The first entry with a key.
unfoldable pub find_entry : Bytes → List MetricEntry → Option MetricEntry
find_entry k [] = none
find_entry k (e ∷ es) = if equal k (entry_key e) then some e else find_entry k es

-- The other value, if there is none before.
abbrev pub or_else : {A : Type 0} → Option A → Option A → Option A
or_else none b = b
or_else (some a) b = some a

pub find_entry-append :
    (k : Bytes) (es : List MetricEntry) (e : MetricEntry)
    → find_entry k (es ++ e ∷ [])
      ≡ or_else (find_entry k es) (if equal k (entry_key e) then some e else none)
unfolding find_entry
find_entry-append k [] e = refl
find_entry-append k (d ∷ es) e = ground (arith, find_entry-append k es e)

-- Where the index leads for a key: nowhere, or to its entry.
abbrev pub IsIndexed : Bytes → List MetricEntry → Dict ℕ → Type 0
IsIndexed k es index =
    ((lookup k index ≡ none) × (find_entry k es ≡ none))
    ⊎ ((i : ℕ) × (e : MetricEntry) × (lookup k index ≡ some i)
        × (get_elem? es i ≡ some e)
        × (find_entry k es ≡ some e))

-- An entry refers to one object, of its kind.
abbrev pub IsWired : MetricEntry → Type 0
IsWired e =
    ((h : ℕ) × (e.kind ≡ counter_kind) × (e.counter ≡ some h) × (e.gauge ≡ none))
    ⊎ ((h : ℕ) × (e.kind ≡ gauge_kind) × (e.counter ≡ none) × (e.gauge ≡ some h))

pub IsIndexed-append :
    (e : MetricEntry) (es : List MetricEntry) (index : Dict ℕ) (k : Bytes)
    → find_entry (entry_key e) es ≡ none
    → IsIndexed k es index
    → IsIndexed k (es ++ e ∷ []) (insert (entry_key e) (length es) index)
IsIndexed-append e es index k fresh h = elim (Bool-cases (equal k (entry_key e))) [
  | inl here ↦ inr (
    length es,
    e,
    lookup-insert k (entry_key e) (length es) index ∙ rw here refl,
    get_elem?-append_length es e,
    find_entry-append k es e ∙ rw (here, (equal_iff k (entry_key e)).0 here, fresh) refl,
  )
  | inr there ↦ elim h [
    | inl (a, b) ↦ inl (
      lookup-insert k (entry_key e) (length es) index ∙ rw there a,
      find_entry-append k es e ∙ rw (there, b) refl,
    )
    | inr (i, d, a, b, c) ↦ inr (
      i,
      d,
      lookup-insert k (entry_key e) (length es) index ∙ rw there a,
      get_elem?-append es (e ∷ []) i d b,
      find_entry-append k es e ∙ rw c refl,
    )
  ]
]

module _ {D : Type 0} where
  pub record IsConsistent (r : MetricRegistry D) : Type 0 where
    pub indexed : (k : Bytes) → IsIndexed k r.entries r.index
    pub wired : All IsWired r.entries

  -- What a registration of a known key answers, and that a new key is added.
  pub counter-found :
      (name help : Bytes) (labels : Labels) (r : MetricRegistry D) (e : MetricEntry)
      → IsIndexed (key name labels) r.entries r.index
      → find_entry (key name labels) r.entries ≡ some e
      → counter name help labels r ≡ (r, e.counter)
  unfolding counter
  counter-found name help labels r e h f = elim h [
    | inl (a, b) ↦ (let clash : Path (Option MetricEntry) none (some e) = sym b ∙ f in cc)
    | inr (i, d, a, b, c) ↦ rw (a, b) (ap (λ o. (r, counter_of o)) (sym c ∙ f))
  ]

  pub gauge-found :
      (zero_double : D) (name help : Bytes) (labels : Labels) (r : MetricRegistry D)
      (e : MetricEntry)
      → IsIndexed (key name labels) r.entries r.index
      → find_entry (key name labels) r.entries ≡ some e
      → gauge zero_double name help labels r ≡ (r, e.gauge)
  unfolding gauge
  gauge-found zero_double name help labels r e h f = elim h [
    | inl (a, b) ↦ (let clash : Path (Option MetricEntry) none (some e) = sym b ∙ f in cc)
    | inr (i, d, a, b, c) ↦ rw (a, b) (ap (λ o. (r, gauge_of o)) (sym c ∙ f))
  ]
