-- ===== src/Common/Health/Worst.antt =====
-- The aggregate is the worst state of any check.
use uaop.Base.{
  ◌≤◌, ◌≡◌, refl, sym, ◌∙◌, ap, List, [], ◌∷◌, Option, none, some, ◌⊎◌, inl, inr, ltb,
  if◌then◌else◌, arith, Bool-cases,
}
use uaop.Base.Dict.{lookup, lookup-insert, insert-IsSorted, IsSorted, lookup-Above}
use uaop.Base.Text.{Bytes, equal, equal_iff, equal_refl}
use uaop.Common.Health.{
  HealthState, ok, state_code, Check, HealthRegistry, set, worse, worst_from, overall,
}

worst_from-le :
    (w : HealthState) (checks : HealthRegistry) → state_code w ≤ state_code (worst_from w checks)
unfolding worst_from
worst_from-le w [] = omega arith
worst_from-le w ((name, check) ∷ checks) =
    ground (arith, worst_from-le (worse w check.state) checks)

-- Some check, found under its name, is in this state.
record Attains (checks : HealthRegistry) (s : HealthState) : Type 0 where
  name : Bytes
  check : Check
  found : lookup name checks ≡ some check
  state_is : check.state ≡ s

worst_from-bounds :
    (w : HealthState) (checks : HealthRegistry) (name : Bytes) (check : Check)
    → lookup name checks ≡ some check
    → state_code check.state ≤ state_code (worst_from w checks)
unfolding worst_from lookup
worst_from-bounds w [] name check e = cc
worst_from-bounds w ((j, c) ∷ checks) name check e = elim (Bool-cases (equal name j)) [
  | inl here ↦
      let same : c ≡ check =
        let f : Path (Option Check) (some c) (some check) = rw here at e in cc in
      rw (← same) (ground (arith, worst_from-le (worse w c.state) checks))
  | inr there ↦ worst_from-bounds (worse w c.state) checks name check (rw there at e)
]

Attains-cons :
    (j : Bytes) (c : Check) (checks : HealthRegistry) (s : HealthState)
    → IsSorted ((j, c) ∷ checks)
    → Attains checks s
    → Attains ((j, c) ∷ checks) s
unfolding lookup
Attains-cons j c checks s h a = elim (Bool-cases (equal a.name j)) [
  | inl here ↦
      let gone : Path (Option Check) (some a.check) none =
        rw (← (equal_iff a.name j).0 here, a.found) at (lookup-Above j checks h.0) in
      cc
  | inr there ↦ record {
    name = a.name;
    check = a.check;
    found = rw there a.found;
    state_is = a.state_is;
  }
]

worst_from-attained :
    (w : HealthState) (checks : HealthRegistry)
    → IsSorted checks
    → (worst_from w checks ≡ w) ⊎ Attains checks (worst_from w checks)
unfolding worst_from
worst_from-attained w [] h = inl refl
worst_from-attained w ((j, c) ∷ checks) h =
    elim (worst_from-attained (worse w c.state) checks h.1) [
      | inr a ↦ inr (Attains-cons j c checks _ h a)
      | inl e ↦ elim (Bool-cases (ltb (state_code w) (state_code c.state))) [
        | inl up ↦ inr (record {
          name = j;
          check = c;
          found = unfold lookup in rw equal_refl;
          state_is = sym (e ∙ rw up refl);
        })
        | inr same ↦ inl (e ∙ rw same refl)
      ]
    ]

-- The aggregate is at least as bad as every check, and it is the state of some check, or OK where
-- no check is worse.
overall_worst :
    (checks : HealthRegistry)
    → IsSorted checks
    → ((name : Bytes) (check : Check)
        → lookup name checks ≡ some check
        → state_code check.state ≤ state_code (overall checks))
      × ((overall checks ≡ ok) ⊎ Attains checks (overall checks))
unfolding overall
overall_worst checks h = (worst_from-bounds ok checks, worst_from-attained ok checks h)

-- A registry built from any updates, the newest first.
pub record Update : Type 0 where
  pub name : Bytes
  pub state : HealthState
  pub reason : Bytes

unfoldable pub set_all : List Update → HealthRegistry
set_all [] = []
set_all (u ∷ us) = set u.name u.state u.reason (set_all us)

set_all-IsSorted : (us : List Update) → IsSorted (set_all us)
unfolding set_all set
set_all-IsSorted [] = tt
set_all-IsSorted (u ∷ us) = insert-IsSorted u.name _ (set_all us) (set_all-IsSorted us)

-- The latest update of a check, if there is one.
abbrev pub latest : Bytes → List Update → Option Check
latest name [] = none
latest name (u ∷ us) =
    if equal name u.name
    then some (record { state = u.state; reason = u.reason })
    else latest name us

pub lookup-set_all : (name : Bytes) (us : List Update) → lookup name (set_all us) ≡ latest name us
unfolding set_all set
lookup-set_all name [] = unfold lookup in refl
lookup-set_all name (u ∷ us) =
    lookup-insert name u.name _ (set_all us)
    ∙ ap
        (λ rest.
          if equal name u.name then some (record { state = u.state; reason = u.reason }) else rest)
        (lookup-set_all name us)

-- After any updates the aggregate is at least as bad as the latest state of every check, and it
-- is the state of a check or OK, so a check that recovers no longer counts.
pub overall-latest :
    (us : List Update)
    → ((name : Bytes) (check : Check)
        → latest name us ≡ some check
        → state_code check.state ≤ state_code (overall (set_all us)))
      × ((overall (set_all us) ≡ ok)
          ⊎ ((name : Bytes) × (check : Check) × (latest name us ≡ some check)
              × (check.state ≡ overall (set_all us))))
overall-latest us =
    let (bounds, attained) = overall_worst (set_all us) (set_all-IsSorted us) in
    (
      (λ name check e. bounds name check (lookup-set_all name us ∙ e)),
      elim attained [
        | inl e ↦ inl e
        | inr a ↦ inr (a.name, a.check, sym (lookup-set_all a.name us) ∙ a.found, a.state_is)
      ],
    )
