-- ===== src/Common/Config/Layers.antt =====
-- Precedence of the layers: what a key holds after a file and the environment were applied.
use uaop.Base.{
  ℕ, ◌+◌, ◌≡◌, refl, ap, ◌∙◌, Bool, true, false, ◌||◌, List, [], ◌∷◌, map, Option, none, some,
  if◌then◌else◌, arith, Bool-cases, inl, inr,
}
use uaop.Base.Dict.{Dict, lookup, lookup-insert}
use uaop.Base.Text.{Bytes, equal, equal_iff, equal_refl}
use uaop.Common.Config.Line.{ParsedLine, parse_config_line}
use uaop.Common.Config.Store.{
  ConfigStore, lines, assign, load_lines, load_file, c_str, env_name, override, Environment,
  apply_keys, apply_environment, get,
}
use uaop.Common.Result.{ok, err}

-- The entries of a file up to its first malformed line.
abbrev assignment : ParsedLine → List (Bytes × Bytes) → List (Bytes × Bytes)
assignment (ok none) rest = rest
assignment (ok (some e)) rest = e ∷ rest
assignment (err e) rest = []

unfoldable pub assignments : List Bytes → List (Bytes × Bytes)
assignments [] = []
assignments (l ∷ ls) = assignment (parse_config_line l) (assignments ls)

-- The last value that a list of entries gives a key, or else the one before.
abbrev pub last_value : Bytes → List (Bytes × Bytes) → Option Bytes → Option Bytes
last_value k [] old = old
last_value k ((j, v) ∷ es) old = last_value k es (if equal k j then some v else old)

module _ (k path : Bytes) (n : ℕ) (l : Bytes) (ls : List Bytes) (values : ConfigStore) where
  load_step-get :
      (r : ParsedLine)
      → parse_config_line l ≡ r
      → ((vs : ConfigStore)
          → get k (load_lines path (n + 1) ls vs).0 ≡ last_value k (assignments ls) (get k vs))
      → get k (load_lines path n (l ∷ ls) values).0
        ≡ last_value k (assignments (l ∷ ls)) (get k values)
  unfolding load_lines assignments
  load_step-get (ok none) e later = rw (e, load_lines, assignments) (later values)
  load_step-get (ok (some (j, v))) e later =
      rw (e, load_lines, assignments)
        (later (assign (some (j, v)) values)
          ∙ ap (last_value k (assignments ls)) (unfold get in lookup-insert k j v values))
  load_step-get (err x) e later = rw (e, load_lines, assignments) refl

load_lines-get :
    (k path : Bytes) (n : ℕ) (ls : List Bytes) (values : ConfigStore)
    → get k (load_lines path n ls values).0 ≡ last_value k (assignments ls) (get k values)
load_lines-get k path n [] values = unfold load_lines assignments in refl
load_lines-get k path n (l ∷ ls) values =
    load_step-get k path n l ls values (parse_config_line l) refl (load_lines-get k path (n + 1) ls)

contains : Bytes → List Bytes → Bool
contains k [] = false
contains k (j ∷ js) = equal k j || contains k js

-- A value of the environment wins over the one in the store.
abbrev pub prefer : Option Bytes → Option Bytes → Option Bytes
prefer none old = old
prefer (some v) old = some v

prefer_twice :
    (b : Bool) (w o : Option Bytes) → (if b then prefer w (prefer w o) else prefer w o) ≡ prefer w o
prefer_twice b w o = ground arith

get-override :
    (k j : Bytes) (w : Option Bytes) (values : ConfigStore)
    → get k (override j w values) ≡ (if equal k j then prefer w (get k values) else get k values)
unfolding get
get-override k j none values = ground arith
get-override k j (some v) values = lookup-insert k j v values

apply_keys-get :
    (k : Bytes) (getenv : Environment) (keys : List Bytes) (values : ConfigStore)
    → get k (apply_keys getenv keys values) ≡ (
        if contains k keys
        then prefer (getenv (c_str (env_name k))) (get k values)
        else get k values)
unfolding apply_keys contains
apply_keys-get k getenv [] values = refl
apply_keys-get k getenv (j ∷ js) values = elim (Bool-cases (equal k j)) [
  | inl same ↦
      apply_keys-get k getenv js (override j (getenv (c_str (env_name j))) values)
      ∙ rw (get-override k j) (
          rw (← (equal_iff k j).0 same) (
            rw equal_refl
              (prefer_twice (contains k js) (getenv (c_str (env_name k))) (get k values))))
  | inr other ↦
      apply_keys-get k getenv js (override j (getenv (c_str (env_name j))) values)
      ∙ rw (get-override k j) (rw other)
]

-- A store contains a key exactly where `get` finds it.
lookup-contains :
    {V : Type 0} (k : Bytes) (m : Dict V)
    → contains k (map (λ e. e.0) m) ≡ (elim (lookup k m) [ none ↦ false | some v ↦ true ])
unfolding contains lookup
lookup-contains k [] = refl
lookup-contains k ((j, v) ∷ m) = ground (arith, lookup-contains k m)

-- The value that a known key takes from the environment.
abbrev pub overridden : Option Bytes → Option Bytes → Option Bytes
overridden env none = none
overridden env (some v) = prefer env (some v)

-- Exactly the keys that the store knows already take the value of their environment variable, if
-- it is set; all others stay as they are.
pub apply_environment-get :
    (k : Bytes) (getenv : Environment) (values : ConfigStore)
    → get k (apply_environment getenv values)
      ≡ overridden (getenv (c_str (env_name k))) (get k values)
unfolding apply_environment
apply_environment-get k getenv values =
    apply_keys-get k getenv (map (λ e. e.0) values) values
    ∙ rw (lookup-contains k values) (unfold get in ground arith)

-- Precedence of the layers. After a file has been loaded over the compiled defaults and the
-- environment has been applied, a key that the file or the defaults give a value holds the value
-- of its environment variable, or else the last value that the file gives it above its first
-- malformed line, or else its default. Any other key has no value.
pub layers-get :
    (k path text : Bytes) (getenv : Environment) (defaults : ConfigStore)
    → get k (apply_environment getenv (load_file path (some text) defaults).0)
      ≡ overridden
          (getenv (c_str (env_name k)))
          (last_value k (assignments (lines text)) (get k defaults))
unfolding load_file
layers-get k path text getenv defaults =
    apply_environment-get k getenv (load_lines path 0 (lines text) defaults).0
    ∙ rw (load_lines-get k path 0 (lines text) defaults)
