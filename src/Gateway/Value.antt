-- ===== src/Gateway/Value.antt =====
-- What `JSON.parse` yields, and the conversions of ECMAScript that the gateway uses on it: reading a
-- property, iterating, and the conversions to text, number and truth value. `none` is a TypeError.
use uaop.Base.{
  Bool, true, false, not, ◌&&◌, List, [], ◌∷◌, ◌++◌, map, Option, none, some, if◌then◌else◌,
}
use uaop.Base.Text.{Bytes, codes, equal, is_empty}

-- The type of numbers, with what the code does with them; `parse` is the conversion of a text.
pub record Numbers (D : Type 0) : Type 0 where
  pub zero_number : D
  pub one : D
  pub thousand : D
  pub nan : D
  pub minus : D → D → D
  pub divide : D → D → D
  pub exceeds : D → D → Bool
  pub at_least : D → D → Bool
  pub equals : D → D → Bool
  pub print : D → Bytes
  pub parse : Bytes → D

mutual
  pub data Value (D : Type 0) : Type 0 where
    undefined : Value D
    null : Value D
    boolean : Bool → Value D
    number : D → Value D
    text : Bytes → Value D
    array : Items D → Value D
    object : Members D → Value D

  pub data Items (D : Type 0) : Type 0 where
    nil : Items D
    cons : Value D → Items D → Items D

  pub data Members (D : Type 0) : Type 0 where
    end : Members D
    member : Bytes → Value D → Members D → Members D

module _ {D : Type 0} where
  -- The last member of a name, as of repeated ones the last counts.
  unfoldable pub last_member : Bytes → Members D → Option (Value D)
  last_member name end = none
  last_member name (member key v ms) = elim (last_member name ms) [
    | some later ↦ some later
    | none ↦ if equal name key then some v else none
  ]

  abbrev or_undefined : Option (Value D) → Value D
  or_undefined none = undefined
  or_undefined (some v) = v

  -- `v.name`, for a name that neither `Object.prototype` nor arrays nor texts have.
  unfoldable pub property : Bytes → Value D → Option (Value D)
  property name undefined = none
  property name null = none
  property name (object ms) = some (or_undefined (last_member name ms))
  property name v = some undefined

  -- `v.name`, where `v` is known to be neither null nor undefined.
  abbrev pub field : Bytes → Value D → Value D
  field name v = or_undefined (property name v)

  -- `v ?? []`
  abbrev pub or_empty : Value D → Value D
  or_empty undefined = array nil
  or_empty null = array nil
  or_empty v = v

  unfoldable pub to_list : Items D → List (Value D)
  to_list nil = []
  to_list (cons v vs) = v ∷ to_list vs

  -- The values that `for (const x of v)` goes through; a text yields its characters.
  unfoldable pub elements : Value D → Option (List (Value D))
  elements (array vs) = some (to_list vs)
  elements (text s) = some (map (λ c. text (c ∷ [])) s)
  elements v = none

  -- `v === s`
  abbrev pub is_text : Bytes → Value D → Bool
  is_text s (text t) = equal s t
  is_text s v = false

  -- An item of an array, for which `undefined` and `null` count as empty.
  abbrev or_blank : Value D → Option Bytes → Option Bytes
  or_blank undefined shown = some []
  or_blank null shown = some []
  or_blank v shown = shown

module _ {D : Type 0} (num : Numbers D) where
  unfoldable mutual
    -- The conversion to a text. A member named `toString` hides the function of that name, and no
    -- value of JSON can be called.
    pub to_text : Value D → Option Bytes
    to_text undefined = some (codes "undefined")
    to_text null = some (codes "null")
    to_text (boolean true) = some (codes "true")
    to_text (boolean false) = some (codes "false")
    to_text (number r) = some (num.print r)
    to_text (text s) = some s
    to_text (array nil) = some []
    to_text (array (cons v vs)) = elim (or_blank v (to_text v)) [
      | none ↦ none
      | some first ↦ elim (rest_text vs) [ none ↦ none | some rest ↦ some (first ++ rest) ]
    ]
    to_text (object ms) = elim (last_member (codes "toString") ms) [
      | some v ↦ none
      | none ↦ some (codes "[object Object]")
    ]

    pub rest_text : Items D → Option Bytes
    rest_text nil = some []
    rest_text (cons v vs) = elim (or_blank v (to_text v)) [
      | none ↦ none
      | some s ↦ elim (rest_text vs) [ none ↦ none | some rest ↦ some (codes "," ++ (s ++ rest)) ]
    ]

  unfoldable pub to_number : Value D → Option D
  to_number undefined = some num.nan
  to_number null = some num.zero_number
  to_number (boolean b) = some (if b then num.one else num.zero_number)
  to_number (number r) = some r
  to_number v = elim (to_text v) [ none ↦ none | some s ↦ some (num.parse s) ]

  -- Numbers other than 0 and NaN, texts other than the empty one, and all arrays and objects.
  unfoldable pub is_truthy : Value D → Bool
  is_truthy undefined = false
  is_truthy null = false
  is_truthy (boolean b) = b
  is_truthy (number r) = num.equals r r && not (num.equals r num.zero_number)
  is_truthy (text s) = not (is_empty s)
  is_truthy v = true
