-- ===== src/Common/Result.antt =====
-- backend/services/common/include/uaop/common/result.h and error.h: errors as values.
use uaop.Base.{Bool, true, false, Option, none, some}
use uaop.Base.Text.{Bytes}

pub data ErrorClass : Type 0 where
  transient invalid fatal : ErrorClass

-- `class Error`; its fields are read through accessors of the same names.
pub record Error : Type 0 where
  pub error_class : ErrorClass
  pub code : Bytes
  pub message : Bytes

abbrev pub is_transient : ErrorClass → Bool
is_transient transient = true
is_transient invalid = false
is_transient fatal = false

unfoldable pub retryable : Error → Bool
retryable e = is_transient e.error_class

-- `Result<T, E>`: the variant holds a value or an error.
pub data Result (T E : Type 0) : Type 0 where
  ok : T → Result T E
  err : E → Result T E

module _ {T E : Type 0} where
  unfoldable pub is_ok : Result T E → Bool
  is_ok (ok v) = true
  is_ok (err e) = false

  -- `value()` and `error()`; on the other alternative the program terminates.
  unfoldable pub value : Result T E → Option T
  value (ok v) = some v
  value (err e) = none

  unfoldable pub error : Result T E → Option E
  error (ok v) = none
  error (err e) = some e

  unfoldable pub value_or : T → Result T E → T
  value_or fallback (ok v) = v
  value_or fallback (err e) = fallback

  unfoldable pub map : {U : Type 0} → (T → U) → Result T E → Result U E
  map fn (ok v) = ok (fn v)
  map fn (err e) = err e

  unfoldable pub and_then : {U : Type 0} → (T → Result U E) → Result T E → Result U E
  and_then fn (ok v) = fn v
  and_then fn (err e) = err e
