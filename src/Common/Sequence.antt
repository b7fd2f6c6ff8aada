-- ===== src/Common/Sequence.antt =====
-- backend/services/common/include/uaop/common/sequence.h: sequence numbers for each key. A counter
-- is the value of its `std::atomic<uint64_t>`.
pub mod History
use uaop.Base.{ℕ, ◌+◌, ◌%◌, ◌^◌, Option, none, some}
use uaop.Base.Dict.{Dict, lookup, insert}
use uaop.Base.Text.{Bytes}
use uaop.Base.Words.{u64_mod}

-- `fetch_add(1) + 1`: the counter after the call, and the number that the call returns.
unfoldable pub next : ℕ → ℕ × ℕ
next counter = ((counter + 1) % u64_mod, (counter + 1) % u64_mod)

unfoldable pub current : ℕ → ℕ
current counter = counter

-- `class KeyedSequenceCounter`; `counters_[key]` makes a new counter at 0.
abbrev pub KeyedSequenceCounter : Type 0
KeyedSequenceCounter = Dict ℕ

abbrev pub counter_or_zero : Option ℕ → ℕ
counter_or_zero none = 0
counter_or_zero (some counter) = counter

unfoldable pub next_of : Bytes → KeyedSequenceCounter → KeyedSequenceCounter × ℕ
unfolding next
next_of key counters =
    let (counter, n) = next (counter_or_zero (lookup key counters)) in
    (insert key counter counters, n)
