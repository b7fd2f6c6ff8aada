-- ===== src/Common/Dedup.antt =====
-- backend/services/common/include/uaop/common/dedup.h: the set of keys seen within a time to live.
-- Times and `ttl` are in ticks of the steady clock; the clock is an argument of each call. A call is
-- one step; the code reads the clock before it takes the lock, so calls of several threads may come
-- in another order than their times.
pub mod Step
pub mod History
use uaop.Base.{ℕ, ◌+◌, Bool, true, false, not, [], Option, none, some, leb}
use uaop.Base.Dict
use uaop.Base.Dict.{Dict, keep_if, lookup}
use uaop.Base.Lists.{length}
use uaop.Base.Text.{Bytes}

pub record DedupSet : Type 0 where
  pub ttl : ℕ
  pub entries : Dict ℕ

unfoldable pub new : ℕ → DedupSet
new ttl = record { ttl = ttl; entries = [] }

-- An entry stays while its expiry lies after `now`.
abbrev pub unexpired : ℕ → ℕ → Bool
unexpired now expiry = not (leb expiry now)

unfoldable pub sweep : ℕ → DedupSet → DedupSet
sweep now s = record s { entries = keep_if (unexpired now) s.entries }

-- `try_emplace` with the expiry of a new key; the result says whether the key was new.
abbrev pub emplace : Option ℕ → Bytes → ℕ → DedupSet → DedupSet × Bool
emplace none key expiry s = (record s { entries = Dict.insert key expiry s.entries }, true)
emplace (some e) key expiry s = (s, false)

unfoldable pub try_emplace : Bytes → ℕ → DedupSet → DedupSet × Bool
try_emplace key expiry s = emplace (lookup key s.entries) key expiry s

unfoldable pub insert : ℕ → Bytes → DedupSet → DedupSet × Bool
unfolding sweep try_emplace
insert now key s = try_emplace key (now + s.ttl) (sweep now s)

unfoldable pub size : DedupSet → ℕ
size s = length s.entries
