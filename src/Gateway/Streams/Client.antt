-- ===== src/Gateway/Streams/Client.antt =====
-- What a client makes of the frames of one stream: it counts the gaps and the relayed messages.
use uaop.Base.{ℕ, zero, suc, ◌≡◌, true, false, List, [], ◌∷◌, Option, none, some}
use uaop.Base.Lists.{flat_map}
use uaop.Base.Text.{Bytes}
use uaop.Gateway.Value.{Numbers}
use uaop.Gateway.Streams.{Frame, gap, relayed, Message}

-- That many messages which the client did not get.
abbrev pub missed : ℕ → List (Option Bytes)
missed zero = []
missed (suc n) = none ∷ missed n

abbrev pub entries_of : Frame → List (Option Bytes)
entries_of (gap key n) = missed n
entries_of (relayed key n ts payload) = some payload ∷ []
entries_of _ = []

-- For each message of the source, as far as the client knows, its payload or nothing.
abbrev pub replay : List Frame → List (Option Bytes)
replay frames = flat_map entries_of frames

-- All frames are of this stream, and those relayed have the numbers that follow `n`.
abbrev pub IsNumbered : Bytes → ℕ → List Frame → Type 0
IsNumbered key n [] = Unit
IsNumbered key n (gap k m ∷ frames) = (k ≡ key) × IsNumbered key n frames
IsNumbered key n (relayed k m ts payload ∷ frames) =
    (k ≡ key) × (m ≡ suc n) × IsNumbered key (suc n) frames
IsNumbered key n (_ ∷ frames) = ⊥

-- What becomes of the messages by the rate alone: where the interval is 0 all pass, else those that
-- come an interval after the last that passed.
pub data Shaped {D : Type 0} (num : Numbers D) (interval : D)
    : D → List (Message D) → List (Option Bytes) → Type 0 where
  done : (last : D) → Shaped num interval last [] []
  unshaped :
      (last : D) (msg : Message D) (msgs : List (Message D)) (out : List (Option Bytes))
      → num.equals interval num.zero_number ≡ true
      → Shaped num interval last msgs out
      → Shaped num interval last (msg ∷ msgs) (some msg.payload ∷ out)
  due :
      (last : D) (msg : Message D) (msgs : List (Message D)) (out : List (Option Bytes))
      → num.equals interval num.zero_number ≡ false
      → num.at_least (num.minus msg.now_ms last) interval ≡ true
      → Shaped num interval msg.now_ms msgs out
      → Shaped num interval last (msg ∷ msgs) (some msg.payload ∷ out)
  early :
      (last : D) (msg : Message D) (msgs : List (Message D)) (out : List (Option Bytes))
      → num.equals interval num.zero_number ≡ false
      → num.at_least (num.minus msg.now_ms last) interval ≡ false
      → Shaped num interval last msgs out
      → Shaped num interval last (msg ∷ msgs) (none ∷ out)
