-- ===== src/Codepage/Grown.antt =====
-- The growing conversion ends, and writes what the fixed one writes where there is room.
use cifscp.Base.{ℕ, ◌+◌, ◌-◌, ◌*◌, ◌<◌, ◌≡◌, [], ltb, if◌then◌else◌, length}
use cifscp.Base.Strings.{Bytes}
use cifscp.Codepage.{Converted, written, failed, stuck}
use cifscp.Codepage.Growing.{Grown, roomy}

-- A conversion has ended, with the result or without one.
abbrev pub Ended : Converted → Type 0
Ended (written out) = Unit
Ended (failed out) = out ≡ []
Ended stuck = ⊥

-- Rounds that may be needed: two for a byte, one for a buffer that is nearly full, and one for each
-- size below `roomy`.
abbrev rounds : ℕ → ℕ → ℕ → ℕ
rounds n left size = 2 * n + (if ltb left roomy then 1 else 0) + (roomy - size)

abbrev EndsAll : ℕ → Grown → Type 0
EndsAll fuel next =
    (inp acc : Bytes) (left size : ℕ)
    → 0 < size
    → rounds (length inp) left size < fuel
    → Ended (next inp left size acc)
