-- ===== src/Memory.antt =====
-- One allocated block of memory as a function from offsets to bytes, with the little-endian words
-- that x86 reads and writes in it.
pub mod Frame
use cifscp.Base.{ℕ, zero, suc, ◌+◌, ◌*◌, ◌/◌, ◌%◌, Bool, List, [], ◌∷◌, ◌==◌, if◌then◌else◌}
use cifscp.Base.Strings.{Bytes}

abbrev pub Mem : Type 0
Mem = ℕ → ℕ

-- What `calloc` returns.
abbrev pub zeroed : Mem
zeroed a = 0

unfoldable pub poke : Mem → ℕ → ℕ → Mem
poke m a v i = if i == a then v else m i

-- `memcpy` into the block.
unfoldable pub store : Mem → ℕ → Bytes → Mem
unfolding poke
store m a [] = m
store m a (c ∷ cs) = store (poke m a c) (a + 1) cs

-- `memcpy` out of the block.
unfoldable pub load : Mem → ℕ → ℕ → Bytes
load m a zero = []
load m a (suc n) = m a ∷ load m (a + 1) n

-- The bytes of a `uint8_t`, `uint16_t`, `uint32_t` and `uint64_t`, lowest first.
unfoldable pub le8 : ℕ → Bytes
le8 v = v % 256 ∷ []

unfoldable pub le16 : ℕ → Bytes
le16 v = v % 256 ∷ v / 256 % 256 ∷ []

unfoldable pub le32 : ℕ → Bytes
le32 v = v % 256 ∷ v / 256 % 256 ∷ v / 65536 % 256 ∷ v / 16777216 % 256 ∷ []

unfoldable pub get16 : Mem → ℕ → ℕ
get16 m a = m a + 256 * m (a + 1)

unfoldable pub get32 : Mem → ℕ → ℕ
get32 m a = m a + 256 * m (a + 1) + 65536 * m (a + 2) + 16777216 * m (a + 3)

unfoldable pub get64 : Mem → ℕ → ℕ
unfolding get32
get64 m a = get32 m a + 4294967296 * get32 m (a + 4)
