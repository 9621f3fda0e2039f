-- ===== src/Proto/Reading.antt =====
-- `cifs_read` without the raw mode, on a connection that stays open.
use cifscp.Base.{ℕ, ◌+◌, ◌≤◌, ◌≡◌, length}
use cifscp.Base.Strings.{Bytes}
use cifscp.Memory.{Mem, load, get16}
use cifscp.Packet.{Packet, words_at}

-- Where the words of the answer say, there are these bytes, inside the message.
pub record HoldsAt (m : Mem) (size : ℕ) (bs : Bytes) : Type 0 where
  pub count : get16 m (words_at + 10) ≡ length bs
  pub inside : get16 m (words_at + 12) + 4 + length bs ≤ size
  pub data_there : load m (get16 m (words_at + 12) + 4) (length bs) ≡ bs

abbrev pub HoldsData : Bytes → Bytes → Type 0
HoldsData msg bs = (m : Mem) → load m 0 (length msg) ≡ msg → HoldsAt m (length msg) bs
