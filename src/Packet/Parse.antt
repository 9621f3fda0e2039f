-- ===== src/Packet/Parse.antt =====
-- `cifs_packet_parse` on any received bytes: what it accepts, and what it reads.
use mathlib.Core.Option
use cifscp.Base.{ℕ, ◌+◌, ◌*◌, ◌≤◌, ◌<◌, ◌≡◌, ◌↔◌, true, some, arith}
use cifscp.Memory.{Mem, get16}
use cifscp.Buffer.{Buf, buf_setup}
use cifscp.Packet.{Packet, wc_at, words_at, header_size, has_magic, packet_parse}

-- A message of `size` bytes in a block: the header, `wc` words, the byte count and the data fit.
pub record IsMessage (m : Mem) (size : ℕ) : Type 0 where
  pub magic : has_magic m ≡ true
  pub header : header_size ≤ size
  pub words : header_size + m wc_at * 2 ≤ size
  pub data_in : header_size + m wc_at * 2 + get16 m (words_at + m wc_at * 2) ≤ size

-- Where the data of such a message lies.
abbrev pub data_buf : Mem → Buf
data_buf m = buf_setup (header_size + m wc_at * 2) (get16 m (words_at + m wc_at * 2))

-- At the beginning of a block the parser accepts exactly the messages, and then points `b` at their data, inside the message.
pub packet_parse_iff :
    (pk pk' : Packet)
    → pk.p.b ≡ 0
    → (packet_parse pk ≡ some pk')
      ↔ (IsMessage pk.mem pk.p.e × (pk' ≡ record pk { b = data_buf pk.mem }))
unfolding packet_parse
packet_parse_iff pk pk' z = (λ h. (ground arith, ground arith), λ h. ground arith)

-- The parser reads nothing behind the end of the message: a block that agrees with this one up to
-- there parses alike.
pub packet_parse_local :
    (pk : Packet) (k : Mem)
    → pk.p.b ≡ 0
    → ((i : ℕ) → i < pk.p.e → k i ≡ pk.mem i)
    → packet_parse (record pk { mem = k })
      ≡ Option.map {A = Packet} (λ q. record q { mem = k }) (packet_parse pk)
unfolding packet_parse get16
packet_parse_local pk k z h =
    let wc = pk.mem wc_at in
    ground (arith, h 4, h 5, h 6, h 7, h 36, h (words_at + wc * 2), h (words_at + wc * 2 + 1))
