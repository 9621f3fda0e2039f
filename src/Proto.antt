-- ===== src/Proto.antt =====
-- libcifs/proto.h and proto.c: requests. A request is built in the connection's packet `o` and then
-- sent. Fields of the parameter words are stored at the offsets that libcifs/struct.h gives them.
-- This file has what the requests share.
pub mod Session
pub mod Files
pub mod Disposition
pub mod WriteRequest
pub mod Split
pub mod ReadBounds
pub mod Reading
pub mod Writing
use cifscp.Base.{
  ℕ, zero, suc, ◌+◌, ◌-◌, ◌*◌, ◌/◌, ◌%◌, ◌^◌, ◌≤◌, ◌<◌, min, ◌≡◌, refl, sym, ap, ◌∙◌, ◌≢◌, ◌↔◌, ◌⊎◌,
  inl, inr, Bool, true, false, not, ◌&&◌, ◌||◌, Option, none, some, List, [], ◌∷◌, ◌++◌, map, arith,
  ltb, leb, ◌==◌, if◌then◌else◌, ltb→lt, lt→ltb, ==_iff, Bool-cases, Option-cases, length, take,
  drop, replicate, length-append, length-take, length-drop, take-append-drop, take-add, take-take,
  take_self, append-split, append-cancel, take-all, drop-all, length-map, length-replicate,
}
use cifscp.Base.Strings.{Bytes}
use cifscp.Cstring.{ℤ, pos, negsuc}
use cifscp.Memory.{Mem, store, get16, get32, le8, le16, le32}
use cifscp.Codepage.{Iconv}
use cifscp.Buffer.{
  Buf, Writer, ◌>>◌, quietly, then_byte, then_word, write_byte, write_word, write_oem, write_ucs,
  write_path_oem, write_path_ucs,
}
use cifscp.Packet.{Packet, words_at, packet_setup}
use cifscp.Connect.{Conn, Outcome, fault}

-- The conversions from the system's code page that the requests use.
pub record Pages : Type 0 where
  pub to_oem : Iconv
  pub to_ucs : Iconv

-- The `int` that a 32-bit pattern stands for, and the low 16 bits of an `int`.
abbrev pub as_int : ℕ → ℤ
as_int n = if ltb n 2147483648 then pos n else negsuc (4294967295 - n)

abbrev pub low16 : ℤ → ℕ
low16 (pos n) = n % 65536
low16 (negsuc n) = 65535 - n % 65536

-- Whether bit `k` is set.
abbrev pub has_bit : ℕ → ℕ → Bool
has_bit n k = n / 2 ^ k % 2 == 1

abbrev pub unicode : Conn → Bool
unicode c = has_bit c.capabilities 2

-- `REQUEST_SETUP`: the words are cleared, then the packet is set up for `size` bytes of them.
unfoldable pub request_setup : ℕ → ℕ → Packet → Packet
unfolding packet_setup
request_setup cmd size o =
    packet_setup (record o { mem = store o.mem words_at (replicate size 0) }) cmd size

-- A field of the words, and of the header.
unfoldable pub put16 : ℕ → ℕ → Packet → Packet
put16 off v o = record o { mem = store o.mem (words_at + off) (le16 v) }

unfoldable pub put32 : ℕ → ℕ → Packet → Packet
put32 off v o = record o { mem = store o.mem (words_at + off) (le32 v) }

unfoldable pub put8 : ℕ → ℕ → Packet → Packet
put8 off v o = record o { mem = store o.mem (words_at + off) (le8 v) }

unfoldable pub header16 : ℕ → ℕ → Packet → Packet
header16 off v o = record o { mem = store o.mem off (le16 v) }

-- What a writer makes of the data of a request; `none` is a write outside the block.
unfoldable pub write_body : Writer → Packet → Option Packet
write_body w o = elim (w o.mem o.b) [
  | none ↦ none
  | some (m, b) ↦ some (record o { mem = m; b = b })
]

-- Text in the server's encoding, and the two kinds of names, with their terminators.
abbrev pub oem_text : Pages → Bytes → Writer
oem_text pages s m d = quietly (write_oem pages.to_oem s m d)

abbrev pub ucs_text : Pages → Bytes → Writer
ucs_text pages s m d = quietly (write_ucs pages.to_ucs s m d)

abbrev pub oem_textz : Pages → Bytes → Writer
oem_textz pages s m d = then_byte (write_oem pages.to_oem s m d)

abbrev pub ucs_textz : Pages → Bytes → Writer
ucs_textz pages s m d = then_word (write_ucs pages.to_ucs s m d)

abbrev pub oem_path : Pages → Bytes → Writer
oem_path pages s m d = quietly (write_path_oem pages.to_oem s m d)

abbrev pub ucs_path : Pages → Bytes → Writer
ucs_path pages s m d = quietly (write_path_ucs pages.to_ucs s m d)

abbrev pub oem_pathz : Pages → Bytes → Writer
oem_pathz pages s m d = then_byte (write_path_oem pages.to_oem s m d)

abbrev pub ucs_pathz : Pages → Bytes → Writer
ucs_pathz pages s m d = then_word (write_path_ucs pages.to_ucs s m d)

-- Sends a request that has been built, or faults.
abbrev pub with_request : {A : Type 0} → Conn → Option Packet → (Conn → Outcome A) → Outcome A
with_request c none f = fault
with_request c (some o) f = f (record c { o = o })
