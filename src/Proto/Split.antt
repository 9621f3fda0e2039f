-- ===== src/Proto/Split.antt =====
-- libcifs/proto.c: reading and writing in two halves, for clients that wait in between, and
-- `cifs_connect` behind the call that opens the socket.
use cifscp.Base.{ℕ, ◌+◌, ◌-◌, ◌/◌, Bool, Option, none, some, if◌then◌else◌}
use cifscp.Base.Strings.{Bytes}
use cifscp.Cstring.{pos}
use cifscp.Memory.{get16}
use cifscp.Buffer.{buf_len, buf_size}
use cifscp.Packet.{Packet, words_at}
use cifscp.Connect.{Conn, Outcome, done, and_then, conn_send}
use cifscp.Proto.{Pages, has_bit, request_setup, put8, put16, put32}
use cifscp.Proto.Session.{negotiate, session_setup, tree_connect}
use cifscp.Proto.Files.{
  offset_here, read_raw_send, read_andx_send, read_andx_get, read_andx_recv, conn_recv_raw,
}

-- Whether CAP_RAW_MODE is set.
abbrev raw_mode : Conn → Bool
raw_mode c = has_bit c.capabilities 0

unfoldable pub read_send : ℕ → ℕ → ℕ → Conn → Outcome Unit
unfolding read_raw_send read_andx_send
read_send fid count off c =
    if raw_mode c then read_raw_send fid count off c else read_andx_send fid count off c

-- `cifs_read_get`: where the data begins in the block of the answer, and how long it is. In raw mode
-- the message has no words.
unfoldable pub read_get : Conn → Option (ℕ × ℕ)
unfolding read_andx_get
read_get c = if raw_mode c then some (c.i.p.b + 4, buf_size c.i.p - 4) else read_andx_get c.i

unfoldable pub read_recv : ℕ → ℕ → Conn → Outcome Bytes
unfolding conn_recv_raw read_andx_recv
read_recv fuel count c =
    if raw_mode c then conn_recv_raw fuel count c else read_andx_recv fuel count c

-- `cifs_write_andx_req`, `cifs_write_andx_send` and `cifs_write_andx_res`: the data goes into the
-- packet between the first two.
unfoldable pub write_andx_req : ℕ → ℕ → Packet → Packet
unfolding request_setup put8 put16 put32
write_andx_req fid off o =
    let o' =
      put32 24 (off / 4294967296)
        (put32 6 off (put16 4 fid (put8 0 255 (request_setup 0x2f 28 o)))) in
    put16 22 (offset_here o') o'

unfoldable pub write_andx_send : Conn → Outcome Unit
unfolding put16
write_andx_send c = conn_send (record c { o = put16 20 (buf_len c.o.b) c.o })

unfoldable pub write_andx_res : Conn → ℕ
write_andx_res c = get16 c.i.mem (words_at + 4)

-- `cifs_connect`: negotiation, session and, where one is named, the tree, whose number is kept.
abbrev in_tree : ℕ → Pages → Option Bytes → Conn → Outcome Unit
in_tree fuel pages none c = done tt c
in_tree fuel pages (some tree) c =
    and_then (tree_connect fuel pages tree c) (λ tid c'. done tt (record c' { tid = pos tid }))

unfoldable pub cifs_connect : ℕ → Pages → Option Bytes → Conn → Outcome Unit
unfolding negotiate session_setup tree_connect
cifs_connect fuel pages tree c =
    and_then (negotiate fuel c)
      (λ _ c1. and_then (session_setup fuel pages c1) (λ _ c2. in_tree fuel pages tree c2))
