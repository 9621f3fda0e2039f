-- ===== src/Tests/Downloads.antt =====
-- A download over a connection: the server answers one read with the rest of the file.
use cifscp.Base.{◌≡◌, refl, [], ◌∷◌, ◌++◌, arith, replicate}
use cifscp.Base.Strings.{Bytes, codes}
use cifscp.Memory.{zeroed, load, store, get16, le16, le32}
use cifscp.Cstring.{pos, same_string}
use cifscp.Transport.{chunk, accept, recv, recv_got, cifs_recv, cifs_send, send_loop}
use cifscp.Packet.{packet_length, packet_parse, packet_unparse, packet_range}
use cifscp.Buffer.{buf_inc, buf_set, buf_resize}
use cifscp.Connect.{Conn, connect_new, Outcome, done, conn_send, conn_recv}
use cifscp.Proto.Files.{cifs_read, read_andx_draft}
use cifscp.Trees.{fetch_into}
use cifscp.Trees.Served.{whole, piece, Fetched, fetch_into-Fetched}
use cifscp.Tests.Packets.{magic}
use cifscp.Tests.Disks.{simple, simple-IsLocal, patient, nothing_yet}

abbrev file : Bytes
file = codes "abcd"

-- Header, 12 words, and the data at offset 59 behind the NetBIOS header.
abbrev answer : Bytes
answer =
    (0 ∷ 0 ∷ 0 ∷ 61 ∷ [])
    ++ magic
    ++ (0x2e ∷ replicate 27 0)
    ++ (12 ∷ replicate 10 0)
    ++ le16 2
    ++ le16 59
    ++ replicate 10 0
    ++ le16 2
    ++ codes "cd"

abbrev serving : Conn
serving = record (connect_new zeroed zeroed (codes "SRV") (chunk answer ∷ []) (accept 99 ∷ [])) {
  max_buffer_size = pos 100;
}

-- The connection that a read leaves.
abbrev left_by : Outcome Bytes → Conn
left_by (done bs c) = c
left_by _ = serving

abbrev served : Conn
served = left_by (cifs_read 300 5 2 2 serving)

the_rest : cifs_read 300 5 2 2 serving ≡ done (codes "cd") served
unfolding cifs_read connect_new conn_send cifs_send load packet_unparse read_andx_draft conn_recv
    cifs_recv recv_got recv buf_inc buf_set buf_resize store packet_length le16 packet_parse get16
    packet_range send_loop cifscp.Proto.Files.clamp_count le32 cifscp.Packet.packet_setup
    cifscp.Packet.packet_new cifscp.Buffer.buf_new cifscp.Buffer.buf_setup
the_rest = refl

fetch_into-Fetched_example :
    Fetched simple
      (codes "pub")
      file
      served
      (fetch_into simple patient (λ t. t) 5 (codes "pub") 4 nothing_yet serving)
unfolding same_string
fetch_into-Fetched_example =
    fetch_into-Fetched simple patient (λ t. t) 5 2 (codes "pub") file nothing_yet
      (simple.open_write (codes "pub") nothing_yet.disk).1 serving served simple-IsLocal
      (λ bs d. refl) refl refl refl (omega arith) (piece (omega arith) the_rest refl (whole refl))
