-- ===== src/Transport/EndToEnd.antt =====
-- A packet sent by `cifs_send` and received by `cifs_recv`.
use cifscp.Base.{ℕ, ◌+◌, ◌*◌, ◌<◌, ◌≡◌, refl, ap, ◌∙◌, true, some, List, [], ◌++◌, arith, length}
use cifscp.Base.Strings.{Bytes}
use cifscp.Memory.{Mem, store, load, le16}
use cifscp.Memory.Frame.{load-injective, length-load, load-append}
use cifscp.Buffer.{buf_set, buf_resize, buf_size, buf_len}
use cifscp.Packet.{
  Packet, cmd_at, wc_at, words_at, nbt_type_at, block_size, packet_parse, packet_unparse,
}
use cifscp.Packet.Parse.{data_buf}
use cifscp.Packet.RoundTrip.{IsOpen, Received, parse-unparse}
use cifscp.Transport.{
  Answer, Link, received, header_buf, set_buf, recv_parsed, cifs_recv, cifs_send,
}
use cifscp.Transport.Stream.{stream, IsLive}
use cifscp.Transport.Sending.{send_loop_prefix}
use cifscp.Transport.Framing.Header.{Frames, session, AtHeader}
use cifscp.Transport.Framing.Message.{recv_loop-Frames}

-- The wire carries the whole message.
pub wire_whole :
    (pk : Packet) (answers : List Answer)
    → (cifs_send pk answers).1 ≡ true
    → (cifs_send pk answers).2 ≡ load (packet_unparse pk).0.mem 0 (packet_unparse pk).1
unfolding cifs_send
wire_whole pk answers e =
    let (k, sent, all, part) =
      send_loop_prefix answers (load (packet_unparse pk).0.mem 0 (packet_unparse pk).1) [] in
    sent ∙ all e

-- A message of at least four bytes whose first byte is 0 and whose length is in its header.
load-Frames :
    (m : Mem) (n : ℕ) (rest : Bytes)
    → m 0 ≡ 0
    → m 2 < 256
    → m 3 < 256
    → n ≡ 4 + (m 3 + m 2 * 256)
    → Frames (load m 0 n) rest (load m 0 n ++ rest)
unfolding load
load-Frames m n rest z hi lo e =
    session (m 1) (m 2) (m 3) (load m 4 (m 3 + m 2 * 256))
      (record { high = hi; low = lo; size = length-load (m 3 + m 2 * 256) m 4 })
      (rw (e, load-append 4 (m 3 + m 2 * 256) m 0, z)) refl

unparse_bytes :
    (pk : Packet)
    → IsOpen pk
    → pk.mem nbt_type_at ≡ 0
    → let (o, n) = packet_unparse pk in
      (o.mem 0 ≡ 0) × (o.mem 2 < 256) × (o.mem 3 < 256) × (n ≡ 4 + (o.mem 3 + o.mem 2 * 256))
unfolding packet_unparse store le16
unparse_bytes pk v z =
    ground (arith, z, v.begins, v.point_from, v.point_to, v.behind_words, v.wc_byte)

pub header_buf-AtHeader :
    (l : Link) → l.i.p.b ≡ 0 → l.i.p.x ≡ block_size → AtHeader (set_buf l header_buf)
unfolding header_buf buf_set buf_resize
header_buf-AtHeader l b x = ground (arith, b, x)

pub parsed :
    (l : Link) (pk : Packet)
    → packet_parse l.i ≡ some pk
    → recv_parsed (received l) ≡ received (record l { i = pk })
unfolding recv_parsed
parsed l pk e = rw (e, recv_parsed)

-- A request that the sender has built in its packet, with a session header, is what the receiver
-- finds: when `cifs_send` returns 0 and its bytes come next on a live connection, `cifs_recv`
-- returns 0, the packet that it leaves has the command, the words and the data of the request, and
-- the connection stands behind the message. The bytes may have been cut anywhere, by both ends.
pub recv-send :
    (pk : Packet) (answers : List Answer) (l : Link) (rest : Bytes) (fuel : ℕ)
    → IsOpen pk
    → pk.mem nbt_type_at ≡ 0
    → (cifs_send pk answers).1 ≡ true
    → l.i.p.b ≡ 0
    → l.i.p.x ≡ block_size
    → IsLive l.inp
    → stream l.inp ≡ (cifs_send pk answers).2 ++ rest
    → length (stream l.inp) < fuel
    → (l' : Link) × (cifs_recv fuel l ≡ received l')
      × (l'.i.mem cmd_at ≡ pk.mem cmd_at)
      × (load l'.i.mem words_at (2 * pk.mem wc_at) ≡ load pk.mem words_at (2 * pk.mem wc_at))
      × (load l'.i.mem l'.i.b.b (buf_size l'.i.b) ≡ load pk.mem pk.b.b (buf_len pk.b))
      × (stream l'.inp ≡ rest)
unfolding cifs_recv
recv-send pk answers l rest fuel v z sent b x live comes f =
    let (o, n) = packet_unparse pk in
    let (zero_type, hi, lo, count) = unparse_bytes pk v z in
    let s = comes ∙ ap (λ w. w ++ rest) (wire_whole pk answers sent) in
    let (k, ends, h) =
      recv_loop-Frames fuel (set_buf l header_buf) (load-Frames o.mem n rest zero_type hi lo count)
        (header_buf-AtHeader l b x) live s (rw (← s) f) in
    let q : Received (packet_unparse pk) k.i = record {
      begins = h.begins;
      size = h.end ∙ length-load n o.mem 0;
      bytes = λ i lt.
          load-injective n k.i.mem o.mem 0 (rw (length-load n o.mem 0) at (h.bytes)) i (omega arith)
            (omega (arith, lt));
    } in
    let (parses, cmd, wc, words, body, len) = parse-unparse pk k.i v q in
    (
      record k { i = record (k.i) { b = data_buf k.i.mem } },
      ap recv_parsed ends ∙ parsed k _ parses,
      cmd,
      words,
      body,
      h.comes,
    )
