-- ===== src/Tests/Uploads.antt =====
-- A write over a connection: the server takes both bytes.
use cifscp.Base.{
  ℕ, ◌≤◌, ◌<◌, ◌≡◌, refl, sym, ◌∙◌, true, Option, none, some, [], ◌∷◌, ◌++◌, arith, length,
  replicate,
}
use cifscp.Base.Strings.{Bytes, codes}
use cifscp.Memory.{Mem, zeroed, load, store, get16, le16}
use cifscp.Memory.Frame.{load-injective, load-store}
use cifscp.Cstring.{pos}
use cifscp.Transport.{chunk, accept, cifs_send}
use cifscp.Transport.Stream.{stream}
use cifscp.Transport.Framing.Header.{Frames, session}
use cifscp.Packet.{Packet}
use cifscp.Connect.{Conn, connect_new, done}
use cifscp.Connect.Request.{HasSent}
use cifscp.Connect.Exchange.{Parses}
use cifscp.Proto.Files.{write_share, write_draft, cifs_write}
use cifscp.Proto.WriteRequest.{IsWrite}
use cifscp.Proto.Writing.{Acknowledges, cifs_write-Answered}
use cifscp.Tests.Packets.{magic}

-- Header, 6 words of which the third one is the count, and no data.
abbrev answer : Bytes
answer =
    (0 ∷ 0 ∷ 0 ∷ 47 ∷ [])
    ++ magic
    ++ (0x2f ∷ replicate 27 0)
    ++ (6 ∷ replicate 4 0)
    ++ le16 2
    ++ replicate 6 0
    ++ le16 0

abbrev taking : Conn
taking = record (connect_new zeroed zeroed (codes "SRV") (chunk answer ∷ []) (accept 99 ∷ [])) {
  max_buffer_size = pos 100;
}

abbrev or_empty : Option Packet → Packet
or_empty none = taking.o
or_empty (some o) = o

abbrev request : Packet
request = or_empty (write_draft 5 2 (codes "cd") taking)

drafted : write_draft 5 2 (codes "cd") taking ≡ some request
unfolding write_draft cifscp.Buffer.write_buf connect_new
drafted = refl

sends : (cifs_send request taking.answers).1 ≡ true
unfolding cifs_send load cifscp.Packet.packet_unparse write_draft cifscp.Buffer.write_buf
    connect_new cifscp.Buffer.buf_inc
sends = refl

same_bytes :
    (m : Mem)
    → load m 0 (length answer) ≡ answer
    → (i : ℕ) → 0 ≤ i
    → i < 51
    → m i ≡ store zeroed 0 answer i
unfolding le16
same_bytes m e =
    load-injective 51 m (store zeroed 0 answer) 0 (e ∙ sym (load-store answer zeroed 0))

answer-Parses : Parses answer
unfolding get16 le16 store
answer-Parses m e =
    let there = same_bytes m e in
    let m4 : m 4 ≡ 0xff = there 4 (omega arith) (omega arith) in
    let m5 : m 5 ≡ b'S' = there 5 (omega arith) (omega arith) in
    let m6 : m 6 ≡ b'M' = there 6 (omega arith) (omega arith) in
    let m7 : m 7 ≡ b'B' = there 7 (omega arith) (omega arith) in
    let m36 : m 36 ≡ 6 = there 36 (omega arith) (omega arith) in
    let m49 : m 49 ≡ 0 = there 49 (omega arith) (omega arith) in
    let m50 : m 50 ≡ 0 = there 50 (omega arith) (omega arith) in
    record {
      magic = rw (m4, m5, m6, m7);
      header = omega arith;
      words = rw (m36) (omega arith);
      data_in = rw (m36, m49, m50) (omega arith);
    }

answer-Acknowledges : Acknowledges answer 2
unfolding get16 le16 store
answer-Acknowledges m e =
    let there = same_bytes m e in
    let m8 : m 8 ≡ 0x2f = there 8 (omega arith) (omega arith) in
    let m11 : m 11 ≡ 0 = there 11 (omega arith) (omega arith) in
    let m12 : m 12 ≡ 0 = there 12 (omega arith) (omega arith) in
    let m41 : m 41 ≡ 2 = there 41 (omega arith) (omega arith) in
    let m42 : m 42 ≡ 0 = there 42 (omega arith) (omega arith) in
    record { cmd = m8; fine = rw (m11, m12) refl; count = rw (m41, m42) refl }

answer-Frames : Frames answer [] (stream (chunk answer ∷ []))
unfolding le16
answer-Frames =
    session 0 0 47 _ (record { high = omega arith; low = omega arith; size = refl }) refl refl

cifs_write-Answered_example :
    (c' : Conn) × (cifs_write 300 5 2 (codes "cd") taking ≡ done 2 c')
    × IsWrite 5 2 (write_share (codes "cd") (pos 100)) request
    × HasSent (record taking { o = request }) c'
    × (stream c'.inp ≡ [])
unfolding connect_new le16
cifs_write-Answered_example =
    cifs_write-Answered 300 5 2 2 (codes "cd") taking request refl refl (omega arith) (omega arith)
      (omega arith) drafted sends answer-Frames answer-Parses answer-Acknowledges refl refl
      (omega arith, tt) refl (omega arith)
