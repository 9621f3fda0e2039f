-- ===== src/Proto/Writing.antt =====
-- `cifs_write` on a connection that stays open.
use mathlib.Core.Path.{ap₂, subst}
use mathlib.Core.Option.{some-injective}
use cifscp.Base.{ℕ, ◌+◌, ◌≤◌, ◌<◌, ◌≡◌, refl, sym, ap, ◌∙◌, true, some, arith, ◌==◌, length}
use cifscp.Base.Strings.{Bytes}
use cifscp.Memory.{Mem, load, store, get16, le16}
use cifscp.Packet.{
  Packet, block_size, words_at, cmd_at, error_at, packet_cmd, packet_errno, packet_unparse,
}
use cifscp.Transport.{received, cifs_recv, cifs_send}
use cifscp.Transport.Stream.{stream, IsLive}
use cifscp.Transport.Framing.Header.{Frames}
use cifscp.Connect.{Conn, done, with_link, request, request_checked}
use cifscp.Connect.Request.{HasSent}
use cifscp.Connect.Exchange.{Parses, cifs_recv-Answered, sending, receiving, request_steps}
use cifscp.Proto.Files.{write_share, write_draft, cifs_write}
use cifscp.Proto.WriteRequest.{IsWrite, write_draft_lem}

-- The answer to a write: no error, and `n` bytes taken.
pub record SaysTaken (m : Mem) (n : ℕ) : Type 0 where
  pub cmd : m cmd_at ≡ 0x2f
  pub fine : get16 m error_at ≡ 0
  pub count : get16 m (words_at + 4) ≡ n

abbrev pub Acknowledges : Bytes → ℕ → Type 0
Acknowledges msg n = (m : Mem) → load m 0 (length msg) ≡ msg → SaysTaken m n

unparse_cmd : (o : Packet) → packet_cmd (packet_unparse o).0 ≡ o.mem cmd_at
unfolding packet_unparse store le16
unparse_cmd o = ground arith

checked_fine :
    (c : Conn) (n : ℕ) → packet_cmd c.o ≡ 0x2f → SaysTaken c.i.mem n → request_checked c ≡ done tt c
unfolding request_checked packet_errno
checked_fine c n o h =
    let same : packet_cmd c.i == packet_cmd c.o ≡ true = ground (arith, o, h.cmd) in
    let zero_error : get16 c.i.mem error_at == 0 ≡ true = ground (arith, h.fine) in
    rw (same, zero_error) refl

write_steps :
    (fuel fid off n : ℕ) (bs : Bytes) (c c2 : Conn) (o : Packet)
    → write_draft fid off bs c ≡ some o
    → request fuel (record c { o = o }) ≡ done tt c2
    → get16 c2.i.mem (words_at + 4) ≡ n
    → cifs_write fuel fid off bs c ≡ done n c2
unfolding cifs_write
write_steps fuel fid off n bs c c2 o d r e = rw (d, r, e) refl

-- When the request `o` of a write fits its block, the socket takes it whole and stays open, and an
-- answer without an error comes next, then `cifs_write` returns the number of bytes that the answer
-- says: it has sent exactly its request, which carries the file, the offset and as much of the data
-- as the server's buffer size allows, and taken exactly that answer, skipping messages of other
-- types. Fuel beyond the length of the stream is enough.
pub cifs_write-Answered :
    {msg rest s : Bytes} (fuel fid off n : ℕ) (bs : Bytes) (c : Conn) (o : Packet)
    → c.o.p.b ≡ 0
    → c.o.p.x ≡ block_size
    → fid < 65536
    → off < 18446744073709551616
    → length (write_share bs c.max_buffer_size) ≤ 65472
    → write_draft fid off bs c ≡ some o
    → (cifs_send o c.answers).1 ≡ true
    → Frames msg rest s
    → Parses msg
    → Acknowledges msg n
    → c.i.p.b ≡ 0
    → c.i.p.x ≡ block_size
    → IsLive c.inp
    → stream c.inp ≡ s
    → length s < fuel
    → (c' : Conn) × (cifs_write fuel fid off bs c ≡ done n c')
      × IsWrite fid off (write_share bs c.max_buffer_size) o
      × HasSent (record c { o = o }) c'
      × (stream c'.inp ≡ rest)
cifs_write-Answered {msg} {rest} {s} fuel fid off n bs c o ob ox f64 o64 small d e fr ok ack b x
      live comes f =
    let (o', d', is) =
      (write_draft_lem fid off bs c ob ox f64 o64 (omega (arith, small))).0 small in
    let same : o' ≡ o = some-injective _ _ (sym d' ∙ d) in
    let written = subst (IsWrite fid off (write_share bs c.max_buffer_size)) same is in
    let (c1, sends, same_o, same_i, same_inp, has_sent) = sending (record c { o = o }) e in
    let (l, receives, answered) =
      cifs_recv-Answered fuel (record { i = c.i; inp = c.inp }) fr ok b x live comes f in
    let there : cifs_recv fuel (record { i = c1.i; inp = c1.inp }) ≡ received l =
      ap₂ (λ i inp. cifs_recv fuel (record { i = i; inp = inp })) same_i same_inp ∙ receives in
    let c2 = with_link c1 l in
    let taken : SaysTaken c2.i.mem n = ack l.i.mem answered.bytes in
    (
      c2,
      write_steps fuel fid off n bs c c2 o d
          (request_steps fuel (record c { o = o }) c1 c2 sends (receiving fuel c1 l there)
            ∙ checked_fine c2 n (ap packet_cmd same_o ∙ unparse_cmd o ∙ written.cmd) taken)
          taken.count,
      written,
      has_sent,
      answered.comes,
    )
