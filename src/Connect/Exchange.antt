-- ===== src/Connect/Exchange.antt =====
-- A request and its answer, on a connection that stays open.
use mathlib.Core.Path.{subst}
use cifscp.Base.{ℕ, ◌<◌, ◌≡◌, refl, sym, ap, ◌∙◌, true, ◌++◌, length}
use cifscp.Base.Strings.{Bytes}
use cifscp.Memory.{Mem, load}
use cifscp.Packet.{block_size, packet_unparse}
use cifscp.Packet.Parse.{IsMessage, data_buf, packet_parse_iff}
use cifscp.Transport.{Link, received, recv_parsed, header_buf, set_buf, cifs_recv, cifs_send}
use cifscp.Transport.Stream.{stream, IsLive}
use cifscp.Transport.Framing.Header.{Frames}
use cifscp.Transport.Framing.Message.{recv_loop-Frames}
use cifscp.Transport.EndToEnd.{wire_whole, header_buf-AtHeader, parsed}
use cifscp.Connect.{
  Conn, done, with_link, conn_send, conn_recv, conn_received, request_checked, request,
}
use cifscp.Connect.Request.{HasSent}

-- The bytes of a message that the parser accepts, wherever they are stored.
abbrev pub Parses : Bytes → Type 0
Parses msg = (m : Mem) → load m 0 (length msg) ≡ msg → IsMessage m (length msg)

-- A link that has received and parsed the message.
pub record Answered (msg rest : Bytes) (l : Link) : Type 0 where
  pub bytes : load l.i.mem 0 (length msg) ≡ msg
  pub begins : l.i.p.b ≡ 0
  pub end : l.i.p.e ≡ length msg
  pub data_at : l.i.b ≡ data_buf l.i.mem
  pub comes : stream l.inp ≡ rest
  pub live : IsLive l.inp

pub cifs_recv-Answered :
    {msg rest s : Bytes} (fuel : ℕ) (l : Link)
    → Frames msg rest s
    → Parses msg
    → l.i.p.b ≡ 0
    → l.i.p.x ≡ block_size
    → IsLive l.inp
    → stream l.inp ≡ s
    → length s < fuel
    → (l' : Link) × (cifs_recv fuel l ≡ received l') × Answered msg rest l'
unfolding cifs_recv
cifs_recv-Answered {msg} {rest} fuel l fr ok b x live e f =
    let (k, ends, h) =
      recv_loop-Frames fuel (set_buf l header_buf) fr (header_buf-AtHeader l b x) live e f in
    let accepted : IsMessage k.i.mem k.i.p.e =
      subst (IsMessage k.i.mem) (sym h.end) (ok k.i.mem h.bytes) in
    let pk = record (k.i) { b = data_buf k.i.mem } in
    let parses = (packet_parse_iff k.i pk h.begins).1 (accepted, refl) in
    (
      record k { i = pk },
      ap recv_parsed ends ∙ parsed k pk parses,
      record {
        bytes = h.bytes;
        begins = h.begins;
        end = h.end;
        data_at = refl;
        comes = h.comes;
        live = h.live;
      },
    )

pub sending :
    (c : Conn)
    → (cifs_send c.o c.answers).1 ≡ true
    → (c1 : Conn) × (conn_send c ≡ done tt c1)
      × (c1.o ≡ (packet_unparse c.o).0)
      × (c1.i ≡ c.i)
      × (c1.inp ≡ c.inp)
      × HasSent c c1
unfolding conn_send
sending c e =
    let sent = cifs_send c.o c.answers in
    (
      record c { o = sent.0; answers = sent.3; wire = c.wire ++ sent.2 },
      rw (e),
      unfold cifs_send in refl,
      refl,
      refl,
      ap (λ z. c.wire ++ z) (wire_whole c.o c.answers e),
    )

pub receiving :
    (fuel : ℕ) (c : Conn) (l : Link)
    → cifs_recv fuel (record { i = c.i; inp = c.inp }) ≡ received l
    → conn_recv fuel c ≡ done tt (with_link c l)
unfolding conn_recv conn_received
receiving fuel c l e = rw (e, conn_received)

pub request_steps :
    (fuel : ℕ) (c c1 c2 : Conn)
    → conn_send c ≡ done tt c1
    → conn_recv fuel c1 ≡ done tt c2
    → request fuel c ≡ request_checked c2
unfolding request
request_steps fuel c c1 c2 h k = rw (h, k)
