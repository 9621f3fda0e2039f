-- ===== src/Connect.antt =====
-- The connection of libcifs/transport.h and transport.c: its state, `cifs_connect_new`,
-- `cifs_request` and `cifs_recv_async`. What a call returns is an outcome, with the connection it
-- leaves. Both ends of the socket are scripts: `inp` is what `recv` will find, `answers` what `send`
-- will answer, and `wire` what has been sent.
pub mod Request
pub mod Exchange
pub mod Async
pub mod Polling
pub mod Bodies
pub mod Polls
use cifscp.Base.{
  ℕ, zero, suc, ◌+◌, ◌-◌, ◌*◌, ◌/◌, ◌%◌, ◌^◌, ◌≤◌, ◌<◌, min, ◌≡◌, refl, sym, ap, ◌∙◌, ◌≢◌, ◌↔◌, ◌⊎◌,
  inl, inr, Bool, true, false, not, ◌&&◌, ◌||◌, Option, none, some, List, [], ◌∷◌, ◌++◌, map, arith,
  ltb, leb, ◌==◌, if◌then◌else◌, ltb→lt, lt→ltb, ==_iff, Bool-cases, Option-cases, length, take,
  drop, replicate, length-append, length-take, length-drop, take-append-drop, take-add, take-take,
  take_self, append-split, append-cancel, take-all, drop-all, length-map, length-replicate,
}
use cifscp.Base.Strings.{Bytes}
use cifscp.Cstring.{ℤ, pos, negsuc}
use cifscp.Memory.{Mem, store}
use cifscp.Buffer.{buf_left, buf_len, buf_inc, buf_resize, buf_set}
use cifscp.Packet.{
  Packet, Errno, eio, enomem, eagain, nbt_type_at, packet_new, packet_cmd, packet_errno,
  packet_length,
}
use cifscp.Transport.{
  Input, Got, failure, got, recv, Link, with_buf, Received, received, recv_failed, hang, header_buf,
  set_buf, cifs_recv, Answer, cifs_send, Why, system, code,
}

-- `cifs_connect_s`. `i` is the answer and `o` the request; an `int` that may be negative is a ℤ.
pub record Conn : Type 0 where
  pub i : Packet
  pub o : Packet
  pub name : Bytes
  pub session_key : ℕ
  pub max_buffer_size : ℤ
  pub max_raw_size : ℤ
  pub capabilities : ℕ
  pub tid : ℤ
  pub ipc : ℤ
  pub time : ℤ
  pub zone : ℤ
  pub inp : Input
  pub answers : List Answer
  pub wire : Bytes

-- What a call returns: a value, or -1. `fault` is a write or a read outside a block, undefined in C,
-- and `no_end` says that the fuel ran out.
pub data Outcome (A : Type 0) : Type 0 where
  done : A → Conn → Outcome A
  refused : Why → Conn → Outcome A
  fault : Outcome A
  no_end : Outcome A

abbrev pub and_then : {A B : Type 0} → Outcome A → (A → Conn → Outcome B) → Outcome B
and_then (done a c) f = f a c
and_then (refused w c) f = refused w c
and_then fault f = fault
and_then no_end f = no_end

-- `cifs_connect_new`: `calloc` clears the record, `malloc` leaves both blocks as they are.
unfoldable pub connect_new : Mem → Mem → Bytes → Input → List Answer → Conn
unfolding packet_new
connect_new junk_i junk_o name inp answers = record {
  i = packet_new junk_i;
  o = packet_new junk_o;
  name = name;
  session_key = 0;
  max_buffer_size = pos 0;
  max_raw_size = pos 0;
  capabilities = 0;
  tid = negsuc 0;
  ipc = negsuc 0;
  time = pos 0;
  zone = pos 0;
  inp = inp;
  answers = answers;
  wire = [];
}

abbrev pub with_link : Conn → Link → Conn
with_link c l = record c { i = l.i; inp = l.inp }

-- `cifs_send` on a connection.
unfoldable pub conn_send : Conn → Outcome Unit
conn_send c =
    let (o', all, sent, rest) = cifs_send c.o c.answers in
    let c' = record c { o = o'; answers = rest; wire = c.wire ++ sent } in
    if all then done tt c' else refused system c'

-- `cifs_recv` on a connection.
unfoldable pub conn_received : Conn → Received → Outcome Unit
conn_received c (received l) = done tt (with_link c l)
conn_received c (recv_failed w l) = refused w (with_link c l)
conn_received c hang = no_end

unfoldable pub conn_recv : ℕ → Conn → Outcome Unit
unfolding conn_received
conn_recv fuel c = conn_received c (cifs_recv fuel (record { i = c.i; inp = c.inp }))

-- What `cifs_request` looks at behind the two calls.
unfoldable pub request_checked : Conn → Outcome Unit
request_checked c =
    if not (packet_cmd c.i == packet_cmd c.o)
    then refused (code eio) c
    else elim (packet_errno c.i) [ none ↦ done tt c | some e ↦ refused (code e) c ]

unfoldable pub request : ℕ → Conn → Outcome Unit
unfolding conn_send conn_recv request_checked
request fuel c =
    and_then (conn_send c) (λ _ c'. and_then (conn_recv fuel c') (λ _ c''. request_checked c''))

-- `cifs_recv_async`, when `cifs_buf_left` is not negative. One call reads once.
abbrev pub async_begin : Link → Link
async_begin l = if buf_left l.i.p == 0 then set_buf l header_buf else l

unfoldable pub async_full : Link → Received
async_full l =
    if buf_len l.i.p == 4
    then elim (buf_resize l.i.p (packet_length l.i + 4)) [
      | none ↦ recv_failed (code enomem) l
      | some d ↦ recv_failed (code eagain) (with_buf l d)
    ]
    else if l.i.mem nbt_type_at == 0
    then received l
    else recv_failed (code eagain) l

unfoldable pub async_got : Got → Link → Received
unfolding async_full
async_got failure l = recv_failed system l
async_got (got bs) l =
    let pk = l.i in
    let l' = record l {
      i = record pk { mem = store pk.mem pk.p.p bs; p = buf_inc pk.p (length bs) };
    } in
    if buf_left l'.i.p == 0 then async_full l' else recv_failed (code eagain) l'

unfoldable pub recv_async : Link → Received
unfolding async_got header_buf
recv_async l =
    let l' = async_begin l in
    let (r, inp') = recv (buf_left l'.i.p) l'.inp in async_got r (record l' { inp = inp' })
