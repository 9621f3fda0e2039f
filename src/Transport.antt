-- ===== src/Transport.antt =====
-- The socket loops of libcifs/transport.c. A socket is what its calls will find: `recv` meets a list
-- of chunks, `send` a list of answers. Loops over `recv` run on fuel, since a peer that has closed
-- the connection makes `recv` return 0 for ever.
pub mod Stream
pub mod Framing
pub mod Closed
pub mod Sending
pub mod EndToEnd
use cifscp.Base.{
  ℕ, zero, suc, ◌+◌, ◌-◌, ◌*◌, ◌/◌, ◌%◌, ◌^◌, ◌≤◌, ◌<◌, min, ◌≡◌, refl, sym, ap, ◌∙◌, ◌≢◌, ◌↔◌, ◌⊎◌,
  inl, inr, Bool, true, false, not, ◌&&◌, ◌||◌, Option, none, some, List, [], ◌∷◌, ◌++◌, map, arith,
  ltb, leb, ◌==◌, if◌then◌else◌, ltb→lt, lt→ltb, ==_iff, Bool-cases, Option-cases, length, take,
  drop, replicate, length-append, length-take, length-drop, take-append-drop, take-all, drop-all,
  length-map, length-replicate,
}
use cifscp.Base.Strings.{Bytes}
use cifscp.Memory.{Mem, store, load}
use cifscp.Buffer.{Buf, buf_resize, buf_set, buf_inc, buf_left, buf_len}
use cifscp.Packet.{
  Packet, packet_length, packet_parse, packet_unparse, nbt_type_at, Errno, enomem, eio, eagain,
}

-- What one `recv` call finds: an error, or bytes; after the last chunk the peer has closed.
pub data Chunk : Type 0 where
  broken : Chunk
  chunk : Bytes → Chunk

abbrev pub Input : Type 0
Input = List Chunk

pub data Got : Type 0 where
  failure : Got
  got : Bytes → Got

-- What a call leaves of a chunk.
abbrev pub unread : Bytes → Input → Input
unread [] inp = inp
unread (c ∷ cs) inp = chunk (c ∷ cs) ∷ inp

-- `recv(sock, buf, n, MSG_WAITALL)`, which may return less than `n` bytes all the same.
unfoldable pub recv : ℕ → Input → Got × Input
recv n [] = (got [], [])
recv n (broken ∷ inp) = (failure, inp)
recv n (chunk bs ∷ inp) = (got (take n bs), unread (drop n bs) inp)

-- `cifs_recv_skip_sock`: true for 0, false for -1.
pub data Skip : Type 0 where
  skipped : Bool → Input → Skip
  skip_hang : Skip

unfoldable pub skip_got : (ℕ → Input → Skip) → ℕ → Got → Input → Skip
skip_got next size failure inp = skipped false inp
skip_got next size (got []) inp = next (suc size) inp
skip_got next size (got (b ∷ _)) inp = next size inp

unfoldable pub skip_sock : ℕ → ℕ → Input → Skip
unfolding skip_got
skip_sock zero size inp = skip_hang
skip_sock (suc fuel) zero inp = skipped true inp
skip_sock (suc fuel) (suc size) inp =
    let (r, inp') = recv 1 inp in skip_got (skip_sock fuel) size r inp'

-- The receiving half of a connection.
pub record Link : Type 0 where
  pub i : Packet
  pub inp : Input

-- Why a call returned -1: the system has set `errno`, or the library has.
pub data Why : Type 0 where
  system : Why
  code : Errno → Why

-- `hang` is no outcome of the code: the fuel ran out.
pub data Received : Type 0 where
  received : Link → Received
  recv_failed : Why → Link → Received
  hang : Received

abbrev pub with_buf : Link → Buf → Link
with_buf l d = record l { i = record (l.i) { p = d } }

abbrev pub set_buf : Link → (Buf → Buf) → Link
set_buf l f = with_buf l (f l.i.p)

-- The `while` test of `cifs_recv`.
unfoldable pub recv_test : (Link → Received) → Link → Received
recv_test next l = if l.i.p.p == l.i.p.e then received l else next l

-- A complete header of a message that is no session message: its body is skipped, whether that
-- succeeds or not, and the next header is awaited.
unfoldable pub recv_other : (Link → Received) → Skip → Link → Received
unfolding recv_test
recv_other next (skipped _ inp) l =
    recv_test next (record (set_buf l (λ d. buf_set d 0)) { inp = inp })
recv_other next skip_hang l = hang

unfoldable pub recv_sized : (Link → Received) → Option Buf → Link → Received
unfolding recv_test
recv_sized next none l = recv_failed (code enomem) l
recv_sized next (some d) l = recv_test next (with_buf l d)

unfoldable pub recv_header : ℕ → (Link → Received) → Link → Received
unfolding recv_other recv_sized
recv_header fuel next l =
    let size = packet_length l.i in
    if l.i.mem nbt_type_at == 0
    then recv_sized next (buf_resize l.i.p (size + 4)) l
    else recv_other next (skip_sock fuel size l.inp) l

-- The body of the loop behind the call of `recv`.
unfoldable pub recv_got : ℕ → (Link → Received) → Got → Link → Received
unfolding recv_test recv_header
recv_got fuel next failure l = recv_failed system l
recv_got fuel next (got bs) l =
    let pk = l.i in
    let l' = record l {
      i = record pk { mem = store pk.mem pk.p.p bs; p = buf_inc pk.p (length bs) };
    } in
    if l'.i.p.p == l'.i.p.e && buf_len l'.i.p == 4
    then recv_header fuel next l'
    else recv_test next l'

unfoldable pub recv_loop : ℕ → Link → Received
recv_loop zero l = hang
recv_loop (suc fuel) l =
    let (r, inp') = recv (buf_left l.i.p) l.inp in
    recv_got fuel (recv_loop fuel) r (record l { inp = inp' })

-- `cifs_recv`. The first call of `cifs_buf_resize` is not checked.
unfoldable pub header_buf : Buf → Buf
header_buf d = buf_set (elim (buf_resize d 4) [ none ↦ d | some d' ↦ d' ]) 0

unfoldable pub recv_parsed : Received → Received
recv_parsed hang = hang
recv_parsed (recv_failed w l) = recv_failed w l
recv_parsed (received l) = elim (packet_parse l.i) [
  | none ↦ recv_failed (code eio) l
  | some pk ↦ received (record l { i = pk })
]

unfoldable pub cifs_recv : ℕ → Link → Received
unfolding recv_loop recv_parsed header_buf
cifs_recv fuel l = recv_parsed (recv_loop fuel (set_buf l header_buf))

-- What one `send` call answers: -1, or how many bytes it takes. A list that has run out stands for
-- a broken connection.
pub data Answer : Type 0 where
  refuse : Answer
  accept : ℕ → Answer

-- The loop of `cifs_send` and `cifs_send_raw`: whether it returns 0, and the bytes on the wire.
unfoldable pub send_loop : List Answer → Bytes → Bytes → Bool × Bytes × List Answer
send_loop answers [] wire = (true, wire, answers)
send_loop [] (c ∷ cs) wire = (false, wire, [])
send_loop (refuse ∷ answers) (c ∷ cs) wire = (false, wire, answers)
send_loop (accept n ∷ answers) (c ∷ cs) wire =
    send_loop answers (drop n (c ∷ cs)) (wire ++ take n (c ∷ cs))

-- `cifs_send`: the packet as it is left, and the outcome of the loop.
unfoldable pub cifs_send : Packet → List Answer → Packet × Bool × Bytes × List Answer
unfolding send_loop
cifs_send o answers =
    let (o', len) = packet_unparse o in
    let (all, wire, rest) = send_loop answers (load o'.mem 0 len) [] in (o', all, wire, rest)
