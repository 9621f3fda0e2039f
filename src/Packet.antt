-- ===== src/Packet.antt =====
-- libcifs/struct.h (`cifs_header_s`) and the packet functions of libcifs/transport.c. A packet is
-- one block of memory with the header at offset 0; `p` bounds the whole message in it, and `b` is
-- the data behind the parameter words. `memcmp` and the fields read the block at the offsets that
-- the packed structure gives them.
pub mod Parse
pub mod RoundTrip
use cifscp.Base.{
  ℕ, zero, suc, ◌+◌, ◌-◌, ◌*◌, ◌/◌, ◌%◌, ◌^◌, ◌≤◌, ◌<◌, min, ◌≡◌, refl, sym, ap, ◌∙◌, ◌≢◌, ◌↔◌, ◌⊎◌,
  inl, inr, Bool, true, false, not, ◌&&◌, ◌||◌, Option, none, some, List, [], ◌∷◌, ◌++◌, map, arith,
  ltb, leb, ◌==◌, if◌then◌else◌, ltb→lt, lt→ltb, ==_iff, Bool-cases, Option-cases, length, take,
  drop, replicate, length-append, length-take, length-drop, take-append-drop, take-all, drop-all,
  length-map, length-replicate,
}
use cifscp.Base.Strings.{Bytes}
use cifscp.Memory.{Mem, store, load, get16, le8, le16}
use cifscp.Buffer.{Buf, buf_new, buf_setup, buf_resize_full, buf_size, buf_len, buf_range}

pub record Packet : Type 0 where
  pub mem : Mem
  pub p : Buf
  pub b : Buf

-- Offsets of the fields of `cifs_header_s`, and its size with the one word that it declares.
abbrev pub nbt_type_at : ℕ
nbt_type_at = 0

abbrev pub nbt_length_at : ℕ
nbt_length_at = 2

abbrev pub magic_at : ℕ
magic_at = 4

abbrev pub cmd_at : ℕ
cmd_at = 8

abbrev pub error_class_at : ℕ
error_class_at = 9

abbrev pub error_at : ℕ
error_at = 11

abbrev pub flags_at : ℕ
flags_at = 13

abbrev pub flags2_at : ℕ
flags2_at = 14

abbrev pub tid_at : ℕ
tid_at = 28

abbrev pub uid_at : ℕ
uid_at = 32

abbrev pub wc_at : ℕ
wc_at = 36

abbrev pub words_at : ℕ
words_at = 37

abbrev pub header_size : ℕ
header_size = 39

-- `CIFS_MAX_BUFFER + 4`.
abbrev pub block_size : ℕ
block_size = 65539

abbrev pub packet_cmd : Packet → ℕ
packet_cmd pk = pk.mem cmd_at

abbrev pub packet_tid : Packet → ℕ
packet_tid pk = get16 pk.mem tid_at

-- The packet part of `cifs_connect_new`: `malloc` leaves the block as it is.
unfoldable pub packet_new : Mem → Packet
unfolding buf_new
packet_new junk = record { mem = junk; p = buf_new block_size; b = buf_new 0 }

-- `memcmp(packet->h->magic, CIFS_MAGIC, 4)`.
abbrev pub has_magic : Mem → Bool
has_magic m = m 4 == 0xff && (m 5 == b'S' && (m 6 == b'M' && m 7 == b'B'))

-- `none` is -1.
unfoldable pub packet_parse : Packet → Option Packet
unfolding buf_setup
packet_parse pk =
    let size = buf_size pk.p in
    let wc = pk.mem wc_at in
    let bc = get16 pk.mem (words_at + wc * 2) in
    if ltb size header_size
    then none
    else if not (has_magic pk.mem)
    then none
    else if ltb size (header_size + wc * 2)
    then none
    else if ltb size (header_size + wc * 2 + bc)
    then none
    else some (record pk { b = buf_setup (pk.p.b + words_at + 2 * (wc + 1)) bc })

-- The message as it is sent, and its length with the four bytes of the NetBIOS header.
unfoldable pub packet_unparse : Packet → Packet × ℕ
packet_unparse pk =
    let b' = record (pk.b) { e = pk.b.p } in
    let p' = record (pk.p) { e = pk.b.p } in
    let size = buf_size p' - 4 in
    let sized = store pk.mem nbt_length_at (size / 256 % 256 ∷ size % 256 ∷ []) in
    let filled = store sized (words_at + 2 * sized wc_at) (le16 (buf_len b')) in
    (record { mem = filled; p = p'; b = b' }, size + 4)

unfoldable pub packet_length : Packet → ℕ
packet_length pk = pk.mem 3 + pk.mem 2 * 256

unfoldable pub packet_setup : Packet → ℕ → ℕ → Packet
unfolding buf_setup buf_resize_full
packet_setup pk cmd words_size =
    let p' = buf_resize_full pk.p in
    let wc = (words_size + 1) / 2 in
    let off = words_at + 2 * (wc + 1) in
    record {
      mem = store (store pk.mem cmd_at (le8 cmd)) wc_at (le8 wc);
      p = p';
      b = buf_setup (p'.b + off) (buf_size p' - off);
    }

-- `cifs_packet_range`: offsets in a message count from behind the NetBIOS header.
unfoldable pub packet_range : Packet → ℕ → ℕ → Bool
unfolding buf_range
packet_range pk off len = buf_range pk.p (off + 4) len

-- The values of `errno` that the library sets.
pub data Errno : Type 0 where
  enoent emfile eacces ebadf eio enomem einval e2big enotdir emlink eagain enonet : Errno
  econnaborted : Errno

-- libcifs/doserr.h: ERRDOS is class 1 and ERRSRV class 2.
unfoldable pub dos_errno : ℕ → Errno
dos_errno e =
    if e == 2 || (e == 3 || e == 67)
    then enoent
    else if e == 4
    then emfile
    else if e == 5 || (e == 12 || e == 1326)
    then eacces
    else if e == 6
    then ebadf
    else eio

unfoldable pub srv_errno : ℕ → Errno
srv_errno e = if e == 1 then eio else if e == 2 || e == 4 then eacces else eio

-- `cifs_packet_errno`; `none` is 0.
unfoldable pub packet_errno : Packet → Option Errno
unfolding dos_errno srv_errno
packet_errno pk =
    let error = get16 pk.mem error_at in
    let class = pk.mem error_class_at in
    if error == 0
    then none
    else if class == 0
    then none
    else if class == 1
    then some (dos_errno error)
    else if class == 2
    then some (srv_errno error)
    else none
