-- ===== src/Proto/Files.antt =====
-- libcifs/proto.c: opening, closing, reading, writing and removing files.
use cifscp.Base.{
  ℕ, ◌+◌, ◌-◌, ◌/◌, Bool, Option, none, some, [], ◌∷◌, ltb, if◌then◌else◌, length, take,
}
use cifscp.Base.Strings.{Bytes}
use cifscp.Cstring.{ℤ, pos, negsuc}
use cifscp.Memory.{Mem, load, get16, get32, get64}
use cifscp.Buffer.{Writer, ◌>>◌, write_byte, write_buf, buf_len}
use cifscp.Packet.{Packet, words_at, packet_range, packet_setup, enomem}
use cifscp.Transport.{system, code}
use cifscp.Raw.{Raw, raw_done, raw_failed, raw_hang, recv_raw}
use cifscp.Connect.{Conn, Outcome, done, refused, no_end, and_then, conn_send, conn_recv, request}
use cifscp.Proto.{
  Pages, low16, has_bit, unicode, request_setup, put8, put16, put32, write_body, oem_path, ucs_path,
  oem_pathz, ucs_pathz, with_request,
}

-- The bits of the `flags` of `cifs_open`.
pub record OpenFlags : Type 0 where
  pub directory : Bool
  pub rdwr : Bool
  pub wronly : Bool
  pub creat : Bool
  pub excl : Bool
  pub trunc : Bool

-- GENERIC_READ is 2^31 and GENERIC_WRITE 2^30.
unfoldable pub open_access : OpenFlags → ℕ
open_access f =
    if f.rdwr then 2147483648 + 1073741824 else if f.wronly then 1073741824 else 2147483648

-- NTCREATEX_DISP_OPEN is 1, CREATE 2, OPEN_IF 3, OVERWRITE 4 and OVERWRITE_IF 5.
unfoldable pub open_disposition : OpenFlags → ℕ
open_disposition f =
    if f.creat then (if f.excl then 2 else if f.trunc then 5 else 3) else if f.trunc then 4 else 1

-- `cifs_stat_t`, without the flag that tells directories, which `cifs_open` leaves alone.
pub record Stat : Type 0 where
  pub creation_time : ℕ
  pub access_time : ℕ
  pub write_time : ℕ
  pub change_time : ℕ
  pub file_size : ℕ
  pub allocation_size : ℕ
  pub attributes : ℕ

-- The words of the request, then the name, whose length goes into the words.
unfoldable pub open_words : OpenFlags → Packet → Packet
unfolding request_setup put8 put16 put32 open_access open_disposition
open_words f o = put32 35 (open_disposition f) (
    put32 31 7 (
      put32 15 (open_access f)
        (put32 7 (if f.directory then 8 else 0) (put8 0 255 (request_setup 0xa2 48 o)))))

unfoldable pub open_draft : Pages → Bytes → OpenFlags → Conn → Option Packet
unfolding open_words put16 write_body
open_draft pages name f c =
    if unicode c
    then elim (write_body (write_byte 0 >> ucs_path pages name) (open_words f c.o)) [
      | none ↦ none
      | some o ↦ some (put16 5 (buf_len o.b - 1) o)
    ]
    else elim (write_body (oem_path pages name) (open_words f c.o)) [
      | none ↦ none
      | some o ↦ some (put16 5 (buf_len o.b) o)
    ]

unfoldable pub open_stat : Mem → Stat
open_stat m = record {
  creation_time = get64 m (words_at + 11);
  access_time = get64 m (words_at + 19);
  write_time = get64 m (words_at + 27);
  change_time = get64 m (words_at + 35);
  attributes = get32 m (words_at + 43);
  allocation_size = get64 m (words_at + 47);
  file_size = get64 m (words_at + 55);
}

-- `cifs_open`: the file's number, and what the answer says of it.
unfoldable pub cifs_open : ℕ → Pages → Bytes → OpenFlags → Conn → Outcome (ℕ × Stat)
unfolding open_draft open_stat
cifs_open fuel pages name f c = with_request c (open_draft pages name f c) (λ c1.
    and_then (request fuel c1)
      (λ _ c2. done (get16 c2.i.mem (words_at + 5), open_stat c2.i.mem) c2))

-- `cifs_close`.
unfoldable pub cifs_close : ℕ → ℕ → Conn → Outcome Unit
unfolding packet_setup put16
cifs_close fuel fid c =
    request fuel
      (record c { o = put16 4 65535 (put16 2 65535 (put16 0 fid (packet_setup c.o 4 6))) })

-- `if (count > max) count = max` on two `int`, and the 16 bits that go into a request.
unfoldable pub clamp_count : ℕ → ℤ → ℕ
clamp_count count (pos limit) = low16 (pos (if ltb limit count then limit else count))
clamp_count count (negsuc n) = low16 (negsuc n)

unfoldable pub read_andx_draft : ℕ → ℕ → ℕ → Conn → Packet
unfolding request_setup put8 put16 put32 clamp_count
read_andx_draft fid count off c = put16 10 (clamp_count count c.max_buffer_size) (
    put32 20 (off / 4294967296)
      (put32 6 off (put16 4 fid (put8 0 255 (request_setup 0x2e 24 c.o)))))

unfoldable pub read_raw_draft : ℕ → ℕ → ℕ → Conn → Packet
unfolding request_setup put16 put32 clamp_count
read_raw_draft fid count off c = put32 16 (off / 4294967296) (
    put32 2 off
      (put16 6 (clamp_count count c.max_raw_size) (put16 0 fid (request_setup 0x1a 20 c.o))))

unfoldable pub read_andx_send : ℕ → ℕ → ℕ → Conn → Outcome Unit
read_andx_send fid count off c = conn_send (record c { o = read_andx_draft fid count off c })

unfoldable pub read_raw_send : ℕ → ℕ → ℕ → Conn → Outcome Unit
read_raw_send fid count off c = conn_send (record c { o = read_raw_draft fid count off c })

-- `cifs_read_andx_get`: where the data of an answer lies in it, and how long it is.
unfoldable pub read_andx_get : Packet → Option (ℕ × ℕ)
read_andx_get i =
    let len = get16 i.mem (words_at + 10) in
    let off = get16 i.mem (words_at + 12) in
    if packet_range i off len then none else some (i.p.b + off + 4, len)

-- `cifs_read_andx_recv`: the bytes for a buffer of `count`. Neither the command nor the error of the
-- answer is looked at. When the data lies outside the answer, `errno` is as it was.
unfoldable pub read_andx_got : ℕ → Conn → Option (ℕ × ℕ) → Outcome Bytes
read_andx_got count c none = refused system c
read_andx_got count c (some (at, len)) =
    if ltb count len then refused (code enomem) c else done (load c.i.mem at len) c

unfoldable pub read_andx_recv : ℕ → ℕ → Conn → Outcome Bytes
unfolding read_andx_get read_andx_got
read_andx_recv fuel count c =
    and_then (conn_recv fuel c) (λ _ c'. read_andx_got count c' (read_andx_get c'.i))

unfoldable pub raw_received : Conn → Raw → Outcome Bytes
raw_received c (raw_done bs inp) = done bs (record c { inp = inp })
raw_received c (raw_failed w inp) = refused w (record c { inp = inp })
raw_received c raw_hang = no_end

unfoldable pub conn_recv_raw : ℕ → ℕ → Conn → Outcome Bytes
unfolding raw_received
conn_recv_raw fuel count c = raw_received c (recv_raw fuel count c.inp)

unfoldable pub read_andx : ℕ → ℕ → ℕ → ℕ → Conn → Outcome Bytes
unfolding read_andx_send read_andx_recv
read_andx fuel fid count off c =
    and_then (read_andx_send fid count off c) (λ _ c'. read_andx_recv fuel count c')

-- `cifs_read`: the raw mode answers an error or the end of the file with no byte, and the call is
-- made again in the other mode.
abbrev or_andx : ℕ → ℕ → ℕ → ℕ → Bytes → Conn → Outcome Bytes
or_andx fuel fid count off [] c = read_andx fuel fid count off c
or_andx fuel fid count off (b ∷ bs) c = done (b ∷ bs) c

unfoldable pub cifs_read : ℕ → ℕ → ℕ → ℕ → Conn → Outcome Bytes
unfolding read_raw_send conn_recv_raw read_andx
cifs_read fuel fid count off c =
    if has_bit c.capabilities 0
    then and_then (read_raw_send fid count off c)
        (λ _ c1. and_then (conn_recv_raw fuel count c1) (λ bs c2. or_andx fuel fid count off bs c2))
    else read_andx fuel fid count off c

-- The bytes that one write request carries: a limit that is negative does not count, since it is
-- compared as a `size_t`.
abbrev pub write_share : Bytes → ℤ → Bytes
write_share bs (pos limit) = take limit bs
write_share bs (negsuc n) = bs

-- `cifs_packet_off_cur`.
abbrev pub offset_here : Packet → ℕ
offset_here o = o.b.p - o.p.b - 4

unfoldable pub write_words : ℕ → ℕ → ℕ → Packet → Packet
unfolding request_setup put8 put16 put32
write_words fid off len o =
    let o' = put16 20 len (
      put32 24 (off / 4294967296)
        (put32 6 off (put16 4 fid (put8 0 255 (request_setup 0x2f 28 o))))) in
    put16 22 (offset_here o') o'

unfoldable pub write_draft : ℕ → ℕ → Bytes → Conn → Option Packet
unfolding write_words write_body
write_draft fid off bs c =
    let share = write_share bs c.max_buffer_size in
    write_body (write_buf share) (write_words fid off (length share) c.o)

-- `cifs_write`, which is `cifs_write_andx`: how many bytes the server has taken.
unfoldable pub cifs_write : ℕ → ℕ → ℕ → Bytes → Conn → Outcome ℕ
unfolding write_draft
cifs_write fuel fid off bs c =
    with_request c (write_draft fid off bs c)
      (λ c1. and_then (request fuel c1) (λ _ c2. done (get16 c2.i.mem (words_at + 4)) c2))

-- A name behind the byte 4, with its terminator.
abbrev pub tagged_path : Pages → Bytes → Conn → Writer
tagged_path pages path c =
    if unicode c then write_byte 4 >> ucs_pathz pages path else write_byte 4 >> oem_pathz pages path

-- `cifs_unlink` and `cifs_rmdir`, and the request of `cifs_mkdir`.
unfoldable pub cifs_unlink : ℕ → Pages → Bytes → Conn → Outcome Unit
unfolding packet_setup put16 write_body
cifs_unlink fuel pages path c =
    with_request c (write_body (tagged_path pages path c) (put16 0 0x37 (packet_setup c.o 6 2)))
      (request fuel)

unfoldable pub cifs_rmdir : ℕ → Pages → Bytes → Conn → Outcome Unit
unfolding packet_setup write_body
cifs_rmdir fuel pages path c =
    with_request c (write_body (tagged_path pages path c) (packet_setup c.o 1 0)) (request fuel)

unfoldable pub mkdir_draft : Pages → Bytes → Conn → Option Packet
unfolding packet_setup write_body
mkdir_draft pages path c = write_body (tagged_path pages path c) (packet_setup c.o 0 0)
