-- ===== src/Proto/Session.antt =====
-- libcifs/proto.c: the calls that set up a session and choose a tree, and libcifs/find.c's
-- `cifs_time`.
use cifscp.Base.{
  ℕ, ◌+◌, ◌-◌, ◌*◌, ◌/◌, ◌%◌, not, ◌&&◌, Option, [], ◌∷◌, ltb, if◌then◌else◌, replicate,
}
use cifscp.Base.Strings.{Bytes, codes}
use cifscp.Cstring.{ℤ, pos, negsuc}
use cifscp.Memory.{store, get16, get32, get64}
use cifscp.Buffer.{Writer, ◌>>◌, write_byte, write_strz}
use cifscp.Packet.{
  Packet, words_at, magic_at, flags_at, flags2_at, tid_at, uid_at, packet_tid, packet_setup,
}
use cifscp.Connect.{Conn, Outcome, done, and_then, request}
use cifscp.Proto.{
  Pages, as_int, low16, has_bit, unicode, request_setup, put16, put32, put8, header16, write_body,
  oem_text, ucs_text, oem_textz, ucs_textz, with_request,
}

-- A difference and a product of integers, and a quotient that drops the fraction.
abbrev minus : ℕ → ℕ → ℤ
minus n k = if ltb n k then negsuc (k - n - 1) else pos (n - k)

abbrev less_by : ℤ → ℕ → ℤ
less_by (pos n) k = minus n k
less_by (negsuc n) k = negsuc (n + k)

abbrev times : ℤ → ℕ → ℤ
times (pos n) k = pos (n * k)
times (negsuc n) k = minus 0 ((n + 1) * k)

abbrev over : ℤ → ℕ → ℤ
over (pos n) k = pos (n / k)
over (negsuc n) k = minus 0 ((n + 1) / k)

abbrev as_long : ℕ → ℤ
as_long n = if ltb n 9223372036854775808 then pos n else negsuc (18446744073709551615 - n)

abbrev as_short : ℕ → ℤ
as_short n = if ltb n 32768 then pos n else negsuc (65535 - n)

-- `cifs_time`: from tenths of microseconds since 1601 to seconds since 1970.
unfoldable pub cifs_time : ℤ → ℤ
cifs_time nt = less_by (over nt 10000000) 11644473600

-- A size that the server announces, as the client takes it.
unfoldable pub clamped : ℕ → ℤ → ℤ
clamped limit (pos n) = pos (if ltb limit n then limit else n)
clamped limit (negsuc n) = negsuc n

-- The request of `cifs_negotiate`: the header is written afresh.
unfoldable pub negotiate_draft : Packet → Option Packet
unfolding packet_setup header16 write_body
negotiate_draft o =
    let cleared = packet_setup (record o { mem = store o.mem 0 (replicate 39 0) }) 0x72 0 in
    let named = record cleared {
      mem = store (store cleared.mem magic_at (0xff ∷ codes "SMB")) flags_at (0x18 ∷ []);
    } in
    write_body (write_strz (2 ∷ codes "NT LM 0.12"))
      (header16 tid_at 65535 (header16 flags2_at 0x41 named))

-- What the answer says of the server.
unfoldable pub negotiated : Conn → Conn
unfolding cifs_time clamped header16
negotiated c =
    let m = c.i.mem in
    let c' = record c {
      session_key = get32 m (words_at + 15);
      max_buffer_size = clamped 65535 (as_int (get32 m (words_at + 7)));
      max_raw_size = clamped 61440 (as_int (get32 m (words_at + 11)));
      capabilities = get32 m (words_at + 19);
      time = cifs_time (as_long (get64 m (words_at + 23)));
      zone = times (as_short (get16 m (words_at + 31))) 60;
    } in
    let flags2 = get16 c.o.mem flags2_at in
    if unicode c' && not (has_bit flags2 15)
    then record c' { o = header16 flags2_at (flags2 + 32768) c.o }
    else c'

unfoldable pub negotiate : ℕ → Conn → Outcome Unit
unfolding negotiate_draft negotiated
negotiate fuel c =
    with_request c (negotiate_draft c.o)
      (λ c1. and_then (request fuel c1) (λ _ c2. done tt (negotiated c2)))

-- `cifs_sessionsetup`: a guest, with the capabilities that both sides have of RAW_MODE, UNICODE and
-- LARGE_FILES.
abbrev session_strings : (Bytes → Writer) → Writer
session_strings text =
    text (codes "GUEST") >> text [] >> text (codes "LINUX") >> text (codes "LIBCIFS")

unfoldable pub session_draft : Pages → Conn → Option Packet
unfolding request_setup put8 put16 put32 write_body
session_draft pages c =
    let k = c.capabilities in
    let o = put32 22 (k % 2 + k / 4 % 2 * 4 + k / 8 % 2 * 8) (
      put32 10 c.session_key
        (put16 6 1 (put16 4 65535 (put8 0 255 (request_setup 0x73 26 c.o))))) in
    write_body (session_strings (if unicode c then ucs_textz pages else oem_textz pages)) o

unfoldable pub session_setup : ℕ → Pages → Conn → Outcome Unit
unfolding session_draft header16
session_setup fuel pages c = with_request c (session_draft pages c) (λ c1.
    and_then (request fuel c1)
      (λ _ c2. done tt (record c2 { o = header16 uid_at (get16 c2.i.mem uid_at) c2.o })))

-- `\\host\share` and the service, which may be any.
unfoldable pub tree_draft : Pages → Bytes → Conn → Option Packet
unfolding request_setup put8 header16 write_body
tree_draft pages tree c =
    let o = put8 0 255 (header16 tid_at 65535 (request_setup 0x75 8 c.o)) in
    let name =
      if unicode c
      then write_byte 0
        >> ucs_text pages (codes "\\\\")
        >> ucs_text pages c.name
        >> ucs_text pages (codes "\\")
        >> ucs_textz pages tree
      else oem_text pages (codes "\\\\")
        >> oem_text pages c.name
        >> oem_text pages (codes "\\")
        >> oem_textz pages tree in
    write_body (name >> write_strz (codes "?????")) o

-- `cifs_tree_connect`: the tree's number, which requests name from now on.
unfoldable pub tree_connect : ℕ → Pages → Bytes → Conn → Outcome ℕ
unfolding tree_draft header16
tree_connect fuel pages tree c = with_request c (tree_draft pages tree c) (λ c1.
    and_then (request fuel c1)
      (λ _ c2. done (packet_tid c2.i) (record c2 { o = header16 tid_at (packet_tid c2.i) c2.o })))

-- `cifs_tree_set`: a negative number stands for the tree of the connection.
unfoldable pub tree_set : ℤ → Conn → Conn
unfolding header16
tree_set (pos tid) c = record c { o = header16 tid_at tid c.o }
tree_set (negsuc n) c = record c { o = header16 tid_at (low16 c.tid) c.o }

-- `cifs_tree_disconnect`.
abbrev named_tree : ℤ → Packet → Packet
named_tree (pos tid) o = header16 tid_at tid o
named_tree (negsuc n) o = o

unfoldable pub tree_disconnect : ℕ → ℤ → Conn → Outcome Unit
unfolding packet_setup header16
tree_disconnect fuel tid c =
    and_then (request fuel (record c { o = named_tree tid (packet_setup c.o 0x71 0) }))
      (λ _ c'. done tt (record c' { o = header16 tid_at 65535 c'.o }))

-- `cifs_tree_ipc`: the tree of the services, which is connected once. A call that fails leaves `ipc`
-- at -1, where it was.
abbrev chosen_ipc : ℕ → Conn → Outcome Unit
chosen_ipc tid c = done tt (record c { ipc = pos tid })

abbrev use_ipc : ℕ → Pages → Conn → ℤ → Outcome Unit
use_ipc fuel pages c (pos tid) = done tt (tree_set (pos tid) c)
use_ipc fuel pages c (negsuc n) = and_then (tree_connect fuel pages (codes "IPC$") c) chosen_ipc

unfoldable pub tree_ipc : ℕ → Pages → Conn → Outcome Unit
unfolding tree_connect tree_set
tree_ipc fuel pages c = use_ipc fuel pages c c.ipc
