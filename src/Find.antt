-- ===== src/Find.antt =====
-- libcifs/find.c: listing directories, and the request of libcifs/transact.c that begins a
-- transaction. An entry is read from the data block of the transaction; a read behind the block's
-- end is a fault.
pub mod Calls
pub mod Entries
pub mod Listing
use cifscp.Base.{
  ℕ, zero, suc, ◌+◌, ◌-◌, ◌*◌, ◌/◌, ◌%◌, ◌^◌, ◌≤◌, ◌<◌, min, ◌≡◌, refl, sym, ap, ◌∙◌, ◌≢◌, ◌↔◌, ◌⊎◌,
  inl, inr, Bool, true, false, not, ◌&&◌, ◌||◌, Option, none, some, List, [], ◌∷◌, ◌++◌, map, arith,
  ltb, leb, ◌==◌, if◌then◌else◌, ltb→lt, lt→ltb, ==_iff, Bool-cases, Option-cases, length, take,
  drop, replicate, length-append, length-take, length-drop, take-append-drop, take-add, take-take,
  take_self, append-split, append-cancel, take-all, drop-all, length-map, length-replicate,
}
use cifscp.Base.Strings.{Bytes, codes}
use cifscp.Cstring.{same_string}
use cifscp.Memory.{Mem, zeroed, store, load, get16, get32, get64, le16, le32}
use cifscp.Codepage.{Iconv, cp_buf, cp_image}
use cifscp.Buffer.{Writer, ◌>>◌, write_buf, write_byte, write_word, buf_len, buf_inc}
use cifscp.Packet.{Packet, Errno, enoent, emlink, enotdir, packet_setup}
use cifscp.Transport.{Why, code}
use cifscp.Connect.{Conn, Outcome, done, refused, fault, no_end, and_then, conn_send, request}
use cifscp.Transact.{Trans, trans_new, trans_recv, trans_request}
use cifscp.Proto.{
  Pages, has_bit, unicode, request_setup, put16, put32, write_body, oem_text, ucs_text, oem_textz,
  ucs_textz, oem_path, ucs_path, with_request,
}
use cifscp.Proto.Files.{Stat, offset_here, mkdir_draft}

-- `cifs_trans_req`: the words, the setup words and the name, which a transaction may have.
unfoldable pub put_setup : ℕ → List ℕ → Packet → Packet
unfolding put16
put_setup off [] o = o
put_setup off (w ∷ ws) o = put_setup (off + 2) ws (put16 off w o)

abbrev no_write : Writer
no_write m d = some (m, d)

abbrev trans_name : Pages → Option Bytes → Conn → Writer
trans_name pages none c = no_write
trans_name pages (some name) c =
    if unicode c then write_byte 0 >> ucs_textz pages name else oem_textz pages name

unfoldable pub trans_words : ℕ → List ℕ → Packet → Packet
unfolding request_setup put16 put32 put_setup
trans_words cmd setup o = put_setup 28 setup (
    put16 26 (length setup) (
      put32 12 1000
        (put16 8 255 (put16 6 61440 (put16 4 1024 (request_setup cmd (28 + length setup * 2) o))))))

-- Neither parameters nor data yet, and both from here on.
abbrev pub no_parts : Packet → Packet
no_parts o =
    let at = offset_here o in
    put16 24 at (put16 2 0 (put16 22 0 (put16 20 at (put16 0 0 (put16 18 0 o)))))

unfoldable pub trans_draft : Pages → ℕ → Option Bytes → List ℕ → Conn → Option Packet
unfolding trans_words write_body put16
trans_draft pages cmd name setup c =
    elim (write_body (trans_name pages name c) (trans_words cmd setup c.o)) [
      | none ↦ none
      | some o ↦ some (no_parts o)
    ]

-- The parameters are all the data of the packet.
abbrev all_params : Packet → Packet
all_params o = put16 18 (buf_len o.b) (put16 0 (buf_len o.b) o)

abbrev find_first_fields : Bytes
find_first_fields = le16 0x37 ++ le16 65535 ++ le16 2 ++ le16 0x101 ++ le32 0

abbrev masked : (Bytes → Writer) → Option Bytes → Writer
masked text none = no_write
masked text (some mask) = text (codes "\\") >> text mask

abbrev built : Writer → Option Packet → Option Packet
built w none = none
built w (some o) = elim (write_body w o) [ none ↦ none | some o' ↦ some (all_params o') ]

-- `cifs_find_first_req`.
unfoldable pub find_first_draft : Pages → Bytes → Option Bytes → Conn → Option Packet
unfolding trans_draft write_body put16
find_first_draft pages path mask c =
    built
      (write_buf find_first_fields
        >> (if unicode c
            then ucs_path pages path >> masked (ucs_text pages) mask >> write_word 0
            else oem_path pages path >> masked (oem_text pages) mask >> write_byte 0))
      (trans_draft pages 0x32 none (1 ∷ []) c)

-- `cifs_find_next_req`.
unfoldable pub find_next_draft : Pages → ℕ → Conn → Option Packet
unfolding trans_draft write_body put16
find_next_draft pages sid c =
    built (write_buf (le16 sid ++ le16 65535 ++ le16 0x101 ++ le32 0 ++ le16 10) >> write_byte 0)
      (trans_draft pages 0x32 none (2 ∷ []) c)

-- `cifs_find_close_req`, whose command is that of a negotiation.
unfoldable pub find_close_draft : ℕ → Packet → Packet
unfolding packet_setup put16
find_close_draft sid o = put16 0 sid (packet_setup o 0x72 2)

-- Fields of `cifs_find_dirinfo_s` at `at` in a block.
abbrev pub next_entry_offset : Mem → ℕ → ℕ
next_entry_offset m at = get32 m at

abbrev pub name_length : Mem → ℕ → ℕ
name_length m at = get32 m (at + 60)

-- `cifs_build_stat`, and whether the entry is a directory.
unfoldable pub build_stat : Mem → ℕ → Stat
build_stat m at = record {
  creation_time = get64 m (at + 8);
  access_time = get64 m (at + 16);
  write_time = get64 m (at + 24);
  change_time = get64 m (at + 32);
  file_size = get64 m (at + 40);
  allocation_size = get64 m (at + 48);
  attributes = get32 m (at + 56);
}

abbrev pub is_directory : Stat → Bool
is_directory st = has_bit st.attributes 4

-- `cifs_dirent_t`.
pub record Dirent : Type 0 where
  pub st : Stat
  pub name : Bytes
  pub path : Bytes

-- `cifs_dir_s`: the entries that are left begin at the point of the transaction's data buffer. `base`
-- is the path with its slash, and `area` what the memory behind it holds, where names are written.
pub record Dir : Type 0 where
  pub trans : Trans
  pub sid : ℕ
  pub end : ℕ
  pub count : ℕ
  pub base : Bytes
  pub area : Mem

-- The size of the block that holds a path: PATH_MAX + NAME_MAX + 2.
abbrev pub path_room : ℕ
path_room = 4353

-- The C string at `at`, of `n` bytes at most.
unfoldable pub text_at : ℕ → Mem → ℕ → Bytes
text_at zero m at = []
text_at (suc n) m at = elim (m at == 0) [ true ↦ [] | false ↦ m at ∷ text_at n m (at + 1) ]

-- What `cifs_readdir` returns: an entry, or NULL with `errno`.
pub data Next : Type 0 where
  entry : Dirent → Next
  null : Why → Next

-- The entry at the point of the buffer: `cifs_build_dirent`, and the step to the next one.
abbrev entry_at : Dir → ℕ
entry_at d = d.trans.data_block.buf.p

abbrev pub stepped : Dir → Mem → Dir
stepped d area =
    let t = d.trans in
    let b = t.data_block in
    record d {
      trans = record t {
        data_block = record b { buf = buf_inc b.buf (next_entry_offset b.mem (entry_at d)) };
      };
      count = d.count - 1;
      area = area;
    }

abbrev pub named_in : Dir → Mem → Dirent
named_in d area =
    let name = text_at (path_room - length d.base) area 0 in
    record {
      st = build_stat d.trans.data_block.mem (entry_at d);
      name = name;
      path = d.base ++ name;
    }

-- The directory itself and the one above are passed over.
abbrev pub is_dots : Dirent → Bool
is_dots e = is_directory e.st && (same_string e.name (codes ".") || same_string e.name (codes ".."))

-- The entry with its name in `area`.
unfoldable pub read_named :
    (Dir → Conn → Outcome (Dir × Next)) → Dir → Mem → Conn → Outcome (Dir × Next)
unfolding build_stat text_at buf_inc
read_named next d area c =
    if is_dots (named_in d area)
    then next (stepped d area) c
    else done (stepped d area, entry (named_in d area)) c

unfoldable pub read_entry :
    Iconv → (Dir → Conn → Outcome (Dir × Next)) → Dir → Conn → Outcome (Dir × Next)
unfolding read_named
read_entry page next d c =
    let b = d.trans.data_block in
    let at = entry_at d in
    let image = cp_image (cp_buf page (load b.mem (at + 64) (name_length b.mem at)) 255) 255 in
    if ltb b.buf.x (at + 64 + name_length b.mem at) || ltb path_room (length d.base + length image)
    then fault
    else read_named next d (store d.area 0 image) c

-- A call whose error becomes the NULL of `cifs_readdir`.
abbrev pub or_null :
    {A : Type 0} → Dir → Outcome A → (A → Conn → Outcome (Dir × Next)) → Outcome (Dir × Next)
or_null d (done a c) f = f a c
or_null d (refused w c) f = done (d, null w) c
or_null d fault f = fault
or_null d no_end f = no_end

-- The next part of the list: `cifs_find_next_res_s`.
abbrev pub continued : Dir → Trans → Dir
continued d t = record d {
  trans = t;
  end = get16 t.param.mem (t.param.buf.p + 2);
  count = get16 t.param.mem t.param.buf.p;
}

unfoldable pub find_next :
    ℕ → Pages → Dir → (Dir → Conn → Outcome (Dir × Next)) → Conn → Outcome (Dir × Next)
unfolding find_next_draft
find_next fuel pages d read c = with_request c (find_next_draft pages d.sid c) (λ c1.
    or_null d (trans_request fuel fuel d.trans c1) (λ t c2.
      let d' = continued d t in
      if d'.count == 0 then done (d', null (code enoent)) c2 else read d' c2))

-- `cifs_readdir`, with fuel for the entries that are passed over.
unfoldable pub readdir : ℕ → Pages → Iconv → ℕ → Dir → Conn → Outcome (Dir × Next)
unfolding read_entry find_next
readdir fuel pages page zero d c = no_end
readdir fuel pages page (suc turns) d c =
    let read = read_entry page (readdir fuel pages page turns) in
    if d.count == 0
    then (if d.end == 0 then find_next fuel pages d read c else done (d, null (code enoent)) c)
    else read d c
