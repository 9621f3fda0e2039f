-- ===== src/Proto/WriteRequest.antt =====
-- What a server reads in the request of `cifs_write`, and when the request does not fit.
use mathlib.Core.Path.{subst}
use cifscp.Base.{
  ℕ, ◌+◌, ◌*◌, ◌/◌, ◌%◌, ◌≤◌, ◌<◌, ◌≡◌, refl, sym, ap, ◌∙◌, none, some, arith, length,
}
use cifscp.Base.Strings.{Bytes}
use cifscp.Memory.{Mem, store, load, get16, get32, le8, le16, le32}
use cifscp.Memory.Frame.{load-store, store-below, get16-agree, get32-agree}
use cifscp.Buffer.{write_buf, buf_setup, buf_resize_full, buf_inc}
use cifscp.Buffer.Inv.{write_buf_room}
use cifscp.Packet.{Packet, words_at, block_size, packet_setup, cmd_at, wc_at}
use cifscp.Connect.{Conn}
use cifscp.Proto.{request_setup, put8, put16, put32, write_body}
use cifscp.Proto.Files.{write_draft, write_words, write_share}

-- The request as a server takes it apart: the file, the 64-bit offset in two halves, and the data
-- where `data_offset` says, counted from behind the NetBIOS header.
pub record IsWrite (fid off : ℕ) (bs : Bytes) (o : Packet) : Type 0 where
  pub cmd : o.mem cmd_at ≡ 0x2f
  pub count : o.mem wc_at ≡ 14
  pub file : get16 o.mem (words_at + 4) ≡ fid
  pub offset : get32 o.mem (words_at + 6) + 4294967296 * get32 o.mem (words_at + 24) ≡ off
  pub data_length : get16 o.mem (words_at + 20) ≡ length bs
  pub data_bytes : load o.mem (get16 o.mem (words_at + 22) + 4) (length bs) ≡ bs
  pub data_end : o.b.p ≡ get16 o.mem (words_at + 22) + 4 + length bs

-- The words, as they stand before the data is written behind them.
record Words (fid off len : ℕ) (o : Packet) : Type 0 where
  cmd : o.mem cmd_at ≡ 0x2f
  count : o.mem wc_at ≡ 14
  file : get16 o.mem (words_at + 4) ≡ fid
  low : get32 o.mem (words_at + 6) ≡ off % 4294967296
  high : get32 o.mem (words_at + 24) ≡ off / 4294967296
  data_length : get16 o.mem (words_at + 20) ≡ len
  data_offset : get16 o.mem (words_at + 22) ≡ 63
  point : o.b.p ≡ 67
  limit : o.b.x ≡ 65539

write_words-Words :
    (fid off len : ℕ) (o : Packet)
    → o.p.b ≡ 0
    → o.p.x ≡ block_size
    → fid < 65536
    → len < 65536
    → off < 18446744073709551616
    → Words fid off len (write_words fid off len o)
unfolding write_words request_setup packet_setup buf_setup buf_resize_full put8 put16 put32 store
    get16 get32 le8 le16 le32
write_words-Words fid off len o b x f l w = record {
  cmd = refl;
  count = refl;
  file = omega (arith, f);
  low = omega arith;
  high = omega (arith, w);
  data_length = omega (arith, l);
  data_offset = omega (arith, b);
  point = omega (arith, b);
  limit = omega (arith, b, x);
}

body_steps :
    (bs : Bytes) (o : Packet)
    → o.b.p + length bs ≤ o.b.x
    → write_body (write_buf bs) o
      ≡ some (record o { mem = store o.mem o.b.p bs; b = buf_inc o.b (length bs) })
unfolding write_body
body_steps bs o h = rw (write_buf_room bs o.mem o.b h, write_body)

body_full :
    (bs : Bytes) (o : Packet) → o.b.x < o.b.p + length bs → write_body (write_buf bs) o ≡ none
unfolding write_body write_buf
body_full bs o h = ground (arith, h)

filled-IsWrite :
    (fid off : ℕ) (bs : Bytes) (o : Packet)
    → Words fid off (length bs) o
    → IsWrite fid off bs (record o { mem = store o.mem o.b.p bs; b = buf_inc o.b (length bs) })
unfolding buf_inc
filled-IsWrite fid off bs o w = record {
  cmd = at 8 (omega arith) ∙ w.cmd;
  count = at 36 (omega arith) ∙ w.count;
  file = word 41 (omega arith) ∙ w.file;
  offset = omega (arith, long 43 (omega arith), long 61 (omega arith), w.low, w.high);
  data_length = word 57 (omega arith) ∙ w.data_length;
  data_bytes =
      ap (λ a. load m (a + 4) (length bs)) place
      ∙ subst (λ a. load (store o.mem a bs) 67 (length bs) ≡ bs) (sym w.point)
          (load-store bs o.mem 67);
  data_end = omega (arith, place, w.point);
}
  where
    m : Mem
    m = store o.mem o.b.p bs

    at : (i : ℕ) → i < 67 → m i ≡ o.mem i
    at i h = store-below bs o.mem o.b.p i (omega (arith, h, w.point))

    word : (i : ℕ) → i + 1 < 67 → get16 m i ≡ get16 o.mem i
    word i h = get16-agree m o.mem i (at i (omega (arith, h))) (at (i + 1) h)

    long : (i : ℕ) → i + 3 < 67 → get32 m i ≡ get32 o.mem i
    long i h = get32-agree m o.mem i (λ k lo hi. at k (omega (arith, h, hi)))

    place : get16 m 59 ≡ 63
    place = word 59 (omega arith) ∙ w.data_offset

-- What `cifs_write` sends carries the file, the offset of 64 bits and as much of the data as the
-- server's buffer size allows, where its words say, as long as that is no more than 65472 bytes; of
-- more, the copy into the packet's block would leave the block.
pub write_draft_lem :
    (fid off : ℕ) (bs : Bytes) (c : Conn)
    → c.o.p.b ≡ 0
    → c.o.p.x ≡ block_size
    → fid < 65536
    → off < 18446744073709551616
    → length (write_share bs c.max_buffer_size) < 65536
    → (length (write_share bs c.max_buffer_size) ≤ 65472
        → (o : Packet) × (write_draft fid off bs c ≡ some o)
          × IsWrite fid off (write_share bs c.max_buffer_size) o)
      × (65472 < length (write_share bs c.max_buffer_size) → write_draft fid off bs c ≡ none)
unfolding write_draft
write_draft_lem fid off bs c b x f w l =
    let share = write_share bs c.max_buffer_size in
    let k = write_words-Words fid off (length share) c.o b x f l w in
    let o = write_words fid off (length share) c.o in
    (
      λ h. (
        _,
        body_steps share o (omega (arith, h, k.point, k.limit)),
        filled-IsWrite fid off share o k,
      ),
      λ h. body_full share o (omega (arith, h, k.point, k.limit)),
    )
