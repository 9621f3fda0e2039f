-- ===== src/Packet/RoundTrip.antt =====
-- `cifs_packet_unparse` at the sender against `cifs_packet_parse` at the receiver.
use cifscp.Base.{ℕ, ◌+◌, ◌*◌, ◌≤◌, ◌<◌, ◌≡◌, refl, ◌∙◌, ◌⊎◌, inl, inr, true, some, arith}
use cifscp.Memory.{store, load, get16, le16}
use cifscp.Memory.Frame.{load-agree, get16-agree}
use cifscp.Buffer.{buf_setup, buf_size, buf_len}
use cifscp.Packet.{
  Packet, cmd_at, wc_at, words_at, header_size, block_size, has_magic, packet_parse, packet_unparse,
  packet_length,
}
use cifscp.Packet.Parse.{IsMessage, data_buf, packet_parse_iff}

-- A request under construction: the header has the magic, the data buffer stands behind the words
-- that the header counts, and its point is still inside the block.
pub record IsOpen (pk : Packet) : Type 0 where
  pub magic : has_magic pk.mem ≡ true
  pub begins : pk.p.b ≡ 0
  pub wc_byte : pk.mem wc_at < 256
  pub behind_words : pk.b.b ≡ header_size + 2 * pk.mem wc_at
  pub point_from : pk.b.b ≤ pk.b.p
  pub point_to : pk.b.p ≤ block_size

-- Where the fields of a message lie that `unparse` writes: the length and the byte count.
unparse_frame :
    (pk : Packet) (i : ℕ)
    → IsOpen pk
    → (i < 2) ⊎ ((4 ≤ i) × (i < words_at + 2 * pk.mem wc_at) ⊎ (header_size + 2 * pk.mem wc_at ≤ i))
    → (packet_unparse pk).0.mem i ≡ pk.mem i
unfolding packet_unparse store le16
unparse_frame pk i v h = ground arith

unparse_length :
    (pk : Packet)
    → IsOpen pk
    → ((packet_unparse pk).1 ≡ pk.b.p) × (packet_length (packet_unparse pk).0 + 4 ≡ pk.b.p)
unfolding packet_unparse packet_length store le16
unparse_length pk v = ground arith

unparse_count :
    (pk : Packet)
    → IsOpen pk
    → get16 (packet_unparse pk).0.mem (words_at + pk.mem wc_at * 2) ≡ buf_len pk.b
unfolding packet_unparse store le16 get16
unparse_count pk v = ground arith

-- A packet that holds the bytes of a sent message.
pub record Received (sent : Packet × ℕ) (q : Packet) : Type 0 where
  pub begins : q.p.b ≡ 0
  pub size : q.p.e ≡ sent.1
  pub bytes : (i : ℕ) → i < sent.1 → q.mem i ≡ sent.0.mem i

module _ {pk q : Packet} (v : IsOpen pk) (r : Received (packet_unparse pk) q) where
  received_field :
      (i : ℕ)
      → i < pk.b.p
      → (4 ≤ i) × (i < words_at + 2 * pk.mem wc_at) ⊎ (header_size + 2 * pk.mem wc_at ≤ i)
      → q.mem i ≡ pk.mem i
  received_field i lt side =
      r.bytes i (omega (arith, unparse_length pk v)) ∙ unparse_frame pk i v (inr side)

  received_wc : q.mem wc_at ≡ pk.mem wc_at
  received_wc =
      received_field wc_at (omega (arith, v.behind_words, v.point_from)) (inl (omega arith))

  received_count : get16 q.mem (words_at + q.mem wc_at * 2) ≡ buf_len pk.b
  received_count =
      let at = words_at + pk.mem wc_at * 2 in
      rw received_wc (
        get16-agree q.mem (packet_unparse pk).0.mem at
          (r.bytes at (omega (arith, unparse_length pk v, v.point_from, v.behind_words)))
          (r.bytes (at + 1) (omega (arith, unparse_length pk v, v.point_from, v.behind_words)))
        ∙ unparse_count pk v)

  received-IsMessage : IsMessage q.mem q.p.e
  received-IsMessage = record {
    magic = ground (
      arith,
      v.magic,
      received_field 4,
      received_field 5,
      received_field 6,
      received_field 7,
      v.point_from,
      v.behind_words,
    );
    header = omega (
      arith,
      received_wc,
      received_count,
      r.size,
      unparse_length pk v,
      v.point_from,
      v.behind_words,
    );
    words = omega (
      arith,
      received_wc,
      received_count,
      r.size,
      unparse_length pk v,
      v.point_from,
      v.behind_words,
    );
    data_in = omega (
      arith,
      received_wc,
      received_count,
      r.size,
      unparse_length pk v,
      v.point_from,
      v.behind_words,
    );
  }

  received_data : ((data_buf q.mem).b ≡ pk.b.b) × (buf_size (data_buf q.mem) ≡ buf_len pk.b)
  unfolding buf_setup
  received_data = (omega (arith, received_wc, v.behind_words), omega (arith, received_count))

  received_length : packet_length q + 4 ≡ q.p.e
  unfolding packet_length
  received_length = omega (
    arith,
    unparse_length pk v,
    r.size,
    v.point_from,
    v.behind_words,
    r.bytes 2 (omega (arith, unparse_length pk v, v.point_from, v.behind_words)),
    r.bytes 3 (omega (arith, unparse_length pk v, v.point_from, v.behind_words)),
  )

-- What `cifs_packet_unparse` puts on the wire, `cifs_packet_parse` reads back at the other end:
-- the same command, the same words, and as data exactly the bytes between the beginning and the
-- point of the request; the length in the NetBIOS header counts the bytes behind that header.
pub parse-unparse :
    (pk q : Packet)
    → IsOpen pk
    → Received (packet_unparse pk) q
    → let wc = pk.mem wc_at in
      let q' = record q { b = data_buf q.mem } in
      (packet_parse q ≡ some q')
      × (q'.mem cmd_at ≡ pk.mem cmd_at)
      × (q'.mem wc_at ≡ wc)
      × (load q'.mem words_at (2 * wc) ≡ load pk.mem words_at (2 * wc))
      × (load q'.mem q'.b.b (buf_size q'.b) ≡ load pk.mem pk.b.b (buf_len pk.b))
      × (packet_length q + 4 ≡ q.p.e)
parse-unparse pk q v r =
    let (begin, size) = received_data v r in
    (
      (packet_parse_iff q (record q { b = data_buf q.mem }) r.begins).1
          (received-IsMessage v r, refl),
      received_field v r cmd_at (omega (arith, v.point_from, v.behind_words)) (inl (omega arith)),
      received_wc v r,
      load-agree (2 * pk.mem wc_at) q.mem pk.mem words_at (λ i lo hi.
          received_field v r i (omega (arith, v.point_from, v.behind_words)) (inl (omega arith))),
      rw (size, begin)
          (load-agree (buf_len pk.b) q.mem pk.mem pk.b.b
            (λ i lo hi. received_field v r i (omega arith) (inr (omega arith)))),
      received_length v r,
    )
