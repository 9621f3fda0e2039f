-- ===== src/Transport/Framing/Header.antt =====
-- What the receive loop does once a NetBIOS header has arrived.
use cifscp.Base.{ℕ, ◌+◌, ◌*◌, ◌≤◌, ◌<◌, ◌≡◌, ◌≢◌, [], ◌∷◌, ◌++◌, arith, length}
use cifscp.Base.Strings.{Bytes}
use cifscp.Memory.{Mem, store, load}
use cifscp.Buffer.{buf_inc, buf_set, buf_resize}
use cifscp.Packet.{packet_length, block_size}
use cifscp.Transport.{
  Input, Link, Received, recv_test, recv_other, recv_sized, recv_header, recv_loop, with_buf,
  set_buf,
}
use cifscp.Transport.Stream.{stream, IsLive, skip_sock-Takes}
use cifscp.Transport.Framing.Fill.{arrived, recv_full, Fills, recv_loop-Fills}

-- The NetBIOS header of a message: type, flags, and the length, high byte first.
abbrev pub nbt : ℕ → ℕ → ℕ → ℕ → Bytes
nbt type flags hi lo = type ∷ flags ∷ hi ∷ lo ∷ []

-- `payload` is as long as the two bytes say.
pub record IsSized (hi lo : ℕ) (payload : Bytes) : Type 0 where
  pub high : hi < 256
  pub low : lo < 256
  pub size : length payload ≡ lo + hi * 256

-- The first session message (type 0) of `s` is `msg`, and `rest` comes behind it. Messages of
-- other types, such as keep-alives, may come before it.
pub data Frames (msg rest : Bytes) : Bytes → Type 0 where
  session :
      {s : Bytes} (flags hi lo : ℕ) (payload : Bytes)
      → IsSized hi lo payload
      → msg ≡ nbt 0 flags hi lo ++ payload
      → s ≡ msg ++ rest
      → Frames msg rest s
  other :
      {s s' : Bytes} (type flags hi lo : ℕ) (payload : Bytes)
      → type ≢ 0
      → IsSized hi lo payload
      → s ≡ (nbt type flags hi lo ++ payload) ++ s'
      → Frames msg rest s'
      → Frames msg rest s

-- A link that waits for a header.
pub record AtHeader (l : Link) : Type 0 where
  pub begins : l.i.p.b ≡ 0
  pub point : l.i.p.p ≡ 0
  pub end : l.i.p.e ≡ 4
  pub limit : l.i.p.x ≡ block_size

-- The link holds `msg`, and `rest` is still to come.
pub record Holds (msg rest : Bytes) (l : Link) : Type 0 where
  pub begins : l.i.p.b ≡ 0
  pub point : l.i.p.p ≡ length msg
  pub end : l.i.p.e ≡ length msg
  pub limit : l.i.p.x ≡ block_size
  pub bytes : load l.i.mem 0 (length msg) ≡ msg
  pub comes : stream l.inp ≡ rest
  pub live : IsLive l.inp

header_fields :
    (m : Mem) (type flags hi lo : ℕ)
    → let k = store m 0 (nbt type flags hi lo) in (k 0 ≡ type) × (k 3 + k 2 * 256 ≡ lo + hi * 256)
unfolding store
header_fields m type flags hi lo = ground arith

-- A link on which a header of the given type and length has just arrived.
pub record GotHeader (type size : ℕ) (k : Link) : Type 0 where
  pub begins : k.i.p.b ≡ 0
  pub point : k.i.p.p ≡ 4
  pub end : k.i.p.e ≡ 4
  pub limit : k.i.p.x ≡ block_size
  pub type_is : k.i.mem 0 ≡ type
  pub size_is : packet_length k.i ≡ size

pub arrived-GotHeader :
    (l : Link) (type flags hi lo : ℕ) (inp : Input)
    → AtHeader l
    → GotHeader type (lo + hi * 256) (arrived l (nbt type flags hi lo) inp)
unfolding packet_length arrived buf_inc
arrived-GotHeader l type flags hi lo inp a =
    let (t, n) = header_fields l.i.mem type flags hi lo in
    record {
      begins = a.begins;
      point = omega (arith, a.point);
      end = a.end;
      limit = a.limit;
      type_is = rw a.point t;
      size_is = rw a.point n;
    }

-- A session header makes room for its body.
pub header_session :
    (fuel size : ℕ) (next : Link → Received) (k : Link)
    → GotHeader 0 size k
    → size < 65536
    → recv_header fuel next k ≡ recv_test next (with_buf k (record (k.i.p) { e = 4 + size }))
unfolding recv_header recv_sized buf_resize
header_session fuel size next k g small = ground (arith, g.begins, g.limit, g.type_is, g.size_is)

-- Any other header has its body skipped, and the link waits for a header again.
pub header_other :
    (fuel type size : ℕ) (next : Link → Received) (k : Link) (payload s : Bytes)
    → GotHeader type size k
    → type ≢ 0
    → length payload ≡ size
    → IsLive k.inp
    → stream k.inp ≡ payload ++ s
    → size < fuel
    → (l' : Link) × (recv_header fuel next k ≡ next l')
      × AtHeader l'
      × (stream l'.inp ≡ s)
      × IsLive l'.inp
unfolding recv_header recv_other recv_test buf_set
header_other fuel type size next k payload s g ne n v e f =
    let (inp, skips, s', v') = skip_sock-Takes fuel size k.inp payload s v e n f in
    (
      record (set_buf k (λ d. buf_set d 0)) { inp = inp },
      ground (arith, g.begins, g.end, g.type_is, g.size_is, skips),
      record { begins = g.begins; point = omega (arith, g.begins); end = g.end; limit = g.limit },
      s',
      v',
    )

pub test_more : (next : Link → Received) (l : Link) → l.i.p.p < l.i.p.e → recv_test next l ≡ next l
unfolding recv_test
test_more next l h = ground arith

pub header_full :
    (fuel : ℕ) (k : Link) (type size : ℕ)
    → GotHeader type size k
    → recv_full fuel k ≡ recv_header fuel (recv_loop fuel) k
unfolding recv_full
header_full fuel k type size g = ground (arith, g.begins, g.point)

-- The four bytes of a header arrive first.
pub header_arrives :
    (fuel type flags hi lo : ℕ) (l : Link) (rest : Bytes)
    → AtHeader l
    → IsLive l.inp
    → stream l.inp ≡ nbt type flags hi lo ++ rest
    → 4 ≤ fuel
    → Fills fuel l (nbt type flags hi lo) rest
header_arrives fuel type flags hi lo l rest a v c f =
    recv_loop-Fills fuel l (nbt type flags hi lo) rest
      (record {
        begins = a.begins;
        live = v;
        comes = c;
        lacks = omega (arith, a.point, a.end);
        some_bytes = omega arith;
      })
      f
