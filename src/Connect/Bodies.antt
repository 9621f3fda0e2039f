-- ===== src/Connect/Bodies.antt =====
-- A header and a body that come in over calls of `cifs_recv_async`.
use mathlib.Core.Path.{subst}
use cifscp.Base.{
  ℕ, zero, suc, ◌+◌, ◌≤◌, ◌<◌, ◌≡◌, refl, sym, ◌∙◌, ◌≢◌, true, false, ◌++◌, arith, ltb, ◌==◌,
  length, length-append,
}
use cifscp.Base.Strings.{Bytes}
use cifscp.Memory.Frame.{store-below}
use cifscp.Buffer.{buf_left, buf_set, buf_resize}
use cifscp.Packet.{block_size, nbt_type_at}
use cifscp.Transport.{Link, received, with_buf, set_buf, header_buf}
use cifscp.Transport.Stream.{stream, IsLive}
use cifscp.Transport.Framing.Fill.{arrived}
use cifscp.Transport.Framing.Header.{nbt, IsSized, AtHeader, Holds, GotHeader, arrived-GotHeader}
use cifscp.Transport.Framing.Message.{arrived-Holds, bytes-arrived}
use cifscp.Connect.{async_full, recv_async}
use cifscp.Connect.Polling.{polled, poll, poll-Polls}

-- A buffer that waits for a header, or that is full and gives way to one.
pub record IsIdle (l : Link) : Type 0 where
  pub begins : l.i.p.b ≡ 0
  pub limit : l.i.p.x ≡ block_size
  pub full : l.i.p.p ≡ l.i.p.e

abbrev pub for_header : Link → Link
for_header l = set_buf l header_buf

pub for_header-AtHeader : (l : Link) → IsIdle l → AtHeader (for_header l)
unfolding header_buf buf_resize buf_set
for_header-AtHeader l v =
    let room : ltb l.i.p.x (l.i.p.b + 4) ≡ false = ground (arith, v.begins, v.limit) in
    rw (room) (record {
      begins = v.begins;
      point = omega (arith, v.begins);
      end = omega (arith, v.begins);
      limit = v.limit;
    })

-- A full buffer is as good as an empty one that waits for a header.
pub poll_idle : (fuel : ℕ) (l : Link) → IsIdle l → poll fuel l ≡ poll fuel (for_header l)
unfolding poll recv_async
poll_idle zero l v = refl
poll_idle (suc fuel) l v =
    let a = for_header-AtHeader l v in
    let full : buf_left l.i.p == 0 ≡ true = ground (arith, v.full) in
    let empty : buf_left (for_header l).i.p == 0 ≡ false = ground (arith, a.point, a.end) in
    rw (full, empty) refl

-- What becomes of a header: its body is awaited.
pub header_polled :
    (fuel type size : ℕ) (k : Link)
    → GotHeader type size k
    → size < 65536
    → polled (poll fuel) (async_full k) ≡ poll fuel (with_buf k (record (k.i.p) { e = 4 + size }))
unfolding async_full buf_resize
header_polled fuel type size k g small = ground (arith, g.begins, g.point, g.limit, g.size_is)

-- What becomes of a body: that of a session message is returned.
pub session_polled :
    (fuel : ℕ) (k : Link)
    → k.i.p.b ≡ 0
    → 4 < k.i.p.p
    → k.i.mem nbt_type_at ≡ 0
    → polled (poll fuel) (async_full k) ≡ received k
unfolding async_full
session_polled fuel k b p t = ground arith

pub other_polled :
    (fuel : ℕ) (k : Link)
    → k.i.p.b ≡ 0
    → 4 < k.i.p.p
    → k.i.mem nbt_type_at ≢ 0
    → polled (poll fuel) (async_full k) ≡ poll fuel k
unfolding async_full
other_polled fuel k b p t = ground arith

-- A message whose body has some bytes comes in, and fills the buffer.
pub record Filled (fuel type : ℕ) (l : Link) (msg rest : Bytes) : Type 0 where
  pub left : ℕ
  pub link : Link
  pub result : poll fuel l ≡ polled (poll left) (async_full link)
  pub holds : Holds msg rest link
  pub type_is : link.i.mem nbt_type_at ≡ type
  pub spent : fuel ≤ left + length msg

abbrev pub awaited : Link → ℕ → Link
awaited k size = with_buf k (record (k.i.p) { e = 4 + size })

pub message_comes :
    (fuel type flags hi lo : ℕ) (l : Link) (payload rest : Bytes)
    → AtHeader l
    → IsSized hi lo payload
    → IsLive l.inp
    → stream l.inp ≡ nbt type flags hi lo ++ (payload ++ rest)
    → 0 < length payload
    → 4 + length payload ≤ fuel
    → Filled fuel type l (nbt type flags hi lo ++ payload) rest
message_comes fuel type flags hi lo l payload rest a z v c p f =
    let w =
      poll-Polls fuel l (nbt type flags hi lo) (payload ++ rest)
        (record {
          begins = a.begins;
          live = v;
          comes = c;
          lacks = omega (arith, a.point, a.end);
          some_bytes = omega arith;
        })
        (omega arith) in
    let k = arrived l (nbt type flags hi lo) w.inp in
    let g : GotHeader type (length payload) k =
      subst (λ n. GotHeader type n k) (sym z.size) (arrived-GotHeader l type flags hi lo w.inp a) in
    let k' = awaited k (length payload) in
    let b =
      poll-Polls w.left k' payload rest
        (record {
          begins = g.begins;
          live = unfold arrived in w.live;
          comes = unfold arrived in w.comes;
          lacks = omega (arith, g.point);
          some_bytes = p;
        })
        (omega (arith, w.spent, f)) in
    record {
      left = b.left;
      link = arrived k' payload b.inp;
      result =
          w.result
          ∙ header_polled w.left type (length payload) k g (omega (arith, z.size, z.high, z.low))
          ∙ b.result;
      holds =
          arrived-Holds k (nbt type flags hi lo) payload rest b.inp g
            (bytes-arrived l (nbt type flags hi lo) w.inp a.point) refl b.comes b.live;
      type_is =
          unfold arrived in
          store-below payload k.i.mem k.i.p.p 0 (omega (arith, g.point)) ∙ g.type_is;
      spent = omega (arith, w.spent, b.spent, length-append {0} (nbt type flags hi lo) payload);
    }
