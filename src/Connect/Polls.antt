-- ===== src/Connect/Polls.antt =====
-- `cifs_recv_async` called again and again, as long as it says EAGAIN.
use mathlib.Core.Path.{subst, ap₂}
use cifscp.Base.{
  ℕ, ◌+◌, ◌≤◌, ◌<◌, ◌≡◌, sym, ap, ◌∙◌, ◌≢◌, [], ◌∷◌, ◌++◌, arith, length, length-append,
}
use cifscp.Base.Strings.{Bytes}
use cifscp.Packet.{nbt_type_at}
use cifscp.Transport.{Link, received}
use cifscp.Transport.Stream.{stream, IsLive}
use cifscp.Transport.Framing.Fill.{arrived}
use cifscp.Transport.Framing.Header.{
  nbt, IsSized, Frames, AtHeader, Holds, arrived-GotHeader, session, other,
}
use cifscp.Connect.Polling.{poll, poll-Polls}
use cifscp.Connect.Bodies.{
  IsIdle, for_header, for_header-AtHeader, poll_idle, header_polled, session_polled, other_polled,
  awaited, message_comes,
}

Holds-IsIdle : (msg rest : Bytes) (l : Link) → Holds msg rest l → IsIdle l
Holds-IsIdle msg rest l h = record {
  begins = h.begins;
  limit = h.limit;
  full = h.point ∙ sym h.end;
}

-- A message of another type is passed over.
record Passed (fuel : ℕ) (l : Link) (spent : ℕ) (rest : Bytes) : Type 0 where
  pub left : ℕ
  pub link : Link
  pub result : poll fuel l ≡ poll left link
  pub waits : AtHeader link
  pub comes : stream link.inp ≡ rest
  pub live : IsLive link.inp
  pub less : fuel ≤ left + spent

header_comes :
    (fuel type flags : ℕ) (l : Link) (rest : Bytes)
    → AtHeader l
    → IsLive l.inp
    → stream l.inp ≡ nbt type flags 0 0 ++ rest
    → 4 ≤ fuel
    → Passed fuel l 4 rest
header_comes fuel type flags l rest a v c f =
    let w =
      poll-Polls fuel l (nbt type flags 0 0) rest
        (record {
          begins = a.begins;
          live = v;
          comes = c;
          lacks = omega (arith, a.point, a.end);
          some_bytes = omega arith;
        })
        f in
    let k = arrived l (nbt type flags 0 0) w.inp in
    let g = arrived-GotHeader l type flags 0 0 w.inp a in
    let k' = awaited k 0 in
    let idle : IsIdle k' = record {
      begins = g.begins;
      limit = g.limit;
      full = omega (arith, g.point);
    } in
    record {
      left = w.left;
      link = for_header k';
      result = w.result ∙ header_polled w.left type 0 k g (omega arith) ∙ poll_idle w.left k' idle;
      waits = for_header-AtHeader k' idle;
      comes = unfold arrived in w.comes;
      live = unfold arrived in w.live;
      less = omega (arith, w.spent);
    }

other_comes :
    (fuel type flags hi lo : ℕ) (l : Link) (payload rest : Bytes)
    → AtHeader l
    → type ≢ 0
    → IsSized hi lo payload
    → IsLive l.inp
    → stream l.inp ≡ nbt type flags hi lo ++ (payload ++ rest)
    → 4 + length payload ≤ fuel
    → Passed fuel l (4 + length payload) rest
other_comes fuel type flags hi lo l [] rest a ne z v c f =
    let h0 : hi ≡ 0 = omega (arith, z.size) in
    let l0 : lo ≡ 0 = omega (arith, z.size) in
    header_comes fuel type flags l rest a v (c ∙ ap₂ (λ x y. nbt type flags x y ++ rest) h0 l0) f
other_comes fuel type flags hi lo l (b ∷ bs) rest a ne z v c f =
    let m = message_comes fuel type flags hi lo l (b ∷ bs) rest a z v c (omega arith) f in
    let idle = Holds-IsIdle (nbt type flags hi lo ++ (b ∷ bs)) rest m.link m.holds in
    let other_type : m.link.i.mem nbt_type_at ≢ 0 = λ e. ne (sym m.type_is ∙ e) in
    record {
      left = m.left;
      link = for_header m.link;
      result =
          m.result
          ∙ other_polled m.left m.link m.holds.begins (omega (arith, m.holds.point)) other_type
          ∙ poll_idle m.left m.link idle;
      waits = for_header-AtHeader m.link idle;
      comes = m.holds.comes;
      live = m.holds.live;
      less = omega (arith, m.spent);
    }

-- `cifs_recv_async`, called again as long as it says EAGAIN: on a live connection whose stream holds a
-- session message of more than a header, some call returns 0, with exactly that message in the
-- buffer, however the stream is cut into chunks, after any number of other messages, and leaves on
-- the connection what comes behind it. As many calls as the stream has bytes are enough.
pub poll-Frames :
    {msg rest s : Bytes} (fuel : ℕ) (l : Link)
    → Frames msg rest s
    → 4 < length msg
    → AtHeader l
    → IsLive l.inp
    → stream l.inp ≡ s
    → length s ≤ fuel
    → (l' : Link) × (poll fuel l ≡ received l') × Holds msg rest l'
poll-Frames {msg} {rest} fuel l (session flags hi lo payload z m e) big a v c f =
    let comes = e ∙ ap (λ x. x ++ rest) m in
    let n : length msg ≡ 4 + length payload = omega (arith, ap length m) in
    let w =
      message_comes fuel 0 flags hi lo l payload rest a z v (c ∙ comes) (omega (arith, n, big))
        (omega (arith, f, ap length comes, length-append {0} payload rest)) in
    (
      w.link,
      w.result
          ∙ session_polled w.left w.link w.holds.begins (omega (arith, w.holds.point, n, big))
              w.type_is,
      subst (λ x. Holds x rest w.link) (sym m) w.holds,
    )
poll-Frames {msg} {rest} fuel l (other {s' = s'} type flags hi lo payload ne z e more) big a v c f =
    let n : length payload + length s' + 4 ≤ fuel =
      omega (arith, f, ap length e, length-append {0} payload s') in
    let w = other_comes fuel type flags hi lo l payload s' a ne z v (c ∙ e) (omega (arith, n)) in
    let (l', ends, holds) =
      poll-Frames w.left w.link more big w.waits w.live w.comes (omega (arith, w.less, n)) in
    (l', w.result ∙ ends, holds)
