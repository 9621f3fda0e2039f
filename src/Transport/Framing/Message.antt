-- ===== src/Transport/Framing/Message.antt =====
-- The messages of a stream, and what `cifs_recv` makes of them.
use mathlib.Core.Path.{ap₂, subst}
use mathlib.Core.List.{append-nil}
use cifscp.Base.{
  ℕ, ◌+◌, ◌*◌, ◌≤◌, ◌<◌, ◌≡◌, refl, sym, ap, ◌∙◌, [], ◌∷◌, ◌++◌, arith, length, length-append,
}
use cifscp.Base.Strings.{Bytes}
use cifscp.Memory.{load}
use cifscp.Memory.Frame.{load-store, load-append, load-store_below}
use cifscp.Buffer.{buf_inc}
use cifscp.Transport.{Input, Link, received, recv_test, recv_loop, with_buf}
use cifscp.Transport.Stream.{stream, IsLive}
use cifscp.Transport.Framing.Fill.{arrived, recv_full, recv_loop-Fills}
use cifscp.Transport.Framing.Header.{
  nbt, IsSized, Frames, AtHeader, Holds, GotHeader, arrived-GotHeader, header_session, header_other,
  test_more, header_full, header_arrives, session, other,
}

whole_message :
    (fuel : ℕ) (k : Link) (bs : Bytes) (inp : Input)
    → k.i.p.b ≡ 0
    → k.i.p.p ≡ 4
    → 0 < length bs
    → recv_full fuel (arrived k bs inp) ≡ received (arrived k bs inp)
unfolding recv_full arrived buf_inc
whole_message fuel k bs inp b p n = ground arith

pub arrived-Holds :
    {type : ℕ} (k : Link) (head payload rest : Bytes) (inp : Input)
    → GotHeader type (length payload) k
    → load k.i.mem 0 4 ≡ head
    → length head ≡ 4
    → stream inp ≡ rest
    → IsLive inp
    → Holds
        (head ++ payload)
        rest
        (arrived (with_buf k (record (k.i.p) { e = 4 + length payload })) payload inp)
unfolding arrived buf_inc
arrived-Holds k head payload rest inp g h n c v =
    let count : length (head ++ payload) ≡ 4 + length payload =
      omega (arith, length-append {0} head payload) in
    record {
      begins = g.begins;
      point = omega (arith, g.point);
      end = omega arith;
      limit = g.limit;
      bytes =
          rw (count, g.point, load-append 4 (length payload))
            (ap₂ ◌++◌ (load-store_below 4 payload k.i.mem 4 0 (omega arith) ∙ h)
              (load-store payload k.i.mem 4));
      comes = c;
      live = v;
    }

-- The body of a session message of no byte, and of some.
session_body :
    (fuel : ℕ) (k : Link) (head payload rest : Bytes)
    → GotHeader 0 (length payload) k
    → load k.i.mem 0 4 ≡ head
    → length head ≡ 4
    → IsLive k.inp
    → stream k.inp ≡ payload ++ rest
    → length payload ≤ fuel
    → (l' : Link) × (recv_test
          (recv_loop fuel)
          (with_buf k (record (k.i.p) { e = 4 + length payload }))
        ≡ received l')
      × Holds (head ++ payload) rest l'
unfolding recv_test
session_body fuel k head [] rest g h n v e f = (
  with_buf k (record (k.i.p) { e = 4 + 0 }),
  ground (arith, g.point),
  record {
    begins = g.begins;
    point = rw append-nil (omega (arith, g.point));
    end = rw append-nil (omega arith);
    limit = g.limit;
    bytes = rw (append-nil, n) h;
    comes = e;
    live = v;
  },
)
session_body fuel k head (c ∷ cs) rest g h n v e f =
    let k' = with_buf k (record (k.i.p) { e = 4 + length (c ∷ cs) }) in
    let w =
      recv_loop-Fills fuel k' (c ∷ cs) rest
        (record {
          begins = g.begins;
          live = v;
          comes = e;
          lacks = omega (arith, g.point);
          some_bytes = omega arith;
        })
        f in
    (
      arrived k' (c ∷ cs) w.inp,
      test_more (recv_loop fuel) k' (omega (arith, g.point))
          ∙ w.result
          ∙ whole_message w.left k' (c ∷ cs) w.inp g.begins g.point (omega arith),
      arrived-Holds k head (c ∷ cs) rest w.inp g h n w.comes w.live,
    )

pub bytes-arrived :
    (l : Link) (bs : Bytes) (inp : Input)
    → l.i.p.p ≡ 0
    → load (arrived l bs inp).i.mem 0 (length bs) ≡ bs
unfolding arrived
bytes-arrived l bs inp z = rw z (load-store bs l.i.mem 0)

session_arrives :
    (fuel flags hi lo : ℕ) (l : Link) (payload rest : Bytes)
    → AtHeader l
    → IsSized hi lo payload
    → IsLive l.inp
    → stream l.inp ≡ nbt 0 flags hi lo ++ (payload ++ rest)
    → 4 + length payload ≤ fuel
    → (l' : Link) × (recv_loop fuel l ≡ received l') × Holds (nbt 0 flags hi lo ++ payload) rest l'
session_arrives fuel flags hi lo l payload rest a z v c f =
    let w = header_arrives fuel 0 flags hi lo l (payload ++ rest) a v c (omega arith) in
    let k = arrived l (nbt 0 flags hi lo) w.inp in
    let g : GotHeader 0 (length payload) k =
      subst (λ n. GotHeader 0 n k) (sym z.size) (arrived-GotHeader l 0 flags hi lo w.inp a) in
    let (l', ends, holds) =
      session_body w.left k (nbt 0 flags hi lo) payload rest g
        (bytes-arrived l (nbt 0 flags hi lo) w.inp a.point) refl (unfold arrived in w.live)
        (unfold arrived in w.comes) (omega (arith, w.spent, f)) in
    (
      l',
      w.result
          ∙ header_full w.left k 0 (length payload) g
          ∙ header_session w.left (length payload) (recv_loop w.left) k g
              (omega (arith, z.size, z.high, z.low))
          ∙ ends,
      holds,
    )

-- `cifs_recv` up to its test of the packet: on a live connection whose stream holds a session
-- message, the loop ends with exactly that message in the buffer, however the stream is cut into
-- chunks, after any number of other messages, and leaves on the connection what comes behind it.
-- Fuel beyond the length of the stream is enough.
pub recv_loop-Frames :
    {msg rest s : Bytes} (fuel : ℕ) (l : Link)
    → Frames msg rest s
    → AtHeader l
    → IsLive l.inp
    → stream l.inp ≡ s
    → length s < fuel
    → (l' : Link) × (recv_loop fuel l ≡ received l') × Holds msg rest l'
recv_loop-Frames {msg} {rest} fuel l (session flags hi lo payload z m e) a v c f =
    let comes = e ∙ ap (λ x. x ++ rest) m in
    let (l', ends, holds) =
      session_arrives fuel flags hi lo l payload rest a z v (c ∙ comes)
        (omega (arith, f, ap length comes, length-append {0} payload rest)) in
    (l', ends, subst (λ x. Holds x rest l') (sym m) holds)
recv_loop-Frames {rest} fuel l (other {s' = s'} type flags hi lo payload ne z e more) a v c f =
    let n : length payload + length s' + 4 < fuel =
      omega (arith, f, ap length e, length-append {0} payload s') in
    let w = header_arrives fuel type flags hi lo l (payload ++ s') a v (c ∙ e) (omega (arith, n)) in
    let k = arrived l (nbt type flags hi lo) w.inp in
    let g = arrived-GotHeader l type flags hi lo w.inp a in
    let (k', again, a', c', v') =
      header_other w.left type (lo + hi * 256) (recv_loop w.left) k payload s' g ne z.size
        (unfold arrived in w.live) (unfold arrived in w.comes)
        (omega (arith, w.spent, n, z.size)) in
    let (l', ends, holds) = recv_loop-Frames w.left k' more a' v' c' (omega (arith, w.spent, n)) in
    (l', w.result ∙ header_full w.left k type (lo + hi * 256) g ∙ again ∙ ends, holds)
