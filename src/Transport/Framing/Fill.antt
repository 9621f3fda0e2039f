-- ===== src/Transport/Framing/Fill.antt =====
-- The loop up to the point where the buffer is full.
use mathlib.Core.List.{append-nil}
use cifscp.Base.{
  ℕ, zero, suc, ◌+◌, ◌≤◌, ◌<◌, ◌≡◌, sym, ap, ◌∙◌, [], ◌∷◌, ◌++◌, arith, ◌==◌, if◌then◌else◌, length,
  length-append, append-split,
}
use cifscp.Base.Strings.{Bytes}
use cifscp.Memory.{store}
use cifscp.Memory.Frame.{store-append}
use cifscp.Buffer.{buf_inc, buf_len, buf_left}
use cifscp.Transport.{
  Input, Link, Received, received, got, recv_test, recv_header, recv_got, recv_loop,
}
use cifscp.Transport.Stream.{stream, IsLive, Takes, recv-Takes}

-- The link when `bs` has arrived behind the point.
unfoldable pub arrived : Link → Bytes → Input → Link
arrived l bs inp =
    let pk = l.i in
    record l {
      i = record pk { mem = store pk.mem pk.p.p bs; p = buf_inc pk.p (length bs) };
      inp = inp;
    }

-- A full buffer: a header, or a whole message.
unfoldable pub recv_full : ℕ → Link → Received
recv_full fuel l = if buf_len l.i.p == 4 then recv_header fuel (recv_loop fuel) l else received l

pub arrived-append :
    (l : Link) (bs cs : Bytes) (inp inp' : Input)
    → arrived (arrived l bs inp) cs inp' ≡ arrived l (bs ++ cs) inp'
unfolding arrived buf_inc
arrived-append l bs cs inp inp' =
    ground (arith, store-append bs cs l.i.mem l.i.p.p, length-append {0} bs cs)

-- The buffer of `l` lacks just `want`, which is what comes next on the connection.
pub record Awaits (l : Link) (want rest : Bytes) : Type 0 where
  pub begins : l.i.p.b ≡ 0
  pub live : IsLive l.inp
  pub comes : stream l.inp ≡ want ++ rest
  pub lacks : l.i.p.p + length want ≡ l.i.p.e
  pub some_bytes : 0 < length want

pub record Fills (fuel : ℕ) (l : Link) (want rest : Bytes) : Type 0 where
  pub left : ℕ
  pub inp : Input
  pub result : recv_loop fuel l ≡ recv_full left (arrived l want inp)
  pub comes : stream inp ≡ rest
  pub live : IsLive inp
  pub spent : fuel ≤ left + length want
  pub less : left < fuel

got-full :
    (fuel : ℕ) (l : Link) (bs : Bytes) (inp : Input)
    → l.i.p.p + length bs ≡ l.i.p.e
    → recv_got fuel (recv_loop fuel) (got bs) (record l { inp = inp })
      ≡ recv_full fuel (arrived l bs inp)
unfolding recv_got recv_full arrived buf_inc recv_test
got-full fuel l bs inp e = ground arith

pub got-part :
    (fuel : ℕ) (l : Link) (bs : Bytes) (inp : Input)
    → l.i.p.p + length bs < l.i.p.e
    → recv_got fuel (recv_loop fuel) (got bs) (record l { inp = inp })
      ≡ recv_loop fuel (arrived l bs inp)
unfolding recv_got arrived buf_inc recv_test
got-part fuel l bs inp e = ground arith

-- One call of `recv`: it fills the buffer, or the loop goes on with what is lacking then.
Fills-step :
    (fuel : ℕ) (l : Link) (rest bs more : Bytes) (inp : Input)
    → Takes (buf_left l.i.p) l.inp bs inp
    → l.i.p.p + length (bs ++ more) ≡ l.i.p.e
    → stream inp ≡ more ++ rest
    → (0 < length more → Fills fuel (arrived l bs inp) more rest)
    → Fills (suc fuel) l (bs ++ more) rest
unfolding recv_loop
Fills-step fuel l rest bs [] inp t n s ih = record {
  left = fuel;
  inp = inp;
  result =
      rw (t.result, append-nil) (got-full fuel l bs inp (omega (arith, length-append {0} bs [])));
  comes = s;
  live = t.live;
  spent = omega (arith, t.some_bytes, length-append {0} bs []);
  less = omega arith;
}
Fills-step fuel l rest bs (c ∷ more) inp t n s ih =
    let later = ih (omega arith) in
    let count : length (bs ++ (c ∷ more)) ≡ length bs + length (c ∷ more) =
      length-append {0} bs (c ∷ more) in
    record {
      left = later.left;
      inp = later.inp;
      result = rw t.result (
          got-part fuel l bs inp (omega arith)
          ∙ later.result
          ∙ ap (recv_full later.left) (arrived-append l bs (c ∷ more) inp later.inp));
      comes = later.comes;
      live = later.live;
      spent = omega (arith, later.spent, t.some_bytes);
      less = omega (arith, later.less);
    }

pub arrived-Awaits :
    (l : Link) (rest bs more : Bytes) (inp : Input)
    → l.i.p.b ≡ 0
    → IsLive inp
    → stream inp ≡ more ++ rest
    → l.i.p.p + length (bs ++ more) ≡ l.i.p.e
    → 0 < length more
    → Awaits (arrived l bs inp) more rest
unfolding arrived buf_inc
arrived-Awaits l rest bs more inp b v s n k = record {
  begins = b;
  live = v;
  comes = s;
  lacks = omega (arith, length-append {0} bs more);
  some_bytes = k;
}

pub recv_loop-Fills :
    (fuel : ℕ) (l : Link) (want rest : Bytes)
    → Awaits l want rest
    → length want ≤ fuel
    → Fills fuel l want rest
unfolding recv_loop
recv_loop-Fills zero l want rest v f = absurd (omega (arith, v.some_bytes))
recv_loop-Fills (suc fuel) l want rest v f =
    let (bs, inp', t) =
      recv-Takes (buf_left l.i.p) l.inp v.live (omega (arith, v.lacks, v.some_bytes))
        (rw v.comes (omega (arith, length-append {0} want rest, v.some_bytes))) in
    let (more, e, comes) =
      append-split bs (stream inp') want rest (sym t.splits ∙ v.comes)
        (omega (arith, t.at_most, v.lacks)) in
    let n : l.i.p.p + length (bs ++ more) ≡ l.i.p.e = rw (← e) v.lacks in
    rw e (
      Fills-step fuel l rest bs more inp' t n comes (λ k.
        recv_loop-Fills fuel (arrived l bs inp') more rest
          (arrived-Awaits l rest bs more inp' v.begins t.live comes n k)
          (omega (arith, n, v.lacks, f, t.some_bytes, length-append {0} bs more))))
