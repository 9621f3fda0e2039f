-- ===== src/Connect/Polling.antt =====
-- Calls of `cifs_recv_async` up to the one that fills the buffer.
use mathlib.Core.List.{append-nil}
use cifscp.Base.{
  ℕ, zero, suc, ◌+◌, ◌-◌, ◌≤◌, ◌<◌, ◌≡◌, refl, sym, ap, ◌∙◌, Bool, true, false, [], ◌∷◌, ◌++◌,
  arith, ◌==◌, length, length-append, append-split,
}
use cifscp.Base.Strings.{Bytes}
use cifscp.Buffer.{buf_left, buf_inc}
use cifscp.Packet.{eagain}
use cifscp.Transport.{Input, Link, Why, code, Received, received, recv_failed, hang}
use cifscp.Transport.Stream.{stream, IsLive, Takes, recv-Takes}
use cifscp.Transport.Framing.Fill.{arrived, Awaits, arrived-append, arrived-Awaits}
use cifscp.Connect.{async_full, async_got, recv_async}

abbrev pub again : Why → Bool
again (code eagain) = true
again w = false

abbrev pub polled : (Link → Received) → Received → Received
polled next (received l) = received l
polled next (recv_failed w l) = elim (again w) [ true ↦ next l | false ↦ recv_failed w l ]
polled next hang = hang

-- Calls until one says something else than EAGAIN.
unfoldable pub poll : ℕ → Link → Received
unfolding recv_async
poll zero l = hang
poll (suc fuel) l = polled (poll fuel) (recv_async l)

-- One call that fills the buffer, and one that does not.
async_filled :
    (l : Link) (bs : Bytes) (inp : Input)
    → l.i.p.p < l.i.p.e
    → Takes (buf_left l.i.p) l.inp bs inp
    → l.i.p.p + length bs ≡ l.i.p.e
    → recv_async l ≡ async_full (arrived l bs inp)
unfolding recv_async async_got arrived buf_inc
async_filled l bs inp lt t n =
    let begun : buf_left l.i.p == 0 ≡ false = ground arith in
    let full : (l.i.p.e - (l.i.p.p + length bs)) == 0 ≡ true = ground arith in
    rw (begun, t.result, full) refl

async_part :
    (l : Link) (bs : Bytes) (inp : Input)
    → l.i.p.p < l.i.p.e
    → Takes (buf_left l.i.p) l.inp bs inp
    → l.i.p.p + length bs < l.i.p.e
    → recv_async l ≡ recv_failed (code eagain) (arrived l bs inp)
unfolding recv_async async_got arrived buf_inc
async_part l bs inp lt t n =
    let begun : buf_left l.i.p == 0 ≡ false = ground arith in
    let lacking : (l.i.p.e - (l.i.p.p + length bs)) == 0 ≡ false = ground arith in
    rw (begun, t.result, lacking) refl

-- The calls up to the one that fills the buffer.
pub record Polls (fuel : ℕ) (l : Link) (want rest : Bytes) : Type 0 where
  pub left : ℕ
  pub inp : Input
  pub result : poll fuel l ≡ polled (poll left) (async_full (arrived l want inp))
  pub comes : stream inp ≡ rest
  pub live : IsLive inp
  pub spent : fuel ≤ left + length want

Polls-step :
    (fuel : ℕ) (l : Link) (rest bs more : Bytes) (inp : Input)
    → l.i.p.p < l.i.p.e
    → Takes (buf_left l.i.p) l.inp bs inp
    → l.i.p.p + length (bs ++ more) ≡ l.i.p.e
    → stream inp ≡ more ++ rest
    → (0 < length more → Polls fuel (arrived l bs inp) more rest)
    → Polls (suc fuel) l (bs ++ more) rest
unfolding poll
Polls-step fuel l rest bs [] inp lt t n s ih = record {
  left = fuel;
  inp = inp;
  result = ap (polled (poll fuel)) (
      async_filled l bs inp lt t (omega (arith, length-append {0} bs []))
      ∙ ap (λ x. async_full (arrived l x inp)) (sym (append-nil bs)));
  comes = s;
  live = t.live;
  spent = omega (arith, t.some_bytes, length-append {0} bs []);
}
Polls-step fuel l rest bs (c ∷ more) inp lt t n s ih =
    let later = ih (omega arith) in
    let count : length (bs ++ (c ∷ more)) ≡ length bs + length (c ∷ more) =
      length-append {0} bs (c ∷ more) in
    record {
      left = later.left;
      inp = later.inp;
      result =
          ap (polled (poll fuel)) (async_part l bs inp lt t (omega (arith, n, count)))
          ∙ later.result
          ∙ ap (λ k. polled (poll later.left) (async_full k))
              (arrived-append l bs (c ∷ more) inp later.inp);
      comes = later.comes;
      live = later.live;
      spent = omega (arith, later.spent, t.some_bytes, count);
    }

pub poll-Polls :
    (fuel : ℕ) (l : Link) (want rest : Bytes)
    → Awaits l want rest
    → length want ≤ fuel
    → Polls fuel l want rest
poll-Polls zero l want rest v f = absurd (omega (arith, v.some_bytes))
poll-Polls (suc fuel) l want rest v f =
    let (bs, inp', t) =
      recv-Takes (buf_left l.i.p) l.inp v.live (omega (arith, v.lacks, v.some_bytes))
        (rw v.comes (omega (arith, length-append {0} want rest, v.some_bytes))) in
    let (more, e, comes) =
      append-split bs (stream inp') want rest (sym t.splits ∙ v.comes)
        (omega (arith, t.at_most, v.lacks)) in
    let n : l.i.p.p + length (bs ++ more) ≡ l.i.p.e = rw (← e) v.lacks in
    rw e (
      Polls-step fuel l rest bs more inp' (omega (arith, v.lacks, v.some_bytes)) t n comes (λ k.
        poll-Polls fuel (arrived l bs inp') more rest
          (arrived-Awaits l rest bs more inp' v.begins t.live comes n k)
          (omega (arith, n, v.lacks, f, t.some_bytes, length-append {0} bs more))))
