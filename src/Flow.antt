-- ===== src/Flow.antt =====
-- flow.c and flow.h: the meter that measures a transfer and slows it down. The clock's reading, in
-- microseconds, is an argument, and the time that `cifs_sleep` is asked to wait is a result.
-- `uint64_t` wraps; the `int` counters of bytes stay below 2^31.
pub mod Inv
use cifscp.Base.{
  ℕ, zero, suc, ◌+◌, ◌-◌, ◌*◌, ◌/◌, ◌%◌, ◌^◌, ◌≤◌, ◌<◌, min, ◌≡◌, refl, sym, ap, ◌∙◌, ◌≢◌, ◌↔◌, ◌⊎◌,
  inl, inr, Bool, true, false, not, ◌&&◌, ◌||◌, Option, none, some, List, [], ◌∷◌, ◌++◌, map, arith,
  ltb, leb, ◌==◌, if◌then◌else◌, ltb→lt, lt→ltb, ==_iff, Bool-cases, Option-cases, length, take,
  drop, replicate, length-append, length-take, length-drop, take-append-drop, take-add,
  append-split, append-cancel, take-all, drop-all, length-map, length-replicate,
}
use cifscp.Cstring.{ℤ, pos, negsuc}

pub record Flow : Type 0 where
  pub limit : ℤ
  pub speed : ℕ
  pub total : ℕ
  pub time : ℕ
  pub start : ℕ
  pub a : ℕ
  pub b : ℕ
  pub c : ℕ
  pub interval : ℕ
  pub d : ℕ
  pub e : ℕ

abbrev pub word64 : ℕ
word64 = 18446744073709551616

-- The difference of two `uint64_t`.
abbrev pub sub64 : ℕ → ℕ → ℕ
sub64 x y = (x + word64 - y) % word64

-- `cifs_flow_reset`, when the clock shows `now`.
unfoldable pub flow_reset : ℕ → Flow
flow_reset now = record {
  limit = pos 0;
  speed = 0;
  total = 0;
  time = 0;
  start = now;
  a = now;
  b = now;
  c = now;
  interval = 500000;
  d = 0;
  e = 0;
}

-- How long a call waits: until `x / limit` microseconds have gone by since `a`.
unfoldable pub flow_sleep : ℤ → ℕ → ℕ → ℕ
flow_sleep (negsuc n) x t = 0
flow_sleep (pos zero) x t = 0
flow_sleep (pos (suc n)) x t = let w = x / suc n in if ltb t w then w - t else 0

-- The window that begins at `b` becomes the one that begins at `a`.
unfoldable pub flow_flip : Flow → Flow
flow_flip f =
    if ltb f.interval (sub64 f.c f.b) then record f { d = f.e; e = 0; a = f.b; b = f.c } else f

-- `cifs_flow`: the meter, the wait, and whether the status is to be printed.
unfoldable pub flow_step : ℕ → Flow → ℕ → Flow × ℕ × Bool
unfolding flow_flip flow_sleep
flow_step now f delta =
    let d' = f.d + delta in
    let x = d' * 1000000 % word64 in
    let t = sub64 now f.a in
    let counted = record f {
      total = (f.total + delta) % word64;
      d = d';
      e = f.e + delta;
      c = now;
      time = sub64 now f.start / 1000000;
    } in
    let f' = record (flow_flip counted) { speed = if t == 0 then 0 else x / t % 4294967296 } in
    (f', flow_sleep f.limit x t, f'.e == 0)
