-- ===== src/Flow/Inv.antt =====
-- What the meter keeps over a transfer, and what the limit enforces.
use native.Mathlib.Nat.{div-lt_iff_lt-mul}
use cifscp.Base.{ℕ, suc, ◌+◌, ◌-◌, ◌*◌, ◌/◌, ◌≤◌, ◌<◌, ◌≡◌, List, [], ◌∷◌, arith}
use cifscp.Cstring.{pos}
use cifscp.Flow.{Flow, word64, flow_sleep, flow_step}

-- `start`, `a`, `b` and `c` are in order, as flow.h draws them, and the later window counts no more
-- than the earlier one.
pub record IsFlow (f : Flow) : Type 0 where
  pub start_a : f.start ≤ f.a
  pub a_b : f.a ≤ f.b
  pub b_c : f.b ≤ f.c
  pub c_word : f.c < word64
  pub e_d : f.e ≤ f.d

-- The calls of a transfer, each with the clock's reading and the number of bytes.
abbrev pub run : Flow → List (ℕ × ℕ) → Flow
run f [] = f
run f ((now, delta) ∷ calls) = run (flow_step now f delta).0 calls

-- The clock does not run backwards.
abbrev pub InOrder : ℕ → List (ℕ × ℕ) → Type 0
InOrder t [] = Unit
InOrder t ((now, delta) ∷ calls) = (t ≤ now) × (now < word64) × InOrder now calls

abbrev pub bytes : List (ℕ × ℕ) → ℕ
bytes [] = 0
bytes ((now, delta) ∷ calls) = delta + bytes calls

-- With a limit set, a call waits long enough: the bytes counted since `a` come to less than the
-- limit allows in the time since `a`, the wait included, and one microsecond. So the product of
-- bytes and 10^6 must not wrap.
pub flow_step_limit :
    (now : ℕ) (f : Flow) (delta limit : ℕ)
    → IsFlow f
    → f.limit ≡ pos (suc limit)
    → f.a ≤ now
    → now < word64
    → (f.d + delta) * 1000000 < word64
    → (f.d + delta) * 1000000 < (now - f.a + (flow_step now f delta).1 + 1) * suc limit
unfolding flow_step flow_sleep
flow_step_limit now f delta limit v is_limit h k small =
    (div-lt_iff_lt-mul {k = suc limit} {x = (f.d + delta) * 1000000}
        {y = now - f.a + (flow_step now f delta).1 + 1} (omega arith)).0
      wait
  where
    wait : (f.d + delta) * 1000000 / suc limit < now - f.a + (flow_step now f delta).1 + 1
    wait = ground (arith, v.start_a, v.a_b, v.b_c)
