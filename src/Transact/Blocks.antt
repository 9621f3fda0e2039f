-- ===== src/Transact/Blocks.antt =====
-- The blocks of a transaction, and a part of a message that is written into one of them.
use mathlib.Core.Path.{subst}
use cifscp.Base.{
  ℕ, ◌+◌, ◌≤◌, ◌≡◌, sym, ap, inl, inr, true, false, ◌||◌, some, arith, ltb, ◌==◌, Bool-cases,
  length,
}
use cifscp.Base.Strings.{Bytes}
use cifscp.Memory.{load, store}
use cifscp.Memory.Frame.{length-load}
use cifscp.Buffer.{buf_set, buf_resize, buf_range, buf_inc}
use cifscp.Buffer.Inv.{write_buf_room}
use cifscp.Packet.{Packet, packet_range}
use cifscp.Transact.{Block, Trans, Put, put, put_bad, put_fault, put_part, append_to, resized}

-- A block of `size` bytes: the buffer begins it, and its pointers stay inside.
pub record IsBlock (size : ℕ) (b : Block) : Type 0 where
  pub begins : b.buf.b ≡ 0
  pub limit : b.buf.x ≡ size
  pub point : b.buf.p ≤ size
  pub end : b.buf.e ≤ size

pub record IsTrans (t : Trans) : Type 0 where
  pub setup_block : IsBlock 255 t.setup
  pub param_block : IsBlock 1024 t.param
  pub data_block : IsBlock 61440 t.data_block

pub resized-IsBlock : (size n : ℕ) (b : Block) → IsBlock size b → IsBlock size (resized b n)
unfolding resized buf_resize
resized-IsBlock size n b v = elim (Bool-cases (ltb b.buf.x (b.buf.b + n))) [
  | inl e ↦ rw (e) v
  | inr e ↦ rw (e) (record {
    begins = v.begins;
    limit = v.limit;
    point = v.point;
    end = ground (arith, v.begins, v.limit);
  })
]

-- What a part leaves of a block: the block, an error, but no fault.
abbrev pub PutSafe : ℕ → Put → Type 0
PutSafe size (put b) = IsBlock size b
PutSafe size put_bad = Unit
PutSafe size put_fault = ⊥

pub resized_same :
    (b : Block) (n : ℕ) → ((resized b n).buf.p ≡ b.buf.p) × ((resized b n).buf.x ≡ b.buf.x)
unfolding resized buf_resize
resized_same b n = (ground arith, ground arith)

pub put_nothing :
    (pk : Packet) (cnt dis off : ℕ) (b : Block) → cnt ≡ 0 → put_part pk cnt dis off b ≡ put b
unfolding put_part
put_nothing pk cnt dis off b h = rw (h)

put_outside :
    (pk : Packet) (cnt dis off : ℕ) (b : Block)
    → cnt == 0 ≡ false
    → (packet_range pk off cnt || buf_range b.buf dis cnt) ≡ true
    → put_part pk cnt dis off b ≡ put_bad
unfolding put_part
put_outside pk cnt dis off b h k = rw (h, k)

-- The block with `bs` written at `dis`, where the buffer then stands.
abbrev pub placed : Block → ℕ → Bytes → Block
placed b dis bs = record { mem = store b.mem dis bs; buf = record (b.buf) { p = dis + length bs } }

-- The bytes of a message that a part names.
abbrev pub part_bytes : Packet → ℕ → ℕ → Bytes
part_bytes pk off cnt = load pk.mem (pk.p.b + off + 4) cnt

pub append_to_room :
    (b : Block) (bs : Bytes)
    → b.buf.p + length bs ≤ b.buf.x
    → append_to b bs ≡ some (placed b b.buf.p bs)
unfolding append_to buf_inc
append_to_room b bs h = rw (write_buf_room bs b.mem b.buf h, append_to)

pub put_inside :
    (size : ℕ) (pk : Packet) (cnt dis off : ℕ) (b : Block)
    → IsBlock size b
    → cnt == 0 ≡ false
    → (packet_range pk off cnt || buf_range b.buf dis cnt) ≡ false
    → (put_part pk cnt dis off b ≡ put (placed b dis (part_bytes pk off cnt)))
      × (dis + cnt ≤ b.buf.e)
unfolding put_part buf_set buf_range
put_inside size pk cnt dis off b v h k = (steps, fits)
  where
    fits : dis + cnt ≤ b.buf.e
    fits = ground (arith, v.begins)

    room : b.buf.b + dis + length (part_bytes pk off cnt) ≤ b.buf.x
    room = omega (arith, fits, v.end, v.limit, v.begins, length-load cnt pk.mem (pk.p.b + off + 4))

    from_begin : b.buf.b + dis ≡ dis
    from_begin = omega (arith, v.begins)

    steps : put_part pk cnt dis off b ≡ put (placed b dis (part_bytes pk off cnt))
    steps =
        rw
          (
            h,
            k,
            append_to_room (record b { buf = buf_set b.buf dis }) (part_bytes pk off cnt) room,
            put_part,
          )
          (ap (λ z. put (placed b z (part_bytes pk off cnt))) from_begin)

pub put_part-PutSafe :
    (size : ℕ) (pk : Packet) (cnt dis off : ℕ) (b : Block)
    → IsBlock size b
    → PutSafe size (put_part pk cnt dis off b)
put_part-PutSafe size pk cnt dis off b v = elim (Bool-cases (cnt == 0)) [
  | inl z ↦ subst (PutSafe size) (sym (put_nothing pk cnt dis off b (ground arith))) v
  | inr n ↦ elim (Bool-cases (packet_range pk off cnt || buf_range b.buf dis cnt)) [
    | inl out ↦ subst (PutSafe size) (sym (put_outside pk cnt dis off b n out)) tt
    | inr in_range ↦
        let (steps, fits) = put_inside size pk cnt dis off b v n in_range in
        subst (PutSafe size) (sym steps) (record {
          begins = v.begins;
          limit = v.limit;
          point = omega (arith, fits, v.end, length-load cnt pk.mem (pk.p.b + off + 4));
          end = v.end;
        })
  ]
]
