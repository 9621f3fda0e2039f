-- ===== src/Transact/Gathered.antt =====
-- Blocks that gather the parts of an answer in order.
use mathlib.Core.Path.{subst}
use mathlib.Core.List.{append-nil}
use cifscp.Base.{
  ℕ, ◌+◌, ◌≤◌, ◌≡◌, refl, sym, ap, ◌∙◌, ◌⊎◌, false, none, [], ◌∷◌, ◌++◌, arith, ltb, length,
  length-append,
}
use cifscp.Base.Strings.{Bytes}
use cifscp.Memory.{Mem, load, store}
use cifscp.Memory.Frame.{load-append, load-store, load-store_below}
use cifscp.Buffer.{buf_resize, buf_range}
use cifscp.Packet.{Packet, packet_cmd, packet_range, packet_errno}
use cifscp.Transact.{
  Block, Trans, put, put_part, resized, total_param_count, total_data_count, param_count,
  param_offset, param_displacement, data_count, data_offset, data_displacement, setup_count,
}
use cifscp.Transact.Blocks.{IsBlock, put_nothing, put_inside, placed, part_bytes}

-- Count, displacement and offset in a message say that `bs` comes next, behind `at` bytes.
pub data IsPart (pk : Packet) (at : ℕ) : ℕ → ℕ → ℕ → Bytes → Type 0 where
  absent : (dis off : ℕ) → IsPart pk at 0 dis off []
  present :
      (off : ℕ) (c : ℕ) (cs : Bytes)
      → packet_range pk off (length (c ∷ cs)) ≡ false
      → part_bytes pk off (length (c ∷ cs)) ≡ c ∷ cs
      → IsPart pk at (length (c ∷ cs)) at off (c ∷ cs)

-- A message of an answer whose parameters and data are `np` and `nd` bytes: it carries `ps` and
-- `ds`, behind `dp` and `dd` bytes.
pub record Carries (pk : Packet) (np nd dp dd : ℕ) (ps ds : Bytes) : Type 0 where
  pub cmd : (packet_cmd pk ≡ 0x25) ⊎ (packet_cmd pk ≡ 0x32)
  pub fine : packet_errno pk ≡ none
  pub no_setup : setup_count pk ≡ 0
  pub params : total_param_count pk ≡ np
  pub datas : total_data_count pk ≡ nd
  pub param : IsPart pk dp (param_count pk) (param_displacement pk) (param_offset pk) ps
  pub data_part : IsPart pk dd (data_count pk) (data_displacement pk) (data_offset pk) ds

-- A block into which `bs` has been put, of the `n` bytes that are to come.
pub record Gathers (size n : ℕ) (bs : Bytes) (b : Block) : Type 0 where
  pub block : IsBlock size b
  pub point : b.buf.p ≡ length bs
  pub room : n ≤ b.buf.e
  pub bytes : load b.mem 0 (length bs) ≡ bs

-- The same, with the buffer cut to size.
abbrev Cut : ℕ → ℕ → Bytes → Block → Type 0
Cut size n bs b = Gathers size n bs b × (b.buf.e ≡ n)

pub resized-Cut :
    (size n : ℕ) (bs : Bytes) (b : Block) → Gathers size n bs b → Cut size n bs (resized b n)
unfolding resized buf_resize
resized-Cut size n bs b v = (
  rw (fits) (record {
    block = record {
      begins = v.block.begins;
      limit = v.block.limit;
      point = v.block.point;
      end = omega (arith, v.block.begins, v.room, v.block.end);
    };
    point = v.point;
    room = omega (arith, v.block.begins);
    bytes = v.bytes;
  }),
  ground (arith, fits, v.block.begins),
)
  where
    fits : ltb b.buf.x (b.buf.b + n) ≡ false
    fits = ground (arith, v.block.begins, v.block.limit, v.room, v.block.end)

-- What stands before `bs` in the block stays, and `bs` comes behind it.
placed-bytes :
    (m : Mem) (acc bs : Bytes)
    → load m 0 (length acc) ≡ acc
    → load (store m (length acc) bs) 0 (length acc + length bs) ≡ acc ++ bs
placed-bytes m acc bs h =
    load-append (length acc) (length bs) (store m (length acc) bs) 0
    ∙ rw (load-store_below (length acc) bs m (length acc) 0 (omega arith), h)
        (ap (λ z. acc ++ load (store m (length acc) bs) z (length bs)) (omega arith)
          ∙ ap (λ z. acc ++ z) (load-store bs m (length acc)))

pub put_part-Cut :
    (size n cnt dis off : ℕ) (pk : Packet) (acc bs : Bytes) (b : Block)
    → Cut size n acc b
    → IsPart pk (length acc) cnt dis off bs
    → length acc + length bs ≤ n
    → (b' : Block) × (put_part pk cnt dis off b ≡ put b') × Cut size n (acc ++ bs) b'
unfolding buf_range
put_part-Cut size n cnt d o pk acc bs b v (absent dis off) h =
    (b, put_nothing pk 0 dis off b refl, subst (λ z. Cut size n z b) (sym (append-nil acc)) v)
put_part-Cut size n cnt d o pk acc bs b v (present off c cs range same) h =
    let k = length (c ∷ cs) in
    let inside : buf_range b.buf (length acc) k ≡ false =
      ground (arith, v.0.block.begins, v.1, h) in
    let (steps, fits) =
      put_inside size pk k (length acc) off b v.0.block (ground arith) (rw (range) inside) in
    (
      placed b (length acc) (c ∷ cs),
      steps ∙ ap (λ z. put (placed b (length acc) z)) same,
      (
        record {
          block = record {
            begins = v.0.block.begins;
            limit = v.0.block.limit;
            point = omega (arith, fits, v.0.block.end);
            end = v.0.block.end;
          };
          point = omega (arith, length-append {0} acc (c ∷ cs));
          room = v.0.room;
          bytes =
              ap (load (store b.mem (length acc) (c ∷ cs)) 0) (length-append acc (c ∷ cs))
              ∙ placed-bytes b.mem acc (c ∷ cs) v.0.bytes;
        },
        v.1,
      ),
    )

-- What has come of the answer: `dp` of the parameters and `dd` of the data.
pub record Holding (np nd : ℕ) (dp dd : Bytes) (t : Trans) : Type 0 where
  pub setup_block : IsBlock 255 t.setup
  pub setup_point : t.setup.buf.p ≡ 0
  pub param : Gathers 1024 np dp t.param
  pub datas : Gathers 61440 nd dd t.data_block

-- The same behind a message, when the buffers are as long as the answer.
abbrev pub HoldingCut : ℕ → ℕ → Bytes → Bytes → Trans → Type 0
HoldingCut np nd dp dd t = Holding np nd dp dd t × (t.param.buf.e ≡ np) × (t.data_block.buf.e ≡ nd)
