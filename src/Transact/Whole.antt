-- ===== src/Transact/Whole.antt =====
-- `cifs_trans_recv` on an answer that comes in order.
use mathlib.Core.Path.{subst}
use cifscp.Base.{
  ℕ, zero, suc, ◌+◌, ◌≤◌, ◌<◌, ◌≡◌, refl, ap, ◌∙◌, ◌⊎◌, [], ◌++◌, arith, length, length-append,
}
use cifscp.Base.Strings.{Bytes}
use cifscp.Memory.{load}
use cifscp.Buffer.{buf_size, buf_set, buf_resize_full}
use cifscp.Connect.{Conn, Outcome, done, conn_recv}
use cifscp.Transact.{
  Block, Trans, more, complete, trans_test, trans_step, trans_stepped, trans_loop, trans_reset,
  trans_recv,
}
use cifscp.Transact.Blocks.{IsBlock, IsTrans}
use cifscp.Transact.Gathered.{Carries, Gathers, Holding}
use cifscp.Transact.Reassembly.{step-Holding}

-- The messages that the connection delivers carry `params` and `datas` in order, behind `dp` and
-- `dd`, and the last one completes both; `n` messages lead from `c` to `c'`.
pub data Arrives (fuel : ℕ) (params datas : Bytes) (c' : Conn)
    : Bytes → Bytes → Conn → ℕ → Type 0 where
  last :
      {dp dd : Bytes} {c : Conn} (ps ds : Bytes)
      → conn_recv fuel c ≡ done tt c'
      → Carries c'.i (length params) (length datas) (length dp) (length dd) ps ds
      → dp ++ ps ≡ params
      → dd ++ ds ≡ datas
      → Arrives fuel params datas c' dp dd c 1
  next :
      {dp dd : Bytes} {c : Conn} {n : ℕ} (ps ds : Bytes) (c1 : Conn)
      → conn_recv fuel c ≡ done tt c1
      → Carries c1.i (length params) (length datas) (length dp) (length dd) ps ds
      → (length (dp ++ ps) < length params) ⊎ (length (dd ++ ds) < length datas)
      → Arrives fuel params datas c' (dp ++ ps) (dd ++ ds) c1 n
      → Arrives fuel params datas c' dp dd c (suc n)

-- What has come is no longer than the whole.
Arrives-length :
    {fuel : ℕ} {params datas : Bytes} {c' : Conn} {dp dd : Bytes} {c : Conn} {n : ℕ}
    → Arrives fuel params datas c' dp dd c n
    → (length dp ≤ length params) × (length dd ≤ length datas)
Arrives-length {dp = dp} {dd = dd} (last ps ds r k e f) = (
  omega (arith, ap length e, length-append {0} dp ps),
  omega (arith, ap length f, length-append {0} dd ds),
)
Arrives-length {dp = dp} {dd = dd} (next ps ds c1 r k some_left a) =
    let (p, d) = Arrives-length a in
    (omega (arith, p, length-append {0} dp ps), omega (arith, d, length-append {0} dd ds))

-- The answer, as the callers find it: the buffers begin it and are as long.
pub record Delivered (params datas : Bytes) (t : Trans) : Type 0 where
  pub param_size : buf_size t.param.buf ≡ length params
  pub param_point : t.param.buf.p ≡ 0
  pub param_bytes : load t.param.mem 0 (length params) ≡ params
  pub data_size : buf_size t.data_block.buf ≡ length datas
  pub data_point : t.data_block.buf.p ≡ 0
  pub data_bytes : load t.data_block.mem 0 (length datas) ≡ datas

test_complete :
    (t : Trans)
    → t.param.buf.p ≡ t.param.buf.e
    → t.data_block.buf.p ≡ t.data_block.buf.e
    → trans_test t ≡ complete t
unfolding trans_test
test_complete t p d = ground (arith, p, d)

test_more :
    (t : Trans)
    → (t.param.buf.p < t.param.buf.e) ⊎ (t.data_block.buf.p < t.data_block.buf.e)
    → trans_test t ≡ more t
unfolding trans_test
test_more t h = ground (arith, h)

loop_turn :
    (fuel rounds : ℕ) (t : Trans) (c c1 : Conn)
    → conn_recv fuel c ≡ done tt c1
    → trans_loop fuel (suc rounds) t c
      ≡ trans_stepped (trans_loop fuel rounds) (trans_step c1.i t) c1
unfolding trans_loop
loop_turn fuel rounds t c c1 r = rw (r)

abbrev Ends : ℕ → ℕ → Trans → Conn → Conn → Bytes → Bytes → Type 0
Ends fuel rounds t c c' params datas =
    (t' : Trans) × (trans_loop fuel rounds t c ≡ done t' c') × Delivered params datas t'

stepped_more :
    (next_turn : Trans → Conn → Outcome Trans) (t : Trans) (c : Conn)
    → trans_stepped next_turn (more t) c ≡ next_turn t c
unfolding trans_stepped
stepped_more next_turn t c = refl

stepped_complete :
    (next_turn : Trans → Conn → Outcome Trans) (t : Trans) (c : Conn) (params datas dp dd : Bytes)
    → Holding (length params) (length datas) dp dd t
    → dp ≡ params
    → dd ≡ datas
    → t.param.buf.e ≡ length params
    → t.data_block.buf.e ≡ length datas
    → (t' : Trans) × (trans_stepped next_turn (complete t) c ≡ done t' c)
      × Delivered params datas t'
unfolding trans_stepped buf_set
stepped_complete next_turn t c params datas dp dd v e f ep ed = (
  _,
  refl,
  record {
    param_size = omega (arith, ep, v.param.block.begins);
    param_point = omega (arith, v.param.block.begins);
    param_bytes = subst (λ z. load t.param.mem 0 (length z) ≡ z) e v.param.bytes;
    data_size = omega (arith, ed, v.datas.block.begins);
    data_point = omega (arith, v.datas.block.begins);
    data_bytes = subst (λ z. load t.data_block.mem 0 (length z) ≡ z) f v.datas.bytes;
  },
)

loop-Delivered :
    {params datas dp dd : Bytes} {c' : Conn} (fuel rounds n : ℕ) (t : Trans) (c : Conn)
    → Arrives fuel params datas c' dp dd c n
    → n ≤ rounds
    → Holding (length params) (length datas) dp dd t
    → Ends fuel rounds t c c' params datas
loop-Delivered fuel zero n t c (last ps ds r k e f) h v = absurd (omega arith)
loop-Delivered fuel zero n t c (next ps ds c1 r k left a) h v = absurd (omega arith)
loop-Delivered {params} {datas} {dp} {dd} {c'} fuel (suc rounds) n t c (last ps ds r k e f) h v =
    let lp : length dp + length ps ≤ length params =
      omega (arith, ap length e, length-append {0} dp ps) in
    let ld : length dd + length ds ≤ length datas =
      omega (arith, ap length f, length-append {0} dd ds) in
    let (t', steps, cut) =
      step-Holding c'.i (length params) (length datas) ps ds dp dd t k v lp ld in
    let ends =
      test_complete t' (omega (arith, cut.0.param.point, cut.1, ap length e))
        (omega (arith, cut.0.datas.point, cut.2, ap length f)) in
    let (t'', finishes, there) =
      stepped_complete (trans_loop fuel rounds) t' c' params datas (dp ++ ps) (dd ++ ds) cut.0 e f
        cut.1 cut.2 in
    (
      t'',
      loop_turn fuel rounds t c c' r
          ∙ ap (λ z. trans_stepped (trans_loop fuel rounds) z c') (steps ∙ ends)
          ∙ finishes,
      there,
    )
loop-Delivered {params} {datas} {dp} {dd} {c'} fuel (suc rounds) (suc n) t c
      (next ps ds c1 r k left a) h v =
    let (sp, sd) = Arrives-length a in
    let lp : length dp + length ps ≤ length params = omega (arith, sp, length-append {0} dp ps) in
    let ld : length dd + length ds ≤ length datas = omega (arith, sd, length-append {0} dd ds) in
    let (t', steps, cut) =
      step-Holding c1.i (length params) (length datas) ps ds dp dd t k v lp ld in
    let goes_on =
      test_more t' (ground (arith, left, cut.0.param.point, cut.0.datas.point, cut.1, cut.2)) in
    let (t'', finishes, there) = loop-Delivered fuel rounds n t' c1 a (omega (arith, h)) cut.0 in
    (
      t'',
      loop_turn fuel rounds t c c1 r
          ∙ ap (λ z. trans_stepped (trans_loop fuel rounds) z c1) (steps ∙ goes_on)
          ∙ stepped_more (trans_loop fuel rounds) t' c1
          ∙ finishes,
      there,
    )

reset-Gathers :
    (size n : ℕ) (b : Block)
    → IsBlock size b
    → n ≤ size
    → Gathers size n [] (record b { buf = buf_set (buf_resize_full b.buf) 0 })
unfolding buf_set buf_resize_full load
reset-Gathers size n b v h = record {
  block = record {
    begins = v.begins;
    limit = v.limit;
    point = omega (arith, v.begins);
    end = omega (arith, v.limit);
  };
  point = omega (arith, v.begins);
  room = omega (arith, v.limit, h);
  bytes = refl;
}

reset-Holding :
    (t : Trans) (np nd : ℕ)
    → IsTrans t
    → np ≤ 1024
    → nd ≤ 61440
    → Holding np nd [] [] (trans_reset t)
unfolding trans_reset
reset-Holding t np nd v hp hd = record {
  setup_block = (reset-Gathers 255 0 t.setup v.setup_block (omega arith)).block;
  setup_point = (reset-Gathers 255 0 t.setup v.setup_block (omega arith)).point;
  param = reset-Gathers 1024 np t.param v.param_block hp;
  datas = reset-Gathers 61440 nd t.data_block v.data_block hd;
}

-- When a server's answer fits the blocks and its messages carry the parameters and the data in
-- order, without setup words, and only the last message completes both, `cifs_trans_recv` returns 0
-- after exactly those messages, and the transaction holds the parameters and the data, its buffers
-- as long as they are. However many messages there are, a round for each is enough.
pub trans_recv-Delivered :
    (params datas : Bytes) (fuel rounds n : ℕ) (t : Trans) (c c' : Conn)
    → IsTrans t
    → length params ≤ 1024
    → length datas ≤ 61440
    → Arrives fuel params datas c' [] [] c n
    → n ≤ rounds
    → (t' : Trans) × (trans_recv fuel rounds t c ≡ done t' c') × Delivered params datas t'
unfolding trans_recv
trans_recv-Delivered params datas fuel rounds n t c c' v hp hd a h =
    loop-Delivered fuel rounds n (trans_reset t) c a h
      (reset-Holding t (length params) (length datas) v hp hd)
