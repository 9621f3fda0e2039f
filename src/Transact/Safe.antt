-- ===== src/Transact/Safe.antt =====
-- However a server cuts an answer, and whatever counts and offsets it sends, the blocks of a
-- transaction are written inside their bounds.
use cifscp.Base.{
  ℕ, zero, suc, ◌+◌, ◌*◌, ◌≤◌, ◌≡◌, inl, inr, false, not, ◌&&◌, some, arith, ◌==◌, Bool-cases,
  Option-cases, length,
}
use cifscp.Base.Strings.{Bytes}
use cifscp.Memory.{load}
use cifscp.Memory.Frame.{length-load}
use cifscp.Buffer.{buf_set, buf_resize_full}
use cifscp.Packet.{Packet, words_at, packet_cmd, packet_errno}
use cifscp.Transport.{Received, received, recv_failed, hang, cifs_recv}
use cifscp.Connect.{
  Conn, Outcome, done, refused, fault, no_end, and_then, with_link, conn_received, conn_recv,
}
use cifscp.Transact.{
  Block, Trans, Step, more, complete, bad, step_fault, Put, put, put_bad, put_fault, append_to,
  resized, trans_reset, setup_count, trans_loop, trans_recv, trans_stepped, trans_test, trans_data,
  trans_param, trans_setup, trans_too_big, trans_step,
}
use cifscp.Transact.Blocks.{
  IsBlock, IsTrans, resized-IsBlock, PutSafe, resized_same, placed, append_to_room,
  put_part-PutSafe,
}

-- What a message makes of a transaction: it stays in bounds, or an error is reported; no fault.
abbrev pub StepSafe : Step → Type 0
StepSafe (more t) = IsTrans t
StepSafe (complete t) = IsTrans t
StepSafe (bad e) = Unit
StepSafe step_fault = ⊥

trans_test-StepSafe : (t : Trans) → IsTrans t → StepSafe (trans_test t)
unfolding trans_test
trans_test-StepSafe t v =
    elim (Bool-cases (t.param.buf.p == t.param.buf.e && t.data_block.buf.p == t.data_block.buf.e)) [
      | inl e ↦ rw (e) v
      | inr e ↦ rw (e) v
    ]

trans_data-StepSafe :
    (t : Trans) (r : Put) → IsTrans t → PutSafe 61440 r → StepSafe (trans_data t r)
unfolding trans_data
trans_data-StepSafe t (put b) v h =
    trans_test-StepSafe (record t { data_block = b })
      (record { setup_block = v.setup_block; param_block = v.param_block; data_block = h })
trans_data-StepSafe t put_bad v h = tt
trans_data-StepSafe t put_fault v h = h

trans_param-StepSafe :
    (pk : Packet) (t : Trans) (r : Put) → IsTrans t → PutSafe 1024 r → StepSafe (trans_param pk t r)
unfolding trans_param
trans_param-StepSafe pk t (put b) v h =
    trans_data-StepSafe (record t { param = b }) _
      (record { setup_block = v.setup_block; param_block = h; data_block = v.data_block })
      (put_part-PutSafe 61440 pk _ _ _ t.data_block v.data_block)
trans_param-StepSafe pk t put_bad v h = tt
trans_param-StepSafe pk t put_fault v h = h

trans_setup-StepSafe :
    (pk : Packet) (t : Trans) (b : Block)
    → IsTrans t
    → IsBlock 255 b
    → StepSafe (trans_setup pk t (some b))
unfolding trans_setup
trans_setup-StepSafe pk t b v h =
    let param' = resized-IsBlock 1024 _ t.param v.param_block in
    let data' = resized-IsBlock 61440 _ t.data_block v.data_block in
    trans_param-StepSafe pk _ _
      (record { setup_block = h; param_block = param'; data_block = data' })
      (put_part-PutSafe 1024 pk _ _ _ _ param')

-- The setup words fit behind those that are there.
setup_room :
    (pk : Packet) (t : Trans)
    → IsTrans t
    → trans_too_big pk t ≡ false
    → t.setup.buf.p + setup_count pk * 2 ≤ 255
unfolding trans_too_big
setup_room pk t v h = ground (arith, v.setup_block.end)

setup_appended :
    (b : Block) (bs : Bytes)
    → IsBlock 255 b
    → b.buf.p + length bs ≤ 255
    → (b' : Block) × (append_to b bs ≡ some b') × IsBlock 255 b'
setup_appended b bs v h = (
  placed b b.buf.p bs,
  append_to_room b bs (omega (arith, v.limit)),
  record { begins = v.begins; limit = v.limit; point = h; end = v.end },
)

-- Whatever a message says, its parts are taken from inside the message and written inside the
-- blocks of the transaction, whose buffers stay in bounds, or an error is reported; the code never
-- writes anywhere else.
pub trans_step-StepSafe : (pk : Packet) (t : Trans) → IsTrans t → StepSafe (trans_step pk t)
unfolding trans_step
trans_step-StepSafe pk t v =
    elim (Bool-cases (not (packet_cmd pk == 0x25) && not (packet_cmd pk == 0x32))) [
      | inl e ↦ rw (e) tt
      | inr e ↦ elim (Option-cases (packet_errno pk)) [
        | inr (x, k) ↦ rw (e, k) tt
        | inl k ↦ elim (Bool-cases (trans_too_big pk t)) [
          | inl big ↦ rw (e, k, big) tt
          | inr fits ↦
              let n = setup_count pk * 2 in
              let same = resized_same t.setup n in
              let (b', appends, ok) =
                setup_appended (resized t.setup n) (load pk.mem (words_at + 20) n)
                  (resized-IsBlock 255 n t.setup v.setup_block)
                  (omega (
                    arith,
                    same.0,
                    setup_room pk t v fits,
                    length-load n pk.mem (words_at + 20),
                  )) in
              rw (e, k, fits, appends) (trans_setup-StepSafe pk t b' v ok)
        ]
      ]
    ]

-- No fault, and blocks in bounds at the end.
abbrev pub RunSafe : Outcome Trans → Type 0
RunSafe (done t c) = IsTrans t
RunSafe (refused w c) = Unit
RunSafe fault = ⊥
RunSafe no_end = Unit

trans_stepped-RunSafe :
    (next : Trans → Conn → Outcome Trans) (s : Step) (c : Conn)
    → StepSafe s
    → ((t : Trans) → IsTrans t → RunSafe (next t c))
    → RunSafe (trans_stepped next s c)
unfolding trans_stepped buf_set
trans_stepped-RunSafe next (more t) c h k = k t h
trans_stepped-RunSafe next (complete t) c h k = record {
  setup_block = started 255 t.setup h.setup_block;
  param_block = started 1024 t.param h.param_block;
  data_block = started 61440 t.data_block h.data_block;
}
  where
    started :
        (size : ℕ) (b : Block) → IsBlock size b → IsBlock size (record b { buf = buf_set b.buf 0 })
    started size b v = record {
      begins = v.begins;
      limit = v.limit;
      point = omega (arith, v.begins);
      end = v.end;
    }
trans_stepped-RunSafe next (bad e) c h k = tt
trans_stepped-RunSafe next step_fault c h k = h

received-RunSafe :
    (c : Conn) (r : Received) (f : Unit → Conn → Outcome Trans)
    → ((c' : Conn) → RunSafe (f tt c'))
    → RunSafe (and_then (conn_received c r) f)
unfolding conn_received
received-RunSafe c (received l) f h = h (with_link c l)
received-RunSafe c (recv_failed w l) f h = tt
received-RunSafe c hang f h = tt

conn_recv-RunSafe :
    (fuel : ℕ) (c : Conn) (f : Unit → Conn → Outcome Trans)
    → ((c' : Conn) → RunSafe (f tt c'))
    → RunSafe (and_then (conn_recv fuel c) f)
unfolding conn_recv
conn_recv-RunSafe fuel c f h =
    received-RunSafe c (cifs_recv fuel (record { i = c.i; inp = c.inp })) f h

trans_loop-RunSafe :
    (fuel rounds : ℕ) (t : Trans) (c : Conn) → IsTrans t → RunSafe (trans_loop fuel rounds t c)
unfolding trans_loop
trans_loop-RunSafe fuel zero t c v = tt
trans_loop-RunSafe fuel (suc rounds) t c v = conn_recv-RunSafe fuel c _ (λ c'.
    trans_stepped-RunSafe (trans_loop fuel rounds) (trans_step c'.i t) c'
      (trans_step-StepSafe c'.i t v) (λ t' v'. trans_loop-RunSafe fuel rounds t' c' v'))

trans_reset-IsTrans : (t : Trans) → IsTrans t → IsTrans (trans_reset t)
unfolding trans_reset buf_set buf_resize_full
trans_reset-IsTrans t v = record {
  setup_block = rewound_lem 255 t.setup v.setup_block;
  param_block = rewound_lem 1024 t.param v.param_block;
  data_block = rewound_lem 61440 t.data_block v.data_block;
}
  where
    rewound_lem :
        (size : ℕ) (b : Block)
        → IsBlock size b
        → IsBlock size (record b { buf = buf_set (buf_resize_full b.buf) 0 })
    rewound_lem size b v' = record {
      begins = v'.begins;
      limit = v'.limit;
      point = omega (arith, v'.begins);
      end = omega (arith, v'.limit);
    }

-- The whole of `cifs_trans_recv` writes only inside the blocks of its transaction, whatever the
-- server sends and in whatever pieces it arrives, and leaves their buffers in bounds, as they are
-- before the call.
pub trans_recv-RunSafe :
    (fuel rounds : ℕ) (t : Trans) (c : Conn) → IsTrans t → RunSafe (trans_recv fuel rounds t c)
unfolding trans_recv
trans_recv-RunSafe fuel rounds t c v =
    trans_loop-RunSafe fuel rounds (trans_reset t) c (trans_reset-IsTrans t v)
