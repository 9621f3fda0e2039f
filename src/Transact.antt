-- ===== src/Transact.antt =====
-- libcifs/transact.c: `cifs_trans_recv`, which puts a transaction's answer together from several
-- messages. A transaction has three blocks of its own, each with a buffer over it.
pub mod Blocks
pub mod Safe
pub mod Gathered
pub mod Reassembly
pub mod Whole
use cifscp.Base.{
  ℕ, zero, suc, ◌+◌, ◌-◌, ◌*◌, ◌/◌, ◌%◌, ◌^◌, ◌≤◌, ◌<◌, min, ◌≡◌, refl, sym, ap, ◌∙◌, ◌≢◌, ◌↔◌, ◌⊎◌,
  inl, inr, Bool, true, false, not, ◌&&◌, ◌||◌, Option, none, some, List, [], ◌∷◌, ◌++◌, map, arith,
  ltb, leb, ◌==◌, if◌then◌else◌, ltb→lt, lt→ltb, ==_iff, Bool-cases, Option-cases, length, take,
  drop, replicate, length-append, length-take, length-drop, take-append-drop, take-add, take-take,
  take_self, append-split, append-cancel, take-all, drop-all, length-map, length-replicate,
}
use cifscp.Base.Strings.{Bytes}
use cifscp.Memory.{Mem, store, load, get16}
use cifscp.Buffer.{
  Buf, buf_new, buf_resize, buf_resize_full, buf_set, buf_size, buf_left, buf_range, write_buf,
}
use cifscp.Packet.{Packet, Errno, eio, words_at, packet_cmd, packet_errno, packet_range}
use cifscp.Transport.{Why, code}
use cifscp.Connect.{Conn, Outcome, done, refused, fault, no_end, and_then, conn_send, conn_recv}

pub record Block : Type 0 where
  pub mem : Mem
  pub buf : Buf

-- `cifs_trans_s`.
pub record Trans : Type 0 where
  pub setup : Block
  pub param : Block
  pub data_block : Block

abbrev pub max_setup : ℕ
max_setup = 255

abbrev pub max_param : ℕ
max_param = 1024

abbrev pub max_data : ℕ
max_data = 61440

-- `cifs_trans_new`, when every allocation succeeds.
unfoldable pub trans_new : Mem → Mem → Mem → Trans
unfolding buf_new
trans_new s p d = record {
  setup = record { mem = s; buf = buf_new max_setup };
  param = record { mem = p; buf = buf_new max_param };
  data_block = record { mem = d; buf = buf_new max_data };
}

-- Fields of `cifs_transaction_second_res_s`, from the packet's words on.
abbrev pub field : Packet → ℕ → ℕ
field pk off = get16 pk.mem (words_at + off)

abbrev pub total_param_count : Packet → ℕ
total_param_count pk = field pk 0

abbrev pub total_data_count : Packet → ℕ
total_data_count pk = field pk 2

abbrev pub param_count : Packet → ℕ
param_count pk = field pk 6

abbrev pub param_offset : Packet → ℕ
param_offset pk = field pk 8

abbrev pub param_displacement : Packet → ℕ
param_displacement pk = field pk 10

abbrev pub data_count : Packet → ℕ
data_count pk = field pk 12

abbrev pub data_offset : Packet → ℕ
data_offset pk = field pk 14

abbrev pub data_displacement : Packet → ℕ
data_displacement pk = field pk 16

abbrev pub setup_count : Packet → ℕ
setup_count pk = field pk 18

abbrev rewound : Block → Block
rewound b = record b { buf = buf_set (buf_resize_full b.buf) 0 }

-- All buffers as large as their blocks, at the beginning.
unfoldable pub trans_reset : Trans → Trans
unfolding buf_set buf_resize_full
trans_reset t = record {
  setup = rewound t.setup;
  param = rewound t.param;
  data_block = rewound t.data_block;
}

-- `cifs_buf_resize` where its result is not looked at.
unfoldable pub resized : Block → ℕ → Block
resized b n = record b { buf = elim (buf_resize b.buf n) [ none ↦ b.buf | some d ↦ d ] }

-- `cifs_write_buf` on a block of the transaction.
unfoldable pub append_to : Block → Bytes → Option Block
append_to b bs = elim (write_buf bs b.mem b.buf) [
  | none ↦ none
  | some (m, d) ↦ some (record { mem = m; buf = d })
]

-- What one message makes of a transaction.
pub data Step : Type 0 where
  more : Trans → Step
  complete : Trans → Step
  bad : Errno → Step
  step_fault : Step

-- A part of the message, `cnt` bytes at `off`, goes to `dis` in the block; `none` is the error.
pub data Put : Type 0 where
  put : Block → Put
  put_bad : Put
  put_fault : Put

unfoldable pub put_part : Packet → ℕ → ℕ → ℕ → Block → Put
unfolding append_to
put_part pk cnt dis off b =
    if cnt == 0
    then put b
    else if packet_range pk off cnt || buf_range b.buf dis cnt
    then put_bad
    else elim (append_to (record b { buf = buf_set b.buf dis })
        (load pk.mem (pk.p.b + off + 4) cnt)) [ none ↦ put_fault | some b' ↦ put b' ]

-- The test at the end of the loop.
unfoldable pub trans_test : Trans → Step
trans_test t =
    if t.param.buf.p == t.param.buf.e && t.data_block.buf.p == t.data_block.buf.e
    then complete t
    else more t

unfoldable pub trans_data : Trans → Put → Step
unfolding trans_test
trans_data t (put b) = trans_test (record t { data_block = b })
trans_data t put_bad = bad eio
trans_data t put_fault = step_fault

unfoldable pub trans_param : Packet → Trans → Put → Step
unfolding trans_data put_part
trans_param pk t (put b) =
    trans_data (record t { param = b })
      (put_part pk (data_count pk) (data_displacement pk) (data_offset pk) t.data_block)
trans_param pk t put_bad = bad eio
trans_param pk t put_fault = step_fault

unfoldable pub trans_setup : Packet → Trans → Option Block → Step
unfolding trans_param resized put_part
trans_setup pk t none = step_fault
trans_setup pk t (some setup') =
    let param' = resized t.param (total_param_count pk) in
    let data' = resized t.data_block (total_data_count pk) in
    trans_param pk (record { setup = setup'; param = param'; data_block = data' })
      (put_part pk (param_count pk) (param_displacement pk) (param_offset pk) param')

-- The counts that the message announces against the buffers: true when one is too large. The room of
-- the setup buffer is a signed difference.
unfoldable pub trans_too_big : Packet → Trans → Bool
trans_too_big pk t =
    ltb t.setup.buf.e (t.setup.buf.p + setup_count pk * 2)
    || (ltb (buf_size t.param.buf) (total_param_count pk)
        || ltb (buf_size t.data_block.buf) (total_data_count pk))

-- The body of the loop, on a received message.
unfoldable pub trans_step : Packet → Trans → Step
unfolding trans_setup trans_too_big resized append_to
trans_step pk t =
    if not (packet_cmd pk == 0x25) && not (packet_cmd pk == 0x32)
    then bad eio
    else elim (packet_errno pk) [
      | some e ↦ bad e
      | none ↦
          if trans_too_big pk t
          then bad eio
          else trans_setup pk t (
              append_to (resized t.setup (setup_count pk * 2))
                (load pk.mem (words_at + 20) (setup_count pk * 2)))
    ]

abbrev start : Block → Block
start b = record b { buf = buf_set b.buf 0 }

unfoldable pub trans_stepped : (Trans → Conn → Outcome Trans) → Step → Conn → Outcome Trans
trans_stepped next (more t) c = next t c
trans_stepped next (complete t) c =
    done (record { setup = start t.setup; param = start t.param; data_block = start t.data_block })
      c
trans_stepped next (bad e) c = refused (code e) c
trans_stepped next step_fault c = fault

-- The loop, with fuel for the rounds and for each receive.
unfoldable pub trans_loop : ℕ → ℕ → Trans → Conn → Outcome Trans
unfolding trans_step trans_stepped
trans_loop fuel zero t c = no_end
trans_loop fuel (suc rounds) t c =
    and_then (conn_recv fuel c)
      (λ _ c'. trans_stepped (trans_loop fuel rounds) (trans_step c'.i t) c')

-- `cifs_trans_recv` and `cifs_trans_request`.
unfoldable pub trans_recv : ℕ → ℕ → Trans → Conn → Outcome Trans
unfolding trans_loop trans_reset
trans_recv fuel rounds t c = trans_loop fuel rounds (trans_reset t) c

unfoldable pub trans_request : ℕ → ℕ → Trans → Conn → Outcome Trans
unfolding trans_recv
trans_request fuel rounds t c = and_then (conn_send c) (λ _ c'. trans_recv fuel rounds t c')
