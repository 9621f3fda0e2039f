-- ===== src/Transact/Reassembly.antt =====
-- The answer of a transaction, put together from messages that carry its parts in order.
use mathlib.Core.Path.{subst}
use cifscp.Base.{
  ℕ, ◌+◌, ◌*◌, ◌≤◌, ◌≡◌, ap, ◌∙◌, false, not, ◌&&◌, none, some, ◌++◌, arith, ◌==◌, length,
}
use cifscp.Base.Strings.{Bytes}
use cifscp.Memory.{load}
use cifscp.Memory.Frame.{length-load}
use cifscp.Packet.{Packet, words_at, packet_cmd, packet_errno}
use cifscp.Transact.{
  Block, Trans, put, put_part, append_to, resized, trans_test, trans_data, trans_param, trans_setup,
  trans_too_big, trans_step, total_param_count, total_data_count, param_count, param_offset,
  param_displacement, data_count, data_offset, data_displacement, setup_count,
}
use cifscp.Transact.Blocks.{IsBlock, resized_same, resized-IsBlock, append_to_room, placed}
use cifscp.Transact.Gathered.{Carries, resized-Cut, put_part-Cut, Holding, HoldingCut}

setup_put :
    (b : Block) (n : ℕ) (bs : Bytes)
    → IsBlock 255 b
    → b.buf.p ≡ 0
    → length bs ≡ 0
    → (b' : Block) × (append_to (resized b n) bs ≡ some b') × IsBlock 255 b' × (b'.buf.p ≡ 0)
setup_put b n bs v z h =
    let same = resized_same b n in
    let ok = resized-IsBlock 255 n b v in
    let stays : (resized b n).buf.p + length bs ≡ 0 = omega (arith, same.0, z, h) in
    (
      placed (resized b n) (resized b n).buf.p bs,
      append_to_room (resized b n) bs (omega (arith, stays)),
      record { begins = ok.begins; limit = ok.limit; point = omega (arith, stays); end = ok.end },
      stays,
    )

step_begins :
    (pk : Packet) (np nd : ℕ) (ps ds dp dd : Bytes) (t : Trans)
    → Carries pk np nd (length dp) (length dd) ps ds
    → Holding np nd dp dd t
    → (trans_too_big pk t ≡ false)
      × ((not (packet_cmd pk == 0x25) && not (packet_cmd pk == 0x32)) ≡ false)
unfolding trans_too_big
step_begins pk np nd ps ds dp dd t c v = (
  ground (
    arith, c.no_setup, c.params, c.datas, v.setup_point, v.param.room, v.datas.room,
    v.param.block.begins, v.datas.block.begins,
  ),
  ground (arith, c.cmd),
)

step_steps :
    (pk : Packet) (t : Trans)
    → (not (packet_cmd pk == 0x25) && not (packet_cmd pk == 0x32)) ≡ false
    → packet_errno pk ≡ none
    → trans_too_big pk t ≡ false
    → trans_step pk t
      ≡ trans_setup pk t (
          append_to
            (resized t.setup (setup_count pk * 2))
            (load pk.mem (words_at + 20) (setup_count pk * 2)))
unfolding trans_step
step_steps pk t cmd fine fits = rw (cmd, fine, fits)

-- The transaction behind the setup words.
abbrev cut_to : Packet → Block → Trans → Trans
cut_to pk s t = record {
  setup = s;
  param = resized t.param (total_param_count pk);
  data_block = resized t.data_block (total_data_count pk);
}

setup_steps :
    (pk : Packet) (t : Trans) (s p d : Block)
    → put_part pk
        (param_count pk)
        (param_displacement pk)
        (param_offset pk)
        (resized t.param (total_param_count pk))
      ≡ put p
    → put_part pk
        (data_count pk)
        (data_displacement pk)
        (data_offset pk)
        (resized t.data_block (total_data_count pk))
      ≡ put d
    → trans_setup pk t (some s) ≡ trans_test (record { setup = s; param = p; data_block = d })
unfolding trans_setup trans_param trans_data
setup_steps pk t s p d hp hd =
    ap (trans_param pk (cut_to pk s t)) hp
    ∙ ap (trans_data (record (cut_to pk s t) { param = p })) hd

-- What a message with the next parts makes of a transaction.
abbrev pub Continues : Packet → Trans → Bytes → Bytes → ℕ → ℕ → Type 0
Continues pk t dp dd np nd =
    (t' : Trans) × (trans_step pk t ≡ trans_test t') × HoldingCut np nd dp dd t'

step-Holding_totals :
    (pk : Packet) (ps ds dp dd : Bytes) (t : Trans)
    → Carries pk (total_param_count pk) (total_data_count pk) (length dp) (length dd) ps ds
    → Holding (total_param_count pk) (total_data_count pk) dp dd t
    → length dp + length ps ≤ total_param_count pk
    → length dd + length ds ≤ total_data_count pk
    → Continues pk t (dp ++ ps) (dd ++ ds) (total_param_count pk) (total_data_count pk)
step-Holding_totals pk ps ds dp dd t c v hp hd =
    let np = total_param_count pk in
    let nd = total_data_count pk in
    let n = setup_count pk * 2 in
    let (fits, cmd) = step_begins pk np nd ps ds dp dd t c v in
    let words = load pk.mem (words_at + 20) n in
    let none_there : n ≡ 0 = omega (arith, c.no_setup) in
    let (s', puts_setup, s_ok, s_point) =
      setup_put t.setup n words v.setup_block v.setup_point
        (length-load n pk.mem (words_at + 20) ∙ none_there) in
    let (p', puts_param, p_cut) =
      put_part-Cut 1024 np _ _ _ pk dp ps (resized t.param np)
        (resized-Cut 1024 np dp t.param v.param) c.param hp in
    let (d', puts_data, d_cut) =
      put_part-Cut 61440 nd _ _ _ pk dd ds (resized t.data_block nd)
        (resized-Cut 61440 nd dd t.data_block v.datas) c.data_part hd in
    (
      record { setup = s'; param = p'; data_block = d' },
      step_steps pk t cmd c.fine fits
          ∙ ap (trans_setup pk t) puts_setup
          ∙ setup_steps pk t s' p' d' puts_param puts_data,
      (
        record { setup_block = s_ok; setup_point = s_point; param = p_cut.0; datas = d_cut.0 },
        p_cut.1,
        d_cut.1,
      ),
    )

-- A message that carries the next parts puts them behind those that have come.
pub step-Holding :
    (pk : Packet) (np nd : ℕ) (ps ds dp dd : Bytes) (t : Trans)
    → Carries pk np nd (length dp) (length dd) ps ds
    → Holding np nd dp dd t
    → length dp + length ps ≤ np
    → length dd + length ds ≤ nd
    → Continues pk t (dp ++ ps) (dd ++ ds) np nd
step-Holding pk np nd ps ds dp dd t c =
    subst (Claim np) c.datas
      (subst (λ n. Claim n (total_data_count pk)) c.params (step-Holding_totals pk ps ds dp dd t)) c
  where
    Claim : ℕ → ℕ → Type 0
    Claim n k =
        Carries pk n k (length dp) (length dd) ps ds
        → Holding n k dp dd t
        → length dp + length ps ≤ n
        → length dd + length ds ≤ k
        → Continues pk t (dp ++ ps) (dd ++ ds) n k
