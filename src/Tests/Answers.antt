-- ===== src/Tests/Answers.antt =====
-- A request and its answer.
use cifscp.Base.{ℕ, ◌+◌, ◌≡◌, refl, inl, inr, [], ◌∷◌, ◌++◌, arith, length, replicate}
use cifscp.Base.Strings.{Bytes, codes}
use cifscp.Memory.{zeroed, store, load, get16, le16}
use cifscp.Packet.{packet_errno, packet_range, packet_length, packet_parse}
use cifscp.Transport.{Input, chunk, accept, recv, recv_got, cifs_recv}
use cifscp.Buffer.{buf_inc, buf_set, buf_resize}
use cifscp.Connect.{Conn, connect_new, Outcome, conn_recv, done}
use cifscp.Connect.Request.{After}
use cifscp.Proto.Files.{read_andx_recv}
use cifscp.Proto.ReadBounds.{FromMessage, read_andx_recv-FromMessage}
use cifscp.Transact.{Trans, trans_new, trans_recv}
use cifscp.Transact.Blocks.{IsTrans}
use cifscp.Transact.Safe.{RunSafe, trans_recv-RunSafe}
use cifscp.Transact.Gathered.{Carries, present}
use cifscp.Transact.Whole.{last, next, Delivered, trans_recv-Delivered}
use cifscp.Tests.Packets.{hello, magic}

-- The words of a transaction's answer: three bytes of parameters and two of data in all.
abbrev words : ℕ → ℕ → ℕ → ℕ → ℕ → ℕ → Bytes
words pc po pd dc do_ dd =
    le16 3
    ++ le16 2
    ++ le16 0
    ++ le16 pc
    ++ le16 po
    ++ le16 pd
    ++ le16 dc
    ++ le16 do_
    ++ le16 dd
    ++ le16 0

-- Header, 10 words, and `body` behind the byte count, which begins at offset 55 of the message.
abbrev message : Bytes → Bytes → Bytes
message ws body =
    (0 ∷ 0 ∷ 0 ∷ (55 + length body) ∷ [])
    ++ magic
    ++ (0x32 ∷ replicate 27 0)
    ++ (10 ∷ ws)
    ++ le16 (length body)
    ++ body

abbrev first_message : Bytes
first_message = message (words 2 55 0 1 57 0) (codes "abx")

abbrev second_message : Bytes
second_message = message (words 1 55 2 1 56 1) (codes "cy")

abbrev conn : Input → Conn
conn inp = connect_new zeroed zeroed (codes "SRV") inp (accept 99 ∷ [])

abbrev start : Conn
start = conn (chunk first_message ∷ chunk second_message ∷ [])

abbrev trans : Trans
trans = trans_new zeroed zeroed zeroed

trans-IsTrans : IsTrans trans
unfolding trans_new
trans-IsTrans = record {
  setup_block = record { begins = refl; limit = refl; point = omega arith; end = omega arith };
  param_block = record { begins = refl; limit = refl; point = omega arith; end = omega arith };
  data_block = record { begins = refl; limit = refl; point = omega arith; end = omega arith };
}

-- The connection that a call leaves.
abbrev left_by : Outcome Unit → Conn
left_by (done u c) = c
left_by _ = start

abbrev one : Conn
one = left_by (conn_recv 300 start)

abbrev two : Conn
two = left_by (conn_recv 300 one)

first_comes : conn_recv 300 start ≡ done tt one
unfolding conn_recv cifs_recv recv_got recv connect_new buf_inc buf_set buf_resize store
    packet_length le16 packet_parse get16
first_comes = refl

second_comes : conn_recv 300 one ≡ done tt two
unfolding conn_recv cifs_recv recv_got recv connect_new buf_inc buf_set buf_resize store
    packet_length le16 packet_parse get16
second_comes = refl

first-Carries : Carries one.i 3 2 0 0 (codes "ab") (codes "x")
unfolding conn_recv cifs_recv recv_got recv connect_new buf_inc buf_set buf_resize store
    packet_length le16 packet_parse get16 packet_errno packet_range load
first-Carries = record {
  cmd = inr refl;
  fine = refl;
  no_setup = refl;
  params = refl;
  datas = refl;
  param = present 55 b'a' (codes "b") refl refl;
  data_part = present 57 b'x' [] refl refl;
}

second-Carries : Carries two.i 3 2 2 1 (codes "c") (codes "y")
unfolding conn_recv cifs_recv recv_got recv connect_new buf_inc buf_set buf_resize store
    packet_length le16 packet_parse get16 packet_errno packet_range load
second-Carries = record {
  cmd = inr refl;
  fine = refl;
  no_setup = refl;
  params = refl;
  datas = refl;
  param = present 55 b'c' [] refl refl;
  data_part = present 56 b'y' [] refl refl;
}

trans_recv-Delivered_example :
    (t' : Trans) × (trans_recv 300 5 trans start ≡ done t' two)
    × Delivered (codes "abc") (codes "xy") t'
trans_recv-Delivered_example =
    trans_recv-Delivered (codes "abc") (codes "xy") 300 5 2 trans start two trans-IsTrans
      (omega arith) (omega arith)
      (next (codes "ab") (codes "x") one first_comes first-Carries (inl (omega arith))
        (last (codes "c") (codes "y") second_comes second-Carries refl refl))
      (omega arith)

trans_recv-RunSafe_example : RunSafe (trans_recv 300 5 trans start)
trans_recv-RunSafe_example = trans_recv-RunSafe 300 5 trans start trans-IsTrans

abbrev pub asking : Conn
asking = record (conn (chunk first_message ∷ [])) {
  o = record hello { mem = store hello.mem 8 (0x32 ∷ []) };
}

read_andx_recv-FromMessage_example :
    After (λ bs c'. FromMessage 9 bs c'.i) (read_andx_recv 300 9 asking)
read_andx_recv-FromMessage_example = read_andx_recv-FromMessage 300 9 asking
