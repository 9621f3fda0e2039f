-- ===== src/Tests/Links.antt =====
-- A message received in pieces, behind a keep-alive.
use cifscp.Base.{ℕ, ◌*◌, ◌<◌, ◌≡◌, refl, true, false, [], ◌∷◌, ◌++◌, arith, length, take, drop}
use cifscp.Base.Strings.{Bytes, codes}
use cifscp.Memory.{zeroed, store, load, le16}
use cifscp.Buffer.{buf_new, buf_size, buf_len, buf_inc}
use cifscp.Packet.{packet_unparse, cmd_at, words_at, wc_at}
use cifscp.Transport.{
  chunk, Input, recv, accept, refuse, Link, received, recv_loop, cifs_recv, cifs_send, send_loop,
}
use cifscp.Transport.Stream.{stream, IsLive}
use cifscp.Transport.Framing.Header.{Frames, session, other, nbt, Holds}
use cifscp.Transport.Framing.Message.{recv_loop-Frames}
use cifscp.Transport.Sending.{send_loop_prefix}
use cifscp.Transport.EndToEnd.{recv-send}
use cifscp.Connect.{recv_async}
use cifscp.Connect.Polling.{poll}
use cifscp.Connect.Polls.{poll-Frames}
use cifscp.Raw.{recv_raw}
use cifscp.Raw.Framed.{recv_raw-Frames, Ends}
use cifscp.Nbt.{nbt_name}
use cifscp.Nbt.Name.{decoded, padded, nbt_name-decoded}
use cifscp.Tests.Packets.{hello, hello-IsOpen}

abbrev waiting : Input → Link
waiting inp = record {
  i = record { mem = zeroed; p = record { b = 0; p = 0; e = 4; x = 65539 }; b = buf_new 0 };
  inp = inp;
}

-- A keep-alive (type 0x85), and a session message of three bytes, cut in four.
abbrev pieces : Input
pieces =
    chunk (0x85 ∷ 0 ∷ [])
    ∷ chunk (0 ∷ 0 ∷ 0 ∷ [])
    ∷ chunk (0 ∷ 0 ∷ 3 ∷ b'a' ∷ [])
    ∷ chunk (codes "bcd")
    ∷ []

abbrev three : Bytes
three = nbt 0 0 0 3 ++ codes "abc"

pieces-Frames : Frames three (codes "d") (stream pieces)
pieces-Frames =
    other 0x85 0 0 0 [] (omega arith)
      (record { high = omega arith; low = omega arith; size = refl }) refl
      (session 0 0 3 (codes "abc") (record { high = omega arith; low = omega arith; size = refl })
        refl refl)

recv_loop-Frames_example :
    (l' : Link) × (recv_loop 20 (waiting pieces) ≡ received l') × Holds three (codes "d") l'
recv_loop-Frames_example =
    recv_loop-Frames 20 (waiting pieces) pieces-Frames
      (record { begins = refl; point = refl; end = refl; limit = refl }) (omega arith) refl
      (omega arith)

poll-Frames_example :
    (l' : Link) × (poll 12 (waiting pieces) ≡ received l') × Holds three (codes "d") l'
poll-Frames_example =
    poll-Frames 12 (waiting pieces) pieces-Frames (omega arith)
      (record { begins = refl; point = refl; end = refl; limit = refl }) (omega arith) refl
      (omega arith)

abbrev cut_message : Input
cut_message =
    chunk (0 ∷ 0 ∷ []) ∷ chunk (drop 2 (cifs_send hello (accept 3 ∷ accept 99 ∷ [])).2) ∷ []

sent : (cifs_send hello (accept 3 ∷ accept 99 ∷ [])).1 ≡ true
unfolding cifs_send packet_unparse load
sent = refl

cut_message-stream : stream cut_message ≡ (cifs_send hello (accept 3 ∷ accept 99 ∷ [])).2 ++ []
unfolding cifs_send packet_unparse load store le16
cut_message-stream = refl

cut_message-IsLive : IsLive cut_message
unfolding cifs_send packet_unparse load
cut_message-IsLive = omega arith

cut_message-short : length (stream cut_message) < 50
unfolding cifs_send packet_unparse load
cut_message-short = omega arith

recv-send_example :
    (l' : Link) × (cifs_recv 50 (waiting cut_message) ≡ received l')
    × (l'.i.mem cmd_at ≡ hello.mem cmd_at)
    × (load l'.i.mem words_at (2 * hello.mem wc_at) ≡ load hello.mem words_at (2 * hello.mem wc_at))
    × (load l'.i.mem l'.i.b.b (buf_size l'.i.b) ≡ load hello.mem hello.b.b (buf_len hello.b))
    × (stream l'.inp ≡ [])
recv-send_example =
    recv-send hello (accept 3 ∷ accept 99 ∷ []) (waiting cut_message) [] 50 hello-IsOpen
      (unfold store in refl) sent refl refl cut_message-IsLive cut_message-stream cut_message-short

send_loop_prefix_example :
    (k : ℕ) × ((send_loop (accept 2 ∷ refuse ∷ []) (codes "abc") []).1 ≡ [] ++ take k (codes "abc"))
    × ((send_loop (accept 2 ∷ refuse ∷ []) (codes "abc") []).0 ≡ true
        → take k (codes "abc") ≡ codes "abc")
    × ((send_loop (accept 2 ∷ refuse ∷ []) (codes "abc") []).0 ≡ false → k < length (codes "abc"))
send_loop_prefix_example = send_loop_prefix (accept 2 ∷ refuse ∷ []) (codes "abc") []

recv_raw-Frames_example : Ends 2 (codes "abc") (codes "d") (recv_raw 30 2 pieces)
recv_raw-Frames_example = recv_raw-Frames 30 2 pieces pieces-Frames (omega arith) refl (omega arith)

nbt_name-decoded_example :
    (letters : Bytes) × (nbt_name (codes "fred") ≡ 32 ∷ letters ++ (0 ∷ []))
    × (length letters ≡ 32)
    × (decoded letters ≡ padded 16 (codes "fred"))
nbt_name-decoded_example =
    nbt_name-decoded (codes "fred") (omega arith, (omega arith, (omega arith, (omega arith, tt))))

-- The example of RFC 1001.
fred : nbt_name (codes "FRED") ≡ 32 ∷ codes "EGFCEFEECACACACACACACACACACACACA" ++ (0 ∷ [])
unfolding nbt_name
fred = refl

-- A session message of three bytes that lacks its last one.
abbrev lacks_one : Link
lacks_one = record {
  i = record { mem = zeroed; p = record { b = 0; p = 6; e = 7; x = 65539 }; b = buf_new 0 };
  inp = chunk (codes "cd") ∷ [];
}

lacks_one-arrives :
    recv_async lacks_one
    ≡ received (record {
      i = record {
        mem = store zeroed 6 (codes "c");
        p = record { b = 0; p = 7; e = 7; x = 65539 };
        b = buf_new 0;
      };
      inp = chunk (codes "d") ∷ [];
    })
unfolding recv_async recv buf_inc store
lacks_one-arrives = refl
