-- ===== src/Tests/Packets.antt =====
-- A request under construction, sent and parsed.
use cifscp.Base.{
  ◌+◌, ◌*◌, ◌≡◌, refl, ◌↔◌, none, some, [], ◌∷◌, ◌++◌, arith, ltb, if◌then◌else◌, replicate,
}
use cifscp.Base.Strings.{Bytes, codes}
use cifscp.Memory.{Mem, zeroed, store, load, le16}
use cifscp.Buffer.{buf_new, buf_size, buf_len}
use cifscp.Packet.{
  Packet, cmd_at, wc_at, words_at, packet_parse, packet_unparse, packet_length, packet_errno,
  error_class_at,
}
use cifscp.Packet.Parse.{data_buf, packet_parse_iff, packet_parse_local, IsMessage}
use cifscp.Packet.RoundTrip.{IsOpen, Received, parse-unparse}
use mathlib.Core.Option

abbrev pub magic : Bytes
magic = 0xff ∷ codes "SMB"

-- The command 0x2e with no word and two bytes of data.
abbrev pub hello : Packet
hello = record {
  mem = store (store (store zeroed 4 magic) 8 (0x2e ∷ [])) 39 (codes "hi");
  p = record { b = 0; p = 0; e = 65539; x = 65539 };
  b = record { b = 39; p = 41; e = 65539; x = 65539 };
}

pub hello-IsOpen : IsOpen hello
unfolding store
hello-IsOpen = record {
  magic = refl;
  begins = refl;
  wc_byte = omega arith;
  behind_words = refl;
  point_from = omega arith;
  point_to = omega arith;
}

abbrev copy : Packet
copy = record {
  mem = (packet_unparse hello).0.mem;
  p = record { b = 0; p = 41; e = 41; x = 65539 };
  b = buf_new 0;
}

sent_bytes :
    load (packet_unparse hello).0.mem 0 41
    ≡ 0 ∷ 0 ∷ 0 ∷ 37 ∷ magic ++ (0x2e ∷ replicate 28 0) ++ (2 ∷ 0 ∷ codes "hi")
unfolding packet_unparse store load le16
sent_bytes = refl

copy-Received : Received (packet_unparse hello) copy
unfolding packet_unparse
copy-Received = record { begins = refl; size = refl; bytes = λ i lt. refl }

parse-unparse_example :
    (packet_parse copy ≡ some (record copy { b = data_buf copy.mem }))
    × (copy.mem cmd_at ≡ hello.mem cmd_at)
    × (copy.mem wc_at ≡ hello.mem wc_at)
    × (load copy.mem words_at (2 * hello.mem wc_at) ≡ load hello.mem words_at (2 * hello.mem wc_at))
    × (load copy.mem (data_buf copy.mem).b (buf_size (data_buf copy.mem))
        ≡ load hello.mem hello.b.b (buf_len hello.b))
    × (packet_length copy + 4 ≡ copy.p.e)
parse-unparse_example = parse-unparse hello copy hello-IsOpen copy-Received

packet_parse_iff_example : (packet_parse copy ≡ some (record copy { b = data_buf copy.mem })) ↔ (
    IsMessage copy.mem copy.p.e
    × (◌≡◌ {A = Packet}
        (record copy { b = data_buf copy.mem })
        (record copy { b = data_buf copy.mem })))
packet_parse_iff_example = packet_parse_iff copy (record copy { b = data_buf copy.mem }) refl

abbrev elsewhere : Mem
elsewhere i = if ltb i 41 then copy.mem i else 7

packet_parse_local_example :
    packet_parse (record copy { mem = elsewhere })
    ≡ Option.map {A = Packet} (λ q. record q { mem = elsewhere }) (packet_parse copy)
packet_parse_local_example = packet_parse_local copy elsewhere refl (λ i lt. ground arith)

-- An error of the class ERRHRD is taken for a success.
hard_error :
    packet_errno (record hello { mem = store hello.mem error_class_at (3 ∷ 0 ∷ 31 ∷ 0 ∷ []) })
    ≡ none
unfolding packet_errno store cifscp.Memory.get16
hard_error = refl
