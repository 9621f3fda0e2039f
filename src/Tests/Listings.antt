-- ===== src/Tests/Listings.antt =====
-- A directory of two entries, and requests for files.
use cifscp.Base.{
  ◌≤◌, ◌<◌, ◌≡◌, refl, true, false, none, some, List, [], ◌∷◌, ◌++◌, arith, length, replicate,
}
use cifscp.Base.Strings.{codes}
use cifscp.Cstring.{pos, same_string}
use cifscp.Memory.{Mem, zeroed, store, get32, le32}
use cifscp.Codepage.{Iconv, converted}
use cifscp.Connect.{Conn}
use cifscp.Packet.{Packet}
use cifscp.Buffer.{buf_new}
use cifscp.Proto.Files.{OpenFlags, open_disposition, write_draft, write_share}
use cifscp.Proto.Disposition.{on_server, posix_open, open_disposition_lem}
use cifscp.Proto.WriteRequest.{IsWrite, write_draft_lem}
use cifscp.Transact.{Trans, trans_new}
use cifscp.Find.{Dir, Dirent, build_stat}
use cifscp.Find.Entries.{listed, shown}
use cifscp.Tests.Answers.{asking}

-- A code page that changes nothing.
abbrev pub plain : Iconv
plain inp room = record { taken = length inp; out = inp; status = converted }

-- A directory's entry `.` and a file's, 68 bytes on.
abbrev block : Mem
block = store zeroed 0 (
    le32 68
    ++ replicate 52 0
    ++ le32 16
    ++ le32 1
    ++ codes ".   "
    ++ (le32 0 ++ replicate 52 0 ++ le32 0 ++ le32 2 ++ codes "ab"))

abbrev pub fresh : Trans
fresh = trans_new zeroed zeroed zeroed

abbrev dir : Dir
dir = record {
  trans = record fresh {
    data_block = record { mem = block; buf = record { b = 0; p = 0; e = 140; x = 61440 } };
  };
  sid = 1;
  end = 1;
  count = 2;
  base = codes "p/";
  area = zeroed;
}

abbrev entries : List Dirent
entries = listed block (codes "p/") 0 (codes ".") ∷ listed block (codes "p/") 68 (codes "ab") ∷ []

one_shown : shown entries ≡ listed block (codes "p/") 68 (codes "ab") ∷ []
unfolding build_stat get32 store le32 same_string
one_shown = refl

abbrev create : OpenFlags
create = record {
  directory = false;
  rdwr = false;
  wronly = true;
  creat = true;
  excl = false;
  trunc = true;
}

open_disposition_lem_example : on_server (open_disposition create) true ≡ posix_open create true
open_disposition_lem_example = open_disposition_lem create true

abbrev writing : Conn
writing = record asking {
  o = record { mem = zeroed; p = record { b = 0; p = 0; e = 65539; x = 65539 }; b = buf_new 0 };
  max_buffer_size = pos 3;
}

write_draft_lem_example :
    (length (write_share (codes "abcd") (pos 3)) ≤ 65472
      → (o : Packet) × (write_draft 7 5000000000 (codes "abcd") writing ≡ some o)
        × IsWrite 7 5000000000 (write_share (codes "abcd") (pos 3)) o)
    × (65472 < length (write_share (codes "abcd") (pos 3))
        → write_draft 7 5000000000 (codes "abcd") writing ≡ none)
write_draft_lem_example =
    write_draft_lem 7 5000000000 (codes "abcd") writing refl refl (omega arith) (omega arith)
      (omega arith)
