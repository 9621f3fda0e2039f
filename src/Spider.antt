-- ===== src/Spider.antt =====
-- cifs_spider.c: `main` and `cifs_dump`, which number the files of a share. The walk itself is
-- Walk.dump_dir.
use cifscp.Base.{ℕ, Option, none, some, List, [], ◌∷◌}
use cifscp.Base.Strings.{Bytes}
use cifscp.Uri.{Uri, uri_parse}
use cifscp.Connect.{Conn}
use cifscp.Walk.{Setting, Record, dump_dir}
use cifscp.Program.{Reply, reply, ◌>>=◌, called, Dial, connect_uri}

-- The lines of a dump, with the number of the last one; an error of `cifs_opendir` leaves none.
abbrev lines_of : Option (ℕ × List Record) → List Record
lines_of none = []
lines_of (some s) = s.1

-- Behind `cifs_connect`: eight directories deep.
abbrev dump_connected : Setting → Uri → Option Conn → Reply (List Record)
dump_connected g u none = reply []
dump_connected g u (some c) = called (dump_dir g 8 u.path 0 (0, []) c) >>= λ s. reply (lines_of s)

-- `cifs_dump`, whose result is not used.
unfoldable pub dump : Setting → Dial → Uri → Reply (List Record)
unfolding connect_uri dump_dir
dump g dial u = connect_uri g dial u >>= dump_connected g u

-- How `main` ends.
pub record Dumped : Type 0 where
  pub status : ℕ
  pub lines : List Record

abbrev dump_parsed : Setting → Dial → Option Uri → Reply Dumped
dump_parsed g dial none = reply (record { status = 2; lines = [] })
dump_parsed g dial (some u) = dump g dial u >>= λ ls. reply (record { status = 0; lines = ls })

-- `main`, with its arguments: only the first one is read.
unfoldable pub spider_main : Setting → Dial → List Bytes → Reply Dumped
unfolding dump uri_parse
spider_main g dial [] = reply (record { status = 2; lines = [] })
spider_main g dial (address ∷ more) = dump_parsed g dial (uri_parse address)
