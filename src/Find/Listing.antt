-- ===== src/Find/Listing.antt =====
-- A directory of which the server has sent all entries, read to its end.
use cifscp.Base.{◌<◌, ◌≡◌, ◌⊎◌, List, [], ◌∷◌, if◌then◌else◌, length}
use cifscp.Base.Strings.{Bytes}
use cifscp.Codepage.{Iconv}
use cifscp.Packet.{enoent}
use cifscp.Transport.{code}
use cifscp.Connect.{Conn, Outcome, done}
use cifscp.Find.{Dir, Dirent, Next, entry, null, is_dots}
use cifscp.Find.Entries.{shown, Rests, behind}

-- What reading an entry comes to: it is passed over, or returned.
abbrev Reads :
    (Dir → Conn → Outcome (Dir × Next)) → Dir → Bytes → Dirent → Conn → Outcome (Dir × Next)
Reads next d name e c =
    if is_dots e then next (behind d name) c else done (behind d name, entry e) c

-- What `cifs_readdir` returns with the entries `es` left: the first that is shown, and the rest is
-- left; or NULL with ENOENT.
abbrev Gives : Iconv → List Dirent → Outcome (Dir × Next) → Conn → Type 0
Gives page es r c =
    ((e : Dirent) × (rest : List Dirent) × (d' : Dir) × (r ≡ done (d', entry e) c)
      × (shown es ≡ e ∷ shown rest)
      × (length rest < length es)
      × Rests page d' rest)
    ⊎ ((d' : Dir) × (r ≡ done (d', null (code enoent)) c) × (shown es ≡ []))
