-- ===== src/Tests/Walks.antt =====
-- A list of shares, the modes of a stream, and a dump.
use cifscp.Base.{[], ◌∷◌, ◌++◌, replicate}
use cifscp.Base.Strings.{codes}
use cifscp.Memory.{zeroed, store, le16, le32}
use cifscp.Transact.{Trans}
use cifscp.Walk.{Setting}
use cifscp.Tests.Listings.{plain, fresh}

-- One share, whose comment stands behind its record.
abbrev shares : Trans
shares = record fresh {
  param = record {
    mem = store zeroed 0 (le16 0 ++ le16 0 ++ le16 1 ++ le16 1);
    buf = record { b = 0; p = 0; e = 8; x = 1024 };
  };
  data_block = record {
    mem =
        store zeroed 0
          (codes "PUB" ++ replicate 11 0 ++ le16 0 ++ le32 20 ++ codes "files" ++ (0 ∷ []));
    buf = record { b = 0; p = 0; e = 26; x = 61440 };
  };
}

abbrev pub setting : Setting
setting = record {
  fuel = 9;
  pages = record { to_oem = plain; to_ucs = plain };
  page = plain;
  trans = fresh;
  area = zeroed;
}
