-- ===== src/Tests/Uris.antt =====
-- Addresses of shares, parsed.
use cifscp.Base.{◌≤◌, ◌≡◌, refl, some, [], arith, length}
use cifscp.Base.Strings.{codes}
use cifscp.Cstring.{same_start}
use cifscp.Uri.{uri_parse, unescape, file, scheme_named}
use cifscp.Uri.Unescape.{encode, unescape-encode, length-unescape}
use cifscp.Uri.Text.{Parts, IsParts, uri_text, parts_uri, with_password, addr_port, in_dir}
use cifscp.Uri.Parts.{uri_parse-uri_text}

abbrev share : Parts
share = record {
  user = some (with_password (codes "joe") (codes "pw"));
  host = codes "SRV";
  port = addr_port (codes "10.0.0.1") (codes "139");
  tree = codes "pub";
  tail = in_dir (codes "a/b") (codes "c.txt");
}

share-IsParts : IsParts share
share-IsParts = record {
  user_plain = ((refl, (refl, (refl, tt))), (refl, (refl, tt)));
  host_plain = (refl, (refl, (refl, tt)));
  port_plain = ((refl, (refl, tt)), (refl, (refl, (refl, tt))));
  tree_plain = (refl, tt);
  tree_some = ground arith;
  tail_plain = (refl, tt);
  no_escape = refl;
  no_nul = refl;
}

share_text : uri_text share ≡ codes "cifs://joe:pw@SRV:10.0.0.1:139/pub/a/b/c.txt"
share_text = refl

uri_parse-uri_text_example : uri_parse (uri_text share) ≡ some (parts_uri share)
uri_parse-uri_text_example = uri_parse-uri_text share share-IsParts

-- Any prefix of a scheme's name is taken for it, even none.
empty_scheme : scheme_named [] (codes "h/t/p") ≡ some (file, codes "h/t/p")
unfolding scheme_named same_start
empty_scheme = refl

unescape-encode_example : unescape (encode (codes "a%b")) ≡ codes "a%b"
unescape-encode_example =
    unescape-encode (codes "a%b") (omega arith, (omega arith, (omega arith, tt)))

length-unescape_example : length (unescape (codes "%41b")) ≤ length (codes "%41b")
length-unescape_example = length-unescape (codes "%41b")
