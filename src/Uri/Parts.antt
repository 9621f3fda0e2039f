-- ===== src/Uri/Parts.antt =====
-- The parts of a share address, written down and parsed.
use cifscp.Base.{
  ℕ, ◌≡◌, refl, ◌∙◌, ◌≢◌, ◌⊎◌, inl, inr, false, Option, none, some, [], ◌∷◌, ◌++◌, arith,
}
use cifscp.Base.Strings.{Bytes, codes}
use cifscp.Cstring.{c_str, same_start, strstr}
use cifscp.Cstring.Search.{
  has, has-append, strchr-append, strchr-none, strrchr-append, strrchr-none, c_str_self,
}
use cifscp.Uri.{
  Uri, cifs, blank, parse_user, parse_host, parse_authority, parse_path, parse_tree, parse_rest,
  parse_scheme, unescape, uri_parse, parsed,
}
use cifscp.Uri.Unescape.{unescape_self}
use cifscp.Uri.Text.{
  User, Port, Tail, Parts, user_text, host_text, tail_text, rest_text, uri_text, Plain, UserPlain,
  PortPlain, TailPlain, IsParts, with_user, with_port, with_tail, parts_uri, user_only,
  with_password, no_port, port_only, addr_port, in_root, in_dir,
}

parse_host-text :
    (host : Bytes) (port : Port) (u : Uri)
    → Plain (codes ":@/") host
    → PortPlain port
    → parse_host (host_text host port) u ≡ with_port host port u
unfolding parse_host
parse_host-text host no_port u h p = ground (arith, strchr-none b':' host)
parse_host-text host (port_only q) u h p =
    ground (arith, strchr-append b':' host q, strrchr-none b':' q)
parse_host-text host (addr_port a q) u h p =
    ground (arith, strchr-append b':' host (a ++ (b':' ∷ q)), strrchr-append b':' a q)

abbrev info : User → Bytes
info (user_only n) = n
info (with_password n p) = n ++ (b':' ∷ p)

parse_user-text :
    (n : User) (u : Uri) → UserPlain (some n) → parse_user (info n) u ≡ with_user (some n) u
unfolding parse_user
parse_user-text (user_only n) u h = ground (arith, strchr-none b':' n)
parse_user-text (with_password n p) u h = ground (arith, strchr-append b':' n p)

parse_path-text : (t : Tail) (u : Uri) → TailPlain t → parse_path (tail_text t) u ≡ with_tail t u
unfolding parse_path
parse_path-text (in_root n) u h = ground (arith, strrchr-none b'/' n)
parse_path-text (in_dir d n) u h = ground (arith, strrchr-append b'/' d n)

-- Neither `@` nor `/` stands in the host part, and `/` nowhere before the first slash.
host_text-Plain :
    (c : ℕ) (host : Bytes) (port : Port)
    → Plain (codes ":@/") host
    → PortPlain port
    → (c ≡ b'@') ⊎ (c ≡ b'/')
    → has c (host_text host port) ≡ false
host_text-Plain c host no_port h p k = ground arith
host_text-Plain c host (port_only q) h p k = ground (arith, has-append c host (b':' ∷ q))
host_text-Plain c host (addr_port a q) h p k =
    ground (arith, has-append c host (b':' ∷ (a ++ (b':' ∷ q))), has-append c a (b':' ∷ q))

info-Plain :
    (c : ℕ) (n : User) → UserPlain (some n) → (c ≡ b'@') ⊎ (c ≡ b'/') → has c (info n) ≡ false
info-Plain c (user_only n) h k = ground arith
info-Plain c (with_password n p) h k = ground (arith, has-append c n (b':' ∷ p))

user_text-info : (n : User) (rest : Bytes) → user_text (some n) rest ≡ info n ++ (b'@' ∷ rest)
user_text-info (user_only n) rest = refl
user_text-info (with_password n p) rest = refl

authority-Plain :
    (p : Parts) → IsParts p → has b'/' (user_text p.user (host_text p.host p.port)) ≡ false
authority-Plain p v = by_user p.user v.user_plain
  where
    by_user :
        (u : Option User) → UserPlain u → has b'/' (user_text u (host_text p.host p.port)) ≡ false
    by_user none h = host_text-Plain b'/' p.host p.port v.host_plain v.port_plain (inr refl)
    by_user (some n) h = rw (user_text-info n (host_text p.host p.port)) (
        ground (
          arith,
          has-append b'/' (info n) (b'@' ∷ host_text p.host p.port),
          info-Plain b'/' n h (inr refl),
          host_text-Plain b'/' p.host p.port v.host_plain v.port_plain (inr refl),
        ))

parse_authority-text :
    (user : Option User) (host : Bytes) (port : Port) (u : Uri)
    → UserPlain user
    → Plain (codes ":@/") host
    → PortPlain port
    → parse_authority (user_text user (host_text host port)) u
      ≡ with_port host port (with_user user u)
unfolding parse_authority
parse_authority-text none host port u hu hh hp =
    rw
      (
        strchr-none b'@' (host_text host port) (host_text-Plain b'@' host port hh hp (inl refl)),
        parse_authority,
      )
      (parse_host-text host port u hh hp)
parse_authority-text (some n) host port u hu hh hp =
    rw
      (
        user_text-info n (host_text host port),
        strchr-append b'@' (info n) (host_text host port) (info-Plain b'@' n hu (inl refl)),
        parse_user-text n u hu,
        parse_authority,
      )
      (parse_host-text host port (with_user (some n) u) hh hp)

parse_tree-text :
    (tree : Bytes) (t : Tail) (u : Uri)
    → Plain (codes "/") tree
    → tree ≢ []
    → TailPlain t
    → parse_tree (tree ++ (b'/' ∷ tail_text t)) u ≡ with_tail t (record u { tree = some tree })
unfolding parse_tree
parse_tree-text [] t u h ne k = absurd (ne refl)
parse_tree-text (c ∷ cs) t u h ne k =
    rw (strchr-append b'/' (c ∷ cs) (tail_text t) h.0, parse_tree)
      (parse_path-text t (record u { tree = some (c ∷ cs) }) k)

parse_rest-text : (p : Parts) → IsParts p → parse_rest cifs (rest_text p) ≡ parts_uri p
unfolding parse_rest
parse_rest-text p v =
    rw
      (
        strchr-append b'/' (user_text p.user (host_text p.host p.port))
            (p.tree ++ (b'/' ∷ tail_text p.tail)) (authority-Plain p v),
        parse_authority-text p.user p.host p.port (blank cifs) v.user_plain v.host_plain
            v.port_plain,
        parse_rest,
      )
      (parse_tree-text p.tree p.tail _ v.tree_plain v.tree_some v.tail_plain)

uri_parse_steps : (s : Bytes) → uri_parse s ≡ parsed (parse_scheme (c_str (unescape s)))
unfolding uri_parse
uri_parse_steps s = refl

parse_scheme-cifs : (a : Bytes) → parse_scheme (codes "cifs://" ++ a) ≡ some (cifs, a)
unfolding parse_scheme strstr same_start
parse_scheme-cifs a = refl

-- Parsing the text of an address gives its parts: user, password, host, address, port, share, and
-- the path with its directory and last component, those that are missing staying NULL. The parts
-- must not hold the bytes that end them, and the text no `%`, since escapes are resolved before the
-- text is taken apart.
pub uri_parse-uri_text : (p : Parts) → IsParts p → uri_parse (uri_text p) ≡ some (parts_uri p)
uri_parse-uri_text p v =
    uri_parse_steps (uri_text p)
    ∙ rw (
      unescape_self (uri_text p) v.no_escape,
      c_str_self (uri_text p) v.no_nul,
      parse_scheme-cifs (rest_text p),
      parse_rest-text p v,
    )
