-- ===== src/Tests/Mounts.antt =====
-- A file system in user space over a library with one file.
use cifscp.Base.{
  ℕ, zero, suc, ◌+◌, ◌≤◌, ◌<◌, min, ◌≡◌, refl, ap, ◌∙◌, true, Option, none, some, List, [], ◌∷◌,
  arith, ◌==◌, if◌then◌else◌, length, take, drop, length-take, take-nil, take_self, drop-all,
}
use cifscp.Base.Strings.{Bytes, codes}
use cifscp.Fuse.{MountPath, split_path, text, Host, Fuse, connect_host, share_find, connect_share}
use cifscp.Fuse.Places.{Place}
use cifscp.Fuse.Interface.{Entry, Library}
use cifscp.Fuse.Calls.{answer, with_world, fuse_connect, fuse_read}
use cifscp.Fuse.Serve.{FuseCall, getattrs, readdirs, reads, fuse_main}
use cifscp.Fuse.Paths.{Splits, split_path-Splits}
use cifscp.Fuse.Reading.{Serves, fuse_read-take}
use cifscp.Fuse.Order.{LeftKept, fuse_main-IsFuse}

abbrev text_file : Bytes
text_file = codes "hello"

abbrev served : ℕ → ℕ → Bytes
served size off = take (min 2 size) (drop off text_file)

-- A library with a file, read two bytes at a time; the world counts the reads. The server has the
-- share "pub" alone.
abbrev small : Library
small = record {
  World = ℕ;
  Handle = ℕ;
  Dir = List Entry;
  errno = λ w. 2;
  connect = λ s w. (some 7, w);
  connect_tree = λ s t w. (some 7, w);
  disconnect = λ k w. w;
  tree_connect = λ k s w. (if length s == 3 then some 1 else none, w);
  tree_switch = λ k t w. w;
  enum_share = λ k w. (some (codes "pub" ∷ []), w);
  enum_server = λ k g w. (some (codes "alpha" ∷ codes "beta" ∷ codes "alpha" ∷ []), w);
  stat = λ k p w. (none, w);
  opendir = λ k p w. (none, w);
  readdir = λ d w. (none, d, w);
  closedir = λ d w. w;
  open_file = λ k p n w. (some 3, w);
  read = λ k fid size off w. (some (served size off), w + 1);
  close_file = λ k fid w. w;
}

split_path-Splits_example : Splits (codes "//alpha/pub/a/b") (split_path (codes "//alpha/pub/a/b"))
split_path-Splits_example = split_path-Splits (codes "//alpha/pub/a/b")

parsed_path :
    split_path (codes "//alpha/pub/a/b")
    ≡ record { host = some (codes "alpha"); share = some (codes "pub"); path = some (codes "/a/b") }
unfolding split_path
parsed_path = refl

cut_front :
    (n off : ℕ) (xs : Bytes) (w : ℕ)
    → 0 < n
    → off < length xs
    → (c : ℕ) × (cs : Bytes) × (w' : ℕ) × (◌≡◌ {A = Option Bytes × ℕ}
        (some (take n (drop off xs)), w + 1)
        (some (c ∷ cs), w'))
      × (c ∷ cs ≡ take (length (c ∷ cs)) (drop off xs))
      × (length (c ∷ cs) ≤ n)
cut_front n off [] w h k = absurd (omega arith)
cut_front zero off (x ∷ xs) w h k = absurd (omega arith)
cut_front (suc n) zero (x ∷ xs) w h k =
    (x, take n xs, w + 1, refl, take_self (suc n) (x ∷ xs), omega (arith, length-take {0} n xs))
cut_front (suc n) (suc off) (x ∷ xs) w h k = cut_front (suc n) off xs w h (omega arith)

small-Serves : Serves small text_file 7 3
small-Serves = record {
  inside = λ size off w asks before.
      let (c, cs, w', got, same, most) =
        cut_front (min 2 size) off text_file w (omega (arith, asks)) before in
      (c, cs, w', got, same, omega (arith, most));
  behind = λ size off w past. (
    w + 1,
    ap (λ (t : Bytes). (some (take (min 2 size) t), w + 1)) (drop-all off text_file past)
        ∙ ap (λ (t : Bytes). (some t, w + 1)) (take-nil (min 2 size)),
  );
}

abbrev mounted : Fuse small
mounted = record {
  hosts = record { name = codes "alpha"; conn = some 7; shares = [] } ∷ [];
  world = 0;
}

abbrev alpha : Place (Host small)
alpha = record {
  before = [];
  here = record { name = codes "alpha"; conn = some 7; shares = [] };
  after = [];
}

abbrev hello_path : Bytes
hello_path = codes "/alpha/pub/hello"

reaches :
    connect_host small (text (split_path hello_path).host) mounted ≡ (some (alpha, 7), mounted)
unfolding split_path connect_host
reaches = refl

fuse_read-take_example :
    (w : ℕ) × (fuse_read small 9 hello_path 3 4 1 mounted
      ≡ answer (take 4 (drop 1 text_file)) (
          with_world small
            (connect_share small (text (split_path hello_path).share) alpha 7 mounted).2
            w))
fuse_read-take_example =
    fuse_read-take small text_file hello_path 7 3 9 4 1 mounted mounted alpha small-Serves reaches
      (omega arith)

abbrev some_calls : List FuseCall
some_calls =
    getattrs (codes "/alpha")
    ∷ readdirs (λ shown. true) (codes "/beta")
    ∷ reads hello_path 3 4 1
    ∷ readdirs (λ shown. true) (codes "/")
    ∷ []

fuse_main-IsFuse_example : LeftKept small (fuse_main small 9 some_calls 0)
fuse_main-IsFuse_example = fuse_main-IsFuse small 9 some_calls 0

abbrev secret : MountPath
secret = record {
  host = some (codes "alpha");
  share = some (codes "secret");
  path = some (codes "/a");
}

-- The server refuses this share, and the operation is carried out all the same.
refused_share :
    fuse_connect small {A = ℕ} secret (λ k f. answer k f) mounted
    ≡ answer 7 (with_world small mounted 0)
unfolding fuse_connect connect_share connect_host share_find
refused_share = refl
