-- ===== src/Find/Entries.antt =====
-- A directory as a server sends it: entries in a block, each with the offset of the next.
use cifscp.Base.{
  ℕ, zero, suc, ◌+◌, ◌-◌, ◌≤◌, ◌<◌, ◌≡◌, ap, ◌∙◌, ◌≢◌, false, List, [], ◌∷◌, ◌++◌, arith, ◌==◌,
  if◌then◌else◌, length,
}
use cifscp.Base.Strings.{Bytes}
use cifscp.Cstring.Search.{has}
use cifscp.Memory.{Mem, poke, store, load}
use cifscp.Memory.Frame.{load-store, load-store_below, store-append}
use cifscp.Codepage.{Iconv, cp_buf, cp_image, written}
use cifscp.Buffer.{buf_inc}
use cifscp.Find.{
  Dir, Dirent, path_room, text_at, build_stat, name_length, next_entry_offset, is_dots, stepped,
  named_in,
}

-- The entry at `at`: it lies in the block, and its name converts to `name`, which is short enough to
-- get a terminator and holds no NUL.
pub record Readable (page : Iconv) (m : Mem) (at : ℕ) (name : Bytes) : Type 0 where
  pub inside : at + 64 + name_length m at ≤ 61440
  pub converts : cp_buf page (load m (at + 64) (name_length m at)) 255 ≡ written name
  pub short : length name < 255
  pub clean : has 0 name ≡ false

abbrev pub listed : Mem → Bytes → ℕ → Bytes → Dirent
listed m base at name = record { st = build_stat m at; name = name; path = base ++ name }

-- The entries from `at` on, each where the one before says.
pub data Chain (page : Iconv) (m : Mem) (base : Bytes) : ℕ → List Dirent → Type 0 where
  chain_end : (at : ℕ) → Chain page m base at []
  chain_next :
      {es : List Dirent} (at : ℕ) (name : Bytes)
      → Readable page m at name
      → Chain page m base (at + next_entry_offset m at) es
      → Chain page m base at (listed m base at name ∷ es)

-- What a listing shows: neither the directory itself nor the one above.
abbrev pub shown : List Dirent → List Dirent
shown [] = []
shown (e ∷ es) = if is_dots e then shown es else e ∷ shown es

-- A directory whose last part has come, with the entries `es` left to read.
pub record Rests (page : Iconv) (d : Dir) (es : List Dirent) : Type 0 where
  pub last_part : d.end ≢ 0
  pub left : d.count ≡ length es
  pub block : d.trans.data_block.buf.x ≡ 61440
  pub base_fits : length d.base ≤ 4000
  pub chain : Chain page d.trans.data_block.mem d.base d.trans.data_block.buf.p es

text_at-store :
    (name : Bytes) (n : ℕ) (m : Mem) (at : ℕ)
    → length name < n
    → has 0 name ≡ false
    → load m at (length name) ≡ name
    → m (at + length name) ≡ 0
    → text_at n m at ≡ name
unfolding text_at load
text_at-store name zero m at h k e z = absurd (omega arith)
text_at-store [] (suc n) m at h k e z =
    let z' : m at ≡ 0 = ap m (omega arith) ∙ z in rw (z', text_at)
text_at-store (c ∷ cs) (suc n) m at h k e z =
    let first : m at ≡ c = cc in
    let rest : load m (at + 1) (length cs) ≡ cs = cc in
    let z' : m (at + 1 + length cs) ≡ 0 = ap m (omega arith) ∙ z in
    let tail = text_at-store cs n m (at + 1) (omega (arith, h)) (ground arith) rest z' in
    let not_nul : (m at == 0) ≡ false = ground arith in rw (not_nul, text_at, first, tail)

one_stored : (m : Mem) (a v : ℕ) → store m a (v ∷ []) a ≡ v
unfolding store poke
one_stored m a v = ground arith

-- A string with its terminator, stored and read back.
text_at-stored :
    (name : Bytes) (n : ℕ) (m : Mem)
    → length name < n
    → has 0 name ≡ false
    → text_at n (store m 0 (name ++ (0 ∷ []))) 0 ≡ name
text_at-stored name n m h k = rw (store-append name (0 ∷ []) m 0) (
    text_at-store name n (store (store m 0 name) (0 + length name) (0 ∷ [])) 0 h k
      (load-store_below (length name) (0 ∷ []) (store m 0 name) (0 + length name) 0 (omega arith)
        ∙ load-store name m 0)
      (one_stored (store m 0 name) (0 + length name) 0))

pub image_short :
    (name : Bytes) → length name < 255 → cp_image (written name) 255 ≡ name ++ (0 ∷ [])
unfolding cp_image
image_short name h = ground (arith, h)

-- The directory behind an entry with the given name.
abbrev pub behind : Dir → Bytes → Dir
behind d name = stepped d (store d.area 0 (name ++ (0 ∷ [])))

abbrev pub here : Dir → ℕ
here d = d.trans.data_block.buf.p

pub named_in-listed :
    (d : Dir) (name : Bytes)
    → length name < 255
    → has 0 name ≡ false
    → length d.base ≤ 4000
    → named_in d (store d.area 0 (name ++ (0 ∷ [])))
      ≡ listed d.trans.data_block.mem d.base (here d) name
named_in-listed d name short clean fits =
    ap
      (λ z. record {
        st = build_stat d.trans.data_block.mem (here d);
        name = z;
        path = d.base ++ z;
      })
      (text_at-stored name (path_room - length d.base) d.area (omega arith) clean)

pub behind-Rests :
    (page : Iconv) (d : Dir) (name : Bytes) (es : List Dirent)
    → d.end ≢ 0
    → d.count ≡ suc (length es)
    → d.trans.data_block.buf.x ≡ 61440
    → length d.base ≤ 4000
    → Chain page d.trans.data_block.mem d.base
        (here d + next_entry_offset d.trans.data_block.mem (here d))
        es
    → Rests page (behind d name) es
unfolding buf_inc
behind-Rests page d name es last_part left block fits chain = record {
  last_part = last_part;
  left = omega (arith, left);
  block = block;
  base_fits = fits;
  chain = chain;
}
