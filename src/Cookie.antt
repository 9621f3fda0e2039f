-- ===== src/Cookie.antt =====
-- cookie.c: a remote file as a stdio stream. The offset and the size are 64-bit patterns; a `size_t`
-- of -1 is the largest of them. `cifs_connect` has been called.
pub mod Modes
use cifscp.Base.{
  ℕ, zero, suc, ◌+◌, ◌-◌, ◌*◌, ◌/◌, ◌%◌, ◌^◌, ◌≤◌, ◌<◌, min, ◌≡◌, refl, sym, ap, ◌∙◌, ◌≢◌, ◌↔◌, ◌⊎◌,
  inl, inr, Bool, true, false, not, ◌&&◌, ◌||◌, Option, none, some, List, [], ◌∷◌, ◌++◌, map, arith,
  ltb, leb, ◌==◌, if◌then◌else◌, ltb→lt, lt→ltb, ==_iff, Bool-cases, Option-cases, length, take,
  drop, replicate, length-append, length-take, length-drop, take-append-drop, take-add, take-take,
  take_self, append-split, append-cancel, take-all, drop-all, length-map, length-replicate,
}
use cifscp.Base.Strings.{Bytes}
use cifscp.Flow.{word64}
use cifscp.Connect.{Conn, Outcome, done, refused, fault, no_end, and_then}
use cifscp.Proto.{Pages}
use cifscp.Proto.Files.{OpenFlags, cifs_open, cifs_read, cifs_write}

-- `cifs_cookie_t`, without the address and the connection.
pub record Cookie : Type 0 where
  pub fid : ℕ
  pub off : ℕ
  pub size : ℕ

-- `if (res > 0) c->off += res`, where `res` has no sign.
unfoldable pub moved : Cookie → ℕ → Cookie
moved k res = if res == 0 then k else record k { off = (k.off + res) % word64 }

-- What `reader` leaves: the cookie, the result as a `size_t`, and the bytes.
unfoldable pub reader : ℕ → ℕ → Cookie → Conn → Outcome (Cookie × ℕ × Bytes)
unfolding moved
reader fuel size k c = elim (cifs_read fuel k.fid size k.off c) [
  | done bs c' ↦ done (moved k (length bs), length bs, bs) c'
  | refused w c' ↦ done (moved k (word64 - 1), word64 - 1, []) c'
  | fault ↦ fault
  | no_end ↦ no_end
]

unfoldable pub writer : ℕ → Bytes → Cookie → Conn → Outcome (Cookie × ℕ)
unfolding moved
writer fuel bs k c = elim (cifs_write fuel k.fid k.off bs c) [
  | done n c' ↦ done (moved k n, n) c'
  | refused w c' ↦ done (moved k (word64 - 1), word64 - 1) c'
  | fault ↦ fault
  | no_end ↦ no_end
]

pub data Whence : Type 0 where
  seek_set seek_cur seek_end : Whence

-- `seeker`: the position that is left in the argument is the new offset.
unfoldable pub seeker : ℕ → Whence → Cookie → Cookie
seeker position seek_set k = record k { off = position }
seeker position seek_cur k = record k { off = (k.off + position) % word64 }
seeker position seek_end k = record k { off = (k.size + position) % word64 }

-- What the letters of a mode set: how to open, and the flags.
pub data Access : Type 0 where
  rdonly wronly rdwr : Access

pub record Mode : Type 0 where
  pub access : Access
  pub creat : Bool
  pub trunc : Bool
  pub append : Bool
  pub excl : Bool

-- The loop over the mode: it ends at the first letter that it does not know.
unfoldable pub parse_mode : Bytes → Mode → Mode
parse_mode [] m = m
parse_mode (c ∷ cs) m = elim (c == b'r') [
  | true ↦ parse_mode cs (record m { access = rdonly })
  | false ↦ elim (c == b'w') [
    | true ↦
        parse_mode cs
          (record { access = wronly; creat = true; trunc = true; append = false; excl = false })
    | false ↦ elim (c == b'a') [
      | true ↦
          parse_mode cs
            (record { access = wronly; creat = true; trunc = false; append = true; excl = false })
      | false ↦ elim (c == b'+') [
        | true ↦ parse_mode cs (record m { access = rdwr })
        | false ↦ elim (c == b'x') [ true ↦ parse_mode cs (record m { excl = true }) | false ↦ m ]
      ]
    ]
  ]
]

abbrev is_rdwr : Access → Bool
is_rdwr rdonly = false
is_rdwr wronly = false
is_rdwr rdwr = true

abbrev is_wronly : Access → Bool
is_wronly rdonly = false
is_wronly wronly = true
is_wronly rdwr = false

abbrev pub mode_flags : Mode → OpenFlags
mode_flags m = record {
  directory = false;
  rdwr = is_rdwr m.access;
  wronly = is_wronly m.access;
  creat = m.creat;
  excl = m.excl;
  trunc = m.trunc;
}

abbrev pub no_mode : Mode
no_mode = record { access = rdonly; creat = false; trunc = false; append = false; excl = false }

-- `fopen_cifs` behind `cifs_connect`.
unfoldable pub fopen_cifs : ℕ → Pages → Bytes → Bytes → Conn → Outcome Cookie
unfolding parse_mode
fopen_cifs fuel pages path mode c =
    let m = parse_mode mode no_mode in
    and_then (cifs_open fuel pages path (mode_flags m) c) (λ opened c'.
      let size = opened.1.file_size in
      done (record { fid = opened.0; off = if m.append then size else 0; size = size }) c')
