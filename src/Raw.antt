-- ===== src/Raw.antt =====
-- libcifs/transport.c: `cifs_recv_size` and `cifs_recv_raw`, which receive the body of a session
-- message, without its header, into a buffer of the caller. Loops run on fuel as in `cifs_recv`.
pub mod Framed
use cifscp.Base.{
  ℕ, zero, suc, ◌+◌, ◌-◌, ◌*◌, ◌/◌, ◌%◌, ◌^◌, ◌≤◌, ◌<◌, min, ◌≡◌, refl, sym, ap, ◌∙◌, ◌≢◌, ◌↔◌, ◌⊎◌,
  inl, inr, Bool, true, false, not, ◌&&◌, ◌||◌, Option, none, some, List, [], ◌∷◌, ◌++◌, map, arith,
  ltb, leb, ◌==◌, if◌then◌else◌, ltb→lt, lt→ltb, ==_iff, Bool-cases, Option-cases, length, take,
  drop, replicate, length-append, length-take, length-drop, take-append-drop, take-add, take-take,
  take_self, append-split, append-cancel, take-all, drop-all, length-map, length-replicate,
}
use cifscp.Base.Strings.{Bytes}
use cifscp.Packet.{Errno, enomem}
use cifscp.Transport.{
  Input, Got, failure, got, recv, Skip, skipped, skip_hang, skip_sock, Why, system, code,
}

-- `l` bytes read by a loop of `recv`; -1; or no end.
pub data Filled : Type 0 where
  filled : Bytes → Input → Filled
  fill_failed : Input → Filled
  fill_hang : Filled

unfoldable pub fill_got : (ℕ → Bytes → Input → Filled) → ℕ → Bytes → Got → Input → Filled
fill_got next l acc failure inp = fill_failed inp
fill_got next l acc (got bs) inp = next (l - length bs) (acc ++ bs) inp

unfoldable pub fill_loop : ℕ → ℕ → Bytes → Input → Filled
unfolding fill_got
fill_loop zero l acc inp = fill_hang
fill_loop (suc fuel) zero acc inp = filled acc inp
fill_loop (suc fuel) (suc l) acc inp =
    let (r, inp') = recv (suc l) inp in fill_got (fill_loop fuel) (suc l) acc r inp'

-- What `cifs_recv_size` returns.
pub data Sized : Type 0 where
  sized : ℕ → Input → Sized
  size_failed : Input → Sized
  size_hang : Sized

-- Whether skipping succeeds is not looked at.
unfoldable pub size_skipped : (Input → Sized) → Skip → Sized
size_skipped next (skipped _ inp) = next inp
size_skipped next skip_hang = size_hang

-- The four bytes as a big-endian `uint32_t`: the type on top, of the rest the low 16 bits.
unfoldable pub size_header : ℕ → (Input → Sized) → Bytes → Input → Sized
unfolding size_skipped
size_header fuel next (type ∷ flags ∷ hi ∷ lo ∷ _) inp =
    let size = hi * 256 + lo in
    if type == 0
    then sized size inp
    else if size == 0
    then next inp
    else size_skipped next (skip_sock fuel size inp)
size_header fuel next _ inp = size_hang

unfoldable pub size_filled : ℕ → (Input → Sized) → Filled → Sized
unfolding size_header
size_filled fuel next (filled bs inp) = size_header fuel next bs inp
size_filled fuel next (fill_failed inp) = size_failed inp
size_filled fuel next fill_hang = size_hang

unfoldable pub recv_size : ℕ → Input → Sized
unfolding fill_loop size_filled
recv_size zero inp = size_hang
recv_size (suc fuel) inp = size_filled fuel (recv_size fuel) (fill_loop fuel 4 [] inp)

-- What `cifs_recv_raw` returns, with the bytes that it has put into the buffer.
pub data Raw : Type 0 where
  raw_done : Bytes → Input → Raw
  raw_failed : Why → Input → Raw
  raw_hang : Raw

unfoldable pub raw_filled : Filled → Raw
raw_filled (filled bs inp) = raw_done bs inp
raw_filled (fill_failed inp) = raw_failed system inp
raw_filled fill_hang = raw_hang

unfoldable pub raw_skipped : Skip → Raw
raw_skipped (skipped _ inp) = raw_failed (code enomem) inp
raw_skipped skip_hang = raw_hang

unfoldable pub raw_sized : ℕ → ℕ → Sized → Raw
unfolding raw_filled raw_skipped
raw_sized fuel len (sized size inp) =
    if ltb len size
    then raw_skipped (skip_sock fuel size inp)
    else raw_filled (fill_loop fuel size [] inp)
raw_sized fuel len (size_failed inp) = raw_failed system inp
raw_sized fuel len size_hang = raw_hang

-- `cifs_recv_raw`, with a buffer of `len` bytes.
unfoldable pub recv_raw : ℕ → ℕ → Input → Raw
unfolding recv_size raw_sized
recv_raw fuel len inp = raw_sized fuel len (recv_size fuel inp)
