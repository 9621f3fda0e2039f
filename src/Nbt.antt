-- ===== src/Nbt.antt =====
-- libcifs/transport.c: `cifs_nbt_name`, the first-level encoding of a NetBIOS name, and
-- `cifs_nbt_session`, the session request on port 139.
pub mod Name
use cifscp.Base.{
  ℕ, zero, suc, ◌+◌, ◌-◌, ◌*◌, ◌/◌, ◌%◌, ◌^◌, ◌≤◌, ◌<◌, min, ◌≡◌, refl, sym, ap, ◌∙◌, ◌≢◌, ◌↔◌, ◌⊎◌,
  inl, inr, Bool, true, false, not, ◌&&◌, ◌||◌, Option, none, some, List, [], ◌∷◌, ◌++◌, map, arith,
  ltb, leb, ◌==◌, if◌then◌else◌, ltb→lt, lt→ltb, ==_iff, Bool-cases, Option-cases, length, take,
  drop, replicate, length-append, length-take, length-drop, take-append-drop, take-add, take-take,
  take_self, append-split, append-cancel, take-all, drop-all, length-map, length-replicate,
}
use cifscp.Base.Strings.{Bytes}
use cifscp.Packet.{Errno, enoent, econnaborted}
use cifscp.Transport.{
  Input, Got, failure, got, recv, Skip, skipped, skip_hang, skip_sock, Why, system, code, Answer,
  refuse, accept,
}

-- `toupper` in the C locale.
abbrev pub to_upper : ℕ → ℕ
to_upper c = if leb b'a' c && leb c b'z' then c - 32 else c

-- The two letters of one byte.
abbrev pub nibbles : ℕ → Bytes → Bytes
nibbles c tail = (b'A' + c / 16 % 16) ∷ (b'A' + c % 16) ∷ tail

-- The two loops: `n` places are left, and a name that has ended is padded with the code of a space.
unfoldable pub nbt_letters : ℕ → Bytes → Bytes
nbt_letters zero name = []
nbt_letters (suc n) [] = b'C' ∷ b'A' ∷ nbt_letters n []
nbt_letters (suc n) (c ∷ name) = nibbles (to_upper c) (nbt_letters n name)

-- The 34 bytes that `cifs_nbt_name` fills.
unfoldable pub nbt_name : Bytes → Bytes
unfolding nbt_letters
nbt_name name = 0x20 ∷ nbt_letters 16 name ++ (0 ∷ [])

-- The session request: `cifs_nbt_session_s`, destination first.
unfoldable pub nbt_request : Bytes → Bytes → Bytes
unfolding nbt_name
nbt_request local remote = 0x81 ∷ 0 ∷ 0 ∷ 68 ∷ nbt_name remote ++ nbt_name local

pub data Session : Type 0 where
  session_up : Input → Session
  session_failed : Why → Input → Session
  session_hang : Session

unfoldable pub session_skipped : Skip → Session
session_skipped (skipped _ inp) = session_failed (code econnaborted) inp
session_skipped skip_hang = session_hang

-- An answer that is neither 0x82 nor a 0x83 with its code.
unfoldable pub session_refused : ℕ → ℕ → Input → Session
unfolding session_skipped
session_refused fuel len inp =
    if len == 0
    then session_failed (code econnaborted) inp
    else session_skipped (skip_sock fuel len inp)

unfoldable pub session_code : ℕ → ℕ → Got × Input → Session
unfolding session_refused
session_code fuel len (got (c ∷ []), inp) = session_failed (code enoent) inp
session_code fuel len (_, inp) = session_refused fuel len inp

unfoldable pub session_answer : ℕ → Got × Input → Session
unfolding session_code session_refused
session_answer fuel (got (type ∷ flags ∷ hi ∷ lo ∷ []), inp) =
    let len = lo + hi * 256 in
    if type == 0x82
    then session_up inp
    else if type == 0x83 && len == 1
    then session_code fuel len (recv 1 inp)
    else session_refused fuel len inp
session_answer fuel (_, inp) = session_failed system inp

-- `cifs_nbt_session`; `send` takes the whole request or the call fails.
unfoldable pub nbt_session : ℕ → Bytes → Bytes → Answer → Input → Session
unfolding session_answer nbt_request
nbt_session fuel local remote refuse inp = session_failed system inp
nbt_session fuel local remote (accept n) inp =
    if n == length (nbt_request local remote)
    then session_answer fuel (recv 4 inp)
    else session_failed system inp
