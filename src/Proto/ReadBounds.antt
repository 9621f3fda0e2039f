-- ===== src/Proto/ReadBounds.antt =====
-- Where the bytes come from that a read returns.
use cifscp.Base.{
  ℕ, ◌+◌, ◌≤◌, ◌≡◌, sym, ap, inl, inr, Option, none, some, arith, ltb, Bool-cases, length,
}
use cifscp.Base.Strings.{Bytes}
use cifscp.Memory.{load, get16}
use cifscp.Memory.Frame.{length-load}
use cifscp.Buffer.{buf_range}
use cifscp.Packet.{Packet, packet_range, words_at}
use cifscp.Connect.{Conn, Outcome, done, conn_recv}
use cifscp.Connect.Request.{After, and_then-After}
use cifscp.Proto.Files.{read_andx_get, read_andx_got, read_andx_recv}

-- The bytes fit the buffer, and stand inside the message that has been received.
pub record FromMessage (count : ℕ) (bs : Bytes) (i : Packet) : Type 0 where
  pub fits : length bs ≤ count
  pub at : ℕ
  pub inside : at + length bs ≤ i.p.e
  pub same : bs ≡ load i.mem at (length bs)

abbrev IsInside : Packet → Option (ℕ × ℕ) → Type 0
IsInside i none = Unit
IsInside i (some (at, len)) = at + len ≤ i.p.e

read_andx_get-IsInside : (i : Packet) → IsInside i (read_andx_get i)
unfolding read_andx_get packet_range buf_range
read_andx_get-IsInside i =
    let len = get16 i.mem (words_at + 10) in
    let off = get16 i.mem (words_at + 12) in
    elim (Bool-cases (packet_range i off len)) [ inl e ↦ rw (e) tt | inr e ↦ rw (e) (ground arith) ]

read_andx_got-After :
    (count : ℕ) (c : Conn) (r : Option (ℕ × ℕ))
    → IsInside c.i r
    → After (λ bs c'. FromMessage count bs c'.i) (read_andx_got count c r)
unfolding read_andx_got
read_andx_got-After count c none h = tt
read_andx_got-After count c (some (at, len)) h = elim (Bool-cases (ltb count len)) [
  | inl e ↦ rw (e) tt
  | inr e ↦ rw (e) (record {
    fits = ground (arith, length-load len c.i.mem at);
    at = at;
    inside = omega (arith, h, length-load len c.i.mem at);
    same = ap (load c.i.mem at) (sym (length-load len c.i.mem at));
  })
]

-- Whatever counts and offsets the server's answer holds, a read that returns gives bytes of the
-- message that has been received, no more than the caller's buffer takes.
pub read_andx_recv-FromMessage :
    (fuel count : ℕ) (c : Conn)
    → After (λ bs c'. FromMessage count bs c'.i) (read_andx_recv fuel count c)
unfolding read_andx_recv
read_andx_recv-FromMessage fuel count c =
    and_then-After _ (conn_recv fuel c) _ (anything (conn_recv fuel c))
      (λ _ c' _. read_andx_got-After count c' (read_andx_get c'.i) (read_andx_get-IsInside c'.i))
  where
    anything : (r : Outcome Unit) → After (λ u c'. Unit) r
    anything (done u c') = tt
    anything _ = tt
