-- ===== src/Connect/Request.antt =====
-- What a successful request has seen.
use cifscp.Base.{ℕ, ◌≡◌, refl, ap, ◌∙◌, inl, inr, none, ◌++◌, arith, ◌==◌, Bool-cases, Option-cases}
use cifscp.Packet.{packet_cmd, packet_errno}
use cifscp.Transport.{Received, received, recv_failed, hang, cifs_recv, cifs_send}
use cifscp.Transport.EndToEnd.{wire_whole}
use cifscp.Packet.{packet_unparse}
use cifscp.Memory.{load}
use cifscp.Connect.{
  Conn, Outcome, done, refused, fault, no_end, and_then, conn_send, conn_received, conn_recv,
  request_checked, request,
}

-- What holds of the value and the connection when a call succeeds.
abbrev pub After : {A : Type 0} → (A → Conn → Type 0) → Outcome A → Type 0
After P (done a c) = P a c
After P (refused w c) = Unit
After P fault = Unit
After P no_end = Unit

pub and_then-After :
    {A B : Type 0} {P : A → Conn → Type 0} (Q : B → Conn → Type 0) (r : Outcome A)
    (f : A → Conn → Outcome B)
    → After P r
    → ((a : A) (c : Conn) → P a c → After Q (f a c))
    → After Q (and_then r f)
and_then-After Q (done a c) f h k = k a c h
and_then-After Q (refused w c) f h k = tt
and_then-After Q fault f h k = tt
and_then-After Q no_end f h k = tt

-- The message that a request has put on the wire.
abbrev pub HasSent : Conn → Conn → Type 0
HasSent c c' = c'.wire ≡ c.wire ++ load (packet_unparse c.o).0.mem 0 (packet_unparse c.o).1

conn_send-After : (c : Conn) → After (λ _ c'. HasSent c c') (conn_send c)
unfolding conn_send
conn_send-After c = elim (Bool-cases (cifs_send c.o c.answers).1) [
  | inl e ↦ rw (e) (ap (λ z. c.wire ++ z) (wire_whole c.o c.answers e))
  | inr e ↦ rw (e) tt
]

conn_received-After :
    (c : Conn) (r : Received)
    → After (λ _ c'. (c'.wire ≡ c.wire) × (c'.o ≡ c.o)) (conn_received c r)
unfolding conn_received
conn_received-After c (received l) = (refl, refl)
conn_received-After c (recv_failed w l) = tt
conn_received-After c hang = tt

conn_recv-After :
    (fuel : ℕ) (c : Conn) → After (λ _ c'. (c'.wire ≡ c.wire) × (c'.o ≡ c.o)) (conn_recv fuel c)
unfolding conn_recv
conn_recv-After fuel c = conn_received-After c (cifs_recv fuel (record { i = c.i; inp = c.inp }))

request_checked-After :
    (c : Conn)
    → After
        (λ _ c'.
          (packet_cmd c'.i ≡ packet_cmd c'.o) × (packet_errno c'.i ≡ none) × (c'.wire ≡ c.wire))
        (request_checked c)
unfolding request_checked
request_checked-After c = elim (Bool-cases (packet_cmd c.i == packet_cmd c.o)) [
  | inr e ↦ rw (e) tt
  | inl e ↦ elim (Option-cases (packet_errno c.i)) [
    | inl k ↦ rw (e, k) (ground arith, k, refl)
    | inr (x, k) ↦ rw (e, k) tt
  ]
]

-- A request that succeeds has put its whole message on the wire, and the answer that it leaves is to
-- the command that was sent and reports no error.
pub request-After :
    (fuel : ℕ) (c : Conn)
    → After
        (λ _ c'. (packet_cmd c'.i ≡ packet_cmd c'.o) × (packet_errno c'.i ≡ none) × HasSent c c')
        (request fuel c)
unfolding request
request-After fuel c = and_then-After _ (conn_send c) _ (conn_send-After c) (λ _ c1 sent.
    and_then-After _ (conn_recv fuel c1) _ (conn_recv-After fuel c1)
      (λ _ c2 came. by_check c1 c2 sent came.0 (request_checked c2) (request_checked-After c2)))
  where
    by_check :
        (c1 c2 : Conn)
        → HasSent c c1
        → c2.wire ≡ c1.wire
        → (r : Outcome Unit)
        → After
            (λ _ c'.
              (packet_cmd c'.i ≡ packet_cmd c'.o)
              × (packet_errno c'.i ≡ none)
              × (c'.wire ≡ c2.wire))
            r
        → After
            (λ _ c'.
              (packet_cmd c'.i ≡ packet_cmd c'.o) × (packet_errno c'.i ≡ none) × HasSent c c')
            r
    by_check c1 c2 sent came (done a c') h = (h.0, h.1, h.2 ∙ came ∙ sent)
    by_check c1 c2 sent came (refused w c') h = tt
    by_check c1 c2 sent came fault h = tt
    by_check c1 c2 sent came no_end h = tt
