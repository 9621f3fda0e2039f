-- ===== src/Connect/Async.antt =====
-- One call of `cifs_recv_async`: where it writes, and when it says that a message is there.
use cifscp.Base.{ℕ, ◌+◌, ◌≤◌, ◌<◌, ◌≡◌, ◌≢◌, length}
use cifscp.Buffer.{buf_len}
use cifscp.Packet.{nbt_type_at}
use cifscp.Transport.{Got, failure, got, Link, Received, received, recv_failed, hang}

-- A buffer between calls: its pointers are in order and a header fits.
pub record IsReady (l : Link) : Type 0 where
  pub begun : l.i.p.b ≤ l.i.p.p
  pub point : l.i.p.p ≤ l.i.p.e
  pub end : l.i.p.e ≤ l.i.p.x
  pub header : l.i.p.b + 4 ≤ l.i.p.x

-- What a call has left alone: the bounds of the block and all that lies outside of it.
pub record Within (l l' : Link) : Type 0 where
  pub begin : l'.i.p.b ≡ l.i.p.b
  pub limit : l'.i.p.x ≡ l.i.p.x
  pub below : (i : ℕ) → i < l.i.p.b → l'.i.mem i ≡ l.i.mem i
  pub above : (i : ℕ) → l.i.p.x ≤ i → l'.i.mem i ≡ l.i.mem i

-- A message is there: every byte of it has come, and it is a session message.
pub record IsComplete (l : Link) : Type 0 where
  pub full : l.i.p.p ≡ l.i.p.e
  pub behind_header : buf_len l.i.p ≢ 4
  pub is_session : l.i.mem nbt_type_at ≡ 0

abbrev pub AsyncSafe : Link → Received → Type 0
AsyncSafe l (received l') = IsReady l' × Within l l' × IsComplete l'
AsyncSafe l (recv_failed w l') = IsReady l' × Within l l'
AsyncSafe l hang = ⊥

abbrev GotAtMost : ℕ → Got → Type 0
GotAtMost n failure = Unit
GotAtMost n (got bs) = length bs ≤ n
