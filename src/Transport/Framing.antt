-- ===== src/Transport/Framing.antt =====
-- `cifs_recv` against a byte stream: it finds the session message in it, whatever the chunks.
pub mod Fill
pub mod Header
pub mod Message
