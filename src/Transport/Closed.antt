-- ===== src/Transport/Closed.antt =====
-- A peer that closes the connection: `recv` returns 0 then, and `cifs_recv` has no test for that.
