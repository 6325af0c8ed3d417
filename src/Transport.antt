-- ===== src/Transport.antt =====
-- transport/: the server side of the wire and the commands that ride it.
pub mod Command
pub mod Adapter
