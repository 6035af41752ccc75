-- ===== src/Posix/Connections/Remove.antt =====
-- `Connections::removeServerConnection`: what `remove_if` leaves, and whom it deletes.
pub mod RoundTrip
pub mod Loop
pub mod Absent
pub mod Last
pub mod Other
