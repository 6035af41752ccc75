-- ===== src/Posix/Connections/Represents.antt =====
-- What a store of posix connections stands for: the list of its ServerConnection objects in the order
-- of the container.
pub mod Lists
pub mod Add
pub mod Find
pub mod Reshape
