-- ===== src/Transfer.antt =====
-- include/transfer.h and src/core/transfer.cpp: sending and receiving one file over a TLS stream.
-- The stream, the file system and OpenSSL are not under src/: each handler takes the completion of
-- its asynchronous operation, and the rest is in `Transfer.Platform`.
pub mod Platform
pub mod Digest
pub mod Sender
pub mod Receiver
pub mod Complete
pub mod Session
pub mod Tests
