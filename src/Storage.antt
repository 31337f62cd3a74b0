-- ===== src/Storage.antt =====
-- The file storage server of C++/Lecture 4, Simple File Storage: FileStorageServer.h,
-- FileStorageServer.cpp and main.cpp. One module below for each part of it.
pub mod Disk
pub mod Request
pub mod Reader
pub mod Handlers
pub mod Sender
pub mod Server
pub mod Loops
pub mod Program
pub mod Spec
