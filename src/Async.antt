-- ===== src/Async.antt =====
-- The echo servers of C++/Lecture 2, Async IO with selct, poll, epoll: one program each for select,
-- poll and epoll.
pub mod Select
pub mod Poll
pub mod Epoll
pub mod Clients
