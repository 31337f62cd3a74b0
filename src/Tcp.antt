-- ===== src/Tcp.antt =====
-- The class TCPServer of C++/Lecture 3, OOP Refactor: an echo server with the loops of select, poll
-- and epoll (TCPServer.h, TCPServer.cpp), and the program main.cpp around it.
pub mod Echo
pub mod Select
pub mod Poll
pub mod Epoll
