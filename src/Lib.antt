-- ===== src/Lib.antt =====
-- NetworkAllInOne: a course in network programming in C++. Each lecture is a program of its own. The
-- last, C++/Lecture 4, Simple File Storage, is a server that stores, returns and deletes files over
-- TCP, with a loop each for blocking sockets, select, poll and epoll; C++/Lecture 3, OOP Refactor, is
-- the class TCPServer, an echo server with the same loops; and C++/Lecture 2, Async IO with selct,
-- poll, epoll has an echo server for each of the three; C++/Lecture 1, Sync TCP & UDP has a TCP and
-- a UDP server that echo one message. Lectures 1 and 2 have a client for each of their servers. All of
-- these are modelled.
--
-- Files and code:
--   Prelude and its children: names, Boolean tests and list lemmas that the other files share.
--   Text: byte strings with what the sources use of std::string and std::stoi (find, substr, rfind at
--     0, npos, the wrap-around of size_t and int); Text/Search and Text/Numeral have its laws.
--   Kernel: the operating system. A system call takes its result from a script in the World, and what
--     it does is recorded there; an Io action returns or throws. Kernel/Actions and Kernel/Balance
--     have the rules by which a property of worlds is carried through an action.
--   Storage/Disk: the file system as an interface with the laws that its documentation gives, and a
--     disk in memory that meets them; Storage/Disk/Names says which names denote different files.
--   Storage/Request, Reader, Handlers, Sender: C++/Lecture 4, Simple File Storage/
--     FileStorageServer.cpp: parse_put and resolve_path are the parsing of putFile and resolvePath;
--     read_request is readRequest; handle_request, get_file, put_file and delete_file are
--     handleRequest, getFile, putFile and deleteFile; send_all is sendAll.
--   Storage/Server: the fields of FileStorageServer.h, its constructor, destructor, server_bind,
--     server_listen and closeClient, and set_socket_blocking of C++/Lecture 3, OOP Refactor/
--     TCPServer.h.
--   Storage/Sender/Delivery and Telling: what sendAll has sent, by the bytes that one client got and
--     send by send.
--   Storage/Spec: what the server promises, over an abstract view of its files; Storage/Spec/Handler
--     and Clients relate handle_request and serve to it, Storage/Spec/Sessions the loops, Storage/Spec/
--     Stored two clients of one file, and Storage/Spec/Program main, for clients that come with whole
--     commands. A session accounts for all that was sent, client by client, and for the answers of send.
--   Storage/Loops: run_sync, run_select, run_poll and run_epoll are runSync, runSelect, runPoll and
--     runEpoll.
--   Storage/Program: start, and parseServerType and main of main.cpp.
--   Tcp/Echo, Select, Poll, Epoll: C++/Lecture 3, OOP Refactor/TCPServer.cpp: the object and
--     main.cpp, and sever_select, server_poll and server_epoll.
--   Async/Select, Poll, Epoll: select/TCPServer_select.cpp, poll/TCPServer_poll.cpp and
--     epoll/TCPServer_epoll.cpp of Lecture 2. The loops of the last two are those of TCPServer.
--   Basic: TCP/SyncTcpServer.cpp and UDP/SyncUdpServer.cpp of Lecture 1.
--   Basic/Clients: TCP/SyncTcpClient.cpp and UDP/SyncUdpClient.cpp of Lecture 1;
--     Basic/Clients/Exchange runs each with its server.
--   Async/Clients: select/TCPClient_select.cpp, poll/TCPClient_poll.cpp and epoll/TCPClient_epoll.cpp of
--     Lecture 2. What they print of the server's answers is part of their result.
--   Tests: the model on concrete runs.
--
-- A loop reads one request per client with read_request, answers it with handle_request and send_all
-- (serve), and closes the client; the loops differ in how they wait and in the lists that they keep.
--
-- Bounds: the loops of the servers never end by themselves, so a run goes over a list of answers
-- of the waiting call and ends with it; a statement for every list covers every moment of a run.
-- The loops of readRequest and sendAll and the passes of poll are bounded by a script or a
-- number of steps. sendAll has a round more than there are bytes, a pass of runPoll two steps
-- for each entry and one more, a pass of server_poll a step for each entry and each connection
-- that can still be accepted; Storage/Loops/Poll/Steps and Tcp/Poll/Steps have the loops of the
-- two passes as relations too, with no bound. An int and a size_t have 32 and 64 bits and wrap
-- around; descriptors, which the kernel gives out, are natural numbers, and -1 is `none`.
--
-- Undefined behaviour is an exception of the model: FD_SET of a descriptor from 1024 on or of
-- -1, and a use of the buffer outside its bounds. FD_ISSET of such a descriptor is not: it is
-- taken as not set. SIGPIPE is taken as ignored: a send to a client that has gone answers -1. A
-- file name is a byte string; permissions and directories are not modelled, nor are peer
-- addresses and the port in network order. Of what the programs print only the answers that the
-- clients show are modelled. In the poll and the epoll client a buffer that is not cleared holds
-- a byte string that is an argument. TCPClient.h declares a class that is defined nowhere.
pub mod Prelude
pub mod Text
pub mod Kernel
pub mod Storage
pub mod Tcp
pub mod Async
pub mod Basic
pub mod Tests
