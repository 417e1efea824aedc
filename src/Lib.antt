-- ===== src/Lib.antt =====
-- The verification of zmqpp, the C++ binding of 0MQ that the pty server and client of this
-- repository are built on.
--
-- The parts, and the files that model them. Paths are from the repository's root.
--
-- + src/zmqpp/inet.hpp: Inet. The byte order of the host is an argument (`Order`), and memory is a
--   list of bytes (Inet/Memory). `htons`, `htonl` and their inverses are the platform's; the
--   64-bit versions are the source's own. Inet/Wire says what they put in memory.
-- + src/zmqpp/frame.cpp: Message/Frames. A frame is its bytes and the flag that it was sent.
-- + src/zmqpp/message.cpp, message.hpp and signal.hpp: Message. A message is a list of frames and a
--   read cursor. Message/Values holds the overloads of `operator<<`, `push_front` and `get`: a
--   `Value` names the overload, and carries a float as its bit pattern. Message/Codec, Stream,
--   Signals, Typing and Copies hold the proofs, and Message/Extract is `extract`.
--   Message/Releases is about memory that is moved into a message and about what removing a part
--   does to it, with the move assignment and the destructor of a frame, and Message/Raw about its
--   properties and groups.
-- + src/zmqpp/poller.cpp and poller.hpp: Poller. The vector of items, and the two maps from sockets
--   and descriptors to positions. Poller/Index says when maps and vector agree and what a client
--   sees, a map from keys to items; Poller/Operations, Removal, Remove and Updates relate each
--   operation to that map, and Duplicates shows what a second `add` of one key does.
-- + src/zmqpp/reactor.cpp: Reactor. A poller, the callables of its items and the removals that are
--   put off while callables run. Reactor/Wellformed relates its items to the poller, Flushing and
--   Noting are about removals that are put off, and Dispatch says what `poll` calls and leaves.
-- + src/zmqpp/loop.cpp: Loop. Items as in the reactor, and timers: Loop/Timers is their list,
--   Loop/Passes the body of `start`, Loop/Nodes the nodes of the list. Sorting, Firing and Serving
--   are about what the timers call and when, Settled, Removal, Returning, Deferral and Stopping
--   about removals that are put off and about the ways in which a pass ends.
-- + src/zmqpp/socket.cpp, `send` and `receive`: Socket/Transfer, with proofs in Socket/Sending,
--   Refusals, Receiving and Delivery; the overloads for signals stand in Socket/Signalling.
-- + src/zmqpp/socket.cpp and socket_options.hpp, `set` and `get`: Socket/Options and its children.
-- + src/zmqpp/socket.cpp, construction, moves and closing: Socket/Endpoints, with the ownership of
--   handles in Socket/Endpoints/Ownership. Socket/Topics holds the small calls and helpers.
-- + src/zmqpp/context.hpp and context.cpp: Context, with Context/Termination on the retries of
--   `terminate` and Context/Lifetime on moves and the destructor.
-- + src/zmqpp/zap_request.cpp: Zap. The constructor reads its strings from a message, and the
--   metadata of a reply is checked in Zap/Metadata against a decoder written from RFC 27.
-- + src/zmqpp/auth.cpp: Auth. `handle_command` and `authenticate`, with the policy that the
--   decisions follow in Auth/Policy, the replies in Auth/Replies and the commands in Auth/Commands.
--   Auth/Requests is the client's side, and Auth/Serving the loop of the server's. What the send
--   of a confirmation answers is an argument, as is that of the signal to stop in Actor.
--   A string is the list of its bytes.
-- + src/zmqpp/actor.cpp: Actor, with Actor/Shutdown on the signals from its start to its end.
-- + src/common.c: Common. The conversions between bytes and text, with proofs in Common/Buffers
--   (copies), Compare, Nibbles, Printing, Parsing and Overrun. Common/Joining joins strings,
--   Common/Jobs is about child processes, and Common/Logging about the log file.
-- + src/client: Client. What is made of the options, with Client/Starting; Client/Reading and Turns
--   are the loop of `main`, with the poller, Client/Opening all of `main`, and Framing, Toggling, Polling
--   and Asserting the proofs about it.
-- + src/zmq_pty_client.cpp: Pty, with what `poll_messages` does in Pty/Watching, Listening,
--   Keeping and Messages, the helpers that measure strings in Pty/Lengths, and `main` in Pty/Main
--   and its children. The build is the one in the file, with DEBUG 1 and without raw data.
-- + src/zmq_pty_server.cpp: Pty/Server, the loop that receives and replies.
--
-- A callable of the reactor or the loop is a number, and what it does is an argument, `program`: from
-- the callables called so far and its number it chooses the calls that it makes and its result. The
-- clock is a function from the number of readings so far. The pass over the timers is recursion on
-- fuel, since a callable can add timers without end; one round more than there are timers is enough
-- for callables that leave the timers alone.
--
-- How they interact: a message is written with the conversions of Inet, `send` hands its frames to
-- libzmq one by one and `receive` collects them, and the authenticator reads requests and commands
-- from messages and answers with one.
--
-- libzmq is not part of the model. What its calls answer is an argument of the definitions: a
-- function from parts to answers for `send`, a list of answers for `receive`, and functions of the
-- option for the options. An error number is what the code reads from `zmq_errno`.
-- A theorem that relies on libzmq says so among its hypotheses. The loops of the clients and the
-- servers run over a list of rounds, each with what libzmq answers in it; when it ends they wait.
-- The scan of Pty for a byte takes the size of the string for its fuel, so that it ends by its own
-- test.
--
-- A call returns a `Result`: a value, the exception it throws, a failed assertion, or undefined
-- behaviour where the source leaves the range of a vector. The loop of `send` is recursion on the
-- number of parts left, and that of `receive` on the list of answers; when the list ends, the call
-- is still waiting. Sizes wrap at 2^64 and the integers of the overloads have the ranges of their
-- C++ types. Allocation is taken to succeed, but in `ccmsg` and `printd`. The build modelled is the
-- one against libzmq 4.2 or later.
--
-- Not modelled: the parts that only call libzmq (proxy, curve, z85), exceptions of `receive` in the
-- loop of the command line client, the end of the input in the loop of the pty client, which waits
-- there, the line feeds of the log file, the interleaving of threads
-- (the other build of the pty client, and zmqpp_pty.cpp), text that is printed for the user, in
-- common.c the parsing of numbers, timestamps and what is built without string.h, tests and
-- examples.
pub mod Actor
pub mod Auth
pub mod Base
pub mod Client
pub mod Common
pub mod Context
pub mod Inet
pub mod Loop
pub mod Message
pub mod Poller
pub mod Pty
pub mod Reactor
pub mod Socket
pub mod Tests
pub mod Zap
