-- ===== src/Lib.antt =====
-- The messaging core that CCTAS carries for its containers: ZeroMQ 3.2.3, in
-- pruebas/createContainer/zeromq-3.2.3/src (file names below are relative to it).
--
-- The parts. A socket keeps its pipes in an `array_t`; `lb_t` spreads outgoing messages over them
-- in turn, `fq_t` fetches incoming ones in turn, and `dist_t` sends each message to all matching
-- pipes. `req_t` and `rep_t` keep their users to requests and replies in turn, on top of
-- `dealer_t` and `router_t`, which stand on the balancers. A `ctx_t` gives the sockets their
-- slots, and each is an `own_t` in a tree of owners, which is shut down from its root. A pipe is a
-- `pipe_t` at each end of two `ypipe_t` queues. Subscriptions are counted in a `trie_t`, which is
-- asked before a message is passed on; an `mtrie_t` knows which pipes are subscribed to what. A
-- `msg_t` that is long shares its data with its copies. An engine turns messages into bytes by an
-- encoder and bytes into messages by a decoder, whose sizes are written and read by the functions of
-- wire.hpp.
--
-- The files.
--   Wire      wire.hpp: put_uintN and get_uintN, over lists of bytes.
--   Framing   encoder.hpp (Framing/Encoder) and decoder.hpp (Framing/Decoder), the two base class
--             templates, over an interface for the derived class; v1_encoder.cpp
--             (Framing/V1/Encoder) and v1_decoder.cpp (Framing/V1), encoder.cpp
--             (Framing/V0/Encoder) and decoder.cpp (Framing/V0), which fill it; what the two
--             encoders share is in Framing/Encoder/Framed. A member function that `next` points to
--             is a constructor of Step; read_pos and write_pos are the lists of the bytes that were
--             read or are still to write.
--   Array     array.hpp. An object is a number; index_of holds the objects' own indices.
--   Balance   lb.cpp (Balance/Lb), fq.cpp (Balance/Fq) and dist.cpp (Balance/Dist), over the
--             interface Pipes, which stands for the calls of pipe_t.
--   Ctx       ctx.cpp: the options, the slots, the sockets and the I/O threads of a context, and its
--             inproc endpoints (Ctx/Endpoints). The ints of an option and of the loop over the free
--             slots are words of 32 bits, whose sums wrap around.
--   Own       own.cpp: one object of the tree of owners, with the commands that it sends as a list;
--             Own/Ending the commands that it handles while it terminates.
--   Ypipe     ypipe.hpp: the queue between a writer and a reader; a pointer is a position, and NULL
--             is none.
--   Pipe      pipe.cpp: one end of a pipe, with the commands that it sends to its peer as a list.
--             Pipe/Reading, Pipe/Writing and Pipe/Closing hold its handlers, and
--             Pipe/Handshake two ends that exchange pipe_term and pipe_term_ack.
--             Pipe/Flow holds two ends while both are active, with the commands on the way to each:
--             a step is a call of one end, or a command that it takes.
--   Options   options.cpp: the options of a socket, with the bytes that setsockopt reads and
--             getsockopt writes; Options/Numbers has the integers. The build is one with TCP
--             keepalive, where all of its options are stored.
--   Sockets   req.cpp over dealer.cpp (Sockets/Req, Sockets/Dealer) and rep.cpp over router.cpp
--             (Sockets/Rep, Sockets/Router). A derived class knows its base class by the interface
--             BaseClass, a router its pipes by PeerPipes. Sockets/Pair and Sockets/Push have
--             pair.cpp, push.cpp and pull.cpp, Sockets/Xsub xsub.cpp and sub.cpp.
--   Message   msg.cpp and atomic_counter.hpp: the messages of a program side by side over a heap of
--             contents; a pointer is the number of an allocation, which is not used again.
--   Tables    what trie.cpp and mtrie.cpp share: the tables of pointers, which are the data type
--             Slots, NULL included, the way of add through them, and what is left of a table when a
--             node was deleted. Trie has the rest of trie.cpp, Mtrie that of mtrie.cpp, with the set
--             of pipes at a node as an ascending list.
--   Base      the names and lemmas that the others share.
-- In each, an operation of the class is a function of the same name from a state to a state, with
-- none where a zmq_assert fails, and the other results in a pair.
--
-- Bounds and fuel. Numbers are natural numbers; a value that the code cuts to a width is cut by a
-- remainder, and a shift is a division. The loops of process_buffer and get_data run on fuel: one
-- round for each byte of the input and one more, and two rounds for each byte of the buffer and
-- two more. Between two rounds that move no byte an action of lower rank follows, so this fuel is
-- never used up. The loop of actions in the decoder has as many rounds as there are ranks, and one
-- more. The loops of the sockets around recvpipe have a round for each part in the pipes and one
-- more, or two for each where router_t puts an identity in front, and each round takes a part out
-- (Sockets/Router/Fetching has that of router_t).
-- The loops of pipe_t that empty a queue have a round for each item and one more, and each round
-- takes an item out. All other loops run over an explicit count or a structure.
--
-- Not modelled. The memory behind tables (realloc, memmove beyond what a table holds afterwards),
-- the destructors, threads and sockets of the operating system. The objects a component calls but
-- does not own, that is the message source and sink, the pipes, and the parser of accept filters,
-- are parameters. A sender's message source gives the messages of a list and then EAGAIN. Two
-- active ends of a pipe make no hiccup in Pipe/Flow, but for the one in Pipe/Flow/Hiccup. Of ctx_t
-- what terminate waits for, and the locks, since a lock makes each operation one step. The
-- sockets' sessions but for req_session_t::push_msg, socket_base_t, XPUB, the engines, the pollers
-- and PGM.
pub mod Array
pub mod Balance
pub mod Base
pub mod Ctx
pub mod Framing
pub mod Message
pub mod Mtrie
pub mod Options
pub mod Own
pub mod Pipe
pub mod Sockets
pub mod Tables
pub mod Trie
pub mod Wire
pub mod Ypipe
