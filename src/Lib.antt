-- ===== src/Lib.antt =====
-- A model of json-rpc: remote calls whose messages are JSON texts, each sent behind the four bytes of
-- its length over a socket.
--
-- How the parts work together. A generated client calls AbstractClient::call, which builds the request
-- (Proto::build_request), hands its text to a connector (SockClient) and parses the answer
-- (Proto::parse_response). On the server a connection (class Connection) receives the text, parses it
-- to a Request (Proto::build_request of a text), lets the service dispatch it (AbstractService::
-- on_request), and sends the content of the response, or the number of an exception
-- (Proto::build_response, Proto::build_error). Both ends go through the buffers of buffer.hpp.
--
-- Which file models which part:
--   Common, Common/Tests, Common/Lists, Common/Int: tests on native numbers, lists measured by them,
--     integers with the machine's conversions.
--   Errors: include/json-rpc/errors.hpp, and how a call can end: with a value, an exception, a fault
--     (what C++ leaves undefined, and abort) or by waiting for ever.
--   Buffer/Memory, Buffer/Words: arrays of char whose cells may be unset, memcpy, the bytes of an int.
--   Buffer/Rdon, Buffer/Wron: include/json-rpc/buffer.hpp. Buffer/Rdon/Reading, Buffer/Wron/Writing
--     and Buffer/Memory/Copy hold what is proved of them.
--   Stream: the results of read and write on one socket, in order, and the loops that
--     src/json-rpc/sockclient.cpp and src/json-rpc/sockserver.cpp have in common. Stream/Sending,
--     Stream/Receiving and Stream/Size hold what is proved of them.
--   SockClient: src/json-rpc/sockclient.cpp, with SockClient/Receive and SockClient/Reconnect.
--   Connection: Connection::_recv and _send of src/json-rpc/sockserver.cpp, with Connection/Receive.
--   Wire, with Exchange: the two ends against each other; a call from the client's
--     send_and_response to the thread of a connection and back.
--   Json: the interface of the JSON library jconer, with its laws; Json/Sample is one instance.
--   Request: include/json-rpc/server/request.hpp and src/json-rpc/request.cpp.
--   Proto: src/json-rpc/proto.cpp, with Proto/RoundTrip and Proto/Rejects.
--   Service: include/json-rpc/server/service.hpp, with Service/Dispatch.
--   Server: the answer to one message, as ConnectionThread::run and PollServer::_handle_request make
--     it, with the catch clause of the latter in `reply` and that of the former in Server/Thread; Server/Rpc has the call from end to end, Server/Calls calls one after the other.
--   Server/Thread: ConnectionThread::run, with Server/Thread/Serving, Ending, Outcome (how it
--     returns) and Remote (the calls of a client over one connection); Connection/Reads and
--     Stream/Reads say which reads it takes.
--   Server/Pool: class SockServer of src/json-rpc/sockserver.cpp, with Server/Pool/Ends (how
--     connections end, written out), Server/Pool/Order and Server/Pool/Lifetime.
--   Server/Race: its loop and its stop as two threads, with Server/Race/Sound and Accounts (what no
--     schedule breaks), Single (one thread while the other stands still) and Torn (where they
--     overlap).
--   Server/Listen: ServerConnector::_listen of include/json-rpc/server/sconn.hpp and
--     SockServer::start, with Server/Listen/Again.
--   Server/Wiring: the constructors of ServerConnector and AbstractService, listen, stop and the
--     handler behind the connector, with Server/Wiring/Registered, Startup and Generated (a
--     generated client and a generated service).
--   Poll/Manager: PollManager of src/json-rpc/pollserver.cpp, with Poll/Manager/Watching and
--     Poll/Manager/Polling.
--   Poll/Channel: Channel, with Poll/Channel/Receiving and Messages (what it reads), Writing, Sending
--     and Managed (what it writes).
--   Poll/Server: PollServer, with Poll/Server/Watched and Invariant (what the loop watches), Rounds,
--     Answering, Remote (the calls of a client over one connection), Isolation (what the others see
--     of it), Closing (a client that leaves while its answer is sent) and Stopping.
--   Client: include/json-rpc/client/client.hpp over any connector, with Client/Retry and Client/Calls;
--     Client/Remote has a client that is connected to a server.
--   Stub/Members: the std::map of names and types, with Stub/Members/Order.
--   Stub/Defs: include/stubgen/classdef.hpp and include/stubgen/servicedef.hpp, with Stub/Defs/Reorder.
--   Stub/Pieces, Stub/Writer: include/stubgen/writer.hpp; Stub/Writer/Nested, Classes, Functions and Header follow
--     its brackets.
--   Stub/Main: src/stubgen/stubgen.cpp, with Stub/Main/Accepts.
--   Stub/Routes: what the registrations of a generated header do in include/json-rpc/server/service.hpp.
--   Examples: the theorems at concrete inputs.
--
-- Stateful code passes its state along; a function that can fail returns a Result, and one that fails
-- after a change of state returns both. What the operating system answers (socket, connect, read,
-- write) is a list of results, consumed in order; a call without a result left waits. `fresh` is what
-- the allocator leaves in new memory, nothing or a given byte, and `aborts` whether LOG(FATAL) of the
-- logging library ends the program. An int is 32 bits, a long and a size_t are 64, in two's complement;
-- the bytes of an int stand in the order of a little-endian machine. Assertions are on.
--
-- Loops. The send loop has fuel, two more than the bytes to be sent: each round takes one byte at
-- least, and a round more finds the buffer empty. The receive loops recur on the list of reads. The
-- thread of a connection has one round more than there are reads, and each round takes one. The retry
-- loop of a call has as fuel the number of its rounds and returns none when they are used up,
-- since the source bounds it by nothing.
--
-- Not modelled: the JSON library (a parameter of the model), the logging and the thread library, the
-- files and streams of the generator. Of threads there is what one sees of the others: the flag of a
-- connection as another thread may clear it, the loop of the socket server and one call of its stop
-- statement by statement in any schedule, with any answers of is_active() for the threads of the
-- connections, and the steps of the polling server's loop and of its pool
-- as events in any order, each taken whole. What the pool of the polling server does with channels
-- that its stop has taken out of the map is not followed, nor are the races within one of its events.
--
-- The two threads of the socket server. A schedule is a list of moves: a client that connects, a
-- statement of the loop, a statement of stop; one that has to wait does nothing. Connection::shutdown
-- is one statement; the iterator of _close_connections is the number of connections before it, or
-- `lost` when its node has left the list.
--
-- A server and its service point to each other: Server/Wiring has the services in a store, by their
-- numbers, and the connector has a number or nothing.
--
-- The generator. Its texts are strings. toupper and itos of the library common and std::hash are
-- parameters, and so are the operations of the JSON values. The digits of a number have as fuel ten,
-- as many as an int has.
--
-- The polling server. An event is a descriptor that the loop finds readable or writable, or a thread
-- that takes a job or sends an answer. A channel stands under its descriptor, and a pointer to it is
-- that descriptor, or nothing once the channel is deleted. select answers with the sets of descriptors
-- that are ready, and an fd_set has room for 1024. Poll.Channel.Machine says what a machine does where
-- C++ leaves it open: the memory behind an array of the heap, whether the byte behind an array on the
-- stack is free, whether unlocking a mutex that is not locked does nothing; `strict` allows none of it.
pub mod Common
pub mod Errors
pub mod Buffer
pub mod Stream
pub mod SockClient
pub mod Connection
pub mod Wire
pub mod Json
pub mod Request
pub mod Proto
pub mod Service
pub mod Server
pub mod Poll
pub mod Stub
pub mod Client
mod Examples
