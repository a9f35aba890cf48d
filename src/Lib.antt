-- ===== src/Lib.antt =====
-- Verification library of the lounge server: users connect by WebSocket, join channels by
-- JSON-RPC requests, and play blackjack at a table, which is a channel too.
--
-- The parts and the files.
--
-- server/blackjack/game.hpp: `shoe` is in Blackjack/Shoe, `hand` in Blackjack/Hand. A card is the
-- number of its char, 1 to 52. rand() is a stream of results, about which nothing is assumed.
--
-- server/core/blackjack.cpp: `hand` and `seat` are in Blackjack/Seat, `game` in Blackjack/Game,
-- with a function for each method; a method that sets an error code returns an option of it, and
-- one that invokes the callback returns the events. A seat is a record of the user's address, the
-- state, the hands, the chips, which are unknown until they are assigned, and the wager; the
-- state `open` is called `opened`. What the class `table` posts to its strand is in
-- Lounge/Dispatch, the tasks are in Lounge/Table, and the to_json functions in Lounge/Render.
--
-- server/core/rpc.hpp and rpc.cpp: the codes, errors and calls are in Rpc, rpc_call::extract in
-- Rpc/Extract, stage by stage, and the checked_ functions in Rpc/Checked.
--
-- server/core/channel.cpp and user.cpp: Lounge/Members, and the destructor of a user in
-- Lounge/Farewell. server/core/channel_list.cpp, room.cpp,
-- system.cpp and the loop of ws_user.cpp behind the parser: Lounge/Dispatch; the list's insert
-- and erase: Lounge/Places; the channels of a server that starts: Lounge/Start. All of them work
-- on the state Lounge of Lounge.antt: the users, the channels by their cid, the tasks that the
-- table has posted and the calls made of the server. A handler takes the state, and returns it with how it ended: it returned, threw an rpc_error, or
-- another exception left it.
--
-- The sessions of all users, with operator() as a function of where it goes on, are in
-- Lounge/Sessions: their calls and the ends of users are events in any order.
--
-- server/core/ws_user.cpp also has the queue of outgoing messages: do_send, do_write and on_write
-- are in Session.antt, on a state with the queue and the writes that are outstanding.
--
-- server/core/http_session.cpp: the functions that answer a request are in Http, on strings of
-- bytes, with the files and Boost.Beast as parameters; the coroutine of the sessions is in
-- Http/Session, as a function of the place where it goes on and the arguments of the call, which
-- records what it asks of the stream, the timer and the log.
--
-- server/core/server.cpp and the function ceil of server/core/utility.hpp: Server. Each call of the
-- strand is an event that shows the time in ticks; the main thread enters and leaves run().
--
-- server/core/message.hpp and message.cpp: Messages, on a store of blocks with their counts.
--
-- include/boost/beast/_experimental/core/expected.hpp and its impl/expected.hpp: Expected, on a store
-- of objects, with what the union holds; its constructors, observers and comparisons are in
-- Expected/Observers. The server does not use the class.
--
-- server/core/listener.cpp: Listener, with the set of the sessions of all classes, the accept loop,
-- the detector of TLS and do_stop; its open() is in Program.
--
-- server/core/logger.cpp and logger.hpp: Logger, with the sections and what they write.
--
-- server/core/main.cpp, and parse_file and make_server of server/core/server.cpp, with what they call
-- of logger.cpp and listener.cpp: Program. The answers of the C library, of the acceptor and of the
-- functions of json::value that throw are parameters, and the result has the lines that are printed.
--
-- json::value and boost::container::flat_set are not part of the repository: they are the record
-- Boost of Boost.antt, a parameter of every definition that uses them, with laws that their
-- documentation states. Examples/Json has an instance, on which the theorems are run.
--
-- How they interact: on_message extracts a call from the value of a user and dispatches it by its
-- cid to a channel, which answers to the join and leave of a user itself and hands all else to
-- the room, the system channel or the table. A channel keeps the set of its users and a user the
-- set of the channels.
--
-- A string is the sequence of its bytes.
--
-- Bounds. int is an unbounded integer: the totals of a hand are at most 22 times 11 above 0, and
-- a wager changes by 5 with each bet. The capacity of the cards of a hand is 22, and push_back of
-- a full hand throws, here `none`. The loop of draws has fuel 22, more than the cards that a hand
-- can get before it is done; the loop of ~user() has as much as the user has channels. The
-- countdown of a shutdown is by the number of calls of the timer. The other loops are by recursion on a list or a number of rounds.
--
-- Threads. Lounge/Threads has insert and erase of server/core/channel.cpp once more, as steps of one
-- critical section or one send each, with a point where the thread of each user stands and a
-- schedule that lets them step in any order; the handlers above use each call as one step. A
-- critical section is one step without its lock, so that waiting for a lock is not modelled.
--
-- Lounge/Others compares the state before a handler and after it for the users who did not call.
--
-- Not modelled: the mutexes (a critical section is one step), the sockets, the
-- lifetimes of channels, the threads of the server, and what writes to the log but for its level.
mod Base
pub mod Boost
pub mod Blackjack
pub mod Rpc
pub mod Lounge
pub mod Session
pub mod Http
pub mod Expected
pub mod Listener
pub mod Logger
pub mod Messages
pub mod Program
pub mod Server
mod Examples
