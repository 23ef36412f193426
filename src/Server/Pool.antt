-- ===== src/Server/Pool.antt =====
-- class SockServer of src/json-rpc/sockserver.cpp: the pool of connections, each known by its
-- descriptor. The loop and a call of `stop` in another thread are taken as steps, one at a time.
pub mod Ends
pub mod Order
pub mod Lifetime
use json_rpc.Common.{ℕ, List, [], ◌∷◌, ◌++◌, Bool, true, false, leb, if◌then◌else◌, length}
use json_rpc.Common.Int.{ℤ}

-- What is done with a connection: `_connected` is set to false, its socket is shut down for reading,
-- its thread is joined, its descriptor is closed.
pub data Act : Type 0 where
  disconnects shuts joins closes : ℤ → Act

-- What `is_active()` of the thread library says of the thread of a connection, after all that has
-- been done. As no two of its calls see the same list, the answers can be any at all.
abbrev pub ThreadTest : Type 0
ThreadTest = List Act → ℤ → Bool

-- Connection::shutdown, with what has been done before and what has been done then.
unfoldable pub shutdown : ThreadTest → ℤ → List Act → List Act
shutdown is_active fd acts =
    let cut = acts ++ disconnects fd ∷ shuts fd ∷ [] in
    (if is_active cut fd then cut ++ joins fd ∷ [] else cut) ++ closes fd ∷ []

-- ~Connection
unfoldable pub delete_connection : ThreadTest → ℤ → List Act → List Act
delete_connection is_active fd acts = shutdown is_active fd acts

-- `looping` is whether the thread of the loop is in it, waiting in accept; `acts` is what has been
-- done, in order.
pub record SockServer : Type 0 where
  pub connections : List ℤ
  pub stopped : Bool
  pub looping : Bool
  pub acts : List Act
  pub is_active : ThreadTest

abbrev pub pool_size : ℕ
pool_size = 16

-- The server when `start` has begun the loop.
abbrev pub started : ThreadTest → SockServer
started is_active = record {
  connections = [];
  stopped = false;
  looping = true;
  acts = [];
  is_active = is_active;
}

-- The `if` of the loop: the oldest connection is shut down, leaves the list and is deleted.
make_room : List ℤ → SockServer → SockServer
make_room [] s = s
make_room (oldconn ∷ rest) s =
    if leb pool_size (length (oldconn ∷ rest))
    then record s {
      connections = rest;
      acts = delete_connection s.is_active oldconn (shutdown s.is_active oldconn s.acts);
    }
    else s

-- The body of the loop behind accept.
unfoldable pub admit : ℤ → SockServer → SockServer
unfolding make_room
admit client_sock s =
    let s' = make_room s.connections s in
    record s' { connections = s'.connections ++ client_sock ∷ [] }

-- The loop of _close_connections.
unfoldable pub shutdown_all : ThreadTest → List ℤ → List Act → List Act
shutdown_all is_active [] acts = acts
shutdown_all is_active (fd ∷ fds) acts = shutdown_all is_active fds (shutdown is_active fd acts)

-- SockServer::_close_connections
unfoldable pub close_connections : SockServer → SockServer
close_connections s = record s {
  connections = [];
  acts = shutdown_all s.is_active s.connections s.acts;
}

-- SockServer::stop up to the join of the loop's thread, and with it ~SockServer.
unfoldable pub stop_pool : SockServer → SockServer
unfolding close_connections
stop_pool s = record (close_connections s) { stopped = true }

abbrev pub destroy_pool : SockServer → SockServer
destroy_pool s = stop_pool s

-- accept returns a descriptor, or -1, and the loop goes round once; or `stop` is called, up to the
-- join of the loop's thread.
pub data Event : Type 0 where
  accepted : ℤ → Event
  stop_called : Event

unfoldable pub step : Event → SockServer → SockServer
unfolding admit stop_pool
step (accepted fd) s =
    if s.looping
    then (let s' = admit fd s in record s' { looping = if s'.stopped then false else true })
    else s
step stop_called s = stop_pool s

unfoldable pub steps : List Event → SockServer → SockServer
unfolding step
steps [] s = s
steps (e ∷ events) s = steps events (step e s)
