-- ===== src/Server/Listen.antt =====
-- ServerConnector::_listen of include/json-rpc/server/sconn.hpp and SockServer::start of
-- src/json-rpc/sockserver.cpp.
pub mod Again
use json_rpc.Common.{ℕ, Option, Bool, true, false, if◌then◌else◌}
use json_rpc.Common.Int.{ℤ, pos, negsuc}
use json_rpc.Errors.{Result, ok, stop, Stop, Exception, throw}
use json_rpc.SockClient.{is_uninit}

-- What the system answers to socket, which gives a descriptor or -1, and whether it answers 0 to
-- bind and to listen.
pub record Answers : Type 0 where
  pub socket : ℤ
  pub binds : Bool
  pub listens : Bool

-- `handler` points to the service, by its number. `listening` is whether the system has accepted a
-- listen on the socket, `looping` whether the thread of the loop has been started.
pub record ServerConnector : Type 0 where
  pub handler : Option ℕ
  pub sock : ℤ
  pub listening : Bool
  pub looping : Bool

-- The rest of _listen, with the new socket in `_sock`.
bound : Answers → ServerConnector → Result ℤ × ServerConnector
bound a c =
    if is_uninit c.sock
    then (throw (Exception.socket_fail "socket"), c)
    else if a.binds
    then (if a.listens
        then (ok (pos 0), record c { listening = true })
        else (throw (Exception.socket_fail "listen"), c))
    else (throw (Exception.socket_fail "bind"), c)

unfoldable pub listen : Answers → ServerConnector → Result ℤ × ServerConnector
unfolding bound
listen a c = if is_uninit c.sock then bound a (record c { sock = a.socket }) else (ok (negsuc 0), c)

-- What start does behind _listen, without a look at what it returned.
begun : Result ℤ × ServerConnector → Result ℤ × ServerConnector
begun (stop e, c) = (stop e, c)
begun (ok _, c) = (ok (pos 0), record c { looping = true })

-- SockServer::start
unfoldable pub start : Answers → ServerConnector → Result ℤ × ServerConnector
unfolding begun
start a c = begun (listen a c)
