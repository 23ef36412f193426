-- ===== src/Server/Wiring.antt =====
-- How a server is put together: the constructor of ServerConnector
-- (include/json-rpc/server/sconn.hpp), the one of AbstractService with its registration and listen
-- (include/json-rpc/server/service.hpp), and the use of the handler through the connector in
-- src/json-rpc/sockserver.cpp and src/json-rpc/pollserver.cpp.
pub mod Registered
pub mod Startup
pub mod Generated
use json_rpc.Common.{ℕ, zero, String, List, [], ◌∷◌, Option, none, some, false}
use json_rpc.Common.Int.{ℤ, pos, negsuc}
use json_rpc.Errors.{Result, ok, stop, Stop, Fault, Exception, ServerException, throw}
use json_rpc.Json.{Json}
use json_rpc.Request.{Request}
use json_rpc.Proto.{parse_request}
use json_rpc.Service.{Handler, Handlers, find, assign, reg_all, on_request}
use json_rpc.SockClient.{uninit_socket}
use json_rpc.Server.{responded}
use json_rpc.Server.Pool.{SockServer, stop_pool}
use json_rpc.Poll.Server.{remove}
use json_rpc.Server.Listen.{Answers, ServerConnector, start}

-- ServerConnector(port), with what getaddrinfo returns.
unfoldable pub make_connector : String → ℤ → Result ServerConnector
make_connector port (pos zero) =
    ok (record { handler = none; sock = uninit_socket; listening = false; looping = false })
make_connector port _ = throw (Exception.host_fail "Function getaddrinfo error" "localhost" port)

-- ServerConnector::register_service
abbrev pub register_handler : ℕ → ServerConnector → ServerConnector
register_handler id c = record c { handler = some id }

-- A connector and the services that there are, by their numbers.
pub record Program (S Value : Type 0) : Type 0 where
  pub connector : ServerConnector
  pub services : List (ℕ × Handlers S Value)

-- The service with the number, or none if there is no such object.
abbrev pub service_of : {S Value : Type 0} → ℕ → Program S Value → Option (Handlers S Value)
service_of id p = find id p.services

-- AbstractService::stop over a SockServer, up to the join of its loop.
abbrev pub stop_service : SockServer → Result ℤ × SockServer
stop_service server = (ok (pos 0), stop_pool server)

module _ {S Value : Type 0} where
  -- AbstractService(s), of a new object with the number id.
  unfoldable pub make_service : ℕ → Program S Value → Program S Value
  make_service id p = record {
    connector = register_handler id p.connector;
    services = assign id [] p.services;
  }

  -- _reg_wrappers with these calls of `reg`, on the object if there is one.
  reg_wrappers :
      ℕ → List (ℕ × Handler S Value) → Option (Handlers S Value) → Program S Value → Program S Value
  reg_wrappers id calls none p = p
  reg_wrappers id calls (some hs) p = record p {
    services = assign id (reg_all calls hs) p.services;
  }

  -- AbstractService::register_service
  unfoldable pub register_service :
      ℕ → List (ℕ × Handler S Value) → Program S Value → Program S Value
  unfolding reg_wrappers
  register_service id calls p = reg_wrappers id calls (service_of id p) p

  -- The constructor of a generated service.
  unfoldable pub construct : ℕ → List (ℕ × Handler S Value) → Program S Value → Program S Value
  construct id calls p = register_service id calls (make_service id p)

  -- The end of a service object. AbstractService has no destructor of its own: nothing tells the
  -- connector, which keeps the pointer.
  unfoldable pub destroy_service : ℕ → Program S Value → Program S Value
  destroy_service id p = record p { services = remove id p.services }

  listened : Result ℤ × ServerConnector → Program S Value → Result ℤ × Program S Value
  listened (stop e, c) p = (stop e, record p { connector = c })
  listened (ok r, c) p = (ok (pos 0), record p { connector = c })

  -- AbstractService::listen over a SockServer, without a look at what start returned.
  unfoldable pub listen_service : Answers → Program S Value → Result ℤ × Program S Value
  unfolding listened
  listen_service a p = listened (start a p.connector) p

  on_object : Option (Handlers S Value) → Request Value → S → Result (ℕ × Request Value) × S
  on_object none request s = (stop (Stop.fault Fault.dangling), s)
  on_object (some hs) request s = on_request hs request s

  through : Option ℕ → Program S Value → Request Value → S → Result (ℕ × Request Value) × S
  unfolding on_object
  through none p request s = (stop (Stop.fault Fault.null_pointer), s)
  through (some id) p request s = on_object (service_of id p) request s

  -- _handler->on_request(&request)
  unfoldable pub call_handler : Program S Value → Request Value → S → Result (ℕ × Request Value) × S
  unfolding through
  call_handler p request s = through p.connector.handler p request s

module _ (j : Json) {S : Type 0} (p : Program S j.Value) where
  called : Result (Request j.Value) → S → Result (List ℕ) × S
  called (stop e) s = (stop e, s)
  called (ok request) s = responded j [] (call_handler p request s)

  -- From the message to the text of the response, with the handler that the connector points to.
  unfoldable pub answer_through : List ℕ → S → Result (List ℕ) × S
  unfolding called
  answer_through [] s = (throw (Exception.server ServerException.server_bad_message), s)
  answer_through (b ∷ bs) s = called (parse_request j (b ∷ bs)) s
