-- ===== src/Server.antt =====
-- The answer to one message: the body of the `try` in ConnectionThread::run
-- (src/json-rpc/sockserver.cpp) and in PollServer::_handle_request (src/json-rpc/pollserver.cpp).
pub mod Rpc
pub mod Calls
pub mod Thread
pub mod Pool
pub mod Listen
pub mod Race
pub mod Wiring
use json_rpc.Common.{ℕ, List, [], ◌∷◌, Option, none, some}
use json_rpc.Errors.{Result, ok, stop, Stop, Exception, ServerException, throw, get_code}
use json_rpc.Json.{Json}
use json_rpc.Request.{Request}
use json_rpc.Proto.{parse_request, build_response, build_error}
use json_rpc.Service.{Handlers, on_request}

module _ (j : Json) {S : Type 0} (hs : Handlers S j.Value) where
  -- What follows on_request: the number 0 means that there is no such method.
  pub responded : Result (ℕ × Request j.Value) × S → Result (List ℕ) × S
  responded (ok (ℕ.zero, request), s) =
      (throw (Exception.server ServerException.server_method_not_found), s)
  responded (ok (ℕ.suc n, request), s) = (ok (build_response j request.response), s)
  responded (stop e, s) = (stop e, s)

  pub dispatched : Result (Request j.Value) → S → Result (List ℕ) × S
  unfolding responded
  dispatched (stop e) s = (stop e, s)
  dispatched (ok request) s = responded (on_request hs request s)

  -- From the message to the text of the response.
  unfoldable pub answer : List ℕ → S → Result (List ℕ) × S
  unfolding dispatched
  answer [] s = (throw (Exception.server ServerException.server_bad_message), s)
  answer (b ∷ bs) s = dispatched (parse_request j (b ∷ bs)) s

  -- The `catch (ServerException&)` of PollServer::_handle_request: the error's text, whatever the
  -- code. That of ConnectionThread::run, which sends nothing where the client has closed, is `handled`
  -- in Server/Thread.
  pub or_error : Result (List ℕ) → Result (List ℕ)
  or_error (ok text) = ok text
  or_error (stop (Stop.thrown (Exception.server e))) = ok (build_error j (get_code e))
  or_error (stop s) = stop s

  -- The text that PollServer::_handle_request sends back.
  unfoldable pub reply : List ℕ → S → Result (List ℕ) × S
  unfolding or_error
  reply msg s = let (r, s') = answer msg s in (or_error r, s')
