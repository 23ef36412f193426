-- ===== src/Server/Thread.antt =====
-- ConnectionThread::run of src/json-rpc/sockserver.cpp: the thread of one connection. Another thread
-- may call Connection::shutdown at any time, which clears `_connected`; `shuts` says for each look
-- at the flag whether that has happened since the look before, and no more at its end.
pub mod Serving
pub mod Ending
pub mod Outcome
pub mod Remote
use json_rpc.Common.{
  ℕ, zero, suc, List, [], ◌∷◌, Bool, true, false, Option, ◌==◌, ◌&&◌, if◌then◌else◌, length,
}
use json_rpc.Errors.{
  Result, ok, stop, Stop, Exception, ServerException, throw, get_code, socket_closed,
}
use json_rpc.Json.{Json}
use json_rpc.Proto.{build_error}
use json_rpc.Service.{Handlers}
use json_rpc.Server.{answer}
use json_rpc.Stream.{Stream}
use json_rpc.Connection.{send, recv}

pub record Conn : Type 0 where
  pub stream : Stream
  pub connected : Bool
  pub shuts : List Bool

-- Connection(server, sock), with the times at which other threads will shut it down.
abbrev pub make_connection : Stream → List Bool → Conn
make_connection stream shuts = record { stream = stream; connected = true; shuts = shuts }

-- Connection::_send_error
unfoldable pub send_error : (j : Json) → Bool → ℕ → Stream → Result (Unit {0}) × Stream
send_error j aborts code stream = send aborts (build_error j code) stream

-- One look at `_connected`.
unfoldable pub look : Conn → Bool × Conn
look c = elim c.shuts [
  | [] ↦ (c.connected, c)
  | shut ∷ shuts ↦
      let now = if shut then false else c.connected in
      (now, record c { connected = now; shuts = shuts })
]

module _ (j : Json) (fresh : Option ℕ) (aborts : Bool) {S : Type 0} (hs : Handlers S j.Value) where
  -- _send_response, and the look behind it.
  responding : Result (List ℕ) × S → Conn → Result (Unit {0}) × Conn × S
  unfolding look
  responding (stop e, s) c = (stop e, c, s)
  responding (ok text, s) c =
      let (w, stream) = send aborts text c.stream in
      elim w [
        | stop e ↦ (stop e, record c { stream = stream }, s)
        | ok _ ↦
            let (on, c') = look (record c { stream = stream }) in
            (
              if on then ok tt else throw (Exception.server ServerException.server_close_socket),
              c',
              s,
            )
      ]

  received : Result (List ℕ) × Stream → Conn → S → Result (Unit {0}) × Conn × S
  unfolding responding
  received (stop e, stream) c s = (stop e, record c { stream = stream }, s)
  received (ok msg, stream) c s = responding (answer j hs msg s) (record c { stream = stream })

  -- The body of the `try`.
  unfoldable pub attempt : Conn → S → Result (Unit {0}) × Conn × S
  unfolding received
  attempt c s = received (recv fresh c.stream) c s

  -- The `catch` clause, which ends the loop. What _send_error throws leaves the thread.
  unfoldable pub handled : ServerException → Conn → S → Result (Unit {0}) × Conn × S
  unfolding look send_error
  handled e c s =
      let (on, c') = look c in
      if on && (get_code e == socket_closed)
      then (ok tt, record c' { connected = false }, s)
      else let (w, stream) = send_error j aborts (get_code e) c'.stream in
        (w, record c' { stream = stream }, s)

  turned :
      Result (Unit {0}) × Conn × S
      → (Conn → S → Result (Unit {0}) × Conn × S)
      → Result (Unit {0}) × Conn × S
  unfolding handled
  turned (ok _, c, s) again = again c s
  turned (stop (Stop.thrown (Exception.server e)), c, s) again = handled e c s
  turned (stop x, c, s) again = (stop x, c, s)

  -- The loop, with the number of rounds left.
  unfoldable pub run : ℕ → Conn → S → Result (Unit {0}) × Conn × S
  unfolding turned attempt look
  run zero c s = (stop Stop.waiting, c, s)
  run (suc fuel) c s =
      let (on, c') = look c in if on then turned (attempt c' s) (run fuel) else (ok tt, c', s)

  -- ConnectionThread::run. A round takes one read at least.
  unfoldable pub serve : Conn → S → Result (Unit {0}) × Conn × S
  unfolding run
  serve c s = run (suc (length c.stream.reads)) c s
