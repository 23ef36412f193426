-- ===== src/SockClient.antt =====
-- src/json-rpc/sockclient.cpp: the socket connector of a client. `fresh` is what the allocator
-- leaves in new memory (Buffer/Memory.antt).
pub mod Receive
pub mod Reconnect
use json_rpc.Common.{
  ℕ, String, List, [], ◌∷◌, Bool, true, false, Option, none, some, ◌==◌, ◌&&◌, if◌then◌else◌,
  length,
}
use json_rpc.Common.Int.{ℤ, pos, negsuc}
use json_rpc.Errors.{Result, ok, stop, Stop, Exception, ◌>>=◌}
use json_rpc.Buffer.Memory.{c_text}
use json_rpc.Buffer.Wron.{make_wron}
use json_rpc.Stream.{Stream, Read, got, read_error, send_text, recv_loop, new_chunk, header}

-- What the operating system answers to the calls to come: the results of socket(), those of
-- connect(), with the new stream where it succeeds, and the stream that is connected now. `closed`
-- lists the descriptors given to close(), the latest first.
pub record Net : Type 0 where
  pub sockets : List ℤ
  pub connects : List (Option Stream)
  pub stream : Stream
  pub closed : List ℤ

-- class SockClient. An address of `_server_info` is an opaque number.
pub record SockClient : Type 0 where
  pub sock : ℤ
  pub host : String
  pub port : String
  pub server_info : List ℕ
  pub net : Net
  pub open net use *

-- fd == UNINIT_SOCKET
abbrev pub is_uninit : ℤ → Bool
is_uninit (negsuc ℕ.zero) = true
is_uninit _ = false

abbrev pub uninit_socket : ℤ
uninit_socket = negsuc 0

-- The constructor: getaddrinfo gave `none` if it failed.
unfoldable pub make_client : String → String → Option (List ℕ) → Net → Result SockClient
make_client host port none net =
    stop (Stop.thrown (Exception.host_fail "Function getaddrinfo fail" host port))
make_client host port (some info) net =
    ok (record { sock = uninit_socket; host = host; port = port; server_info = info; net = net })

abbrev pub close : ℤ → Net → Net
close fd net = record net { closed = fd ∷ net.closed }

-- The `for` of reconnect, from the address at the head: whether it was left by `break`, `_sock`
-- and the system.
unfoldable pub connect_loop : List ℕ → ℤ → Net → Result Bool × ℤ × Net
connect_loop [] sock net = (ok false, sock, net)
connect_loop (ptr ∷ rest) sock net = elim net.sockets [
  | [] ↦ (stop Stop.waiting, sock, net)
  | fd ∷ sockets ↦ elim (is_uninit fd) [
    | true ↦ connect_loop rest fd (record net { sockets = sockets })
    | false ↦ elim net.connects [
      | [] ↦ (stop Stop.waiting, fd, record net { sockets = sockets })
      | some stream ∷ connects ↦
          (ok true, fd, record net { sockets = sockets; connects = connects; stream = stream })
      | none ∷ connects ↦
          connect_loop rest fd (close fd (record net { sockets = sockets; connects = connects }))
    ]
  ]
]

-- The end of reconnect: `ptr == nullptr` unless the loop was left by `break`.
connected : SockClient → Result Bool → Result (Unit {0})
connected c (stop e) = stop e
connected c (ok true) = ok tt
connected c (ok false) = stop (Stop.thrown (Exception.host_fail "Can't connect" c.host c.port))

unfoldable pub reconnect : SockClient → Result (Unit {0}) × SockClient
unfolding connected
reconnect c =
    let start = if is_uninit c.sock then c.net else close c.sock c.net in
    let (found, sock, net) = connect_loop c.server_info uninit_socket start in
    (connected c found, record c { sock = sock; net = net })

-- SockClient::~SockClient
unfoldable pub destroy_client : SockClient → Net
destroy_client c = if is_uninit c.sock then c.net else close c.sock c.net

-- `if (write(_sock, chunk, len) != len) throw WriteFailException();`
unfoldable pub judge_write : ℤ → ℕ → Result (Unit {0})
judge_write (pos n) len = if n == len then ok tt else stop (Stop.thrown Exception.write_fail)
judge_write (negsuc n) len = stop (Stop.thrown Exception.write_fail)

-- SockClient::_send
unfoldable pub send : List ℕ → Stream → Result (Unit {0}) × Stream
send msg s = send_text judge_write msg s

-- The loop of _recv and `result.assign(wr_buffer.c_str())`.
receive_body : Option ℕ → ℤ → List Read → Result (List ℕ) × List Read
receive_body fresh (negsuc n) rs = (stop (Stop.thrown Exception.read_fail), rs)
receive_body fresh (pos ℕ.zero) rs = (stop (Stop.thrown Exception.read_fail), rs)
receive_body fresh (pos (ℕ.suc n)) rs =
    let (r, rs') = recv_loop true fresh (ℕ.suc n) rs new_chunk (make_wron fresh) 0 in
    (r >>= λ wr. c_text wr.cells, rs')

-- The read of the size, which must bring four bytes.
receive : Option ℕ → List Read → Result (List ℕ) × List Read
unfolding receive_body
receive fresh [] = (stop Stop.waiting, [])
receive fresh (read_error ∷ rs) = (stop (Stop.thrown Exception.read_fail), rs)
receive fresh (got bs ∷ rs) =
    if length bs == 4
    then receive_body fresh (header bs) rs
    else (stop (Stop.thrown Exception.read_fail), rs)

-- SockClient::_recv
unfoldable pub recv : Option ℕ → Stream → Result (List ℕ) × Stream
unfolding receive
recv fresh s = let (r, rs) = receive fresh s.reads in (r, record s { reads = rs })

-- The rest of send_and_response, when the call of reconnect, if any, has returned.
exchange : Option ℕ → List ℕ → Result (Unit {0}) × SockClient → Result (List ℕ) × SockClient
exchange fresh msg (stop e, c) = (stop e, c)
exchange fresh msg (ok _, c) =
    let (w, s) = send msg c.stream in
    elim w [
      | stop e ↦ (stop e, record c { net = record c.net { stream = s } })
      | ok _ ↦ let (r, s') = recv fresh s in (r, record c { net = record c.net { stream = s' } })
    ]

unfoldable pub send_and_response : Option ℕ → List ℕ → SockClient → Result (List ℕ) × SockClient
unfolding exchange
send_and_response fresh msg c =
    exchange fresh msg (if is_uninit c.sock then reconnect c else (ok tt, c))
