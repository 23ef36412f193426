-- ===== src/SockClient/Reconnect.antt =====
-- SockClient::reconnect: which descriptor the client is left with.
use json_rpc.Common.{
  ℕ, ◌≡◌, refl, sym, ap, ◌∙◌, List, [], ◌∷◌, ◌++◌, map, arith, Option, some, none, true, false,
  length, replicate, append-nil, Bool, if◌then◌else◌,
}
use json_rpc.Common.Int.{ℤ, pos}
use json_rpc.Errors.{Result, ok, stop, Stop, Exception}
use json_rpc.Stream.{Stream}
use json_rpc.SockClient.{
  SockClient, Net, is_uninit, uninit_socket, close, connect_loop, connected, reconnect,
  destroy_client, send_and_response, exchange,
}

-- The descriptors closed one after the other, and the last of them.
abbrev pub close_all : List ℕ → List ℤ → List ℤ
close_all [] closed = closed
close_all (fd ∷ fds) closed = close_all fds (pos fd ∷ closed)

abbrev pub last : ℤ → List ℕ → ℤ
last sock [] = sock
last sock (fd ∷ fds) = last (pos fd) fds

-- The descriptors that close_all adds begin with the last one.
close_all-last :
    (fds : List ℕ) (fd : ℕ) (closed : List ℤ)
    → (more : List ℤ) × (close_all (fd ∷ fds) closed ≡ last (pos fd) fds ∷ more)
close_all-last [] fd closed = (closed, refl)
close_all-last (x ∷ fds) fd closed = close_all-last fds x (pos fd ∷ closed)

connect_loop_refuse :
    (p : ℕ) (rest : List ℕ) (sock : ℤ) (net : Net) (fd : ℤ) (sockets : List ℤ)
    (connects : List (Option Stream))
    → net.sockets ≡ fd ∷ sockets
    → net.connects ≡ none ∷ connects
    → is_uninit fd ≡ false
    → connect_loop (p ∷ rest) sock net
      ≡ connect_loop rest fd
          (record net { sockets = sockets; connects = connects; closed = fd ∷ net.closed })
unfolding connect_loop
connect_loop_refuse p rest sock net fd sockets connects s c f = rw (connect_loop, s, f, c)

connect_loop_accept :
    (p : ℕ) (rest : List ℕ) (sock : ℤ) (net : Net) (fd : ℤ) (sockets : List ℤ) (stream : Stream)
    (connects : List (Option Stream))
    → net.sockets ≡ fd ∷ sockets
    → net.connects ≡ some stream ∷ connects
    → is_uninit fd ≡ false
    → connect_loop (p ∷ rest) sock net
      ≡ (ok true, fd, record net { sockets = sockets; connects = connects; stream = stream })
unfolding connect_loop
connect_loop_accept p rest sock net fd sockets stream connects s c f = rw (connect_loop, s, f, c)

ends :
    (sock : ℤ) (net : Net)
    → ◌≡◌ {A = Result Bool × ℤ × Net} (connect_loop [] sock net) (ok false, sock, net)
unfolding connect_loop
ends sock net = refl

-- Addresses that refuse are tried in turn, each with a descriptor of its own, which is closed.
connect_loop_refused :
    (tried rest fds : List ℕ) (sock : ℤ) (net : Net) (sockets : List ℤ)
    (connects : List (Option Stream))
    → length tried ≡ length fds
    → net.sockets ≡ map pos fds ++ sockets
    → net.connects ≡ replicate (length fds) none ++ connects
    → connect_loop (tried ++ rest) sock net
      ≡ connect_loop rest
          (last sock fds)
          (record net { sockets = sockets; connects = connects; closed = close_all fds net.closed })
connect_loop_refused [] rest [] sock net sockets connects e s c =
    λ i. connect_loop rest sock (record net { sockets = s i; connects = c i })
connect_loop_refused [] rest (fd ∷ fds) sock net sockets connects e s c = absurd (omega arith)
connect_loop_refused (p ∷ tried) rest [] sock net sockets connects e s c = absurd (omega arith)
connect_loop_refused (p ∷ tried) rest (fd ∷ fds) sock net sockets connects e s c =
    connect_loop_refuse p (tried ++ rest) sock net (pos fd) (map pos fds ++ sockets)
      (replicate (length fds) none ++ connects) s c refl
    ∙ connect_loop_refused tried rest fds (pos fd) _ sockets connects (omega arith) refl refl

last-in_use : (fds : List ℕ) (fd : ℕ) → is_uninit (last (pos fd) fds) ≡ false
last-in_use [] fd = refl
last-in_use (x ∷ fds) fd = last-in_use fds x

-- The system as reconnect's loop finds it: a socket in use is closed first.
abbrev pub at_start : SockClient → Net
at_start c = if is_uninit c.sock then c.net else close c.sock c.net

sockets-at_start : (c : SockClient) → (at_start c).sockets ≡ c.sockets
sockets-at_start c = ground arith

connects-at_start : (c : SockClient) → (at_start c).connects ≡ c.connects
connects-at_start c = ground arith

-- If the first addresses refuse, each with a descriptor of its own, and the next one accepts, then
-- reconnect returns with the descriptor and the stream of that connection, and has closed the
-- descriptors of the others and the one that the client had.
pub reconnect_accepted :
    (c : SockClient) (tried rest fds : List ℕ) (p fd : ℕ) (sockets : List ℤ) (stream : Stream)
    (connects : List (Option Stream))
    → c.server_info ≡ tried ++ p ∷ rest
    → length tried ≡ length fds
    → c.sockets ≡ map pos fds ++ pos fd ∷ sockets
    → c.connects ≡ replicate (length fds) none ++ some stream ∷ connects
    → reconnect c ≡ (
      ok tt,
      record c {
        sock = pos fd;
        net = record {
          sockets = sockets;
          connects = connects;
          stream = stream;
          closed = close_all fds (at_start c).closed;
        };
      },
    )
unfolding reconnect
reconnect_accepted c tried rest fds p fd sockets stream connects i e s k =
    ap (λ r. (connected c r.0, record c { sock = r.1; net = r.2 }))
      (ap (λ l. connect_loop l uninit_socket (at_start c)) i
        ∙ connect_loop_refused tried (p ∷ rest) fds uninit_socket (at_start c) (pos fd ∷ sockets)
            (some stream ∷ connects) e (sockets-at_start c ∙ s) (connects-at_start c ∙ k)
        ∙ connect_loop_accept p rest _ _ (pos fd) sockets stream connects refl refl refl)

-- The client after a reconnect that every address refused.
abbrev pub stale : SockClient → List ℕ → ℕ → List ℤ → List (Option Stream) → SockClient
stale c fds fd sockets connects = record c {
  sock = last (pos fd) fds;
  net = record {
    sockets = sockets;
    connects = connects;
    stream = (at_start c).stream;
    closed = close_all (fd ∷ fds) (at_start c).closed;
  };
}

module _ (c : SockClient) (fds : List ℕ) (fd : ℕ) (sockets : List ℤ)
    (connects : List (Option Stream)) (as_many : length c.server_info ≡ length (fd ∷ fds))
    (opens : c.sockets ≡ map pos (fd ∷ fds) ++ sockets)
    (refuses : c.connects ≡ replicate (length (fd ∷ fds)) none ++ connects) where
  refused : reconnect c ≡ (
    stop (Stop.thrown (Exception.host_fail "Can't connect" c.host c.port)),
    stale c fds fd sockets connects,
  )
  unfolding reconnect
  refused =
      ap (λ r. (connected c r.0, record c { sock = r.1; net = r.2 }))
        (ap (λ l. connect_loop l uninit_socket (at_start c)) (sym (append-nil c.server_info))
          ∙ connect_loop_refused c.server_info [] (fd ∷ fds) uninit_socket (at_start c) sockets
              connects as_many (sockets-at_start c ∙ opens) (connects-at_start c ∙ refuses)
          ∙ ends (last (pos fd) fds) _)

  -- If every address, of one or more, refuses the connection, reconnect throws HostFailException
  -- and leaves the client with the descriptor that it has closed last, which the destructor then
  -- closes a second time.
  pub reconnect_refused :
      ((reconnect c).0 ≡ stop (Stop.thrown (Exception.host_fail "Can't connect" c.host c.port)))
      × ((more : List ℤ) × ((reconnect c).1.closed ≡ (reconnect c).1.sock ∷ more)
          × ((destroy_client (reconnect c).1).closed
              ≡ (reconnect c).1.sock ∷ (reconnect c).1.sock ∷ more))
  unfolding destroy_client
  reconnect_refused =
      let (more, kept) = close_all-last fds fd (at_start c).closed in
      rw (refused, destroy_client, last-in_use fds fd)
        (refl, (more, kept, ap (λ t. last (pos fd) fds ∷ t) kept))

exchange_lem :
    (fresh : Option ℕ) (msg : List ℕ) (c : SockClient)
    → let c' = (exchange fresh msg (ok tt, c)).1 in
      (c'.sock ≡ c.sock)
      × (c'.sockets ≡ c.sockets)
      × (c'.connects ≡ c.connects)
      × (c'.closed ≡ c.closed)
unfolding exchange
exchange_lem fresh msg c = ground arith

-- After a reconnect that every address, of one or more, refused, send_and_response keeps the closed
-- descriptor and opens no socket: no address is tried again.
pub send_after_refused :
    (c : SockClient) (fds : List ℕ) (fd : ℕ) (sockets : List ℤ) (connects : List (Option Stream))
    (fresh : Option ℕ) (msg : List ℕ)
    → length c.server_info ≡ length (fd ∷ fds)
    → c.sockets ≡ map pos (fd ∷ fds) ++ sockets
    → c.connects ≡ replicate (length (fd ∷ fds)) none ++ connects
    → let c' = (reconnect c).1 in
      let c'' = (send_and_response fresh msg c').1 in
      (c''.sock ≡ c'.sock)
      × (c''.sockets ≡ c'.sockets)
      × (c''.connects ≡ c'.connects)
      × (c''.closed ≡ c'.closed)
      × ((more : List ℤ) × (c''.closed ≡ c''.sock ∷ more))
unfolding send_and_response
send_after_refused c fds fd sockets connects fresh msg e s k =
    let (more, kept) = close_all-last fds fd (at_start c).closed in
    let (a, b, d, f) = exchange_lem fresh msg (stale c fds fd sockets connects) in
    rw (refused c fds fd sockets connects e s k, send_and_response, last-in_use fds fd)
      (a, b, d, f, (more, f ∙ kept ∙ ap (λ t. t ∷ more) (sym a)))
