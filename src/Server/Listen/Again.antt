-- ===== src/Server/Listen/Again.antt =====
-- When a start listens, and a start after one that failed.
use json_rpc.Common.{◌≡◌, ◌⊎◌, ◌↔◌, inl, inr, refl, arith, String, true, false, Bool-cases}
use json_rpc.Common.Int.{ℤ, pos}
use json_rpc.Errors.{Result, ok, stop, Stop, Exception, throw}
use json_rpc.SockClient.{is_uninit}
use json_rpc.Server.Listen.{Answers, ServerConnector, listen, bound, begun, start}

-- A start of a connector without a socket returns 0 exactly if socket gives a descriptor and bind
-- and listen succeed.
pub start_iff :
    (a : Answers) (c : ServerConnector)
    → is_uninit c.sock ≡ true
    → ((start a c).0 ≡ ok (pos 0))
      ↔ ((is_uninit a.socket ≡ false) × (a.binds ≡ true) × (a.listens ≡ true))
unfolding start listen bound begun
start_iff a c u = ground (arith, u)

begun_returns :
    (r : Result ℤ × ServerConnector)
    → ((e : Stop) × ((begun r).0 ≡ stop e)) ⊎ ((begun r).0 ≡ ok (pos 0))
unfolding begun
begun_returns (stop e, c) = inl (e, refl)
begun_returns (ok r, c) = inr refl

-- A start that returns, returns 0.
pub start_returns :
    (a : Answers) (c : ServerConnector)
    → ((e : Stop) × ((start a c).0 ≡ stop e)) ⊎ ((start a c).0 ≡ ok (pos 0))
unfolding start
start_returns a c = begun_returns (listen a c)

start_fails :
    (a : Answers) (c : ServerConnector)
    → is_uninit c.sock ≡ true
    → is_uninit a.socket ≡ false
    → (a.binds ≡ false) ⊎ (a.listens ≡ false)
    → (name : String) × (start a c
        ≡ (throw (Exception.socket_fail name), record c { sock = a.socket }))
unfolding start listen bound begun
start_fails a c u s (inl f) = ("bind", rw (start, listen, u, s, f) refl)
start_fails a c u s (inr f) = elim (Bool-cases a.binds) [
  | inl b ↦ ("listen", rw (start, listen, u, s, b, f) refl)
  | inr b ↦ ("bind", rw (start, listen, u, s, b) refl)
]

start_used :
    (a : Answers) (c : ServerConnector)
    → is_uninit c.sock ≡ false
    → start a c ≡ (ok (pos 0), record c { looping = true })
unfolding start listen begun
start_used a c u = rw (start, listen, u) refl

-- A start, without a socket yet, to which socket gives a descriptor and bind or listen fails,
-- throws SocketFailException; a second start then returns 0 and starts the loop whatever the system
-- would answer, though nothing listens.
pub start-start :
    (a again : Answers) (c : ServerConnector)
    → is_uninit c.sock ≡ true
    → c.listening ≡ false
    → is_uninit a.socket ≡ false
    → (a.binds ≡ false) ⊎ (a.listens ≡ false)
    → let (r, c') = start a c in
      let (r', c'') = start again c' in
      ((name : String) × (r ≡ throw (Exception.socket_fail name)))
      × (r' ≡ ok (pos 0))
      × (c''.looping ≡ true)
      × (c''.listening ≡ false)
start-start a again c u l s f =
    let (name, e) = start_fails a c u s f in
    rw (e, start_used again (record c { sock = a.socket }) s) ((name, refl), refl, refl, l)
