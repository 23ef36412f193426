-- ===== src/Server/Wiring/Startup.antt =====
-- From the port to a server that answers.
use json_rpc.Common.{
  ℕ, zero, suc, ◌≡◌, ◌↔◌, refl, sym, subst, inl, inr, String, List, [], none, some, true, false,
}
use json_rpc.Common.Int.{ℤ, pos, negsuc}
use json_rpc.Errors.{Result, ok, stop, Stop, ◌>>=◌}
use json_rpc.Service.{Handler}
use json_rpc.SockClient.{is_uninit, uninit_socket}
use json_rpc.Server.Listen.{Answers, ServerConnector, start}
use json_rpc.Server.Listen.Again.{start_iff, start_returns}
use json_rpc.Server.Wiring.{Program, make_connector, construct, listened, listen_service}
use json_rpc.Server.Wiring.Registered.{construct-eq}

module _ {S Value : Type 0} where
  listened-stop :
      (r : Result ℤ × ServerConnector) (p : Program S Value) (e : Stop)
      → r.0 ≡ stop e
      → (listened r p).0 ≡ stop e
  unfolding listened
  listened-stop (stop e', c) p e q = q
  listened-stop (ok n, c) p e q = cc

  listened-ok :
      (r : Result ℤ × ServerConnector) (p : Program S Value) (n : ℤ)
      → r.0 ≡ ok n
      → (listened r p).0 ≡ ok (pos 0)
  unfolding listened
  listened-ok (stop e', c) p n q = cc
  listened-ok (ok m, c) p n q = refl

  -- listen returns 0 exactly if start does.
  listen_service_iff :
      (a : Answers) (p : Program S Value)
      → ((listen_service a p).0 ≡ ok (pos 0)) ↔ ((start a p.connector).0 ≡ ok (pos 0))
  unfolding listen_service
  listen_service_iff a p = elim (start_returns a p.connector) [
    | inl (e, q) ↦ let failed = listened-stop (start a p.connector) p e q in ((λ h. cc), λ h. cc)
    | inr q ↦ ((λ _. q), λ _. listened-ok (start a p.connector) p (pos 0) q)
  ]

  -- A socket server is made for a port, a generated service is constructed on it and listen is
  -- called: listen returns 0 exactly if getaddrinfo returns 0, socket gives a descriptor, and bind
  -- and listen succeed.
  pub serves_iff :
      (port : String) (r : ℤ) (id : ℕ) (calls : List (ℕ × Handler S Value)) (a : Answers)
      → ((make_connector port r >>= λ c.
            (listen_service a (construct id calls (record { connector = c; services = [] }))).0)
          ≡ ok (pos 0))
        ↔ ((r ≡ pos 0) × (is_uninit a.socket ≡ false) × (a.binds ≡ true) × (a.listens ≡ true))
  unfolding make_connector
  serves_iff port (pos zero) id calls a =
      subst
        (λ p. ((listen_service a p).0 ≡ ok (pos 0)) ↔ (
          (pos 0 ≡ pos 0) × (is_uninit a.socket ≡ false) × (a.binds ≡ true) × (a.listens ≡ true)))
        (sym (construct-eq id calls (record { connector = new; services = [] })))
        (
          λ h.
              let (socket, binds, listens) =
                (start_iff a new' refl).0 ((listen_service_iff a _).0 h) in
              (refl, socket, binds, listens),
          λ (_, socket, binds, listens).
              (listen_service_iff a _).1 ((start_iff a new' refl).1 (socket, binds, listens)),
        )
    where
      new : ServerConnector
      new = record { handler = none; sock = uninit_socket; listening = false; looping = false }

      new' : ServerConnector
      new' = record new { handler = some id }
  serves_iff port (pos (suc n)) id calls a = ((λ h. cc), λ h. cc)
  serves_iff port (negsuc n) id calls a = ((λ h. cc), λ h. cc)
