-- ===== src/Server/Wiring/Registered.antt =====
-- Which service answers, and what happens where there is none.
use json_rpc.Common.{
  ℕ, zero, suc, String, ◌==◌, eq→==, false, sym, ap, ◌∙◌, ◌≡◌, ◌≢◌, refl, inl, inr, List, [], ◌∷◌,
  Option, none, some,
}
use json_rpc.Errors.{Result, Result-cases, ok, stop, Stop, Fault}
use json_rpc.Json.{Json}
use json_rpc.Request.{Request}
use json_rpc.Proto.{parse_request}
use json_rpc.Service.{Handler, Handlers, assign, reg_all}
use json_rpc.Service.Dispatch.{find-assign_same, assign-assign}
use json_rpc.Server.{answer, dispatched, responded}
use json_rpc.Common.Int.{ℤ, pos, negsuc}
use json_rpc.Server.Listen.{ServerConnector}
use json_rpc.Poll.Server.Watched.{find-remove}
use json_rpc.Server.Wiring.{
  Program, service_of, make_service, reg_wrappers, register_service, construct, on_object, through,
  destroy_service, make_connector, call_handler, called, answer_through,
}

module _ {S Value : Type 0} where
  -- A generated service is made with the handlers of its calls, and the connector points to it.
  pub construct-eq :
      (id : ℕ) (calls : List (ℕ × Handler S Value)) (p : Program S Value)
      → construct id calls p ≡ record {
        connector = record p.connector { handler = some id };
        services = assign id (reg_all calls []) p.services;
      }
  unfolding construct make_service register_service reg_wrappers
  construct-eq id calls p =
      rw
        (
          construct,
          find-assign_same id [] p.services,
          assign-assign id [] (reg_all calls []) p.services,
        )
        refl

-- A new connector has no handler.
make_connector-handler :
    (port : String) (r : ℤ) (c : ServerConnector) → make_connector port r ≡ ok c → c.handler ≡ none
unfolding make_connector
make_connector-handler port (pos zero) c e = ap handler_of (sym e)
  where
    handler_of : Result ServerConnector → Option ℕ
    handler_of (ok c) = c.handler
    handler_of (stop x) = none
make_connector-handler port (pos (suc n)) c e = absurd cc
make_connector-handler port (negsuc n) c e = absurd cc

module _ (j : Json) {S : Type 0} where
  answer_through-wired :
      (p : Program S j.Value) (id : ℕ) (hs : Handlers S j.Value) (msg : List ℕ) (s : S)
      → p.connector.handler ≡ some id
      → service_of id p ≡ some hs
      → answer_through j p msg s ≡ answer j hs msg s
  unfolding answer_through called call_handler through on_object answer dispatched responded
  answer_through-wired p id hs [] s h f = refl
  answer_through-wired p id hs (b ∷ bs) s h f = elim (Result-cases (parse_request j (b ∷ bs))) [
    | inl (e, q) ↦ rw (answer_through, answer, q) refl
    | inr (r, q) ↦ rw (answer_through, answer, q, h, f) refl
  ]

  -- Whatever services have been made before on the same connector: once a generated service has
  -- been constructed, every message is answered by the handlers that its registrations leave, and
  -- by no other.
  pub answer_through-construct :
      (p : Program S j.Value) (id : ℕ) (calls : List (ℕ × Handler S j.Value)) (msg : List ℕ) (s : S)
      → answer_through j (construct id calls p) msg s ≡ answer j (reg_all calls []) msg s
  answer_through-construct p id calls msg s = rw (construct-eq id calls p) (
      answer_through-wired _ id (reg_all calls []) msg s refl
        (find-assign_same id (reg_all calls []) p.services))

  -- The request meets no object behind the pointer, or no pointer.
  answer_through-gone :
      (p : Program S j.Value) (id : ℕ) (b : ℕ) (bs : List ℕ) (request : Request j.Value) (s : S)
      → p.connector.handler ≡ some id
      → service_of id p ≡ none
      → parse_request j (b ∷ bs) ≡ ok request
      → answer_through j p (b ∷ bs) s ≡ (stop (Stop.fault Fault.dangling), s)
  unfolding answer_through called call_handler through on_object responded
  answer_through-gone p id b bs request s h f q = rw (answer_through, q, h, f) refl

  answer_through-null :
      (p : Program S j.Value) (b : ℕ) (bs : List ℕ) (request : Request j.Value) (s : S)
      → p.connector.handler ≡ none
      → parse_request j (b ∷ bs) ≡ ok request
      → answer_through j p (b ∷ bs) s ≡ (stop (Stop.fault Fault.null_pointer), s)
  unfolding answer_through called call_handler through responded
  answer_through-null p b bs request s h q = rw (answer_through, q, h) refl

  destroyed :
      (p : Program S j.Value) (id : ℕ) (calls : List (ℕ × Handler S j.Value))
      → service_of id (destroy_service id (construct id calls p)) ≡ none
  unfolding destroy_service
  destroyed p id calls =
      rw (construct-eq id calls p)
        (find-remove id id (assign id (reg_all calls []) p.services) ∙ rw (eq→== id id refl) refl)

  destroyed_other :
      (p : Program S j.Value) (id id' : ℕ) (calls : List (ℕ × Handler S j.Value))
      → (id == id') ≡ false
      → service_of id (destroy_service id' (construct id calls p)) ≡ some (reg_all calls [])
  unfolding destroy_service
  destroyed_other p id id' calls n = rw (construct-eq id calls p) (
      find-remove id' id (assign id (reg_all calls []) p.services)
      ∙ rw (n, find-assign_same id (reg_all calls []) p.services) refl)

  destroyed-pointing :
      (p : Program S j.Value) (id k : ℕ) (calls : List (ℕ × Handler S j.Value))
      → (destroy_service k (construct id calls p)).connector.handler ≡ some id
  unfolding destroy_service
  destroyed-pointing p id k calls = rw (construct-eq id calls p) refl

  -- A message that is not empty and parses as a request comes to a new connector, whatever services
  -- there are elsewhere: without a service its answer is the use of a null pointer; once a service
  -- has been constructed on the connector it is answered by that service's handlers; once that
  -- service has been destroyed, its answer is the use of an object that is gone; but if a second
  -- service was constructed on the connector before the first was destroyed, it is answered by the
  -- handlers of the second.
  pub answer_through-unserved :
      (port : String) (r : ℤ) (c : ServerConnector) (services : List (ℕ × Handlers S j.Value))
      → make_connector port r ≡ ok c
      → (id id' : ℕ) (calls calls' : List (ℕ × Handler S j.Value)) → (id' == id) ≡ false
      → (msg : List ℕ) (request : Request j.Value) (s : S) → msg ≢ []
      → parse_request j msg ≡ ok request
      → let start : Program S j.Value = record { connector = c; services = services } in
        let first = construct id calls start in
        (answer_through j start msg s ≡ (stop (Stop.fault Fault.null_pointer), s))
        × (answer_through j first msg s ≡ answer j (reg_all calls []) msg s)
        × (answer_through j (destroy_service id first) msg s
            ≡ (stop (Stop.fault Fault.dangling), s))
        × (answer_through j (destroy_service id (construct id' calls' first)) msg s
            ≡ answer j (reg_all calls' []) msg s)
  answer_through-unserved port r c services m id id' calls calls' n [] request s ne q =
      absurd (ne refl)
  answer_through-unserved port r c services m id id' calls calls' n (b ∷ bs) request s ne q = (
    answer_through-null start b bs request s (make_connector-handler port r c m) q,
    answer_through-construct start id calls (b ∷ bs) s,
    answer_through-gone _ id b bs request s (destroyed-pointing start id id calls)
        (destroyed start id calls) q,
    answer_through-wired _ id' (reg_all calls' []) (b ∷ bs) s
        (destroyed-pointing (construct id calls start) id' id calls')
        (destroyed_other (construct id calls start) id' id calls' n),
  )
    where
      start : Program S j.Value
      start = record { connector = c; services = services }
