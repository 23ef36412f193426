-- ===== src/Service.antt =====
-- include/json-rpc/server/service.hpp: the handlers of a service. `S` is the state of the user's
-- service object, `Value` the JSON library's values.
pub mod Dispatch
use json_rpc.Common.{
  ℕ, List, [], ◌∷◌, Bool, Option, none, some, ◌==◌, if◌then◌else◌, ◌≡◌, arith, refl, ◌++◌,
}
use json_rpc.Errors.{Result, ok, stop, Stop, Exception, ServerException, throw}
use json_rpc.Request.{Request}

-- std::function<void(S&, Request*)>: it may change the service object, and it leaves the content of
-- the response or throws.
abbrev pub Handler : Type 0 → Type 0 → Type 0
Handler S Value = S → Request Value → Result Value × S

-- std::map<size_t, …>
abbrev pub Handlers : Type 0 → Type 0 → Type 0
Handlers S Value = List (ℕ × Handler S Value)

module _ {A : Type 0} where
  unfoldable pub find : ℕ → List (ℕ × A) → Option A
  find id [] = none
  find id ((i, h) ∷ hs) = if i == id then some h else find id hs

  -- _handlers[id] = handler
  unfoldable pub assign : ℕ → A → List (ℕ × A) → List (ℕ × A)
  assign id handler [] = (id, handler) ∷ []
  assign id handler ((i, h) ∷ hs) =
      if i == id then (i, handler) ∷ hs else (i, h) ∷ assign id handler hs

  -- AbstractService::reg, with the number that it returns
  unfoldable pub reg : ℕ → A → List (ℕ × A) → ℕ × List (ℕ × A)
  reg id handler hs =
      let rst : ℕ = elim (find id hs) [ none ↦ 0 | some _ ↦ 1 ] in (rst, assign id handler hs)

  -- A list of calls of `reg`, as `_reg_wrappers` makes them.
  unfoldable pub reg_all : List (ℕ × A) → List (ℕ × A) → List (ℕ × A)
  reg_all [] hs = hs
  reg_all ((id, handler) ∷ calls) hs = reg_all calls (reg id handler hs).1

module _ {Value : Type 0} where
  -- The `catch` of on_request, and its `return 1`.
  unfoldable pub caught : Request Value → Result Value → Result (ℕ × Request Value)
  caught request (ok content) = ok (1, record request { response = content })
  caught request (stop (Stop.thrown Exception.serialize_fail)) =
      throw (Exception.server ServerException.server_param_mismatch)
  caught request (stop s) = stop s

module _ {S Value : Type 0} where
  -- AbstractService::on_request
  unfoldable pub on_request : Handlers S Value → Request Value → S → Result (ℕ × Request Value) × S
  unfolding caught
  on_request hs request s = elim (find request.handlerid hs) [
    | none ↦ (ok (0, request), s)
    | some handler ↦ let (r, s') = handler s request in (caught request r, s')
  ]
