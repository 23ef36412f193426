-- ===== src/Service/Dispatch.antt =====
-- Which handler answers a request.
use json_rpc.Common.{
  ℕ, List, [], ◌∷◌, Option, none, some, ◌==◌, if◌then◌else◌, ◌≡◌, arith, refl, ◌∙◌, ap, eq→==,
}
use json_rpc.Errors.{ok}
use json_rpc.Request.{Request}
use json_rpc.Service.{Handler, Handlers, find, assign, reg, reg_all, on_request, caught}

module _ {A : Type 0} where
  pub find-assign :
      (id i : ℕ) (handler : A) (hs : List (ℕ × A))
      → find i (assign id handler hs) ≡ (if id == i then some handler else find i hs)
  unfolding find assign
  find-assign id i handler [] = refl
  find-assign id i handler ((k, h) ∷ hs) = ground (arith, find-assign id i handler hs)

  pub find-assign_same :
      (id : ℕ) (handler : A) (hs : List (ℕ × A)) → find id (assign id handler hs) ≡ some handler
  find-assign_same id handler hs = rw (find-assign id id handler hs, eq→== id id refl) refl

  -- What is there already.
  pub assign-find :
      (id : ℕ) (handler : A) (hs : List (ℕ × A))
      → find id hs ≡ some handler
      → assign id handler hs ≡ hs
  unfolding find assign
  assign-find id handler [] e = cc
  assign-find id handler ((i, h) ∷ hs) e = ground (arith, assign-find id handler hs)

  pub assign-assign :
      (id : ℕ) (handler handler' : A) (hs : List (ℕ × A))
      → assign id handler' (assign id handler hs) ≡ assign id handler' hs
  unfolding assign
  assign-assign id handler handler' [] = ground arith
  assign-assign id handler handler' ((k, h) ∷ hs) =
      ground (arith, assign-assign id handler handler' hs)

  -- The last of the calls with the number i, if there is one.
  abbrev pub last_call : ℕ → List (ℕ × A) → Option A → Option A
  last_call i [] before = before
  last_call i ((id, handler) ∷ calls) before =
      last_call i calls (if id == i then some handler else before)

  -- After any calls of reg a number has the handler of the last call with it, and the handler that
  -- it had before if there is none.
  pub find-reg_all :
      (i : ℕ) (calls hs : List (ℕ × A)) → find i (reg_all calls hs) ≡ last_call i calls (find i hs)
  unfolding reg_all reg
  find-reg_all i [] hs = refl
  find-reg_all i ((id, handler) ∷ calls) hs =
      find-reg_all i calls (assign id handler hs)
      ∙ ap (last_call i calls) (find-assign id i handler hs)

module _ {S Value : Type 0} (hs : Handlers S Value) (request : Request Value) (s : S) where
  pub on_request-missing :
      find request.handlerid hs ≡ none → on_request hs request s ≡ (ok (0, request), s)
  unfolding on_request
  on_request-missing e = rw (e, on_request)

  pub on_request-found :
      (handler : Handler S Value)
      → find request.handlerid hs ≡ some handler
      → on_request hs request s ≡ (caught request (handler s request).0, (handler s request).1)
  unfolding on_request
  on_request-found handler e = rw (e, on_request)
