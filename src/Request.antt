-- ===== src/Request.antt =====
-- include/json-rpc/server/request.hpp and src/json-rpc/request.cpp.
use json_rpc.Common.{ℕ, Option, none, some, List, [], ◌∷◌, ◌++◌, ◌≡◌, arith}
use json_rpc.Common.Int.{ℤ}

-- class Request, over the type of JSON values. `params` is the array that `_sin` reads, `response`
-- the content of the serializer in `_resp`, and `msg_json` the value that the destructor frees.
pub record Request {ℓ} (Value : Type ℓ) : Type ℓ where
  pub clientno : ℤ
  pub serverno : ℤ
  pub version : ℤ
  pub timestamp : ℤ
  pub messageid : ℤ
  pub handlerid : ℕ
  pub params : Value
  pub msg_json : Option Value
  pub response : Value

module _ {ℓ} {Value : Type ℓ} where
  -- Request(Request&&): the source and the new request. Moving a pointer copies it, and the
  -- response is a new one, with the content `fresh`.
  unfoldable pub move : Value → Request Value → Request Value × Request Value
  move fresh o = (o, record o { response = fresh })

  -- What ~Request frees.
  unfoldable pub destroy : Request Value → List Value
  destroy o = elim o.msg_json [ none ↦ [] | some v ↦ v ∷ [] ]

  -- A request that owns its message and was moved, and the one made of it, both free that message:
  -- it is freed twice.
  pub move-destroy :
      (fresh : Value) (o : Request Value) (v : Value)
      → o.msg_json ≡ some v
      → destroy (move fresh o).0 ++ destroy (move fresh o).1 ≡ v ∷ v ∷ []
  unfolding move destroy
  move-destroy fresh o v e = ground arith
