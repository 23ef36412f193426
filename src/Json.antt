-- ===== src/Json.antt =====
-- The JSON library (jconer/json.hpp), which is not part of this repository: the operations that
-- the program calls, and the documented behaviour that the theorems rely on.
pub mod Sample
use json_rpc.Common.{
  ℕ, String, Bool, true, false, List, Option, none, some, ◌≡◌, ◌≢◌, [], str_eq, if◌then◌else◌,
}
use json_rpc.Common.Int.{ℤ}

pub record Json : Type 1 where
  pub Value : Type 0  -- JValue
  pub Object : Type 0  -- JObject
  pub value : Object → Value  -- a JObject* used as a JValue*
  pub loads : List ℕ → Option Value  -- `none` for nullptr
  pub dumps : Value → List ℕ
  pub is_object : Value → Bool
  pub is_integer : Value → Bool
  pub is_array : Value → Bool
  pub get : Value → String → Option Value
  pub contain : Value → String → Bool
  pub get_integer : Value → ℤ
  pub integer : ℤ → Value  -- the value that `put` makes of a number
  pub new_object : Object
  pub put : Object → String → Value → Object
  pub empty_content : Value  -- getContent() of a new OutSerializer
  pub keeps : ℤ → Bool  -- whether the library's integers hold the number

abbrev pub is_some {ℓ} : {A : Type ℓ} → Option A → Bool
is_some none = false
is_some (some a) = true

-- Objects keep what is put under their keys, numbers that fit come back, and the text of an object
-- is read back as that object.
pub record JsonLaws (j : Json) : Type 0 where
  pub loads-dumps : (o : j.Object) → j.loads (j.dumps (j.value o)) ≡ some (j.value o)
  pub dumps-ne-nil : (o : j.Object) → j.dumps (j.value o) ≢ []
  pub is_object-value : (o : j.Object) → j.is_object (j.value o) ≡ true
  pub get-new_object : (k : String) → j.get (j.value j.new_object) k ≡ none
  pub get-put :
      (o : j.Object) (k i : String) (v : j.Value)
      → j.get (j.value (j.put o k v)) i ≡ (if str_eq k i then some v else j.get (j.value o) i)
  pub contain-get : (v : j.Value) (k : String) → j.contain v k ≡ is_some (j.get v k)
  pub is_integer-integer : (n : ℤ) → j.is_integer (j.integer n) ≡ true
  pub get_integer-integer : (n : ℤ) → j.keeps n ≡ true → j.get_integer (j.integer n) ≡ n
