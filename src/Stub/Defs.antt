-- ===== src/Stub/Defs.antt =====
-- include/stubgen/classdef.hpp and include/stubgen/servicedef.hpp: the classes and the functions of
-- a description, read from its JSON values.
pub mod Reorder
use Prim.Native.String.{◌++◌}
use json_rpc.Common.{
  ℕ, zero, suc, ◌+◌, String, List, [], ◌∷◌, Bool, true, false, Option, none, some, if◌then◌else◌,
}
use json_rpc.Errors.{Result, ok, stop, Stop, Fault, ◌>>=◌}
use json_rpc.Stub.Members.{Members, set_member}

-- What the generator calls of the JSON library's values.
pub record Description : Type 1 where
  pub Value : Type 0
  pub is_object : Value → Bool
  pub is_array : Value → Bool
  pub is_string : Value → Bool
  pub is_null : Value → Bool
  pub get : Value → String → Option Value
  pub get_keys : Value → List String
  pub get_string : Value → String
  pub size : Value → ℕ
  pub item : Value → ℕ → Option Value

pub record ClassDef : Type 0 where
  pub name : String
  pub members : Members

-- ServiceDef::Function. `cname` is the name of the class.
pub record Function : Type 0 where
  pub name : String
  pub rettype : String
  pub cname : String
  pub params : Members

pub record ServiceDef : Type 0 where
  pub name : String
  pub functions : List Function

-- assert
unfoldable pub assert_ : Bool → Result (Unit {0})
assert_ true = ok tt
assert_ false = stop (Stop.fault Fault.assertion)

-- The use of a pointer.
unfoldable pub deref {ℓ} : {A : Type ℓ} → Option A → Result A
deref none = stop (Stop.fault Fault.null_pointer)
deref (some a) = ok a

-- ClassDef::add_member
abbrev pub add_member : String → String → ClassDef → ClassDef
add_member name type def = record def { members = set_member name type def.members }

-- Function::Function(std::string), with the members' initial values.
abbrev pub make_function : String → Function
make_function name = record { name = name; rettype = "void"; cname = ""; params = [] }

-- Function::add_param
abbrev pub add_param : String → String → Function → Function
add_param name type func = record func { params = set_member name type func.params }

-- The parameters of a declaration.
unfoldable pub param_list : Members → String
param_list [] = ""
param_list ((name, type) ∷ []) = type ++ " " ++ name
param_list ((name, type) ∷ m) = type ++ " " ++ name ++ ", " ++ param_list m

-- Function::get_declaration
unfoldable pub get_declaration : Bool → Function → String
unfolding param_list
get_declaration with_class func =
    func.rettype
    ++ " "
    ++ (if with_class then func.cname ++ "::" else "")
    ++ func.name
    ++ "("
    ++ param_list func.params
    ++ ")"

module _ (j : Description) where
  -- The loops over the keys of an object, with what is done with each key and its text.
  unfoldable pub each_key {ℓ} :
      {D : Type ℓ} → (String → String → D → D) → j.Value → List String → D → Result D
  each_key add value [] def = ok def
  each_key add value (key ∷ keys) def = do
    v ← deref (j.get value key)
    each_key add value keys (add key (j.get_string v) def)

  -- ClassDef::from_json
  unfoldable pub class_from_json : String → j.Value → Result ClassDef
  unfolding each_key assert_
  class_from_json name value = do
    _ ← assert_ (j.is_object value)
    each_key add_member value (j.get_keys value) (record { name = name; members = [] })

  add_params : j.Value → Function → Result Function
  unfolding each_key assert_
  add_params param func =
      if j.is_object param
      then each_key add_param param (j.get_keys param) func
      else (do _ ← assert_ (j.is_null param); ok func)

  set_return : Option j.Value → Function → Result Function
  unfolding assert_
  set_return none func = ok func
  set_return (some returns) func = do
    _ ← assert_ (j.is_string returns)
    ok (record func { rettype = j.get_string returns })

  -- An assertion that a pointer is not null.
  not_null : Option j.Value → Result j.Value
  not_null none = stop (Stop.fault Fault.assertion)
  not_null (some v) = ok v

  -- Function::from_json
  unfoldable pub function_from_json : j.Value → Result Function
  unfolding add_params set_return not_null
  function_from_json value = do
    _ ← assert_ (j.is_object value)
    name ← not_null (j.get value "name")
    _ ← assert_ (j.is_string name)
    param ← not_null (j.get value "params")
    func ← add_params param (make_function (j.get_string name))
    set_return (j.get value "return") func

  -- The loop of ServiceDef::from_json, from the item `i` on, for so many items.
  functions_from_json : String → j.Value → ℕ → ℕ → Result (List Function)
  unfolding function_from_json
  functions_from_json name value zero i = ok []
  functions_from_json name value (suc n) i = do
    item ← deref (j.item value i)
    func ← function_from_json item
    functions ← functions_from_json name value n (i + 1)
    ok (record func { cname = name } ∷ functions)

  -- ServiceDef::from_json
  unfoldable pub service_from_json : String → j.Value → Result ServiceDef
  unfolding functions_from_json
  service_from_json name value = do
    functions ← functions_from_json name value (j.size value) 0
    ok (record { name = name; functions = functions })
