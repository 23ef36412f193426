-- ===== src/Stub/Main.antt =====
-- main of src/stubgen/stubgen.cpp.
pub mod Accepts
use json_rpc.Common.{
  ℕ, String, List, [], ◌∷◌, Bool, true, false, not, ◌&&◌, ◌||◌, ◌==◌, Option, none, some,
  if◌then◌else◌,
}
use json_rpc.Common.Int.{ℤ, pos, negsuc}
use json_rpc.Errors.{Result, ok, stop, Stop, Fault, ◌>>=◌}
use json_rpc.Stub.Defs.{
  Description, ClassDef, ServiceDef, class_from_json, service_from_json, deref,
}
use json_rpc.Stub.Pieces.{filename}
use json_rpc.Stub.Writer.{write}

module _ (j : Description) (toupper : String → String) (itos : ℕ → String) (hash : String → ℕ) where
  -- The loop over the classes.
  each_class : j.Value → List String → Result (List ClassDef)
  unfolding deref class_from_json
  each_class classes [] = ok []
  each_class classes (key ∷ keys) = do
    value ← deref (j.get classes key)
    def ← class_from_json j key value
    defs ← each_class classes keys
    ok (def ∷ defs)

  class_defs : Option j.Value → Result (List ClassDef)
  unfolding each_class
  class_defs none = ok []
  class_defs (some classes) = each_class classes (j.get_keys classes)

  is_object_or_null : Option j.Value → Bool
  is_object_or_null none = true
  is_object_or_null (some classes) = j.is_object classes

  -- What main returns, with the file that it has written: its name and its text.
  abbrev pub Outcome : Type 0
  Outcome = Result (ℤ × Option (String × String))

  generated : String → Option j.Value → j.Value → Outcome
  unfolding class_defs
  generated space classes service = do
    defs ← class_defs classes
    servicedef ← service_from_json j space service
    text ← write toupper itos hash space defs servicedef
    ok (pos 0, some (filename space, text))

  -- The test of the grammar.
  checked : Option j.Value → Option j.Value → Option j.Value → Outcome
  unfolding generated is_object_or_null
  checked (some space) classes (some service) =
      if j.is_string space && is_object_or_null classes && j.is_array service
      then generated (j.get_string space) classes service
      else ok (negsuc 0, none)
  checked _ classes _ = ok (negsuc 0, none)

  loaded : Option j.Value → Outcome
  unfolding checked
  loaded none = ok (negsuc 0, none)
  loaded (some spec) =
      if j.is_object spec
      then checked (j.get spec "namespace") (j.get spec "classes") (j.get spec "service")
      else ok (negsuc 0, none)

  -- main, with the number of its arguments and what `load` makes of the file.
  unfoldable pub main : ℕ → Option j.Value → Outcome
  unfolding loaded
  main argc spec = if argc == 2 then loaded spec else ok (negsuc 0, none)
