-- ===== src/Stub/Members.antt =====
-- std::map<std::string, std::string>, as include/stubgen/classdef.hpp and
-- include/stubgen/servicedef.hpp use it: the pairs in the order of their keys.
pub mod Order
use Prim.Native.Nat.{Ordering}
use Prim.Native.String.{compare}
use json_rpc.Common.{String, List, [], ◌∷◌}

abbrev pub Members : Type 0
Members = List (String × String)

-- members[name] = type
unfoldable pub set_member : String → String → Members → Members
set_member name type [] = (name, type) ∷ []
set_member name type ((i, t) ∷ m) = elim (compare name i) [
  | Ordering.lt ↦ (name, type) ∷ (i, t) ∷ m
  | Ordering.eq ↦ (i, type) ∷ m
  | Ordering.gt ↦ (i, t) ∷ set_member name type m
]
