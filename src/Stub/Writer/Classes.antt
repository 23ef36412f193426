-- ===== src/Stub/Writer/Classes.antt =====
-- The brackets in the definition of a class, and in a declaration.
use json_rpc.Common.{[], ◌∷◌, false, refl, All}
use json_rpc.Stub.Members.{Members}
use json_rpc.Stub.Defs.{ClassDef, Function, param_list, get_declaration}
use json_rpc.Stub.Pieces.{serializer_lines, get_serializer, member_lines, class_text}
use json_rpc.Stub.Writer.Nested.{walk, walks, Nested, ◌▷◌, get_indent-Nested}

-- What is asked of the names and types of a description.
abbrev pub NestedMembers : Members → Type 0
NestedMembers m = All (λ (name, type). Nested name × Nested type) m

serializer_lines-Nested : (m : Members) → NestedMembers m → Nested (serializer_lines m)
unfolding serializer_lines walk
serializer_lines-Nested [] h o = walks refl
serializer_lines-Nested ((name, type) ∷ m) h o =
    get_indent-Nested 4 o ▷ walks refl ▷ h.0.0 o ▷ walks refl ▷ serializer_lines-Nested m h.1 o

member_lines-Nested : (m : Members) → NestedMembers m → Nested (member_lines m)
unfolding member_lines walk
member_lines-Nested [] h o = walks refl
member_lines-Nested ((name, type) ∷ m) h o =
    walks refl ▷ h.0.1 o ▷ walks refl ▷ h.0.0 o ▷ walks refl ▷ member_lines-Nested m h.1 o

get_serializer-Nested : (m : Members) → NestedMembers m → Nested (get_serializer m)
unfolding get_serializer walk
get_serializer-Nested m h o =
    get_indent-Nested 2 o
    ▷ walks refl
    ▷ get_indent-Nested 3 o
    ▷ walks refl
    ▷ serializer_lines-Nested m h _
    ▷ get_indent-Nested 3 _
    ▷ walks {s = "}\n"} refl

pub class_text-Nested :
    (def : ClassDef) → Nested def.name × NestedMembers def.members → Nested (class_text def)
unfolding class_text walk
class_text-Nested def (n, h) o =
    walks refl
    ▷ n o
    ▷ walks refl
    ▷ walks refl
    ▷ n o
    ▷ walks refl
    ▷ member_lines-Nested def.members h _
    ▷ walks refl
    ▷ walks refl
    ▷ get_indent-Nested 1 _
    ▷ walks refl
    ▷ get_serializer-Nested def.members h _
    ▷ walks {s = "\n\n};\n"} refl

pub param_list-Nested : (m : Members) → NestedMembers m → Nested (param_list m)
unfolding param_list walk
param_list-Nested [] h o = walks refl
param_list-Nested ((name, type) ∷ []) h o = h.0.1 o ▷ walks refl ▷ h.0.0 o
param_list-Nested ((name, type) ∷ p ∷ m) h o =
    h.0.1 o ▷ walks refl ▷ h.0.0 o ▷ walks refl ▷ param_list-Nested (p ∷ m) h.1 o

-- What is asked of a function.
pub record NestedFunction (func : Function) : Type 0 where
  pub name : Nested func.name
  pub rettype : Nested func.rettype
  pub params : NestedMembers func.params

pub get_declaration-Nested :
    (func : Function) → NestedFunction func → Nested (get_declaration false func)
unfolding get_declaration walk
get_declaration-Nested func h o =
    h.rettype o
    ▷ walks refl
    ▷ walks {s = ""} refl
    ▷ h.name o
    ▷ walks refl
    ▷ param_list-Nested func.params h.params _
    ▷ walks {s = ")"} refl
