-- ===== src/Stub/Writer/Header.antt =====
-- The brackets of the whole header.
use json_rpc.Common.{ℕ, String, List, [], ◌∷◌, ◌≡◌, refl, subst, All}
use json_rpc.Errors.{Result, ok, stop, >>=-eq-ok}
use json_rpc.Stub.Defs.{ClassDef, Function, ServiceDef}
use json_rpc.Stub.Pieces.{class_text, includes}
use json_rpc.Stub.Writer.{header_def, number, enum_lines, protocol_text, write}
use json_rpc.Stub.Writer.Nested.{
  walk, Walks, walks, Nested, ◌▷◌, get_indent-Nested, digits-Nested, each_text-Nested,
}
use json_rpc.Stub.Writer.Classes.{NestedMembers, NestedFunction, class_text-Nested}
use json_rpc.Stub.Writer.Functions.{
  protocol_name-Nested, service_text-Nested, client_text-Nested, map_All,
}

abbrev pub text_of : Result String → String
text_of (ok text) = text
text_of (stop e) = ""

module _ (toupper : String → String) (itos : ℕ → String) (hash : String → ℕ)
    (upper : (s : String) → Nested s → Nested (toupper s))
    (printed : (n : ℕ) → Nested (itos n)) where
  header_def-Nested : (space : String) → Nested space → Nested (header_def toupper itos hash space)
  unfolding header_def walk
  header_def-Nested space n o = walks refl ▷ upper space n o ▷ walks {s = "_CPP_STUB_HPP__"} refl

  enum_lines-Nested :
      (functions : List Function) (lines : String)
      → All NestedFunction functions
      → enum_lines toupper itos hash functions ≡ ok lines
      → Nested lines
  unfolding enum_lines walk
  enum_lines-Nested [] lines h e o = subst (λ r. Walks (text_of r) o o) e (walks refl)
  enum_lines-Nested (func ∷ functions) lines h e o =
      let (n, _, e') = >>=-eq-ok (number toupper itos hash func) _ lines e in
      let (rest, r, e'') = >>=-eq-ok (enum_lines toupper itos hash functions) _ lines e' in
      subst (λ r. Walks (text_of r) o o) e''
        (get_indent-Nested 3 o
          ▷ upper func.name h.0.name o
          ▷ walks refl
          ▷ digits-Nested 10 n o
          ▷ walks refl
          ▷ enum_lines-Nested functions rest h.1 r o)

  protocol_text-Nested :
      (space : String) (functions : List Function) (text : String)
      → Nested space
      → All NestedFunction functions
      → protocol_text toupper itos hash space functions ≡ ok text
      → Nested text
  unfolding protocol_text walk
  protocol_text-Nested space functions text n h e o =
      let (lines, r, e') = >>=-eq-ok (enum_lines toupper itos hash functions) _ text e in
      subst (λ t. Walks (text_of t) o o) e'
        (walks refl
          ▷ walks refl
          ▷ protocol_name-Nested space n o
          ▷ walks refl
          ▷ get_indent-Nested 1 _
          ▷ walks refl
          ▷ get_indent-Nested 2 _
          ▷ walks refl
          ▷ enum_lines-Nested functions lines h r _
          ▷ get_indent-Nested 2 _
          ▷ walks {s = "};\n};\n"} refl)

  -- If the round and curly brackets are nested in every name and type of a description, in the
  -- numbers of arguments as they are printed, and toupper keeps them so, then they are nested in
  -- the whole header that is written: each one is closed by its own kind, in order, and none is
  -- left.
  pub write-Nested :
      (space : String) (classdefs : List ClassDef) (servicedef : ServiceDef) (text : String)
      → Nested space
      → All (λ def. Nested def.name × NestedMembers def.members) classdefs
      → All NestedFunction servicedef.functions
      → write toupper itos hash space classdefs servicedef ≡ ok text
      → Nested text
  unfolding write walk
  write-Nested space classdefs servicedef text n c h e o =
      let (protocol, r, e') =
        >>=-eq-ok (protocol_text toupper itos hash space servicedef.functions) _ text e in
      subst (λ t. Walks (text_of t) o o) e'
        (walks refl
          ▷ header_def-Nested space n o
          ▷ walks refl
          ▷ walks refl
          ▷ header_def-Nested space n o
          ▷ walks refl
          ▷ walks {s = includes} refl
          ▷ each_text-Nested class_text classdefs (map_All classdefs class_text-Nested c) o
          ▷ protocol_text-Nested space servicedef.functions protocol n h r o
          ▷ service_text-Nested toupper itos hash upper printed space servicedef.functions n h o
          ▷ client_text-Nested toupper itos hash upper printed space servicedef.functions n h o
          ▷ walks refl
          ▷ header_def-Nested space n o)
