-- ===== src/Stub/Writer/Functions.antt =====
-- The brackets in what is written for the functions.
use json_rpc.Common.{ℕ, ◌+◌, ◌-◌, str_eq, length, String, List, [], ◌∷◌, ◌==◌, refl, All}
use json_rpc.Stub.Members.{Members}
use json_rpc.Stub.Defs.{Function}
use json_rpc.Stub.Pieces.{protocol_name, service_name, client_name, wrapper_name}
use json_rpc.Stub.Writer.{
  arg_list, arg_lines, reads_text, call_text, wrapper_text, reg_text, stub_text, service_text,
  sends_text, result_text, method_text, client_text,
}
use json_rpc.Stub.Writer.Nested.{
  walk, walks, Nested, ◌▷◌, get_indent-Nested, if-Nested, each_text-Nested,
}
use json_rpc.Stub.Writer.Classes.{NestedMembers, NestedFunction, get_declaration-Nested}

pub map_All :
    {A : Type 0} {P Q : A → Type 0} (items : List A)
    → ((a : A) → P a → Q a)
    → All P items
    → All Q items
map_All [] f h = tt
map_All (a ∷ items) f h = (f a h.0, map_All items f h.1)

wrapper_name-Nested : (name : String) → Nested name → Nested (wrapper_name name)
unfolding walk
wrapper_name-Nested name h o = walks refl ▷ h o ▷ walks {s = "_wrapper"} refl

pub protocol_name-Nested : (space : String) → Nested space → Nested (protocol_name space)
unfolding walk
protocol_name-Nested space h o = h o ▷ walks {s = "Protocol"} refl

service_name-Nested : (space : String) → Nested space → Nested (service_name space)
unfolding walk
service_name-Nested space h o = h o ▷ walks {s = "Service"} refl

client_name-Nested : (space : String) → Nested space → Nested (client_name space)
unfolding walk
client_name-Nested space h o = h o ▷ walks {s = "Client"} refl

module _ (toupper : String → String) (itos : ℕ → String) (hash : String → ℕ)
    (upper : (s : String) → Nested s → Nested (toupper s))
    (printed : (n : ℕ) → Nested (itos n)) where
  arg_list-Nested :
      (size count : ℕ) (m : Members) → Nested (arg_list toupper itos hash size count m)
  unfolding arg_list walk
  arg_list-Nested size count [] o = walks refl
  arg_list-Nested size count ((_, type) ∷ m) o =
      walks refl
      ▷ printed count o
      ▷ if-Nested (count == size - 1) "" ", " (λ _. walks refl) (λ _. walks refl) o
      ▷ arg_list-Nested size (count + 1) m o

  arg_lines-Nested :
      (count : ℕ) (m : Members) → NestedMembers m → Nested (arg_lines toupper itos hash count m)
  unfolding arg_lines walk
  arg_lines-Nested count [] h o = walks refl
  arg_lines-Nested count ((_, type) ∷ m) h o =
      get_indent-Nested 2 o
      ▷ h.0.1 o
      ▷ walks refl
      ▷ walks refl
      ▷ printed count o
      ▷ walks refl
      ▷ get_indent-Nested 2 o
      ▷ walks refl
      ▷ walks refl
      ▷ printed count o
      ▷ walks refl
      ▷ arg_lines-Nested (count + 1) m h.1 o

  reads_text-Nested : (m : Members) → NestedMembers m → Nested (reads_text toupper itos hash m)
  unfolding reads_text walk
  reads_text-Nested [] h o = walks refl
  reads_text-Nested (p ∷ m) h o =
      get_indent-Nested 2 o ▷ walks refl ▷ arg_lines-Nested 0 (p ∷ m) h _ ▷ walks {s = "\n"} refl

  call_text-Nested :
      (func : Function) → NestedFunction func → Nested (call_text toupper itos hash func)
  unfolding call_text walk
  call_text-Nested func h o =
      if-Nested (str_eq func.rettype "void") _ _
        (λ o.
          get_indent-Nested 2 o
          ▷ h.name o
          ▷ walks refl
          ▷ arg_list-Nested (length func.params) 0 func.params _
          ▷ walks {s = ");\n"} refl)
        (λ o.
          get_indent-Nested 2 o
          ▷ h.rettype o
          ▷ walks refl
          ▷ h.name o
          ▷ walks refl
          ▷ arg_list-Nested (length func.params) 0 func.params _
          ▷ walks {s = ");\n"} refl
          ▷ get_indent-Nested 2 _
          ▷ walks {s = "OutSerializer& sout = req->get_response().get_serializer();\n"} refl
          ▷ get_indent-Nested 2 _
          ▷ walks {s = "sout & __r;\n"} refl)
        o

  wrapper_text-Nested :
      (func : Function) → NestedFunction func → Nested (wrapper_text toupper itos hash func)
  unfolding wrapper_text walk
  wrapper_text-Nested func h o =
      get_indent-Nested 1 o
      ▷ walks refl
      ▷ wrapper_name-Nested func.name h.name o
      ▷ walks refl
      ▷ reads_text-Nested func.params h.params _
      ▷ call_text-Nested func h _
      ▷ get_indent-Nested 1 _
      ▷ walks {s = "}\n\n"} refl

  reg_text-Nested :
      (space : String)
      → Nested space
      → (func : Function) → NestedFunction func
      → Nested (reg_text toupper itos hash space func)
  unfolding reg_text walk
  reg_text-Nested space n func h o =
      get_indent-Nested 3 o
      ▷ walks refl
      ▷ protocol_name-Nested space n _
      ▷ walks refl
      ▷ upper func.name h.name _
      ▷ walks refl
      ▷ service_name-Nested space n _
      ▷ walks refl
      ▷ wrapper_name-Nested func.name h.name _
      ▷ walks {s = ");\n"} refl

  stub_text-Nested :
      (func : Function) → NestedFunction func → Nested (stub_text toupper itos hash func)
  unfolding stub_text walk
  stub_text-Nested func h o =
      get_indent-Nested 2 o
      ▷ walks refl
      ▷ get_declaration-Nested func h o
      ▷ walks {s = "{\n"} refl
      ▷ get_indent-Nested 3 _
      ▷ walks {s = "//TODO: stub HERE\n"} refl
      ▷ get_indent-Nested 2 _
      ▷ walks {s = "}\n"} refl

  pub service_text-Nested :
      (space : String) (functions : List Function)
      → Nested space
      → All NestedFunction functions
      → Nested (service_text toupper itos hash space functions)
  unfolding service_text walk
  service_text-Nested space functions n h o =
      walks refl
      ▷ walks refl
      ▷ service_name-Nested space n o
      ▷ walks refl
      ▷ walks refl
      ▷ walks refl
      ▷ service_name-Nested space n o
      ▷ walks refl
      ▷ each_text-Nested _ functions (map_All functions wrapper_text-Nested h) _
      ▷ walks refl
      ▷ get_indent-Nested 1 _
      ▷ walks refl
      ▷ get_indent-Nested 2 _
      ▷ service_name-Nested space n _
      ▷ walks refl
      ▷ walks refl
      ▷ walks refl
      ▷ walks refl
      ▷ walks refl
      ▷ service_name-Nested space n _
      ▷ walks refl
      ▷ walks refl
      ▷ get_indent-Nested 3 _
      ▷ walks refl
      ▷ get_indent-Nested 2 _
      ▷ walks refl
      ▷ get_indent-Nested 2 _
      ▷ walks refl
      ▷ each_text-Nested _ functions (map_All functions (reg_text-Nested space n) h) _
      ▷ get_indent-Nested 2 _
      ▷ walks refl
      ▷ each_text-Nested _ functions (map_All functions stub_text-Nested h) _
      ▷ walks {s = "\n\n};\n"} refl

  sends_text-Nested : (m : Members) → NestedMembers m → Nested (sends_text toupper itos hash m)
  unfolding sends_text walk
  sends_text-Nested [] h o = walks refl
  sends_text-Nested ((name, type) ∷ m) h o =
      get_indent-Nested 3 o ▷ walks refl ▷ h.0.0 o ▷ walks refl ▷ sends_text-Nested m h.1 o

  result_text-Nested :
      (space : String) (func : Function)
      → Nested space
      → NestedFunction func
      → Nested (result_text toupper itos hash space func)
  unfolding result_text walk
  result_text-Nested space func n h o =
      if-Nested (str_eq func.rettype "void") _ _
        (λ o.
          get_indent-Nested 3 o
          ▷ walks refl
          ▷ protocol_name-Nested space n _
          ▷ walks refl
          ▷ upper func.name h.name _
          ▷ walks {s = ", sout);\n"} refl)
        (λ o.
          get_indent-Nested 3 o
          ▷ h.rettype o
          ▷ walks refl
          ▷ get_indent-Nested 3 _
          ▷ walks refl
          ▷ protocol_name-Nested space n _
          ▷ walks refl
          ▷ upper func.name h.name _
          ▷ walks {s = ", sout, &__r);\n"} refl
          ▷ get_indent-Nested 3 _
          ▷ walks {s = "return __r;\n"} refl)
        o

  method_text-Nested :
      (space : String)
      → Nested space
      → (func : Function) → NestedFunction func
      → Nested (method_text toupper itos hash space func)
  unfolding method_text walk
  method_text-Nested space n func h o =
      get_indent-Nested 2 o
      ▷ walks refl
      ▷ get_declaration-Nested func h o
      ▷ walks refl
      ▷ get_indent-Nested 3 _
      ▷ walks refl
      ▷ sends_text-Nested func.params h.params _
      ▷ result_text-Nested space func n h _
      ▷ get_indent-Nested 2 _
      ▷ walks {s = "}\n\n"} refl

  pub client_text-Nested :
      (space : String) (functions : List Function)
      → Nested space
      → All NestedFunction functions
      → Nested (client_text toupper itos hash space functions)
  unfolding client_text walk
  client_text-Nested space functions n h o =
      walks refl
      ▷ walks refl
      ▷ client_name-Nested space n o
      ▷ walks refl
      ▷ walks refl
      ▷ walks refl
      ▷ get_indent-Nested 1 _
      ▷ walks refl
      ▷ get_indent-Nested 2 _
      ▷ client_name-Nested space n _
      ▷ walks refl
      ▷ walks refl
      ▷ walks refl
      ▷ walks refl
      ▷ walks refl
      ▷ each_text-Nested _ functions (map_All functions (method_text-Nested space n) h) _
      ▷ walks {s = "\n\n};\n"} refl
