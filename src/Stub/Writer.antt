-- ===== src/Stub/Writer.antt =====
-- class CppWriter of include/stubgen/writer.hpp: the text of the header. `toupper` and `itos` are
-- the functions of the library common, and `hash` is std::hash<std::string>.
pub mod Nested
pub mod Classes
pub mod Functions
pub mod Header
use Prim.Native.String.{◌++◌}
use json_rpc.Common.{
  ℕ, zero, suc, ◌+◌, ◌-◌, ◌/◌, ◌%◌, ◌^◌, String, List, [], ◌∷◌, Bool, true, false, ◌==◌, ltb,
  if◌then◌else◌, str_eq, length,
}
use json_rpc.Common.Int.{ℤ, pos, negsuc, int_of_size}
use json_rpc.Errors.{Result, ok, stop, Stop, Fault, ◌>>=◌}
use json_rpc.Stub.Members.{Members}
use json_rpc.Stub.Defs.{ClassDef, Function, ServiceDef, get_declaration}
use json_rpc.Stub.Pieces.{
  nth_text, ten_digits, digits, abs_int, get_indent, serializer_lines, get_serializer, member_lines,
  class_text, each_text, protocol_name, service_name, client_name, wrapper_name, filename, includes,
}

module _ (toupper : String → String) (itos : ℕ → String) (hash : String → ℕ) where
  unfoldable pub header_def : String → String
  header_def space = "__" ++ toupper space ++ "_CPP_STUB_HPP__"

  -- The number of a function in the protocol.
  unfoldable pub number : Function → Result ℕ
  unfolding abs_int
  number func = abs_int (int_of_size (hash (toupper func.name)))

  enum_lines : List Function → Result String
  unfolding number digits get_indent
  enum_lines [] = ok ""
  enum_lines (func ∷ functions) = do
    n ← number func
    rest ← enum_lines functions
    ok (get_indent 3 ++ toupper func.name ++ "=" ++ digits 10 n ++ ",\n" ++ rest)

  pub protocol_text : String → List Function → Result String
  unfolding enum_lines
  protocol_text space functions = do
    lines ← enum_lines functions
    ok (
        "//Protocol Definition\n"
        ++ "class "
        ++ protocol_name space
        ++ "{\n"
        ++ get_indent 1
        ++ "public:\n"
        ++ get_indent 2
        ++ "enum {\n"
        ++ lines
        ++ get_indent 2
        ++ "};\n};\n")

  -- The arguments of a wrapper, from the number `count` on: their list, and the lines that read
  -- them.
  arg_list : ℕ → ℕ → Members → String
  arg_list size count [] = ""
  arg_list size count ((_, type) ∷ m) =
      "_arg"
      ++ itos count
      ++ (if count == size - 1 then "" else ", ")
      ++ arg_list size (count + 1) m

  arg_lines : ℕ → Members → String
  unfolding get_indent
  arg_lines count [] = ""
  arg_lines count ((_, type) ∷ m) =
      get_indent 2
      ++ type
      ++ " "
      ++ "_arg"
      ++ itos count
      ++ ";\n"
      ++ get_indent 2
      ++ "sin & "
      ++ "_arg"
      ++ itos count
      ++ ";\n"
      ++ arg_lines (count + 1) m

  reads_text : Members → String
  unfolding arg_lines
  reads_text [] = ""
  reads_text (param ∷ m) =
      get_indent 2
      ++ "InSerializer& sin = req->get_serializer();\n"
      ++ arg_lines 0 (param ∷ m)
      ++ "\n"

  call_text : Function → String
  unfolding arg_list get_indent
  call_text func =
      let args = arg_list (length func.params) 0 func.params in
      if str_eq func.rettype "void"
      then get_indent 2 ++ func.name ++ "(" ++ args ++ ");\n"
      else get_indent 2
        ++ func.rettype
        ++ " __r = "
        ++ func.name
        ++ "("
        ++ args
        ++ ");\n"
        ++ get_indent 2
        ++ "OutSerializer& sout = req->get_response().get_serializer();\n"
        ++ get_indent 2
        ++ "sout & __r;\n"

  -- The wrapper of a function.
  wrapper_text : Function → String
  unfolding reads_text call_text
  wrapper_text func =
      get_indent 1
      ++ "void "
      ++ wrapper_name func.name
      ++ "(Request* req) {\n"
      ++ reads_text func.params
      ++ call_text func
      ++ get_indent 1
      ++ "}\n\n"

  -- The line of _reg_wrappers for a function.
  reg_text : String → Function → String
  unfolding get_indent
  reg_text space func =
      get_indent 3
      ++ "reg("
      ++ protocol_name space
      ++ "::"
      ++ toupper func.name
      ++ ", &"
      ++ service_name space
      ++ "::"
      ++ wrapper_name func.name
      ++ ");\n"

  -- The function that the user fills in.
  stub_text : Function → String
  unfolding get_declaration get_indent
  stub_text func =
      get_indent 2
      ++ "virtual "
      ++ get_declaration false func
      ++ "{\n"
      ++ get_indent 3
      ++ "//TODO: stub HERE\n"
      ++ get_indent 2
      ++ "}\n"

  pub service_text : String → List Function → String
  unfolding wrapper_text reg_text stub_text each_text
  service_text space functions =
      "//Service Definition\n"
      ++ "class "
      ++ service_name space
      ++ ": public "
      ++ "AbstractService"
      ++ "<"
      ++ service_name space
      ++ "> {\n\n"
      ++ each_text wrapper_text functions
      ++ "\n\n"
      ++ get_indent 1
      ++ "public:\n\n"
      ++ get_indent 2
      ++ service_name space
      ++ "("
      ++ "ServerConnector"
      ++ "& server):"
      ++ "AbstractService"
      ++ "<"
      ++ service_name space
      ++ ">"
      ++ "(server) {\n"
      ++ get_indent 3
      ++ "register_service();\n"
      ++ get_indent 2
      ++ "}\n\n"
      ++ get_indent 2
      ++ "void _reg_wrappers() {\n"
      ++ each_text (reg_text space) functions
      ++ get_indent 2
      ++ "}\n\n"
      ++ each_text stub_text functions
      ++ "\n\n};\n"

  sends_text : Members → String
  unfolding get_indent
  sends_text [] = ""
  sends_text ((name, type) ∷ m) = get_indent 3 ++ "sout & " ++ name ++ ";\n" ++ sends_text m

  -- The call of a function of the client, and its result.
  result_text : String → Function → String
  unfolding get_indent
  result_text space func =
      if str_eq func.rettype "void"
      then get_indent 3
        ++ "call("
        ++ protocol_name space
        ++ "::"
        ++ toupper func.name
        ++ ", sout);\n"
      else get_indent 3
        ++ func.rettype
        ++ " __r;\n"
        ++ get_indent 3
        ++ "call("
        ++ protocol_name space
        ++ "::"
        ++ toupper func.name
        ++ ", sout, &__r);\n"
        ++ get_indent 3
        ++ "return __r;\n"

  -- A function of the client.
  method_text : String → Function → String
  unfolding sends_text result_text get_declaration
  method_text space func =
      get_indent 2
      ++ "virtual "
      ++ get_declaration false func
      ++ " {\n"
      ++ get_indent 3
      ++ "OutSerializer sout;\n"
      ++ sends_text func.params
      ++ result_text space func
      ++ get_indent 2
      ++ "}\n\n"

  pub client_text : String → List Function → String
  unfolding method_text each_text
  client_text space functions =
      "//Client Definition\n"
      ++ "class "
      ++ client_name space
      ++ " : public "
      ++ "AbstractClient"
      ++ " {\n\n"
      ++ get_indent 1
      ++ "public:\n"
      ++ get_indent 2
      ++ client_name space
      ++ "("
      ++ "ClientConnector"
      ++ "& client) : "
      ++ "AbstractClient"
      ++ "(client) {}\n"
      ++ each_text (method_text space) functions
      ++ "\n\n};\n"

  -- CppWriter::write: the text of the file.
  unfoldable pub write : String → List ClassDef → ServiceDef → Result String
  unfolding protocol_text service_text client_text class_text each_text header_def
  write space classdefs servicedef = do
    protocol ← protocol_text space servicedef.functions
    ok (
        "#ifndef "
        ++ header_def space
        ++ "\n"
        ++ "#define "
        ++ header_def space
        ++ "\n"
        ++ includes
        ++ each_text class_text classdefs
        ++ protocol
        ++ service_text space servicedef.functions
        ++ client_text space servicedef.functions
        ++ "#endif //"
        ++ header_def space)
