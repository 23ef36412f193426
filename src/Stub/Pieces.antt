-- ===== src/Stub/Pieces.antt =====
-- The parts of the header of include/stubgen/writer.hpp that need no other library: numbers,
-- indents, the definition of a class, and the names.
use Prim.Native.String.{◌++◌}
use json_rpc.Common.{
  ℕ, zero, suc, ◌-◌, ◌/◌, ◌%◌, ◌^◌, String, List, [], ◌∷◌, ◌==◌, ltb, if◌then◌else◌,
}
use json_rpc.Common.Int.{ℤ, pos, negsuc}
use json_rpc.Errors.{Result, ok, stop, Stop, Fault}
use json_rpc.Stub.Members.{Members}
use json_rpc.Stub.Defs.{ClassDef}

-- How an `int` is printed, from 0 on: the last digit, and before it those of the tenth, up to so
-- many.
unfoldable pub nth_text : List String → ℕ → String
nth_text [] n = ""
nth_text (s ∷ texts) zero = s
nth_text (s ∷ texts) (suc n) = nth_text texts n

abbrev pub ten_digits : List String
ten_digits = "0" ∷ "1" ∷ "2" ∷ "3" ∷ "4" ∷ "5" ∷ "6" ∷ "7" ∷ "8" ∷ "9" ∷ []

unfoldable pub digits : ℕ → ℕ → String
unfolding nth_text
digits zero n = ""
digits (suc k) n =
    let rest = digits k (n / 10) in (if ltb n 10 then "" else rest) ++ nth_text ten_digits (n % 10)

-- std::abs
unfoldable pub abs_int : ℤ → Result ℕ
abs_int (pos n) = ok n
abs_int (negsuc n) = if n == 2 ^ 31 - 1 then stop (Stop.fault Fault.overflow) else ok (suc n)

-- CppWriter::_get_indent
unfoldable pub get_indent : ℕ → String
get_indent zero = ""
get_indent (suc level) = "  " ++ get_indent level

-- The lines of _get_serializer and those of a class.
unfoldable pub serializer_lines : Members → String
unfolding get_indent
serializer_lines [] = ""
serializer_lines ((name, type) ∷ m) =
    get_indent 4 ++ "serializer & " ++ name ++ ";\n" ++ serializer_lines m

-- CppWriter::_get_serializer
unfoldable pub get_serializer : Members → String
unfolding serializer_lines
get_serializer m =
    get_indent 2
    ++ "template<class Serializer>\n"
    ++ get_indent 3
    ++ "void seralize(Serializer& serializer) {\n"
    ++ serializer_lines m
    ++ get_indent 3
    ++ "}\n"

unfoldable pub member_lines : Members → String
member_lines [] = ""
member_lines ((name, type) ∷ m) = "  " ++ type ++ " " ++ name ++ ";\n" ++ member_lines m

-- The definition of a class.
unfoldable pub class_text : ClassDef → String
unfolding get_serializer member_lines
class_text def =
    "//Definition of class "
    ++ def.name
    ++ "\n"
    ++ "class "
    ++ def.name
    ++ " {\n\n"
    ++ member_lines def.members
    ++ "\n\n"
    ++ "//Define serializer\n"
    ++ get_indent 1
    ++ "public:\n"
    ++ get_serializer def.members
    ++ "\n\n};"
    ++ "\n"

-- Texts for each item, one behind the other.
unfoldable pub each_text {ℓ} : {A : Type ℓ} → (A → String) → List A → String
each_text text [] = ""
each_text text (x ∷ xs) = text x ++ each_text text xs

-- The names that a header is made of.
abbrev pub protocol_name : String → String
protocol_name space = space ++ "Protocol"

abbrev pub service_name : String → String
service_name space = space ++ "Service"

abbrev pub client_name : String → String
client_name space = space ++ "Client"

abbrev pub wrapper_name : String → String
wrapper_name name = "_" ++ name ++ "_wrapper"

abbrev pub filename : String → String
filename space = space ++ "CppStub.hpp"

-- The include lines.
abbrev pub includes : String
includes =
    "\n\n#include \"json-rpc/all.hpp\"\n#include \"jconer/json.hpp\"\n#include <iostream>\n#include <string>\n#include <vector>\n#include <map>\n#include <list>\n#include <set>\n\nusing namespace std;\nusing namespace JCONER;\n\n"
