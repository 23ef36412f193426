-- ===== src/Examples/Stubs.antt =====
-- The generator of stubs at work on the description of README.md.
use mathlib.Core.List.{Permᴰ}
use json_rpc.Common.{
  ℕ, zero, suc, String, List, [], ◌∷◌, true, false, Option, none, some, ◌≡◌, ◌≢◌, ◌↔◌, refl, str_eq,
  eq_iff, arith, if◌then◌else◌,
}
use json_rpc.Common.Int.{negsuc}
use json_rpc.Errors.{Result, ok}
use json_rpc.Stub.Defs.{Description, ClassDef, Function, ServiceDef, function_from_json}
use json_rpc.Stub.Defs.Reorder.{Reordered, function_from_json-Reordered}
use json_rpc.Stub.Pieces.{digits, wrapper_name}
use json_rpc.Stub.Writer.{number, write}
use json_rpc.Stub.Writer.Nested.{walk, walks, Nested, digits-Nested}
use json_rpc.Stub.Writer.Classes.{NestedMembers, NestedFunction}
use json_rpc.Stub.Writer.Header.{text_of, write-Nested}
use json_rpc.Stub.Main.{main}
use json_rpc.Stub.Main.Accepts.{IsSpec, main_iff}
use json_rpc.Stub.Routes.{registrations}

-- Values of JSON: objects and arrays from their first entry on.
data Doc : Type 0 where
  null_value no_entries no_items : Doc
  text : String → Doc
  entry : String → Doc → Doc → Doc
  item_of : Doc → Doc → Doc

abbrev get_doc : Doc → String → Option Doc
get_doc (entry k v rest) key = if str_eq k key then some v else get_doc rest key
get_doc _ key = none

abbrev keys_of : Doc → List String
keys_of (entry k v rest) = k ∷ keys_of rest
keys_of _ = []

abbrev size_of : Doc → ℕ
size_of (item_of v rest) = suc (size_of rest)
size_of _ = 0

abbrev nth_item : Doc → ℕ → Option Doc
nth_item (item_of v rest) zero = some v
nth_item (item_of v rest) (suc n) = nth_item rest n
nth_item _ n = none

abbrev docs : Description
docs = record {
  Value = Doc;
  is_object = λ v. elim v [ entry _ _ _ ↦ true | no_entries ↦ true | _ ↦ false ];
  is_array = λ v. elim v [ item_of _ _ ↦ true | no_items ↦ true | _ ↦ false ];
  is_string = λ v. elim v [ text _ ↦ true | _ ↦ false ];
  is_null = λ v. elim v [ null_value ↦ true | _ ↦ false ];
  get = get_doc;
  get_keys = keys_of;
  get_string = λ v. elim v [ text s ↦ s | _ ↦ "" ];
  size = size_of;
  item = nth_item;
}

abbrev by_name : Doc
by_name = entry "name" (text "string") (entry "age" (text "int") no_entries)

abbrev by_age : Doc
by_age = entry "age" (text "int") (entry "name" (text "string") no_entries)

abbrev say_hello : Doc → Doc
say_hello params = entry "name" (text "sayHello") (entry "params" params no_entries)

names_differ : ◌≢◌ {A = String} "name" "age"
names_differ = ground (arith, eq_iff "name" "age")

reordered : Reordered docs by_name by_age
reordered = record {
  is_object = refl;
  is_null = refl;
  get = λ key. ground (arith, eq_iff "name" key, eq_iff "age" key, names_differ);
  get_keys = Permᴰ.swap refl refl;
}

function_from_json-Reordered_example :
    function_from_json docs (say_hello by_name) ≡ function_from_json docs (say_hello by_age)
function_from_json-Reordered_example =
    function_from_json-Reordered docs (say_hello by_name) (say_hello by_age) by_name by_age refl
      refl refl refl refl reordered

-- The functions of the description.
abbrev pub hello : Function
hello = record {
  name = "sayHello";
  rettype = "void";
  cname = "Demo";
  params = ("age", "int") ∷ ("name", "string") ∷ [];
}

abbrev pub random : Function
random = record { name = "getRandomNumber"; rettype = "int"; cname = "Demo"; params = [] }

abbrev point : ClassDef
point = record { name = "Point"; members = ("x", "int") ∷ ("y", "string") ∷ [] }

abbrev demo : ServiceDef
demo = record { name = "Demo"; functions = hello ∷ random ∷ [] }

abbrev pub same_text : String → String
same_text s = s

-- A hash that tells the two functions apart.
abbrev pub two_hashes : String → ℕ
two_hashes s = if str_eq s "sayHello" then 7 else 5

abbrev written : Result String
written = write same_text (digits 10) two_hashes "Demo" (point ∷ []) demo

written_ok : written ≡ ok (text_of written)
unfolding write number
written_ok = refl

hello-Nested : NestedFunction hello
unfolding walk
hello-Nested = record {
  name = λ o. walks refl;
  rettype = λ o. walks refl;
  params = ((λ o. walks refl, λ o. walks refl), ((λ o. walks refl, λ o. walks refl), tt));
}

random-Nested : NestedFunction random
unfolding walk
random-Nested = record { name = λ o. walks refl; rettype = λ o. walks refl; params = tt }

point-Nested : Nested point.name × NestedMembers point.members
unfolding walk
point-Nested = (
  λ o. walks refl,
  ((λ o. walks refl, λ o. walks refl), ((λ o. walks refl, λ o. walks refl), tt)),
)

demo_Nested : Nested "Demo"
unfolding walk
demo_Nested o = walks refl

write-Nested_example : Nested (text_of written)
write-Nested_example =
    write-Nested same_text (digits 10) two_hashes (λ s h. h) (digits-Nested 10) "Demo" (point ∷ [])
      demo (text_of written) demo_Nested (point-Nested, tt) (hello-Nested, (random-Nested, tt))
      written_ok

pub registered :
    registrations same_text (digits 10) two_hashes (hello ∷ random ∷ [])
    ≡ ok ((7, wrapper_name "sayHello") ∷ (5, wrapper_name "getRandomNumber") ∷ [])
unfolding registrations number
registered = refl

pub seven_is_hello : number same_text (digits 10) two_hashes hello ≡ ok 7
unfolding number
seven_is_hello = refl

pub random_is_not_seven : number same_text (digits 10) two_hashes random ≢ ok 7
unfolding number
random_is_not_seven e = ground (arith, e)

main_iff_example :
    (main docs same_text (digits 10) two_hashes 2 (some by_age) ≡ ok (negsuc 0, none))
    ↔ ¬ IsSpec docs same_text (digits 10) two_hashes 2 (some by_age)
main_iff_example = main_iff docs same_text (digits 10) two_hashes 2 (some by_age)
