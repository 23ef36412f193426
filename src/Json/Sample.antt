-- ===== src/Json/Sample.antt =====
-- One concrete JSON library, with which the theorems that take one are tried out: values are trees,
-- an object is the list of its members, the latest first.
use Prim.Native.Char.{code}
use Prim.Native.Nat.{compare, Ordering}
use Prim.Native.String.{[] as empty, ◌∷◌ as char_cons, compare as compare_text, then as first_of}
use Prim.Native.String.compare as Texts
use text.Mathlib.Text.{is_eq}
use json_rpc.Common.{
  ℕ, zero, suc, ◌≤◌, ◌≡◌, refl, sym, ap, ◌∙◌, arith, String, str_eq, Bool, true, false, ◌&&◌, List,
  [], ◌∷◌, ◌++◌, Option, none, some, ◌==◌, if◌then◌else◌, length, length-append, append_assoc,
  append-nil,
}
use json_rpc.Common.Int.{ℤ, pos, negsuc}
use json_rpc.Json.{Json, JsonLaws, is_some}

pub data Tree : Type 0 where
  leaf : ℕ → Tree
  node : Tree → Tree → Tree

abbrev print : Tree → List ℕ
print (leaf n) = 1 ∷ suc n ∷ []
print (node a b) = 2 ∷ print a ++ print b

-- A tree from the front of a text, and the text behind it.
abbrev parse : ℕ → List ℕ → Option (Tree × List ℕ)
parse (suc fuel) (suc zero ∷ suc n ∷ text) = some (leaf n, text)
parse (suc fuel) (suc (suc zero) ∷ text) = elim (parse fuel text) [
  | none ↦ none
  | some (a, text') ↦ elim (parse fuel text') [
    | none ↦ none
    | some (b, text'') ↦ some (node a b, text'')
  ]
]
parse _ _ = none

parse-print :
    (v : Tree) (fuel : ℕ) (rest : List ℕ)
    → length (print v) ≤ fuel
    → parse fuel (print v ++ rest) ≡ some (v, rest)
parse-print (leaf n) zero rest h = absurd (omega arith)
parse-print (leaf n) (suc fuel) rest h = refl
parse-print (node a b) zero rest h = absurd (omega arith)
parse-print (node a b) (suc fuel) rest h =
    rw
      (
        append_assoc (print a) (print b) rest,
        parse-print a fuel (print b ++ rest) (omega (arith, length-append (print a) (print b))),
        parse-print b fuel rest (omega (arith, length-append (print a) (print b))),
      )
      refl

abbrev loads : List ℕ → Option Tree
loads text = elim (parse (length text) text) [ none ↦ none | some (v, _) ↦ some v ]

pub loads-print : (v : Tree) → loads (print v) ≡ some v
loads-print v =
    ap (λ t. elim (parse (length (print v)) t) [ none ↦ none | some (v, _) ↦ some v ])
      (sym (append-nil (print v)))
    ∙ rw (parse-print v (length (print v)) [] (omega arith)) refl

abbrev key : String → Tree
key empty = leaf 0
key (char_cons c s) = node (leaf (code c)) (key s)

abbrev same_key : Tree → Tree → Bool
same_key (leaf a) (leaf b) = a == b
same_key (node a b) (node c d) = same_key a c && same_key b d
same_key _ _ = false

is_eq-first_of :
    (o r : Ordering) → is_eq (first_of o r) ≡ (elim o [ Ordering.eq ↦ true | _ ↦ false ] && is_eq r)
is_eq-first_of Ordering.lt r = refl
is_eq-first_of Ordering.eq r = refl
is_eq-first_of Ordering.gt r = refl

pub same_key-key : (k i : String) → str_eq k i ≡ same_key (key k) (key i)
same_key-key empty empty = refl
same_key-key empty (char_cons d t) = ap is_eq (Texts.nil-cons d t)
same_key-key (char_cons c s) empty = ap is_eq (Texts.cons-nil c s)
same_key-key (char_cons c s) (char_cons d t) =
    ap is_eq (Texts.cons-cons c d s t)
    ∙ is_eq-first_of (compare (code c) (code d)) (compare_text s t)
    ∙ ap (λ b. elim (compare (code c) (code d)) [ Ordering.eq ↦ true | _ ↦ false ] && b)
        (same_key-key s t)

abbrev lookup : Tree → Tree → Option Tree
lookup (node (node k v) rest) i = if same_key k i then some v else lookup rest i
lookup _ i = none

abbrev get : Tree → String → Option Tree
get (node tag members) k = lookup members (key k)
get (leaf n) k = none

abbrev tag_is : ℕ → Tree → Bool
tag_is n (node (leaf m) _) = m == n
tag_is n _ = false

abbrev get_integer : Tree → ℤ
get_integer (node tag (node (leaf zero) (leaf n))) = pos n
get_integer (node tag (node (leaf (suc _)) (leaf n))) = negsuc n
get_integer _ = pos 0

abbrev integer : ℤ → Tree
integer (pos n) = node (leaf 0) (node (leaf 0) (leaf n))
integer (negsuc n) = node (leaf 0) (node (leaf 1) (leaf n))

abbrev pub array : Tree → Tree
array items = node (leaf 1) items

abbrev pub json : Json
json = record {
  Value = Tree;
  Object = Tree;
  value = node (leaf 2);
  loads = loads;
  dumps = print;
  is_object = tag_is 2;
  is_integer = tag_is 0;
  is_array = tag_is 1;
  get = get;
  contain = λ v k. is_some (get v k);
  get_integer = get_integer;
  integer = integer;
  new_object = leaf 0;
  put = λ o k v. node (node (key k) v) o;
  empty_content = node (leaf 1) (leaf 0);
  keeps = λ _. true;
}

pub is_integer-integer : (n : ℤ) → tag_is 0 (integer n) ≡ true
is_integer-integer (pos n) = refl
is_integer-integer (negsuc n) = refl

pub get_integer-integer : (n : ℤ) → get_integer (integer n) ≡ n
get_integer-integer (pos n) = refl
get_integer-integer (negsuc n) = refl

-- Everything that the theorems ask of the library holds of it.
pub json-JsonLaws : JsonLaws json
json-JsonLaws = record {
  loads-dumps = λ o. loads-print (node (leaf 2) o);
  dumps-ne-nil = λ o e. cc;
  is_object-value = λ o. refl;
  get-new_object = λ k. refl;
  get-put =
      λ o k i v. ap (λ b. if b then some v else get (node (leaf 2) o) i) (sym (same_key-key k i));
  contain-get = λ v k. refl;
  is_integer-integer = is_integer-integer;
  get_integer-integer = λ n h. get_integer-integer n;
}
