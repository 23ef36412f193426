-- ===== src/Stub/Writer/Nested.antt =====
-- The brackets of the header.
use Prim.Native.Char.{code}
use Prim.Native.String.{◌++◌}
use Prim.Native.String.append
use json_rpc.Common.{
  ℕ, zero, suc, String, List, [], ◌∷◌, Bool, true, false, Option, none, some, ◌==◌, ltb,
  if◌then◌else◌, ◌≡◌, refl, ap, ◌∙◌, ◌/◌, ◌%◌, All,
}
use json_rpc.Stub.Pieces.{nth_text, ten_digits, digits, get_indent, each_text}

-- What a character does to the brackets that wait to be closed, the latest first: none if it closes
-- another one than the latest.
bracket : ℕ → List ℕ → Option (List ℕ)
bracket c open_ =
    if c == 123
    then some (125 ∷ open_)
    else if c == 40
    then some (41 ∷ open_)
    else if c == 125
    then closing open_
    else if c == 41
    then closing open_
    else some open_
  where
    closing : List ℕ → Option (List ℕ)
    closing [] = none
    closing (d ∷ rest) = if d == c then some rest else none

-- The brackets that wait behind a text.
unfoldable pub walk : String → List ℕ → Option (List ℕ)
unfolding bracket
walk String.[] open_ = some open_
walk (String.◌∷◌ c s) open_ = elim (bracket (code c) open_) [
  | none ↦ none
  | some next ↦ walk s next
]

-- Behind the text the brackets `b` wait, if `a` waited before it.
pub record Walks (s : String) (a b : List ℕ) : Type 0 where
  pub runs : walk s a ≡ some b

pub walks : {s : String} {a b : List ℕ} → walk s a ≡ some b → Walks s a b
walks e = record { runs = e }

-- A text whose brackets are nested, whatever it stands in.
abbrev pub Nested : String → Type 0
Nested s = (open_ : List ℕ) → Walks s open_ open_

continue_ : String → Option (List ℕ) → Option (List ℕ)
continue_ t none = none
continue_ t (some b) = walk t b

walk-append : (s t : String) (a : List ℕ) → walk (s ++ t) a ≡ continue_ t (walk s a)
unfolding walk continue_
walk-append String.[] t a = rw (append.nil t) refl
walk-append (String.◌∷◌ x s) t a =
    rw (append.cons x s t) (step (bracket (code x) a) (walk-append s t))
  where
    step :
        (o : Option (List ℕ))
        → ((b : List ℕ) → walk (s ++ t) b ≡ continue_ t (walk s b))
        → ◌≡◌ {A = Option (List ℕ)}
            (elim o [ none ↦ none | some next ↦ walk (s ++ t) next ])
            (continue_ t (elim o [ none ↦ none | some next ↦ walk s next ]))
    step none again = refl
    step (some next) again = again next

-- Texts one behind the other.
infixr 60 ◌▷◌
pub ◌▷◌ : {s t : String} {a b c : List ℕ} → Walks s a b → Walks t b c → Walks (s ++ t) a c
unfolding continue_
◌▷◌ {s} {t} {a} {b} {c} h k = walks (walk-append s t a ∙ ap (continue_ t) h.runs ∙ k.runs)

pub get_indent-Nested : (n : ℕ) → Nested (get_indent n)
unfolding get_indent walk
get_indent-Nested zero o = walks refl
get_indent-Nested (suc n) o = walks refl ▷ get_indent-Nested n o

nth_text-Nested : (texts : List String) (n : ℕ) → All Nested texts → Nested (nth_text texts n)
unfolding nth_text walk
nth_text-Nested [] n h o = walks refl
nth_text-Nested (s ∷ texts) zero h o = h.0 o
nth_text-Nested (s ∷ texts) (suc n) h o = nth_text-Nested texts n h.1 o

ten_digits-Nested : All Nested ten_digits
unfolding walk
ten_digits-Nested = (
  λ _. walks refl,
  (
    λ _. walks refl,
    (
      λ _. walks refl,
      (
        λ _. walks refl,
        (
          λ _. walks refl,
          (
            λ _. walks refl,
            (λ _. walks refl, (λ _. walks refl, (λ _. walks refl, (λ _. walks refl, tt)))),
          ),
        ),
      ),
    ),
  ),
)

pub if-Nested : (b : Bool) (s t : String) → Nested s → Nested t → Nested (if b then s else t)
if-Nested true s t h k = h
if-Nested false s t h k = k

pub digits-Nested : (k n : ℕ) → Nested (digits k n)
unfolding digits walk
digits-Nested zero n o = walks refl
digits-Nested (suc k) n o =
    if-Nested (ltb n 10) "" (digits k (n / 10)) (λ _. walks refl) (digits-Nested k (n / 10)) o
    ▷ nth_text-Nested ten_digits (n % 10) ten_digits-Nested o

pub each_text-Nested :
    {A : Type 0} (text : A → String) (items : List A)
    → All (λ a. Nested (text a)) items
    → Nested (each_text text items)
unfolding each_text walk
each_text-Nested text [] h o = walks refl
each_text-Nested text (a ∷ items) h o = h.0 o ▷ each_text-Nested text items h.1 o
