-- ===== src/Stub/Routes.antt =====
-- Which wrapper the number of a function leads to, in the service that registers the wrappers of a
-- generated header.
use json_rpc.Common.{
  ℕ, String, List, [], ◌∷◌, ◌++◌, Option, none, some, ◌≡◌, ◌≢◌, sym, ap, subst, ◌∙◌, eq→==, ne→==,
  All,
}
use json_rpc.Errors.{Result, ok, stop, ◌>>=◌, >>=-eq-ok}
use json_rpc.Service.{find, reg_all}
use json_rpc.Service.Dispatch.{last_call, find-reg_all}
use json_rpc.Stub.Defs.{Function}
use json_rpc.Stub.Pieces.{wrapper_name}
use json_rpc.Stub.Writer.{number}

module _ (toupper : String → String) (itos : ℕ → String) (hash : String → ℕ) where
  -- The calls of reg in the function _reg_wrappers that is written, with the numbers that the
  -- enumerators have and the names of the wrappers.
  unfoldable pub registrations : List Function → Result (List (ℕ × String))
  registrations [] = ok []
  registrations (func ∷ functions) = do
    n ← number toupper itos hash func
    calls ← registrations functions
    ok ((n, wrapper_name func.name) ∷ calls)

  abbrev calls_of : Result (List (ℕ × String)) → List (ℕ × String)
  calls_of (ok calls) = calls
  calls_of (stop x) = []

  registrations-cons :
      (g : Function) (functions : List Function) (calls : List (ℕ × String))
      → registrations (g ∷ functions) ≡ ok calls
      → (m : ℕ) × (rest : List (ℕ × String)) × (number toupper itos hash g ≡ ok m)
        × (registrations functions ≡ ok rest)
        × ((m, wrapper_name g.name) ∷ rest ≡ calls)
  unfolding registrations
  registrations-cons g functions calls e =
      let (m, k, e') = >>=-eq-ok (number toupper itos hash g) _ calls e in
      let (rest, r, e'') = >>=-eq-ok (registrations functions) _ calls e' in
      (m, rest, k, r, ap calls_of e'')

  -- A number that no function has.
  last_call-absent :
      (n : ℕ) (functions : List Function) (calls : List (ℕ × String)) (before : Option String)
      → registrations functions ≡ ok calls
      → All (λ g. number toupper itos hash g ≢ ok n) functions
      → last_call n calls before ≡ before
  unfolding registrations
  last_call-absent n [] calls before e h = ap (λ r. last_call n (calls_of r) before) (sym e)
  last_call-absent n (g ∷ functions) calls before e h =
      let (m, rest, k, r, c) = registrations-cons g functions calls e in
      subst (λ t. last_call n t before ≡ before) c
        (rw (last_call, ne→== m n (λ q. h.0 (k ∙ ap ok q)))
          (last_call-absent n functions rest before r h.1))

  last_call-found :
      (earlier later : List Function) (func : Function) (n : ℕ) (calls : List (ℕ × String))
      (before : Option String)
      → registrations (earlier ++ func ∷ later) ≡ ok calls
      → number toupper itos hash func ≡ ok n
      → All (λ g. number toupper itos hash g ≢ ok n) later
      → last_call n calls before ≡ some (wrapper_name func.name)
  last_call-found [] later func n calls before e k h =
      let (m, rest, l, r, c) = registrations-cons func later calls e in
      subst (λ t. last_call n t before ≡ some (wrapper_name func.name)) c
        (rw (last_call, eq→== m n (ap (λ q. elim q [ ok x ↦ x | stop y ↦ 0 ]) (sym l ∙ k)))
          (last_call-absent n later rest (some (wrapper_name func.name)) r h))
  last_call-found (g ∷ earlier) later func n calls before e k h =
      let (m, rest, l, r, c) = registrations-cons g (earlier ++ func ∷ later) calls e in
      subst (λ t. last_call n t before ≡ some (wrapper_name func.name)) c
        (last_call-found earlier later func n rest _ r k h)

  -- If every function of a service has a number, then in a service without handlers that makes the
  -- calls of reg of the generated header the number of a function leads to its own wrapper, unless
  -- a later function has the same number.
  pub find-registrations :
      (earlier later : List Function) (func : Function) (n : ℕ) (calls : List (ℕ × String))
      → registrations (earlier ++ func ∷ later) ≡ ok calls
      → number toupper itos hash func ≡ ok n
      → All (λ g. number toupper itos hash g ≢ ok n) later
      → find n (reg_all calls []) ≡ some (wrapper_name func.name)
  unfolding find
  find-registrations earlier later func n calls e k h =
      find-reg_all n calls [] ∙ last_call-found earlier later func n calls none e k h
