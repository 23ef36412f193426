-- ===== src/Stub/Defs/Reorder.antt =====
-- The order in which the JSON library gives the keys of an object does not matter.
use mathlib.Core.List.{Permᴰ}
use json_rpc.Common.{
  String, List, [], ◌∷◌, Option, none, some, ◌≡◌, ◌≢◌, refl, sym, ap, ◌∙◌, Bool-cases, inl, inr,
  str_eq, eq_iff, if◌then◌else◌,
}
use json_rpc.Errors.{Result, ok, ◌>>=◌, bind_cong}
use json_rpc.Stub.Members.Order.{set_member_comm}
use json_rpc.Stub.Defs.{
  Description, ClassDef, Function, assert_, deref, add_member, add_param, make_function, each_key,
  class_from_json, add_params, set_return, not_null, function_from_json,
}

-- Two uses of pointers may change places: both fail in the same way.
deref_swap :
    {A D : Type 0} (x y : Option A) (f g : A → A → Result D)
    → ((a b : A) → f a b ≡ g b a)
    → (deref x >>= λ a. deref y >>= λ b. f a b) ≡ (deref y >>= λ b. deref x >>= λ a. g b a)
unfolding deref
deref_swap none none f g e = refl
deref_swap none (some b) f g e = refl
deref_swap (some a) none f g e = refl
deref_swap (some a) (some b) f g e = e a b

module _ (j : Description) where
  -- Two objects with the same values under the same keys, in some order.
  pub record Reordered (v v' : j.Value) : Type 0 where
    pub is_object : j.is_object v ≡ j.is_object v'
    pub is_null : j.is_null v ≡ j.is_null v'
    pub get : (key : String) → j.get v key ≡ j.get v' key
    pub get_keys : Permᴰ (j.get_keys v) (j.get_keys v')

  module _ {D : Type 0} (add : String → String → D → D) (v : j.Value) where
    each_key-same :
        (v' : j.Value) (keys : List String) (def : D)
        → ((key : String) → j.get v key ≡ j.get v' key)
        → each_key j add v keys def ≡ each_key j add v' keys def
    unfolding each_key deref
    each_key-same v' [] def e = refl
    each_key-same v' (key ∷ keys) def e = rw (e key) (
        bind_cong (deref (j.get v' key)) _ _
          (λ u. each_key-same v' keys (add key (j.get_string u) def) e))

    module _
        (comm : (k k' t t' : String) (d : D)
          → k ≢ k'
          → add k t (add k' t' d) ≡ add k' t' (add k t d)) where
      each_key-swap :
          (a b : String) (keys : List String) (def : D)
          → each_key j add v (a ∷ b ∷ keys) def ≡ each_key j add v (b ∷ a ∷ keys) def
      unfolding each_key deref
      each_key-swap a b keys def = elim (Bool-cases (str_eq a b)) [
        | inl e ↦
            ap (λ k. each_key j add v k def)
              (λ i. (eq_iff a b).0 e i ∷ sym ((eq_iff a b).0 e) i ∷ keys)
        | inr n ↦ deref_swap (j.get v a) (j.get v b) _ _ λ u w.
            ap (each_key j add v keys)
              (comm b a (j.get_string w) (j.get_string u) def (λ e. cc (n, (eq_iff a b).1 (sym e))))
      ]

      each_key-reorder :
          {keys keys' : List String} (def : D)
          → Permᴰ keys keys'
          → each_key j add v keys def ≡ each_key j add v keys' def
      unfolding each_key
      each_key-reorder def Permᴰ.nil = refl
      each_key-reorder def (Permᴰ.cons {a} {b} {l₁} {l₂} e p) =
          bind_cong (deref (j.get v a)) _ _ (λ u. each_key-reorder (add a (j.get_string u) def) p)
          ∙ ap (λ k. each_key j add v (k ∷ l₂) def) e
      each_key-reorder def (Permᴰ.swap {a} {b} {a'} {b'} {l} e e') =
          each_key-swap a b l def ∙ ap (λ k. each_key j add v k def) (λ i. e' i ∷ e i ∷ l)
      each_key-reorder def (Permᴰ.trans p q) = each_key-reorder def p ∙ each_key-reorder def q

  add_member_comm :
      (k k' t t' : String) (d : ClassDef)
      → k ≢ k'
      → add_member k t (add_member k' t' d) ≡ add_member k' t' (add_member k t d)
  add_member_comm k k' t t' d n =
      ap (λ m. record d { members = m }) (set_member_comm k k' t t' d.members n)

  add_param_comm :
      (k k' t t' : String) (d : Function)
      → k ≢ k'
      → add_param k t (add_param k' t' d) ≡ add_param k' t' (add_param k t d)
  add_param_comm k k' t t' d n =
      ap (λ m. record d { params = m }) (set_member_comm k k' t t' d.params n)

  -- Two such objects are read to the same class, or with the same fault.
  pub class_from_json-Reordered :
      (name : String) (v v' : j.Value)
      → Reordered v v'
      → class_from_json j name v ≡ class_from_json j name v'
  unfolding class_from_json
  class_from_json-Reordered name v v' r = rw (r.is_object) (
      bind_cong (assert_ (j.is_object v')) _ _ λ _.
        each_key-same add_member v v' (j.get_keys v) _ r.get
        ∙ each_key-reorder add_member v' add_member_comm _ r.get_keys)

  add_params-Reordered :
      (v v' : j.Value) (func : Function)
      → Reordered v v'
      → add_params j v func ≡ add_params j v' func
  unfolding add_params
  add_params-Reordered v v' func r =
      rw (r.is_object, r.is_null)
        (ap (λ t. if j.is_object v' then t else (assert_ (j.is_null v') >>= λ _. ok func))
          (each_key-same add_param v v' (j.get_keys v) func r.get
            ∙ each_key-reorder add_param v' add_param_comm func r.get_keys))

  -- Two descriptions of a function, both objects or neither, with the same name, the same result
  -- and parameters that are the same values under the same keys, in whatever order the JSON library
  -- gives the keys, are read alike: to the same function, with the parameters in the same order, or
  -- with the same fault.
  pub function_from_json-Reordered :
      (value value' param param' : j.Value)
      → j.is_object value ≡ j.is_object value'
      → j.get value "name" ≡ j.get value' "name"
      → j.get value "return" ≡ j.get value' "return"
      → j.get value "params" ≡ some param
      → j.get value' "params" ≡ some param'
      → Reordered param param'
      → function_from_json j value ≡ function_from_json j value'
  unfolding function_from_json not_null
  function_from_json-Reordered value value' param param' o n t p p' r =
      rw (o, n, t, p, p')
        (bind_cong (assert_ (j.is_object value')) _ _ λ _.
          bind_cong (not_null j (j.get value' "name")) _ _ λ name.
            bind_cong (assert_ (j.is_string name)) _ _ λ _.
              ap (λ f. f >>= set_return j (j.get value' "return"))
                (add_params-Reordered param param' (make_function (j.get_string name)) r))
