-- ===== src/Stub/Main/Accepts.antt =====
-- Which descriptions main turns down.
use json_rpc.Common.{
  ℕ, String, true, ◌==◌, ==_iff, Option, none, some, ◌≡◌, ◌≢◌, ◌↔◌, ◌⊎◌, inl, inr, refl, sym, ap,
  ◌∙◌, Bool-cases, Option-cases,
}
use json_rpc.Common.Int.{negsuc}
use json_rpc.Errors.{ok, >>=-eq-ok}
use json_rpc.Stub.Defs.{Description, service_from_json}
use json_rpc.Stub.Writer.{write}
use json_rpc.Stub.Main.{class_defs, is_object_or_null, generated, checked, loaded, main}

module _ (j : Description) (toupper : String → String) (itos : ℕ → String) (hash : String → ℕ) where
  -- The grammar, as far as main looks at it: one file, which is an object with a text for its
  -- namespace, an array for its service and, if there are classes, an object of them.
  abbrev pub IsSpec : ℕ → Option j.Value → Type 0
  IsSpec argc file =
      (argc ≡ 2)
      × (spec : j.Value) × (file ≡ some spec)
      × (j.is_object spec ≡ true)
      × (space : j.Value) × (j.get spec "namespace" ≡ some space)
      × (j.is_string space ≡ true)
      × (service : j.Value) × (j.get spec "service" ≡ some service)
      × (j.is_array service ≡ true)
      × ((classes : j.Value) → j.get spec "classes" ≡ some classes → j.is_object classes ≡ true)

  generated-ne :
      (space : String) (classes : Option j.Value) (service : j.Value)
      → generated j toupper itos hash space classes service ≢ ok (negsuc 0, none)
  unfolding generated
  generated-ne space classes service e =
      let (defs, _, e1) = >>=-eq-ok (class_defs j toupper itos hash classes) _ _ e in
      let (servicedef, _, e2) = >>=-eq-ok (service_from_json j space service) _ _ e1 in
      let (text, _, e3) = >>=-eq-ok (write toupper itos hash space defs servicedef) _ _ e2 in cc e3

  no_classes :
      (classes : Option j.Value)
      → ((c : j.Value) → classes ≡ some c → j.is_object c ≡ true)
        ↔ (is_object_or_null j toupper itos hash classes ≡ true)
  unfolding is_object_or_null
  no_classes none = (λ _. refl, λ _ c e. absurd (cc e))
  no_classes (some c) = (
    λ h. h c refl,
    λ h d e. ap (λ o. elim o [ none ↦ true | some x ↦ j.is_object x ]) (sym e) ∙ h,
  )

  checked_or :
      (space classes service : Option j.Value)
      → (checked j toupper itos hash space classes service ≡ ok (negsuc 0, none))
        ⊎ ((s : j.Value) × (space ≡ some s)
            × (j.is_string s ≡ true)
            × (v : j.Value) × (service ≡ some v)
            × (j.is_array v ≡ true)
            × ((c : j.Value) → classes ≡ some c → j.is_object c ≡ true))
  unfolding checked
  checked_or none classes none = inl refl
  checked_or none classes (some v) = inl refl
  checked_or (some s) classes none = inl refl
  checked_or (some s) classes (some v) = elim (Bool-cases (j.is_string s)) [
    | inr e ↦ inl (rw e refl)
    | inl e ↦ elim (Bool-cases (is_object_or_null j toupper itos hash classes)) [
      | inr f ↦ inl (rw (e, f) refl)
      | inl f ↦ elim (Bool-cases (j.is_array v)) [
        | inr g ↦ inl (rw (e, f, g) refl)
        | inl g ↦ inr (s, refl, e, v, refl, g, (no_classes classes).1 f)
      ]
    ]
  ]

  main_or :
      (argc : ℕ) (file : Option j.Value)
      → (main j toupper itos hash argc file ≡ ok (negsuc 0, none)) ⊎ IsSpec argc file
  unfolding main loaded
  main_or argc file = elim (Bool-cases (argc == 2)) [
    | inr a ↦ inl (rw a refl)
    | inl a ↦ elim (Option-cases file) [
      | inl f ↦ inl (rw (a, f) refl)
      | inr (spec, f) ↦ elim (Bool-cases (j.is_object spec)) [
        | inr o ↦ inl (rw (a, f, o) refl)
        | inl o ↦
            elim (checked_or (j.get spec "namespace") (j.get spec "classes")
              (j.get spec "service")) [
                | inl e ↦ inl (rw (a, f, o) e)
                | inr (s, n, t, v, w, g, c) ↦
                    inr ((==_iff argc 2).0 a, spec, f, o, s, n, t, v, w, g, c)
              ]
      ]
    ]
  ]

  -- A description that keeps to the grammar is generated from.
  main-IsSpec :
      (argc : ℕ) (file : Option j.Value) (spec : IsSpec argc file)
      → main j toupper itos hash argc file
        ≡ generated j toupper itos hash (j.get_string spec.4) (j.get spec.1 "classes") spec.7
  unfolding main loaded checked
  main-IsSpec argc file (a, spec, f, o, space, n, s, service, v, r, c) =
      rw ((==_iff argc 2).1 a, f, o, n, v, s, (no_classes (j.get spec "classes")).0 c, r) refl

  -- The generator returns -1 and writes nothing exactly if it is not given one file that is read as
  -- an object with a text as namespace, an array as service and, if there are classes, an object of
  -- classes.
  pub main_iff :
      (argc : ℕ) (file : Option j.Value)
      → (main j toupper itos hash argc file ≡ ok (negsuc 0, none)) ↔ ¬ IsSpec argc file
  main_iff argc file = (
    λ e spec.
        generated-ne (j.get_string spec.4) (j.get spec.1 "classes") spec.7
          (sym (main-IsSpec argc file spec) ∙ e),
    λ n. elim (main_or argc file) [ inl e ↦ e | inr spec ↦ absurd (n spec) ],
  )
