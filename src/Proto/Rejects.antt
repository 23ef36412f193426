-- ===== src/Proto/Rejects.antt =====
-- Which messages the server accepts as requests.
use json_rpc.Common.{
  ℕ, ◌≡◌, ◌⊎◌, ◌↔◌, inl, inr, refl, String, true, Bool-cases, List, Option, none, some, arith,
}
use json_rpc.Common.Int.{ℤ}
use json_rpc.Errors.{Result, ok, Exception, ServerException, throw, ◌>>=◌, >>=-eq-ok}
use json_rpc.Json.{Json}
use json_rpc.Request.{Request}
use json_rpc.Proto.{
  client_no, server_no, message_id, version, timestamp, method, param, parse_request, request_of,
  object_item, integer_item, array_item, not_parsed,
}

module _ (j : Json) where
  open j use {Value, is_array, is_integer, is_object, get, loads}

  -- The member k of v is an integer.
  abbrev pub HasInteger : Value → String → Type 0
  HasInteger v k = (item : Value) × (get v k ≡ some item) × (is_integer item ≡ true)

  -- A message is a request if it is an object with six integers and the array of parameters.
  pub record IsRequest (v : Value) : Type 0 where
    pub object : is_object v ≡ true
    pub client_item : HasInteger v client_no
    pub server_item : HasInteger v server_no
    pub version_item : HasInteger v version
    pub time_item : HasInteger v timestamp
    pub message_item : HasInteger v message_id
    pub method_item : HasInteger v method
    pub param_item : (item : Value) × (get v param ≡ some item) × (is_array item ≡ true)

  integer_item-ok :
      (o : Option Value) (n : ℤ)
      → integer_item j o ≡ ok n
      → (item : Value) × (o ≡ some item) × (is_integer item ≡ true)
  unfolding integer_item
  integer_item-ok none n e = cc
  integer_item-ok (some v) n e = (v, refl, ground arith)

  array_item-ok :
      (o : Option Value) (a : Value)
      → array_item j o ≡ ok a
      → (item : Value) × (o ≡ some item) × (is_array item ≡ true)
  unfolding array_item
  array_item-ok none n e = cc
  array_item-ok (some v) n e = (v, refl, ground arith)

  request_of_sound :
      (v : Value) (r : Request Value) → is_object v ≡ true → request_of j v ≡ ok r → IsRequest v
  unfolding request_of
  request_of_sound v r o e =
      let (c, ce, e1) = >>=-eq-ok _ _ r e in
      let (s, se, e2) = >>=-eq-ok _ _ r e1 in
      let (w, we, e3) = >>=-eq-ok _ _ r e2 in
      let (t, te, e4) = >>=-eq-ok _ _ r e3 in
      let (m, me, e5) = >>=-eq-ok _ _ r e4 in
      let (h, he, e6) = >>=-eq-ok _ _ r e5 in
      let (p, pe, e7) = >>=-eq-ok _ _ r e6 in
      record {
        object = o;
        client_item = integer_item-ok _ c ce;
        server_item = integer_item-ok _ s se;
        version_item = integer_item-ok _ w we;
        time_item = integer_item-ok _ t te;
        message_item = integer_item-ok _ m me;
        method_item = integer_item-ok _ h he;
        param_item = array_item-ok _ p pe;
      }

  bind-ok :
      {A B : Type 0} (m : Result A) (f : A → Result B)
      → (a : A) × (m ≡ ok a)
      → ((a : A) → (b : B) × (f a ≡ ok b))
      → (b : B) × ((m >>= f) ≡ ok b)
  bind-ok m f (a, e) k = let (b, e') = k a in (b, rw e e')

  integer_item-has :
      (v : Value) (k : String) → HasInteger v k → (n : ℤ) × (integer_item j (get v k) ≡ ok n)
  unfolding integer_item
  integer_item-has v k (item, e, i) = (j.get_integer item, rw (e, integer_item, i))

  array_item-has :
      (v : Value) (k : String)
      → (item : Value) × (get v k ≡ some item) × (is_array item ≡ true)
      → (item : Value) × (array_item j (get v k) ≡ ok item)
  unfolding array_item
  array_item-has v k (item, e, i) = (item, rw (e, array_item, i))

  request_of_complete : (v : Value) → IsRequest v → (r : Request Value) × (request_of j v ≡ ok r)
  unfolding request_of
  request_of_complete v q = bind-ok _ _ (integer_item-has v client_no q.client_item) λ c.
      bind-ok _ _ (integer_item-has v server_no q.server_item) λ s.
        bind-ok _ _ (integer_item-has v version q.version_item) λ w.
          bind-ok _ _ (integer_item-has v timestamp q.time_item) λ t.
            bind-ok _ _ (integer_item-has v message_id q.message_item) λ m.
              bind-ok _ _ (integer_item-has v method q.method_item)
                λ h. bind-ok _ _ (array_item-has v param q.param_item) λ p. (_, refl)

  object_item-ok :
      (o : Option Value) (v : Value) → object_item j o ≡ ok v → (o ≡ some v) × (is_object v ≡ true)
  unfolding object_item
  object_item-ok none v e = cc
  object_item-ok (some w) v e = ground arith

  -- A text is accepted as a request exactly if the JSON library reads it as an object with six
  -- integers, under the names of the protocol, and an array of parameters.
  pub parse_request_iff :
      (msg : List ℕ)
      → ((r : Request Value) × (parse_request j msg ≡ ok r))
        ↔ ((v : Value) × (loads msg ≡ some v) × IsRequest v)
  unfolding parse_request
  parse_request_iff msg = (
    λ (r, e).
        let (v, o, q) = >>=-eq-ok _ _ r e in
        let (l, b) = object_item-ok (loads msg) v o in (v, l, request_of_sound v r b q),
    λ (v, e, q). let (r, p) = request_of_complete v q in (r, rw (e, object_item, q.object) p),
  )

  -- Nothing but the one exception comes out of any of the checks.
  abbrev OnlyNotParsed : {A : Type 0} → Result A → Type 0
  OnlyNotParsed {A} m = ((a : A) × (m ≡ ok a)) ⊎ (m ≡ not_parsed j)

  OnlyNotParsed-bind :
      {A B : Type 0} (m : Result A) (f : A → Result B)
      → OnlyNotParsed m
      → ((a : A) → OnlyNotParsed (f a))
      → OnlyNotParsed (m >>= f)
  unfolding not_parsed
  OnlyNotParsed-bind m f (inl (a, e)) k = rw e (k a)
  OnlyNotParsed-bind m f (inr e) k = inr (rw e)

  integer_item-OnlyNotParsed : (o : Option Value) → OnlyNotParsed (integer_item j o)
  unfolding integer_item
  integer_item-OnlyNotParsed none = inr refl
  integer_item-OnlyNotParsed (some v) = elim (Bool-cases (is_integer v)) [
    | inl e ↦ inl (j.get_integer v, rw e)
    | inr e ↦ inr (rw e)
  ]

  array_item-OnlyNotParsed : (o : Option Value) → OnlyNotParsed (array_item j o)
  unfolding array_item
  array_item-OnlyNotParsed none = inr refl
  array_item-OnlyNotParsed (some v) = elim (Bool-cases (is_array v)) [
    | inl e ↦ inl (v, rw e)
    | inr e ↦ inr (rw e)
  ]

  object_item-OnlyNotParsed : (o : Option Value) → OnlyNotParsed (object_item j o)
  unfolding object_item
  object_item-OnlyNotParsed none = inr refl
  object_item-OnlyNotParsed (some v) = elim (Bool-cases (is_object v)) [
    | inl e ↦ inl (v, rw e)
    | inr e ↦ inr (rw e)
  ]

  -- Any text is either parsed to a request or answered by ServerJsonNotParsedException: there is no
  -- other exception and no fault.
  pub parse_request_total :
      (msg : List ℕ)
      → ((r : Request Value) × (parse_request j msg ≡ ok r))
        ⊎ (parse_request j msg ≡ throw (Exception.server ServerException.server_json_not_parsed))
  unfolding parse_request request_of not_parsed
  parse_request_total msg = OnlyNotParsed-bind _ _ (object_item-OnlyNotParsed (loads msg)) λ v.
      OnlyNotParsed-bind _ _ (integer_item-OnlyNotParsed (get v client_no)) λ c.
        OnlyNotParsed-bind _ _ (integer_item-OnlyNotParsed (get v server_no)) λ s.
          OnlyNotParsed-bind _ _ (integer_item-OnlyNotParsed (get v version)) λ w.
            OnlyNotParsed-bind _ _ (integer_item-OnlyNotParsed (get v timestamp)) λ t.
              OnlyNotParsed-bind _ _ (integer_item-OnlyNotParsed (get v message_id)) λ m.
                OnlyNotParsed-bind _ _ (integer_item-OnlyNotParsed (get v method)) λ h.
                  OnlyNotParsed-bind _ _ (array_item-OnlyNotParsed (get v param)) λ p. inl (_, refl)
