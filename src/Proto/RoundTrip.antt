-- ===== src/Proto/RoundTrip.antt =====
-- What one side writes the other side reads.
use json_rpc.Common.{ℕ, ◌^◌, ◌<◌, ◌≡◌, ◌≢◌, [], refl, Bool, true, some}
use json_rpc.Common.Int.{ℤ, pos, to_int, IsInt, IsLong, to_int_id, to_long_id, to_size_t_id}
use json_rpc.Errors.{ok, Exception, ServerException, throw, get_code}
use json_rpc.Json.{Json, JsonLaws}
use json_rpc.Request.{Request}
use json_rpc.Proto.{
  client_no, server_no, message_id, version, timestamp, method, param, result, error, parse_request,
  request_of, object_item, integer_item, array_item, build_response, build_error, request_object,
  build_request, parse_response, error_item, switch, exception_of,
}

-- The exception classes and the numbers of the switch belong together.
pub exception_of-get_code : (e : ServerException) → exception_of (get_code e) ≡ some e
unfolding exception_of get_code
exception_of-get_code ServerException.server_close_socket = refl
exception_of-get_code ServerException.server_bad_message = refl
exception_of-get_code ServerException.server_method_not_found = refl
exception_of-get_code ServerException.server_json_not_parsed = refl
exception_of-get_code ServerException.server_param_mismatch = refl

code_fits : (e : ServerException) → to_int (pos (get_code e)) ≡ pos (get_code e)
unfolding get_code
code_fits ServerException.server_close_socket = refl
code_fits ServerException.server_bad_message = refl
code_fits ServerException.server_method_not_found = refl
code_fits ServerException.server_json_not_parsed = refl
code_fits ServerException.server_param_mismatch = refl

module _ (j : Json) (laws : JsonLaws j) where
  open j use {
    Value, is_array, keeps, get, value, new_object, put, integer, contain, empty_content, loads,
    dumps,
  }

  integer_item-integer : (n : ℤ) → keeps n ≡ true → integer_item j (some (integer n)) ≡ ok n
  unfolding integer_item
  integer_item-integer n h = rw (laws.is_integer-integer n, laws.get_integer-integer n h)

  array_item-array : (v : Value) → is_array v ≡ true → array_item j (some v) ≡ ok v
  unfolding array_item
  array_item-array v h = rw h

  -- The members of the client's object.
  record Members (c s m t : ℤ) (h : ℕ) (content v : Value) : Type 0 where
    has_client : get v client_no ≡ some (integer c)
    has_server : get v server_no ≡ some (integer s)
    has_version : get v version ≡ some (integer (pos 1))
    has_time : get v timestamp ≡ some (integer t)
    has_message : get v message_id ≡ some (integer m)
    has_method : get v method ≡ some (integer (pos h))
    has_param : get v param ≡ some content

  request_object-Members :
      (c s m t : ℤ) (h : ℕ) (content : Value)
      → Members c s m t h content (value (request_object j c s m t h content))
  unfolding request_object
  request_object-Members c s m t h content = record {
    has_client = simp laws.get-put;
    has_server = simp laws.get-put;
    has_version = simp laws.get-put;
    has_time = simp laws.get-put;
    has_message = simp laws.get-put;
    has_method = simp laws.get-put;
    has_param = simp laws.get-put;
  }

  request_of-request_object :
      (clientno serverno messageid time : ℤ) (method_hash : ℕ) (content : Value)
      → IsInt clientno
      → IsInt serverno
      → IsInt messageid
      → IsLong time
      → method_hash < 2 ^ 64
      → keeps clientno ≡ true
      → keeps serverno ≡ true
      → keeps (pos 1) ≡ true
      → keeps messageid ≡ true
      → keeps time ≡ true
      → keeps (pos method_hash) ≡ true
      → is_array content ≡ true
      → request_of j (value (request_object j clientno serverno messageid time method_hash content))
        ≡ ok (record {
          clientno = clientno;
          serverno = serverno;
          version = pos 1;
          timestamp = time;
          messageid = messageid;
          handlerid = method_hash;
          params = content;
          msg_json =
              some (value (request_object j clientno serverno messageid time method_hash content));
          response = empty_content;
        })
  unfolding request_of
  request_of-request_object c s m t h content ic is im it ih kc ks k1 km kt kh arr =
      rw
        (
          has.has_client,
          integer_item-integer c kc,
          has.has_server,
          integer_item-integer s ks,
          has.has_version,
          integer_item-integer (pos 1) k1,
          has.has_time,
          integer_item-integer t kt,
          has.has_message,
          integer_item-integer m km,
          has.has_method,
          integer_item-integer (pos h) kh,
          has.has_param,
          array_item-array content arr,
          to_int_id c ic,
          to_int_id s is,
          to_long_id t it,
          to_int_id m im,
          to_size_t_id h ih,
        )
        refl
    where
      has : Members c s m t h content (value (request_object j c s m t h content))
      has = request_object-Members c s m t h content

  -- Values that their C++ types and the JSON library hold.
  pub record Fits (clientno serverno messageid time : ℤ) (method_hash : ℕ) (content : Value)
      : Type 0 where
    pub client_int : IsInt clientno
    pub server_int : IsInt serverno
    pub message_int : IsInt messageid
    pub time_long : IsLong time
    pub method_size : method_hash < 2 ^ 64
    pub client_kept : keeps clientno ≡ true
    pub server_kept : keeps serverno ≡ true
    pub version_kept : keeps (pos 1) ≡ true
    pub message_kept : keeps messageid ≡ true
    pub time_kept : keeps time ≡ true
    pub method_kept : keeps (pos method_hash) ≡ true
    pub params_array : is_array content ≡ true

  -- The request that the server makes of the client's text.
  abbrev pub received : ℤ → ℤ → ℤ → ℤ → ℕ → Value → Request Value
  received clientno serverno messageid time method_hash content = record {
    clientno = clientno;
    serverno = serverno;
    version = pos 1;
    timestamp = time;
    messageid = messageid;
    handlerid = method_hash;
    params = content;
    msg_json = some (value (request_object j clientno serverno messageid time method_hash content));
    response = empty_content;
  }

  -- Given the JSON laws: the server parses the text that the client builds to the very numbers and
  -- parameters that went into it, with version 1, if the numbers fit their C++ types and the
  -- library's integers and the parameters are an array.
  pub parse_request-build_request :
      (clientno serverno messageid time : ℤ) (method_hash : ℕ) (content : Value)
      → Fits clientno serverno messageid time method_hash content
      → parse_request j (build_request j clientno serverno messageid time method_hash content)
        ≡ ok (received clientno serverno messageid time method_hash content)
  unfolding parse_request build_request
  parse_request-build_request c s m t h content f =
      rw (laws.loads-dumps, object_item, laws.is_object-value)
        (request_of-request_object c s m t h content f.client_int f.server_int f.message_int
          f.time_long f.method_size f.client_kept f.server_kept f.version_kept f.message_kept
          f.time_kept f.method_kept f.params_array)

  pub build_request-ne-nil :
      (c s m t : ℤ) (h : ℕ) (content : Value) → build_request j c s m t h content ≢ []
  unfolding build_request
  build_request-ne-nil c s m t h content = laws.dumps-ne-nil (request_object j c s m t h content)

  pub build_error-ne-nil : (code : ℕ) → build_error j code ≢ []
  unfolding build_error
  build_error-ne-nil code = laws.dumps-ne-nil (put new_object error (integer (pos code)))

  -- Given the JSON laws and a library that keeps the exception's code: the client that parses the
  -- error text of a server exception throws this exception.
  pub parse_response-build_error :
      (aborts : Bool) (e : ServerException)
      → keeps (pos (get_code e)) ≡ true
      → parse_response j aborts (build_error j (get_code e)) ≡ throw (Exception.server e)
  unfolding parse_response build_error error_item switch
  parse_response-build_error aborts e h =
      simp
        (
          laws.loads-dumps,
          laws.is_object-value,
          laws.contain-get,
          laws.get-put,
          laws.get_integer-integer (pos (get_code e)) h,
          code_fits e,
        )
        (rw (switch, exception_of-get_code e))

  -- Given the JSON laws: the client parses the server's response without an error, and finds the
  -- content under the name of the result.
  pub parse_response-build_response :
      (aborts : Bool) (content : Value)
      → let v = value (put new_object result content) in
        (parse_response j aborts (build_response j content) ≡ ok v) × (get v result ≡ some content)
  unfolding parse_response build_response
  parse_response-build_response aborts content = (
    simp (
      laws.loads-dumps, laws.is_object-value, laws.contain-get, laws.get-put, laws.get-new_object,
    ),
    simp (laws.get-put),
  )
