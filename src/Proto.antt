-- ===== src/Proto.antt =====
-- src/json-rpc/proto.cpp: the messages. `j` is the JSON library.
pub mod RoundTrip
pub mod Rejects
use json_rpc.Common.{ℕ, String, Bool, true, false, List, Option, none, some, ◌==◌, if◌then◌else◌}
use json_rpc.Common.Int.{ℤ, pos, negsuc, to_int, to_long, to_size_t}
use json_rpc.Errors.{
  Result, ok, stop, Stop, Fault, Exception, ServerException, log_fatal, throw, ◌>>=◌, socket_closed,
  method_not_found, json_not_parsed, param_mismatch, bad_message,
}
use json_rpc.Json.{Json}
use json_rpc.Request.{Request}

-- The member names of proto.hpp.
abbrev pub client_no : String
client_no = "clientno"

abbrev pub server_no : String
server_no = "serverno"

abbrev pub message_id : String
message_id = "messageid"

abbrev pub version : String
version = "version"

abbrev pub timestamp : String
timestamp = "timestamp"

abbrev pub method : String
method = "method"

abbrev pub param : String
param = "params"

abbrev pub result : String
result = "result"

abbrev pub error : String
error = "error"

module _ (j : Json) where
  open j use {
    Value, Object, value, loads, dumps, is_object, is_integer, is_array, get, contain, get_integer,
    integer, new_object, put, empty_content,
  }

  -- throw ServerJsonNotParsedException()
  not_parsed : {A : Type 0} → Result A
  not_parsed = throw (Exception.server ServerException.server_json_not_parsed)

  -- `if (item_json == nullptr || !item_json->isInteger()) throw …;`
  integer_item : Option Value → Result ℤ
  unfolding not_parsed
  integer_item none = not_parsed
  integer_item (some item) = if is_integer item then ok (get_integer item) else not_parsed

  array_item : Option Value → Result Value
  unfolding not_parsed
  array_item none = not_parsed
  array_item (some item) = if is_array item then ok item else not_parsed

  -- The checks behind the first one, in their order.
  request_of : Value → Result (Request Value)
  unfolding integer_item array_item
  request_of v = do
    clientno ← integer_item (get v client_no)
    serverno ← integer_item (get v server_no)
    ver ← integer_item (get v version)
    time ← integer_item (get v timestamp)
    messageid ← integer_item (get v message_id)
    handlerid ← integer_item (get v method)
    params ← array_item (get v param)
    ok (record {
      clientno = to_int clientno;
      serverno = to_int serverno;
      version = to_int ver;
      timestamp = to_long time;
      messageid = to_int messageid;
      handlerid = to_size_t handlerid;
      params = params;
      msg_json = some v;
      response = empty_content;
    })

  object_item : Option Value → Result Value
  unfolding not_parsed
  object_item none = not_parsed
  object_item (some v) = if is_object v then ok v else not_parsed

  -- Request Proto::build_request(std::string msg)
  unfoldable pub parse_request : List ℕ → Result (Request Value)
  unfolding object_item request_of
  parse_request msg = do v ← object_item (loads msg); request_of v

  -- Proto::build_response, given the content of the response's serializer
  unfoldable pub build_response : Value → List ℕ
  build_response content = dumps (value (put new_object result content))

  -- Proto::build_error
  unfoldable pub build_error : ℕ → List ℕ
  build_error code = dumps (value (put new_object error (integer (pos code))))

  -- The object of the client's Proto::build_request.
  pub request_object : ℤ → ℤ → ℤ → ℤ → ℕ → Value → Object
  request_object clientno serverno messageid time method_hash content =
      let o1 = put new_object client_no (integer clientno) in
      let o2 = put o1 server_no (integer serverno) in
      let o3 = put o2 version (integer (pos 1)) in
      let o4 = put o3 timestamp (integer time) in
      let o5 = put o4 message_id (integer messageid) in
      let o6 = put o5 method (integer (pos method_hash)) in put o6 param content

  -- std::string Proto::build_request(clientno, serverno, messageid, timestamp, method_hash, sout)
  unfoldable pub build_request : ℤ → ℤ → ℤ → ℤ → ℕ → Value → List ℕ
  unfolding request_object
  build_request clientno serverno messageid time method_hash content =
      dumps (value (request_object clientno serverno messageid time method_hash content))

-- The cases of the `switch` that throw.
unfoldable pub exception_of : ℕ → Option ServerException
exception_of n =
    if n == socket_closed
    then some ServerException.server_close_socket
    else if n == method_not_found
    then some ServerException.server_method_not_found
    else if n == json_not_parsed
    then some ServerException.server_json_not_parsed
    else if n == param_mismatch
    then some ServerException.server_param_mismatch
    else if n == bad_message
    then some ServerException.server_bad_message
    else none

switch : {A : Type 0} → Bool → ℤ → Result A → Result A
unfolding exception_of
switch aborts (pos n) other = elim (exception_of n) [
  | some e ↦ throw (Exception.server e)
  | none ↦ log_fatal aborts >>= λ _. other
]
switch aborts (negsuc n) other = log_fatal aborts >>= λ _. other

module _ (j : Json) (aborts : Bool) where
  open j use {Value, loads, is_object, get, contain, get_integer}

  null_pointer : {A : Type 0} → Result A
  null_pointer = stop (Stop.fault Fault.null_pointer)

  error_item : Option Value → Value → Result Value
  unfolding null_pointer switch
  error_item none v = null_pointer
  error_item (some item) v = switch aborts (to_int (get_integer item)) (ok v)

  response_of : Option Value → Result Value
  unfolding null_pointer error_item
  response_of none = log_fatal aborts >>= λ _. null_pointer
  response_of (some v) = do
    _ ← if is_object v then ok tt else log_fatal aborts
    if contain v error then error_item (get v error) v else ok v

  -- Proto::parse_response
  unfoldable pub parse_response : List ℕ → Result Value
  unfolding response_of
  parse_response text = response_of (loads text)
