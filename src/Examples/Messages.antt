-- ===== src/Examples/Messages.antt =====
-- Messages and services, with the sample of a JSON library.
use json_rpc.Common.{ℕ, suc, ◌≡◌, ◌↔◌, refl, arith, true, List, [], ◌∷◌, some}
use json_rpc.Common.Int.{pos, negsuc}
use json_rpc.Errors.{Result, ok, Exception, ServerException, throw, get_code, ◌>>=◌}
use json_rpc.Json.Sample.{Tree, leaf, array, json, json-JsonLaws}
use json_rpc.Request.{Request}
use json_rpc.Proto.{result, parse_request, build_request, parse_response}
use json_rpc.Proto.RoundTrip.{Fits, received, parse_request-build_request}
use json_rpc.Proto.Rejects.{IsRequest, parse_request_iff}
use json_rpc.Service.{Handler, Handlers, find}
use json_rpc.Server.{reply}
use json_rpc.Server.Rpc.{rpc_lem, rpc_rejected}

-- A call of method 7 with the parameters [3].
abbrev pub params : Tree
params = array (leaf 3)

abbrev pub call : List ℕ
call = build_request json (pos 5) (pos 0) (pos 2) (negsuc 98) 7 params

pub call_Fits : Fits json json-JsonLaws (pos 5) (pos 0) (pos 2) (negsuc 98) 7 params
call_Fits = record {
  client_int = omega arith;
  server_int = omega arith;
  message_int = omega arith;
  time_long = omega arith;
  method_size = omega arith;
  client_kept = refl;
  server_kept = refl;
  version_kept = refl;
  message_kept = refl;
  time_kept = refl;
  method_kept = refl;
  params_array = refl;
}

abbrev pub request : Request Tree
request = received json json-JsonLaws (pos 5) (pos 0) (pos 2) (negsuc 98) 7 params

parse_request-build_request_example : parse_request json call ≡ ok request
parse_request-build_request_example =
    parse_request-build_request json json-JsonLaws (pos 5) (pos 0) (pos 2) (negsuc 98) 7 params
      call_Fits

parse_request_iff_example :
    ((r : Request Tree) × (parse_request json call ≡ ok r))
    ↔ ((v : Tree) × (json.loads call ≡ some v) × IsRequest json v)
parse_request_iff_example = parse_request_iff json call

-- A service whose method counts its calls and gives its parameters back; method 8 always fails.
abbrev pub echo : Handler ℕ Tree
echo s r = (ok r.params, suc s)

abbrev pub failing : Handler ℕ Tree
failing s r = (throw Exception.serialize_fail, s)

abbrev pub service : Handlers ℕ Tree
service = (8, failing) ∷ (7, echo) ∷ []

pub kept : (e : ServerException) → json.keeps (pos (get_code e)) ≡ true
kept e = refl

rpc_lem_example :
    let (text, s) = reply json service call 41 in
    ◌≡◌ {A = Result Tree × ℕ}
      (text >>= parse_response json true, s)
      (ok (json.value (json.put json.new_object result params)), 42)
unfolding find
rpc_lem_example =
    rpc_lem json json-JsonLaws true kept service (pos 5) (pos 0) (pos 2) (negsuc 98) 7 params 41
      call_Fits

no_request : ¬ ((r : Request Tree) × (parse_request json (123 ∷ []) ≡ ok r))
unfolding parse_request
no_request (r, e) = cc

rpc_rejected_example :
    let (text, s) = reply json service (123 ∷ []) 41 in
    ◌≡◌ {A = Result Tree × ℕ}
      (text >>= parse_response json true, s)
      (throw (Exception.server ServerException.server_json_not_parsed), 41)
rpc_rejected_example = rpc_rejected json json-JsonLaws true kept service (123 ∷ []) 41 no_request
