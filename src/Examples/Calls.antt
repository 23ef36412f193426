-- ===== src/Examples/Calls.antt =====
-- Calls over connectors that content by a count of the messages sent.
use json_rpc.Common.{ℕ, zero, suc, ◌≡◌, refl, arith, List, Option, none, some, true}
use json_rpc.Common.Int.{pos}
use json_rpc.Errors.{Result, ok, Exception, ServerException, throw, get_code}
use json_rpc.Json.Sample.{Tree, leaf, array, json, json-JsonLaws}
use json_rpc.Proto.{build_response, build_error, parse_response}
use json_rpc.Proto.RoundTrip.{parse_response-build_error, parse_response-build_response}
use json_rpc.Client.{Connector, AbstractClient, call_with, call_void, parse_with, catch_with}
use json_rpc.Client.Retry.{Fails}
use json_rpc.Client.Calls.{message, call_with-Fails, call_void_endless}

abbrev content : Tree
content = leaf 3

-- Reading fails until the count is 0; then the content comes.
abbrev late : Connector ℕ
late = record {
  send_and_response = λ _ n. elim n [
    | zero ↦ (ok (build_response json content), 0)
    | suc n ↦ (throw Exception.read_fail, n)
  ];
  reconnect = λ n. (ok tt, n);
}

abbrev decode : Option Tree → Result Tree
decode none = throw Exception.serialize_fail
decode (some v) = ok v

-- Nine failures.
abbrev client : AbstractClient ℕ
client = record { conn = 9; msg_id = 0; clientno = pos 5 }

abbrev sent : List ℕ
sent = message json true late (pos 99) 7 (array (leaf 0)) client (omega arith)

fails : (n : ℕ) → Fails late catch_with (parse_with json true late decode) sent n n 0
unfolding catch_with
fails zero = refl
fails (suc n) = (Exception.read_fail, n, refl, refl, fails n)

parsed : parse_with json true late decode (build_response json content) ≡ ok content
unfolding parse_with
parsed = rw ((parse_response-build_response json json-JsonLaws true content).0) refl

call_with-Fails_example :
    call_with json true late decode 12 (pos 99) 7 (array (leaf 0)) client
    ≡ some
        (throw (Exception.runtime_error "PRC call failed"), record client { conn = 0; msg_id = 1 })
call_with-Fails_example =
    call_with-Fails json true late (pos 99) 7 (array (leaf 0)) client (omega arith) decode 9 2 0 0
      (build_response json content) content (fails 9) refl parsed

-- A server without the method.
abbrev refusing : Connector ℕ
refusing = record {
  send_and_response = λ _ n. (ok (build_error json 2), suc n);
  reconnect = λ n. (ok tt, n);
}

refusal :
    parse_response json true (build_error json 2)
    ≡ throw (Exception.server ServerException.server_method_not_found)
unfolding get_code
refusal =
    parse_response-build_error json json-JsonLaws true ServerException.server_method_not_found refl

call_void_endless_example :
    call_void json true refusing 100 (pos 99) 7 (array (leaf 0)) client ≡ none
call_void_endless_example =
    call_void_endless json true refusing (pos 99) 7 (array (leaf 0)) client (omega arith)
      (λ _. Unit)
      (λ n _. (
        build_error json 2,
        ServerException.server_method_not_found,
        suc n,
        suc n,
        refl,
        refusal,
        refl,
        tt,
      ))
      tt 100
