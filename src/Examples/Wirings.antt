-- ===== src/Examples/Wirings.antt =====
-- A server put together from a port and a service, and one that lacks the service.
use json_rpc.Common.{
  ℕ, ◌≡◌, ◌≢◌, ◌↔◌, refl, arith, String, str_eq, List, [], ◌∷◌, Option, none, some, true, false,
  if◌then◌else◌,
}
use json_rpc.Common.Int.{pos, negsuc}
use json_rpc.Errors.{Result, ok, stop, Stop, Fault, Exception, throw, ◌>>=◌}
use json_rpc.Json.Sample.{Tree, json, json-JsonLaws}
use json_rpc.Proto.{parse_request, build_request, parse_response, result}
use json_rpc.Service.{Handler, reg_all, find}
use json_rpc.SockClient.{is_uninit}
use json_rpc.Server.{answer, or_error}
use json_rpc.Server.Wiring.{
  Program, make_connector, construct, destroy_service, listen_service, answer_through,
}
use json_rpc.Server.Wiring.Registered.{answer_through-construct, answer_through-unserved}
use json_rpc.Server.Wiring.Startup.{serves_iff}
use json_rpc.Server.Wiring.Generated.{with_values, generated_call}
use json_rpc.Server.Calls.{Call}
use json_rpc.Stub.Pieces.{wrapper_name, digits}
use json_rpc.Client.{AbstractClient, call_with, result_item}
use json_rpc.Client.Remote.{direct_line, call_with-direct}
use json_rpc.Examples.Stubs.{
  hello, random, same_text, two_hashes, registered, seven_is_hello, random_is_not_seven,
}
use json_rpc.Examples.Messages.{call, request, service, params, call_Fits, kept, echo, failing}
use json_rpc.Examples.Listening.{new_connector, free}

abbrev bare : Program ℕ Tree
bare = record { connector = new_connector; services = [] }

-- The second service on a connector answers.
answer_through-construct_example :
    answer_through json (construct 2 service (construct 1 [] bare)) call 41
    ≡ answer json (reg_all service []) call 41
answer_through-construct_example =
    answer_through-construct json (construct 1 [] bare) 2 service call 41

parsed : parse_request json call ≡ ok request
unfolding parse_request build_request
parsed = refl

made : make_connector "8199" (pos 0) ≡ ok new_connector
unfolding make_connector
made = refl

not_empty : call ≢ []
unfolding build_request
not_empty e = cc

-- Service 1 is destroyed alone, and behind the constructor of service 2.
answer_through-unserved_example :
    (answer_through json bare call 41 ≡ (stop (Stop.fault Fault.null_pointer), 41))
    × (answer_through json (construct 1 [] bare) call 41 ≡ answer json (reg_all [] []) call 41)
    × (answer_through json (destroy_service 1 (construct 1 [] bare)) call 41
        ≡ (stop (Stop.fault Fault.dangling), 41))
    × (answer_through json (destroy_service 1 (construct 2 service (construct 1 [] bare))) call 41
        ≡ answer json (reg_all service []) call 41)
answer_through-unserved_example =
    answer_through-unserved json "8199" (pos 0) new_connector [] made 1 2 [] service refl call
      request 41 not_empty parsed

serves_iff_example :
    ((make_connector "8199" (pos 0) >>= λ c.
    (listen_service free (construct 1 service (record { connector = c; services = [] }))).0)
      ≡ ok (pos 0))
    ↔ ((pos 0 ≡ pos 0)
        × (is_uninit free.socket ≡ false)
        × (free.binds ≡ true)
        × (free.listens ≡ true))
serves_iff_example = serves_iff "8199" (pos 0) 1 service free

-- The service of README.md, whose function sayHello gives its parameters back.
abbrev wrapper : String → Handler ℕ Tree
wrapper name = if str_eq name (wrapper_name "sayHello") then echo else failing

abbrev numbered : List (ℕ × String)
numbered = (7, wrapper_name "sayHello") ∷ (5, wrapper_name "getRandomNumber") ∷ []

abbrev hello_call : Call Tree
hello_call = record {
  clientno = pos 5;
  serverno = pos 0;
  messageid = pos 2;
  time = negsuc 98;
  method = 7;
  content = params;
}

generated_call_example :
    let (text, s) = answer_through json (construct 1 (with_values wrapper numbered) bare) call 41 in
    ◌≡◌ {A = Result Tree × ℕ}
      (or_error json {S = ℕ} [] text >>= parse_response json true, s)
      (ok (json.value (json.put json.new_object result params)), 42)
generated_call_example =
    generated_call same_text (digits 10) two_hashes json json-JsonLaws true kept wrapper bare 1 []
      (random ∷ []) hello numbered hello_call 41 registered seven_is_hello (random_is_not_seven, tt)
      call_Fits

-- The client of that call, over a direct line to the service.
abbrev dialling : AbstractClient ℕ
dialling = record { conn = 41; msg_id = 2; clientno = pos 5 }

abbrev decode : Option Tree → Result Tree
decode none = throw Exception.serialize_fail
decode (some v) = ok v

call_with-direct_example :
    call_with json true
      (direct_line json json-JsonLaws true kept service)
      decode
      9
      (negsuc 98)
      7
      params
      dialling
    ≡ some (ok params, record dialling { conn = 42; msg_id = 3 })
unfolding find result_item
call_with-direct_example =
    call_with-direct json json-JsonLaws true kept service (negsuc 98) 7 params dialling
      (omega arith) decode 8 call_Fits refl tt
