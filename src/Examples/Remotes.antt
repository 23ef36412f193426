-- ===== src/Examples/Remotes.antt =====
-- Calls over one connection, with the service of the examples of messages.
use json_rpc.Common.{
  ℕ, suc, ◌^◌, ◌≤◌, ◌<◌, ◌≡◌, ◌≢◌, refl, arith, List, [], ◌∷◌, ◌++◌, map, Option, none, some, true,
  false, All, concat, length, leb, leb→le,
}
use json_rpc.Common.Int.{pos, negsuc}
use json_rpc.Errors.{ok, Exception, ServerException, throw, get_code}
use json_rpc.Json.Sample.{Tree, leaf, node, json, json-JsonLaws}
use json_rpc.Buffer.Memory.{c_text}
use json_rpc.Buffer.Rdon.{RdonBuffer}
use json_rpc.Proto.{result, request_object, build_request, build_error, parse_response}
use json_rpc.Service.{find, assign}
use json_rpc.Server.Calls.{Call, Arrival, pieces_of, request_text, answer_text, direct_calls}
use json_rpc.Stream.{got, Write}
use json_rpc.Server.Thread.{serve}
use json_rpc.Server.Thread.Serving.{framed, arrival, arrivals, takes, conn}
use json_rpc.Server.Thread.Remote.{IsArrival, serve_calls, serve_calls_failed}
use json_rpc.Poll.Channel.{make_channel}
use json_rpc.Poll.Server.{PollServer, steps, make_poll_server}
use json_rpc.Poll.Server.Answering.{idle}
use json_rpc.Poll.Server.Remote.{ready, call_events, total, IsCall, steps_calls}
use json_rpc.Examples.Messages.{params, call, call_Fits, service, kept}
use json_rpc.Examples.Channels.{manager, lucky}

-- A call of method 7, which gives its parameters back, and one of method 8, which fails.
abbrev pub echoing : Call Tree
echoing = record {
  clientno = pos 5;
  serverno = pos 0;
  messageid = pos 2;
  time = negsuc 98;
  method = 7;
  content = params;
}

abbrev arrived : List (Arrival Tree)
arrived = (echoing, call ∷ []) ∷ (echoing, call ∷ []) ∷ []

-- What the client gets, and the text of it.
abbrev pub echo_result : Tree
echo_result = json.value (json.put json.new_object result params)

abbrev pub echo_text : List ℕ
echo_text = answer_text json (ok echo_result)

echoing-IsArrival : IsArrival json json-JsonLaws service (echoing, call ∷ [])
unfolding build_request
echoing-IsArrival = (call_Fits, refl, leb→le (suc (length call)) (2 ^ 31) refl, ((λ e. cc), tt))

pub short : {n : ℕ} → leb (suc n) (2 ^ 31) ≡ true → n < 2 ^ 31
short {n} e = leb→le (suc n) (2 ^ 31) e

serve_calls_example :
    let texts = echo_text ∷ echo_text ∷ [] in
    (serve json none true service
        (conn true (arrivals (pieces_of arrived) (got [] ∷ [])) (takes texts []) [])
        41
      ≡ (ok tt, conn false [] [] (concat (map framed texts)), 43))
    × (map (parse_response json true) texts ≡ ok echo_result ∷ ok echo_result ∷ [])
unfolding direct_calls find
serve_calls_example =
    serve_calls json json-JsonLaws service kept none true [] [] [] arrived 41
      (echoing-IsArrival, (echoing-IsArrival, tt)) (refl, (refl, tt)) (short refl, (short refl, tt))

-- Method 8 fails.
abbrev failing_call : Call Tree
failing_call = record echoing { method = 8 }

abbrev failing_text : List ℕ
failing_text = request_text json failing_call

failing_call-IsArrival : IsArrival json json-JsonLaws service (failing_call, failing_text ∷ [])
unfolding build_request
failing_call-IsArrival = (
  record {
    client_int = omega arith;
    server_int = omega arith;
    message_int = omega arith;
    time_long = omega arith;
    method_size = omega arith;
    client_kept = refl;
    server_kept = refl;
    version_kept = refl;
    message_kept = refl;
    time_kept = refl;
    method_kept = refl;
    params_array = refl;
  },
  refl,
  short refl,
  ((λ e. cc), tt),
)

abbrev mismatch_text : List ℕ
mismatch_text = build_error json (get_code ServerException.server_param_mismatch)

mismatch_short : length mismatch_text < 2 ^ 31
unfolding build_error get_code
mismatch_short = short refl

serve_calls_failed_example :
    let texts = echo_text ∷ echo_text ∷ [] in
    (serve json none true service
        (conn true
          (arrivals (pieces_of arrived) (arrival (failing_text ∷ []) (arrival (call ∷ []) [])))
          (takes texts (takes (mismatch_text ∷ []) []))
          [])
        41
      ≡ (
        ok tt,
        conn true (arrival (call ∷ []) []) [] (concat (map framed texts) ++ framed mismatch_text),
        43,
      ))
    × (map (parse_response json true) texts ≡ ok echo_result ∷ ok echo_result ∷ [])
    × (parse_response json true mismatch_text
        ≡ throw (Exception.server ServerException.server_param_mismatch))
unfolding direct_calls find
serve_calls_failed_example =
    serve_calls_failed json json-JsonLaws service kept none true (arrival (call ∷ []) []) [] []
      arrived 41 (echoing-IsArrival, (echoing-IsArrival, tt)) (refl, (refl, tt))
      (short refl, (short refl, tt)) (failing_call, failing_text ∷ [])
      ServerException.server_param_mismatch failing_call-IsArrival refl (λ e. cc) mismatch_short

-- No byte of a printed tree is zero.
All_append : (l l' : List ℕ) → All (λ b. b ≢ 0) l → All (λ b. b ≢ 0) l' → All (λ b. b ≢ 0) (l ++ l')
All_append [] l' h h' = h'
All_append (x ∷ l) l' h h' = (h.0, All_append l l' h.1 h')

pub print_full : (v : Tree) → All (λ b. b ≢ 0) (json.dumps v)
print_full (leaf n) = ((λ e. cc), ((λ e. cc), tt))
print_full (node a b) =
    ((λ e. cc), All_append (json.dumps a) (json.dumps b) (print_full a) (print_full b))

echoing-IsCall : IsCall none lucky true json json-JsonLaws service 5 (echoing, call ∷ [])
unfolding build_request
echoing-IsCall = (
  call_Fits,
  refl,
  short refl,
  print_full (json.value (request_object json (pos 5) (pos 0) (pos 2) (negsuc 98) 7 params)),
  ((λ e. cc), tt),
)

-- A server with the new connection 5, on which the calls arrive.
abbrev server : PollServer ℕ
server = record (make_poll_server 3 manager [] 41) {
  channels =
      (
        5,
        make_channel (record {
          reads = arrivals (pieces_of arrived) [];
          writes = Write.all ∷ Write.all ∷ [];
          sent = [];
        }),
      )
      ∷ [];
}

found :
    find 5 server.channels
    ≡ some (ready none (arrivals (pieces_of arrived) []) (Write.all ∷ Write.all ∷ []) [])
unfolding find
found = refl

zero_behind : c_text lucky.beyond ≡ ok []
unfolding c_text
zero_behind = refl

small : {n : ℕ} → leb (suc n) 1020 ≡ true → n < 1020
small {n} e = leb→le (suc n) 1020 e

steps_calls_example :
    let texts = echo_text ∷ echo_text ∷ [] in
    ((ns : List ℕ) × (b : Option RdonBuffer) × (length ns ≡ 2)
      × (total ns ≤ 2)
      × (steps none lucky true json service (concat (map (call_events 5) ns)) (idle server)
          ≡ ok (record server {
            channels = (5, ready b [] [] (concat (map framed texts))) ∷ [];
            service = 43;
          })))
    × (map (parse_response json true) texts ≡ ok echo_result ∷ ok echo_result ∷ [])
unfolding direct_calls find assign
steps_calls_example =
    steps_calls none lucky true json json-JsonLaws service 5 kept arrived none server [] [] [] refl
      refl zero_behind found (echoing-IsCall, (echoing-IsCall, tt))
      ((refl, small refl), ((refl, small refl), tt))
