-- ===== src/Examples/Threads.antt =====
-- The thread of a connection, with the service of the examples of messages.
use json_rpc.Common.{◌≡◌, ◌<◌, ◌^◌, refl, ap, [], ◌∷◌, none, true, length}
use json_rpc.Errors.{ok, ServerException, Exception, throw, get_code}
use json_rpc.Json.Sample.{json, json-JsonLaws}
use json_rpc.Proto.{build_error, parse_request}
use json_rpc.Proto.RoundTrip.{build_error-ne-nil}
use json_rpc.Server.{answer}
use json_rpc.Stream.{got}
use json_rpc.Server.Thread.{Conn, serve}
use json_rpc.Server.Thread.Serving.{Served, arrival, takes, conn, serve_rejected}
use json_rpc.Server.Thread.Outcome.{Told, serve-Told}
use json_rpc.Examples.Messages.{service}
use json_rpc.Examples.Remotes.{short}

errors_short : (e : ServerException) → length (build_error json (get_code e)) < 2 ^ 31
unfolding build_error
errors_short e = short refl

-- A message that is no JSON.
abbrev bad : Conn
bad =
    conn true (arrival ((123 ∷ []) ∷ []) (got [] ∷ []))
      (takes []
        (takes (build_error json (get_code ServerException.server_json_not_parsed) ∷ []) []))
      []

not_parsed :
    answer json service (123 ∷ []) 41
    ≡ (throw (Exception.server ServerException.server_json_not_parsed), 41)
unfolding answer parse_request
not_parsed = refl

bad_returns : (serve json none true service bad 41).0 ≡ ok tt
bad_returns =
    ap (λ r. r.0)
      (serve_rejected json none true service (got [] ∷ []) [] [] [] [] 41 41 41 ((123 ∷ []) ∷ [])
        ServerException.server_json_not_parsed Served.no_more ((λ e. cc), short refl)
        ((λ e. cc), tt) not_parsed (λ e. cc)
        (
          build_error-ne-nil json json-JsonLaws (get_code ServerException.server_json_not_parsed),
          errors_short ServerException.server_json_not_parsed,
        ))

serve-Told_example : Told json (serve json none true service bad 41).1
serve-Told_example = serve-Told json json-JsonLaws none service errors_short bad 41 bad_returns
