-- ===== src/Examples/Sockets.antt =====
-- Sockets whose answers are written down.
use json_rpc.Common.{◌≡◌, refl, List, [], ◌∷◌, none, some}
use json_rpc.Common.Int.{ℤ, pos}
use json_rpc.Errors.{stop, Stop, Exception}
use json_rpc.Stream.{Stream}
use json_rpc.SockClient.{SockClient, reconnect, destroy_client}
use json_rpc.SockClient.Reconnect.{reconnect_refused}

abbrev idle : Stream
idle = record { reads = []; writes = []; sent = [] }

abbrev open_one : Stream
open_one = record { reads = []; writes = []; sent = 1 ∷ [] }

-- A client on descriptor 3 and a host of two addresses, the first of which refuses.
abbrev pub second_answers : SockClient
second_answers = record {
  sock = pos 3;
  host = "host";
  port = "80";
  server_info = 10 ∷ 20 ∷ [];
  net = record {
    sockets = pos 4 ∷ pos 5 ∷ [];
    connects = none ∷ some open_one ∷ [];
    stream = idle;
    closed = [];
  };
}

-- The same where both refuse.
abbrev none_answers : SockClient
none_answers = record second_answers {
  net = record {
    sockets = pos 4 ∷ pos 5 ∷ [];
    connects = none ∷ none ∷ [];
    stream = idle;
    closed = [];
  };
}

reconnect_refused_example :
    ((reconnect none_answers).0
      ≡ stop (Stop.thrown (Exception.host_fail "Can't connect" "host" "80")))
    × ((more : List ℤ) × ((reconnect none_answers).1.closed
          ≡ (reconnect none_answers).1.sock ∷ more)
        × ((destroy_client (reconnect none_answers).1).closed
            ≡ (reconnect none_answers).1.sock ∷ (reconnect none_answers).1.sock ∷ more))
reconnect_refused_example = reconnect_refused none_answers (5 ∷ []) 4 [] [] refl refl refl
