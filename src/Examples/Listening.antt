-- ===== src/Examples/Listening.antt =====
-- A port that is in use at the first start and free at the second.
use json_rpc.Common.{◌≡◌, none, inl, refl, String, true, false}
use json_rpc.Common.Int.{pos, negsuc}
use json_rpc.Errors.{ok, Exception, throw}
use json_rpc.Server.Listen.{Answers, ServerConnector, start}
use json_rpc.Server.Listen.Again.{start-start}

abbrev pub new_connector : ServerConnector
new_connector = record { handler = none; sock = negsuc 0; listening = false; looping = false }

abbrev in_use : Answers
in_use = record { socket = pos 3; binds = false; listens = true }

abbrev pub free : Answers
free = record { socket = pos 3; binds = true; listens = true }

start-start_example :
    let (r, c) = start in_use new_connector in
    let (r', c') = start free c in
    ((name : String) × (r ≡ throw (Exception.socket_fail name)))
    × (r' ≡ ok (pos 0))
    × (c'.looping ≡ true)
    × (c'.listening ≡ false)
start-start_example = start-start in_use free new_connector refl refl refl (inl refl)
