-- ===== src/Examples/Exchanges.antt =====
-- A call over two sockets that are connected.
use json_rpc.Common.{
  ℕ, zero, suc, ◌^◌, ◌<◌, ◌≡◌, ◌≢◌, refl, arith, [], ◌∷◌, ◌++◌, none, some, true, inl, All, length,
  ap, append-nil,
}
use json_rpc.Common.Int.{pos}
use json_rpc.Errors.{ok}
use json_rpc.Json.Sample.{json, json-JsonLaws}
use json_rpc.Buffer.Words.{int_bytes}
use json_rpc.Proto.{build_request, parse_response}
use json_rpc.Service.{find}
use json_rpc.Stream.{Stream, got, Write}
use json_rpc.Stream.Sending.{send_text_all}
use json_rpc.Stream.Size.{length-int_bytes}
use json_rpc.SockClient
use json_rpc.SockClient.{SockClient, send_and_response}
use json_rpc.Connection
use json_rpc.Server.Thread.{make_connection, attempt}
use json_rpc.Server.Thread.Serving.{framed}
use json_rpc.Wire.Exchange.{Delivers, send_and_response-attempt}
use json_rpc.Examples.Messages.{call, call_Fits, service, kept}
use json_rpc.Examples.Sockets.{second_answers}
use json_rpc.Examples.Remotes.{echoing, echo_result, echo_text, short, print_full}

-- The socket of the client brings the answer, that of the server the call.
abbrev calling : Stream
calling = record {
  reads = got (int_bytes (pos (length echo_text))) ∷ got echo_text ∷ [];
  writes = Write.all ∷ [];
  sent = [];
}

abbrev called : Stream
called = record {
  reads = got (int_bytes (pos (length call))) ∷ got call ∷ [];
  writes = Write.all ∷ [];
  sent = [];
}

abbrev client : SockClient
client = record second_answers { net = record second_answers.net { stream = calling } }

text_no_zero : All {A = ℕ} (λ b. b ≢ 0) echo_text
text_no_zero = print_full echo_result

call_short : length call < 2 ^ 31
unfolding build_request
call_short = short refl

client_sent :
    SockClient.send call calling ≡ (ok tt, record calling { writes = []; sent = framed call })
unfolding SockClient.send build_request
client_sent =
    send_text_all SockClient.judge_write accepted call calling [] (λ e. cc) (short refl) refl
  where
    accepted : (n : ℕ) → 0 < n → SockClient.judge_write (pos n) n ≡ ok tt
    accepted n h = unfold SockClient.judge_write in ground arith

server_sent :
    Connection.send true echo_text (record called { reads = [] })
    ≡ (ok tt, record { reads = []; writes = []; sent = framed echo_text })
unfolding Connection.send
server_sent =
    send_text_all (Connection.judge_write true) accepted echo_text (record called { reads = [] }) []
      (λ e. cc) (short refl) refl
  where
    accepted : (n : ℕ) → 0 < n → Connection.judge_write true (pos n) n ≡ ok tt
    accepted zero h = absurd (omega arith)
    accepted (suc n) h = unfold Connection.judge_write in ground arith

call-Delivers : Delivers called.reads (framed call) []
unfolding build_request
call-Delivers = record {
  head = int_bytes (pos (length call));
  pieces = call ∷ [];
  arrives = refl;
  four = length-int_bytes (length call);
  full = ((λ e. cc), tt);
  carried = ap (λ l. int_bytes (pos (length call)) ++ l) (append-nil call);
}

answer-Delivers : Delivers calling.reads (framed echo_text) []
answer-Delivers = record {
  head = int_bytes (pos (length echo_text));
  pieces = echo_text ∷ [];
  arrives = refl;
  four = length-int_bytes (length echo_text);
  full = ((λ e. cc), tt);
  carried = ap (λ l. int_bytes (pos (length echo_text)) ++ l) (append-nil echo_text);
}

send_and_response-attempt_example :
    (attempt json none true service (make_connection called []) 41 ≡ (
      ok tt,
      make_connection (record { reads = []; writes = []; sent = framed echo_text }) [],
      42,
    ))
    × (send_and_response (some 0) call client ≡ (
      ok echo_text,
      record client {
        net = record client.net {
          stream = record calling { reads = []; writes = []; sent = framed call };
        };
      },
    ))
    × (parse_response json true echo_text ≡ ok echo_result)
unfolding find
send_and_response-attempt_example =
    send_and_response-attempt json json-JsonLaws kept none service echoing 41 client
      (record calling { writes = []; sent = framed call }) called
      (record { reads = []; writes = []; sent = framed echo_text }) [] [] call_Fits call_short refl
      refl refl client_sent call-Delivers refl text_no_zero (inl (omega arith)) server_sent
      answer-Delivers
