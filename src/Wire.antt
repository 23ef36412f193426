-- ===== src/Wire.antt =====
-- The two ends of a connection: src/json-rpc/sockclient.cpp and class Connection of
-- src/json-rpc/sockserver.cpp against each other. What one sends, the other receives.
pub mod Exchange
use json_rpc.Common.{
  ℕ, ◌^◌, ◌<◌, ◌≡◌, ◌≢◌, ◌⊎◌, sym, ap, ◌∙◌, List, [], ◌∷◌, ◌++◌, map, arith, true, length, take,
  drop, All, concat, Option, some, take-append_left, drop-append_left,
}
use json_rpc.Common.Int.{ℤ, pos, negsuc}
use json_rpc.Errors.{Result, ok}
use json_rpc.Buffer.Words.{int_bytes}
use json_rpc.Stream.{Stream, Read, got, send_text}
use json_rpc.Stream.Sending.{IsStrict, send_text_done}
use json_rpc.Stream.Size.{length-int_bytes}
use json_rpc.SockClient
use json_rpc.SockClient.Receive.{recv_zeroed}
use json_rpc.Connection
use json_rpc.Connection.Receive.{recv_lem}

pub client_IsStrict : IsStrict SockClient.judge_write
unfolding SockClient.judge_write
client_IsStrict (pos n) len e = ground arith
client_IsStrict (negsuc n) len e = cc

pub server_IsStrict : IsStrict (Connection.judge_write true)
unfolding Connection.judge_write
server_IsStrict (pos ℕ.zero) len e = cc
server_IsStrict (pos (ℕ.suc n)) len e = ground arith
server_IsStrict (negsuc n) len e = cc

-- Four bytes and what follows them, if together they are the size and the text.
split :
    (head text : List ℕ) (pieces : List (List ℕ))
    → length head ≡ 4
    → head ++ concat pieces ≡ int_bytes (pos (length text)) ++ text
    → (head ≡ int_bytes (pos (length text))) × (concat pieces ≡ text)
split head text pieces four e = (
  sym (take-append_left head (concat pieces) 4 (sym four))
      ∙ ap (take 4) e
      ∙ take-append_left (int_bytes (pos (length text))) text 4
          (sym (length-int_bytes (length text))),
  sym (drop-append_left head (concat pieces) 4 (sym four))
      ∙ ap (drop 4) e
      ∙ drop-append_left (int_bytes (pos (length text))) text 4
          (sym (length-int_bytes (length text))),
)

module _ (msg : List ℕ) (s s' t : Stream) (head : List ℕ) (pieces : List (List ℕ))
    (rest : List Read) (some_text : msg ≢ []) (fits : length msg < 2 ^ 31) (unused : s.sent ≡ [])
    (arrives : t.reads ≡ got head ∷ (map got pieces ++ rest)) (four : length head ≡ 4)
    (full : All (λ p. p ≢ []) pieces) (carried : head ++ concat pieces ≡ s'.sent) where
  -- The bytes on the wire, after a send over an unused stream that returned.
  on_wire :
      {judge : ℤ → ℕ → Result (Unit {0})}
      → IsStrict judge
      → send_text judge msg s ≡ (ok tt, s')
      → head ++ concat pieces ≡ int_bytes (pos (length msg)) ++ msg
  on_wire strict e =
      carried
      ∙ sym (ap (λ r. r.1.sent) e)
      ∙ send_text_done msg s strict some_text fits (ap (λ r. r.0) e)
      ∙ ap (λ l. l ++ (int_bytes (pos (length msg)) ++ msg)) unused

  -- If the client's send of a message that is not empty and shorter than 2 ^ 31 bytes, over a
  -- stream not yet written to, returns, whatever the writes were, and the bytes that it wrote
  -- arrive in order, the first four in one read and the others cut into pieces that are not empty,
  -- then the server receives that message, and the reads behind it are left.
  pub request_delivered :
      (fresh : Option ℕ)
      → SockClient.send msg s ≡ (ok tt, s')
      → Connection.recv fresh t ≡ (ok msg, record t { reads = rest })
  unfolding SockClient.send
  request_delivered fresh e =
      let (h, c) = split head msg pieces four (on_wire client_IsStrict e) in
      recv_lem fresh t msg pieces rest (arrives ∙ ap (λ x. got x ∷ (map got pieces ++ rest)) h)
        some_text fits c full

  -- If the server's send of a text without zero bytes, that is not empty, over a stream not yet
  -- written to, returns, LOG(FATAL) aborts, the client's memory is zeroed, the length is below 2048
  -- and not 1024, and the bytes arrive in order, the first four in one read and the others in
  -- pieces that are not empty, then the client receives that text.
  pub response_delivered :
      All (λ b. b ≢ 0) msg
      → (length msg < 1024) ⊎ ((1024 < length msg) × (length msg < 2048))
      → Connection.send true msg s ≡ (ok tt, s')
      → SockClient.recv (some 0) t ≡ (ok msg, record t { reads = rest })
  unfolding Connection.send
  response_delivered no_zero short e =
      let (h, c) = split head msg pieces four (on_wire server_IsStrict e) in
      recv_zeroed t msg pieces rest (arrives ∙ ap (λ x. got x ∷ (map got pieces ++ rest)) h)
        some_text fits no_zero c full short
