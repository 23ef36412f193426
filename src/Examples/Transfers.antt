-- ===== src/Examples/Transfers.antt =====
-- Short messages, and one that fills the buffer.
use json_rpc.Common.{
  ℕ, zero, suc, ◌<◌, ◌≡◌, ◌≢◌, refl, arith, List, [], ◌∷◌, none, some, inl, All, replicate, length,
  append-nil, length-replicate,
}
use json_rpc.Common.Int.{pos}
use json_rpc.Errors.{ok, stop, Stop, Fault}
use json_rpc.Buffer.Words.{int_bytes}
use json_rpc.Stream.{Stream, got, Write}
use json_rpc.Stream.Sending.{send_text_all}
use json_rpc.SockClient
use json_rpc.SockClient.Receive.{recv_overrun}
use json_rpc.Connection
use json_rpc.Connection.Receive.{recv_cut_off}
use json_rpc.Wire.{request_delivered}

abbrev two : List ℕ
two = 65 ∷ 66 ∷ []

two_some : two ≢ []
two_some e = cc

-- A socket that takes whole chunks, and one that takes three bytes and then fails.
abbrev taking : Stream
taking = record { reads = []; writes = Write.all ∷ []; sent = [] }

abbrev wire : List ℕ
wire = 2 ∷ 0 ∷ 0 ∷ 0 ∷ 65 ∷ 66 ∷ []

abbrev taken : Stream
taken = record { reads = []; writes = []; sent = wire }

-- The message in two pieces.
abbrev arriving : Stream
arriving = record {
  reads = got (2 ∷ 0 ∷ 0 ∷ 0 ∷ []) ∷ got (65 ∷ []) ∷ got (66 ∷ []) ∷ got [] ∷ [];
  writes = [];
  sent = [];
}

abbrev arrived : Stream
arrived = record { reads = got [] ∷ []; writes = []; sent = [] }

one_each : All {A = List ℕ} (λ p. p ≢ []) ((65 ∷ []) ∷ (66 ∷ []) ∷ [])
one_each = (λ e. cc, (λ e. cc, tt))

-- A message of 1024 bytes.
abbrev whole_kb : List ℕ
whole_kb = replicate 1024 65

no_zero-replicate : (n : ℕ) → All {A = ℕ} (λ b. b ≢ 0) (replicate n 65)
no_zero-replicate zero = tt
no_zero-replicate (suc n) = (λ e. omega arith, no_zero-replicate n)

abbrev arriving_kb : Stream
arriving_kb = record {
  reads = got (int_bytes (pos (length whole_kb))) ∷ got whole_kb ∷ [];
  writes = [];
  sent = [];
}

recv_overrun_example :
    SockClient.recv (some 0) arriving_kb
    ≡ (stop (Stop.fault Fault.overrun), record arriving_kb { reads = [] })
recv_overrun_example =
    recv_overrun arriving_kb whole_kb (whole_kb ∷ []) [] refl (λ e. cc)
      (omega (arith, length-replicate {A = ℕ} 1024 65)) (no_zero-replicate 1024)
      (append-nil whole_kb) (λ e. cc, tt) (some 0) (inl (length-replicate {A = ℕ} 1024 65))

-- The size and then nothing.
abbrev cut_off : Stream
cut_off = record {
  reads = got (int_bytes (pos 2)) ∷ got [] ∷ got [] ∷ got [] ∷ [];
  writes = [];
  sent = [];
}

recv_cut_off_example :
    Connection.recv none cut_off ≡ (stop Stop.waiting, record cut_off { reads = [] })
recv_cut_off_example = recv_cut_off none cut_off 1 3 (omega arith) refl

client_sent : SockClient.send two taking ≡ (ok tt, taken)
unfolding SockClient.send int_bytes
client_sent =
    send_text_all SockClient.judge_write accepted two taking [] two_some (omega arith) refl
  where
    accepted : (n : ℕ) → 0 < n → SockClient.judge_write (pos n) n ≡ ok tt
    accepted n h = unfold SockClient.judge_write in ground arith

request_delivered_example : Connection.recv none arriving ≡ (ok two, arrived)
request_delivered_example =
    request_delivered two taking taken arriving (2 ∷ 0 ∷ 0 ∷ 0 ∷ []) ((65 ∷ []) ∷ (66 ∷ []) ∷ [])
      (got [] ∷ []) two_some (omega arith) refl refl refl one_each refl none client_sent
