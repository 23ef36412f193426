-- ===== src/Connection.antt =====
-- The transfers of class Connection in src/json-rpc/sockserver.cpp. `fresh` is what the allocator
-- leaves in new memory; `aborts` is whether LOG(FATAL) ends the program.
pub mod Receive
pub mod Reads
use json_rpc.Common.{ℕ, List, [], ◌∷◌, Bool, true, false, Option, ◌==◌, if◌then◌else◌, length}
use json_rpc.Common.Int.{ℤ, pos, negsuc}
use json_rpc.Errors.{Result, ok, stop, Stop, Fault, Exception, ServerException, log_fatal, ◌>>=◌}
use json_rpc.Buffer.Memory.{text_of}
use json_rpc.Buffer.Wron.{make_wron}
use json_rpc.Stream.{Stream, Read, got, read_error, send_text, recv_loop, new_chunk, header}

-- The tests on `real_len` in Connection::_send.
unfoldable pub judge_write : Bool → ℤ → ℕ → Result (Unit {0})
judge_write aborts (pos ℕ.zero) len =
    stop (Stop.thrown (Exception.server ServerException.server_close_socket))
judge_write aborts (pos (ℕ.suc n)) len = if ℕ.suc n == len then ok tt else log_fatal aborts
judge_write aborts (negsuc n) len = log_fatal aborts

-- Connection::_send
unfoldable pub send : Bool → List ℕ → Stream → Result (Unit {0}) × Stream
send aborts msg s = send_text (judge_write aborts) msg s

-- The loop of _recv and the string made of it.
receive_body : Option ℕ → ℤ → List Read → Result (List ℕ) × List Read
receive_body fresh (negsuc n) rs = (ok [], rs)
receive_body fresh (pos ℕ.zero) rs = (ok [], rs)
receive_body fresh (pos (ℕ.suc n)) rs =
    let (r, rs') = recv_loop false fresh (ℕ.suc n) rs new_chunk (make_wron fresh) 0 in
    (r >>= λ wr. text_of wr.pos wr.cells, rs')

-- The read of the size: nothing at the end of the stream, else four bytes.
receive : Option ℕ → List Read → Result (List ℕ) × List Read
unfolding receive_body
receive fresh [] = (stop Stop.waiting, [])
receive fresh (read_error ∷ rs) = (ok [], rs)
receive fresh (got [] ∷ rs) =
    (stop (Stop.thrown (Exception.server ServerException.server_close_socket)), rs)
receive fresh (got (b ∷ bs) ∷ rs) =
    if length (b ∷ bs) == 4 then receive_body fresh (header (b ∷ bs)) rs else (ok [], rs)

-- Connection::_recv
unfoldable pub recv : Option ℕ → Stream → Result (List ℕ) × Stream
unfolding receive
recv fresh s = let (r, rs) = receive fresh s.reads in (r, record s { reads = rs })
