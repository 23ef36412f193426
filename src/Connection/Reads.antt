-- ===== src/Connection/Reads.antt =====
-- Which reads a message takes.
use json_rpc.Common.{ℕ, suc, ◌≤◌, ◌<◌, ◌≡◌, arith, List, [], ◌∷◌, Bool, false, Option, length}
use json_rpc.Common.Int.{ℤ, pos, negsuc}
use json_rpc.Errors.{ok}
use json_rpc.Buffer.Wron.{make_wron}
use json_rpc.Stream.{Stream, Read, got, read_error, new_chunk, header}
use json_rpc.Stream.Reads.{reads-send_text, length-recv_loop}
use json_rpc.Connection.{judge_write, send, recv, receive, receive_body}

pub reads-send : (aborts : Bool) (msg : List ℕ) (s : Stream) → (send aborts msg s).1.reads ≡ s.reads
unfolding send
reads-send aborts msg s = reads-send_text (judge_write aborts) msg s

length-receive_body :
    (fresh : Option ℕ) (z : ℤ) (rs : List Read) → length (receive_body fresh z rs).1 ≤ length rs
unfolding receive_body
length-receive_body fresh (negsuc n) rs = omega arith
length-receive_body fresh (pos ℕ.zero) rs = omega arith
length-receive_body fresh (pos (suc n)) rs =
    length-recv_loop false fresh (suc n) rs new_chunk (make_wron fresh) 0

length-receive :
    (fresh : Option ℕ) (rs : List Read) (msg : List ℕ)
    → (receive fresh rs).0 ≡ ok msg
    → length (receive fresh rs).1 < length rs
unfolding receive
length-receive fresh [] msg e = cc
length-receive fresh (read_error ∷ rs) msg e = omega arith
length-receive fresh (got [] ∷ rs) msg e = cc
length-receive fresh (got (b ∷ bs) ∷ rs) msg e =
    ground (arith, length-receive_body fresh (header (b ∷ bs)) rs)

-- A message takes one read at least.
pub length-recv :
    (fresh : Option ℕ) (s : Stream) (msg : List ℕ)
    → (recv fresh s).0 ≡ ok msg
    → length (recv fresh s).1.reads < length s.reads
unfolding recv
length-recv fresh s msg e = length-receive fresh s.reads msg e
