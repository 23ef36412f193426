-- ===== src/Connection/Receive.antt =====
-- What Connection::_recv returns.
use json_rpc.Common.{
  ℕ, suc, ◌^◌, ◌<◌, ◌≡◌, ◌≢◌, refl, ap, List, [], ◌∷◌, ◌++◌, map, arith, Option, false, length, All,
  concat, replicate,
}
use json_rpc.Common.Int.{pos}
use json_rpc.Errors.{ok, stop, Stop, Exception, ServerException}
use json_rpc.Buffer.Memory.{new_cells}
use json_rpc.Buffer.Memory.Copy.{text_of-bytes}
use json_rpc.Buffer.Words.{kb, int_bytes}
use json_rpc.Buffer.Wron.{make_wron}
use json_rpc.Buffer.Wron.Writing.{make_wron-Holds}
use json_rpc.Stream.{Stream, Read, got, new_chunk}
use json_rpc.Stream.Receiving.{recv_loop_text, recv_loop_cut_off}
use json_rpc.Stream.Size.{header-int_bytes}
use json_rpc.Connection.{recv, receive, receive_body}

module _ (fresh : Option ℕ) where
  receive_body_lem :
      (text : List ℕ) (pieces : List (List ℕ)) (rest : List Read)
      → text ≢ []
      → length text < 2 ^ 31
      → concat pieces ≡ text
      → All (λ p. p ≢ []) pieces
      → receive_body fresh (pos (length text)) (map got pieces ++ rest) ≡ (ok text, rest)
  unfolding receive_body
  receive_body_lem [] pieces rest h k c full = absurd (h refl)
  receive_body_lem (x ∷ xs) pieces rest h k c full =
      let (wr, room, loop, held, _) =
        recv_loop_text false fresh (x ∷ xs) pieces rest new_chunk h k c full in
      rw (loop, held.begins) (ap (λ r. (r, rest)) (text_of-bytes (x ∷ xs) room wr.pos held.at))

  receive_lem :
      (rs : List Read) (text : List ℕ) (pieces : List (List ℕ)) (rest : List Read)
      → rs ≡ got (int_bytes (pos (length text))) ∷ (map got pieces ++ rest)
      → text ≢ []
      → length text < 2 ^ 31
      → concat pieces ≡ text
      → All (λ p. p ≢ []) pieces
      → receive fresh rs ≡ (ok text, rest)
  unfolding receive int_bytes
  receive_lem rs text pieces rest e h k c full =
      rw (e, header-int_bytes (length text) k) (receive_body_lem text pieces rest h k c full)

  -- The server gets exactly the message, of any bytes and of any length from 1 to 2 ^ 31 - 1, if
  -- the four bytes of the size come in one read and the others in pieces that are not empty,
  -- whatever its memory held before.
  pub recv_lem :
      (s : Stream) (text : List ℕ) (pieces : List (List ℕ)) (rest : List Read)
      → s.reads ≡ got (int_bytes (pos (length text))) ∷ (map got pieces ++ rest)
      → text ≢ []
      → length text < 2 ^ 31
      → concat pieces ≡ text
      → All (λ p. p ≢ []) pieces
      → recv fresh s ≡ (ok text, record s { reads = rest })
  unfolding recv
  recv_lem s text pieces rest e h k c full = rw (receive_lem s.reads text pieces rest e h k c full)

  -- A client closes behind the size of a message, of 1 to 2 ^ 31 - 1 bytes, without sending any of
  -- it: however often read then reports the end of the stream, the server takes it for no data and
  -- goes on waiting.
  pub recv_cut_off :
      (s : Stream) (n k : ℕ)
      → suc n < 2 ^ 31
      → s.reads ≡ got (int_bytes (pos (suc n))) ∷ replicate k (got [])
      → recv fresh s ≡ (stop Stop.waiting, record s { reads = [] })
  unfolding recv receive receive_body int_bytes
  recv_cut_off s n k h e = rw (
    e,
    header-int_bytes (suc n) h,
    recv_loop_cut_off false fresh (suc n) k [] new_chunk (new_cells fresh kb) (make_wron fresh)
        (make_wron-Holds fresh) (omega arith) h,
  )

  -- The end of the stream where a message might begin.
  pub recv_closed :
      (s : Stream) (rest : List Read)
      → s.reads ≡ got [] ∷ rest
      → recv fresh s ≡ (
        stop (Stop.thrown (Exception.server ServerException.server_close_socket)),
        record s { reads = rest },
      )
  unfolding recv receive
  recv_closed s rest e = rw e refl
