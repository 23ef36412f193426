-- ===== src/Server/Thread/Serving.antt =====
-- What the thread of a connection sends.
use json_rpc.Common.{
  ℕ, zero, suc, ◌+◌, ◌^◌, ◌<◌, ◌≡◌, ◌≢◌, refl, sym, ap, ◌∙◌, arith, List, [], ◌∷◌, ◌++◌, map, Bool,
  true, false, Option, ◌==◌, length, All, concat, replicate, append_assoc, append-nil,
  length-append,
}
use json_rpc.Common.Int.{pos}
use json_rpc.Errors.{ok, stop, Stop, Exception, ServerException, throw, get_code, socket_closed}
use json_rpc.Json.{Json}
use json_rpc.Buffer.Words.{int_bytes}
use json_rpc.Proto.{build_error}
use json_rpc.Service.{Handlers}
use json_rpc.Server.{answer}
use json_rpc.Stream.{Stream, Read, got, Write}
use json_rpc.Stream.Sending.{chunks, send_text_all}
use json_rpc.Connection
use json_rpc.Connection.Receive.{recv_lem, recv_closed}
use json_rpc.Server.Thread.{
  Conn, make_connection, look, responding, received, attempt, handled, turned, run, serve,
}
use json_rpc.Server.Thread.Ending.{run-serve}

-- A text behind its size, and the reads that bring a message in pieces.
abbrev pub framed : List ℕ → List ℕ
framed text = int_bytes (pos (length text)) ++ text

abbrev pub arrival : List (List ℕ) → List Read → List Read
arrival pieces rest = got (int_bytes (pos (length (concat pieces)))) ∷ (map got pieces ++ rest)

abbrev pub arrivals : List (List (List ℕ)) → List Read → List Read
arrivals [] rest = rest
arrivals (pieces ∷ more) rest = arrival pieces (arrivals more rest)

-- Writes that take every chunk of the texts.
abbrev pub takes : List (List ℕ) → List Write → List Write
takes [] ws = ws
takes (text ∷ texts) ws = replicate (chunks (4 + length text)) Write.all ++ takes texts ws

-- A text that can be framed.
abbrev pub IsMessage : List ℕ → Type 0
IsMessage text = (text ≢ []) × (length text < 2 ^ 31)

-- A connection that no other thread shuts down.
abbrev pub conn : Bool → List Read → List Write → List ℕ → Conn
conn on reads writes sent = record {
  stream = record { reads = reads; writes = writes; sent = sent };
  connected = on;
  shuts = [];
}

accepts : (aborts : Bool) (n : ℕ) → 0 < n → Connection.judge_write aborts (pos n) n ≡ ok tt
unfolding Connection.judge_write
accepts aborts zero h = absurd (omega arith)
accepts aborts (suc n) h = ground arith

sends :
    (aborts : Bool) (text : List ℕ) (reads : List Read) (ws : List Write) (sent : List ℕ)
    → IsMessage text
    → Connection.send aborts text
        (record { reads = reads; writes = takes (text ∷ []) ws; sent = sent })
      ≡ (ok tt, record { reads = reads; writes = ws; sent = sent ++ framed text })
unfolding Connection.send
sends aborts text reads ws sent (h, k) =
    send_text_all (Connection.judge_write aborts) (accepts aborts) text _ ws h k refl

module _ (j : Json) (fresh : Option ℕ) (aborts : Bool) {S : Type 0} (hs : Handlers S j.Value) where
  -- The messages, in pieces, are answered by the texts, from the first state of the service to the
  -- last.
  pub data Served : List (List (List ℕ)) → List (List ℕ) → S → S → Type 0 where
    no_more : {s : S} → Served [] [] s s
    one_more :
        {pieces : List (List ℕ)} {more : List (List (List ℕ))} {text : List ℕ}
        {texts : List (List ℕ)} {s s' s'' : S}
        → IsMessage (concat pieces)
        → All (λ p. p ≢ []) pieces
        → answer j hs (concat pieces) s ≡ (ok text, s')
        → IsMessage text
        → Served more texts s' s''
        → Served (pieces ∷ more) (text ∷ texts) s s''

  receives :
      (pieces : List (List ℕ)) (rest : List Read) (ws : List Write) (sent : List ℕ)
      → IsMessage (concat pieces)
      → All (λ p. p ≢ []) pieces
      → Connection.recv fresh (record { reads = arrival pieces rest; writes = ws; sent = sent })
        ≡ (ok (concat pieces), record { reads = rest; writes = ws; sent = sent })
  receives pieces rest ws sent (h, k) full =
      recv_lem fresh _ (concat pieces) pieces rest refl h k refl full

  -- One message that is answered.
  attempt-answered :
      (pieces : List (List ℕ)) (rest : List Read) (text : List ℕ) (ws : List Write) (sent : List ℕ)
      (s s' : S)
      → IsMessage (concat pieces)
      → All (λ p. p ≢ []) pieces
      → answer j hs (concat pieces) s ≡ (ok text, s')
      → IsMessage text
      → attempt j fresh aborts hs (conn true (arrival pieces rest) (takes (text ∷ []) ws) sent) s
        ≡ (ok tt, conn true rest ws (sent ++ framed text), s')
  unfolding attempt received responding look
  attempt-answered pieces rest text ws sent s s' m full a t =
      rw
        (
          receives pieces rest (takes (text ∷ []) ws) sent m full,
          a,
          responding,
          sends aborts text rest ws sent t,
        )
        (ap (λ r. (ok tt, record { stream = r.1; connected = true; shuts = [] }, s'))
          (sends aborts text rest ws sent t))

  -- A message that is received, answered, and its answer sent.
  pub attempt-returned :
      (t u t' : Stream) (msg text : List ℕ) (s s' : S)
      → Connection.recv fresh t ≡ (ok msg, u)
      → answer j hs msg s ≡ (ok text, s')
      → Connection.send aborts text u ≡ (ok tt, t')
      → attempt j fresh aborts hs (make_connection t []) s ≡ (ok tt, make_connection t' [], s')
  unfolding attempt received responding look
  attempt-returned t u t' msg text s s' e a w =
      rw (e, a, responding, w)
        (ap (λ r. (ok tt, record { stream = r.1; connected = true; shuts = [] }, s')) w)

  -- One that the server rejects.
  attempt-rejected :
      (pieces : List (List ℕ)) (rest : List Read) (e : Stop) (ws : List Write) (sent : List ℕ)
      (s s' : S)
      → IsMessage (concat pieces)
      → All (λ p. p ≢ []) pieces
      → answer j hs (concat pieces) s ≡ (stop e, s')
      → attempt j fresh aborts hs (conn true (arrival pieces rest) ws sent) s
        ≡ (stop e, conn true rest ws sent, s')
  unfolding attempt received responding
  attempt-rejected pieces rest e ws sent s s' m full a =
      rw (receives pieces rest ws sent m full, a) refl

  attempt-closed :
      (rest : List Read) (ws : List Write) (sent : List ℕ) (s : S)
      → attempt j fresh aborts hs (conn true (got [] ∷ rest) ws sent) s
        ≡ (throw (Exception.server ServerException.server_close_socket), conn true rest ws sent, s)
  unfolding attempt received
  attempt-closed rest ws sent s =
      rw (recv_closed fresh (record { reads = got [] ∷ rest; writes = ws; sent = sent }) rest refl)
        refl

  -- The messages that are answered are served one after the other.
  serve_all :
      (rest : List Read) (ws : List Write) (sent : List ℕ) {messages : List (List (List ℕ))}
      {texts : List (List ℕ)} {s s' : S}
      → Served messages texts s s'
      → serve j fresh aborts hs (conn true (arrivals messages rest) (takes texts ws) sent) s
        ≡ serve j fresh aborts hs (conn true rest ws (sent ++ concat (map framed texts))) s'
  unfolding serve run look turned
  serve_all rest ws sent {s = s} no_more =
      ap (λ l. serve j fresh aborts hs (conn true rest ws l) s) (sym (append-nil sent))
  serve_all rest ws sent (one_more {pieces} {more} {text} {texts} {s} {s'} {s''} m full a t q) =
      rw (attempt-answered pieces (arrivals more rest) text (takes texts ws) sent s s' m full a t) (
        run-serve j fresh aborts hs _
          (conn true (arrivals more rest) (takes texts ws) (sent ++ framed text)) s' left
        ∙ serve_all rest ws (sent ++ framed text) q
        ∙ ap (λ l. serve j fresh aborts hs (conn true rest ws l) s'')
            (append_assoc sent (framed text) _))
    where
      left : length (arrivals more rest) < length (arrival pieces (arrivals more rest))
      left = omega (arith, length-append (map got pieces) (arrivals more rest))

  -- On a connection that no other thread shuts down, whose writes take every chunk: if messages,
  -- each not empty, shorter than 2 ^ 31 bytes and in pieces that are not empty behind its size, are
  -- answered by texts that are not empty and shorter than 2 ^ 31 bytes, and the stream ends behind
  -- them, then the thread sends the texts, each behind its size, in order and once, leaves the
  -- service in its last state, clears its flag and returns.
  pub serve_closed :
      (rest : List Read) (ws : List Write) (sent : List ℕ) (messages : List (List (List ℕ)))
      (texts : List (List ℕ)) (s s' : S)
      → Served messages texts s s'
      → serve j fresh aborts hs
          (conn true (arrivals messages (got [] ∷ rest)) (takes texts ws) sent)
          s
        ≡ (ok tt, conn false rest ws (sent ++ concat (map framed texts)), s')
  unfolding serve run look turned handled get_code
  serve_closed rest ws sent messages texts s s' q =
      serve_all (got [] ∷ rest) ws sent q
      ∙ rw (attempt-closed rest ws (sent ++ concat (map framed texts)) s') refl

  not_closed :
      (e : ServerException)
      → e ≢ ServerException.server_close_socket
      → (get_code e == socket_closed) ≡ false
  unfolding get_code
  not_closed ServerException.server_close_socket h = absurd (h refl)
  not_closed ServerException.server_bad_message h = refl
  not_closed ServerException.server_method_not_found h = refl
  not_closed ServerException.server_json_not_parsed h = refl
  not_closed ServerException.server_param_mismatch h = refl

  -- On a connection that no other thread shuts down, whose writes take every chunk: if the message
  -- behind the answered ones fails with a server exception other than ServerCloseSocketException,
  -- and the error text is not empty and shorter than 2 ^ 31 bytes, then the thread sends the
  -- answers and the error text and returns with the flag still set: whatever follows on the stream
  -- is not read.
  pub serve_rejected :
      (rest : List Read) (ws : List Write) (sent : List ℕ) (messages : List (List (List ℕ)))
      (texts : List (List ℕ)) (s s' s'' : S) (pieces : List (List ℕ)) (e : ServerException)
      → Served messages texts s s'
      → IsMessage (concat pieces)
      → All (λ p. p ≢ []) pieces
      → answer j hs (concat pieces) s' ≡ (throw (Exception.server e), s'')
      → e ≢ ServerException.server_close_socket
      → IsMessage (build_error j (get_code e))
      → let text = build_error j (get_code e) in
        serve j fresh aborts hs
          (conn true
            (arrivals messages (arrival pieces rest))
            (takes texts (takes (text ∷ []) ws))
            sent)
          s
        ≡ (ok tt, conn true rest ws (sent ++ concat (map framed texts) ++ framed text), s'')
  unfolding serve run look turned handled
  serve_rejected rest ws sent messages texts s s' s'' pieces e q m full a o t =
      serve_all (arrival pieces rest) (takes (text ∷ []) ws) sent q
      ∙ rw
          (
            attempt-rejected pieces rest (Stop.thrown (Exception.server e)) (takes (text ∷ []) ws)
                so_far s' s'' m full a,
            not_closed e o,
          )
          (ap (λ r. (r.0, record { stream = r.1; connected = true; shuts = [] }, s''))
            (sends aborts text rest ws so_far t))
    where
      text : List ℕ
      text = build_error j (get_code e)

      so_far : List ℕ
      so_far = sent ++ concat (map framed texts)
