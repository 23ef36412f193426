-- ===== src/Poll/Server/Remote.antt =====
-- Calls of a client over one connection of the polling server: from Proto::build_request through
-- the loop and the pool to Proto::parse_response.
use json_rpc.Common.{
  ℕ, suc, ◌+◌, ◌^◌, ◌≤◌, ◌<◌, ◌≡◌, ◌≢◌, refl, sym, ap, subst, ◌∙◌, arith, Bool, true, false, List,
  [], ◌∷◌, ◌++◌, map, Option, none, some, ◌==◌, length, length-append, replicate, All, concat,
  append-nil, append_assoc,
}
use json_rpc.Common.Int.{pos}
use json_rpc.Errors.{Result, ok, ServerException, get_code, ◌>>=◌}
use json_rpc.Json.{Json, JsonLaws}
use json_rpc.Buffer.Memory.{c_text}
use json_rpc.Buffer.Rdon.{RdonBuffer}
use json_rpc.Proto.{parse_response}
use json_rpc.Proto.RoundTrip.{build_request-ne-nil}
use json_rpc.Service.{Handlers, find, assign}
use json_rpc.Service.Dispatch.{find-assign_same, assign-find, assign-assign}
use json_rpc.Server.{reply}
use json_rpc.Server.Calls.{
  Arrival, calls_of, pieces_of, request_text, is_answer, answer_text, direct_call, direct_calls,
  CallFits, reply-direct, answer_text-ne-nil, parse_response-direct_calls,
}
use json_rpc.Server.Thread.Serving.{framed, arrival, arrivals}
use json_rpc.Stream.{Read, Write}
use json_rpc.Poll.Channel.{Machine, Channel}
use json_rpc.Poll.Server.{PollServer, Event, readable, takes, sends, steps}
use json_rpc.Poll.Server.Rounds.{steps-append}
use json_rpc.Poll.Server.Answering.{idle, steps_answer}

-- What brings one call to its answer: some events that find the socket readable, a thread that
-- takes the job, and one that sends.
abbrev pub total : List ℕ → ℕ
total [] = 0
total (n ∷ ns) = n + total ns

abbrev pub call_events : ℕ → ℕ → List Event
call_events fd n = replicate n (readable fd) ++ takes ∷ sends ∷ []

-- A channel that is alive and between two messages, with the results of its reads and writes and
-- what has been sent. A new channel is one, without a buffer.
abbrev pub ready : Option RdonBuffer → List Read → List Write → List ℕ → Channel
ready b rs ws sent = record {
  read_buffer = b;
  write_buffer = none;
  send_locked = false;
  alive = true;
  busy = false;
  stream = record { reads = rs; writes = ws; sent = sent };
}

module _ (fresh : Option ℕ) (mach : Machine) (aborts : Bool) (j : Json) (laws : JsonLaws j)
    {S : Type 0} (hs : Handlers S j.Value) (fd : ℕ) where
  -- The pieces are those of the call's text, which has no zero byte and can be framed.
  abbrev pub IsCall : Arrival j.Value → Type 0
  IsCall (c, pieces) =
      CallFits j laws hs c
      × (concat pieces ≡ request_text j c)
      × (length (request_text j c) < 2 ^ 31)
      × All (λ b. b ≢ 0) (request_text j c)
      × All (λ p. p ≢ []) pieces

  -- A result that can be sent in one write.
  abbrev pub IsSent : Result j.Value → Type 0
  IsSent r = (is_answer j r ≡ true) × (length (answer_text j r) < 1020)

  -- The server after an answer.
  abbrev pub with_channel : Channel → S → PollServer S → PollServer S
  with_channel c s' s = record (idle s) { channels = assign fd c s.channels; service = s' }

  -- One call.
  steps_call :
      (b : Option RdonBuffer) (s : PollServer S) (a : Arrival j.Value) (rest : List Read)
      (ws : List Write) (sent : List ℕ)
      → (fd == s.sock) ≡ false
      → mach.forgiving ≡ true
      → c_text mach.beyond ≡ ok []
      → find fd s.channels ≡ some (ready b (arrival a.1 rest) (Write.all ∷ ws) sent)
      → IsCall a
      → let (r, s') = direct_call j laws hs a.0 s.service in
        IsSent r
        → (n : ℕ) × (b' : RdonBuffer) × (n ≤ length a.1)
          × (steps fresh mach aborts j hs (call_events fd n) (idle s)
              ≡ ok (with_channel (ready (some b') rest ws (sent ++ framed (answer_text j r))) s' s))
  steps_call b s (c, pieces) rest ws sent n fo by f (fits, e, short, z, full) (ans, len) =
      let answered : reply j hs (concat pieces) s.service ≡ (
        ok (answer_text j (direct_call j laws hs c s.service).0),
        (direct_call j laws hs c s.service).1,
      ) =
        ap (λ t. reply j hs t s.service) e ∙ reply-direct j laws hs c s.service fits ans in
      let (n', b', le, q) =
        steps_answer fresh mach aborts j hs fd (ready b rest (Write.all ∷ ws) sent) s
          (concat pieces) (answer_text j (direct_call j laws hs c s.service).0) pieces rest ws n
          refl refl refl f
          (subst (λ t. t ≢ []) (sym e)
            (build_request-ne-nil j laws c.clientno c.serverno c.messageid c.time c.method
              c.content))
          (subst (λ t. length t < 2 ^ 31) (sym e) short) (subst (All (λ x. x ≢ 0)) (sym e) z) refl
          full fo by (ap (λ (t, _). t) answered) (answer_text-ne-nil j laws hs c s.service ans)
          len in
      (
        n',
        b',
        le,
        q
            ∙ ap
                (λ (_, s'). ok (
                  with_channel
                    (ready (some b') rest ws
                      (sent ++ framed (answer_text j (direct_call j laws hs c s.service).0)))
                    s' s))
                answered,
      )

  answered_in_order :
      (arrived : List (Arrival j.Value)) (b : Option RdonBuffer) (s : PollServer S)
      (rest : List Read) (ws : List Write) (sent : List ℕ)
      → (fd == s.sock) ≡ false
      → mach.forgiving ≡ true
      → c_text mach.beyond ≡ ok []
      → find fd s.channels
        ≡ some (
            ready b
              (arrivals (pieces_of arrived) rest)
              (replicate (length arrived) Write.all ++ ws)
              sent)
      → All IsCall arrived
      → let (rs, s') = direct_calls j laws hs (calls_of arrived) s.service in
        All IsSent rs
        → let texts = map (answer_text j) rs in
          (ns : List ℕ) × (b' : Option RdonBuffer) × (length ns ≡ length arrived)
          × (total ns ≤ length (concat (pieces_of arrived)))
          × (steps fresh mach aborts j hs (concat (map (call_events fd) ns)) (idle s)
              ≡ ok (with_channel (ready b' rest ws (sent ++ concat (map framed texts))) s' s))
  unfolding steps direct_calls
  answered_in_order [] b s rest ws sent n fo by f a t = (
    [],
    b,
    refl,
    omega arith,
    ap (λ l. ok (record (idle s) { channels = l }))
        (sym (
          ap (λ l. assign fd (ready b rest ws l) s.channels) (append-nil sent)
          ∙ assign-find fd (ready b rest ws sent) s.channels f)),
  )
  answered_in_order ((c, pieces) ∷ arrived) b s rest ws sent n fo by f a t =
      let (k, b', le, q) =
        steps_call b s (c, pieces) (arrivals (pieces_of arrived) rest)
          (replicate (length arrived) Write.all ++ ws) sent n fo by f a.0 t.0 in
      let (ns, b'', same, le', q') =
        answered_in_order arrived (some b')
          (with_channel
            (ready (some b') (arrivals (pieces_of arrived) rest)
              (replicate (length arrived) Write.all ++ ws)
              (sent ++ framed (answer_text j (direct_call j laws hs c s.service).0)))
            (direct_call j laws hs c s.service).1 s)
          rest ws (sent ++ framed (answer_text j (direct_call j laws hs c s.service).0)) n fo by
          (find-assign_same fd _ s.channels) a.1 t.1 in
      (
        k ∷ ns,
        b'',
        ap suc same,
        omega (arith, le, le', length-append pieces (concat (pieces_of arrived))),
        steps-append fresh mach aborts j hs (call_events fd k) _ (idle s)
            ∙ ap (λ m. m >>= steps fresh mach aborts j hs (concat (map (call_events fd) ns))) q
            ∙ q'
            ∙ (λ i. ok (record (idle s) {
              channels =
                  assign-assign fd
                    (ready (some b') (arrivals (pieces_of arrived) rest)
                      (replicate (length arrived) Write.all ++ ws) (sent ++ frame))
                    (ready b'' rest ws (append_assoc sent frame (concat (map framed texts)) i))
                    s.channels i;
              service =
                  (direct_calls j laws hs (calls_of arrived)
                    (direct_call j laws hs c s.service).1).1;
            })),
      )
    where
      frame : List ℕ
      frame = framed (answer_text j (direct_call j laws hs c s.service).0)

      texts : List (List ℕ)
      texts =
          map (answer_text j)
            (direct_calls j laws hs (calls_of arrived) (direct_call j laws hs c s.service).1).0

  calls_fit :
      (arrived : List (Arrival j.Value))
      → All IsCall arrived
      → All (CallFits j laws hs) (calls_of arrived)
  calls_fit [] a = tt
  calls_fit (x ∷ arrived) a = (a.0.0, calls_fit arrived a.1)

  answers : (rs : List (Result j.Value)) → All IsSent rs → All (λ r. is_answer j r ≡ true) rs
  answers [] t = tt
  answers (r ∷ rs) t = (t.0.0, answers rs t.1)

  -- Given the JSON laws and a library that keeps the error codes, on a polling server with nothing
  -- to answer, where the byte behind an array of the heap is zero and an unlock without a lock does
  -- nothing, and a connection that is alive, between two messages, and whose socket takes the next
  -- writes whole: if calls whose values fit their types, built by the client, without zero bytes
  -- and shorter than 2 ^ 31 bytes, arrive in pieces that are not empty, one for each event that
  -- finds the socket readable, and every direct call of a handler gives a value or a server
  -- exception, with a text shorter than 1020 bytes, then after at most as many such events as there
  -- are pieces in all, and for each call a thread that takes the job and one that sends, the socket
  -- has taken the texts of all results, each behind its size, in order; the service is in the state
  -- that the direct calls leave, nothing else has changed, and the client that parses the texts
  -- gets the results and exceptions of the direct calls.
  pub steps_calls :
      (codes : (e : ServerException) → j.keeps (pos (get_code e)) ≡ true)
      (arrived : List (Arrival j.Value)) (b : Option RdonBuffer) (s : PollServer S)
      (rest : List Read) (ws : List Write) (sent : List ℕ)
      → (fd == s.sock) ≡ false
      → mach.forgiving ≡ true
      → c_text mach.beyond ≡ ok []
      → find fd s.channels
        ≡ some (
            ready b
              (arrivals (pieces_of arrived) rest)
              (replicate (length arrived) Write.all ++ ws)
              sent)
      → All IsCall arrived
      → let (rs, s') = direct_calls j laws hs (calls_of arrived) s.service in
        All IsSent rs
        → let texts = map (answer_text j) rs in
          ((ns : List ℕ) × (b' : Option RdonBuffer) × (length ns ≡ length arrived)
            × (total ns ≤ length (concat (pieces_of arrived)))
            × (steps fresh mach aborts j hs (concat (map (call_events fd) ns)) (idle s)
                ≡ ok (with_channel (ready b' rest ws (sent ++ concat (map framed texts))) s' s)))
          × (map (parse_response j aborts) texts ≡ rs)
  steps_calls codes arrived b s rest ws sent n fo by f a t = (
    answered_in_order arrived b s rest ws sent n fo by f a t,
    parse_response-direct_calls j laws hs aborts codes (calls_of arrived) s.service
        (calls_fit arrived a) (answers _ t),
  )
