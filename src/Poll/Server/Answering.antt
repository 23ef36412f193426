-- ===== src/Poll/Server/Answering.antt =====
-- A message on its way through the server, and channels that end before their answers.
use json_rpc.Common.{
  ℕ, zero, suc, ◌≤◌, ◌<◌, ◌^◌, ◌≡◌, ◌≢◌, refl, ap, ◌∙◌, arith, List, [], ◌∷◌, ◌++◌, map, length,
  replicate, concat, All, Bool, true, false, Option, some, inl, inr, ◌==◌, append-nil, eq→==,
}
use json_rpc.Common.Int.{pos}
use json_rpc.Errors.{ok, stop, Stop, Fault}
use json_rpc.Json.{Json}
use json_rpc.Buffer.Memory.{c_text}
use json_rpc.Buffer.Words.{int_bytes}
use json_rpc.Buffer.Rdon.{RdonBuffer}
use json_rpc.Buffer.Wron.{WronBuffer}
use json_rpc.Service.{Handlers, find, assign}
use json_rpc.Service.Dispatch.{find-assign_same, assign-assign}
use json_rpc.Server.{reply}
use json_rpc.Stream.{Read, got, Write}
use json_rpc.Stream.Sending.{write_fd_all}
use json_rpc.Poll.Manager.{PollManager, reading, writing, unwatch}
use json_rpc.Poll.Channel.{Machine, State, read_ready, Channel, destroy_channel, clear_msg, get_msg}
use json_rpc.Poll.Channel
use json_rpc.Poll.Channel.Receiving.{reads, during, reads-none, reads-first}
use json_rpc.Poll.Channel.Messages.{between, read-closed, reads_message}
use json_rpc.Poll.Channel.Writing.{sending}
use json_rpc.Poll.Channel.Sending.{send_short}
use json_rpc.Poll.Server.Closing.{steps-sends}
use json_rpc.Poll.Server.{
  PollServer, deleted, Event, readable, takes, sends, on_read, read_channel, after_read,
  drop_channel, take_job, answer_job, send_answer, step, steps,
}

-- The server s with nothing to answer.
abbrev pub idle : {S : Type 0} → PollServer S → PollServer S
idle s = record s { jobs = []; answers = [] }

module _ (fresh : Option ℕ) (mach : Machine) (aborts : Bool) {S : Type 0} (j : Json)
    (hs : Handlers S j.Value) where
  -- Reads that end with a whole message give the channel to the pool.
  steps-readable :
      (k fd : ℕ) (c c' : Channel) (s : PollServer S) (events : List Event)
      → (fd == s.sock) ≡ false
      → find fd s.channels ≡ some c
      → reads fresh k c ≡ (ok read_ready, c')
      → (n : ℕ) × (n ≤ k)
        × (steps fresh mach aborts j hs (replicate n (readable fd) ++ events) s
            ≡ steps fresh mach aborts j hs events
                (record s { channels = assign fd c' s.channels; jobs = s.jobs ++ some fd ∷ [] }))
  unfolding steps step on_read read_channel after_read
  steps-readable zero fd c c' s events n f r = absurd (reads-none fresh c c' r)
  steps-readable (suc k) fd c c' s events n f r = elim (reads-first fresh k c c' r) [
    | inl e ↦ (1, omega arith, rw (n, f, e) refl)
    | inr (c'', e, rest) ↦
        let (m, le, loop) =
          steps-readable k fd c'' c' (record s { channels = assign fd c'' s.channels }) events n
            (find-assign_same fd c'' s.channels) rest in
        (
          suc m,
          omega (arith, le),
          rw (n, f, e)
              (loop
                ∙ ap
                    (λ t.
                      steps fresh mach aborts j hs events
                        (record s { channels = t; jobs = s.jobs ++ some fd ∷ [] }))
                    (assign-assign fd c'' c' s.channels)),
        )
  ]

  -- A thread of the pool answers the message of the only job.
  steps-takes :
      (fd : ℕ) (c : Channel) (s : PollServer S) (text out : List ℕ) (events : List Event)
      → find fd s.channels ≡ some c
      → get_msg mach c ≡ ok text
      → (reply j hs text s.service).0 ≡ ok out
      → steps fresh mach aborts j hs (takes ∷ events) (record s { jobs = some fd ∷ [] })
        ≡ steps fresh mach aborts j hs events (record s {
          channels = assign fd (clear_msg c) s.channels;
          jobs = [];
          answers = s.answers ++ (some fd, out) ∷ [];
          service = (reply j hs text s.service).1;
        })
  unfolding steps step take_job answer_job
  steps-takes fd c s text out events f msg r = rw (f, msg, r) refl

  -- On a server with nothing to answer, a connection that is alive, not in a send, and whose socket
  -- takes the next write whole: a text without zero bytes, not empty and shorter than 2 ^ 31 bytes,
  -- that arrives behind its size in pieces that are not empty, one for each event that finds the
  -- socket readable, is answered. After at most as many such events as there are pieces, one thread
  -- that takes the job and one that sends, the socket has taken the frame of the text that `reply`
  -- gives, if that is not empty and shorter than 1020 bytes, the user's service is in the state
  -- that `reply` gives, the channel is ready for the next message, and nothing else has changed.
  -- The condition on the machine is that the byte behind an array of the heap is zero and an unlock
  -- without a lock does nothing.
  pub steps_answer :
      (fd : ℕ) (c : Channel) (s : PollServer S) (text out : List ℕ) (pieces : List (List ℕ))
      (rest : List Read) (ws : List Write)
      → (fd == s.sock) ≡ false
      → c.alive ≡ true
      → c.send_locked ≡ false
      → c.stream.writes ≡ Write.all ∷ ws
      → find fd s.channels
        ≡ some (between c (got (int_bytes (pos (length text))) ∷ (map got pieces ++ rest)))
      → text ≢ []
      → length text < 2 ^ 31
      → All (λ b. b ≢ 0) text
      → concat pieces ≡ text
      → All (λ p. p ≢ []) pieces
      → mach.forgiving ≡ true
      → c_text mach.beyond ≡ ok []
      → (reply j hs text s.service).0 ≡ ok out
      → out ≢ []
      → length out < 1020
      → (n : ℕ) × (b : RdonBuffer) × (n ≤ length pieces)
        × (steps fresh mach aborts j hs (replicate n (readable fd) ++ takes ∷ sends ∷ []) (idle s)
            ≡ ok (record (idle s) {
              channels =
                  assign fd
                    (sending
                      (between c rest)
                      (record c.stream {
                        reads = rest;
                        writes = ws;
                        sent = c.stream.sent ++ (int_bytes (pos (length out)) ++ out);
                      })
                      b
                      false)
                    s.channels;
              service = (reply j hs text s.service).1;
            }))
  unfolding steps clear_msg
  steps_answer fd c s text out pieces rest ws n a l w f t k z e full fo by r o short =
      let (wr, received, msg) = reads_message fresh c mach text pieces rest t k z e full in
      let (i, le, loop) =
        steps-readable (length pieces) fd
          (between c (got (int_bytes (pos (length text))) ∷ (map got pieces ++ rest)))
          (during c rest wr true) (idle s) (takes ∷ sends ∷ []) n f received in
      let (b, sent) =
        send_short (between c rest) (pos fd) out s.manager a l o (omega (arith, short)) mach
          (pos (length frame))
          (record c.stream { reads = rest; writes = ws; sent = c.stream.sent ++ frame }) fo short
          (write_fd_all (record c.stream { reads = rest }) frame ws w) in
      (
        i,
        b,
        le,
        loop
            ∙ steps-takes fd (during c rest wr true) (record (idle s) { channels = queued wr }) text
                out (sends ∷ []) (find-assign_same fd (during c rest wr true) s.channels)
                (msg ∙ rw by (ap ok (append-nil text))) r
            ∙ steps-sends fresh mach aborts j hs fd (between c rest)
                (record (idle s) {
                  channels = assign fd (between c rest) (queued wr);
                  service = (reply j hs text s.service).1;
                })
                out _ [] (find-assign_same fd (between c rest) (queued wr)) sent
            ∙ ap
                (λ t.
                  ok (record (idle s) { channels = t; service = (reply j hs text s.service).1 }))
                (assign-assign fd (between c rest) _ (queued wr)
                  ∙ assign-assign fd (during c rest wr true) _ s.channels),
      )
    where
      frame : List ℕ
      frame = int_bytes (pos (length out)) ++ out

      queued : WronBuffer → List (ℕ × Channel)
      queued wr = assign fd (during c rest wr true) s.channels

  -- If a client closes between two messages while the answer to its last one is about to be sent,
  -- and the manager can unwatch its descriptor, then the loop deletes the channel and the thread
  -- that sends the answer uses it.
  pub deleted_in_use :
      (fd : ℕ) (c : Channel) (s : PollServer S) (text : List ℕ) (rs : List Read)
      → (fd == s.sock) ≡ false
      → find fd s.channels ≡ some (between c (got [] ∷ rs))
      → c.send_locked ≡ false
      → (m m' : PollManager) → unwatch (pos fd) reading s.manager ≡ ok m
      → unwatch (pos fd) writing m ≡ ok m'
      → steps fresh mach aborts j hs
          (readable fd ∷ sends ∷ [])
          (record s { answers = (some fd, text) ∷ [] })
        ≡ stop (Stop.fault Fault.dangling)
  unfolding steps step on_read read_channel after_read drop_channel send_answer deleted
      Channel.close destroy_channel
  deleted_in_use fd c s text rs n f l m m' u u' =
      rw (n, f, read-closed fresh c rs, l, u, u', eq→== fd fd refl) refl
