-- ===== src/Examples/Polls.antt =====
-- The polling server at work, with the service of the examples of messages.
use json_rpc.Common.{
  ℕ, suc, ◌≡◌, ◌≢◌, ◌≤◌, ◌<◌, refl, arith, List, [], ◌∷◌, ◌++◌, none, some, true, false, length,
  replicate, leb→le,
}
use json_rpc.Common.Int.{pos}
use json_rpc.Errors.{ok, stop, Stop, Fault, get_code}
use json_rpc.Json.Sample.{json}
use json_rpc.Buffer.Memory.{c_text}
use json_rpc.Buffer.Words.{int_bytes}
use json_rpc.Buffer.Rdon.{RdonBuffer}
use json_rpc.Proto.{build_error, parse_request}
use json_rpc.Service.{assign, find}
use json_rpc.Server.{answer, reply}
use json_rpc.Stream.{got, Write}
use json_rpc.Poll.Manager.{PollManager, put_fd, writing, watch, unwatch}
use json_rpc.Poll.Channel.{Machine, strict, State, Channel, make_channel, read, get_msg}
use json_rpc.Poll.Channel
use json_rpc.Poll.Channel.Messages.{between}
use json_rpc.Poll.Channel.Writing.{sending}
use json_rpc.Poll.Server.{PollServer, remove, readable, takes, sends, steps}
use json_rpc.Poll.Server.Watched.{IsServing}
use json_rpc.Poll.Server.Invariant.{steps-IsServing}
use json_rpc.Poll.Server.Answering.{idle, steps_answer, deleted_in_use}
use json_rpc.Examples.Messages.{service}
use json_rpc.Examples.Channels.{
  manager3, manager, lucky, chan, text, arriving, rejection, manager-IsConsistent, not_null,
  unwatch5,
}

-- The server with one connection, which is about to read.
abbrev pub server : Channel → PollServer ℕ
server c = record {
  sock = 3;
  manager = manager;
  channels = (5, c) ∷ [];
  stopped = false;
  accepts = [];
  jobs = [];
  answers = [];
  service = 42;
}

server-IsServing : (c : Channel) → IsServing (server c)
unfolding find
server-IsServing c = record { consistent = manager-IsConsistent; watched = λ i. ground arith }

replied : (reply json service text 42).0 ≡ ok rejection
unfolding reply answer parse_request get_code
replied = refl

found : find 5 (server arriving).channels ≡ some arriving
unfolding find
found = refl

zero_behind : c_text lucky.beyond ≡ ok []
unfolding c_text
zero_behind = refl

no_rejection : rejection ≢ []
unfolding build_error
no_rejection e = cc

short : length rejection < 1020
unfolding build_error
short = leb→le (suc (length rejection)) 1020 refl

steps_answer_example :
    (n : ℕ) × (b : RdonBuffer) × (n ≤ 2)
    × (steps none lucky true json service
          (replicate n (readable 5) ++ takes ∷ sends ∷ [])
          (idle (server arriving))
        ≡ ok (record (idle (server arriving)) {
          channels =
              assign 5
                (sending
                  (between chan [])
                  (record chan.stream {
                    reads = [];
                    writes = Write.all ∷ [];
                    sent = int_bytes (pos (length rejection)) ++ rejection;
                  })
                  b
                  false)
                (server arriving).channels;
          service = (reply json service text 42).1;
        }))
steps_answer_example =
    steps_answer none lucky true json service 5 chan (server arriving) text rejection
      ((123 ∷ []) ∷ (124 ∷ []) ∷ []) [] (Write.all ∷ []) refl refl refl refl found (λ e. cc)
      (omega arith) not_null refl (λ e. cc, (λ e. cc, tt)) refl zero_behind replied
      (λ e. no_rejection e) short

-- The client goes away between two messages.
abbrev pub leaving : Channel
leaving = between chan (got [] ∷ [])

left : find 5 (server leaving).channels ≡ some leaving
unfolding find
left = refl

abbrev pub manager_left : PollManager
manager_left = record manager3 { read_set = put_fd 5 false manager.read_set }

unwatch_writing :
    unwatch (pos 5) writing manager_left
    ≡ ok (record manager_left { write_set = put_fd 5 false manager_left.write_set })
unfolding unwatch
unwatch_writing = refl

deleted_in_use_example :
    steps none lucky true json service
      (readable 5 ∷ sends ∷ [])
      (record (server leaving) { answers = (some 5, rejection) ∷ [] })
    ≡ stop (Stop.fault Fault.dangling)
deleted_in_use_example =
    deleted_in_use none lucky true json service 5 chan (server leaving) rejection [] refl left refl
      manager_left (record manager_left { write_set = put_fd 5 false manager_left.write_set })
      unwatch5 unwatch_writing

-- An answer of 1021 bytes, which takes two writes.
abbrev long : List ℕ
long = replicate 1021 65

abbrev asked : PollManager
asked = record manager { write_set = put_fd 5 true manager.write_set; watched_write_fds = 5 ∷ [] }

abbrev answered : PollManager
answered = record manager { write_set = put_fd 5 false asked.write_set; watched_write_fds = [] }

abbrev unread : PollManager
unread = record manager3 {
  read_set = put_fd 5 false manager.read_set;
  write_set = answered.write_set;
}

-- A client comes, and another one goes.
abbrev manager_next : PollManager
manager_next = record {
  highest = 7;
  read_set = put_fd 5 false (put_fd 7 true manager.read_set);
  write_set = put_fd 5 false manager.write_set;
  watched_read_fds = 7 ∷ 3 ∷ [];
  watched_write_fds = [];
}

abbrev next : PollServer ℕ
next = record (server leaving) {
  manager = manager_next;
  channels = (7, make_channel (record { reads = []; writes = []; sent = [] })) ∷ [];
}

coming_and_going :
    steps none lucky true json service (readable 3 ∷ readable 5 ∷ []) (record (server leaving) {
      accepts = (pos 7, record { reads = []; writes = []; sent = [] }) ∷ [];
    })
    ≡ ok next
unfolding steps find assign remove read watch unwatch Channel.close Channel.destroy_channel
coming_and_going = refl

steps-IsServing_example : IsServing next
steps-IsServing_example =
    steps-IsServing none lucky true json service (readable 3 ∷ readable 5 ∷ [])
      (record (server leaving) {
        accepts = (pos 7, record { reads = []; writes = []; sent = [] }) ∷ [];
      })
      next (server-IsServing leaving) coming_and_going
