-- ===== src/Examples/Channels.antt =====
-- The manager of the polls and the channels at work.
use json_rpc.Common.{
  ℕ, ◌≡◌, ◌≢◌, refl, arith, inl, List, [], ◌∷◌, ◌++◌, map, none, some, true, false, All, length,
  ◌&&◌,
}
use json_rpc.Common.Int.{pos}
use json_rpc.Errors.{ok, stop, Stop, Fault, ◌>>=◌}
use json_rpc.Json.Sample.{json}
use json_rpc.Buffer.Memory.{c_text}
use json_rpc.Buffer.Words.{int_bytes}
use json_rpc.Buffer.Wron.{WronBuffer}
use json_rpc.Proto.{build_error}
use json_rpc.Stream.{got, Write}
use json_rpc.Stream.Sending.{write_fd_all}
use json_rpc.Poll.Manager.{
  PollManager, Polled, ready, contains, instance_, put_fd, reading, watch, unwatch, poll,
}
use json_rpc.Poll.Manager.Watching.{
  IsConsistent, instance_-IsConsistent, watch-IsConsistent, unwatch-IsConsistent,
}
use json_rpc.Poll.Manager.Polling.{poll_lem}
use json_rpc.Poll.Channel.{Machine, strict, State, Channel, make_channel, read, get_msg}
use json_rpc.Poll.Channel
use json_rpc.Poll.Channel.Receiving.{reads, during}
use json_rpc.Poll.Channel.Messages.{between, reads_message}
use json_rpc.Poll.Channel.Sending.{send-strict}

-- The listening socket 3 is watched, and the connection 5.
abbrev pub manager3 : PollManager
manager3 = record instance_ {
  highest = 3;
  read_set = put_fd 3 true instance_.read_set;
  watched_read_fds = 3 ∷ [];
}

abbrev pub manager : PollManager
manager = record manager3 {
  highest = 5;
  read_set = put_fd 5 true manager3.read_set;
  watched_read_fds = 5 ∷ 3 ∷ [];
}

watch3 : watch (pos 3) reading instance_ ≡ ok manager3
unfolding watch
watch3 = refl

watch5 : watch (pos 5) reading manager3 ≡ ok manager
unfolding watch
watch5 = refl

pub manager-IsConsistent : IsConsistent manager
manager-IsConsistent =
    watch-IsConsistent (pos 5) reading manager3 manager
      (watch-IsConsistent (pos 3) reading instance_ manager3 instance_-IsConsistent watch3) watch5

pub unwatch5 :
    unwatch (pos 5) reading manager
    ≡ ok (record manager3 { read_set = put_fd 5 false manager.read_set })
unfolding unwatch
unwatch5 = refl

unwatch-IsConsistent_example :
    IsConsistent (record manager3 { read_set = put_fd 5 false manager.read_set })
unwatch-IsConsistent_example =
    unwatch-IsConsistent (pos 5) reading manager
      (record manager3 { read_set = put_fd 5 false manager.read_set }) manager-IsConsistent unwatch5

poll_lem_example :
    (p : Polled) × (poll
        (ready (λ _. false) (λ _. false) ∷ ready (λ _. true) (λ _. true) ∷ [])
        manager
      ≡ ok p)
    × (p.success ≡ true)
    × ((i : ℕ) → contains i p.reads ≡ (contains i manager.watched_read_fds && true))
    × ((i : ℕ) → contains i p.writes ≡ (contains i manager.watched_write_fds && true))
poll_lem_example =
    poll_lem manager manager-IsConsistent (ready (λ _. false) (λ _. false) ∷ []) [] (λ _. true)
      (λ _. true) 5 ((λ i. ground arith, λ i. refl), tt) (inl refl)

-- A machine that is lucky, and one that is not.
abbrev pub lucky : Machine
lucky = record { beyond = some 0 ∷ []; slack = true; forgiving = true }

abbrev pub chan : Channel
chan = make_channel (record { reads = []; writes = Write.all ∷ Write.all ∷ []; sent = [] })

-- A text that is none, in two pieces.
abbrev pub text : List ℕ
text = 123 ∷ 124 ∷ []

abbrev pub arriving : Channel
arriving = between chan (got (int_bytes (pos 2)) ∷ (map got ((123 ∷ []) ∷ (124 ∷ []) ∷ []) ++ []))

abbrev pub rejection : List ℕ
rejection = build_error json 3

pub not_null : All (λ b. b ≢ 0) text
not_null = (λ e. ground arith, (λ e. ground arith, tt))

reads_message_example :
    (wr : WronBuffer) × (reads none 2 arriving ≡ (ok State.read_ready, during chan [] wr true))
    × (get_msg lucky (during chan [] wr true) ≡ (c_text (some 0 ∷ []) >>= λ bs. ok (text ++ bs)))
reads_message_example =
    reads_message none chan lucky text ((123 ∷ []) ∷ (124 ∷ []) ∷ []) [] (λ e. cc) (omega arith)
      not_null refl (λ e. cc, (λ e. cc, tt))

abbrev frame : List ℕ
frame = int_bytes (pos 2) ++ text

send-strict_example :
    Channel.send strict (pos 5) text chan manager ≡ stop (Stop.fault Fault.bad_unlock)
send-strict_example =
    send-strict chan (pos 5) text manager refl refl (λ e. cc) (omega arith) (pos (length frame))
      (record chan.stream { writes = Write.all ∷ []; sent = frame })
      (write_fd_all chan.stream frame (Write.all ∷ []) refl)
