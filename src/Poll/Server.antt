-- ===== src/Poll/Server.antt =====
-- class PollServer of src/json-rpc/pollserver.cpp. One thread runs the loop over the ready
-- descriptors; the threads of the pool answer the messages. What they do to the shared state is
-- taken one step at a time, as events.
pub mod Watched
pub mod Invariant
pub mod Rounds
pub mod Answering
pub mod Remote
pub mod Closing
pub mod Isolation
pub mod Stopping
use json_rpc.Common.{
  ℕ, List, [], ◌∷◌, ◌++◌, map, Bool, true, false, Option, none, some, ◌==◌, if◌then◌else◌,
}
use json_rpc.Common.Int.{ℤ, pos, negsuc}
use json_rpc.Errors.{Result, ok, stop, Stop, Fault, log_fatal, ◌>>=◌}
use json_rpc.Json.{Json}
use json_rpc.Service.{Handlers, find, assign}
use json_rpc.Server.{reply}
use json_rpc.Server.Listen.{Answers, ServerConnector, listen}
use json_rpc.Stream.{Stream}
use json_rpc.Poll.Manager.{PollManager, Polled, reading, writing, watch, unwatch}
use json_rpc.Poll.Channel.{
  Machine, State, broken, closed, read_ready, write_ready, Channel, make_channel, destroy_channel,
  clear_msg, get_msg,
}
use json_rpc.Poll.Channel

-- A `Channel*`: the descriptor of its channel, or `none` once the channel is deleted.
abbrev pub Pointer : Type 0
Pointer = Option ℕ

-- `accepts` are the results of accept to come, with the new streams, `jobs` the channels given to
-- the thread pool, and `answers` the texts that its threads are about to send, with their channels.
-- `service` is the state of the user's service.
pub record PollServer (S : Type 0) : Type 0 where
  pub sock : ℕ
  pub manager : PollManager
  pub channels : List (ℕ × Channel)
  pub stopped : Bool
  pub accepts : List (ℤ × Stream)
  pub jobs : List Pointer
  pub answers : List (Pointer × List ℕ)
  pub service : S

-- _channels.erase(fd)
unfoldable pub remove {ℓ} : {A : Type ℓ} → ℕ → List (ℕ × A) → List (ℕ × A)
remove fd [] = []
remove fd ((i, c) ∷ cs) = if i == fd then remove fd cs else (i, c) ∷ remove fd cs

-- What delete makes of a pointer to a channel.
unfoldable pub deleted : ℕ → Pointer → Pointer
deleted fd none = none
deleted fd (some i) = if i == fd then none else some i

pub data Event : Type 0 where
  readable : ℕ → Event
  writable : ℕ → Event
  takes : Event  -- a thread of the pool takes a job and answers its message
  sends : Event  -- a thread of the pool sends the answer

module _ (fresh : Option ℕ) (mach : Machine) (aborts : Bool) {S : Type 0} where
  -- The new connection of the loop.
  accept_one : List (ℤ × Stream) → PollServer S → Result (PollServer S)
  accept_one [] s = stop Stop.waiting
  accept_one ((negsuc n, stream) ∷ accepts) s =
      log_fatal aborts >>= λ _. stop (Stop.fault Fault.overrun)
  accept_one ((pos fd, stream) ∷ accepts) s = do
    m ← watch (pos fd) reading s.manager
    ok (record s {
      manager = m;
      channels = assign fd (make_channel stream) s.channels;
      accepts = accepts;
    })

  -- The end of a channel.
  drop_channel : ℕ → Channel → PollServer S → Result (PollServer S)
  drop_channel fd c s = do
    c' ← Channel.close c
    m ← unwatch (pos fd) reading s.manager
    m' ← unwatch (pos fd) writing m
    _ ← destroy_channel c'
    ok (record s {
      manager = m';
      channels = remove fd s.channels;
      jobs = map (deleted fd) s.jobs;
      answers = map (λ (p, text). (deleted fd p, text)) s.answers;
    })

  -- What is done about the state that read returned.
  after_read : ℕ → Result State × Channel → PollServer S → Result (PollServer S)
  unfolding drop_channel
  after_read fd (stop e, c) s = stop e
  after_read fd (ok read_ready, c) s =
      ok (record s { channels = assign fd c s.channels; jobs = s.jobs ++ some fd ∷ [] })
  after_read fd (ok closed, c) s = drop_channel fd c s
  after_read fd (ok broken, c) s = drop_channel fd c s
  after_read fd (ok _, c) s = ok (record s { channels = assign fd c s.channels })

  read_channel : ℕ → Option Channel → PollServer S → Result (PollServer S)
  unfolding after_read
  read_channel fd none s = ok s
  read_channel fd (some c) s = after_read fd (Channel.read fresh c) s

  -- The body of the loop over the readable descriptors.
  unfoldable pub on_read : ℕ → PollServer S → Result (PollServer S)
  unfolding accept_one read_channel
  on_read fd s =
      if fd == s.sock then accept_one s.accepts s else read_channel fd (find fd s.channels) s

  after_write : ℕ → State × Channel → PollServer S → Result (PollServer S)
  after_write fd (write_ready, c) s = do
    m ← unwatch (pos fd) writing s.manager
    ok (record s { manager = m; channels = assign fd c s.channels })
  after_write fd (_, c) s = ok (record s { channels = assign fd c s.channels })

  write_channel : ℕ → Option Channel → PollServer S → Result (PollServer S)
  unfolding after_write
  write_channel fd none s = ok s
  write_channel fd (some c) s = Channel.write mach c >>= λ r. after_write fd r s

  -- The body of the loop over the writable descriptors.
  unfoldable pub on_write : ℕ → PollServer S → Result (PollServer S)
  unfolding write_channel
  on_write fd s = write_channel fd (find fd s.channels) s

  each : (ℕ → PollServer S → Result (PollServer S)) → List ℕ → PollServer S → Result (PollServer S)
  each body [] s = ok s
  each body (fd ∷ fds) s = body fd s >>= each body fds

  -- One round of PollServer::loop, with what poll reported.
  unfoldable pub turn : Polled → PollServer S → Result (PollServer S)
  unfolding each
  turn p s = each on_read p.reads s >>= each on_write p.writes

  module _ (j : Json) (hs : Handlers S j.Value) where
    -- _handle_request up to the answer.
    answer_job : ℕ → Option Channel → PollServer S → Result (PollServer S)
    answer_job fd none s = stop (Stop.fault Fault.dangling)
    answer_job fd (some c) s = do
      msg ← get_msg mach c
      let r = reply j hs msg s.service
      text ← r.0
      ok (record s {
        channels = assign fd (clear_msg c) s.channels;
        answers = s.answers ++ (some fd, text) ∷ [];
        service = r.1;
      })

    take_job : List Pointer → PollServer S → Result (PollServer S)
    unfolding answer_job
    take_job [] s = ok s
    take_job (none ∷ jobs) s = stop (Stop.fault Fault.dangling)
    take_job (some fd ∷ jobs) s = answer_job fd (find fd s.channels) (record s { jobs = jobs })

    -- chan->send(msg)
    send_to : ℕ → List ℕ → Option Channel → PollServer S → Result (PollServer S)
    send_to fd text none s = stop (Stop.fault Fault.dangling)
    send_to fd text (some c) s = do
      r ← Channel.send mach (pos fd) text c s.manager
      ok (record s { manager = r.1; channels = assign fd r.0 s.channels })

    send_answer : List (Pointer × List ℕ) → PollServer S → Result (PollServer S)
    unfolding send_to
    send_answer [] s = ok s
    send_answer ((none, text) ∷ answers) s = stop (Stop.fault Fault.dangling)
    send_answer ((some fd, text) ∷ answers) s =
        send_to fd text (find fd s.channels) (record s { answers = answers })

    unfoldable pub step : Event → PollServer S → Result (PollServer S)
    unfolding on_read on_write take_job send_answer
    step (readable fd) s = on_read fd s
    step (writable fd) s = on_write fd s
    step takes s = take_job s.jobs s
    step sends s = send_answer s.answers s

    unfoldable pub steps : List Event → PollServer S → Result (PollServer S)
    unfolding step
    steps [] s = ok s
    steps (e ∷ events) s = step e s >>= steps events

-- PollServer(port), with the socket that `start` will open. There is no service yet.
abbrev pub make_poll_server : {S : Type 0} → ℕ → PollManager → List (ℤ × Stream) → S → PollServer S
make_poll_server sock manager accepts service = record {
  sock = sock;
  manager = manager;
  channels = [];
  stopped = false;
  accepts = accepts;
  jobs = [];
  answers = [];
  service = service;
}

-- PollServer::_close_channels and stop. The channels leave the map without being deleted; what the
-- pool does with pointers to them is not followed.
close_all {ℓ} : {A : Type ℓ} → List (A × Channel) → Result (Unit {0})
close_all [] = ok tt
close_all ((i, c) ∷ cs) = do _ ← if c.alive then Channel.close c else ok c; close_all cs

unfoldable pub stop_server : {S : Type 0} → PollServer S → Result (PollServer S)
unfolding close_all
stop_server s = do _ ← close_all s.channels; ok (record s { channels = []; stopped = true })

-- ~PollServer
unfoldable pub destroy_server : {S : Type 0} → PollServer S → Result (PollServer S)
unfolding stop_server
destroy_server s = if s.stopped then ok s else stop_server s

-- PollServer::start behind _listen, without a look at what it returned.
watched_socket : Result ℤ × ServerConnector → PollManager → Result (ServerConnector × PollManager)
watched_socket (stop e, c) m = stop e
watched_socket (ok _, c) m = do m' ← watch c.sock reading m; ok (record c { looping = true }, m')

-- PollServer::start
unfoldable pub start_server :
    Answers → ServerConnector → PollManager → Result (ServerConnector × PollManager)
unfolding watched_socket
start_server a c m = watched_socket (listen a c) m
