-- ===== src/Poll/Server/Invariant.antt =====
-- Whatever happens, the loop goes on watching the sockets that it has.
use json_rpc.Common.{
  ℕ, ◌≡◌, ◌≢◌, refl, sym, ap, subst, ◌∙◌, arith, List, [], ◌∷◌, Bool, Option, none, some,
  Option-cases, Bool-cases, inl, inr, ◌==◌,
}
use json_rpc.Common.Int.{ℤ, pos, negsuc}
use json_rpc.Errors.{Result, ok, stop, log_fatal, ◌>>=◌, >>=-eq-ok}
use json_rpc.Json.{Json}
use json_rpc.Service.{Handlers, find, assign}
use json_rpc.Server.{reply}
use json_rpc.Server.Listen.{Answers, ServerConnector, listen}
use json_rpc.Stream.{Stream}
use json_rpc.Poll.Manager.{PollManager, instance_, reading, writing, watch, unwatch}
use json_rpc.Poll.Manager.Watching.{
  instance_-IsConsistent, watch-IsConsistent, contains-watch_reading,
}
use json_rpc.Poll.Channel.{
  Machine, State, broken, closed, read_pending, read_ready, write_pending, write_ready, Channel,
  make_channel, destroy_channel, clear_msg, get_msg,
}
use json_rpc.Poll.Channel
use json_rpc.Poll.Channel.Managed.{send-manager}
use json_rpc.Poll.Server.{
  Pointer, PollServer, remove, Event, readable, writable, takes, sends, accept_one, drop_channel,
  after_read, read_channel, on_read, after_write, write_channel, on_write, answer_job, take_job,
  send_to, send_answer, step, steps, watched_socket, start_server,
}
use json_rpc.Poll.Server.Watched.{
  Serves, IsServing, Serves-assign, Serves-accept, Serves-drop, Serves-watch_writing,
  Serves-unwatch_writing,
}

-- What holds of the state that is returned, if one is.
abbrev Kept : {S : Type 0} → Result (PollServer S) → Type 0
Kept (ok s) = IsServing s
Kept (stop e) = Unit

Kept-bind :
    {A S : Type 0} (m : Result A) (f : A → Result (PollServer S))
    → ((a : A) → m ≡ ok a → Kept (f a))
    → Kept (m >>= f)
Kept-bind (ok a) f h = h a refl
Kept-bind (stop e) f h = tt

module _ (fresh : Option ℕ) (mach : Machine) (aborts : Bool) {S : Type 0} where
  accept_one-Kept :
      (accepts : List (ℤ × Stream)) (s : PollServer S)
      → IsServing s
      → Kept (accept_one fresh mach aborts accepts s)
  unfolding accept_one
  accept_one-Kept [] s v = tt
  accept_one-Kept ((negsuc n, stream) ∷ accepts) s v = Kept-bind (log_fatal aborts) _ (λ _ _. tt)
  accept_one-Kept ((pos fd, stream) ∷ accepts) s v =
      Kept-bind (watch (pos fd) reading s.manager) _
        λ m w. Serves-accept s.sock fd s.manager s.channels v m (make_channel stream) w

  drop_channel-Kept :
      (fd : ℕ) (c : Channel) (s : PollServer S)
      → IsServing s
      → fd ≢ s.sock
      → Kept (drop_channel fresh mach aborts fd c s)
  unfolding drop_channel
  drop_channel-Kept fd c s v n = Kept-bind (Channel.close c) _ λ c' _.
      Kept-bind (unwatch (pos fd) reading s.manager) _ λ m w.
        Kept-bind (unwatch (pos fd) writing m) _ λ m' w'. Kept-bind (destroy_channel c') _ λ _ _.
          Serves-unwatch_writing s.sock fd m (remove fd s.channels)
            (Serves-drop s.sock fd s.manager s.channels v m n w) m' w'

  after_read-Kept :
      (fd : ℕ) (r : Result State × Channel) (s : PollServer S) (c : Channel)
      → IsServing s
      → fd ≢ s.sock
      → find fd s.channels ≡ some c
      → Kept (after_read fresh mach aborts fd r s)
  unfolding after_read
  after_read-Kept fd (stop e, c') s c v n f = tt
  after_read-Kept fd (ok read_ready, c') s c v n f =
      Serves-assign s.sock fd s.manager s.channels v c c' f
  after_read-Kept fd (ok closed, c') s c v n f = drop_channel-Kept fd c' s v n
  after_read-Kept fd (ok broken, c') s c v n f = drop_channel-Kept fd c' s v n
  after_read-Kept fd (ok _, c') s c v n f = Serves-assign s.sock fd s.manager s.channels v c c' f

  on_read-Kept : (fd : ℕ) (s : PollServer S) → IsServing s → Kept (on_read fresh mach aborts fd s)
  unfolding on_read read_channel
  on_read-Kept fd s v = elim (Bool-cases (fd == s.sock)) [
    | inl e ↦ rw e (accept_one-Kept s.accepts s v)
    | inr e ↦ elim (Option-cases (find fd s.channels)) [
      | inl f ↦ rw (e, f) v
      | inr (c, f) ↦
          rw (e, f) (after_read-Kept fd (Channel.read fresh c) s c v (λ q. ground (arith, e, q)) f)
    ]
  ]

  after_write-Kept :
      (fd : ℕ) (r : State × Channel) (s : PollServer S) (c : Channel)
      → IsServing s
      → find fd s.channels ≡ some c
      → Kept (after_write fresh mach aborts fd r s)
  unfolding after_write
  after_write-Kept fd (write_ready, c') s c v f =
      Kept-bind (unwatch (pos fd) writing s.manager) _ λ m w.
        Serves-unwatch_writing s.sock fd s.manager (assign fd c' s.channels)
          (Serves-assign s.sock fd s.manager s.channels v c c' f) m w
  after_write-Kept fd (_, c') s c v f = Serves-assign s.sock fd s.manager s.channels v c c' f

  on_write-Kept : (fd : ℕ) (s : PollServer S) → IsServing s → Kept (on_write fresh mach aborts fd s)
  unfolding on_write write_channel
  on_write-Kept fd s v = elim (Option-cases (find fd s.channels)) [
    | inl f ↦ rw f v
    | inr (c, f) ↦ rw f (Kept-bind (Channel.write mach c) _ λ r _. after_write-Kept fd r s c v f)
  ]

  module _ (j : Json) (hs : Handlers S j.Value) where
    take_job-Kept :
        (jobs : List Pointer) (s : PollServer S)
        → IsServing s
        → Kept (take_job fresh mach aborts j hs jobs s)
    unfolding take_job answer_job
    take_job-Kept [] s v = v
    take_job-Kept (none ∷ jobs) s v = tt
    take_job-Kept (some fd ∷ jobs) s v = elim (Option-cases (find fd s.channels)) [
      | inl f ↦ rw f tt
      | inr (c, f) ↦ rw f (
          Kept-bind (get_msg mach c) _ λ msg _.
            Kept-bind (reply j hs msg s.service).0 _
              λ text _. Serves-assign s.sock fd s.manager s.channels v c (clear_msg c) f)
    ]

    send_answer-Kept :
        (answers : List (Pointer × List ℕ)) (s : PollServer S)
        → IsServing s
        → Kept (send_answer fresh mach aborts j hs answers s)
    unfolding send_answer send_to
    send_answer-Kept [] s v = v
    send_answer-Kept ((none, text) ∷ answers) s v = tt
    send_answer-Kept ((some fd, text) ∷ answers) s v = elim (Option-cases (find fd s.channels)) [
      | inl f ↦ rw f tt
      | inr (c, f) ↦ rw f (
          Kept-bind (Channel.send mach (pos fd) text c s.manager) _ λ r e.
            elim (send-manager mach (pos fd) text c s.manager r e) [
              | inl same ↦
                  subst (λ m. Serves s.sock m (assign fd r.0 s.channels)) (sym same)
                    (Serves-assign s.sock fd s.manager s.channels v c r.0 f)
              | inr w ↦
                  Serves-watch_writing s.sock fd s.manager (assign fd r.0 s.channels)
                    (Serves-assign s.sock fd s.manager s.channels v c r.0 f) r.1 w
            ])
    ]

    step-Kept :
        (e : Event) (s : PollServer S) → IsServing s → Kept (step fresh mach aborts j hs e s)
    unfolding step
    step-Kept (readable fd) s v = on_read-Kept fd s v
    step-Kept (writable fd) s v = on_write-Kept fd s v
    step-Kept takes s v = take_job-Kept s.jobs s v
    step-Kept sends s v = send_answer-Kept s.answers s v

    -- If the manager of the polls is consistent and watches for reading exactly the listening
    -- socket and the descriptors with a channel, then this still holds after any events, new
    -- connections, ends of channels, reads, writes and answers, after which the server goes on.
    pub steps-IsServing :
        (events : List Event) (s s' : PollServer S)
        → IsServing s
        → steps fresh mach aborts j hs events s ≡ ok s'
        → IsServing s'
    unfolding steps
    steps-IsServing [] s s' v e = subst Kept e v
    steps-IsServing (x ∷ events) s s' v e =
        let (t, first, rest) =
          >>=-eq-ok (step fresh mach aborts j hs x s) (steps fresh mach aborts j hs events) s' e in
        steps-IsServing events t s' (subst Kept first (step-Kept x s v)) rest

watched_socket-Serves :
    (r : Result ℤ × ServerConnector) (c : ServerConnector) (m : PollManager) (sock : ℕ)
    → c.sock ≡ pos sock
    → watched_socket r instance_ ≡ ok (c, m)
    → Serves sock m []
unfolding watched_socket find
watched_socket-Serves (stop e, c') c m sock a h = absurd (cc h)
watched_socket-Serves (ok n, c') c m sock a h =
    let (t, w, e) = >>=-eq-ok (watch c'.sock reading instance_) _ (c, m) h in
    let w' : watch (pos sock) reading instance_ ≡ ok m =
      subst (λ x. watch x reading instance_ ≡ ok m)
        (ap (λ r. elim r [ ok p ↦ p.0.sock | stop _ ↦ pos 0 ]) e ∙ a)
        (w ∙ ap ok (ap (λ r. elim r [ ok p ↦ p.1 | stop _ ↦ m ]) e)) in
    record {
      consistent = watch-IsConsistent (pos sock) reading instance_ m instance_-IsConsistent w';
      watched = λ i. contains-watch_reading sock i instance_ m w';
    }

-- A server that has just started, in a program without another one, watches its socket.
start_server-Serves :
    (a : Answers) (c c' : ServerConnector) (m : PollManager) (sock : ℕ)
    → c'.sock ≡ pos sock
    → start_server a c instance_ ≡ ok (c', m)
    → Serves sock m []
unfolding start_server
start_server-Serves a c c' m sock e h = watched_socket-Serves (listen a c) c' m sock e h
