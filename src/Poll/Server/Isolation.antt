-- ===== src/Poll/Server/Isolation.antt =====
-- What the events on one connection do to the others.
use json_rpc.Common.{
  ℕ, ◌≡◌, refl, subst, ◌∙◌, arith, List, [], ◌∷◌, Bool, true, false, not, ◌&&◌, Option, none, some,
  Option-cases, Bool-cases, inl, inr, ◌==◌, if◌then◌else◌,
}
use json_rpc.Common.Int.{ℤ, pos, negsuc}
use json_rpc.Errors.{Result, Result-cases, ok, stop, log_fatal, ◌>>=◌}
use json_rpc.Json.{Json}
use json_rpc.Service.{Handlers, find, assign}
use json_rpc.Service.Dispatch.{find-assign}
use json_rpc.Server.{reply}
use json_rpc.Stream.{Stream}
use json_rpc.Poll.Manager.{reading, writing, watch, unwatch}
use json_rpc.Poll.Channel.{
  Machine, State, broken, closed, read_ready, write_ready, Channel, destroy_channel, clear_msg,
  get_msg,
}
use json_rpc.Poll.Channel
use json_rpc.Poll.Server.{
  Pointer, PollServer, remove, Event, readable, writable, takes, sends, accept_one, drop_channel,
  after_read, read_channel, on_read, after_write, write_channel, on_write, answer_job, take_job,
  send_to, send_answer, step, steps,
}

-- Whether an event is for the channel of the descriptor: one that finds it readable or writable, a
-- new connection that has this descriptor, or a thread that takes or answers its message.
abbrev pub accepts_on : ℕ → List (ℤ × Stream) → Bool
accepts_on i ((pos fd, stream) ∷ accepts) = fd == i
accepts_on i _ = false

abbrev pub points_to : ℕ → Pointer → Bool
points_to i none = false
points_to i (some fd) = fd == i

abbrev pub job_of : ℕ → List Pointer → Bool
job_of i [] = false
job_of i (p ∷ jobs) = points_to i p

abbrev pub answer_of : ℕ → List (Pointer × List ℕ) → Bool
answer_of i [] = false
answer_of i ((p, text) ∷ answers) = points_to i p

abbrev pub concerns : {S : Type 0} → ℕ → Event → PollServer S → Bool
concerns i (readable fd) s = if fd == s.sock then accepts_on i s.accepts else fd == i
concerns i (writable fd) s = fd == i
concerns i takes s = job_of i s.jobs
concerns i sends s = answer_of i s.answers

-- The channel of i in the state that is returned, if one is, is the one before.
abbrev Same : {S : Type 0} → ℕ → PollServer S → Result (PollServer S) → Type 0
Same i s (ok s') = find i s'.channels ≡ find i s.channels
Same i s (stop e) = Unit

Same-bind :
    {A S : Type 0} (i : ℕ) (s : PollServer S) (m : Result A) (f : A → Result (PollServer S))
    → ((a : A) → Same i s (f a))
    → Same i s (m >>= f)
Same-bind i s (ok a) f h = h a
Same-bind i s (stop e) f h = tt

Same-Same :
    {S : Type 0} (i : ℕ) (s s' : PollServer S) (m : Result (PollServer S))
    → Same i s' m
    → Same i s (ok s')
    → Same i s m
Same-Same i s s' (ok s'') h h' = h ∙ h'
Same-Same i s s' (stop e) h h' = tt

find-assign_other :
    {A : Type 0} (fd i : ℕ) (c : A) (cs : List (ℕ × A))
    → (fd == i) ≡ false
    → find i (assign fd c cs) ≡ find i cs
find-assign_other fd i c cs e = rw (find-assign fd i c cs, e) refl

find-remove_other :
    {A : Type 0} (fd i : ℕ) (cs : List (ℕ × A))
    → (fd == i) ≡ false
    → find i (remove fd cs) ≡ find i cs
unfolding find remove
find-remove_other fd i [] e = refl
find-remove_other fd i ((k, c) ∷ cs) e = ground (arith, find-remove_other fd i cs e)

module _ (fresh : Option ℕ) (mach : Machine) (aborts : Bool) {S : Type 0} (i : ℕ) where
  accept_one-Same :
      (accepts : List (ℤ × Stream)) (s : PollServer S)
      → accepts_on i accepts ≡ false
      → Same i s (accept_one fresh mach aborts accepts s)
  unfolding accept_one
  accept_one-Same [] s e = tt
  accept_one-Same ((negsuc n, stream) ∷ accepts) s e = Same-bind i s (log_fatal aborts) _ λ _. tt
  accept_one-Same ((pos fd, stream) ∷ accepts) s e =
      Same-bind i s (watch (pos fd) reading s.manager) _ λ m. find-assign_other fd i _ s.channels e

  drop_channel-Same :
      (fd : ℕ) (c : Channel) (s : PollServer S)
      → (fd == i) ≡ false
      → Same i s (drop_channel fresh mach aborts fd c s)
  unfolding drop_channel
  drop_channel-Same fd c s e = Same-bind i s (Channel.close c) _ λ c'.
      Same-bind i s (unwatch (pos fd) reading s.manager) _ λ m.
        Same-bind i s (unwatch (pos fd) writing m) _
          λ m'. Same-bind i s (destroy_channel c') _ λ _. find-remove_other fd i s.channels e

  after_read-Same :
      (fd : ℕ) (r : Result State × Channel) (s : PollServer S)
      → (fd == i) ≡ false
      → Same i s (after_read fresh mach aborts fd r s)
  unfolding after_read
  after_read-Same fd (stop x, c) s e = tt
  after_read-Same fd (ok read_ready, c) s e = find-assign_other fd i c s.channels e
  after_read-Same fd (ok closed, c) s e = drop_channel-Same fd c s e
  after_read-Same fd (ok broken, c) s e = drop_channel-Same fd c s e
  after_read-Same fd (ok _, c) s e = find-assign_other fd i c s.channels e

  on_read-Same :
      (fd : ℕ) (s : PollServer S)
      → concerns i (readable fd) s ≡ false
      → Same i s (on_read fresh mach aborts fd s)
  unfolding on_read read_channel
  on_read-Same fd s = elim (Bool-cases (fd == s.sock)) [
    | inl q ↦ rw q (accept_one-Same s.accepts s)
    | inr q ↦ rw q λ e. elim (Option-cases (find fd s.channels)) [
      | inl f ↦ rw f refl
      | inr (c, f) ↦ rw f (after_read-Same fd (Channel.read fresh c) s e)
    ]
  ]

  after_write-Same :
      (fd : ℕ) (r : State × Channel) (s : PollServer S)
      → (fd == i) ≡ false
      → Same i s (after_write fresh mach aborts fd r s)
  unfolding after_write
  after_write-Same fd (write_ready, c) s e =
      Same-bind i s (unwatch (pos fd) writing s.manager) _
        λ m. find-assign_other fd i c s.channels e
  after_write-Same fd (_, c) s e = find-assign_other fd i c s.channels e

  on_write-Same :
      (fd : ℕ) (s : PollServer S) → (fd == i) ≡ false → Same i s (on_write fresh mach aborts fd s)
  unfolding on_write write_channel
  on_write-Same fd s e = elim (Option-cases (find fd s.channels)) [
    | inl f ↦ rw f refl
    | inr (c, f) ↦ rw f (Same-bind i s (Channel.write mach c) _ λ r. after_write-Same fd r s e)
  ]

  module _ (j : Json) (hs : Handlers S j.Value) where
    take_job-Same :
        (jobs : List Pointer) (s : PollServer S)
        → job_of i jobs ≡ false
        → Same i s (take_job fresh mach aborts j hs jobs s)
    unfolding take_job answer_job
    take_job-Same [] s e = refl
    take_job-Same (none ∷ jobs) s e = tt
    take_job-Same (some fd ∷ jobs) s e = elim (Option-cases (find fd s.channels)) [
      | inl f ↦ rw f tt
      | inr (c, f) ↦ rw f (
          Same-bind i s (get_msg mach c) _ λ msg.
            Same-bind i s (reply j hs msg s.service).0 _
              λ text. find-assign_other fd i (clear_msg c) s.channels e)
    ]

    send_answer-Same :
        (answers : List (Pointer × List ℕ)) (s : PollServer S)
        → answer_of i answers ≡ false
        → Same i s (send_answer fresh mach aborts j hs answers s)
    unfolding send_answer send_to
    send_answer-Same [] s e = refl
    send_answer-Same ((none, text) ∷ answers) s e = tt
    send_answer-Same ((some fd, text) ∷ answers) s e = elim (Option-cases (find fd s.channels)) [
      | inl f ↦ rw f tt
      | inr (c, f) ↦ rw f (
          Same-bind i s (Channel.send mach (pos fd) text c s.manager) _
            λ r. find-assign_other fd i r.0 s.channels e)
    ]

    step-Same :
        (e : Event) (s : PollServer S)
        → concerns i e s ≡ false
        → Same i s (step fresh mach aborts j hs e s)
    unfolding step
    step-Same (readable fd) s e = on_read-Same fd s e
    step-Same (writable fd) s e = on_write-Same fd s e
    step-Same takes s e = take_job-Same s.jobs s e
    step-Same sends s e = send_answer-Same s.answers s e

    -- Whether none of the events, as the server goes through them, is for the channel of i.
    unfoldable pub spares : List Event → PollServer S → Bool
    spares [] s = true
    spares (e ∷ events) s =
        not (concerns i e s)
        && elim (step fresh mach aborts j hs e s) [ stop x ↦ true | ok s' ↦ spares events s' ]

    steps-Same :
        (events : List Event) (s : PollServer S)
        → spares events s ≡ true
        → Same i s (steps fresh mach aborts j hs events s)
    unfolding steps spares
    steps-Same [] s = λ e. refl
    steps-Same (x ∷ events) s = elim (Bool-cases (concerns i x s)) [
      | inl q ↦ rw q (λ e. absurd cc)
      | inr q ↦ elim (Result-cases (step fresh mach aborts j hs x s)) [
        | inl (y, r) ↦ rw r (λ e. tt)
        | inr (s', r) ↦
            rw (q, r)
              (λ e.
                Same-Same i s s' (steps fresh mach aborts j hs events s') (steps-Same events s' e)
                  (subst (Same i s) r (step-Same x s q)))
      ]
    ]

    -- If the polling server gets through any events, none of which, at its turn, finds the
    -- descriptor i readable or writable, gives it to a new connection, or has a thread take or
    -- answer a message of its channel, then the channel of i is as before, whatever the other
    -- clients sent, however they ended, and whatever the handlers did.
    pub steps-find :
        (events : List Event) (s s' : PollServer S)
        → spares events s ≡ true
        → steps fresh mach aborts j hs events s ≡ ok s'
        → find i s'.channels ≡ find i s.channels
    steps-find events s s' h e = subst (Same i s) e (steps-Same events s h)
