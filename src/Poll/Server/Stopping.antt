-- ===== src/Poll/Server/Stopping.antt =====
-- The end of a polling server.
use json_rpc.Common.{
  ℕ, ◌≡◌, refl, ap, List, [], ◌∷◌, Bool, true, false, All, Option, none, some, ◌==◌, Bool-cases,
  inl, inr,
}
use json_rpc.Errors.{ok, stop, Stop, ◌>>=◌}
use json_rpc.Json.{Json}
use json_rpc.Service.{Handlers, find}
use json_rpc.Poll.Channel.{Machine, Channel}
use json_rpc.Poll.Channel
use json_rpc.Poll.Server.{
  PollServer, Event, readable, writable, takes, sends, on_read, read_channel, on_write,
  write_channel, close_all, stop_server, destroy_server, step, steps,
}

-- The server without its channels.
abbrev pub emptied : {S : Type 0} → PollServer S → PollServer S
emptied s = record s { channels = []; stopped = true }

-- No answer is sent in part.
abbrev pub IsQuiet : {A : Type 0} → List (A × Channel) → Type 0
IsQuiet cs = All (λ (_, c). c.send_locked ≡ false) cs

close_all-quiet : {A : Type 0} (cs : List (A × Channel)) → IsQuiet cs → close_all cs ≡ ok tt
unfolding close_all Channel.close
close_all-quiet [] h = refl
close_all-quiet ((i, c) ∷ cs) h = elim (Bool-cases c.alive) [
  | inl a ↦ rw (a, h.0) (close_all-quiet cs h.1)
  | inr a ↦ rw a (close_all-quiet cs h.1)
]

-- An event of the loop on a descriptor other than the listening socket.
abbrev pub IsPolled : ℕ → Event → Type 0
IsPolled sock (readable fd) = (fd == sock) ≡ false
IsPolled sock (writable fd) = Unit
IsPolled sock _ = ⊥

module _ (fresh : Option ℕ) (mach : Machine) (aborts : Bool) {S : Type 0} (j : Json)
    (hs : Handlers S j.Value) where
  steps-emptied :
      (events : List Event) (s : PollServer S)
      → All (IsPolled s.sock) events
      → steps fresh mach aborts j hs events (emptied s) ≡ ok (emptied s)
  unfolding steps step on_read read_channel on_write write_channel find
  steps-emptied [] s h = refl
  steps-emptied (readable fd ∷ events) s h = rw h.0 (steps-emptied events s h.1)
  steps-emptied (writable fd ∷ events) s h = steps-emptied events s h.1
  steps-emptied (takes ∷ events) s h = elim h.0 [ ]
  steps-emptied (sends ∷ events) s h = elim h.0 [ ]

  -- If no answer is sent in part, stop of the polling server returns, and after that any events
  -- that find other descriptors than the listening socket readable or writable, and the destructor,
  -- change nothing any more.
  pub steps-stop_server :
      (events : List Event) (s : PollServer S)
      → IsQuiet s.channels
      → All (IsPolled s.sock) events
      → (stop_server s >>= λ s'. steps fresh mach aborts j hs events s' >>= destroy_server)
        ≡ ok (emptied s)
  unfolding stop_server destroy_server
  steps-stop_server events s q h =
      rw (stop_server, close_all-quiet s.channels q, steps-emptied events s h) refl

close_all-locked :
    (cs : List (ℕ × Channel)) (fd : ℕ) (c : Channel)
    → find fd cs ≡ some c
    → c.alive ≡ true
    → c.send_locked ≡ true
    → close_all cs ≡ stop Stop.waiting
unfolding close_all Channel.close find
close_all-locked [] fd c f a l = cc
close_all-locked ((i, c') ∷ cs) fd c f a l = elim (Bool-cases (i == fd)) [
  | inl e ↦ let same : c' ≡ c = some_inj c' c (rw e at f) in rw (same, a, l) refl
  | inr e ↦
      let again = close_all-locked cs fd c (rw e at f) a l in
      elim (Bool-cases c'.alive) [
        | inl a' ↦ elim (Bool-cases c'.send_locked) [
          | inl l' ↦ rw (a', l') refl
          | inr l' ↦ rw (a', l') again
        ]
        | inr a' ↦ rw a' again
      ]
]
  where
    some_inj : (x y : Channel) → some x ≡ some y → x ≡ y
    some_inj x y q = ap (λ o. elim o [ none ↦ x | some z ↦ z ]) q

-- If an answer on a channel that is alive is sent in part, stop waits for the lock of that send,
-- which only the loop releases.
pub stop_server-locked :
    {S : Type 0} (s : PollServer S) (fd : ℕ) (c : Channel)
    → find fd s.channels ≡ some c
    → c.alive ≡ true
    → c.send_locked ≡ true
    → stop_server s ≡ stop Stop.waiting
unfolding stop_server
stop_server-locked s fd c f a l = rw (stop_server, close_all-locked s.channels fd c f a l) refl
