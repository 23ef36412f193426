-- ===== src/Poll/Channel/Managed.antt =====
-- What a send does to the manager of the polls.
use json_rpc.Common.{ℕ, ◌≡◌, List, Bool, true, false, some, if◌then◌else◌, length, inl, inr, ◌⊎◌}
use json_rpc.Common.Int.{ℤ, int_of_size}
use json_rpc.Errors.{ok, stop, Stop, >>=-eq-ok}
use json_rpc.Buffer.Rdon.{RdonBuffer}
use json_rpc.Buffer.Rdon
use json_rpc.Poll.Manager.{PollManager, writing, watch}
use json_rpc.Poll.Channel.{
  Machine, State, write_ready, Channel, unlock, write, after_write, start_send, send,
}

after_write-manager :
    (mach : Machine) (sock : ℤ) (m : PollManager) (w : State × Channel) (r : Channel × PollManager)
    → after_write mach sock m w ≡ ok r
    → (r.1 ≡ m) ⊎ (watch sock writing m ≡ ok r.1)
unfolding after_write
after_write-manager mach sock m (write_ready, c) r e =
    let (c', u, e') = >>=-eq-ok (unlock mach c) _ r e in inl cc
after_write-manager mach sock m (_, c) r e =
    let (m', w, e') = >>=-eq-ok (watch sock writing m) _ r e in inr cc

start_send-manager :
    (mach : Machine) (sock : ℤ) (text : List ℕ) (c : Channel) (m : PollManager)
    (r : Channel × PollManager)
    → start_send mach sock text c m ≡ ok r
    → (r.1 ≡ m) ⊎ (watch sock writing m ≡ ok r.1)
unfolding start_send
start_send-manager mach sock text c m r e =
    let (b, _, e') = >>=-eq-ok (Rdon.make_sized_rdon text (int_of_size (length text))) _ r e in
    let (w, _, e'') =
      >>=-eq-ok (write mach (record c { send_locked = true; read_buffer = some b }))
        (after_write mach sock m) r e' in
    after_write-manager mach sock m w r e''

chosen : {A : Type 0} (b : Bool) (x y r : A) → (if b then x else y) ≡ r → (x ≡ r) ⊎ (y ≡ r)
chosen true x y r e = inl e
chosen false x y r e = inr e

-- What a send does to the manager.
pub send-manager :
    (mach : Machine) (sock : ℤ) (text : List ℕ) (c : Channel) (m : PollManager)
    (r : Channel × PollManager)
    → send mach sock text c m ≡ ok r
    → (r.1 ≡ m) ⊎ (watch sock writing m ≡ ok r.1)
unfolding send
send-manager mach sock text c m r e = elim (chosen c.send_locked (stop Stop.waiting) _ (ok r) e) [
  | inl l ↦ absurd (cc l)
  | inr l ↦ elim (chosen c.alive (start_send mach sock text c m) (ok (c, m)) (ok r) l) [
    | inl a ↦ start_send-manager mach sock text c m r a
    | inr a ↦ inl cc
  ]
]
