-- ===== src/Poll/Server/Rounds.antt =====
-- A round of the loop as a sequence of events.
use json_rpc.Common.{ℕ, ◌≡◌, refl, sym, ◌∙◌, List, [], ◌∷◌, ◌++◌, map, Bool, Option}
use json_rpc.Errors.{◌>>=◌, bind_cong, bind_assoc}
use json_rpc.Json.{Json}
use json_rpc.Service.{Handlers}
use json_rpc.Poll.Manager.{Polled}
use json_rpc.Poll.Channel.{Machine}
use json_rpc.Poll.Server.{
  PollServer, Event, readable, writable, on_read, on_write, each, turn, step, steps,
}

module _ (fresh : Option ℕ) (mach : Machine) (aborts : Bool) {S : Type 0} (j : Json)
    (hs : Handlers S j.Value) where
  pub steps-append :
      (e e' : List Event) (s : PollServer S)
      → steps fresh mach aborts j hs (e ++ e') s
        ≡ (steps fresh mach aborts j hs e s >>= steps fresh mach aborts j hs e')
  unfolding steps
  steps-append [] e' s = refl
  steps-append (x ∷ e) e' s =
      bind_cong (step fresh mach aborts j hs x s) _ _ (steps-append e e')
      ∙ sym (
          bind_assoc (step fresh mach aborts j hs x s) (steps fresh mach aborts j hs e)
            (steps fresh mach aborts j hs e'))

  each-readable :
      (fds : List ℕ) (s : PollServer S)
      → each fresh mach aborts (on_read fresh mach aborts) fds s
        ≡ steps fresh mach aborts j hs (map readable fds) s
  unfolding each steps step
  each-readable [] s = refl
  each-readable (fd ∷ fds) s = bind_cong (on_read fresh mach aborts fd s) _ _ (each-readable fds)

  each-writable :
      (fds : List ℕ) (s : PollServer S)
      → each fresh mach aborts (on_write fresh mach aborts) fds s
        ≡ steps fresh mach aborts j hs (map writable fds) s
  unfolding each steps step
  each-writable [] s = refl
  each-writable (fd ∷ fds) s = bind_cong (on_write fresh mach aborts fd s) _ _ (each-writable fds)

  -- A round of the loop is one event for each descriptor that poll reported, the readable ones
  -- first.
  turn-steps :
      (p : Polled) (s : PollServer S)
      → turn fresh mach aborts p s
        ≡ steps fresh mach aborts j hs (map readable p.reads ++ map writable p.writes) s
  unfolding turn
  turn-steps p s =
      (λ i.
        each-readable p.reads s i >>= each fresh mach aborts (on_write fresh mach aborts) p.writes)
      ∙ bind_cong (steps fresh mach aborts j hs (map readable p.reads) s) _ _
          (each-writable p.writes)
      ∙ sym (steps-append (map readable p.reads) (map writable p.writes) s)
