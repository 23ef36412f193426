-- ===== src/Client/Retry.antt =====
-- How often a call is sent, and when it returns.
use native.Mathlib.Nat.{add-zero}
use json_rpc.Common.{ℕ, zero, suc, ◌+◌, ◌≤◌, ◌≡◌, refl, ◌∙◌, arith, List, none, some}
use json_rpc.Errors.{Result, ok, Exception, throw, ◌>>=◌}
use json_rpc.Client.{Connector, Reaction, reconnects, counts, passes, round, call_loop}

module _ {A S : Type 0} (c : Connector S) (catch : Exception → Reaction) (parse : List ℕ → Result A)
    (msg : List ℕ) where
  -- Sending fails n times in a row with an exception that the loop counts, from s to s'.
  abbrev pub Fails : ℕ → S → S → Type 0
  Fails zero s s' = s ≡ s'
  Fails (suc n) s s' =
      (e : Exception) × (t : S) × (c.send_and_response msg s ≡ (throw e, t))
      × (catch e ≡ counts)
      × Fails n t s'

  round-answered :
      (s s' : S) (r : Result (List ℕ))
      → c.send_and_response msg s ≡ (r, s')
      → round c catch parse msg s ≡ (r >>= parse, s')
  unfolding round
  round-answered s s' r e = rw e

  pub call_loop-ok :
      (fuel tried : ℕ) (s s' : S) (a : A)
      → round c catch parse msg s ≡ (ok a, s')
      → call_loop c catch parse msg (suc fuel) tried s
        ≡ some (record { outcome = ok a; tried = tried; conn = s' })
  unfolding call_loop
  call_loop-ok fuel tried s s' a e = rw e

  call_loop-counts :
      (fuel tried : ℕ) (s s' : S) (x : Exception)
      → round c catch parse msg s ≡ (throw x, s')
      → catch x ≡ counts
      → call_loop c catch parse msg (suc fuel) tried s
        ≡ call_loop c catch parse msg fuel (tried + 1) s'
  unfolding call_loop
  call_loop-counts fuel tried s s' x e k = rw (e, k)

  pub round-ok :
      (s s' : S) (text : List ℕ) (a : A)
      → c.send_and_response msg s ≡ (ok text, s')
      → parse text ≡ ok a
      → round c catch parse msg s ≡ (ok a, s')
  unfolding round
  round-ok s s' text a e p = rw (e, p)

  pub call_loop-passes :
      (fuel tried : ℕ) (s s' : S) (x : Exception)
      → round c catch parse msg s ≡ (throw x, s')
      → catch x ≡ passes
      → call_loop c catch parse msg (suc fuel) tried s
        ≡ some (record { outcome = throw x; tried = tried; conn = s' })
  unfolding call_loop
  call_loop-passes fuel tried s s' x e k = rw (e, k)

  call_loop-reconnects :
      (fuel tried : ℕ) (s s' s'' : S) (x : Exception)
      → round c catch parse msg s ≡ (throw x, s')
      → catch x ≡ reconnects
      → c.reconnect s' ≡ (ok tt, s'')
      → call_loop c catch parse msg (suc fuel) tried s ≡ call_loop c catch parse msg fuel tried s''
  unfolding call_loop
  call_loop-reconnects fuel tried s s' s'' x e k q = rw (e, k, q)

  call_loop-zero :
      (tried : ℕ) (s : S) (fuel : ℕ) → fuel ≤ 0 → call_loop c catch parse msg fuel tried s ≡ none
  unfolding call_loop
  call_loop-zero tried s zero h = refl
  call_loop-zero tried s (suc fuel) h = absurd (omega arith)

  -- n failures and then an answer: the loop ends with the answer in round n + 1, having counted n,
  -- and it has not ended before.
  pub call_loop-Fails :
      (n tried : ℕ) (s s' : S)
      → Fails n s s'
      → ((fuel : ℕ) (s'' : S) (a : A)
          → round c catch parse msg s' ≡ (ok a, s'')
          → call_loop c catch parse msg (n + suc fuel) tried s
            ≡ some (record { outcome = ok a; tried = tried + n; conn = s'' }))
        × ((fuel : ℕ) → fuel ≤ n → call_loop c catch parse msg fuel tried s ≡ none)
  call_loop-Fails zero tried s s' f = (
    λ fuel s'' a e.
        let z : 0 + suc fuel ≡ suc fuel = omega arith in
        rw (z, add-zero) (call_loop-ok fuel tried s s'' a (rw f e)),
    call_loop-zero tried s,
  )
  call_loop-Fails (suc n) tried s s' (x, t, sent, k, f) =
      let (ends, runs) = call_loop-Fails n (tried + 1) t s' f in
      (
        λ fuel s'' a e.
            let z : suc n + suc fuel ≡ suc (n + suc fuel) = omega arith in
            let y : tried + suc n ≡ tried + 1 + n = omega arith in
            rw (z, y) (failed (n + suc fuel) ∙ ends fuel s'' a e),
        not_yet runs,
      )
    where
      failed :
          (fuel : ℕ)
          → call_loop c catch parse msg (suc fuel) tried s
            ≡ call_loop c catch parse msg fuel (tried + 1) t
      failed fuel = call_loop-counts fuel tried s t x (round-answered s t (throw x) sent) k

      not_yet :
          ((fuel : ℕ) → fuel ≤ n → call_loop c catch parse msg fuel (tried + 1) t ≡ none)
          → (fuel : ℕ) → fuel ≤ suc n
          → call_loop c catch parse msg fuel tried s ≡ none
      not_yet ih zero h = call_loop-zero tried s zero (omega arith)
      not_yet ih (suc fuel) h = failed fuel ∙ ih fuel (omega arith)

  -- Rounds that all end in an exception after which the loop connects again, from states where P
  -- holds to such states.
  pub call_loop-endless :
      (P : S → Type 0)
      → ((s : S)
          → P s
          → (e : Exception) × (s' : S) × (s'' : S) × (round c catch parse msg s ≡ (throw e, s'))
            × (catch e ≡ reconnects)
            × (c.reconnect s' ≡ (ok tt, s''))
            × P s'')
      → (fuel tried : ℕ) (s : S) → P s
      → call_loop c catch parse msg fuel tried s ≡ none
  call_loop-endless P step zero tried s p = call_loop-zero tried s zero (omega arith)
  call_loop-endless P step (suc fuel) tried s p =
      let (e, s', s'', r, k, q, p') = step s p in
      call_loop-reconnects fuel tried s s' s'' e r k q ∙ call_loop-endless P step fuel tried s'' p'
