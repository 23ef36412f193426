-- ===== src/Server/Pool/Ends.antt =====
-- What is done with connections that are shut down one after the other, written out.
use json_rpc.Common.{
  ◌≡◌, refl, ap, ◌∙◌, List, [], ◌∷◌, ◌++◌, if◌then◌else◌, append_assoc, inl, inr, Bool-cases,
}
use json_rpc.Common.Int.{ℤ}
use json_rpc.Server.Pool.{
  Act, ThreadTest, disconnects, shuts, joins, closes, shutdown, delete_connection, shutdown_all,
}

-- Each one's flag is cleared, its socket shut down, its thread joined if it is active then, its
-- descriptor closed.
unfoldable pub ends : ThreadTest → List ℤ → List Act → List Act
ends is_active [] acts = acts
ends is_active (fd ∷ fds) acts =
    let cut = acts ++ disconnects fd ∷ shuts fd ∷ [] in
    ends is_active fds
      (cut ++ (if is_active cut fd then joins fd ∷ closes fd ∷ [] else closes fd ∷ []))

-- Every descriptor two times.
unfoldable pub twice : List ℤ → List ℤ
twice [] = []
twice (fd ∷ fds) = fd ∷ fd ∷ twice fds

pub ends-shutdown :
    (is_active : ThreadTest) (fd : ℤ) (fds : List ℤ) (acts : List Act)
    → ends is_active fds (shutdown is_active fd acts) ≡ ends is_active (fd ∷ fds) acts
unfolding ends shutdown
ends-shutdown is_active fd fds acts =
    let cut = acts ++ disconnects fd ∷ shuts fd ∷ [] in
    elim (Bool-cases (is_active cut fd)) [
      | inl e ↦ rw e (ap (ends is_active fds) (append_assoc cut (joins fd ∷ []) (closes fd ∷ [])))
      | inr e ↦ rw e refl
    ]

-- An eviction.
pub ends-evict :
    (is_active : ThreadTest) (fd : ℤ) (fds : List ℤ) (acts : List Act)
    → ends is_active fds (delete_connection is_active fd (shutdown is_active fd acts))
      ≡ ends is_active (fd ∷ fd ∷ fds) acts
unfolding delete_connection
ends-evict is_active fd fds acts =
    ends-shutdown is_active fd fds (shutdown is_active fd acts)
    ∙ ends-shutdown is_active fd (fd ∷ fds) acts

pub shutdown_all-ends :
    (is_active : ThreadTest) (fds : List ℤ) (acts : List Act)
    → shutdown_all is_active fds acts ≡ ends is_active fds acts
unfolding shutdown_all ends
shutdown_all-ends is_active [] acts = refl
shutdown_all-ends is_active (fd ∷ fds) acts =
    shutdown_all-ends is_active fds (shutdown is_active fd acts)
    ∙ ends-shutdown is_active fd fds acts

pub ends-append :
    (is_active : ThreadTest) (fds more : List ℤ) (acts : List Act)
    → ends is_active (fds ++ more) acts ≡ ends is_active more (ends is_active fds acts)
unfolding ends
ends-append is_active [] more acts = refl
ends-append is_active (fd ∷ fds) more acts = ends-append is_active fds more _
