-- ===== src/Storage/Tests.antt =====
-- The contract of a storage at the in-memory storage of storage/inmemory.go.
use anicetus.Gatekeeper.Interleaving.{
  Calls, marks, goes_on, idle, checked, interleave, interleave-IsLate, IsLate,
}
use anicetus.Prelude.{
  Bool, refl, [], ◌∷◌, ℕ, ℕ_discrete, false, none, some, ◌≡◌, ◌==◌, if◌then◌else◌,
}
use anicetus.Errors.{ok}
use anicetus.Storage
use anicetus.Storage.{InMemory, in_memory}
use anicetus.Storage.Laws.{in_memory-IsStorage}

abbrev one_flag : InMemory ℕ
one_flag = record { flags = λ f. if f == 3 then some false else none }

-- The fingerprint 3 is stored, call 0 has not begun, call 1 has found it missing.
abbrev held : Calls (InMemory ℕ)
held = record { phases = λ k. if k == 1 then checked false else idle; shared = one_flag }

never_fails : (b : Bool) (s : InMemory ℕ) → ((in_memory ℕ_discrete).store 3 b s).0 ≡ ok tt
unfolding Storage.store
never_fails b s = refl

interleave-IsLate_example :
    IsLate
      (in_memory ℕ_discrete)
      3
      (λ s. s.flags)
      (in_memory-IsStorage ℕ_discrete)
      never_fails
      ((interleave
          (in_memory ℕ_discrete)
          3
          (goes_on 1 ∷ goes_on 0 ∷ marks ∷ goes_on 0 ∷ [])
          held).phases
        0)
interleave-IsLate_example =
    interleave-IsLate (in_memory ℕ_discrete) 3 (λ s. s.flags) (in_memory-IsStorage ℕ_discrete)
      never_fails (goes_on 1 ∷ goes_on 0 ∷ marks ∷ goes_on 0 ∷ []) held 0 refl tt
