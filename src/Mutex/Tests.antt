-- ===== src/Mutex/Tests.antt =====
-- Methods with locks.
use c_wrapper.Prelude.{◌≡◌, refl, true, false, some, [], ◌∷◌}
use c_wrapper.Mutex.{
  construct, construct_recursive, locks, unlocks, does, Block, ends, returns, acts, scoped, execute,
}
use c_wrapper.Mutex.Scopes.{held, scopes_lem}

-- two locks, and a return inside of the second
abbrev nested : Block
nested = scoped 1 (acts 7 (scoped 2 returns (acts 8 ends))) (acts 9 ends)

nested_test : execute nested ≡ (locks 1 ∷ does 7 ∷ locks 2 ∷ unlocks 2 ∷ unlocks 1 ∷ [], true)
unfolding execute
nested_test = refl

scopes_lem_test : held 2 (execute nested).0 0 ≡ some 0
scopes_lem_test = scopes_lem nested 2 0

-- a Mutex whose `pthread_mutex_init` succeeds, and a RecursiveMutex
success_aborts : construct 0 ≡ false
unfolding construct
success_aborts = refl

success_returns : construct_recursive 0 0 0 ≡ true
unfolding construct_recursive
success_returns = refl
