-- ===== src/Tests/Mutexes.antt =====
-- The mutex calls.
use embd_lab.Prelude.{ℕ, ◌≡◌, refl, pos, true, none, some, [], ◌∷◌, ◌++◌, arith, update}
use embd_lab.Kernel.{Kernel}
use embd_lab.Syscall.{returned, switched}
use embd_lab.Mutex.{
  mutex_init, create_loop, mutex_create_syscall, mutex_lock_syscall, mutex_unlock_syscall,
}
use embd_lab.Waiting.{ready, waits}
use embd_lab.WellFormed.{IsWellFormed}
use embd_lab.WellFormed.Lock.{Holders, mutex_lock-waits}
use embd_lab.WellFormed.Unlock.{mutex_unlock-hands_over}
use embd_lab.WellFormed.Switch.{IsFirst}
use embd_lab.Tests.States.{
  held, held_by, contended, place_zero, queue_zero, awake-IsWellFormed, contended-IsWellFormed,
}

held-IsWellFormed : (t : ℕ) → IsWellFormed (held t) (λ _. []) (place_zero ready)
held-IsWellFormed t = awake-IsWellFormed (held_by t none) refl refl refl

mutex_lock-waits_example :
    (k' : Kernel) × (mutex_lock_syscall (pos 0) (held 1) ≡ switched k')
    × IsWellFormed k' (update (λ _. []) 0 ([] ++ 0 ∷ [])) (update (place_zero ready) 0 (waits 0))
    × IsFirst (update (place_zero ready) 0 (waits 0)) k'.cur_tcb
    × Holders (held 1) 0 (some 1) k'
mutex_lock-waits_example =
    mutex_lock-waits (held-IsWellFormed 1) 0 (record { small = omega arith; taken = refl }) refl
      refl (omega arith)

mutex_unlock-hands_over_example :
    (k' : Kernel) × (mutex_unlock_syscall (pos 0) contended ≡ returned k' (pos 0))
    × ((k'.gt_mutex 0).b_lock ≡ true)
    × Holders contended 0 (some 0) k'
    × IsWellFormed k' (update (queue_zero 0) 0 []) (update (place_zero (waits 0)) 0 ready)
mutex_unlock-hands_over_example =
    mutex_unlock-hands_over contended-IsWellFormed 0 (record { small = omega arith; taken = refl })
      refl 0 [] refl

-- After `mutex_init` the first call returns mutex 0.
create_first : (mutex_create_syscall (mutex_init (held 1))).1 ≡ pos 0
unfolding mutex_create_syscall mutex_init create_loop
create_first = refl
