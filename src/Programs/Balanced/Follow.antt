-- ===== src/Programs/Balanced/Follow.antt =====
-- In a balanced program the claims follow the points of the tasks.
use embd_lab.Prelude.{ℕ, ℤ, pos, ◌≡◌, ◌≤◌, refl, Bool, true, false, arith, ap, ◌∙◌}
use embd_lab.Kernel.{Task, Kernel, os_max_tasks}
use embd_lab.Sched.{Addresses}
use embd_lab.Sched.Start.{IsQuiet, allocate_tasks_mutex}
use embd_lab.Syscall.{returned}
use embd_lab.Mutex.{mutex_lock_syscall, mutex_unlock_syscall}
use embd_lab.WellFormed.Lock.{IsCreated}
use embd_lab.System.{System, IsCaller, Reach, here}
use embd_lab.System.Claims.{
  deadlocks, succeeds, waits, unlocks, refuses, lock_decided, unlock_decided,
}
use embd_lab.System.Created.{Reach-IsCreated}
use embd_lab.System.Safety.{boot, boot-Inv, reached, resumed_lock_holds}
use embd_lab.Programs.Machine as Machine
use embd_lab.Programs.Machine.{
  Request, mutex_lock, mutex_unlock, wait_event, work, Program, Config, running, Asks, Run, Runs,
  begins, then_runs, Runs-Reach,
}
use embd_lab.Programs.Balanced.{IsBalanced, Matches}
use embd_lab.Programs.Balanced.Replies.{
  IsGranted-zero, IsGranted-wait, event_wait-not_negative, moved_success, new_success,
}

module _ {P G : Type 0} (program : Program P G) (held : ℕ → P → ℕ → Bool) (possible : ℕ → P → Bool)
    (uses : ℕ → Bool) where
  abbrev pub Matching : Config P G → Type 0
  Matching = Matches program held possible uses

  module _ (balanced : IsBalanced program held possible uses) (a : Addresses) (tasks : ℕ → Task)
      (n : ℕ) (k : Kernel) (quiet : IsQuiet k) (few : n ≤ os_max_tasks)
      (created : (m : ℕ) → uses m ≡ true → IsCreated k m) where
    abbrev pub Reached : System → Type 0
    Reached = Reach (boot a tasks n k)

    boot-IsCreated : (m : ℕ) → uses m ≡ true → IsCreated (boot a tasks n k).kernel m
    boot-IsCreated m used =
        let c = created m used in
        record {
          small = c.small;
          taken = ap (λ x. (x m).b_available) (allocate_tasks_mutex a tasks n k few) ∙ c.taken;
        }

    -- The running task locks a mutex that it does not hold: the call returns 0 if it returns.
    lock_returns_zero :
        {s : System} (m : ℕ) (k' : Kernel) (r : ℤ)
        → Reached s
        → IsCaller s
        → uses m ≡ true
        → s.claims s.kernel.cur_tcb m ≡ false
        → mutex_lock_syscall (pos m) s.kernel ≡ returned k' r
        → r ≡ pos 0
    lock_returns_zero {s} m k' r reach caller used free e =
        let c =
          Reach-IsCreated (boot-Inv a tasks n k quiet few here) (boot-IsCreated m used) reach in
        elim (lock_decided a tasks n k quiet few reach caller m c) [
          | deadlocks k₁ held mine e₁ ↦ absurd (cc)
          | succeeds k₁ free nobody e₁ ↦ cc
          | waits k₁ holder held ne other who e₁ ↦ absurd (cc)
        ]

    unlock_returns_zero :
        {s : System} (m : ℕ) (k' : Kernel) (r : ℤ)
        → Reached s
        → IsCaller s
        → s.claims s.kernel.cur_tcb m ≡ true
        → mutex_unlock_syscall (pos m) s.kernel ≡ returned k' r
        → r ≡ pos 0
    unlock_returns_zero {s} m k' r reach caller mine e =
        let c = ((reached a tasks n k quiet few reach).claimed s.kernel.cur_tcb m mine).0 in
        elim (unlock_decided a tasks n k quiet few reach caller m c) [
          | unlocks k₁ mine' e₁ ↦ cc
          | refuses k₁ other e₁ ↦ absurd (cc)
        ]

    Run-Matches : {c d : Config P G} → Reached c.sys → Matching c → Run program c d → Matching d
    Run-Matches {c} reach h (Machine.works x) =
        let cur = c.sys.kernel.cur_tcb in
        let (stays, keeps) =
          balanced.steps cur (c.at cur) c.globals (h.reached_possible cur) x.asked in
        record {
          silent = λ t i e. ground (arith, h.silent t i, keeps i, x.no_reply);
          replied = λ t i r e. ground (arith, h.replied t i r);
          success = moved_success program.request c.at c.replies cur _ h.success;
          reached_possible = λ t. ground (arith, h.reached_possible t, stays);
          inside = λ t m e. ground (arith, h.inside t m, x.caller.in_user);
        }
    Run-Matches {c} reach h (Machine.receives {r = r} x e) =
        let cur = c.sys.kernel.cur_tcb in
        let (stays, changes) =
          balanced.resumes cur (c.at cur) r c.globals (h.reached_possible cur)
            (h.success cur r e) in
        record {
          silent = λ t i none_left. ground (arith, h.silent t i, h.replied cur i r, changes i);
          replied = λ t i q e'. ground (arith, h.replied t i q);
          success = moved_success program.request c.at c.replies cur _ h.success;
          reached_possible = λ t. ground (arith, h.reached_possible t, stays);
          inside = λ t m e'. ground (arith, h.inside t m, x.in_user);
        }
    Run-Matches {c} reach h (Machine.locks {k = k'} {r = res} m x e) =
        let cur = c.sys.kernel.cur_tcb in
        let (free, used) = balanced.locks cur (c.at cur) m (h.reached_possible cur) x.asked in
        let zero_back =
          lock_returns_zero m k' res reach x.caller used (h.silent cur m x.no_reply ∙ free) e in
        record {
          silent = λ t i e'. ground (arith, h.silent t i);
          replied = λ t i q e'.
              ground (arith, h.replied t i q, h.silent cur i, x.asked, x.no_reply, zero_back);
          success =
              new_success program.request c.at c.replies cur res (IsGranted-zero zero_back)
                h.success;
          reached_possible = h.reached_possible;
          inside = λ t i e'. ground (arith, h.inside t i, x.caller.in_user);
        }
    Run-Matches {c} reach h (Machine.blocks m x e) = record {
      silent = h.silent;
      replied = h.replied;
      success = h.success;
      reached_possible = h.reached_possible;
      inside = λ t i e'. ground (arith, h.inside t i, x.asked, x.no_reply);
    }
    Run-Matches {c} reach h (Machine.is_granted {k = k'} {r = res} m p e) =
        let cur = c.sys.kernel.cur_tcb in
        let (asked, no_reply) = h.inside cur m p in
        let granted = (resumed_lock_holds a tasks n k quiet few reach m p).1 in
        let zero_back : res ≡ pos 0 = ground (arith, granted.1) in
        record {
          silent = λ t i e'. ground (arith, h.silent t i);
          replied = λ t i q e'.
              ground (arith, h.replied t i q, h.silent cur i, asked, no_reply, zero_back);
          success =
              new_success program.request c.at c.replies cur res (IsGranted-zero zero_back)
                h.success;
          reached_possible = h.reached_possible;
          inside = λ t i e'. ground (arith, h.inside t i);
        }
    Run-Matches {c} reach h (Machine.unlocks {k = k'} {r = res} m x e) =
        let cur = c.sys.kernel.cur_tcb in
        let mine = balanced.unlocks cur (c.at cur) m (h.reached_possible cur) x.asked in
        let zero_back =
          unlock_returns_zero m k' res reach x.caller (h.silent cur m x.no_reply ∙ mine) e in
        record {
          silent = λ t i e'. ground (arith, h.silent t i);
          replied = λ t i q e'.
              ground (arith, h.replied t i q, h.silent cur i, x.asked, x.no_reply, zero_back);
          success =
              new_success program.request c.at c.replies cur res (IsGranted-zero zero_back)
                h.success;
          reached_possible = h.reached_possible;
          inside = λ t i e'. ground (arith, h.inside t i, x.caller.in_user);
        }
    Run-Matches {c} reach h (Machine.fails_to_wait {r = res} dev x e) =
        let cur = c.sys.kernel.cur_tcb in
        record {
          silent = λ t i e'. ground (arith, h.silent t i);
          replied =
              λ t i q e'. ground (arith, h.replied t i q, h.silent cur i, x.asked, x.no_reply);
          success =
              new_success program.request c.at c.replies cur res
                (IsGranted-wait _ x.asked (event_wait-not_negative dev _ _ res e)) h.success;
          reached_possible = h.reached_possible;
          inside = λ t i e'. ground (arith, h.inside t i, x.caller.in_user);
        }
    Run-Matches {c} reach h (Machine.waits dev x e) =
        let cur = c.sys.kernel.cur_tcb in
        record {
          silent = λ t i e'. ground (arith, h.silent t i);
          replied =
              λ t i q e'. ground (arith, h.replied t i q, h.silent cur i, x.asked, x.no_reply);
          success =
              new_success program.request c.at c.replies cur (pos 0) (IsGranted-zero refl)
                h.success;
          reached_possible = h.reached_possible;
          inside = λ t i e'. ground (arith, h.inside t i, x.caller.in_user);
        }
    Run-Matches {c} reach h (Machine.is_interrupted e) = record {
      silent = h.silent;
      replied = h.replied;
      success = h.success;
      reached_possible = h.reached_possible;
      inside = h.inside;
    }

    pub Runs-Matches :
        {start c : Config P G}
        → Reached start.sys
        → Matching start
        → Runs program start c
        → Matching c
    Runs-Matches reach h begins = h
    Runs-Matches reach h (then_runs rs st) =
        Run-Matches (Runs-Reach program reach rs) (Runs-Matches reach h rs) st
