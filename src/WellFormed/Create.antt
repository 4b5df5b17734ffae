-- ===== src/WellFormed/Create.antt =====
-- Handing out a mutex keeps the invariant of the kernel.
use embd_lab.Prelude.{ℕ, refl, List, arith}
use embd_lab.Kernel.{Kernel, os_num_mutex}
use embd_lab.Mutex.Create.{hand_out, IsFirstAvailable}
use embd_lab.Waiting.{Home}
use embd_lab.Waiting.Frame.{Placed-frame}
use embd_lab.WellFormed.{IsWellFormed}

pub hand_out-IsWellFormed :
    (i : ℕ) {k : Kernel} {waiting : ℕ → List ℕ} {home : ℕ → Home}
    → IsWellFormed k waiting home
    → IsFirstAvailable k 0 os_num_mutex i
    → IsWellFormed (hand_out i k) waiting home
unfolding hand_out
hand_out-IsWellFormed i wf first =
    let sound = wf.sound in
    record {
      sound = record {
        placed =
            Placed-frame sound.placed (λ a. refl) (λ a. refl) (λ w h. ground arith) (λ w h. refl)
              λ t h. refl;
        owned = record {
          locked = λ m h. ground (arith, sound.owned.locked m);
          unwaited = λ m h e. ground (arith, sound.owned.unwaited m);
          created = λ m h e. ground (arith, sound.owned.created m);
          holder_awake = λ m t h l e. ground (arith, sound.owned.holder_awake m t);
        };
        idle_ready = sound.idle_ready;
      };
      running = record { small = wf.running.small; is_ready = wf.running.is_ready };
    }
