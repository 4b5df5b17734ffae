-- ===== src/WellFormed/Switch.antt =====
-- A dispatch from any sound state runs the ready task of the lowest number.
use embd_lab.Prelude.{ℕ, ◌<◌, ◌≡◌, ◌≢◌, refl, Option, none, some, List, arith}
use embd_lab.RunQueue.{highest_prio}
use embd_lab.RunQueue.Priority.{IsLeast, highest_prio-IsLeast}
use embd_lab.Kernel.{Kernel, idle_prio}
use embd_lab.Dispatch.{dispatch_save, dispatch_sleep, dispatch_nosave}
use embd_lab.Waiting.{Home, ready}
use embd_lab.Waiting.Frame.{Placed-frame}
use embd_lab.WellFormed.{IsSound, IsWellFormed}

-- `t` is ready, and no task of a lower number is.
pub record IsFirst (home : ℕ → Home) (t : ℕ) : Type 0 where
  pub small : t < 64
  pub is_ready : home t ≡ ready
  pub none_before : (j : ℕ) → j < t → home j ≢ ready

module _ {k : Kernel} {waiting : ℕ → List ℕ} {home : ℕ → Home}
    (sound : IsSound k waiting home) where
  open sound use {placed, owned, idle_ready}
  open placed use {slots, listed}

  least : IsLeast k.queue (highest_prio k.queue)
  least =
      highest_prio-IsLeast placed.consistent idle_prio (omega arith)
        (ground (arith, listed idle_prio, idle_ready))

  pub highest_prio-IsFirst : IsFirst home (highest_prio k.queue)
  highest_prio-IsFirst = record {
    small = least.in_range;
    is_ready = from_slot _ refl;
    none_before = λ j h. ground (arith, listed j, least.free_below j, least.in_range);
  }
    where
      from_slot :
          (o : Option ℕ)
          → k.queue.run_list (highest_prio k.queue) ≡ o
          → home (highest_prio k.queue) ≡ ready
      from_slot none e = absurd (ground (arith, least.taken))
      from_slot (some t) e = (slots (highest_prio k.queue) t least.in_range e).1

  -- From every sound state `dispatch_save` leaves a well-formed state, with every task in its place, that
  -- runs the ready task of the lowest number.
  pub dispatch_save-IsWellFormed :
      IsWellFormed (dispatch_save k) waiting home × IsFirst home (dispatch_save k).cur_tcb
  unfolding dispatch_save
  dispatch_save-IsWellFormed = (
    record {
      sound = record {
        placed =
            Placed-frame placed (λ a. ground arith) (λ a. ground arith) (λ w h. refl) (λ w h. refl)
              λ t h. refl;
        owned = owned;
        idle_ready = idle_ready;
      };
      running = record {
        small = highest_prio-IsFirst.small;
        is_ready = highest_prio-IsFirst.is_ready;
      };
    },
    highest_prio-IsFirst,
  )

  pub dispatch_sleep-eq : dispatch_sleep k ≡ dispatch_save k
  unfolding dispatch_save dispatch_sleep
  dispatch_sleep-eq = refl

  pub dispatch_nosave-IsWellFormed :
      IsWellFormed (dispatch_nosave k) waiting home × IsFirst home (dispatch_nosave k).cur_tcb
  unfolding dispatch_nosave
  dispatch_nosave-IsWellFormed = (
    record {
      sound = record { placed = placed; owned = owned; idle_ready = idle_ready };
      running = record {
        small = highest_prio-IsFirst.small;
        is_ready = highest_prio-IsFirst.is_ready;
      };
    },
    highest_prio-IsFirst,
  )
