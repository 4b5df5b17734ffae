-- ===== src/Waiting/Frame.antt =====
-- `Placed` depends only on the values of its functions.
use embd_lab.Prelude.{ℕ, ◌<◌, ◌≡◌, arith, Option, List}
use embd_lab.RunQueue.{RunQueue}
use embd_lab.Kernel.{Tcb, links}
use embd_lab.SleepQueue.Chain.{Chain-frame}
use embd_lab.Waiting.{Home, num_queues, Placed}

pub Placed-frame :
    {q : RunQueue} {tcbs tcbs' : ℕ → Tcb} {head head' : ℕ → Option ℕ}
    {waiting waiting' : ℕ → List ℕ} {home home' : ℕ → Home}
    → Placed q tcbs head waiting home
    → ((a : ℕ) → links tcbs' a ≡ links tcbs a)
    → ((a : ℕ) → (tcbs' a).native_prio ≡ (tcbs a).native_prio)
    → ((w : ℕ) → w < num_queues → head' w ≡ head w)
    → ((w : ℕ) → w < num_queues → waiting' w ≡ waiting w)
    → ((t : ℕ) → t < 64 → home' t ≡ home t)
    → Placed q tcbs' head' waiting' home'
Placed-frame {head} {waiting} placed same_links same_prio same_head same_waiting same_home =
    record {
      consistent = placed.consistent;
      slots = λ p t h e. ground (arith, placed.slots p t, same_home p h);
      listed = λ p h e. ground (arith, placed.listed p, same_home p h);
      prios = λ t h e. ground (arith, placed.prios t, same_home t h, same_prio t);
      unlinked = λ t h e. ground (arith, placed.unlinked t, same_home t h, same_links t);
      chains = λ w h.
          rw (same_head w h, same_waiting w h)
            (Chain-frame (head w) (waiting w) (placed.chains w h) (λ a m. same_links a));
      apart = λ w h. rw (same_waiting w h) (placed.apart w h);
      members = λ w t h e. ground (arith, placed.members w t, same_waiting w h, same_home t);
      enlisted = λ w t h e. ground (arith, placed.enlisted w t, same_waiting w, same_home t h);
    }
