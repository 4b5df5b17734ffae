-- ===== src/WellFormed/Wake.antt =====
-- The inner loop of `dev_update` empties a device's queue.
use embd_lab.Prelude.{
  ℕ, zero, suc, ◌<◌, ◌≡◌, refl, ◌∙◌, Bool, true, none, some, List, [], ◌∷◌, arith, if◌then◌else◌,
  length, elem, update,
}
use embd_lab.Kernel.{Kernel, num_devices}
use embd_lab.Device.{wake, wake_all}
use embd_lab.Waiting.{Home, ready, num_queues}
use embd_lab.Waiting.Frame.{Placed-frame}
use embd_lab.Waiting.Wake.{Placed-head, Placed-wake}
use embd_lab.WellFormed.{head_of, IsSound}
use embd_lab.WellFormed.Sleep.{device_queue}

-- What waking tasks leaves alone.
pub record SameRest (k k' : Kernel) : Type 0 where
  pub same_cur : k'.cur_tcb ≡ k.cur_tcb
  pub same_mutex : k'.gt_mutex ≡ k.gt_mutex
  pub same_time : k'.system_time ≡ k.system_time
  pub same_cpu : k'.cpu ≡ k.cpu

pub SameRest-trans : {k k' k'' : Kernel} → SameRest k k' → SameRest k' k'' → SameRest k k''
SameRest-trans a b = record {
  same_cur = b.same_cur ∙ a.same_cur;
  same_mutex = b.same_mutex ∙ a.same_mutex;
  same_time = b.same_time ∙ a.same_time;
  same_cpu = b.same_cpu ∙ a.same_cpu;
}

module _ {k : Kernel} {waiting : ℕ → List ℕ} {home : ℕ → Home} (sound : IsSound k waiting home)
    (d : ℕ) (in_range : d < num_devices) (t : ℕ) (rest : List ℕ)
    (first : waiting (device_queue d) ≡ t ∷ rest) where
  open sound use {placed, owned, idle_ready}
  open owned use {locked, unwaited, created, holder_awake}

  -- The device's queue starts with the first waiting task.
  first_asleep : (k.devices d).sleep_queue ≡ some t
  first_asleep = ground (arith, Placed-head placed (device_queue d) (omega arith) t rest first)

  wake-IsSound : IsSound (wake d t k) (update waiting (device_queue d) rest) (update home t ready)
  unfolding wake
  wake-IsSound = record {
    placed =
        Placed-frame (Placed-wake placed (device_queue d) (omega arith) t rest first) (λ a. refl)
          (λ a. refl) (λ w h. ground arith) (λ w h. refl) λ t h. refl;
    owned = record {
      locked = λ i h. locked i h;
      unwaited = λ i h e. ground (arith, unwaited i);
      created = λ i h e. created i h e;
      holder_awake = λ i s h l e. ground (arith, holder_awake i s);
    };
    idle_ready = ground arith;
  }

-- The state after the device's queue `xs` has been emptied.
abbrev pub woken : (ℕ → Home) → List ℕ → ℕ → Home
woken home xs t = if elem t xs then ready else home t

-- Whether a task has been woken by now.
abbrev pub raised : Bool → List ℕ → Bool
raised flag [] = flag
raised flag (_ ∷ _) = true

pub record Woke (k k' : Kernel) (d : ℕ) (xs : List ℕ) (waiting : ℕ → List ℕ) (home : ℕ → Home)
    : Type 0 where
  pub sound : IsSound k' (update waiting (device_queue d) []) (woken home xs)
  pub rest : SameRest k k'
  pub same_match : (j : ℕ) → (k'.devices j).next_match ≡ (k.devices j).next_match

pub IsSound-frame :
    {k : Kernel} {waiting waiting' : ℕ → List ℕ} {home home' : ℕ → Home}
    → IsSound k waiting home
    → ((w : ℕ) → w < num_queues → waiting' w ≡ waiting w)
    → ((t : ℕ) → t < 64 → home' t ≡ home t)
    → IsSound k waiting' home'
IsSound-frame sound same_waiting same_home = record {
  placed = Placed-frame sound.placed (λ a. refl) (λ a. refl) (λ w h. refl) same_waiting same_home;
  owned = record {
    locked = sound.owned.locked;
    unwaited = λ i h e. same_waiting i (omega arith) ∙ sound.owned.unwaited i h e;
    created = sound.owned.created;
    holder_awake = λ i t h l e. rw (same_home t l) (sound.owned.holder_awake i t h l e);
  };
  idle_ready = same_home 63 (omega arith) ∙ sound.idle_ready;
}

none_asleep :
    {k : Kernel} {waiting : ℕ → List ℕ} {home : ℕ → Home}
    → IsSound k waiting home
    → (d : ℕ) → d < num_devices
    → waiting (device_queue d) ≡ []
    → (k.devices d).sleep_queue ≡ none
none_asleep {k} sound d in_range e =
    let ends : head_of k (device_queue d) ≡ none =
      rw e at (sound.placed.chains (device_queue d) (omega arith)) in
    ground arith

raised-true : (xs : List ℕ) → raised true xs ≡ true
raised-true [] = refl
raised-true (_ ∷ _) = refl

wake-SameRest : (d t : ℕ) (k : Kernel) → SameRest k (wake d t k)
unfolding wake
wake-SameRest d t k = record {
  same_cur = refl;
  same_mutex = refl;
  same_time = refl;
  same_cpu = refl;
}

wake-match :
    (d t : ℕ) (k : Kernel) (j : ℕ) → ((wake d t k).devices j).next_match ≡ (k.devices j).next_match
unfolding wake
wake-match d t k j = ground arith

-- The loop ends within the fuel, wakes every task of the queue and nothing else.
pub wake_all-Woke :
    (fuel : ℕ) (d : ℕ) (xs : List ℕ) (k : Kernel) (flag : Bool) {waiting : ℕ → List ℕ}
    {home : ℕ → Home}
    → IsSound k waiting home
    → d < num_devices
    → waiting (device_queue d) ≡ xs
    → length xs < fuel
    → (k' : Kernel) × (wake_all fuel d (k, flag) ≡ some (k', raised flag xs))
      × Woke k k' d xs waiting home
unfolding wake_all
wake_all-Woke zero d xs k flag sound in_range e h = absurd (omega arith)
wake_all-Woke (suc fuel) d [] k flag {waiting} {home} sound in_range e h = (
  k,
  rw (none_asleep sound d in_range e, wake_all),
  record {
    sound = IsSound-frame sound (λ w l. ground arith) (λ t h. refl);
    rest = record { same_cur = refl; same_mutex = refl; same_time = refl; same_cpu = refl };
    same_match = λ j. refl;
  },
)
wake_all-Woke (suc fuel) d (x ∷ xs) k flag {waiting} {home} sound in_range e h =
    let (k', result, w) =
      wake_all-Woke fuel d xs (wake d x k) true (wake-IsSound sound d in_range x xs e) in_range
        (ground arith) (omega arith) in
    (
      k',
      rw (first_asleep sound d in_range x xs e, wake_all) (rw result (rw raised-true)),
      record {
        sound = IsSound-frame w.sound (λ v l. ground arith) (λ t l. ground arith);
        rest = SameRest-trans (wake-SameRest d x k) w.rest;
        same_match = λ j. w.same_match j ∙ wake-match d x k j;
      },
    )
