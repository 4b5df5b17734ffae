-- ===== src/Programs/Dagger/Printed.antt =====
-- The characters that dagger.c has printed, and the part of its round that `fun1` has printed.
use Prim.Native.String.{String}
use embd_lab.Prelude.{
  ℕ, suc, ◌+◌, ◌%◌, ◌≡◌, ◌≢◌, refl, Bool, true, false, List, [], ◌∷◌, ◌++◌, arith, ◌==◌, ◌&&◌,
  if◌then◌else◌, ltb, ℤ, pos, negsuc,
}
use embd_lab.Programs.{Print, putchar, puts, printf}
use embd_lab.Programs.Dagger.{
  Fun, fun1, fun2, fun3, fun4, Point, locking, printing, waiting, unlocking, resting, panicked,
  Globals, dev_failed, resume, step,
}

-- How many '@' there are.
abbrev pub ats : List Print → ℕ
ats [] = 0
ats (putchar c ∷ ps) = if c == b'@' then suc (ats ps) else ats ps
ats (puts s ∷ ps) = ats ps
ats (printf s xs ∷ ps) = ats ps

-- `p` may come after `n` times '@'.
abbrev pub allowed : ℕ → Print → Bool
allowed n (putchar c) = if c == b'>' then n % 5 == 0 else true
allowed n (puts s) = true
allowed n (printf s xs) = true

-- So may each of them, one after the other.
abbrev pub in_order : ℕ → List Print → Bool
in_order n [] = true
in_order n (p ∷ ps) = allowed n p && in_order (n + ats (p ∷ [])) ps

pub ats-append : (ps qs : List Print) → ats (ps ++ qs) ≡ ats ps + ats qs
ats-append [] qs = omega arith
ats-append (putchar c ∷ ps) qs = ground (arith, ats-append ps qs)
ats-append (puts s ∷ ps) qs = ats-append ps qs
ats-append (printf s xs ∷ ps) qs = ats-append ps qs

pub in_order-append :
    (n : ℕ) (ps qs : List Print)
    → in_order n (ps ++ qs) ≡ (in_order n ps && in_order (n + ats ps) qs)
in_order-append n [] qs = let e : n + 0 ≡ n = omega arith in rw e refl
in_order-append n (p ∷ ps) qs =
    let e : n + ats (p ∷ []) + ats ps ≡ n + ats (p ∷ ps) = omega (arith, ats-append (p ∷ []) ps) in
    ground (arith, rw e at (in_order-append (n + ats (p ∷ [])) ps qs))

-- How many of its five `fun1` has printed.
abbrev pub printed : Point → ℕ
printed locking = 0
printed (printing i) = i
printed (waiting i) = i + 1
printed unlocking = 0
printed resting = 0
printed (panicked p) = printed p

-- The index of `fun1` is in the bounds of its loop, or one less where it will print again.
abbrev pub in_loop : Point → Bool
in_loop (printing i) = ltb i 5
in_loop (waiting i) = ltb i 4
in_loop (panicked p) = in_loop p
in_loop _ = true

-- The part of a round that has been printed.
pub record Round (p : Point) (console : List Print) : Type 0 where
  pub looping : in_loop p ≡ true
  pub fives : ats console % 5 ≡ printed p
  pub ordered : in_order 0 console ≡ true

-- A line that no one looks for.
Round-puts : (p : Point) (c : List Print) (s : String) → Round p c → Round p (c ++ puts s ∷ [])
Round-puts p c s r = record {
  looping = r.looping;
  fives = ground (arith, ats-append c (puts s ∷ []), r.fives);
  ordered = ground (arith, in_order-append 0 c (puts s ∷ []), r.ordered);
}

pub step-Round :
    (p : Point) (g : Globals)
    → Round p g.console
    → Round (step fun1 p g).0 (step fun1 p g).1.console
unfolding step
step-Round (printing i) g r = record {
  looping = ground (arith, r.looping);
  fives = ground (arith, ats-append g.console (putchar b'@' ∷ []), r.fives, r.looping);
  ordered = ground (arith, in_order-append 0 g.console (putchar b'@' ∷ []), r.ordered);
}
step-Round locking g r = r
step-Round (waiting i) g r = r
step-Round unlocking g r = r
step-Round resting g r = r
step-Round (panicked p) g r = r

-- Another character than '@', which is '>' only between two rounds.
Round-other :
    (p : Point) (c : List Print) (x : ℕ)
    → (x == b'@') ≡ false
    → ((x == b'>') ≡ true → printed p ≡ 0)
    → Round p c
    → Round p (c ++ putchar x ∷ [])
Round-other p c x not_at between r = record {
  looping = r.looping;
  fives = ground (arith, ats-append c (putchar x ∷ []), r.fives);
  ordered = ground (arith, in_order-append 0 c (putchar x ∷ []), r.ordered, between, r.fives);
}

-- The result of a call of `fun1`.
pub resume-Round :
    (p : Point) (v : ℤ) (g : Globals)
    → Round p g.console
    → Round (resume fun1 p v g).0 (resume fun1 p v g).1.console
unfolding resume
resume-Round locking v g r = record { looping = refl; fives = r.fives; ordered = r.ordered }
resume-Round (printing i) v g r = r
resume-Round (waiting i) (pos v) g r =
    let again : ltb (i + 1) 5 ≡ true = ground (arith, r.looping) in
    rw again (record { looping = again; fives = r.fives; ordered = r.ordered })
resume-Round (waiting i) (negsuc v) g r =
    let q = Round-puts (waiting i) g.console (dev_failed fun1) r in
    record { looping = q.looping; fives = q.fives; ordered = q.ordered }
resume-Round unlocking v g r = record { looping = refl; fives = r.fives; ordered = r.ordered }
resume-Round resting (pos v) g r = record { looping = refl; fives = r.fives; ordered = r.ordered }
resume-Round resting (negsuc v) g r =
    let q = Round-puts resting g.console (dev_failed fun1) r in
    record { looping = q.looping; fives = q.fives; ordered = q.ordered }
resume-Round (panicked p) v g r = r

-- A step of another function, at the point `p` of `fun1`.
pub other_step-Round :
    (f : Fun) (q p : Point) (g : Globals)
    → f ≢ fun1
    → ((i : ℕ) → f ≡ fun3 → q ≡ printing i → printed p ≡ 0)
    → Round p g.console
    → Round p (step f q g).1.console
unfolding step
other_step-Round fun1 q p g other between r = absurd (other refl)
other_step-Round fun2 (printing i) p g other between r =
    Round-other p g.console b'<' refl (λ e. absurd (cc)) r
other_step-Round fun2 _ p g other between r = r
other_step-Round fun3 (printing i) p g other between r =
    Round-other p g.console b'>' refl (λ e. between i refl refl) r
other_step-Round fun3 _ p g other between r = r
other_step-Round fun4 (printing i) p g other between r =
    Round-other p g.console b'*' refl (λ e. absurd (cc)) r
other_step-Round fun4 _ p g other between r = r

-- The result of a call of another function.
pub other_resume-Round :
    (f : Fun) (q p : Point) (v : ℤ) (g : Globals)
    → Round p g.console
    → Round p (resume f q v g).1.console
unfolding resume
other_resume-Round f locking p v g r = r
other_resume-Round f (printing i) p v g r = r
other_resume-Round f (waiting i) p (pos v) g r = r
other_resume-Round f (waiting i) p (negsuc v) g r = Round-puts p g.console (dev_failed f) r
other_resume-Round f unlocking p v g r = r
other_resume-Round f resting p (pos v) g r = r
other_resume-Round f resting p (negsuc v) g r = Round-puts p g.console (dev_failed f) r
other_resume-Round f (panicked q) p v g r = r
