-- ===== src/SleepQueue/Chain.antt =====
-- Linked lists of TCB indices that end in null.
use embd_lab.Prelude.{
  ℕ, zero, suc, ◌+◌, ◌<◌, ◌≤◌, ◌≡◌, refl, Bool, true, false, not, ◌&&◌, Option, none, some, List,
  [], ◌∷◌, ◌++◌, arith, ◌==◌, if◌then◌else◌, length, elem, elem-append, update,
}

-- From `p` the links lead through `xs` to null.
abbrev pub Chain : (ℕ → Option ℕ) → Option ℕ → List ℕ → Type 0
Chain next p [] = p ≡ none
Chain next p (x ∷ xs) = (p ≡ some x) × Chain next (next x) xs

abbrev pub distinct : List ℕ → Bool
distinct [] = true
distinct (x ∷ xs) = not (elem x xs) && distinct xs

abbrev pub last : ℕ → List ℕ → ℕ
last x [] = x
last x (y ∷ ys) = last y ys

pub Chain-frame :
    {next next' : ℕ → Option ℕ} (p : Option ℕ) (xs : List ℕ)
    → Chain next p xs
    → ((a : ℕ) → elem a xs ≡ true → next' a ≡ next a)
    → Chain next' p xs
Chain-frame p [] c same = c
Chain-frame {next} p (x ∷ xs) c same =
    (c.0, rw (same x (ground arith)) (Chain-frame (next x) xs c.1 (λ a h. same a (ground arith))))

-- The links from one pointer lead through one list.
pub Chain-unique :
    (next : ℕ → Option ℕ) (p : Option ℕ) (xs ys : List ℕ)
    → Chain next p xs
    → Chain next p ys
    → xs ≡ ys
Chain-unique next p [] [] c d = refl
Chain-unique next p [] (y ∷ ys) c d = absurd (ground arith)
Chain-unique next p (x ∷ xs) [] c d = absurd (ground arith)
Chain-unique next p (x ∷ xs) (y ∷ ys) c d =
    let same : y ≡ x = ground arith in
    ground (arith, Chain-unique next (next x) xs ys c.1 (rw same at d.1))

pub elem-last : (x : ℕ) (xs : List ℕ) → elem (last x xs) (x ∷ xs) ≡ true
elem-last x [] = ground arith
elem-last x (y ∷ ys) = ground (arith, elem-last y ys)

-- Linking `t` behind the last node of a chain that does not hold it.
pub Chain-append :
    (next : ℕ → Option ℕ) (p : Option ℕ) (x : ℕ) (xs : List ℕ) (t : ℕ)
    → Chain next p (x ∷ xs)
    → distinct (x ∷ xs) ≡ true
    → elem t (x ∷ xs) ≡ false
    → Chain (update (update next (last x xs) (some t)) t none) p (x ∷ xs ++ t ∷ [])
Chain-append next p x [] t c d e = (c.0, (ground arith, ground arith))
Chain-append next p x (y ∷ ys) t c d e =
    let rest = Chain-append next (next x) y ys t c.1 (ground arith) (ground arith) in
    let keep : update (update next (last y ys) (some t)) t none x ≡ next x =
      ground (arith, elem-last y ys) in
    (c.0, rw keep rest)

pub distinct-append :
    (xs : List ℕ) (t : ℕ) → distinct xs ≡ true → elem t xs ≡ false → distinct (xs ++ t ∷ []) ≡ true
distinct-append [] t d e = refl
distinct-append (x ∷ xs) t d e = ground (arith, distinct-append xs t, elem-append x xs (t ∷ []))

-- The elements of a list other than `n`.
without : ℕ → List ℕ → List ℕ
without n [] = []
without n (x ∷ xs) = let rest = without n xs in if x == n then rest else x ∷ rest

elem-without : (a n : ℕ) (xs : List ℕ) → elem a (without n xs) ≡ (not (a == n) && elem a xs)
unfolding without
elem-without a n [] = ground arith
elem-without a n (x ∷ xs) = ground (arith, elem-without a n xs)

distinct-without : (n : ℕ) (xs : List ℕ) → distinct xs ≡ true → distinct (without n xs) ≡ true
unfolding without
distinct-without n [] d = refl
distinct-without n (x ∷ xs) d = ground (arith, distinct-without n xs, elem-without x n xs)

length-without_of_not_elem :
    (n : ℕ) (xs : List ℕ) → elem n xs ≡ false → length (without n xs) ≡ length xs
unfolding without
length-without_of_not_elem n [] e = refl
length-without_of_not_elem n (x ∷ xs) e = ground (arith, length-without_of_not_elem n xs)

length-le-without :
    (n : ℕ) (xs : List ℕ) → distinct xs ≡ true → length xs ≤ length (without n xs) + 1
unfolding without
length-le-without n [] d = omega arith
length-le-without n (x ∷ xs) d =
    ground (arith, length-le-without n xs, length-without_of_not_elem n xs)

-- Distinct numbers below `n` are at most `n`.
pub length-le :
    (n : ℕ) (xs : List ℕ)
    → distinct xs ≡ true
    → ((a : ℕ) → elem a xs ≡ true → a < n)
    → length xs ≤ n
length-le zero [] d h = omega arith
length-le zero (x ∷ xs) d h = absurd (omega (arith, h x (ground arith)))
length-le (suc n) xs d h = omega (
  arith,
  length-le-without n xs d,
  length-le n (without n xs) (distinct-without n xs d)
      λ a e. ground (arith, h a, elem-without a n xs),
)
