-- ===== src/Libc/Memory.antt =====
-- `memmove` copies, also between regions that overlap.
use embd_lab.Prelude.{
  ℕ, zero, suc, ◌+◌, ◌-◌, ◌^◌, ◌<◌, ◌≤◌, ◌≡◌, ◌⊎◌, inl, inr, ◌∙◌, arith, leb, ltb, ◌&&◌, ◌==◌,
  if◌then◌else◌, Bool-cases, update,
}
use embd_lab.Libc.{cell, copy_up, copy_down, memmove}

module _ (d s : ℕ) where
  -- The memory after copying the bytes from index `i` to `e`.
  abbrev copied : (i e : ℕ) → (ℕ → ℕ) → ℕ → ℕ
  copied i e memory a = if leb (d + i) a && ltb a (d + e) then memory (s + (a - d)) else memory a

  copy_up-copied :
      (rounds i : ℕ) (memory : ℕ → ℕ) (a : ℕ)
      → d < s
      → s + i + rounds ≤ 2 ^ 32
      → copy_up rounds i d s memory a ≡ copied i (i + rounds) memory a
  unfolding copy_up
  copy_up-copied zero i memory a below fits = ground arith
  copy_up-copied (suc rounds) i memory a below fits =
      let to : cell d i ≡ d + i = omega arith in
      let at : cell s i ≡ s + i = omega arith in
      let rest =
        copy_up-copied rounds (i + 1) (update memory (d + i) (memory (s + i))) a below
          (omega arith) in
      rw (to, at)
        (rest ∙ elim (Bool-cases (a == d + i)) [
          | inl here ↦ let e : s + (a - d) ≡ s + i = ground arith in rw e (ground arith)
          | inr elsewhere ↦ ground arith
        ])

  copy_down-copied :
      (i : ℕ) (memory : ℕ → ℕ) (a : ℕ)
      → s ≤ d
      → d + i ≤ 2 ^ 32
      → copy_down i d s memory a ≡ copied 0 i memory a
  unfolding copy_down
  copy_down-copied zero memory a above fits = ground arith
  copy_down-copied (suc i) memory a above fits =
      let to : cell d i ≡ d + i = omega arith in
      let at : cell s i ≡ s + i = omega arith in
      let rest =
        copy_down-copied i (update memory (d + i) (memory (s + i))) a above (omega arith) in
      rw (to, at)
        (rest ∙ elim (Bool-cases (a == d + i)) [
          | inl here ↦ let e : s + (a - d) ≡ s + i = ground arith in rw e (ground arith)
          | inr elsewhere ↦ ground arith
        ])

  memmove-copied :
      (count : ℕ) (memory : ℕ → ℕ) (a : ℕ)
      → d + count ≤ 2 ^ 32
      → s + count ≤ 2 ^ 32
      → memmove d s count memory a ≡ copied 0 count memory a
  unfolding memmove
  memmove-copied count memory a df sf = elim (Bool-cases (ltb d s)) [
    | inl below ↦
        let e : 0 + count ≡ count = omega arith in
        rw below (rw e at (copy_up-copied count 0 memory a (ground arith) (omega arith)))
    | inr above ↦ rw above (copy_down-copied count memory a (ground arith) (omega arith))
  ]

  -- Where neither region wraps around the address space, `memmove` makes every byte of the destination
  -- what the byte of the source was before the call, even if the regions overlap, and changes no other
  -- byte.
  pub memmove-copies :
      (count : ℕ) (memory : ℕ → ℕ)
      → d + count ≤ 2 ^ 32
      → s + count ≤ 2 ^ 32
      → ((i : ℕ) → i < count → memmove d s count memory (d + i) ≡ memory (s + i))
        × ((a : ℕ) → (a < d) ⊎ (d + count ≤ a) → memmove d s count memory a ≡ memory a)
  memmove-copies count memory df sf = (
    λ i h.
        let e : s + (d + i - d) ≡ s + i = omega arith in
        memmove-copied count memory (d + i) df sf ∙ rw e (ground arith),
    λ a out. memmove-copied count memory a df sf ∙ ground arith,
  )
