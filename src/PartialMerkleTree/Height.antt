-- ===== src/PartialMerkleTree/Height.antt =====
-- The widths and the height of a tree of at most 2 ^ 16 transactions, where nothing wraps.
use primmonero.Base.{
  ℕ, zero, suc, ◌+◌, ◌-◌, ◌*◌, ◌/◌, ◌^◌, ◌≤◌, ◌<◌, ◌≡◌, ap, sym, ◌∙◌, true, false, ltb, Bool-cases,
  inl, inr, arith,
}
use native.Mathlib.Decide.{ℕ_discrete}
use native.Mathlib.Nat.{pow-suc, one-le-pow, pow-le-pow_right, le-div_iff_mul-le}
use primmonero.PartialMerkleTree.{u32, calc_tree_width, find_height, tree_height}

-- A node that has leaves below it.
pub record InTree (total height pos : ℕ) : Type 0 where
  pub few : total ≤ 2 ^ 16
  pub low : height ≤ 16
  pub inside : pos * 2 ^ height < total

pub power_bound : (h : ℕ) → h ≤ 16 → (1 ≤ 2 ^ h) × (2 ^ h ≤ 2 ^ 16)
power_bound h low =
    (one-le-pow h 2 (omega arith), pow-le-pow_right {n = 2} (omega arith) {i = h} {j = 16} low)

calc_tree_width_lem :
    (total h : ℕ) → total ≤ 2 ^ 16 → h ≤ 16 → calc_tree_width total h ≡ (total + 2 ^ h - 1) / 2 ^ h
unfolding calc_tree_width
calc_tree_width_lem total h few low =
    let same : u32 (total + 2 ^ h + (2 ^ 32 - 1)) ≡ total + 2 ^ h - 1 =
      omega (arith, power_bound h low) in
    rw same

-- A position is in a level just when its first leaf is in the block.
pub width_test :
    (total h pos : ℕ)
    → total ≤ 2 ^ 16
    → h ≤ 16
    → ltb pos (calc_tree_width total h) ≡ ltb (pos * 2 ^ h) total
width_test total h pos few low = rw (calc_tree_width_lem total h few low) (ground (arith, down, up))
  where
    p : ℕ
    p = 2 ^ h

    quot :
        (suc pos ≤ (total + p - 1) / p → suc pos * p ≤ total + p - 1)
        × (suc pos * p ≤ total + p - 1 → suc pos ≤ (total + p - 1) / p)
    quot = (
      λ a. (le-div_iff_mul-le (power_bound h low).0).0 a,
      λ a. (le-div_iff_mul-le (power_bound h low).0).1 a,
    )

    down : pos < (total + p - 1) / p → pos * p < total
    down a = omega (arith, quot.0 a, power_bound h low)

    up : pos * p < total → pos < (total + p - 1) / p
    up a = quot.1 (omega (arith, power_bound h low))

pub two_halves : (h pos : ℕ) → pos * 2 ^ suc h ≡ pos * 2 * 2 ^ h
two_halves h pos = omega (arith, ap (λ (t : ℕ). pos * t) (pow-suc 2 h))

pub pos-le : {total h pos : ℕ} → InTree total h pos → pos < 2 ^ 16
pos-le {total} {h} {pos} t = grind (arith, power_bound h t.low, t.inside, t.few)

pub left_child : {total h pos : ℕ} → InTree total (suc h) pos → InTree total h (pos * 2)
left_child {total} {h} {pos} t = record {
  few = t.few;
  low = omega (arith, t.low);
  inside = rw (two_halves h pos) at t.inside;
}

pub right_child :
    {total h pos : ℕ}
    → InTree total (suc h) pos
    → (pos * 2 + 1) * 2 ^ h < total
    → InTree total h (pos * 2 + 1)
right_child t inside = record { few = t.few; low = omega (arith, t.low); inside = inside }

-- The test for a right child, where nothing wraps.
pub right_test :
    {total h pos : ℕ}
    → InTree total (suc h) pos
    → ltb (u32 (pos * 2 + 1)) (calc_tree_width total h) ≡ ltb ((pos * 2 + 1) * 2 ^ h) total
right_test {total} {h} {pos} t =
    let same : u32 (pos * 2 + 1) ≡ pos * 2 + 1 = omega (arith, pos-le t) in
    rw same (width_test total h (pos * 2 + 1) t.few (omega (arith, t.low)))

pub u32-left : {total h pos : ℕ} → InTree total (suc h) pos → u32 (pos * 2) ≡ pos * 2
u32-left t = omega (arith, pos-le t)

pub u32-right : {total h pos : ℕ} → InTree total (suc h) pos → u32 (pos * 2 + 1) ≡ pos * 2 + 1
u32-right t = omega (arith, pos-le t)

find_height_bounds :
    (fuel total h : ℕ)
    → total ≤ 2 ^ 16
    → h ≤ 16
    → 16 < fuel + h
    → (find_height fuel total h ≤ 16) × (total ≤ 2 ^ find_height fuel total h)
unfolding find_height
find_height_bounds zero total h few low enough = absurd (omega arith)
find_height_bounds (suc fuel) total h few low enough =
    elim (Bool-cases (ltb 1 (calc_tree_width total h))) [
      | inl wide ↦
          rw (wide, find_height)
            (find_height_bounds fuel total (h + 1) few
              (not_last (sym (width_test total h 1 few low) ∙ wide)) (omega arith))
      | inr narrow ↦
          rw (narrow, find_height) (low, fits (sym (width_test total h 1 few low) ∙ narrow))
    ]
  where
    not_last : ltb (1 * 2 ^ h) total ≡ true → h + 1 ≤ 16
    not_last wide = elim (ℕ_discrete h 16) [
      | yes last ↦
          absurd
            (let top : 2 ^ h ≡ 2 ^ 16 = ap (λ (t : ℕ). 2 ^ t) last in ground (arith, top, wide))
      | no inner ↦ omega arith
    ]

    fits : ltb (1 * 2 ^ h) total ≡ false → total ≤ 2 ^ h
    fits narrow = ground (arith, narrow)

pub tree_height_bounds :
    (total : ℕ) → total ≤ 2 ^ 16 → (tree_height total ≤ 16) × (total ≤ 2 ^ tree_height total)
unfolding tree_height
tree_height_bounds total few = find_height_bounds 32 total 0 few (omega arith) (omega arith)
