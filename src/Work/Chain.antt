-- ===== src/Work/Chain.antt =====
-- The targets of a whole chain of blocks.
use primmonero.Base.{
  ℕ, ap, ◌+◌, ◌%◌, ◌≤◌, ◌<◌, ◌≡◌, ◌∙◌, Option, some, List, [], ◌∷◌, length, inl, inr, arith,
}
use mathlib.Core.Path.{subst}
use primmonero.Base.Int.{ℤ, pos, ◌+ℤ◌, int64}
use primmonero.Target.{cent, mint_limit, target_get_length, target_get_next}
use primmonero.Target.Fields.{IsU32, target_get_length_lem}
use primmonero.Target.Retarget.{target_get_next_bounds}
use primmonero.Target.Subsidy.{target_get_mint_value}
use primmonero.Work.{BlockIndex, target_of_length, work_of, get_block_value, get_next_work_required}

-- A chain in which every block has the bits that were required of it.
pub data Follows (min_length initial : ℕ) : List BlockIndex → Type 0 where
  root : Follows min_length initial []
  extend :
      (b : BlockIndex) (chain : List BlockIndex)
      → Follows min_length initial chain
      → get_next_work_required min_length initial chain ≡ some b.bits
      → Follows min_length initial (b ∷ chain)

target_of_length_fields :
    (len : ℕ)
    → len < 256
    → (IsU32 (target_of_length len)) × (target_get_length (target_of_length len) ≡ len)
unfolding target_of_length
target_of_length_fields len h = (omega arith, target_get_length_lem _ (omega arith) ∙ omega arith)

-- The bits `b` are a target between two lengths.
record IsBetween (low high b : ℕ) : Type 0 where
  range : IsU32 b
  above : low ≤ target_get_length b
  below : target_get_length b ≤ high

fixed_target :
    (low high len b : ℕ)
    → len < 256
    → low ≤ len
    → len ≤ high
    → ◌≡◌ {A = Option ℕ} (some (target_of_length len)) (some b)
    → IsBetween low high b
fixed_target low high len b h l g e =
    let same : target_of_length len ≡ b = cc in
    let (range, value) = target_of_length_fields len h in
    subst (λ x. IsBetween low high x) same
      (record { range = range; above = omega (arith, value); below = omega (arith, value) })

stepped_target :
    (min_length bits b high : ℕ) (interval spacing actual : ℤ)
    → IsBetween min_length high bits
    → high < 255
    → work_of (target_get_next min_length bits interval spacing actual) ≡ some b
    → IsBetween min_length (high + 1) b
unfolding work_of
stepped_target min_length bits b high interval spacing actual place small e =
    elim (target_get_next_bounds min_length bits interval spacing actual place.range place.above
      (omega (arith, place.below))) [
        | inl (_, b', run, range, low, up, down) ↦
            let same : b' ≡ b = cc (rw run at e) in
            subst (λ x. IsBetween min_length (high + 1) x) same
              (record { range = range; above = low; below = omega (arith, up, place.below) })
        | inr (_, run) ↦ cc (rw run at e)
      ]

tip_target :
    (min_length initial : ℕ) (b : BlockIndex) (chain : List BlockIndex)
    → min_length ≤ initial
    → initial + length chain < 255
    → Follows min_length initial (b ∷ chain)
    → IsBetween min_length (initial + length chain) b.bits
unfolding get_next_work_required
tip_target min_length initial b [] order small (extend _ _ before e) =
    fixed_target min_length (initial + 0) min_length b.bits (omega (arith, small)) (omega arith)
      (omega arith) e
tip_target min_length initial b (p ∷ []) order small (extend _ _ before e) =
    fixed_target min_length (initial + 1) initial b.bits (omega (arith, small)) order (omega arith)
      e
tip_target min_length initial b (p ∷ q ∷ []) order small (extend _ _ before e) =
    fixed_target min_length (initial + 2) initial b.bits (omega (arith, small)) order (omega arith)
      e
tip_target min_length initial b (p ∷ q ∷ r ∷ chain) order small (extend _ _ before e) =
    let grown : initial + length {A = BlockIndex} (q ∷ r ∷ chain) + 1
        ≡ initial + length {A = BlockIndex} (p ∷ q ∷ r ∷ chain) =
      omega arith in
    subst (λ (h : ℕ). IsBetween min_length h b.bits) grown
      (stepped_target min_length p.bits b.bits (initial + length {A = BlockIndex} (q ∷ r ∷ chain)) _
        _ _ (tip_target min_length initial p (q ∷ r ∷ chain) order (omega (arith, small)) before)
        (omega (arith, small)) e)

-- In a chain in which every block has the bits that were required of it, short enough for the
-- length field, every block's target has a length from the minimal one up to the initial one and the
-- number of blocks before it.
pub Follows-bounds :
    (min_length initial : ℕ) (b : BlockIndex) (chain : List BlockIndex)
    → min_length ≤ initial
    → initial + length chain < 255
    → Follows min_length initial (b ∷ chain)
    → (IsU32 b.bits)
      × (min_length ≤ target_get_length b.bits)
      × (target_get_length b.bits ≤ initial + length chain)
Follows-bounds min_length initial b chain order small f =
    let t = tip_target min_length initial b chain order small f in (t.range, t.above, t.below)

-- In a chain in which every block has the bits that were required of it, short enough for the
-- length field, with a positive minimal length, the value of every block is the int64 of its fees and
-- a subsidy of whole cents up to 999 coins, added.
pub Follows-get_block_value :
    (min_length initial fees : ℕ) (b : BlockIndex) (chain : List BlockIndex)
    → 0 < min_length
    → min_length ≤ initial
    → initial + length chain < 255
    → Follows min_length initial (b ∷ chain)
    → (v : ℕ) × (get_block_value min_length b.bits (pos fees) ≡ some (int64 (pos (v + fees))))
      × (v % cent ≡ 0)
      × (v ≤ mint_limit)
unfolding get_block_value ◌+ℤ◌
Follows-get_block_value min_length initial fees b chain some_length order small f =
    let t = tip_target min_length initial b chain order small f in
    elim (target_get_mint_value min_length b.bits t.range some_length) [
      | inl (_, v, e, whole, low) ↦
          (v, rw (get_block_value, e) (ap some (ap int64 (ground arith))), whole, low)
      | inr (short, _) ↦ absurd (omega (arith, t.above))
    ]
