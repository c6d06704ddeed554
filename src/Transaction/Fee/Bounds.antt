-- ===== src/Transaction/Fee/Bounds.antt =====
-- What GetMinFee asks for, on both sides of the free area and however full the block is.
use primmonero.Base.{
  ℕ, ◌∙◌, ◌≢◌, All, ◌+◌, ◌-◌, ◌*◌, ◌/◌, ◌%◌, ◌^◌, ◌≤◌, ◌<◌, ◌≡◌, refl, ◌⊎◌, Bool, true, false, not,
  ◌&&◌, List, [], ◌∷◌, ltb, leb, ◌==◌, if◌then◌else◌, Bool-cases, inl, inr, arith,
}
use mathlib.Core.Path.{subst}
use native.Mathlib.Nat.{le-div_iff_mul-le, div-le_self}
use primmonero.Base.Int.{ℤ, pos, ltb_ℤ, ◌≤ℤ◌, ◌+ℤ◌, +ℤ_parts}
use primmonero.Coins.{TxOut}
use primmonero.Transaction.{Transaction}
use primmonero.Transaction.Format.{get_serialize_size}
use primmonero.Target.{cent}
use primmonero.Transaction.Check.{max_money}
use primmonero.Transaction.Fee.{
  GetMinFeeMode, gmf_block, gmf_relay, gmf_send, max_block_size_gen, int64_mod, signed_ltb,
  fee_of_outputs, free_fee, limited, raised_fee, base_fee, asked_fee, get_min_fee,
}

-- The sizes below which a transaction may be free.
abbrev pub free_area : GetMinFeeMode → ℕ
free_area gmf_block = 29_000
free_area gmf_relay = 29_000
free_area gmf_send = 1_000

-- An output of less than CENT, and none.
abbrev pub HasDust : List TxOut → Type 0
HasDust [] = ⊥
HasDust (o ∷ os) = (o.value +ℤ pos 1 ≤ℤ pos cent) ⊎ HasDust os

abbrev pub HasNoDust : List TxOut → Type 0
HasNoDust = All (λ o. pos cent ≤ℤ o.value)

fee_of_outputs-cases :
    (base fee : ℕ) (os : List TxOut)
    → (HasDust os × (fee_of_outputs base fee os ≡ base))
      ⊎ (HasNoDust os × (fee_of_outputs base fee os ≡ fee))
unfolding fee_of_outputs
fee_of_outputs-cases base fee [] = inr (tt, refl)
fee_of_outputs-cases base fee (o ∷ os) = elim (Bool-cases (ltb_ℤ o.value (pos cent))) [
  | inl dust ↦
      rw (fee_of_outputs, dust)
        (inl (
          inl (below_cent o.value dust),
          elim (fee_of_outputs-cases base base os) [ inl (_, e) ↦ e | inr (_, e) ↦ e ],
        ))
  | inr more ↦
      rw (fee_of_outputs, more)
        (elim (fee_of_outputs-cases base fee os) [
          | inl (later, e) ↦ inl (inr later, e)
          | inr (none_later, e) ↦ inr ((at_cent o.value more, none_later), e)
        ])
]
  where
    below_cent : (v : ℤ) → ltb_ℤ v (pos cent) ≡ true → v +ℤ pos 1 ≤ℤ pos cent
    below_cent v e = ground (arith, +ℤ_parts v (pos 1), e)

    at_cent : (v : ℤ) → ltb_ℤ v (pos cent) ≡ false → pos cent ≤ℤ v
    at_cent v e = ground (arith, e)

limited-cases :
    (fee : ℕ) → (limited fee ≤ max_money) × ((limited fee ≡ fee) ⊎ (limited fee ≡ max_money))
limited-cases fee = elim (Bool-cases (ltb max_money fee)) [
  | inl over ↦ rw over (omega arith, inr refl)
  | inr under ↦ rw under (ground (arith, under), inl refl)
]

raised_fee_cap : (block_size new_size fee : ℕ) → raised_fee block_size new_size fee ≤ max_money
unfolding raised_fee
raised_fee_cap block_size new_size fee = ground arith

-- The price rises by whole factors, or the fee is MAX_MONEY.
raised_fee-factor :
    (block_size new_size fee : ℕ)
    → fee * 500_000 < 2 ^ 63
    → ((k : ℕ) × (1 ≤ k) × (raised_fee block_size new_size fee ≡ fee * k))
      ⊎ (raised_fee block_size new_size fee ≡ max_money)
unfolding raised_fee
raised_fee-factor block_size new_size fee small =
    elim (Bool-cases (not (block_size == 1) && leb (max_block_size_gen / 2) new_size)) [
      | inr early ↦
          rw (raised_fee, early)
            (elim (limited-cases fee).1 [
              | inl same ↦ inl (1, omega arith, same ∙ omega arith)
              | inr capped ↦ inr capped
            ])
      | inl late ↦ elim (Bool-cases (leb max_block_size_gen new_size)) [
        | inl full ↦ rw (raised_fee, late, full) (inr refl)
        | inr room ↦
            let (least, most) =
              factor_bounds (max_block_size_gen - new_size) (ground (arith, room)) in
            let exact = unwrapped (max_block_size_gen / (max_block_size_gen - new_size)) most in
            rw (raised_fee, late, room)
              (elim (limited-cases
                (fee * (max_block_size_gen / (max_block_size_gen - new_size)) % int64_mod)).1 [
                  | inl same ↦
                      inl
                        (max_block_size_gen / (max_block_size_gen - new_size), least, same ∙ exact)
                  | inr capped ↦ inr capped
                ])
      ]
    ]
  where
    factor_bounds :
        (left : ℕ)
        → (0 < left) × (left ≤ max_block_size_gen)
        → (1 ≤ max_block_size_gen / left) × (max_block_size_gen / left ≤ 500_000)
    factor_bounds left (some_left, inside) =
        ((le-div_iff_mul-le some_left).1 (omega arith), div-le_self max_block_size_gen left)

    unwrapped : (k : ℕ) → k ≤ 500_000 → fee * k % int64_mod ≡ fee * k
    unwrapped k most = let h : fee * k ≤ fee * 500_000 = grind arith in omega (arith, h, small)

-- The two sides of the free area.
free_fee-cases :
    (mode : GetMinFeeMode) (allow_free : Bool) (bytes fee : ℕ)
    → (((allow_free ≡ false) ⊎ (free_area mode ≤ bytes))
        × (free_fee mode allow_free bytes fee ≡ fee))
      ⊎ ((allow_free ≡ true) × (bytes < free_area mode) × (free_fee mode allow_free bytes fee ≡ 0))
unfolding free_fee
free_fee-cases mode false bytes fee = inl (inl refl, refl)
free_fee-cases gmf_block true bytes fee = ground arith
free_fee-cases gmf_relay true bytes fee = ground arith
free_fee-cases gmf_send true bytes fee = ground arith

module _ (min_tx_fee min_relay_tx_fee : ℕ) (tx : Transaction) (allow_free : Bool)
    (mode : GetMinFeeMode) where
  -- The base fee for each 1000 bytes begun.
  abbrev pub due_fee : ℕ
  due_fee = (1 + get_serialize_size tx / 1000) * base_fee min_tx_fee min_relay_tx_fee mode

  abbrev pub IsCharged : Type 0
  IsCharged = (allow_free ≡ false) ⊎ (free_area mode ≤ get_serialize_size tx)

  abbrev pub IsInFreeArea : Type 0
  IsInFreeArea = (allow_free ≡ true) × (get_serialize_size tx < free_area mode)

  -- What a fee is for, before the block's size counts.
  abbrev pub IsFeeFor : (ℕ → Type 0) → Type 0
  IsFeeFor is_asked =
      (IsCharged × is_asked due_fee)
      ⊎ (IsInFreeArea
          × (mode ≡ gmf_send)
          × HasDust tx.vout
          × is_asked (base_fee min_tx_fee min_relay_tx_fee mode))
      ⊎ (IsInFreeArea × ((mode ≢ gmf_send) ⊎ HasNoDust tx.vout) × is_asked 0)

-- A transaction that is sent for nothing, after the loop over its outputs.
sent_fee :
    (base : ℕ) (os : List TxOut)
    → base < 2 ^ 63
    → (HasDust os × ((if signed_ltb 0 base && true then fee_of_outputs base 0 os else 0) ≡ base))
      ⊎ (HasNoDust os × ((if signed_ltb 0 base && true then fee_of_outputs base 0 os else 0) ≡ 0))
sent_fee base os small = elim (Bool-cases (signed_ltb 0 base)) [
  | inl some_base ↦ rw some_base (fee_of_outputs-cases base 0 os)
  | inr no_base ↦ rw no_base (elim (fee_of_outputs-cases base 0 os) [
    | inl (dust, _) ↦ inl (dust, ground (arith, no_base))
    | inr (no_dust, _) ↦ inr (no_dust, refl)
  ])
]

asked_fee-free :
    (min_tx_fee min_relay_tx_fee : ℕ) (tx : Transaction) (allow_free : Bool) (mode : GetMinFeeMode)
    → base_fee min_tx_fee min_relay_tx_fee mode < 2 ^ 63
    → free_fee mode allow_free
        (get_serialize_size tx)
        ((1 + get_serialize_size tx / 1000) * base_fee min_tx_fee min_relay_tx_fee mode % int64_mod)
      ≡ 0
    → ((mode ≡ gmf_send)
        × HasDust tx.vout
        × (asked_fee min_tx_fee min_relay_tx_fee tx allow_free mode
            ≡ base_fee min_tx_fee min_relay_tx_fee mode))
      ⊎ (((mode ≢ gmf_send) ⊎ HasNoDust tx.vout)
          × (asked_fee min_tx_fee min_relay_tx_fee tx allow_free mode ≡ 0))
unfolding asked_fee
asked_fee-free min_tx_fee min_relay_tx_fee tx allow_free gmf_block small e =
    inr (inl (λ same. cc), rw (asked_fee, e) (ground arith))
asked_fee-free min_tx_fee min_relay_tx_fee tx allow_free gmf_relay small e =
    inr (inl (λ same. cc), rw (asked_fee, e) (ground arith))
asked_fee-free min_tx_fee min_relay_tx_fee tx allow_free gmf_send small e =
    elim (sent_fee min_tx_fee tx.vout small) [
      | inl (dust, sent) ↦ inl (refl, dust, rw (asked_fee, e) sent)
      | inr (no_dust, sent) ↦ inr (inr no_dust, rw (asked_fee, e) sent)
    ]

asked_fee-cases :
    (min_tx_fee min_relay_tx_fee : ℕ) (tx : Transaction) (allow_free : Bool) (mode : GetMinFeeMode)
    → due_fee min_tx_fee min_relay_tx_fee tx allow_free mode < 2 ^ 63
    → IsFeeFor min_tx_fee min_relay_tx_fee tx allow_free mode
        (λ n. asked_fee min_tx_fee min_relay_tx_fee tx allow_free mode ≡ n)
unfolding asked_fee
asked_fee-cases min_tx_fee min_relay_tx_fee tx allow_free mode small =
    let base = base_fee min_tx_fee min_relay_tx_fee mode in
    let due = due_fee min_tx_fee min_relay_tx_fee tx allow_free mode in
    let exact : due % int64_mod ≡ due = omega (arith, small) in
    let (fits, enough) = base_fits (get_serialize_size tx / 1000) base small in
    elim (free_fee-cases mode allow_free (get_serialize_size tx) (due % int64_mod)) [
      | inl (charged, e) ↦ inl (charged, rw (asked_fee, e, exact, enough) refl)
      | inr (free, under, e) ↦
          inr (elim (asked_fee-free min_tx_fee min_relay_tx_fee tx allow_free mode fits e) [
            | inl (send, dust, asked) ↦ inl ((free, under), send, dust, asked)
            | inr (other, asked) ↦ inr ((free, under), other, asked)
          ])
    ]
  where
    base_fits :
        (k base : ℕ)
        → (1 + k) * base < 2 ^ 63
        → (base < 2 ^ 63) × (signed_ltb ((1 + k) * base) base ≡ false)
    base_fits k base h =
        let le : base ≤ (1 + k) * base = grind arith in
        (omega (arith, le, h), ground (arith, le, h))

-- A positive multiple of a fee, or MAX_MONEY.
abbrev pub IsRaised : ℕ → ℕ → Type 0
IsRaised fee asked = ((k : ℕ) × (1 ≤ k) × (fee ≡ asked * k)) ⊎ (fee ≡ max_money)

raised_fee_of :
    (block_size new_size fee asked : ℕ)
    → asked * 500_000 < 2 ^ 63
    → fee ≡ asked
    → IsRaised (raised_fee block_size new_size fee) asked
raised_fee_of block_size new_size fee asked small e =
    subst (λ n. IsRaised (raised_fee block_size new_size fee) n) e
      (raised_fee-factor block_size new_size fee (rw e small))

-- As long as the base fee for each 1000 bytes begun, times 500000, fits an int64, GetMinFee gives a
-- positive multiple of a fee, or else MAX_MONEY, and never more than MAX_MONEY. That fee is the base
-- fee for each 1000 bytes begun, for a transaction that may not be free or has at least 1000 bytes
-- when it is sent, 29000 bytes otherwise. For any other it is the base fee, when it is sent with an
-- output of less than CENT, and else nothing.
pub get_min_fee-bounds :
    (min_tx_fee min_relay_tx_fee : ℕ) (tx : Transaction) (block_size : ℕ) (allow_free : Bool)
    (mode : GetMinFeeMode)
    → due_fee min_tx_fee min_relay_tx_fee tx allow_free mode * 500_000 < 2 ^ 63
    → let fee = get_min_fee min_tx_fee min_relay_tx_fee tx block_size allow_free mode in
      (fee ≤ max_money) × IsFeeFor min_tx_fee min_relay_tx_fee tx allow_free mode (IsRaised fee)
unfolding get_min_fee
get_min_fee-bounds min_tx_fee min_relay_tx_fee tx block_size allow_free mode small =
    let new_size = (block_size + get_serialize_size tx) % 2 ^ 32 in
    let asked = asked_fee min_tx_fee min_relay_tx_fee tx allow_free mode in
    let base_small : base_fee min_tx_fee min_relay_tx_fee mode * 500_000 < 2 ^ 63 =
      per_thousand (get_serialize_size tx / 1000) (base_fee min_tx_fee min_relay_tx_fee mode)
        small in
    (
      raised_fee_cap block_size new_size asked,
      elim (asked_fee-cases min_tx_fee min_relay_tx_fee tx allow_free mode (omega (arith, small))) [
        | inl (charged, e) ↦ inl (charged, raised_fee_of block_size new_size asked _ small e)
        | inr (inl (free, send, dust, e)) ↦
            inr (inl (free, send, dust, raised_fee_of block_size new_size asked _ base_small e))
        | inr (inr (free, other, e)) ↦
            inr (inr (free, other, raised_fee_of block_size new_size asked 0 (omega arith) e))
      ],
    )
  where
    per_thousand : (k base : ℕ) → (1 + k) * base * 500_000 < 2 ^ 63 → base * 500_000 < 2 ^ 63
    per_thousand k base h = let le : base ≤ (1 + k) * base = grind arith in omega (arith, le, h)
