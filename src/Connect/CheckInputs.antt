-- ===== src/Connect/CheckInputs.antt =====
-- The checks of a transaction against the entries that it spends (GetOutputFor, GetValueIn,
-- GetP2SHSigOpCount, HaveInputs and CTransaction::CheckInputs in src/servilo/main.cpp), with the
-- scripts checked on the spot.
use primmonero.Base.{
  ℕ, ◌+◌, Bool, true, false, not, ◌&&◌, none, some, List, [], ◌∷◌, ltb, ◌≡◌, refl, ◌⊎◌, inl, inr,
  if◌then◌else◌, get_or,
}
use primmonero.Base.Int.{ℤ, pos, ◌+ℤ◌, ◌-ℤ◌, ltb_ℤ, int64}
use primmonero.Script.{is_pay_to_script_hash}
use primmonero.Script.CryptoOps.{Context}
use primmonero.Script.SigOps.{get_sig_op_count_of}
use primmonero.Script.Eval.{verify_script}
use primmonero.Coins.{TxOut, null_out, is_available}
use primmonero.Coins.View.{CoinsView, Cache, have_coins, get_best_block}
use primmonero.Transaction.{TxIn, Transaction, is_coin_base}
use primmonero.Transaction.Check.{money_range, get_value_out}
use primmonero.Transaction.Fee.{get_min_fee, gmf_block}
use primmonero.Connect.{get_coins}

-- How a check ends: with a failed assertion or an exception, with a score for the peer, or well.
pub data Step {ℓ} (A : Type ℓ) : Type ℓ where
  aborted : Step A
  rejected : ℕ → Step A
  passed : A → Step A

pub Step-cases {ℓ} :
    {A : Type ℓ} (r : Step A)
    → ((a : A) × (r ≡ passed a)) ⊎ ((r ≡ aborted) ⊎ ((score : ℕ) × (r ≡ rejected score)))
Step-cases (passed a) = inl (a, refl)
Step-cases aborted = inr (inl refl)
Step-cases (rejected score) = inr (inr (score, refl))

abbrev pub coinbase_maturity : ℕ
coinbase_maturity = 3000

module _ (v : CoinsView) where
  unfoldable pub get_output_for : Cache (v.State) → TxIn → Step (TxOut × Cache (v.State))
  get_output_for s i = elim (get_coins v s i.prevout.hash) [
    | none ↦ aborted
    | some (c, s') ↦
        if is_available c i.prevout.n
        then passed (get_or c.vout i.prevout.n null_out, s')
        else aborted
  ]

  unfoldable pub sum_inputs : Cache (v.State) → ℤ → List TxIn → Step (ℤ × Cache (v.State))
  sum_inputs s total [] = passed (total, s)
  sum_inputs s total (i ∷ is) = elim (get_output_for s i) [
    | aborted ↦ aborted
    | rejected score ↦ rejected score
    | passed (o, s') ↦ sum_inputs s' (int64 (total +ℤ o.value)) is
  ]

  unfoldable pub get_value_in : Cache (v.State) → Transaction → Step (ℤ × Cache (v.State))
  get_value_in s tx = if is_coin_base tx then passed (pos 0, s) else sum_inputs s (pos 0) tx.vin

  unfoldable pub sum_p2sh : Cache (v.State) → ℕ → List TxIn → Step (ℕ × Cache (v.State))
  sum_p2sh s count [] = passed (count, s)
  sum_p2sh s count (i ∷ is) = elim (get_output_for s i) [
    | aborted ↦ aborted
    | rejected score ↦ rejected score
    | passed (o, s') ↦
        sum_p2sh s'
          (if is_pay_to_script_hash o.script
            then count + get_sig_op_count_of o.script i.script_sig
            else count)
          is
  ]

  unfoldable pub get_p2sh_sig_op_count : Cache (v.State) → Transaction → Step (ℕ × Cache (v.State))
  get_p2sh_sig_op_count s tx = if is_coin_base tx then passed (0, s) else sum_p2sh s 0 tx.vin

  -- The two loops of HaveInputs.
  unfoldable pub have_hashes : Cache (v.State) → List TxIn → Bool × Cache (v.State)
  have_hashes s [] = (true, s)
  have_hashes s (i ∷ is) =
      let (have, s') = have_coins v s i.prevout.hash in
      elim have [ true ↦ have_hashes s' is | false ↦ (false, s') ]

  unfoldable pub have_outputs : Cache (v.State) → List TxIn → Step (Bool × Cache (v.State))
  have_outputs s [] = passed (true, s)
  have_outputs s (i ∷ is) = elim (get_coins v s i.prevout.hash) [
    | none ↦ aborted
    | some (c, s') ↦ elim (is_available c i.prevout.n) [
      | true ↦ have_outputs s' is
      | false ↦ passed (false, s')
    ]
  ]

  unfoldable pub have_inputs : Cache (v.State) → Transaction → Step (Bool × Cache (v.State))
  have_inputs s tx =
      if is_coin_base tx
      then passed (true, s)
      else (let (have, s') = have_hashes s tx.vin in
          elim have [ true ↦ have_outputs s' tx.vin | false ↦ passed (false, s') ])

  -- The loop over the amounts. The access to the vector is within it, since HaveInputs held.
  unfoldable pub check_values : ℕ → Cache (v.State) → ℤ → List TxIn → Step (ℤ × Cache (v.State))
  check_values spend_height s total [] = passed (total, s)
  check_values spend_height s total (i ∷ is) = elim (get_coins v s i.prevout.hash) [
    | none ↦ aborted
    | some (c, s') ↦ elim (c.coin_base && ltb spend_height (c.height + coinbase_maturity)) [
      | true ↦ rejected 0
      | false ↦
          let value = (get_or c.vout i.prevout.n null_out).value in
          elim (money_range value && money_range (total +ℤ value)) [
            | true ↦ check_values spend_height s' (total +ℤ value) is
            | false ↦ rejected 100
          ]
    ]
  ]

  -- The script of an input: with SCRIPT_VERIFY_STRICTENC, a failure is tried again without it.
  module _ (context : Bool → Transaction → ℕ → Context) (p2sh strict : Bool) where
    pub script_check : Transaction → ℕ → TxIn → List ℕ → Step Bool
    script_check tx n i script =
        elim (verify_script (context strict tx n) p2sh i.script_sig script) [
          | none ↦ aborted
          | some true ↦ passed true
          | some false ↦
              if strict
              then (elim (verify_script (context false tx n) p2sh i.script_sig script) [
                | none ↦ aborted
                | some true ↦ rejected 0
                | some false ↦ rejected 100
              ])
              else rejected 100
        ]

    unfoldable pub check_scripts :
        Cache (v.State) → Transaction → ℕ → List TxIn → Step (Cache (v.State))
    check_scripts s tx n [] = passed s
    check_scripts s tx n (i ∷ is) = elim (get_coins v s i.prevout.hash) [
      | none ↦ aborted
      | some (c, s') ↦ elim (script_check tx n i (get_or c.vout i.prevout.n null_out).script) [
        | aborted ↦ aborted
        | rejected score ↦ rejected score
        | passed _ ↦ check_scripts s' tx (n + 1) is
      ]
    ]

    -- The fee: what goes in less what comes out. GetMinFee is called with its default arguments.
    unfoldable pub check_fee : ℕ → ℕ → Transaction → ℤ → Step ℤ
    check_fee min_tx_fee min_relay_tx_fee tx value_in = elim (get_value_out tx) [
      | none ↦ aborted
      | some value_out ↦
          if ltb_ℤ value_in value_out
          then rejected 100
          else if ltb_ℤ (value_in -ℤ value_out) (pos 0)
          then rejected 100
          else if ltb_ℤ (value_in -ℤ value_out)
              (pos (get_min_fee min_tx_fee min_relay_tx_fee tx 1 false gmf_block))
          then rejected 100
          else if not (money_range (value_in -ℤ value_out))
          then rejected 100
          else passed (value_in -ℤ value_out)
    ]

    -- CheckInputs behind HaveInputs; `height_of` is the height of a block of the index.
    unfoldable pub check_amounts :
        (ℕ → ℕ) → ℕ → ℕ → Bool → Cache (v.State) → Transaction → Step (Cache (v.State))
    check_amounts height_of min_tx_fee min_relay_tx_fee script_checks s tx =
        let (best, s') = get_best_block v s in
        elim best [
          | none ↦ aborted
          | some block ↦ elim (check_values (height_of block + 1) s' (pos 0) tx.vin) [
            | aborted ↦ aborted
            | rejected score ↦ rejected score
            | passed (value_in, s'') ↦ elim (check_fee min_tx_fee min_relay_tx_fee tx value_in) [
              | aborted ↦ aborted
              | rejected score ↦ rejected score
              | passed fee ↦ elim script_checks [
                | true ↦ check_scripts s'' tx 0 tx.vin
                | false ↦ passed s''
              ]
            ]
          ]
        ]

    -- CheckInputs.
    unfoldable pub check_inputs :
        (ℕ → ℕ) → ℕ → ℕ → Bool → Cache (v.State) → Transaction → Step (Cache (v.State))
    check_inputs height_of min_tx_fee min_relay_tx_fee script_checks s tx =
        if is_coin_base tx then passed s else elim (have_inputs s tx) [
          | aborted ↦ aborted
          | rejected score ↦ rejected score
          | passed (have, s') ↦ elim have [
            | true ↦ check_amounts height_of min_tx_fee min_relay_tx_fee script_checks s' tx
            | false ↦ rejected 0
          ]
        ]
