-- ===== src/Connect.antt =====
-- Connecting the transactions of a block to the coin database (src/servilo/main.cpp): inputs that
-- are spent, outputs that are added, and the undo information that is kept of it.
pub mod Disconnect
pub mod Restore
pub mod Views
pub mod Inputs
pub mod Outputs
pub mod CheckInputs
pub mod Values
pub mod Spendable
pub mod Block
pub mod Kept
pub mod Loop
pub mod Undone
mod Runs
use primmonero.Base.{
  ℕ, Bool, true, false, not, ◌&&◌, Option, none, some, List, [], ◌∷◌, ◌++◌, if◌then◌else◌, get_or,
}
use primmonero.Base.Int.{ℤ, pos}
use primmonero.Coins.{TxOut, null_out, Coins, TxInUndo, is_available, is_pruned, spend}
use primmonero.Coins.View.{CoinsView, Cache, is_some, fetch_coins, set_coins, have_coins}
use primmonero.Transaction.{OutPoint, TxIn, Transaction, is_coin_base, new_coins}

module _ (v : CoinsView) where
  -- CCoinsViewCache::GetCoins(txid), whose assertion fails (`none`) on a hash that is unknown.
  pub get_coins : Cache (v.State) → ℕ → Option (Coins × Cache (v.State))
  get_coins s j =
      let (found, s') = fetch_coins v s j in elim found [ none ↦ none | some c ↦ some (c, s') ]

  -- CCoins::Spend of an outpoint on the entry that GetCoins refers to; its assertion is `none`.
  pub spend_input : Cache (v.State) → TxIn → Option (TxInUndo × Cache (v.State))
  spend_input s i = elim (get_coins s i.prevout.hash) [
    | none ↦ none
    | some (c, s') ↦ elim (spend c i.prevout.n) [
      | none ↦ none
      | some (c', undo) ↦ some (undo, (set_coins v s' i.prevout.hash c').1)
    ]
  ]

  -- The loop of UpdateCoins: what is pushed to txundo.vprevout.
  pub spend_inputs : Cache (v.State) → List TxIn → Option (List TxInUndo × Cache (v.State))
  spend_inputs s [] = some ([], s)
  spend_inputs s (i ∷ is) = elim (spend_input s i) [
    | none ↦ none
    | some (undo, s') ↦ elim (spend_inputs s' is) [
      | none ↦ none
      | some (undos, s'') ↦ some (undo ∷ undos, s'')
    ]
  ]

  -- CTransaction::UpdateCoins with an empty txundo.
  pub update_coins :
      Cache (v.State) → Transaction → ℕ → ℕ → Option (List TxInUndo × Cache (v.State))
  update_coins s tx height hash =
      elim (if is_coin_base tx then some ([], s) else spend_inputs s tx.vin) [
        | none ↦ none
        | some (undos, s') ↦ some (undos, (set_coins v s' hash (new_coins tx height)).1)
      ]
