-- ===== src/Coins/Runs.antt =====
-- Runs of the coin database's entries.
use primmonero.Base.{ℕ, ◌≡◌, refl, true, false, not, ◌&&◌, none, some, [], ◌∷◌, ◌==◌, ◌⊎◌, get_or}
use primmonero.Base.Int.{pos}
use primmonero.Coins.{
  TxOut, TxInUndo, null_out, Coins, pop_nulls, cleanup, is_available, set_at, keep_last, spend,
}
use primmonero.Coins.Spend.{IsUndo, spend_lem}

abbrev fifty : TxOut
fifty = record { value = pos 50; script = 81 ∷ [] }

abbrev two_outputs : Coins
two_outputs = record {
  coin_base = true;
  vout = fifty ∷ null_out ∷ fifty ∷ null_out ∷ [];
  height = 120;
  version = pos 1;
}

cleanup-two_outputs : (cleanup two_outputs).vout ≡ fifty ∷ null_out ∷ fifty ∷ []
unfolding cleanup pop_nulls
cleanup-two_outputs = refl

spend_first :
    spend two_outputs 0
    ≡ some (
      record two_outputs { vout = null_out ∷ null_out ∷ fifty ∷ [] },
      record { txout = fifty; coin_base = false; height = 0; version = pos 0 },
    )
unfolding spend cleanup pop_nulls set_at keep_last
spend_first = refl

spend_last :
    spend (record two_outputs { vout = null_out ∷ null_out ∷ fifty ∷ [] }) 2
    ≡ some (
      record two_outputs { vout = [] },
      record { txout = fifty; coin_base = true; height = 120; version = pos 1 },
    )
unfolding spend cleanup pop_nulls set_at keep_last
spend_last = refl

spend_lem_example :
    ((is_available two_outputs 2 ≡ false) × (spend two_outputs 2 ≡ none))
    ⊎ ((is_available two_outputs 2 ≡ true)
        × (after : Coins) × (undo : TxInUndo) × (spend two_outputs 2 ≡ some (after, undo))
        × ((m : ℕ) → is_available after m ≡ (not (m == 2) && is_available two_outputs m))
        × IsUndo two_outputs (get_or two_outputs.vout 2 null_out) after undo)
spend_lem_example = spend_lem two_outputs 2
