-- ===== src/Connect/Outputs.antt =====
-- A transaction as a whole: its inputs are spent and its outputs added, and both are undone.
use primmonero.Base.{
  ℕ, ◌≡◌, ◌≢◌, ◌⊎◌, refl, sym, ap, ◌∙◌, Bool, true, false, Option, some, List, [], ◌∷◌, All, length,
  ◌==◌, Option-cases, inl, inr, ==_iff,
}
use primmonero.Base.Int.{ℤ, pos, negsuc}
use mathlib.Core.Path.{subst}
use primmonero.Script.{bytes_eq}
use primmonero.Coins.{TxOut, Coins, TxInUndo, is_null, is_pruned, all_null}
use primmonero.Coins.Cleanup.{trim}
use primmonero.Coins.Store.{updated, ==_refl}
use primmonero.Coins.View.{CoinsView, Cache, is_some, fetch_coins, set_coins, have_coins}
use primmonero.Coins.View.Refinement.{Abstraction, IsSource}
use primmonero.Transaction.{Transaction, is_coin_base, new_coins, empty_coins}
use primmonero.Connect.{get_coins, spend_inputs, update_coins}
use primmonero.Connect.Disconnect.{
  done, int_eq, bool_eq, outs_eq, coins_eq, with_version, remove_outputs, disconnect_tx,
}
use primmonero.Connect.Restore.{IsSound, AreCanonical}
use primmonero.Connect.Views.{
  Entries, is_gone, AreSound, updated_same, updated_other, updated-AreSound, updated-gone,
  Represents, fetch_coins_step, have_coins_step, set_coins_step,
}
use primmonero.Connect.Inputs.{IsSmall, IsUndone, spend_inputs_step}

int_eq_refl : (a : ℤ) → int_eq a a ≡ true
unfolding int_eq
int_eq_refl (pos n) = ==_refl n
int_eq_refl (negsuc n) = ==_refl n

bytes_eq_refl : (x : List ℕ) → bytes_eq x x ≡ true
bytes_eq_refl [] = refl
bytes_eq_refl (b ∷ x) = rw (==_refl b, bytes_eq_refl x) refl

outs_eq_refl : (os : List TxOut) → outs_eq os os ≡ true
unfolding outs_eq
outs_eq_refl [] = refl
outs_eq_refl (o ∷ os) =
    rw (outs_eq, int_eq_refl o.value, bytes_eq_refl o.script, outs_eq_refl os) refl

bool_eq_refl : (b : Bool) → bool_eq b b ≡ true
unfolding bool_eq
bool_eq_refl true = refl
bool_eq_refl false = refl

coins_eq_refl : (c : Coins) → coins_eq c c ≡ true
unfolding coins_eq
coins_eq_refl c =
    rw
      (
        coins_eq,
        bool_eq_refl c.coin_base,
        ==_refl c.height,
        int_eq_refl c.version,
        outs_eq_refl c.vout,
      )
      refl

with_version_same : (c : Coins) → with_version c c ≡ c
unfolding with_version
with_version_same c = by_version c.version refl
  where
    by_version :
        (z : ℤ)
        → c.version ≡ z
        → (elim z [ pos n ↦ c | negsuc n ↦ record c { version = negsuc n } ]) ≡ c
    by_version (pos n) e = refl
    by_version (negsuc n) e = sym (λ i. record c { version = e i })

-- The outputs of a transaction that is not refused: there are some, and none of them is null.
abbrev pub AreOutputs : List TxOut → Type 0
AreOutputs os = (os ≢ []) × All (λ o. is_null o ≡ false) os

outputs_left : (os : List TxOut) → AreOutputs os → all_null os ≡ false
unfolding all_null
outputs_left [] (some_out, full) = absurd (some_out refl)
outputs_left (o ∷ os) (some_out, full) = rw (all_null, full.0) refl

outputs_trim : (os : List TxOut) → All (λ o. is_null o ≡ false) os → trim os ≡ os
unfolding trim
outputs_trim [] full = refl
outputs_trim (o ∷ os) full = rw (trim, full.0) (ap (◌∷◌ o) (outputs_trim os full.1))

outputs-AreCanonical : (os : List TxOut) → All (λ o. is_null o ≡ false) os → AreCanonical os
outputs-AreCanonical [] full = tt
outputs-AreCanonical (o ∷ os) full = (λ e. cc (full.0, e), outputs-AreCanonical os full.1)

new_coins-is_pruned :
    (tx : Transaction) (height : ℕ) → AreOutputs tx.vout → is_pruned (new_coins tx height) ≡ false
unfolding is_pruned
new_coins-is_pruned tx height outs = outputs_left tx.vout outs

new_coins-IsSound :
    (tx : Transaction) (height : ℕ)
    → AreOutputs tx.vout
    → height ≢ 0
    → IsSound (new_coins tx height)
new_coins-IsSound tx height outs high =
    (outputs_trim tx.vout outs.1, outputs-AreCanonical tx.vout outs.1, high)

empty_pruned : is_pruned empty_coins ≡ true
unfolding is_pruned all_null
empty_pruned = refl

-- An entry that is not gone is the same in entries that are alike.
live_alike :
    (o p : Option Coins) (c : Coins)
    → p ≡ some c
    → is_pruned c ≡ false
    → (o ≡ p) ⊎ ((is_gone o ≡ true) × (is_gone p ≡ true))
    → o ≡ some c
live_alike o p c e left (inl same) = same ∙ e
live_alike o p c e left (inr (gone, gone')) = cc (sym (ap is_gone e) ∙ gone', left)

module _ (v : CoinsView) (a : Abstraction v) (laws : IsSource v a) where
  get_coins_there :
      (f : Entries) (b : Option ℕ) (s : Cache (v.State)) (j : ℕ) (c : Coins)
      → Represents v a laws f b s
      → f j ≡ some c
      → get_coins v s j ≡ some (c, (fetch_coins v s j).1)
  unfolding get_coins
  get_coins_there f b s j c shows e =
      let found = (fetch_coins_step v a laws f b s j shows).0 ∙ e in rw (get_coins, found) refl

  remove_outputs_step :
      (g : Entries) (b : Option ℕ) (t : Cache (v.State)) (tx : Transaction) (height hash : ℕ)
      → Represents v a laws g b t
      → g hash ≡ some (new_coins tx height)
      → (t' : Cache (v.State)) × (remove_outputs v true t tx height hash ≡ done true t')
        × Represents v a laws (updated g hash empty_coins) b t'
  unfolding remove_outputs
  remove_outputs_step g b t tx height hash shows e =
      let (have, shows1) = have_coins_step v a laws g b t hash shows in
      let there = have ∙ ap is_some e in
      let t1 = (have_coins v t hash).1 in
      let found = get_coins_there g b t1 hash (new_coins tx height) shows1 e in
      (
        (set_coins v (fetch_coins v t1 hash).1 hash empty_coins).1,
        rw
            (
              remove_outputs,
              there,
              found,
              with_version_same (new_coins tx height),
              coins_eq_refl (new_coins tx height),
            )
            (rw there refl),
        set_coins_step v a laws g b (fetch_coins v t1 hash).1 hash empty_coins
            (fetch_coins_step v a laws g b t1 hash shows1).1,
      )

  remove_outputs-IsUndone :
      (f : Entries) (tx : Transaction) (height hash : ℕ)
      → AreOutputs tx.vout
      → is_gone (f hash) ≡ true
      → IsUndone v a laws f
          (updated f hash (new_coins tx height))
          (λ t. remove_outputs v true t tx height hash)
  remove_outputs-IsUndone f tx height hash outs gone g b t shows alike =
      let here =
        live_alike (g hash) (updated f hash (new_coins tx height) hash) (new_coins tx height)
          (updated_same f hash (new_coins tx height)) (new_coins-is_pruned tx height outs)
          (alike hash) in
      let (t', run, shows') = remove_outputs_step g b t tx height hash shows here in
      (
        t',
        updated g hash empty_coins,
        run,
        shows',
        updated-gone f g hash empty_coins (new_coins tx height) alike gone empty_pruned,
      )

  -- What a transaction's changes leave: the entries without one, but for its own, stay so.
  abbrev pub IsTaken : Entries → Entries → ℕ → Type 0
  IsTaken f f' hash =
      AreSound f' × ((j : ℕ) → (j == hash) ≡ false → is_gone (f j) ≡ true → f' j ≡ f j)

  add_outputs_step :
      (f f1 : Entries) (b : Option ℕ) (s : Cache (v.State)) (tx : Transaction) (height hash : ℕ)
      → Represents v a laws f1 b s
      → AreSound f1
      → ((j : ℕ) → is_gone (f j) ≡ true → f1 j ≡ f j)
      → AreOutputs tx.vout
      → height ≢ 0
      → Represents v a laws
          (updated f1 hash (new_coins tx height))
          b
          (set_coins v s hash (new_coins tx height)).1
        × IsTaken f (updated f1 hash (new_coins tx height)) hash
  add_outputs_step f f1 b s tx height hash shows sound kept outs high = (
    set_coins_step v a laws f1 b s hash (new_coins tx height) shows,
    (
      updated-AreSound f1 hash (new_coins tx height) sound
          (λ left. new_coins-IsSound tx height outs high),
      λ j other gone. updated_other f1 hash (new_coins tx height) j other ∙ kept j gone,
    ),
  )

  pub update_coin_base_step :
      (f : Entries) (b : Option ℕ) (s : Cache (v.State)) (tx : Transaction) (height hash : ℕ)
      (undos : List TxInUndo) (s' : Cache (v.State))
      → Represents v a laws f b s
      → AreSound f
      → is_coin_base tx ≡ true
      → AreOutputs tx.vout
      → height ≢ 0
      → is_gone (f hash) ≡ true
      → update_coins v s tx height hash ≡ some (undos, s')
      → (f' : Entries) × Represents v a laws f' b s'
        × IsTaken f f' hash
        × IsUndone v a laws f f' (λ t. remove_outputs v true t tx height hash)
  unfolding update_coins
  update_coin_base_step f b s tx height hash undos s' shows sound base outs high gone e =
      let q = rw (update_coins, base) at e in
      let same : (set_coins v s hash (new_coins tx height)).1 ≡ s' = cc in
      let (shows', taken) =
        add_outputs_step f f b s tx height hash shows sound (λ j gone. refl) outs high in
      (
        updated f hash (new_coins tx height),
        subst (Represents v a laws (updated f hash (new_coins tx height)) b) same shows',
        taken,
        remove_outputs-IsUndone f tx height hash outs gone,
      )

  pub update_coins_step :
      (f : Entries) (b : Option ℕ) (s : Cache (v.State)) (tx : Transaction) (height hash : ℕ)
      (undos : List TxInUndo) (s' : Cache (v.State))
      → Represents v a laws f b s
      → AreSound f
      → is_coin_base tx ≡ false
      → All IsSmall tx.vin
      → AreOutputs tx.vout
      → height ≢ 0
      → is_gone (f hash) ≡ true
      → update_coins v s tx height hash ≡ some (undos, s')
      → (f' : Entries) × Represents v a laws f' b s'
        × IsTaken f f' hash
        × IsUndone v a laws f f' (λ t. disconnect_tx v true t tx height hash undos)
  unfolding update_coins disconnect_tx
  update_coins_step f b s tx height hash undos s' shows sound base small outs high gone e =
      elim (Option-cases (spend_inputs v s tx.vin)) [
        | inl fails ↦ cc (rw (update_coins, base, fails) at e)
        | inr ((undos', s1), spent) ↦
            let q = rw (update_coins, base, spent) at e in
            let us : undos' ≡ undos = cc in
            let same : (set_coins v s1 hash (new_coins tx height)).1 ≡ s' = cc in
            let (f1, shows1, sound1, kept1, size, undone) =
              spend_inputs_step v a laws f b s tx.vin undos' s1 shows sound small spent in
            let (shows', taken) =
              add_outputs_step f f1 b s1 tx height hash shows1 sound1 kept1 outs high in
            let removed =
              remove_outputs-IsUndone f1 tx height hash outs
                (ap is_gone (kept1 hash gone) ∙ gone) in
            (
              updated f1 hash (new_coins tx height),
              subst (Represents v a laws (updated f1 hash (new_coins tx height)) b) same shows',
              taken,
              λ g b' t shows_g alike.
                  let (t1, g1, run1, shows_g1, alike1) = removed g b' t shows_g alike in
                  let (t2, g2, run2, shows_g2, alike2) = undone g1 b' t1 shows_g1 alike1 in
                  let sizes : (length undos' == length tx.vin) ≡ true =
                    (==_iff (length undos') (length tx.vin)).1 size in
                  (
                    t2,
                    g2,
                    subst (λ x. disconnect_tx v true t tx height hash x ≡ done true t2) us
                        (rw (disconnect_tx, run1, sizes) run2),
                    shows_g2,
                    alike2,
                  ),
            )
      ]
