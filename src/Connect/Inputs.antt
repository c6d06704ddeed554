-- ===== src/Connect/Inputs.antt =====
-- The inputs of a transaction are spent one after another, and put back in the opposite order.
use primmonero.Base.{
  ℕ, suc, ◌^◌, ◌<◌, ◌≡◌, ◌⊎◌, refl, sym, ap, ◌∙◌, true, false, Option, none, some, List, [], ◌∷◌,
  All, length, Bool-cases, Option-cases, inl, inr, arith,
}
use mathlib.Core.Path.{subst}
use primmonero.Coins.{Coins, TxInUndo, all_null, is_pruned, is_available, spend}
use primmonero.Coins.Cleanup.{is_available_lem, all_null-get_or}
use primmonero.Coins.Store.{updated}
use primmonero.Coins.View.{CoinsView, Cache, fetch_coins, set_coins}
use primmonero.Coins.View.Refinement.{Abstraction, IsSource}
use primmonero.Transaction.{TxIn}
use primmonero.Connect.{get_coins, spend_input, spend_inputs}
use primmonero.Connect.Disconnect.{Outcome, done, or_empty, restore_input, restore_inputs}
use primmonero.Connect.Restore.{IsSound, spent-IsSound, spend-put_back, spend-IsUndo}
use primmonero.Connect.Views.{
  Entries, is_gone, Alike, AreSound, updated_same, updated_other, updated-cases, updated-AreSound,
  updated-Alike, Represents, fetch_coins_step, set_coins_step,
}

is_available-is_pruned : (c : Coins) (n : ℕ) → is_available c n ≡ true → is_pruned c ≡ false
unfolding is_pruned
is_available-is_pruned c n e = elim (Bool-cases (is_pruned c)) [
  | inr left ↦ left
  | inl pruned ↦ ground (arith, is_available_lem c n, all_null-get_or c.vout n pruned)
]

is_pruned-or_empty : (o : Option Coins) → is_gone o ≡ true → is_pruned (or_empty o) ≡ true
unfolding is_pruned all_null
is_pruned-or_empty none e = refl
is_pruned-or_empty (some c) e = e

or_empty_alike :
    (o : Option Coins) (c : Coins)
    → (o ≡ some c) ⊎ ((is_gone o ≡ true) × (is_gone (some c) ≡ true))
    → (or_empty o ≡ c) ⊎ ((is_pruned c ≡ true) × (is_pruned (or_empty o) ≡ true))
or_empty_alike o c (inl same) = inl (ap or_empty same)
or_empty_alike o c (inr (gone, pruned)) = inr (pruned, is_pruned-or_empty o gone)

-- A hash without an entry stays without one when the entry of another changes.
gone_stays :
    (f f' : Entries) (k : ℕ) (c d : Coins)
    → f k ≡ some c
    → is_pruned c ≡ false
    → ((j : ℕ) → is_gone (updated f k d j) ≡ true → f' j ≡ updated f k d j)
    → (j : ℕ) → is_gone (f j) ≡ true
    → f' j ≡ f j
gone_stays f f' k c d there live kept =
    updated-cases (λ j. is_gone (f j) ≡ true → f' j ≡ f j) k
      (λ gone. cc (sym (ap is_gone there) ∙ gone, live))
      (λ j other gone.
        let same = updated_other f k d j other in kept j (ap is_gone same ∙ gone) ∙ same)

-- An outpoint's position whose successor is of 32 bits as well.
abbrev pub IsSmall : TxIn → Type 0
IsSmall i = suc i.prevout.n < 2 ^ 32

module _ (v : CoinsView) (a : Abstraction v) (laws : IsSource v a) where
  pub get_coins_step :
      (f : Entries) (b : Option ℕ) (s : Cache (v.State)) (j : ℕ) (c : Coins) (s' : Cache (v.State))
      → Represents v a laws f b s
      → get_coins v s j ≡ some (c, s')
      → (f j ≡ some c) × Represents v a laws f b s'
  unfolding get_coins
  get_coins_step f b s j c s' shows e =
      let (found, shows') = fetch_coins_step v a laws f b s j shows in
      elim (Option-cases ((fetch_coins v s j).0)) [
        | inl missing ↦ cc (rw (get_coins, missing) at e)
        | inr (d, there) ↦
            let q = rw (get_coins, there) at e in
            let same : d ≡ c = cc in
            let after : (fetch_coins v s j).1 ≡ s' = cc in
            (sym found ∙ (there ∙ ap some same), subst (Represents v a laws f b) after shows')
      ]

  spend_input_step :
      (f : Entries) (b : Option ℕ) (s : Cache (v.State)) (i : TxIn) (undo : TxInUndo)
      (s' : Cache (v.State))
      → Represents v a laws f b s
      → spend_input v s i ≡ some (undo, s')
      → (c : Coins) × (c' : Coins) × (f i.prevout.hash ≡ some c)
        × (spend c i.prevout.n ≡ some (c', undo))
        × Represents v a laws (updated f i.prevout.hash c') b s'
  unfolding spend_input
  spend_input_step f b s i undo s' shows e = elim (Option-cases (get_coins v s i.prevout.hash)) [
    | inl missing ↦ cc (rw (spend_input, missing) at e)
    | inr ((c, s1), there) ↦ elim (Option-cases (spend c i.prevout.n)) [
      | inl fails ↦ cc (rw (spend_input, there, fails) at e)
      | inr ((c', undo'), spent) ↦
          let (entry, shows1) = get_coins_step f b s i.prevout.hash c s1 shows there in
          let q = rw (spend_input, there, spent) at e in
          let same : undo' ≡ undo = cc in
          let after : (set_coins v s1 i.prevout.hash c').1 ≡ s' = cc in
          (
            c,
            c',
            entry,
            spent ∙ ap (λ u. some (c', u)) same,
            subst (Represents v a laws (updated f i.prevout.hash c') b) after
                (set_coins_step v a laws f b s1 i.prevout.hash c' shows1),
          )
    ]
  ]

  restore_input_step :
      (f g : Entries) (b : Option ℕ) (t : Cache (v.State)) (i : TxIn) (c c' : Coins)
      (undo : TxInUndo)
      → Represents v a laws g b t
      → IsSmall i
      → IsSound c
      → f i.prevout.hash ≡ some c
      → spend c i.prevout.n ≡ some (c', undo)
      → Alike g (updated f i.prevout.hash c')
      → (t' : Cache (v.State)) × (restore_input v true t i undo ≡ done true t')
        × Represents v a laws (updated g i.prevout.hash c) b t'
  unfolding restore_input set_coins
  restore_input_step f g b t i c c' undo shows small sound entry spent alike =
      let (found, shows') = fetch_coins_step v a laws g b t i.prevout.hash shows in
      let (e, opened, free, back) =
        spend-put_back c i.prevout.n c' undo (or_empty (g i.prevout.hash)) sound small spent (
          or_empty_alike (g i.prevout.hash) c' (
            subst
              (λ o.
                (g i.prevout.hash ≡ o) ⊎ ((is_gone (g i.prevout.hash) ≡ true) × (is_gone o ≡ true)))
              (updated_same f i.prevout.hash c') (alike i.prevout.hash))) in
      (
        (set_coins v (fetch_coins v t i.prevout.hash).1 i.prevout.hash c).1,
        rw (found, opened, free, back) refl,
        set_coins_step v a laws g b (fetch_coins v t i.prevout.hash).1 i.prevout.hash c shows',
      )

  -- A way to undo a change: from entries that are like those after it, with any best block, it
  -- leads to entries like those before it, with nothing amiss.
  abbrev pub IsUndone : Entries → Entries → (Cache (v.State) → Outcome (v.State)) → Type 0
  IsUndone f f' undo =
      (g : Entries) (b : Option ℕ) (t : Cache (v.State))
      → Represents v a laws g b t
      → Alike g f'
      → (t' : Cache (v.State)) × (g' : Entries) × (undo t ≡ done true t')
        × Represents v a laws g' b t'
        × Alike g' f

  abbrev pub AreRestored : Entries → Entries → List TxIn → List TxInUndo → Type 0
  AreRestored f f' is undos = IsUndone f f' (λ t. restore_inputs v true t is undos)

  pub spend_inputs_step :
      (f : Entries) (b : Option ℕ) (s : Cache (v.State)) (is : List TxIn) (undos : List TxInUndo)
      (s' : Cache (v.State))
      → Represents v a laws f b s
      → AreSound f
      → All IsSmall is
      → spend_inputs v s is ≡ some (undos, s')
      → (f' : Entries) × Represents v a laws f' b s'
        × AreSound f'
        × ((j : ℕ) → is_gone (f j) ≡ true → f' j ≡ f j)
        × (length undos ≡ length is)
        × AreRestored f f' is undos
  unfolding spend_inputs restore_inputs
  spend_inputs_step f b s [] undos s' shows sound small e =
      let none_kept : [] ≡ undos = cc in
      let same : s ≡ s' = cc in
      (
        f,
        subst (Represents v a laws f b) same shows,
        sound,
        λ j gone. refl,
        ap length (sym none_kept),
        λ g b' t shows' alike. (
          t,
          g,
          subst (λ us. restore_inputs v true t [] us ≡ done true t) none_kept refl,
          shows',
          alike,
        ),
      )
  spend_inputs_step f b s (i ∷ is) undos s' shows sound small e =
      elim (Option-cases (spend_input v s i)) [
        | inl fails ↦ cc (rw (spend_inputs, fails) at e)
        | inr ((undo, s1), first) ↦ elim (Option-cases (spend_inputs v s1 is)) [
          | inl fails ↦ cc (rw (spend_inputs, first, fails) at e)
          | inr ((undos', s2), rest) ↦
              let q = rw (spend_inputs, first, rest) at e in
              let us : undo ∷ undos' ≡ undos = cc in
              let last : s2 ≡ s' = cc in
              let (c, c', entry, spent, shows1) = spend_input_step f b s i undo s1 shows first in
              let live =
                is_available-is_pruned c i.prevout.n (spend-IsUndo c i.prevout.n c' undo spent).0 in
              let whole = sound i.prevout.hash c entry live in
              let sound1 =
                updated-AreSound f i.prevout.hash c' sound
                  (λ left. spent-IsSound c i.prevout.n c' undo whole spent) in
              let (f', shows', sound', kept', size', undone') =
                spend_inputs_step (updated f i.prevout.hash c') b s1 is undos' s2 shows1 sound1
                  small.1 rest in
              (
                f',
                subst (Represents v a laws f' b) last shows',
                sound',
                gone_stays f f' i.prevout.hash c c' entry live kept',
                subst (λ us. length us ≡ suc (length is)) us (ap suc size'),
                subst (AreRestored f f' (i ∷ is)) us (λ g b' t shows_g alike.
                    let (t1, g1, run1, shows_g1, alike1) = undone' g b' t shows_g alike in
                    let (t2, run2, shows_g2) =
                      restore_input_step f g1 b' t1 i c c' undo shows_g1 small.0 whole entry spent
                        alike1 in
                    (
                      t2,
                      updated g1 i.prevout.hash c,
                      rw (restore_inputs, run1) run2,
                      shows_g2,
                      updated-Alike f g1 i.prevout.hash c c' alike1 entry,
                    )),
              )
        ]
      ]
