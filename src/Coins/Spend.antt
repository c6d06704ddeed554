-- ===== src/Coins/Spend.antt =====
-- What spending an output does to the entry and to the undo information.
use primmonero.Base.{
  ◌↔◌, ℕ, zero, suc, ◌≡◌, ◌≢◌, refl, sym, ap, ◌∙◌, Bool, true, false, not, ◌&&◌, none, some, List,
  [], ◌∷◌, ltb, ◌==◌, length, get_or, Bool-cases, inl, inr, ◌⊎◌, arith,
}
use primmonero.Base.Int.{pos}
use primmonero.Coins.{
  TxOut, TxInUndo, null_out, is_null, Coins, cleanup, is_available, is_pruned, set_at, keep_last,
  spend,
}
use primmonero.Coins.Cleanup.{is_available_lem, is_available-cleanup, cleanup-is_pruned}

false_right : (b : Bool) → (b && false) ≡ false
false_right true = refl
false_right false = refl

get_or-set_at :
    (os : List TxOut) (n m : ℕ)
    → not (is_null (get_or (set_at os n null_out) m null_out))
      ≡ (not (m == n) && not (is_null (get_or os m null_out)))
unfolding set_at
get_or-set_at [] n m = sym (false_right (not (m == n)))
get_or-set_at (o ∷ os) zero zero = ground arith
get_or-set_at (o ∷ os) zero (suc m) = ground arith
get_or-set_at (o ∷ os) (suc n) zero = ground arith
get_or-set_at (o ∷ os) (suc n) (suc m) =
    get_or-set_at os n m ∙ ap (λ b. not b && not (is_null (get_or os m null_out))) (ground arith)

keep_last_lem :
    (c : Coins) (undo : TxInUndo)
    → (c.vout ≡ []
        → keep_last c undo
          ≡ record undo { height = c.height; coin_base = c.coin_base; version = c.version })
      × (c.vout ≢ [] → keep_last c undo ≡ undo)
unfolding keep_last
keep_last_lem c undo =
    elim (c.vout)
      as (λ (os : List TxOut).
        (os ≡ []
          → (elim os [
            | [] ↦ record undo { height = c.height; coin_base = c.coin_base; version = c.version }
            | o ∷ os ↦ undo
          ])
            ≡ record undo { height = c.height; coin_base = c.coin_base; version = c.version })
        × (os ≢ []
            → (elim os [
              | [] ↦ record undo { height = c.height; coin_base = c.coin_base; version = c.version }
              | o ∷ os ↦ undo
            ])
              ≡ undo)) [ [] ↦ (λ e. refl, λ ne. absurd (ne refl)) | o ∷ os ↦ (λ e. cc, λ ne. refl) ]

cleaned_empty : (c : Coins) → ((cleanup c).vout ≡ []) ↔ (is_pruned (cleanup c) ≡ true)
cleaned_empty c =
    let (again, same) = cleanup-is_pruned (cleanup c) in
    let (there, back) = again in
    (
      λ e. there (ap (λ (x : Coins). x.vout) (cleanup-is_pruned c).1 ∙ e),
      λ e. sym (ap (λ (x : Coins). x.vout) (cleanup-is_pruned c).1) ∙ back e,
    )

-- The undo information of a spent output: the rest of the entry is kept in it when the entry is
-- pruned by that, and only then.
abbrev pub IsUndo : Coins → TxOut → Coins → TxInUndo → Type 0
IsUndo before out after undo =
    (undo.txout ≡ out)
    × ((is_pruned after ≡ true)
        → (undo.height ≡ before.height)
          × (undo.coin_base ≡ before.coin_base)
          × (undo.version ≡ before.version))
    × ((is_pruned after ≡ false)
        → (undo.height ≡ 0) × (undo.coin_base ≡ false) × (undo.version ≡ pos 0))

spent : Coins → ℕ → Coins
spent c n = record c { vout = set_at c.vout n null_out }

bare_undo : Coins → ℕ → TxInUndo
bare_undo c n = record {
  txout = get_or c.vout n null_out;
  coin_base = false;
  height = 0;
  version = pos 0;
}

spent-IsUndo :
    (c : Coins) (n : ℕ)
    → IsUndo c
        (get_or c.vout n null_out)
        (cleanup (spent c n))
        (keep_last (cleanup (spent c n)) (bare_undo c n))
unfolding cleanup spent bare_undo
spent-IsUndo c n = elim (Bool-cases (is_pruned (cleanup (spent c n)))) [
  | inl pruned ↦
      let e =
        (keep_last_lem (cleanup (spent c n)) (bare_undo c n)).0
          ((cleaned_empty (spent c n)).1 pruned) in
      (
        ap (λ (u : TxInUndo). u.txout) e,
        λ p. (
          ap (λ (u : TxInUndo). u.height) e,
          ap (λ (u : TxInUndo). u.coin_base) e,
          ap (λ (u : TxInUndo). u.version) e,
        ),
        λ p. cc,
      )
  | inr left ↦
      let e =
        (keep_last_lem (cleanup (spent c n)) (bare_undo c n)).1
          (λ v. let full = (cleaned_empty (spent c n)).0 v in cc) in
      (
        ap (λ (u : TxInUndo). u.txout) e,
        λ p. cc,
        λ p. (
          ap (λ (u : TxInUndo). u.height) e,
          ap (λ (u : TxInUndo). u.coin_base) e,
          ap (λ (u : TxInUndo). u.version) e,
        ),
      )
]

spent_available :
    (c : Coins) (n m : ℕ)
    → is_available (cleanup (spent c n)) m ≡ (not (m == n) && is_available c m)
unfolding spent
spent_available c n m =
    is_available-cleanup (spent c n) m
    ∙ (is_available_lem (spent c n) m
        ∙ (get_or-set_at c.vout n m ∙ ap (λ b. not (m == n) && b) (sym (is_available_lem c m))))

-- Spending fails exactly on an output that is not available. Otherwise that output, and no other,
-- stops being available, and the undo information has the output, with the height, the coinbase
-- mark and the version of the entry if nothing is left unspent in it, and with none of them if
-- something is.
pub spend_lem :
    (c : Coins) (n : ℕ)
    → ((is_available c n ≡ false) × (spend c n ≡ none))
      ⊎ ((is_available c n ≡ true)
          × (after : Coins) × (undo : TxInUndo) × (spend c n ≡ some (after, undo))
          × ((m : ℕ) → is_available after m ≡ (not (m == n) && is_available c m))
          × IsUndo c (get_or c.vout n null_out) after undo)
unfolding spend spent bare_undo
spend_lem c n = elim (Bool-cases (ltb n (length c.vout))) [
  | inr outside ↦ inl (unfold is_available in rw outside refl, rw (spend, outside) refl)
  | inl inside ↦ elim (Bool-cases (is_null (get_or c.vout n null_out))) [
    | inl gone ↦ inl (is_available_lem c n ∙ ap not gone, rw (spend, inside, gone) refl)
    | inr there ↦ inr (
      is_available_lem c n ∙ ap not there,
      cleanup (spent c n),
      keep_last (cleanup (spent c n)) (bare_undo c n),
      rw (spend, inside, there) refl,
      spent_available c n,
      spent-IsUndo c n,
    )
  ]
]
