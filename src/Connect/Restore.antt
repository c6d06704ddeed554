-- ===== src/Connect/Restore.antt =====
-- Putting back an output that was spent gives the entry as it was.
use primmonero.Base.{
  ℕ, zero, suc, ◌+◌, ◌%◌, ◌^◌, ◌<◌, ◌≡◌, ◌≢◌, ◌⊎◌, refl, sym, ap, ◌∙◌, true, false, not, ◌&&◌, some,
  List, [], ◌∷◌, All, ltb, ◌==◌, length, get_or, Bool-cases, inl, inr, arith, Pair_path,
}
use mathlib.Core.Path.{subst}
use primmonero.Coins.{
  TxOut, null_out, is_null, Coins, TxInUndo, all_null, is_pruned, set_at, is_available,
}
use primmonero.Coins.Cleanup.{
  trim, trim-null, trim-trim, null_parts, vout-cleanup, is_available_lem, all_null-trim,
}
use primmonero.Coins.{cleanup, spend}
use primmonero.Coins.Spend.{spend_lem, IsUndo}
use primmonero.Coins.Store.{==_refl}
use primmonero.Transaction.{empty_coins}
use primmonero.Connect.Disconnect.{grow, put_back, reopened}

-- The outputs that are null are all alike, and none of them stands at the end.
abbrev pub AreCanonical : List TxOut → Type 0
AreCanonical os = All (λ o. is_null o ≡ true → o ≡ null_out) os

trim_tail : (o : TxOut) (os : List TxOut) → trim (o ∷ os) ≡ o ∷ os → trim os ≡ os
unfolding trim
trim_tail o os e = elim (Bool-cases (is_null o && all_null os)) [
  | inl all ↦ cc (rw (trim, all) at e)
  | inr left ↦ cc (rw (trim, left) at e)
]

set_at-grow :
    (os : List TxOut) (n : ℕ)
    → trim os ≡ os
    → AreCanonical os
    → is_null (get_or os n null_out) ≡ false
    → set_at (grow (trim (set_at os n null_out)) (suc n)) n (get_or os n null_out) ≡ os
unfolding set_at grow trim
set_at-grow [] n e can there = cc
set_at-grow (o ∷ os) zero e can there =
    let rest : trim os ≡ os = trim_tail o os e in
    elim (Bool-cases (all_null os)) [
      | inl all ↦
          let none_left : os ≡ [] = sym rest ∙ trim-null os all in
          rw (trim, all, set_at, grow) (ap (◌∷◌ o) (sym none_left))
      | inr left ↦ rw (trim, left, set_at, grow) (ap (◌∷◌ o) rest)
    ]
set_at-grow (o ∷ os) (suc n) e can there =
    let same = set_at-grow os n (trim_tail o os e) can.1 there in
    elim (Bool-cases (is_null o && all_null (set_at os n null_out))) [
      | inr left ↦ rw (trim, left, set_at, grow) (ap (◌∷◌ o) same)
      | inl all ↦
          let (null_o, rest_null) = null_parts (is_null o) (all_null (set_at os n null_out)) all in
          let none_left = trim-null (set_at os n null_out) rest_null in
          rw (trim, all, set_at, grow)
            (ap (λ x. null_out ∷ set_at (grow x (suc n)) n (get_or os n null_out)) (sym none_left)
              ∙ (ap (◌∷◌ null_out) same ∙ ap (λ x. x ∷ os) (sym (can.0 null_o))))
    ]

set_at-AreCanonical :
    (os : List TxOut) (n : ℕ) → AreCanonical os → AreCanonical (set_at os n null_out)
unfolding set_at
set_at-AreCanonical [] n can = tt
set_at-AreCanonical (o ∷ os) zero can = (λ e. refl, can.1)
set_at-AreCanonical (o ∷ os) (suc n) can = (can.0, set_at-AreCanonical os n can.1)

trim-AreCanonical : (os : List TxOut) → AreCanonical os → AreCanonical (trim os)
unfolding trim
trim-AreCanonical [] can = tt
trim-AreCanonical (o ∷ os) can = elim (Bool-cases (is_null o && all_null os)) [
  | inl all ↦ rw (trim, all) tt
  | inr left ↦ rw (trim, left) (can.0, trim-AreCanonical os can.1)
]

-- What the database has of an entry that is not pruned: no null output at its end, the others
-- without a script, and a height that is not 0.
abbrev pub IsSound : Coins → Type 0
IsSound c = (trim c.vout ≡ c.vout) × AreCanonical c.vout × (c.height ≢ 0)

cleanup_path : (c : Coins) → cleanup c ≡ record c { vout = trim c.vout }
unfolding cleanup
cleanup_path c = λ i. record c { vout = vout-cleanup c i }

-- The entry after a spend.
spent_entry :
    (c : Coins) (n : ℕ) (c' : Coins) (undo : TxInUndo)
    → spend c n ≡ some (c', undo)
    → c' ≡ record c { vout = trim (set_at c.vout n null_out) }
unfolding spend
spent_entry c n c' undo e = elim (Bool-cases (ltb n (length c.vout))) [
  | inr outside ↦ cc (rw (spend, outside) at e)
  | inl inside ↦ elim (Bool-cases (is_null (get_or c.vout n null_out))) [
    | inl gone ↦ cc (rw (spend, inside, gone) at e)
    | inr there ↦
        let q = rw (spend, inside, there) at e in
        let first : c' ≡ cleanup (record c { vout = set_at c.vout n null_out }) = cc in
        first ∙ cleanup_path (record c { vout = set_at c.vout n null_out })
  ]
]

pub spent-IsSound :
    (c : Coins) (n : ℕ) (c' : Coins) (undo : TxInUndo)
    → IsSound c
    → spend c n ≡ some (c', undo)
    → IsSound c'
spent-IsSound c n c' undo (trimmed, can, high) e = subst IsSound (sym (spent_entry c n c' undo e)) (
  trim-trim (set_at c.vout n null_out),
  trim-AreCanonical (set_at c.vout n null_out) (set_at-AreCanonical c.vout n can),
  high,
)

pub spend-IsUndo :
    (c : Coins) (n : ℕ) (c' : Coins) (undo : TxInUndo)
    → spend c n ≡ some (c', undo)
    → (is_available c n ≡ true)
      × (is_available c' n ≡ false)
      × IsUndo c (get_or c.vout n null_out) c' undo
spend-IsUndo c n c' undo e = elim (spend_lem c n) [
  | inl (gone, fails) ↦ cc
  | inr (there, after, undo', e', avail, rest) ↦
      let first : after ≡ c' = cc in
      let second : undo' ≡ undo = cc in
      (
        there,
        subst (λ x. is_available x n ≡ false) first
            (avail n ∙ ap (λ b. not b && is_available c n) (==_refl n)),
        subst (λ x. IsUndo c (get_or c.vout n null_out) x undo) first
            (subst (λ x. IsUndo c (get_or c.vout n null_out) after x) second rest),
      )
]

put_back_path :
    (c e : Coins) (n : ℕ) (out : TxOut)
    → IsSound c
    → suc n < 2 ^ 32
    → is_available c n ≡ true
    → e.coin_base ≡ c.coin_base
    → e.height ≡ c.height
    → e.version ≡ c.version
    → e.vout ≡ trim (set_at c.vout n null_out)
    → out ≡ get_or c.vout n null_out
    → put_back e n out ≡ c
unfolding put_back
put_back_path c e n out (trimmed, can, high) small there same_base same_height same_version
      same_vout same_out =
    λ i. record {
      coin_base = same_base i;
      vout = outs i;
      height = same_height i;
      version = same_version i;
    }
  where
    outs : set_at (grow e.vout ((n + 1) % 2 ^ 32)) n out ≡ c.vout
    outs =
        let size : (n + 1) % 2 ^ 32 ≡ suc n = ground (arith, small) in
        rw (size, same_vout, same_out)
          (set_at-grow c.vout n trimmed can (ground (arith, is_available_lem c n, there)))

-- A sound entry comes back when the output that was spent is put back, be it into the entry that was
-- left or, where nothing was left, into any entry that is pruned; and nothing looks wrong by that.
pub spend-put_back :
    (c : Coins) (n : ℕ) (c' : Coins) (undo : TxInUndo) (d : Coins)
    → IsSound c
    → suc n < 2 ^ 32
    → spend c n ≡ some (c', undo)
    → (d ≡ c') ⊎ ((is_pruned c' ≡ true) × (is_pruned d ≡ true))
    → (e : Coins) × (reopened d undo ≡ (true, e))
      × (is_available e n ≡ false)
      × (put_back e n undo.txout ≡ c)
unfolding reopened is_pruned is_available
spend-put_back c n c' undo d sound small e alike =
    let (there, taken, is_undo) = spend-IsUndo c n c' undo e in
    let (text, when_pruned, when_left) = is_undo in
    let after = spent_entry c n c' undo e in
    elim (Bool-cases (is_pruned c')) [
      | inl pruned ↦
          let (height, base, version) = when_pruned pruned in
          let high : (undo.height == 0) ≡ false = ground (arith, height, sound.2) in
          let e' : Coins = record empty_coins {
            coin_base = undo.coin_base;
            height = undo.height;
            version = undo.version;
          } in
          (
            e',
            rw (reopened, high) (Pair_path (gone_too d pruned alike) refl),
            is_available_lem e' n,
            put_back_path c e' n undo.txout sound small there base height version
                (nothing_left c n c' pruned after) text,
          )
      | inr left ↦
          let (height, base, version) = when_left left in
          let low : (undo.height == 0) ≡ true = ground (arith, height) in
          let same = kept d left alike in
          (
            d,
            rw (reopened, low) (Pair_path (ap (λ x. not (is_pruned x)) same ∙ ap not left) refl),
            ap (λ x. is_available x n) same ∙ taken,
            put_back_path c d n undo.txout sound small there
                (ap (λ (x : Coins). x.coin_base) (same ∙ after))
                (ap (λ (x : Coins). x.height) (same ∙ after))
                (ap (λ (x : Coins). x.version) (same ∙ after))
                (ap (λ (x : Coins). x.vout) (same ∙ after)) text,
          )
    ]
  where
    gone_too :
        (d : Coins)
        → is_pruned c' ≡ true
        → (d ≡ c') ⊎ ((is_pruned c' ≡ true) × (is_pruned d ≡ true))
        → is_pruned d ≡ true
    gone_too d pruned (inl same) = ap is_pruned same ∙ pruned
    gone_too d pruned (inr (_, gone)) = gone

    kept :
        (d : Coins)
        → is_pruned c' ≡ false
        → (d ≡ c') ⊎ ((is_pruned c' ≡ true) × (is_pruned d ≡ true))
        → d ≡ c'
    kept d left (inl same) = same
    kept d left (inr (pruned, _)) = cc

    nothing_left :
        (c : Coins) (n : ℕ) (c' : Coins)
        → is_pruned c' ≡ true
        → c' ≡ record c { vout = trim (set_at c.vout n null_out) }
        → [] ≡ trim (set_at c.vout n null_out)
    nothing_left c n c' pruned after =
        let all : all_null (trim (set_at c.vout n null_out)) ≡ true =
          ap (λ (x : Coins). all_null x.vout) (sym after) ∙ pruned in
        sym (
          trim-null (set_at c.vout n null_out)
            (sym (all_null-trim (set_at c.vout n null_out)) ∙ all))
