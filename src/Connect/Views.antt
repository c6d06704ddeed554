-- ===== src/Connect/Views.antt =====
-- The entries that a cache shows, as a function, and what the cache's operations do to it.
use primmonero.Base.{
  ℕ, ◌≡◌, refl, sym, ap, ◌∙◌, Bool, true, false, Option, none, some, ◌==◌, if◌then◌else◌, ◌⊎◌, inl,
  inr, Bool-cases, ==_iff,
}
use mathlib.Core.Path.{subst}
use primmonero.Coins.{Coins, is_pruned}
use primmonero.Coins.Store.{updated, ==_refl}
use primmonero.Coins.View.{
  CoinsView, Cache, is_some, fetch_coins, set_coins, have_coins, get_best_block, set_best_block,
}
use primmonero.Coins.View.Refinement.{Abstraction, Shows, IsSource, cache_abstraction, cache-IsView}
use primmonero.Connect.Restore.{IsSound}

abbrev pub Entries : Type 0
Entries = ℕ → Option Coins

-- An entry with nothing unspent is as good as none.
abbrev pub is_gone : Option Coins → Bool
is_gone none = true
is_gone (some c) = is_pruned c

-- The same entries, up to those that are gone.
abbrev pub Alike : Entries → Entries → Type 0
Alike f g = (j : ℕ) → (f j ≡ g j) ⊎ ((is_gone (f j) ≡ true) × (is_gone (g j) ≡ true))

abbrev pub AreSound : Entries → Type 0
AreSound f = (j : ℕ) (c : Coins) → f j ≡ some c → is_pruned c ≡ false → IsSound c

pub updated_same : (f : Entries) (k : ℕ) (c : Coins) → updated f k c k ≡ some c
updated_same f k c = rw (==_refl k) refl

pub updated_other :
    (f : Entries) (k : ℕ) (c : Coins) (j : ℕ) → (j == k) ≡ false → updated f k c j ≡ f j
updated_other f k c j e = rw e refl

-- What one entry's change does, by cases.
pub updated-cases {ℓ} :
    (P : ℕ → Type ℓ) (k : ℕ) → P k → ((j : ℕ) → (j == k) ≡ false → P j) → (j : ℕ) → P j
updated-cases P k here there j = elim (Bool-cases (j == k)) [
  | inl same ↦ subst P (sym ((==_iff j k).0 same)) here
  | inr other ↦ there j other
]

pub updated-AreSound :
    (f : Entries) (k : ℕ) (c : Coins)
    → AreSound f
    → (is_pruned c ≡ false → IsSound c)
    → AreSound (updated f k c)
updated-AreSound f k c sound here =
    updated-cases (λ j. (d : Coins) → updated f k c j ≡ some d → is_pruned d ≡ false → IsSound d) k
      (λ d e left.
        let same : c ≡ d = cc (updated_same f k c, e) in
        subst IsSound same (here (ap is_pruned same ∙ left)))
      (λ j other d e left. sound j d (sym (updated_other f k c j other) ∙ e) left)

-- An entry that goes back to what it was.
pub updated-Alike :
    (f g : Entries) (k : ℕ) (c d : Coins)
    → Alike g (updated f k d)
    → f k ≡ some c
    → Alike (updated g k c) f
updated-Alike f g k c d alike e =
    updated-cases
      (λ j. (updated g k c j ≡ f j) ⊎ ((is_gone (updated g k c j) ≡ true) × (is_gone (f j) ≡ true)))
      k (inl (updated_same g k c ∙ sym e))
      (λ j other. rw (other) (
        subst (λ o. (g j ≡ o) ⊎ ((is_gone (g j) ≡ true) × (is_gone o ≡ true)))
          (updated_other f k d j other) (alike j)))

-- An entry that is gone on both sides.
pub updated-gone :
    (f g : Entries) (k : ℕ) (c d : Coins)
    → Alike g (updated f k d)
    → is_gone (f k) ≡ true
    → is_pruned c ≡ true
    → Alike (updated g k c) f
updated-gone f g k c d alike gone e =
    updated-cases
      (λ j. (updated g k c j ≡ f j) ⊎ ((is_gone (updated g k c j) ≡ true) × (is_gone (f j) ≡ true)))
      k (inr (ap is_gone (updated_same g k c) ∙ e, gone))
      (λ j other. rw (other) (
        subst (λ o. (g j ≡ o) ⊎ ((is_gone (g j) ≡ true) × (is_gone o ≡ true)))
          (updated_other f k d j other) (alike j)))

module _ (v : CoinsView) (a : Abstraction v) (laws : IsSource v a) where
  abbrev pub Represents : Entries → Option ℕ → Cache (v.State) → Type 0
  Represents f b s = Shows (cache_abstraction v a) f b s

  pub fetch_coins_step :
      (f : Entries) (b : Option ℕ) (s : Cache (v.State)) (j : ℕ)
      → Represents f b s
      → ((fetch_coins v s j).0 ≡ f j) × Represents f b (fetch_coins v s j).1
  fetch_coins_step f b s j (valid, same, best) =
      let (found, shows) = (cache-IsView v a laws).get_coins_lem s j valid in
      let (valid', same', best') = shows in
      (found ∙ same j, (valid', λ i. same' i ∙ same i, best' ∙ best))

  pub have_coins_step :
      (f : Entries) (b : Option ℕ) (s : Cache (v.State)) (j : ℕ)
      → Represents f b s
      → ((have_coins v s j).0 ≡ is_some (f j)) × Represents f b (have_coins v s j).1
  have_coins_step f b s j (valid, same, best) =
      let (found, shows) = (cache-IsView v a laws).have_coins_lem s j valid in
      let (valid', same', best') = shows in
      (found ∙ ap is_some (same j), (valid', λ i. same' i ∙ same i, best' ∙ best))

  pub set_coins_step :
      (f : Entries) (b : Option ℕ) (s : Cache (v.State)) (k : ℕ) (c : Coins)
      → Represents f b s
      → Represents (updated f k c) b (set_coins v s k c).1
  set_coins_step f b s k c (valid, same, best) =
      let (done, shows) = (cache-IsView v a laws).set_coins_lem s k c valid in
      let (valid', same', best') = shows in
      (valid', λ i. same' i ∙ ap (λ o. if i == k then some c else o) (same i), best' ∙ best)

  pub get_best_block_step :
      (f : Entries) (b : Option ℕ) (s : Cache (v.State))
      → Represents f b s
      → ((get_best_block v s).0 ≡ b) × Represents f b (get_best_block v s).1
  get_best_block_step f b s (valid, same, best) =
      let (found, shows) = (cache-IsView v a laws).get_best_block_lem s valid in
      let (valid', same', best') = shows in
      (found ∙ best, (valid', λ i. same' i ∙ same i, best' ∙ best))

  pub set_best_block_step :
      (f : Entries) (b : Option ℕ) (s : Cache (v.State)) (block : ℕ)
      → Represents f b s
      → Represents f (some block) (set_best_block v s (some block)).1
  set_best_block_step f b s block (valid, same, best) =
      let (done, shows) = (cache-IsView v a laws).set_best_block_lem s block valid in
      let (valid', same', best') = shows in (valid', λ i. same' i ∙ same i, best')
