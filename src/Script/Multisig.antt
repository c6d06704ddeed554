-- ===== src/Script/Multisig.antt =====
-- The matching loop of OP_CHECKMULTISIG against its specification.
use primmonero.Base.{
  ◌⊎◌, ◌↔◌, ◌≤◌, ◌≡◌, refl, sym, ◌∙◌, Bool, true, false, List, [], ◌∷◌, ltb, if◌then◌else◌, length,
  Bool-cases, inl, inr, arith,
}
use primmonero.Script.{Bytes}
use primmonero.Script.CryptoOps.{match_sigs}

-- Each signature is that of a key of its own, the keys in the order of the signatures; other keys
-- may stand between.
pub data Matching (check : Bytes → Bytes → Bool) : List Bytes → List Bytes → Type 0 where
  none_left : (keys : List Bytes) → Matching check [] keys
  skip :
      (sigs : List Bytes) (key : Bytes) (keys : List Bytes)
      → Matching check sigs keys
      → Matching check sigs (key ∷ keys)
  take_key :
      (sig : Bytes) (sigs : List Bytes) (key : Bytes) (keys : List Bytes)
      → check sig key ≡ true
      → Matching check sigs keys
      → Matching check (sig ∷ sigs) (key ∷ keys)

module _ (check : Bytes → Bytes → Bool) where
  Matching-length : (sigs keys : List Bytes) → Matching check sigs keys → length sigs ≤ length keys
  Matching-length _ _ (none_left keys) = omega arith
  Matching-length _ _ (skip sigs key keys m) = omega (arith, Matching-length sigs keys m)
  Matching-length _ _ (take_key sig sigs key keys ok m) = omega (arith, Matching-length sigs keys m)

  Matching-tail :
      (sig : Bytes) (sigs keys : List Bytes)
      → Matching check (sig ∷ sigs) keys
      → Matching check sigs keys
  Matching-tail sig sigs [] m = elim m [ ]
  Matching-tail sig sigs (key ∷ keys) (skip _ _ _ m) =
      skip sigs key keys (Matching-tail sig sigs keys m)
  Matching-tail sig sigs (key ∷ keys) (take_key _ _ _ _ ok m) = skip sigs key keys m

  -- The loop takes the first key that fits.
  greedy :
      (sig : Bytes) (sigs : List Bytes) (key : Bytes) (keys : List Bytes)
      → Matching check (sig ∷ sigs) (key ∷ keys)
      → check sig key ≡ true
      → Matching check sigs keys
  greedy sig sigs key keys (skip _ _ _ m) ok = Matching-tail sig sigs keys m
  greedy sig sigs key keys (take_key _ _ _ _ _ m) ok = m

  refused :
      (sig : Bytes) (sigs : List Bytes) (key : Bytes) (keys : List Bytes)
      → Matching check (sig ∷ sigs) (key ∷ keys)
      → check sig key ≡ false
      → Matching check (sig ∷ sigs) keys
  refused sig sigs key keys (skip _ _ _ m) bad = m
  refused sig sigs key keys (take_key _ _ _ _ ok m) bad = cc

  match_step :
      (sig : Bytes) (sigs : List Bytes) (key : Bytes) (keys left : List Bytes)
      → (if check sig key then sigs else sig ∷ sigs) ≡ left
      → ((ltb (length keys) (length left) ≡ true)
          × (match_sigs check (sig ∷ sigs) (key ∷ keys) ≡ false))
        ⊎ ((ltb (length keys) (length left) ≡ false)
            × (match_sigs check (sig ∷ sigs) (key ∷ keys) ≡ match_sigs check left keys))
  unfolding match_sigs
  match_step sig sigs key keys left e = elim (Bool-cases (ltb (length keys) (length left))) [
    | inl few ↦ inl (few, rw (match_sigs, e, few) refl)
    | inr enough ↦ inr (enough, rw (match_sigs, e, enough) refl)
  ]

  match_sigs-Matching :
      (sigs keys : List Bytes) → match_sigs check sigs keys ≡ true → Matching check sigs keys
  unfolding match_sigs
  match_sigs-Matching [] keys e = none_left keys
  match_sigs-Matching (sig ∷ sigs) [] e = cc
  match_sigs-Matching (sig ∷ sigs) (key ∷ keys) e = elim (Bool-cases (check sig key)) [
    | inl ok ↦ elim (match_step sig sigs key keys sigs (rw ok refl)) [
      | inl (_, stop) ↦ cc
      | inr (_, go) ↦ take_key sig sigs key keys ok (match_sigs-Matching sigs keys (sym go ∙ e))
    ]
    | inr bad ↦ elim (match_step sig sigs key keys (sig ∷ sigs) (rw bad refl)) [
      | inl (_, stop) ↦ cc
      | inr (_, go) ↦
          skip (sig ∷ sigs) key keys (match_sigs-Matching (sig ∷ sigs) keys (sym go ∙ e))
    ]
  ]

  Matching-match_sigs :
      (sigs keys : List Bytes) → Matching check sigs keys → match_sigs check sigs keys ≡ true
  unfolding match_sigs
  Matching-match_sigs [] keys m = refl
  Matching-match_sigs (sig ∷ sigs) [] m = absurd (omega (arith, Matching-length (sig ∷ sigs) [] m))
  Matching-match_sigs (sig ∷ sigs) (key ∷ keys) m = elim (Bool-cases (check sig key)) [
    | inl ok ↦
        let rest = greedy sig sigs key keys m ok in
        elim (match_step sig sigs key keys sigs (rw ok refl)) [
          | inl (few, _) ↦ absurd (ground (arith, few, Matching-length sigs keys rest))
          | inr (_, go) ↦ go ∙ Matching-match_sigs sigs keys rest
        ]
    | inr bad ↦
        let rest = refused sig sigs key keys m bad in
        elim (match_step sig sigs key keys (sig ∷ sigs) (rw bad refl)) [
          | inl (few, _) ↦ absurd (ground (arith, few, Matching-length (sig ∷ sigs) keys rest))
          | inr (_, go) ↦ go ∙ Matching-match_sigs (sig ∷ sigs) keys rest
        ]
  ]

  -- The loop succeeds exactly when the signatures can be matched with keys in their order, each
  -- with a key of its own.
  pub match_sigs_iff :
      (sigs keys : List Bytes) → (match_sigs check sigs keys ≡ true) ↔ Matching check sigs keys
  match_sigs_iff sigs keys = (match_sigs-Matching sigs keys, Matching-match_sigs sigs keys)
