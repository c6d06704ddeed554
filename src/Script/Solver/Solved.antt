-- ===== src/Script/Solver/Solved.antt =====
-- Solver finds the keys of a script that SetMultisig writes.
use primmonero.Base.{
  ℕ, ◌*◌, zero, suc, ◌+◌, ◌-◌, ◌≤◌, ◌<◌, ◌≡◌, refl, sym, ap, ◌∙◌, true, false, none, some, List, [],
  ◌∷◌, ◌++◌, append_assoc, length-append, leb, ◌==◌, length, get_or, All, list_cases, inl, inr,
  arith,
}
use primmonero.Script.{Bytes, get_op, push_data, decode_op_n, encode_op_n, is_pay_to_script_hash}
use primmonero.Script.Push.{push_opcode, get_op-push_data, length-push_data_least, length-push_data}
use primmonero.Script.Standard.{push_all}
use primmonero.Script.Solver.{
  tx_multisig, pubkey_template, pubkeyhash_template, multisig_template, is_key_size, take_keys,
  match_op, match_element, scan, scan_template, first_byte, last_solution, is_multisig, solver,
  is_standard, set_multisig,
}

abbrev pub IsKey : Bytes → Type 0
IsKey k = (33 ≤ length k) × (length k ≤ 120)

key_fits : (k : Bytes) → IsKey k → is_key_size k ≡ true
key_fits k (low, high) = ground (arith, low, high)

get_op-small : (m : ℕ) (code : Bytes) → 0x4e < m → get_op (m ∷ code) ≡ some (m, [], code)
unfolding get_op
get_op-small m code h = let high : leb m 0x4e ≡ false = ground (arith, h) in rw (get_op, high) refl

length-push_all :
    (values : List Bytes)
    → All IsKey values
    → (length values ≤ length (push_all values)) × (length (push_all values) ≤ 125 * length values)
unfolding push_all
length-push_all [] keys = (omega arith, omega arith)
length-push_all (v ∷ values) (key, keys) =
    let (least, most) = length-push_all values keys in
    let size = length-append (push_data v) (push_all values) in
    (
      omega (arith, size, length-push_data_least v, key.0, least),
      omega (arith, size, length-push_data v, key.1, most),
    )

take_keys-end :
    (fuel n : ℕ) (code : Bytes) (sols : List Bytes)
    → take_keys fuel n [] code sols ≡ (n, [], code, sols)
unfolding take_keys
take_keys-end zero n code sols = refl
take_keys-end (suc fuel) n code sols = refl

take_keys_lem :
    (ks : List Bytes) (k : Bytes) (fuel opcode n : ℕ) (sols : List Bytes)
    → IsKey k
    → All IsKey ks
    → length ks ≤ 16
    → length ks < fuel
    → 0x4e < n
    → take_keys fuel opcode k (push_all ks ++ (n ∷ 0xae ∷ [])) sols
      ≡ (n, [], 0xae ∷ [], sols ++ (k ∷ ks))
unfolding take_keys push_all
take_keys_lem ks k zero opcode n sols key keys few h high = absurd (omega (arith, h))
take_keys_lem [] k (suc fuel) opcode n sols key keys few h high =
    rw (take_keys, key_fits k key)
      (rw (get_op-small n (0xae ∷ []) high) (take_keys-end fuel n (0xae ∷ []) (sols ++ k ∷ [])))
take_keys_lem (k' ∷ ks) k (suc fuel) opcode n sols key (key', keys) few h high =
    let (_, most) = length-push_all ks keys in
    let size = length-append (push_all ks) (n ∷ 0xae ∷ []) in
    let (read, low) =
      get_op-push_data k' (push_all ks ++ (n ∷ 0xae ∷ []))
        (omega (arith, key'.1, most, size, few)) in
    let whole = append_assoc (push_data k') (push_all ks) (n ∷ 0xae ∷ []) in
    rw (take_keys, key_fits k key)
      (rw (ap get_op whole ∙ read) (
        take_keys_lem ks k' fuel (push_opcode k') n (sols ++ k ∷ []) key' keys (omega (arith, few))
          (omega (arith, h)) high
        ∙ ap (λ s. (n, [], 0xae ∷ [], s)) (append_assoc sols (k ∷ []) (k' ∷ ks))))

decode-encode : (n : ℕ) → 0 < n → n ≤ 16 → decode_op_n (0x51 + n - 1) ≡ some n
unfolding decode_op_n
decode-encode n low high = ground (arith, low, high)

-- A round that goes on, and one that breaks out.
scan_next :
    (fuel c t : ℕ) (code template rest rest2 : Bytes) (sols found : List Bytes)
    (first : ℕ × Bytes × Bytes)
    → get_op (c ∷ code) ≡ some first
    → 0x4e < t
    → match_element (length (c ∷ code)) first (t, [], template) sols ≡ some (rest, rest2, found)
    → scan (suc fuel) (c ∷ code) (t ∷ template) sols ≡ scan fuel rest rest2 found
unfolding scan
scan_next fuel c t code template rest rest2 sols found first read high matched =
    rw (scan, read, get_op-small t template high, matched) refl

scan_break :
    (fuel c t : ℕ) (code template : Bytes) (sols : List Bytes) (first : ℕ × Bytes × Bytes)
    → get_op (c ∷ code) ≡ some first
    → 0x4e < t
    → match_element (length (c ∷ code)) first (t, [], template) sols ≡ none
    → scan (suc fuel) (c ∷ code) (t ∷ template) sols ≡ none
unfolding scan
scan_break fuel c t code template sols first read high matched =
    rw (scan, read, get_op-small t template high, matched) refl

match_small :
    (n : ℕ) (sols : List Bytes)
    → 0 < n
    → n ≤ 16
    → match_op 0xfa [] (0x51 + n - 1) [] sols ≡ some (sols ++ (n ∷ []) ∷ [])
unfolding match_op
match_small n sols low high = rw (decode-encode n low high) refl

match_end : (sols : List Bytes) → match_op 0xae [] 0xae [] sols ≡ some sols
unfolding match_op
match_end sols = refl

match_other : (m : ℕ) → m < 0x70 → match_op 0x76 [] m [] [] ≡ none
unfolding match_op
match_other m h = let differ : (m == 0x76) ≡ false = ground (arith, h) in rw differ refl

module _ (m n : ℕ) (k : Bytes) (ks : List Bytes) (key : IsKey k) (keys : All IsKey ks) (low : 0 < m)
    (high : m ≤ 16) (few : length ks ≤ 16) where
  abbrev tail : Bytes
  tail = (0x51 + n - 1) ∷ 0xae ∷ []

  abbrev code : Bytes
  code = (0x51 + m - 1) ∷ push_all (k ∷ ks) ++ tail

  read_first : get_op code ≡ some (0x51 + m - 1, [], push_all (k ∷ ks) ++ tail)
  read_first = get_op-small (0x51 + m - 1) (push_all (k ∷ ks) ++ tail) (omega (arith, low))

  no_pubkey : scan_template code pubkey_template ≡ none
  unfolding match_op match_element
  no_pubkey =
      scan_break 1 (0x51 + m - 1) 0xfe (push_all (k ∷ ks) ++ tail) (0xac ∷ []) [] _ read_first
        (omega arith) refl

  no_pubkeyhash : scan_template code pubkeyhash_template ≡ none
  unfolding match_element
  no_pubkeyhash =
      scan_break 4 (0x51 + m - 1) 0x76 (push_all (k ∷ ks) ++ tail) (0xa9 ∷ 0xfd ∷ 0x88 ∷ 0xac ∷ [])
        [] _ read_first (omega arith)
        (rw (match_element, match_other (0x51 + m - 1) (omega (arith, high))) refl)

  all_keys :
      (c : ℕ) (rest : Bytes)
      → push_all (k ∷ ks) ++ tail ≡ c ∷ rest
      → 0 < n
      → n ≤ 16
      → scan 3 (c ∷ rest) (0xfb ∷ 0xfa ∷ 0xae ∷ []) ((m ∷ []) ∷ [])
        ≡ some ((m ∷ []) ∷ (k ∷ ks) ++ (n ∷ []) ∷ [])
  unfolding match_element scan push_all
  all_keys c rest shape low_n high_n =
      let (_, most) = length-push_all ks keys in
      let size = length-append (push_all ks) tail in
      let (read, _) =
        get_op-push_data k (push_all ks ++ tail) (omega (arith, key.1, most, size, few)) in
      let read_key : get_op (c ∷ rest) ≡ some (push_opcode k, k, push_all ks ++ tail) =
        ap get_op (sym shape ∙ append_assoc (push_data k) (push_all ks) tail) ∙ read in
      let enough : length ks < length (c ∷ rest) = omega (
        arith,
        (length-push_all (k ∷ ks) (key, keys)).0,
        length-append (push_all (k ∷ ks)) tail,
        ap length shape,
      ) in
      let taken =
        take_keys_lem ks k (length (c ∷ rest)) (push_opcode k) (0x51 + n - 1) ((m ∷ []) ∷ []) key
          keys few enough (omega (arith, low_n)) in
      scan_next 2 c 0xfb rest (0xfa ∷ 0xae ∷ []) (0xae ∷ []) (0xae ∷ []) ((m ∷ []) ∷ [])
        ((m ∷ []) ∷ (k ∷ ks) ++ (n ∷ []) ∷ []) _ read_key (omega arith)
        (rw
          (
            match_element,
            get_op-small 0xfa (0xae ∷ []) (omega arith),
            taken,
            match_small n ((m ∷ []) ∷ k ∷ ks) low_n high_n,
          )
          (ap (λ r. some (r.2, 0xae ∷ [], (m ∷ []) ∷ (k ∷ ks) ++ (n ∷ []) ∷ [])) taken))
      ∙ scan_next 1 0xae 0xae [] [] [] [] ((m ∷ []) ∷ (k ∷ ks) ++ (n ∷ []) ∷ []) _ _
          (get_op-small 0xae [] (omega arith)) (omega arith)
          (rw (match_element, match_end ((m ∷ []) ∷ (k ∷ ks) ++ (n ∷ []) ∷ [])) refl)

  scanned :
      0 < n
      → n ≤ 16
      → scan_template code multisig_template ≡ some ((m ∷ []) ∷ (k ∷ ks) ++ (n ∷ []) ∷ [])
  unfolding match_element
  scanned low_n high_n =
      let first =
        scan_next 3 (0x51 + m - 1) 0xfa (push_all (k ∷ ks) ++ tail) (0xfb ∷ 0xfa ∷ 0xae ∷ [])
          (push_all (k ∷ ks) ++ tail) (0xfb ∷ 0xfa ∷ 0xae ∷ []) [] ((m ∷ []) ∷ []) _ read_first
          (omega arith) (rw (match_element, match_small m [] low high) refl) in
      elim (list_cases (push_all (k ∷ ks) ++ tail)) [
        | inl empty ↦
            absurd (omega (arith, length-append (push_all (k ∷ ks)) tail, ap length empty))
        | inr (c, rest, shape) ↦
            first
            ∙ (ap (λ z. scan 3 z (0xfb ∷ 0xfa ∷ 0xae ∷ []) ((m ∷ []) ∷ [])) shape
                ∙ all_keys c rest shape low_n high_n)
      ]

get_or-append : (xs : List Bytes) (y : Bytes) → get_or (xs ++ y ∷ []) (length xs) [] ≡ y
get_or-append [] y = refl
get_or-append (x ∷ xs) y = get_or-append xs y

last-append : (xs : List Bytes) (y : Bytes) → last_solution (xs ++ y ∷ []) ≡ y
last-append xs y =
    let size : length (xs ++ y ∷ []) - 1 ≡ length xs = omega (arith, length-append xs (y ∷ [])) in
    rw size (get_or-append xs y)

multisig_checks :
    (m : ℕ) (keys : List Bytes)
    → 0 < m
    → m ≤ length keys
    → is_multisig ((m ∷ []) ∷ keys ++ (length keys ∷ []) ∷ []) ≡ true
unfolding is_multisig
multisig_checks m keys low fits =
    let last = last-append ((m ∷ []) ∷ keys) (length keys ∷ []) in
    let size : length (keys ++ (length keys ∷ []) ∷ []) ≡ length keys + 1 =
      omega (arith, length-append keys ((length keys ∷ []) ∷ [])) in
    ground (arith, low, fits, size, ap first_byte last)

not_script_hash :
    (m : ℕ) (rest : Bytes) → m ≤ 16 → is_pay_to_script_hash ((0x51 + m - 1) ∷ rest) ≡ false
unfolding is_pay_to_script_hash
not_script_hash m rest high = ground (arith, high)

encode : (n : ℕ) → 0 < n → n ≤ 16 → encode_op_n n ≡ some (0x51 + n - 1)
unfolding encode_op_n
encode n low high = ground (arith, low, high)

standard_multisig :
    (m : ℕ) (keys : List Bytes) (script : Bytes)
    → 0 < m
    → m ≤ length keys
    → solver script ≡ record {
      found = true;
      type = tx_multisig;
      solutions = (m ∷ []) ∷ keys ++ (length keys ∷ []) ∷ [];
    }
    → is_standard script ≡ leb (length keys) 3
unfolding is_standard
standard_multisig m keys script low fits solved =
    let last = ap first_byte (last-append ((m ∷ []) ∷ keys) (length keys ∷ [])) in
    rw (is_standard, solved) (ground (arith, low, fits, last))

-- Solver finds that a script which SetMultisig writes for 1 to 16 keys, each of 33 to 120 bytes, and
-- a positive number of them that is required, is a multisignature script: its solutions are that
-- number, the keys, and how many there are. Such a script is standard when it has at most three
-- keys.
pub solver-set_multisig :
    (m : ℕ) (keys : List Bytes)
    → 0 < m
    → m ≤ length keys
    → length keys ≤ 16
    → All IsKey keys
    → (script : Bytes) × (set_multisig m keys ≡ some script)
      × (solver script ≡ record {
        found = true;
        type = tx_multisig;
        solutions = (m ∷ []) ∷ keys ++ (length keys ∷ []) ∷ [];
      })
      × (is_standard script ≡ leb (length keys) 3)
unfolding set_multisig solver
solver-set_multisig m [] low fits few keys = absurd (omega (arith, low, fits))
solver-set_multisig m (k ∷ ks) low fits few (key, keys) =
    let n = length (k ∷ ks) in
    let high : m ≤ 16 = omega (arith, fits, few) in
    let short : length ks ≤ 16 = omega (arith, few) in
    let script = code m n k ks key keys low high short in
    let solved : solver script ≡ record {
      found = true;
      type = tx_multisig;
      solutions = (m ∷ []) ∷ (k ∷ ks) ++ (n ∷ []) ∷ [];
    } =
      rw
        (
          solver,
          not_script_hash m (push_all (k ∷ ks) ++ tail m n k ks key keys low high short) high,
          no_pubkey m n k ks key keys low high short,
          no_pubkeyhash m n k ks key keys low high short,
          scanned m n k ks key keys low high short (omega arith) few,
          multisig_checks m (k ∷ ks) low fits,
        )
        refl in
    (
      script,
      rw (set_multisig, encode m low high, encode n (omega arith) few) refl,
      solved,
      standard_multisig m (k ∷ ks) script low fits solved,
    )
