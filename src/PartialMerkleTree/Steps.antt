-- ===== src/PartialMerkleTree/Steps.antt =====
-- One step of the extracting traversal for each kind of node.
use primmonero.Base.{
  ℕ, zero, suc, ◌+◌, ◌*◌, ◌^◌, ◌<◌, ◌≡◌, Bool, true, false, ltb, leb, length, get_or, arith,
}
use primmonero.PartialMerkleTree.{Tree, Cursor, take_hash, traverse_and_extract}
use primmonero.PartialMerkleTree.Height.{InTree, right_test, u32-left, u32-right}

module _ {H : Type 0} (combine : H → H → H) (null : H) (t : Tree H) where
  abbrev pub extracted : ℕ → ℕ → Cursor H → H × Cursor H
  extracted = traverse_and_extract combine null t

  -- The cursor past one bit.
  abbrev pub past_bit : Cursor H → Cursor H
  past_bit c = record c { bits_used = c.bits_used + 1 }

  abbrev IsNext : Cursor H → Bool → Type 0
  IsNext c b = (get_or t.bits c.bits_used false ≡ b) × (c.bits_used < length t.bits)

  bits_left : (c : Cursor H) (b : Bool) → IsNext c b → leb (length t.bits) c.bits_used ≡ false
  bits_left c b (e, inside) = ground (arith, inside)

  -- One step of the traversal for each kind of node.
  pub extracted-leaf :
      (pos : ℕ) (c : Cursor H) (b : Bool)
      → IsNext c b
      → extracted zero pos c ≡ take_hash combine null t b (past_bit c)
  unfolding traverse_and_extract
  extracted-leaf pos c b next = rw (bits_left c b next, next.0)

  pub extracted-closed :
      (h pos : ℕ) (c : Cursor H)
      → IsNext c false
      → extracted (suc h) pos c ≡ take_hash combine null t false (past_bit c)
  unfolding traverse_and_extract
  extracted-closed h pos c next = rw (bits_left c false next, next.0)

  pub extracted-paired :
      (h pos : ℕ) (c : Cursor H)
      → IsNext c true
      → InTree t.total (suc h) pos
      → ltb ((pos * 2 + 1) * 2 ^ h) t.total ≡ true
      → extracted (suc h) pos c ≡ (
          let (left, c1) = extracted h (pos * 2) (past_bit c) in
          let (right, c2) = extracted h (pos * 2 + 1) c1 in (combine left right, c2))
  unfolding traverse_and_extract
  extracted-paired h pos c next place more =
      rw (bits_left c true next, next.0, right_test place, more, u32-left place, u32-right place)

  pub extracted-single :
      (h pos : ℕ) (c : Cursor H)
      → IsNext c true
      → InTree t.total (suc h) pos
      → ltb ((pos * 2 + 1) * 2 ^ h) t.total ≡ false
      → extracted (suc h) pos c
        ≡ (let (left, c1) = extracted h (pos * 2) (past_bit c) in (combine left left, c1))
  unfolding traverse_and_extract
  extracted-single h pos c next place alone =
      rw (bits_left c true next, next.0, right_test place, alone, u32-left place)
