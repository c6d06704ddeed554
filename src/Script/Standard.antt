-- ===== src/Script/Standard.antt =====
-- The standard scripts that src/servilo/script.cpp writes: CScriptVisitor and PushAll.
use primmonero.Base.{List, [], ◌∷◌, ◌++◌}
use primmonero.Script.{Bytes, push_data}

-- OP_DUP OP_HASH160 <hash> OP_EQUALVERIFY OP_CHECKSIG. A uint160 is pushed as its 20 bytes.
unfoldable pub pay_to_pub_key_hash : Bytes → Bytes
pay_to_pub_key_hash hash = 0x76 ∷ 0xa9 ∷ push_data hash ++ (0x88 ∷ 0xac ∷ [])

-- OP_HASH160 <hash> OP_EQUAL.
unfoldable pub pay_to_script_hash : Bytes → Bytes
pay_to_script_hash hash = 0xa9 ∷ push_data hash ++ (0x87 ∷ [])

unfoldable pub push_all : List Bytes → Bytes
push_all [] = []
push_all (v ∷ values) = push_data v ++ push_all values
