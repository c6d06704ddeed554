-- ===== src/Script/Canonical.antt =====
-- IsCanonicalPubKey and IsCanonicalSignature of src/servilo/script.cpp, without their messages. A
-- read past the end of a vector, which the code's tests rule out, gives 0 here.
use primmonero.Base.{
  ℕ, ◌+◌, ◌-◌, Bool, true, false, not, ◌&&◌, ◌||◌, ltb, leb, ◌==◌, if◌then◌else◌, length, get_or,
  bit_and,
}
use primmonero.Script.{Bytes}

abbrev pub at : Bytes → ℕ → ℕ
at b i = get_or b i 0

unfoldable pub is_canonical_pub_key : Bytes → Bool
is_canonical_pub_key key =
    if ltb (length key) 33
    then false
    else if at key 0 == 0x04
    then length key == 65
    else if at key 0 == 0x02 || at key 0 == 0x03
    then length key == 33
    else false

-- The tests of R at index 4, and of S at index 6 + nLenR: its type byte two before it, its length,
-- its sign, and its padding.
unfoldable pub is_canonical_part : Bytes → ℕ → ℕ → Bool
is_canonical_part sig index len =
    if not (at sig (index - 2) == 0x02)
    then false
    else if len == 0
    then false
    else if not (bit_and (at sig index) 0x80 == 0)
    then false
    else if ltb 1 len && at sig index == 0x00 && bit_and (at sig (index + 1)) 0x80 == 0
    then false
    else true

unfoldable pub is_canonical_signature : Bytes → Bool
is_canonical_signature sig =
    if ltb (length sig) 9
    then false
    else if ltb 73 (length sig)
    then false
    else (let hash_type = bit_and (at sig (length sig - 1)) 0x7f in
        if ltb hash_type 1 || ltb 3 hash_type
        then false
        else if not (at sig 0 == 0x30)
        then false
        else if not (at sig 1 == length sig - 3)
        then false
        else (let len_r = at sig 3 in
            if leb (length sig) (5 + len_r)
            then false
            else (let len_s = at sig (5 + len_r) in
                if not (len_r + len_s + 7 == length sig)
                then false
                else is_canonical_part sig 4 len_r && is_canonical_part sig (6 + len_r) len_s)))
