-- ===== src/Script/Machine.antt =====
-- The state of EvalScript (src/servilo/script.cpp), and its control opcodes. A vector that is used
-- at its back is the list from the back on: the stack, the alternate stack and vfExec. `none` is
-- the return value false, also where the source gets there by an exception.
use primmonero.Base.{
  ℕ, Bool, true, false, not, ◌&&◌, Option, none, some, List, [], ◌∷◌, if◌then◌else◌,
}
use primmonero.Script.{Bytes}
use primmonero.Script.Number.{cast_to_bool}

abbrev pub Stack : Type 0
Stack = List Bytes

-- `code` is what pc points at, and `begin_code_hash` what pbegincodehash points at.
pub record Machine : Type 0 where
  pub code : Bytes
  pub begin_code_hash : Bytes
  pub stack : Stack
  pub alt_stack : Stack
  pub exec : List Bool
  pub op_count : ℕ

unfoldable pub start : Stack → Bytes → Machine
start stack script = record {
  code = script;
  begin_code_hash = script;
  stack = stack;
  alt_stack = [];
  exec = [];
  op_count = 0;
}

-- fExec: no false in vfExec.
unfoldable pub all_true : List Bool → Bool
all_true [] = true
all_true (b ∷ bs) = b && all_true bs

-- A case that works on the stack alone.
unfoldable pub on_stack : Option Stack → Machine → Option Machine
on_stack none m = none
on_stack (some s) m = some (record m { stack = s })

-- OP_IF, and OP_NOTIF with `negated`.
unfoldable pub do_if : Bool → Machine → Option Machine
do_if negated m = elim (all_true m.exec) [
  | false ↦ some (record m { exec = false ∷ m.exec })
  | true ↦ elim (m.stack) [
    | [] ↦ none
    | top ∷ s ↦
        (let value = cast_to_bool top in
          some (record m { stack = s; exec = (if negated then not value else value) ∷ m.exec }))
  ]
]

unfoldable pub do_else : Machine → Option Machine
do_else m = elim (m.exec) [ [] ↦ none | b ∷ bs ↦ some (record m { exec = not b ∷ bs }) ]

unfoldable pub do_endif : Machine → Option Machine
do_endif m = elim (m.exec) [ [] ↦ none | b ∷ bs ↦ some (record m { exec = bs }) ]

unfoldable pub do_verify : Stack → Option Stack
do_verify [] = none
do_verify (top ∷ s) = if cast_to_bool top then some s else none

unfoldable pub do_to_alt_stack : Machine → Option Machine
do_to_alt_stack m = elim (m.stack) [
  | [] ↦ none
  | top ∷ s ↦ some (record m { stack = s; alt_stack = top ∷ m.alt_stack })
]

unfoldable pub do_from_alt_stack : Machine → Option Machine
do_from_alt_stack m = elim (m.alt_stack) [
  | [] ↦ none
  | top ∷ s ↦ some (record m { stack = top ∷ m.stack; alt_stack = s })
]
