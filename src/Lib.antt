-- ===== src/Lib.antt =====
-- Primmonero: the server under src/servilo, a Primecoin node in C++. Blocks carry prime chains as
-- their proof of work; transactions, coins and Merkle trees are those of Bitcoin.
--
-- The parts and their files:
--
--   Prime              the chain tests and CheckPrimeProofOfWork (src/servilo/prime.cpp, prime.h).
--                      A block's header hash times the multiplier of its certificate is the origin of
--                      three chains; Fermat and Euler-Lagrange-Lifchitz tests find their lengths.
--   Target             the proof-of-work target, its 8 bits of length and 24 bits of fraction, the
--                      retargeting step and the reward (src/servilo/prime.cpp). Prime compares chain
--                      lengths, which have the same fields, with a target.
--   Work               GetNextWorkRequired, ComputeMinWork and GetBlockValue (src/servilo/main.cpp) and
--                      EstimateWorkTransition (src/servilo/prime.cpp): Target applied along a chain
--                      of blocks.
--   Amount             CTxOutCompressor::CompressAmount and DecompressAmount (src/servilo/main.cpp).
--   Serialize          compact sizes, variable-length integers, strings and vectors
--                      (src/servilo/serialize.h), the formats of messages and of the coin database.
--   PartialMerkleTree  CPartialMerkleTree (src/servilo/main.h, main.cpp): the proof that some
--                      transactions are in a block, which filtered peers are sent.
--   Coins              CCoins (src/servilo/main.h): the unspent outputs of a transaction. Coins/Format
--                      writes and reads them, and CTxInUndo, with the amounts of Amount, the scripts of
--                      Script/Compressor and the numbers of Serialize.
--                      Coins/View has CCoinsViewCache over any view (src/servilo/main.cpp): CoinsView is
--                      the interface, Coins/View/Refinement its promise, in terms of a function from
--                      hashes to entries and a best block: IsSource what a cache needs of the view
--                      below, IsView what a cache promises; Coins/View/Flush is about Flush.
--   Transaction        COutPoint, CTxIn, CTransaction and their network format (src/servilo/main.h),
--                      Transaction/Check CheckTransaction and GetValueOut, Transaction/Fee GetMinFee and
--                      GetLegacySigOpCount (src/servilo/main.cpp).
--   Connect            UpdateCoins, HaveInputs, CheckInputs, ConnectBlock and DisconnectBlock
--                      (src/servilo/main.cpp): transactions are checked and applied to a cache of
--                      Coins/View, with the scripts of Script, the fees of Transaction and the block
--                      values of Work, and taken back with the undo information. Connect/Block is
--                      ConnectBlock, Connect/Disconnect DisconnectBlock; Restore is about one entry,
--                      Inputs, Outputs, Loop and Undone about a transaction's inputs, a transaction, a
--                      block's transactions and a block, Values and Spendable about CheckInputs.
--   Script             CScript, EvalScript and VerifyScript (src/servilo/script.h, script.cpp): Script.antt
--                      reads and writes instructions, Script/Opcode has the cases of the switch,
--                      Script/Machine, StackOps, NumberOps and CryptoOps one function per case, and
--                      Script/Eval the round, the loop and VerifyScript. A Machine is the loop's
--                      local state; a stack is a list from its top on. Script/Compressor has
--                      CScriptCompressor, with what it uses of CKey (src/servilo/key.cpp),
--                      Script/SigOps GetSigOpCount, and Script/Solver the standard forms of scripts.
--   Base               what the parts share: tests, lists, bits and integers over native numbers.
--
-- A definition has the name of the function that it models in snake case: TargetGetNext is
-- Target.target_get_next, CPartialMerkleTree::TraverseAndExtract is
-- PartialMerkleTree.traverse_and_extract. A loop of the source is a definition of its own. Machine
-- integers are native numbers, with `% 2 ^ w` written where the source can wrap; signed ones are the
-- integers of Base/Int, with Base.Int.int64 where the source can wrap (in two's complement), or, in
-- Transaction/Fee, bit patterns below 2 ^ 64. CBigNum values are numbers or the integers of Base/Int.
-- What a read past the end of a vector gives is a parameter (`undef`). A function that returns false or
-- fails an assertion is an Option, or a type with a constructor for each outcome; a reference parameter
-- goes in and out.
--
-- Bounds and fuel:
--
--   Prime.chain_loop            the source has no bound. The fuel is an argument, running out is an
--                               outcome of its own, and as many rounds as the chain is long are enough.
--   Amount.strip_zeros          10 rounds: the loop itself stops at 9.
--   PartialMerkleTree.find_height  32 rounds: a tree of 2 ^ 31 leaves has height 31.
--   PartialMerkleTree.match_loop   2 ^ height rounds, the number of leaves below the node.
--   Serialize.fill_tmp          the size of the array `tmp`; running out is a write past its end.
--   Serialize.size_of_var_int_loop  one more than the number, which falls in each round.
--   Serialize.Stream.read_blocks    the number of elements, when a block has one at least.
--   Script.eval_loop, find_and_delete_loop, is_push_only_loop, erase_front, sig_op_loop, last_push,
--   take_keys
--                               the length of the code: each round takes a byte or more.
--   Script.Solver.scan          the length of the template: each round takes a byte of it.
--   Coins.Format.mask_size_loop the number of outputs: each round takes eight, or the last ones.
--   Transaction.Format.read_chunks  the size of the script: each round takes a byte at least.
--
-- Parameters stand for what is not in the repository or is not needed: BN_mod_exp of OpenSSL
-- (`mod_exp`), the hash of two joined hashes (`combine`), the format of a vector's elements, in Script's
-- Context the hashes, the check of a signature, and OpenSSL's bytes of a number (BigNums), and the
-- points of OpenSSL's curve (Curve). Connect takes the hash of a transaction, the heights of the
-- index's blocks, the base fees and the checkpoints' estimate as Settings, and the view below the cache
-- with the promise of its reads (IsSource). The program's lowest view, CCoinsViewDB
-- (src/servilo/txdb.cpp), erases pruned entries when it is written to, so that only its reads are asked
-- for anything.
--
-- Not modelled: CheckBlock, AcceptBlock and the choice of the best chain, the writes of ConnectBlock to
-- the block index and to the undo files and its threads for scripts, the memory pool, the miner,
-- wallets, storage, networking and startup. Names, formatting and the text of logged errors are left
-- out everywhere.
pub mod Base
pub mod Amount
pub mod Target
pub mod Serialize
pub mod PartialMerkleTree
pub mod Prime
pub mod Work
pub mod Coins
pub mod Script
pub mod Transaction
pub mod Connect
