-- ===== src/Block.antt =====
-- src/block.ts: blocks, their hash and signature, and the genesis block.
use Prim.Native.Nat.{Ordering}
use Prim.Native.String.{compare}
use proof_of_authority_block.Common.{
  ℕ, String, Bool, true, false, Option, none, some, List, [], ◌∷◌, map, ◌==◌, ◌===◌, if◌then◌else◌,
}
use proof_of_authority_block.Common.Int.{pos}
use proof_of_authority_block.Common.Sort.{sort}
use proof_of_authority_block.Json.{
  Value, num, str, arr, obj, int, Items, nil, cons, end, field, stringify,
}
use proof_of_authority_block.Crypto.{NodeCrypto, sha256, sign, verify}
use proof_of_authority_block.State.{GenesisAllocations}

-- `BlockData`. The transactions are the JavaScript value that was received or built.
pub record BlockData : Type 0 where
  pub index : ℕ
  pub timestamp : ℕ
  pub transactions : Value
  pub previous_hash : String
  pub validator_public_key : String

pub record Block : Type 0 where
  pub contents : BlockData
  pub open contents use *
  pub hash : String
  pub signature : String

-- The array of some values.
unfoldable pub items : List Value → Items
items [] = nil
items (v ∷ vs) = cons v (items vs)

-- The object literal that `computeHash` prints, in its key order.
unfoldable pub block_payload : BlockData → Value
block_payload b = obj (
    field "index" (num (int (pos b.index))) (
      field "timestamp" (num (int (pos b.timestamp))) (
        field "transactions" b.transactions (
          field "previousHash" (str b.previous_hash)
            (field "validatorPublicKey" (str b.validator_public_key) end)))))

-- `a < b ? -1 : a > b ? 1 : 0` on the addresses: not after.
abbrev pub entry_le : String × ℕ → String × ℕ → Bool
entry_le (a, _) (b, _) = elim (compare a b) [ Ordering.gt ↦ false | _ ↦ true ]

abbrev pub entry_value : String × ℕ → Value
entry_value (address, balance) = arr (cons (str address) (cons (num (int (pos balance))) nil))

-- The network's starting configuration, as it is hashed.
unfoldable pub config_payload : GenesisAllocations → List String → Value
config_payload allocations validators = obj (
    field "allocations" (arr (items (map entry_value (sort entry_le allocations))))
      (field "validators" (arr (items (map str validators))) end))

module _ (c : NodeCrypto) where
  -- `Block.computeHash`
  unfoldable pub compute_hash : BlockData → String
  compute_hash contents = sha256 c (stringify (block_payload contents))

  -- `Block.createGenesisBlock`
  unfoldable pub create_genesis_block : GenesisAllocations → List String → Block
  create_genesis_block allocations validators =
      let contents : BlockData = record {
        index = 0;
        timestamp = 0;
        transactions = arr nil;
        previous_hash = sha256 c (stringify (config_payload allocations validators));
        validator_public_key = "genesis";
      } in
      record { contents = contents; hash = compute_hash contents; signature = "genesis-signature" }

  -- `Block.proposeBlock`
  unfoldable pub propose_block : BlockData → String → Block
  propose_block contents private_key =
      let hash = compute_hash contents in
      record { contents = contents; hash = hash; signature = sign c hash private_key }

  -- `isHashValid`
  unfoldable pub is_hash_valid : Block → Bool
  is_hash_valid b = compute_hash b.contents === b.hash

  -- `isSignatureValid`: the genesis block is exempt.
  unfoldable pub is_signature_valid : Block → Bool
  is_signature_valid b =
      if b.index == 0 then true else verify c b.hash b.signature b.validator_public_key

-- What arrives as a block. `null` and `undefined`, which have no fields to read, are `none`.
abbrev pub RawBlock : Type 0
RawBlock = Option Block

-- `Block.fromPlain`: throws (`none`) on what has no fields, and copies the fields otherwise.
unfoldable pub from_plain : RawBlock → Option Block
from_plain none = none
from_plain (some b) = some (record {
  contents = record {
    index = b.index;
    timestamp = b.timestamp;
    transactions = b.transactions;
    previous_hash = b.previous_hash;
    validator_public_key = b.validator_public_key;
  };
  hash = b.hash;
  signature = b.signature;
})
