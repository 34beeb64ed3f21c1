-- ===== src/Solana/Tests.antt =====
-- The client of the program (packages/solana/src) at concrete inputs, with a hash and an address derivation
-- that are constant.
use solana_snake_arena.Base.{
  any, not, ◌&&◌, if◌then◌else◌, ℕ, ◌≡◌, refl, true, false, some, none, List, [], ◌∷◌, arith,
  replicate,
}
use solana_snake_arena.Base.Int.{pos, ◌-ℤ◌, leb_ℤ}
use solana_snake_arena.Solana.Encode.{
  Bytes, PublicKey, Web3, built, whole, encode_u64, little_endian, encode_vec, encode_all,
  encode_u32,
}
use solana_snake_arena.Solana.Reader.{read_word, read_vec}
use solana_snake_arena.Solana.RoundTrip.{Succeeds}
use solana_snake_arena.Solana.Instructions.{ConfigUpdate, create_update_config_instruction}
use solana_snake_arena.Solana.Arguments.{
  Calls, read_settings, settings_of, create_update_config_instruction-Calls,
}
use solana_snake_arena.Solana.Payouts.{
  WinnerPayout, create_distribute_winnings_instruction, split_withdrawal, same_key,
}
use solana_snake_arena.Solana.Distribution.{
  is_payable, has_no_duplicate, amounts, is_built, create_distribute_winnings_instruction-Calls,
  create_distribute_winnings_instruction_refuses,
}
use solana_snake_arena.Solana.Withdrawal.{IsSplit, split_withdrawal-IsSplit}
use solana_snake_arena.Solana.Parse.{
  ParsedTransaction, has_failed, parse_balance_changes, changes_from, verify_incoming_transfer,
}
use solana_snake_arena.Solana.Credit.{rise, verify_incoming_transfer_exact}
use solana_snake_arena.Solana.Declared.{build, declared, covers, distribute_winnings, is_entry}
use solana_snake_arena.Solana.Covers.{build-covers}

abbrev key : ℕ → PublicKey
key n = replicate 32 n

abbrev web3 : Web3
web3 = record {
  sha256 = λ bytes. replicate 32 7;
  find_program_address = λ seeds program_id. record { address = key 1; bump = 255 };
  system_program = key 0;
}

abbrev room : Bytes
room = replicate 16 9

-- A vector of two words.
vector :
    encode_vec encode_u64 (pos 258 ∷ pos 3 ∷ [])
    ≡ built (2 ∷ 0 ∷ 0 ∷ 0 ∷ 2 ∷ 1 ∷ 0 ∷ 0 ∷ 0 ∷ 0 ∷ 0 ∷ 0 ∷ 3 ∷ 0 ∷ 0 ∷ 0 ∷ 0 ∷ 0 ∷ 0 ∷ 0 ∷ [])
unfolding encode_vec encode_u64 encode_u32 encode_all little_endian
vector = refl

abbrev update : ConfigUpdate
update = record {
  fee_bps = some (whole (pos 500));
  withdrawal_fee_bps = none;
  settlement_authority = none;
  fee_destination = some (key 8);
  paused = some true;
}

create_update_config_instruction-Calls_example :
    Succeeds
      (Calls web3 read_settings "update_config" (settings_of update))
      (create_update_config_instruction web3 (key 3) (key 4) update)
create_update_config_instruction-Calls_example =
    create_update_config_instruction-Calls web3 (key 3) (key 4) update (λ bytes. refl)
      (record { fee = refl; withdrawal_fee = tt; authority = tt; destination = refl })

abbrev winners : List WinnerPayout
winners =
    record { player = key 5; lamports = pos 900 }
    ∷ record { player = key 6; lamports = pos 100 }
    ∷ []

winners_payable : is_payable winners ≡ true
unfolding has_no_duplicate same_key
winners_payable = refl

create_distribute_winnings_instruction-Calls_example :
    Succeeds
      (Calls web3 (read_vec (read_word 8)) "distribute_winnings" (amounts winners))
      (create_distribute_winnings_instruction web3 (key 3) (key 4) room winners)
create_distribute_winnings_instruction-Calls_example =
    create_distribute_winnings_instruction-Calls web3 (key 3) (key 4) room winners (λ bytes. refl)
      (omega arith) winners_payable (refl, (refl, tt))

abbrev twice : List WinnerPayout
twice =
    record { player = key 5; lamports = pos 900 }
    ∷ record { player = key 5; lamports = pos 100 }
    ∷ []

twice_unpayable : is_payable twice ≡ false
unfolding has_no_duplicate same_key
twice_unpayable = refl

create_distribute_winnings_instruction_refuses_example :
    is_built (create_distribute_winnings_instruction web3 (key 3) (key 4) room twice) ≡ false
create_distribute_winnings_instruction_refuses_example =
    create_distribute_winnings_instruction_refuses web3 (key 3) (key 4) room twice twice_unpayable

split_withdrawal-IsSplit_example :
    Succeeds (IsSplit 12_345 150) (split_withdrawal (pos 12_345) (whole (pos 150)))
split_withdrawal-IsSplit_example = split_withdrawal-IsSplit 12_345 150 (omega arith)

build-covers_example :
    Succeeds
      (λ ix.
        covers ix.keys (declared (distribute_winnings (key 4) room winners))
        ≡ not (is_entry (distribute_winnings (key 4) room winners)))
      (build web3 (key 3) (distribute_winnings (key 4) room winners))
build-covers_example =
    build-covers web3 (key 3) (distribute_winnings (key 4) room winners)
      (omega arith, winners_payable, (refl, (refl, tt)))

-- A sender pays 700 to a pool.
abbrev transfer : ParsedTransaction
transfer = record {
  account_keys = key 5 ∷ key 4 ∷ [];
  meta =
      some (record { err = false; pre_balances = 1_000 ∷ 50 ∷ []; post_balances = 300 ∷ 750 ∷ [] });
}

transfer_accepted :
    verify_incoming_transfer transfer (key 4) (pos 700) ≡ record { ok = true; credited = pos 700 }
unfolding verify_incoming_transfer parse_balance_changes changes_from same_key ◌-ℤ◌
transfer_accepted = refl

keys_differ : any (same_key (key 5)) (key 4 ∷ []) ≡ false
unfolding same_key
keys_differ = refl

verify_incoming_transfer_exact_example :
    ((verify_incoming_transfer transfer (key 4) (pos 700)).ok
      ≡ (not (has_failed transfer) && leb_ℤ (pos 700) (rise transfer (key 4))))
    × ((verify_incoming_transfer transfer (key 4) (pos 700)).credited
        ≡ (if has_failed transfer then pos 0 else rise transfer (key 4)))
verify_incoming_transfer_exact_example =
    verify_incoming_transfer_exact transfer (key 4) (pos 700) (keys_differ, (refl, tt))
