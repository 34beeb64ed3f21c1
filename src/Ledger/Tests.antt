-- ===== src/Ledger/Tests.antt =====
-- Witnesses for the double-entry books: a player with a custody account, a game with an escrow.
use solana_snake_arena.Base.{false, ◌≡◌, refl, true, none, some, [], ◌∷◌, arith, every}
use solana_snake_arena.Base.Int.{pos, ◌-ℤ◌, ltb_ℤ}
use solana_snake_arena.Ledger.{
  find_owner, find_account, key_eq, StakeReservation, find_custody, PoolAccount, user_custody,
  game_escrow, custody_of, escrow_of, credit, debit, deposit, entry_fee, posted, stake_escrow_leg,
  Posting, Books, Ensures, ok, total_balance, net,
}
use solana_snake_arena.Ledger.Stake.{
  reserve_entry_fee, spendable, find_reservation, consume_reservations, reservations_for_tier,
  staked_from,
}
use solana_snake_arena.Ledger.Stake.Consume.{Consumed, consume_reservations-Consumed}
use solana_snake_arena.Ledger.Stake.Reserve.{with_reservation, reserve_entry_fee_once}
use solana_snake_arena.Ledger.Stake.Ready.{AllReady}
use solana_snake_arena.Ledger.Stake.Completes.{Moves, consume_reservations-Moves}
use solana_snake_arena.Ledger.Entry.{PostEntryParams, post_entry}
use solana_snake_arena.Ledger.Entry.Overdraft.{is_covered, post_entry_covered}
use solana_snake_arena.Ledger.Entry.Balance.{post_entry_balanced}
use solana_snake_arena.Ledger.Refund.{
  Game, GameBooks, running, completed, not_required, find_game, cancel_game_and_refund,
}
use solana_snake_arena.Ledger.Refund.Balance.{FreshFrom}
use solana_snake_arena.Ledger.Refund.Cancel.{Cancelled, cancel_game_and_refund-Cancelled}

abbrev custody : PoolAccount
custody = record {
  id = 1;
  name = custody_of 7;
  kind = user_custody;
  owner = some 7;
  game = none;
  balance = pos 500;
  reserved = pos 100;
  version = 3;
}

abbrev escrow : PoolAccount
escrow = record {
  id = 2;
  name = escrow_of 9;
  kind = game_escrow;
  owner = none;
  game = some 9;
  balance = pos 100;
  reserved = pos 0;
  version = 0;
}

abbrev stake : Posting
stake = record {
  type = entry_fee;
  direction = credit;
  status = posted;
  amount = pos 100;
  balance_after = pos 100;
  user = some 8;
  account = 2;
  game = some 9;
  key = stake_escrow_leg 9 8;
}

abbrev books : Books
books = record {
  accounts = custody ∷ escrow ∷ [];
  postings = stake ∷ [];
  reservations = record { user = 7; tier = "gold"; lamports = pos 100 } ∷ [];
  next_id = 3;
}

abbrev game : Game
game = record { id = 9; status = running; ended_at = none; settlement_status = not_required }

abbrev over : Game
over = record { id = 9; status = completed; ended_at = some 5; settlement_status = not_required }

fresh : FreshFrom 3 (custody ∷ escrow ∷ [])
fresh j = ground arith

consume_reservations-Consumed_example :
    Ensures (Consumed "gold" 2 books) (consume_reservations "gold" 9 2 (some (pos 100)) books)
consume_reservations-Consumed_example =
    consume_reservations-Consumed "gold" 9 2 (some (pos 100)) books (refl, (refl, tt))

abbrev transfer_entry : PostEntryParams
transfer_entry = record {
  type = deposit;
  legs =
      record { pool_account = 1; user = some 7; direction = debit; amount = pos 50 }
      ∷ record { pool_account = 2; user = none; direction = credit; amount = pos 50 }
      ∷ [];
  idempotency_key_base = 4;
  game = none;
}

post_entry_balanced_example :
    Ensures
      (λ r. (total_balance r.0 ≡ total_balance books.accounts) × (net r.1 ≡ net books.postings))
      (post_entry transfer_entry books.accounts books.postings)
post_entry_balanced_example = post_entry_balanced transfer_entry books.accounts books.postings

abbrev cancellable : GameBooks
cancellable = record { games = game ∷ []; books = books }

cancel_game_and_refund-Cancelled_example :
    Ensures (Cancelled 9 cancellable) (cancel_game_and_refund 9 60 (ok tt) cancellable)
cancel_game_and_refund-Cancelled_example =
    cancel_game_and_refund-Cancelled 9 60 (ok tt) cancellable (refl, (refl, tt)) fresh

over_found : find_game 9 (over ∷ []) ≡ some over
unfolding find_game
over_found = refl

abbrev silver_stake : StakeReservation
silver_stake = record { user = 7; tier = "silver"; lamports = pos 150 }

custody_there : find_custody 7 books.accounts ≡ some custody
unfolding find_custody
custody_there = refl

silver_free : find_reservation 7 "silver" books.reservations ≡ none
unfolding find_reservation
silver_free = refl

silver_affordable : ltb_ℤ (spendable custody) (pos 150) ≡ false
unfolding ◌-ℤ◌
silver_affordable = refl

reserve_entry_fee_once_example :
    (reserve_entry_fee silver_stake books ≡ (
      with_reservation silver_stake custody books,
      ok (record {
        reserved = pos 150;
        already = false;
        spendable_after = spendable custody -ℤ pos 150;
      }),
    ))
    × (reserve_entry_fee silver_stake (with_reservation silver_stake custody books) ≡ (
      with_reservation silver_stake custody books,
      ok (record {
        reserved = pos 150;
        already = true;
        spendable_after = spendable custody -ℤ pos 150;
      }),
    ))
reserve_entry_fee_once_example =
    reserve_entry_fee_once silver_stake books custody (refl, (refl, tt)) custody_there silver_free
      refl silver_affordable

gold_ready :
    AllReady 9 books.accounts books.postings (reservations_for_tier "gold" books.reservations)
unfolding reservations_for_tier find_owner key_eq
gold_ready = (
  record { custody = custody; owned = refl; covered = refl; fresh = refl; fresh_escrow = refl },
  refl,
  tt,
)

escrow_there : find_account 2 books.accounts ≡ some escrow
unfolding find_account
escrow_there = refl

consume_reservations-Moves_example :
    Moves (staked_from (pos 0) (reservations_for_tier "gold" books.reservations)) (
      consume_reservations "gold" 9 2
        (some (staked_from (pos 0) (reservations_for_tier "gold" books.reservations)))
        books)
consume_reservations-Moves_example =
    consume_reservations-Moves "gold" 9 escrow books refl (refl, (refl, tt)) escrow_there gold_ready

post_entry_covered_example :
    Ensures
      (λ r. every is_covered r.0 ≡ true)
      (post_entry transfer_entry books.accounts books.postings)
post_entry_covered_example = post_entry_covered transfer_entry books.accounts books.postings refl
