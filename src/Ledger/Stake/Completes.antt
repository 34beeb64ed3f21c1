-- ===== src/Ledger/Stake/Completes.antt =====
-- When consuming a room's reservations goes through, and what it then moves
-- (`consumeReservations` of packages/db/src/stake.ts).
use solana_snake_arena.Base.{ℕ, ◌≡◌, refl, ap, ◌∙◌, String, true, none, some, List, [], ◌∷◌, arith}
use solana_snake_arena.Base.Int.{ℤ, pos, negsuc, int_eq}
use solana_snake_arena.Ledger.{
  PoolAccount, StakeReservation, Books, Attempt, ok, ◌>>=◌, find_account, set_balance,
}
use solana_snake_arena.Ledger.Accounts.{DistinctIds}
use solana_snake_arena.Ledger.Stake.{
  Consuming, consume_rows, ConsumeResult, opening, consume_into, consume_found, consumed_result,
  consume_reservations, reservations_for_tier, staked_from,
}
use solana_snake_arena.Ledger.Stake.Reserve.{replaced, current_row}
use solana_snake_arena.Ledger.Stake.Ready.{
  DistinctIds-replaced, AllReady, taken, consumed_one, consume_row-done, AllReady-after,
  escrow-after,
}

-- What a loop that goes through leaves for the write that follows it.
record Through (escrow : PoolAccount) (rs : List StakeReservation) (s : Consuming)
    (r : Attempt Consuming) : Type 0 where
  pub last : Consuming
  pub went : r ≡ ok last
  pub escrow_there : find_account escrow.id last.accounts ≡ some escrow
  pub sum : last.total ≡ staked_from s.total rs

consume_rows-Through :
    (game : ℕ) (escrow : PoolAccount) (rs : List StakeReservation) (s : Consuming)
    → escrow.owner ≡ none
    → DistinctIds s.accounts
    → find_account escrow.id s.accounts ≡ some escrow
    → AllReady game s.accounts s.postings rs
    → Through escrow rs s (consume_rows game escrow rs s)
unfolding consume_rows staked_from
consume_rows-Through game escrow [] s unowned d e ready = record {
  last = s;
  went = refl;
  escrow_there = e;
  sum = refl;
}
consume_rows-Through game escrow (row ∷ rs) s unowned d e (r, alone, ready) =
    let t = consumed_one game escrow row r.custody s in
    let next =
      consume_rows-Through game escrow rs t unowned
        (DistinctIds-replaced (taken row r.custody) (λ a. refl) r.custody.id s.accounts d)
        (escrow-after game escrow row r.custody s d r.owned unowned e)
        (AllReady-after game escrow row r.custody s d r.owned rs alone ready) in
    record {
      last = next.last;
      went =
          ap (λ m. m >>= consume_rows game escrow rs) (consume_row-done game escrow row s d r)
          ∙ next.went;
      escrow_there = next.escrow_there;
      sum = next.sum;
    }

-- A run of `consume_reservations` that committed, having moved a total.
pub record Moves (total : ℤ) (m : Attempt (Books × ConsumeResult)) : Type 0 where
  pub result : Books × ConsumeResult
  pub committed : m ≡ ok result
  pub moved : result.1.total_lamports ≡ total

consume_into-Moves :
    (tier : String) (game : ℕ) (escrow : PoolAccount) (rs : List StakeReservation) (b : Books)
    → escrow.owner ≡ none
    → DistinctIds b.accounts
    → find_account escrow.id b.accounts ≡ some escrow
    → AllReady game b.accounts b.postings rs
    → Moves (staked_from (pos 0) rs) (consume_into tier game escrow rs b)
consume_into-Moves tier game escrow rs b unowned d e ready =
    let t = consume_rows-Through game escrow rs (opening escrow b) unowned d e ready in
    let w =
      current_row escrow.id (set_balance t.last.escrow_balance) t.last.accounts escrow
        t.escrow_there in
    record {
      result =
          consumed_result tier b t.last
            (replaced escrow.id (set_balance t.last.escrow_balance) t.last.accounts);
      committed = rw (t.went, consume_into) (rw w refl);
      moved = t.sum;
    }

consume_found-Moves :
    (tier : String) (game : ℕ) (escrow : PoolAccount) (rs : List StakeReservation) (b : Books)
    → escrow.owner ≡ none
    → DistinctIds b.accounts
    → find_account escrow.id b.accounts ≡ some escrow
    → AllReady game b.accounts b.postings rs
    → Moves (staked_from (pos 0) rs) (consume_found tier game escrow.id rs b)
unfolding staked_from
consume_found-Moves tier game escrow [] b unowned d e ready = record {
  result = (b, record { consumed = 0; total_lamports = pos 0 });
  committed = refl;
  moved = refl;
}
consume_found-Moves tier game escrow (row ∷ rs) b unowned d e ready =
    let m = consume_into-Moves tier game escrow (row ∷ rs) b unowned d e ready in
    record { result = m.result; committed = rw (e, consume_found) m.committed; moved = m.moved }

int_eq_self : (a : ℤ) → int_eq a a ≡ true
int_eq_self (pos n) = ground arith
int_eq_self (negsuc n) = ground arith

-- Consuming goes through, and moves the whole sum of the room's reservations, when the caller
-- expects that sum, account identifiers are distinct, the escrow account is there and nobody's own,
-- no player has two reservations in the room, and each player's account covers the reservation and
-- has not been charged for this game.
pub consume_reservations-Moves :
    (tier : String) (game : ℕ) (escrow : PoolAccount) (b : Books)
    → escrow.owner ≡ none
    → DistinctIds b.accounts
    → find_account escrow.id b.accounts ≡ some escrow
    → AllReady game b.accounts b.postings (reservations_for_tier tier b.reservations)
    → Moves (staked_from (pos 0) (reservations_for_tier tier b.reservations)) (
        consume_reservations tier game escrow.id
          (some (staked_from (pos 0) (reservations_for_tier tier b.reservations)))
          b)
unfolding consume_reservations
consume_reservations-Moves tier game escrow b unowned d e ready =
    let rs = reservations_for_tier tier b.reservations in
    let m = consume_found-Moves tier game escrow rs b unowned d e ready in
    record {
      result = m.result;
      committed = rw (int_eq_self (staked_from (pos 0) rs)) m.committed;
      moved = m.moved;
    }
