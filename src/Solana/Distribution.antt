-- ===== src/Solana/Distribution.antt =====
-- When a distribution is built and what it says (packages/solana/src/instructions.ts:
-- `createDistributeWinningsInstruction`, `splitWithdrawal`).
use solana_snake_arena.Base.{
  ℕ, ◌-◌, ◌≤◌, ◌≡◌, refl, ◌∙◌, Bool, true, false, not, ◌&&◌, ltb, leb, List, [], ◌∷◌, map, length,
  arith, All, any, every, length-append, length-replicate, if_elim, replicate,
}
use solana_snake_arena.Base.Int.{ℤ, pos, pos_part, ltb_ℤ}
use solana_snake_arena.Solana.Encode.{
  Bytes, PublicKey, Pda, Web3, Outcome, built, throws, ◌>>=◌, encode_u64, encode_vec, u32_max,
}
use solana_snake_arena.Solana.Reader.{read_word, read_vec}
use solana_snake_arena.Solana.RoundTrip.{
  Reads, Succeeds, Succeeds-bind, fits_u64, encode_u64-Reads, encode_vec-Reads,
}
use solana_snake_arena.Solana.Pda.{
  normalize_room_id, room_id_len, find_room_pda, find_room_vault_pda,
}
use solana_snake_arena.Solana.Arguments.{Hashes, Calls, encode_instruction-Calls}
use solana_snake_arena.Solana.Payouts.{
  WinnerPayout, same_key, check_winners, validate_winners, create_distribute_winnings_instruction,
}

-- A list of payouts that may be paid: one to eight, each positive, no player twice.
abbrev pub is_positive : WinnerPayout → Bool
is_positive w = ltb_ℤ (pos 0) w.lamports

abbrev pub is_paid_in : List WinnerPayout → PublicKey → Bool
is_paid_in winners player = any (λ (v : WinnerPayout). same_key v.player player) winners

unfoldable pub has_no_duplicate : List WinnerPayout → Bool
has_no_duplicate [] = true
has_no_duplicate (w ∷ winners) = not (is_paid_in winners w.player) && has_no_duplicate winners

abbrev pub is_payable : List WinnerPayout → Bool
is_payable winners =
    leb 1 (length winners)
    && leb (length winners) 8
    && every is_positive winners
    && has_no_duplicate winners

abbrev pub is_built {ℓ} : {A : Type ℓ} → Outcome A → Bool
is_built (built a) = true
is_built (throws e) = false

abbrev unseen : List PublicKey → WinnerPayout → Bool
unseen seen w = not (any (same_key w.player) seen)

unseen_more :
    (p : PublicKey) (seen : List PublicKey) (winners : List WinnerPayout)
    → every (unseen (p ∷ seen)) winners
      ≡ (not (is_paid_in winners p) && every (unseen seen) winners)
unseen_more p seen [] = refl
unseen_more p seen (w ∷ winners) = ground (arith, unseen_more p seen winners)

unseen_none : (winners : List WinnerPayout) → every (unseen []) winners ≡ true
unseen_none [] = refl
unseen_none (w ∷ winners) = unseen_none winners

check_winners_built :
    (seen : List PublicKey) (winners : List WinnerPayout)
    → is_built (check_winners seen winners)
      ≡ (every is_positive winners && has_no_duplicate winners && every (unseen seen) winners)
unfolding check_winners has_no_duplicate
check_winners_built seen [] = refl
check_winners_built seen (w ∷ winners) =
    ground (arith, check_winners_built (w.player ∷ seen) winners, unseen_more w.player seen winners)

pub validate_winners_built :
    (winners : List WinnerPayout) → is_built (validate_winners winners) ≡ is_payable winners
validate_winners_built winners = ground (arith, check_winners_built [] winners, unseen_none winners)

pub is_built-Succeeds {ℓ} :
    {A : Type ℓ} (m : Outcome A) → is_built m ≡ true → Succeeds (λ (a : A). Unit) m
is_built-Succeeds (built a) h = tt
is_built-Succeeds (throws e) h = ground arith

abbrev zero_byte : ℕ
zero_byte = 0

padding :
    (room_id : Bytes) → length (replicate (16 - length room_id) (zero_byte)) ≡ 16 - length room_id
padding room_id = length-replicate (16 - length room_id) zero_byte

pub normalize_room_id-Succeeds :
    (room_id : Bytes)
    → length room_id ≤ 16
    → Succeeds (λ (id : Bytes). length id ≡ 16) (normalize_room_id room_id)
unfolding normalize_room_id
normalize_room_id-Succeeds room_id short =
    if_elim (Succeeds (λ (id : Bytes). length id ≡ 16)) (ltb room_id_len (length room_id))
      (λ over. ground arith)
      (λ fits.
        omega (arith, length-append room_id (replicate (16 - length room_id) 0), padding room_id))

pub find_room_pda-Succeeds :
    (web3 : Web3) (program_id : PublicKey) (id : Bytes)
    → length id ≡ 16
    → Succeeds (λ (p : Pda). Unit) (find_room_pda web3 program_id id)
find_room_pda-Succeeds web3 program_id id short =
    Succeeds-bind (λ (n : Bytes). length n ≡ 16) (λ (p : Pda). Unit) (normalize_room_id id) _
      (normalize_room_id-Succeeds id (omega (arith, short))) (λ n fits. tt)

pub find_room_vault_pda-Succeeds :
    (web3 : Web3) (program_id : PublicKey) (id : Bytes)
    → length id ≡ 16
    → Succeeds (λ (p : Pda). Unit) (find_room_vault_pda web3 program_id id)
find_room_vault_pda-Succeeds web3 program_id id short =
    Succeeds-bind (λ (n : Bytes). length n ≡ 16) (λ (p : Pda). Unit) (normalize_room_id id) _
      (normalize_room_id-Succeeds id (omega (arith, short))) (λ n fits. tt)

abbrev amount : WinnerPayout → ℤ
amount w = w.lamports

abbrev pub amounts : List WinnerPayout → List ℕ
amounts winners = map pos_part (map amount winners)

length-map : (winners : List WinnerPayout) → length (map amount winners) ≡ length winners
length-map [] = refl
length-map (w ∷ winners) = omega (arith, length-map winners)

few_winners :
    (winners : List WinnerPayout)
    → is_payable winners ≡ true
    → length (map amount winners) ≤ u32_max
few_winners winners h = ground (arith, length-map winners)

All-amounts :
    (zs : List ℤ)
    → All (λ (z : ℤ). fits_u64 z ≡ true) zs
    → All (λ (z : ℤ). Succeeds (Reads (read_word 8) (pos_part z)) (encode_u64 z)) zs
All-amounts [] h = tt
All-amounts (z ∷ zs) h = (encode_u64-Reads z h.0, All-amounts zs h.1)

-- The amounts of payable winners are packed so that they are read back.
pub amounts-Reads :
    (winners : List WinnerPayout)
    → is_payable winners ≡ true
    → All (λ (z : ℤ). fits_u64 z ≡ true) (map amount winners)
    → Succeeds
        (Reads (read_vec (read_word 8)) (amounts winners))
        (encode_vec encode_u64 (map amount winners))
amounts-Reads winners payable fit =
    encode_vec-Reads (read_word 8) pos_part encode_u64 (map amount winners)
      (few_winners winners payable) (All-amounts (map amount winners) fit)

bind-refused {ℓ κ} :
    {A : Type ℓ} {B : Type κ} (m : Outcome A) (k : A → Outcome B)
    → is_built m ≡ false
    → is_built (m >>= k) ≡ false
bind-refused (built a) k h = ground arith
bind-refused (throws e) k h = refl

-- A distribution to one to eight players, none twice, of positive amounts of 64 bits, is built, and the
-- program reads back a call of `distribute_winnings` with those amounts in that order and nothing more.
pub create_distribute_winnings_instruction-Calls :
    (web3 : Web3) (program_id authority : PublicKey) (room_id : Bytes) (winners : List WinnerPayout)
    → Hashes web3
    → length room_id ≤ 16
    → is_payable winners ≡ true
    → All (λ (z : ℤ). fits_u64 z ≡ true) (map amount winners)
    → Succeeds
        (Calls web3 (read_vec (read_word 8)) "distribute_winnings" (amounts winners))
        (create_distribute_winnings_instruction web3 program_id authority room_id winners)
unfolding create_distribute_winnings_instruction
create_distribute_winnings_instruction-Calls web3 program_id authority room_id winners hashes short
      payable fit =
    let goal = Calls web3 (read_vec (read_word 8)) "distribute_winnings" (amounts winners) in
    Succeeds-bind (λ (u : Unit {0}). Unit) goal (validate_winners winners) _
      (is_built-Succeeds (validate_winners winners) (validate_winners_built winners ∙ payable))
      (λ checked u.
        Succeeds-bind (λ (id : Bytes). length id ≡ 16) goal (normalize_room_id room_id) _
          (normalize_room_id-Succeeds room_id short)
          (λ id fits.
            Succeeds-bind (λ (p : Pda). Unit) goal (find_room_pda web3 program_id id) _
              (find_room_pda-Succeeds web3 program_id id fits)
              (λ room v.
                Succeeds-bind (λ (p : Pda). Unit) goal (find_room_vault_pda web3 program_id id) _
                  (find_room_vault_pda-Succeeds web3 program_id id fits)
                  (λ room_vault w.
                    Succeeds-bind (Reads (read_vec (read_word 8)) (amounts winners)) goal
                      (encode_vec encode_u64 (map amount winners)) _
                      (amounts-Reads winners payable fit)
                      (λ payouts reads.
                        encode_instruction-Calls web3 (read_vec (read_word 8)) "distribute_winnings"
                          (amounts winners) payouts hashes reads)))))

-- A list of payouts that is empty or longer than eight, or that names a player twice or an amount that is
-- not positive, is refused.
pub create_distribute_winnings_instruction_refuses :
    (web3 : Web3) (program_id authority : PublicKey) (room_id : Bytes) (winners : List WinnerPayout)
    → is_payable winners ≡ false
    → is_built (create_distribute_winnings_instruction web3 program_id authority room_id winners)
      ≡ false
unfolding create_distribute_winnings_instruction
create_distribute_winnings_instruction_refuses web3 program_id authority room_id winners bad =
    bind-refused (validate_winners winners) _ (validate_winners_built winners ∙ bad)
