-- ===== src/Settling/Backing.antt =====
-- What backs a prize on chain (apps/worker/src/settlement/settle.ts), and a retry that cannot pay it.
use solana_snake_arena.Base.{
  ℕ, subst, Option, none, is_some, ◌≡◌, ◌⊎◌, refl, true, false, some, inl, inr, arith,
}
use solana_snake_arena.Base.Int.{pos}
use solana_snake_arena.Settling.World.{
  GameRow, World, Chain, ChainError, ChainResult, done, refused, room_not_open,
  room_not_in_progress, prize_not_unlocked, room_already_settled, already_in_use, other_failure,
  settled, Run, returned, threw,
}
use solana_snake_arena.Settling.Pipeline.{
  settle_game, plan_for, mark_pending, note_pot, persist, error_of, is_already_done, wallet_of,
}
use solana_snake_arena.Settling.Ends.{
  Backed, ledger_only, sent, sent_before, tolerated, Ends, settle_row_ends,
}
use solana_snake_arena.Settling.Fair.{book_ends, game_found}

-- The errors that stand for something done before.
pub data SaysBefore : ChainError → Type 0 where
  says_not_unlocked : SaysBefore prize_not_unlocked
  says_settled : SaysBefore room_already_settled
  says_in_use : SaysBefore already_in_use

-- The answers to the start of a room after which it is unlocked.
pub data GoesOn : ChainResult → Type 0 where
  started : (signature : ℕ) → GoesOn (done signature)
  not_open : GoesOn (refused room_not_open)
  settled_before : GoesOn (refused room_already_settled)
  in_use : GoesOn (refused already_in_use)

-- The answers to the start and to the unlocking of a room after which the winner is paid.
pub data IsOpened : (start unlock : ChainResult) → Type 0 where
  unlocks : {start : ChainResult} → GoesOn start → (signature : ℕ) → IsOpened start (done signature)
  unlocked_before :
      {start : ChainResult} {e : ChainError}
      → GoesOn start
      → SaysBefore e
      → IsOpened start (refused e)
  start_refused : {unlock : ChainResult} → IsOpened (refused prize_not_unlocked) unlock

-- What stands behind a payment, by the chain's own answers.
pub data PaidFor (chain : Chain) (winner : ℕ) : Option ℕ → Type 0 where
  no_chain : chain.can_sign ≡ false → PaidFor chain winner none
  transferred :
      (signature : ℕ)
      → IsOpened chain.start_room chain.unlock_prize
      → is_some (wallet_of winner chain.wallets) ≡ true
      → chain.settle_to_winner ≡ done signature
      → PaidFor chain winner (some signature)
  transferred_before :
      (e : ChainError)
      → IsOpened chain.start_room chain.unlock_prize
      → is_some (wallet_of winner chain.wallets) ≡ true
      → chain.settle_to_winner ≡ refused e
      → SaysBefore e
      → PaidFor chain winner none

is_already_done-SaysBefore : (e : ChainError) → is_already_done e ≡ true → SaysBefore e
is_already_done-SaysBefore prize_not_unlocked h = says_not_unlocked
is_already_done-SaysBefore room_already_settled h = says_settled
is_already_done-SaysBefore already_in_use h = says_in_use
is_already_done-SaysBefore room_not_open h = ground arith
is_already_done-SaysBefore room_not_in_progress h = ground arith
is_already_done-SaysBefore other_failure h = ground arith

tolerated-IsOpened :
    (start unlock : ChainResult) → tolerated (error_of start unlock) ≡ true → IsOpened start unlock
tolerated-IsOpened (done s) (done t) h = unlocks (started s) t
tolerated-IsOpened (done s) (refused f) h =
    unlocked_before (started s) (is_already_done-SaysBefore f h)
tolerated-IsOpened (refused room_not_open) (done t) h = unlocks not_open t
tolerated-IsOpened (refused room_not_open) (refused f) h =
    unlocked_before not_open (is_already_done-SaysBefore f h)
tolerated-IsOpened (refused room_already_settled) (done t) h = unlocks settled_before t
tolerated-IsOpened (refused room_already_settled) (refused f) h =
    unlocked_before settled_before (is_already_done-SaysBefore f h)
tolerated-IsOpened (refused already_in_use) (done t) h = unlocks in_use t
tolerated-IsOpened (refused already_in_use) (refused f) h =
    unlocked_before in_use (is_already_done-SaysBefore f h)
tolerated-IsOpened (refused prize_not_unlocked) unlock h = start_refused
tolerated-IsOpened (refused room_not_in_progress) (done t) h = ground arith
tolerated-IsOpened (refused room_not_in_progress) (refused f) h = ground arith
tolerated-IsOpened (refused other_failure) (done t) h = ground arith
tolerated-IsOpened (refused other_failure) (refused f) h = ground arith

Backed-PaidFor :
    (chain : Chain) (winner : ℕ) (signature : Option ℕ)
    → Backed chain winner signature
    → PaidFor chain winner signature
Backed-PaidFor chain winner _ (ledger_only silent) = no_chain silent
Backed-PaidFor chain winner _ (sent s unlocked there moved) =
    transferred s (tolerated-IsOpened chain.start_room chain.unlock_prize unlocked) there moved
Backed-PaidFor chain winner _ (sent_before e unlocked there lost before) =
    transferred_before e (tolerated-IsOpened chain.start_room chain.unlock_prize unlocked) there
      lost (is_already_done-SaysBefore e before)

abbrev pub IsBacked : Chain → Run → Type 0
IsBacked chain (returned (settled winner prize rake signature) v) =
    (prize ≡ pos 0) ⊎ PaidFor chain winner signature
IsBacked chain (returned _ v) = Unit
IsBacked chain (threw v) = Unit

IsBacked-Ends : (chain : Chain) (g : GameRow) (w : World) → Ends (IsBacked chain) chain g w
IsBacked-Ends chain g w = record {
  idle = record { rejects = λ reason v same. tt; throws = λ v same. tt };
  unreported = tt;
  again = λ paid. tt;
  emptied = λ standings. tt;
  free = λ winner standings why v same. inl refl;
  booked = λ verified winner why whole signature backed.
      book_ends (IsBacked chain) chain (plan_for chain g verified winner) signature
        (mark_pending (note_pot chain g (persist verified.standings w)))
        (λ books posted. inr (Backed-PaidFor chain winner.player_id signature backed)) tt;
}

pub settle_game-IsBacked :
    (chain : Chain) (g : GameRow) (w : World)
    → w.game ≡ some g
    → IsBacked chain (settle_game chain w)
settle_game-IsBacked chain g w found =
    game_found (IsBacked chain) chain g w found
      (settle_row_ends (IsBacked chain) chain g w (IsBacked-Ends chain g w))

-- A run that settles no prize.
abbrev pub Unpaid : Run → Type 0
Unpaid (returned (settled winner prize rake signature) v) = prize ≡ pos 0
Unpaid (returned _ v) = Unit
Unpaid (threw v) = Unit

shut : IsOpened (refused room_not_open) (refused room_not_in_progress) → ⊥
shut (unlocked_before _ before) = elim before [ ]

stuck :
    (chain : Chain)
    → chain.start_room ≡ refused room_not_open
    → chain.unlock_prize ≡ refused room_not_in_progress
    → IsOpened chain.start_room chain.unlock_prize
    → ⊥
stuck chain opened unlocked h = shut (
    subst (λ r. IsOpened r (refused room_not_in_progress)) opened
      (subst (λ r. IsOpened chain.start_room r) unlocked h))

IsBacked-Unpaid :
    (chain : Chain)
    → chain.can_sign ≡ true
    → (IsOpened chain.start_room chain.unlock_prize → ⊥)
    → (r : Run) → IsBacked chain r
    → Unpaid r
IsBacked-Unpaid chain signing closed (returned (settled winner prize rake signature) v) (inl free) =
    free
IsBacked-Unpaid chain signing closed (returned (settled winner prize rake _) v)
      (inr (no_chain silent)) =
    ground arith
IsBacked-Unpaid chain signing closed (returned (settled winner prize rake _) v)
      (inr (transferred s opened there moved)) =
    absurd (closed opened)
IsBacked-Unpaid chain signing closed (returned (settled winner prize rake _) v)
      (inr (transferred_before e opened there lost before)) =
    absurd (closed opened)
IsBacked-Unpaid chain signing closed (returned _ v) h = tt
IsBacked-Unpaid chain signing closed (threw v) h = tt

-- On a room that is unlocked already, which the chain refuses to start with RoomNotOpen and to unlock
-- with RoomNotInProgress, no run that can sign pays a prize.
pub settle_game-Unpaid :
    (chain : Chain) (g : GameRow) (w : World)
    → w.game ≡ some g
    → chain.can_sign ≡ true
    → chain.start_room ≡ refused room_not_open
    → chain.unlock_prize ≡ refused room_not_in_progress
    → Unpaid (settle_game chain w)
settle_game-Unpaid chain g w found signing opened unlocked =
    IsBacked-Unpaid chain signing (stuck chain opened unlocked) (settle_game chain w)
      (settle_game-IsBacked chain g w found)
