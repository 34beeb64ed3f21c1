-- ===== src/Settling/Ends.antt =====
-- The ends that a run of the pipeline can have (apps/worker/src/settlement/settle.ts): what holds of
-- each of them holds of every run.
use solana_snake_arena.Base.{
  ℕ, ◌≡◌, ◌⊎◌, refl, sym, ap, ◌∙◌, Bool, true, false, not, ◌&&◌, ◌||◌, ◌==◌, ltb, Option, none,
  some, List, inl, inr, is_some, if_elim, not-false, subst, Option-cases, arith,
}
use solana_snake_arena.Base.Int.{pos, int_eq, int_eq→eq}
use solana_snake_arena.Ledger.{Books}
use solana_snake_arena.Ledger.Refund.{is_cancelled, not_required, confirmed}
use solana_snake_arena.Settlement.Standing.{ReportedStanding}
use solana_snake_arena.Settlement.Verify.{MatchResultReport, VerifiedResult, detect_winner}
use solana_snake_arena.Settlement.Payout.{total_payout, within_transaction_limit}
use solana_snake_arena.Settling.World.{
  GameRow, World, SettleRejection, was_cancelled, invalid_json, no_winner, too_many_winners,
  not_the_prize, no_wallet, unverified, StoredResult, missing, not_json, reported, ChainError,
  ChainResult, done, refused, Chain, settled, no_result, already_settled, rejected, Run, returned,
  threw,
}
use solana_snake_arena.Settling.Pipeline.{
  is_confirmed, verified_by, book, pay_winner, unlock_error, pay_on_chain, Plan, pay_out,
  settle_verified, judge, settle_row, is_already_done, mark_failed, wallet_of, with_leaderboard,
  finish_game, mark_pending, has_no_shares, is_vault_empty, persist, note_pot, plan_for, pot_of,
}

-- What a settlement of a game rests on.
pub record Justified (chain : Chain) (g : GameRow) (winner : ℕ) : Type 0 where
  pub unpaid : is_confirmed g.settlement_status ≡ false
  pub going : is_cancelled g.status ≡ false
  pub report : MatchResultReport
  pub read : chain.stored ≡ reported report
  pub sound : (verified_by chain g report).ok ≡ true
  pub first : ReportedStanding
  pub won : detect_winner (verified_by chain g report) ≡ some first
  pub named : winner ≡ first.player_id

-- The errors that `settleGame` reads as a room that is unlocked.
abbrev pub tolerated : Option ChainError → Bool
tolerated none = true
tolerated (some e) = is_already_done e

-- What backs a payout: no chain to write, or a transfer that the chain made or says is made already, to
-- a winner with a verified wallet.
pub data Backed (chain : Chain) (winner : ℕ) : Option ℕ → Type 0 where
  ledger_only : chain.can_sign ≡ false → Backed chain winner none
  sent :
      (signature : ℕ)
      → tolerated (unlock_error chain) ≡ true
      → is_some (wallet_of winner chain.wallets) ≡ true
      → chain.settle_to_winner ≡ done signature
      → Backed chain winner (some signature)
  sent_before :
      (e : ChainError)
      → tolerated (unlock_error chain) ≡ true
      → is_some (wallet_of winner chain.wallets) ≡ true
      → chain.settle_to_winner ≡ refused e
      → is_already_done e ≡ true
      → Backed chain winner none

StoredResult-cases :
    (r : StoredResult)
    → ((r ≡ missing) ⊎ (r ≡ not_json)) ⊎ ((a : MatchResultReport) × (r ≡ reported a))
StoredResult-cases missing = inl (inl refl)
StoredResult-cases not_json = inl (inr refl)
StoredResult-cases (reported a) = inr (a, refl)

ChainResult-cases :
    (r : ChainResult) → ((s : ℕ) × (r ≡ done s)) ⊎ ((e : ChainError) × (r ≡ refused e))
ChainResult-cases (done s) = inl (s, refl)
ChainResult-cases (refused e) = inr (e, refl)

-- The ends of a run that leave the books alone and settle nothing.
pub record Idle (P : Run → Type 0) (b : Books) : Type 0 where
  pub rejects :
      (reason : SettleRejection) (v : World) → v.books ≡ b → P (returned (rejected reason) v)
  pub throws : (v : World) → v.books ≡ b → P (threw v)

pay_winner_ends :
    (P : Run → Type 0) (chain : Chain) (plan : Plan) (w : World)
    → Idle P w.books
    → tolerated (unlock_error chain) ≡ true
    → ((signature : Option ℕ)
        → Backed chain plan.winner signature
        → P (book chain plan signature w))
    → P (pay_winner chain plan w)
unfolding pay_winner
pay_winner_ends P chain plan w idle unlocked booked =
    if_elim P (not (is_some (wallet_of plan.winner chain.wallets)))
      (λ absent. idle.rejects no_wallet (mark_failed w) refl)
      (λ there. elim (ChainResult-cases chain.settle_to_winner) [
        | inl (signature, moved) ↦
            rw moved (booked (some signature) (sent signature unlocked (not-false there) moved))
        | inr (e, lost) ↦ rw lost (
            if_elim P (is_already_done e)
              (λ before. booked none (sent_before e unlocked (not-false there) lost before))
              (λ failing. idle.throws (mark_failed w) refl))
      ])

pay_on_chain_ends :
    (P : Run → Type 0) (chain : Chain) (plan : Plan) (w : World)
    → Idle P w.books
    → ((signature : Option ℕ)
        → Backed chain plan.winner signature
        → P (book chain plan signature w))
    → P (pay_on_chain chain plan w)
unfolding pay_on_chain
pay_on_chain_ends P chain plan w idle booked = elim (Option-cases (unlock_error chain)) [
  | inl unlocked ↦
      rw (unlocked, pay_on_chain)
        (pay_winner_ends P chain plan w idle (ap tolerated unlocked) booked)
  | inr (e, raised) ↦
      rw (raised, pay_on_chain)
        (if_elim P (is_already_done e)
          (λ before. pay_winner_ends P chain plan w idle (ap tolerated raised ∙ before) booked)
          (λ failing. idle.throws w refl))
]

pay_out_ends :
    (P : Run → Type 0) (chain : Chain) (plan : Plan) (pot : ℕ) (w : World)
    → Idle P w.books
    → P (
        returned
          (settled plan.winner (pos 0) (pos 0) none)
          (with_leaderboard chain plan.standings (finish_game not_required none w)))
    → (total_payout plan.payouts ≡ plan.prize_pool
        → (signature : Option ℕ) → Backed chain plan.winner signature
        → P (book chain plan signature (mark_pending w)))
    → P (pay_out chain plan pot w)
unfolding pay_out
pay_out_ends P chain plan pot w idle free booked =
    if_elim P (pot == 0 || has_no_shares plan.payouts) (λ nothing. free)
      (λ stakes.
        if_elim P (not (within_transaction_limit plan.payouts))
          (λ many. idle.rejects too_many_winners w refl)
          (λ few.
            if_elim P (not (int_eq (total_payout plan.payouts) plan.prize_pool))
              (λ odd. idle.rejects not_the_prize w refl)
              (λ even.
                let whole =
                  int_eq→eq (total_payout plan.payouts) plan.prize_pool (not-false even) in
                if_elim P chain.can_sign
                  (λ signing. pay_on_chain_ends P chain plan (mark_pending w) idle (booked whole))
                  (λ silent. booked whole none (ledger_only silent)))))

pub note_pot-books :
    (chain : Chain) (g : GameRow) (w : World) → (note_pot chain g w).books ≡ w.books
note_pot-books chain g w = ground arith

settle_verified_ends :
    (P : Run → Type 0) (chain : Chain) (g : GameRow) (verified : VerifiedResult)
    (winner : ReportedStanding) (w : World)
    → Idle P w.books
    → P (returned already_settled (finish_game confirmed none (persist verified.standings w)))
    → ((v : World)
        → v.books ≡ w.books
        → P (
            returned
              (settled winner.player_id (pos 0) (pos 0) none)
              (with_leaderboard chain verified.standings (finish_game not_required none v))))
    → (total_payout (plan_for chain g verified winner).payouts
          ≡ (plan_for chain g verified winner).prize_pool
        → (signature : Option ℕ) → Backed chain winner.player_id signature
        → P (
            book chain
              (plan_for chain g verified winner)
              signature
              (mark_pending (note_pot chain g (persist verified.standings w)))))
    → P (settle_verified chain g verified winner w)
unfolding settle_verified
settle_verified_ends P chain g verified winner w idle emptied free booked =
    let noted = note_pot chain g (persist verified.standings w) in
    if_elim P (ltb 0 g.pot_lamports && chain.can_sign && is_vault_empty chain) (λ gone. emptied)
      (λ held.
        pay_out_ends P chain (plan_for chain g verified winner) (pot_of chain g) noted
          (subst (Idle P) (sym (note_pot-books chain g (persist verified.standings w))) idle)
          (free noted (note_pot-books chain g (persist verified.standings w))) booked)

-- What holds at each end, for a game read with its books.
pub record Ends (P : Run → Type 0) (chain : Chain) (g : GameRow) (w : World) : Type 0 where
  pub idle : Idle P w.books
  pub unreported : P (returned no_result w)
  pub again : is_confirmed g.settlement_status ≡ true → P (returned already_settled w)
  pub emptied :
      (standings : List ReportedStanding)
      → P (returned already_settled (finish_game confirmed none (persist standings w)))
  pub free :
      (winner : ℕ) (standings : List ReportedStanding)
      → Justified chain g winner
      → (v : World) → v.books ≡ w.books
      → P (
          returned
            (settled winner (pos 0) (pos 0) none)
            (with_leaderboard chain standings (finish_game not_required none v)))
  pub booked :
      (verified : VerifiedResult) (winner : ReportedStanding)
      → Justified chain g winner.player_id
      → total_payout (plan_for chain g verified winner).payouts
        ≡ (plan_for chain g verified winner).prize_pool
      → (signature : Option ℕ) → Backed chain winner.player_id signature
      → P (
          book chain
            (plan_for chain g verified winner)
            signature
            (mark_pending (note_pot chain g (persist verified.standings w))))

judge_ends :
    (P : Run → Type 0) (chain : Chain) (g : GameRow) (report : MatchResultReport) (w : World)
    → Ends P chain g w
    → is_confirmed g.settlement_status ≡ false
    → is_cancelled g.status ≡ false
    → chain.stored ≡ reported report
    → P (judge chain g report w)
unfolding judge
judge_ends P chain g report w ends unpaid going read =
    if_elim P (not (verified_by chain g report).ok)
      (λ bad.
        ends.idle.rejects (unverified (verified_by chain g report).failures) (mark_failed w) refl)
      (λ good. elim (Option-cases (detect_winner (verified_by chain g report))) [
        | inl nobody ↦ rw nobody (ends.idle.rejects no_winner w refl)
        | inr (first, won) ↦
            let why : Justified chain g first.player_id = record {
              unpaid = unpaid;
              going = going;
              report = report;
              read = read;
              sound = not-false good;
              first = first;
              won = won;
              named = refl;
            } in
            rw won (
              settle_verified_ends P chain g (verified_by chain g report) first w ends.idle
                (ends.emptied (verified_by chain g report).standings)
                (ends.free first.player_id (verified_by chain g report).standings why)
                (ends.booked (verified_by chain g report) first why))
      ])

pub settle_row_ends :
    (P : Run → Type 0) (chain : Chain) (g : GameRow) (w : World)
    → Ends P chain g w
    → P (settle_row chain g w)
unfolding settle_row
settle_row_ends P chain g w ends =
    if_elim P (is_confirmed g.settlement_status) ends.again (λ unpaid.
      if_elim P (is_cancelled g.status) (λ gone. ends.idle.rejects was_cancelled w refl)
        (λ going. elim (StoredResult-cases chain.stored) [
          | inl (inl nothing) ↦ rw (nothing, settle_row) ends.unreported
          | inl (inr bad) ↦ rw bad (ends.idle.rejects invalid_json w refl)
          | inr (report, read) ↦ rw read (judge_ends P chain g report w ends unpaid going read)
        ]))
