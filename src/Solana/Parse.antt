-- ===== src/Solana/Parse.antt =====
-- What a transaction moved (packages/solana/src/tx/parse.ts: `parseBalanceChanges`,
-- `verifyIncomingTransfer`). A map from addresses is a function that gives zero for a missing one.
use solana_snake_arena.Base.{ℕ, Bool, false, Option, none, some, List, [], ◌∷◌, if◌then◌else◌}
use solana_snake_arena.Base.Int.{ℤ, pos, ◌-ℤ◌, int_eq, leb_ℤ}
use solana_snake_arena.Solana.Encode.{PublicKey}
use solana_snake_arena.Solana.Payouts.{same_key}

pub record Meta : Type 0 where
  pub err : Bool
  pub pre_balances : List ℕ
  pub post_balances : List ℕ

pub record ParsedTransaction : Type 0 where
  pub account_keys : List PublicKey
  pub meta : Option Meta

abbrev pub Changes : Type 0
Changes = PublicKey → ℤ

-- `balances[index] ?? 0`, the index being the head.
abbrev pub head_or_zero : List ℕ → ℕ
head_or_zero [] = 0
head_or_zero (n ∷ ns) = n

abbrev pub rest_of : List ℕ → List ℕ
rest_of [] = []
rest_of (n ∷ ns) = ns

abbrev pub put_change : PublicKey → ℤ → Changes → Changes
put_change key delta changes k = if same_key k key then delta else changes k

-- The loop over the account keys.
unfoldable pub changes_from : List PublicKey → List ℕ → List ℕ → Changes → Changes
changes_from [] pre post changes = changes
changes_from (key ∷ keys) pre post changes =
    let delta = pos (head_or_zero post) -ℤ pos (head_or_zero pre) in
    changes_from keys (rest_of pre) (rest_of post)
      (if int_eq delta (pos 0) then changes else put_change key delta changes)

abbrev pub no_changes : Changes
no_changes k = pos 0

unfoldable pub parse_balance_changes : ParsedTransaction → Changes
parse_balance_changes t = elim t.meta [
  | none ↦ no_changes
  | some m ↦ changes_from t.account_keys m.pre_balances m.post_balances no_changes
]

pub record Verification : Type 0 where
  pub ok : Bool
  pub credited : ℤ

abbrev pub has_failed : ParsedTransaction → Bool
has_failed t = elim t.meta [ none ↦ false | some m ↦ m.err ]

unfoldable pub verify_incoming_transfer : ParsedTransaction → PublicKey → ℤ → Verification
verify_incoming_transfer t destination min_lamports =
    if has_failed t
    then record { ok = false; credited = pos 0 }
    else (let credited = parse_balance_changes t destination in
        record { ok = leb_ℤ min_lamports credited; credited = credited })
