-- ===== src/Solana/Credit.antt =====
-- When a transfer is taken for one (packages/solana/src/tx/parse.ts).
use solana_snake_arena.Base.{
  ℕ, ◌≡◌, refl, sym, ◌∙◌, Bool, true, false, not, ◌&&◌, Option, none, some, List, [], ◌∷◌, any,
  if◌then◌else◌, arith, Bool-cases, inl, inr, subst,
}
use solana_snake_arena.Base.Int.{ℤ, pos, ◌-ℤ◌, int_eq, leb_ℤ, int_eq→eq}
use solana_snake_arena.Solana.Encode.{PublicKey}
use solana_snake_arena.Solana.Payouts.{same_key}
use solana_snake_arena.Solana.Parse.{
  Meta, ParsedTransaction, Changes, head_or_zero, rest_of, put_change, changes_from, no_changes,
  parse_balance_changes, has_failed, verify_incoming_transfer,
}

-- An account's balance in a list that runs beside the keys.
unfoldable pub listed_balance : PublicKey → List PublicKey → List ℕ → ℕ
listed_balance key [] balances = 0
listed_balance key (k ∷ keys) balances =
    let rest = listed_balance key keys (rest_of balances) in
    if same_key key k then head_or_zero balances else rest

-- No key stands twice.
abbrev pub DistinctKeys : List PublicKey → Type 0
DistinctKeys [] = Unit
DistinctKeys (k ∷ keys) = (any (same_key k) keys ≡ false) × DistinctKeys keys

same_key-eq : (a b : PublicKey) → same_key a b ≡ true → a ≡ b
unfolding same_key
same_key-eq [] [] h = refl
same_key-eq [] (y ∷ ys) h = ground arith
same_key-eq (x ∷ xs) [] h = ground arith
same_key-eq (x ∷ xs) (y ∷ ys) h =
    let head : x ≡ y = ground arith in
    let tail = same_key-eq xs ys (ground arith) in cc (head, tail)

-- What a step of the loop leaves under a key.
step_elsewhere :
    (same : Bool) (key k : PublicKey) (delta : ℤ) (changes : Changes)
    → same_key key k ≡ false
    → (if same then changes else put_change k delta changes) key ≡ changes key
step_elsewhere true key k delta changes differs = refl
step_elsewhere false key k delta changes differs = simp differs

step_here :
    (key k : PublicKey) (delta : ℤ) (changes : Changes)
    → same_key key k ≡ true
    → changes key ≡ pos 0
    → (if int_eq delta (pos 0) then changes else put_change k delta changes) key ≡ delta
step_here key k delta changes same fresh = elim (Bool-cases (int_eq delta (pos 0))) [
  | inl zero ↦ rw (zero) (fresh ∙ sym (int_eq→eq delta (pos 0) zero))
  | inr moved ↦ simp (moved, same)
]

changes_absent :
    (key : PublicKey) (keys : List PublicKey) (pre post : List ℕ) (changes : Changes)
    → any (same_key key) keys ≡ false
    → changes_from keys pre post changes key ≡ changes key
unfolding changes_from
changes_absent key [] pre post changes absent = refl
changes_absent key (k ∷ keys) pre post changes absent =
    changes_absent key keys (rest_of pre) (rest_of post) _ (ground arith)
    ∙ step_elsewhere (int_eq (pos (head_or_zero post) -ℤ pos (head_or_zero pre)) (pos 0)) key k _
        changes (ground arith)

nothing_moved : pos 0 ≡ pos 0 -ℤ pos 0
unfolding ◌-ℤ◌
nothing_moved = refl

changes_credit :
    (key : PublicKey) (keys : List PublicKey) (pre post : List ℕ) (changes : Changes)
    → DistinctKeys keys
    → changes key ≡ pos 0
    → changes_from keys pre post changes key
      ≡ pos (listed_balance key keys post) -ℤ pos (listed_balance key keys pre)
unfolding changes_from listed_balance
changes_credit key [] pre post changes distinct fresh = fresh ∙ nothing_moved
changes_credit key (k ∷ keys) pre post changes (once, distinct) fresh =
    elim (Bool-cases (same_key key k)) [
      | inl here ↦
          let absent : any (same_key key) keys ≡ false =
            subst (λ x. any (same_key x) keys ≡ false) (sym (same_key-eq key k here)) once in
          rw (here) (
            changes_absent key keys (rest_of pre) (rest_of post) _ absent
            ∙ step_here key k (pos (head_or_zero post) -ℤ pos (head_or_zero pre)) changes here
                fresh)
      | inr elsewhere ↦ rw (elsewhere) (
          changes_credit key keys (rest_of pre) (rest_of post) _ distinct (
            step_elsewhere (int_eq (pos (head_or_zero post) -ℤ pos (head_or_zero pre)) (pos 0)) key
              k _ changes elsewhere
            ∙ fresh))
    ]

-- By how much a transaction raises a balance: the balance after it less the one before.
abbrev pub rise : ParsedTransaction → PublicKey → ℤ
rise t key = elim t.meta [
  | none ↦ pos 0
  | some m ↦
      pos (listed_balance key t.account_keys m.post_balances)
      -ℤ pos (listed_balance key t.account_keys m.pre_balances)
]

parse_balance_changes-rise_of :
    (keys : List PublicKey) (meta : Option Meta) (key : PublicKey)
    → DistinctKeys keys
    → parse_balance_changes (record { account_keys = keys; meta = meta }) key
      ≡ rise (record { account_keys = keys; meta = meta }) key
unfolding parse_balance_changes
parse_balance_changes-rise_of keys none key distinct = refl
parse_balance_changes-rise_of keys (some m) key distinct =
    changes_credit key keys m.pre_balances m.post_balances no_changes distinct refl

parse_balance_changes-rise :
    (t : ParsedTransaction) (key : PublicKey)
    → DistinctKeys t.account_keys
    → parse_balance_changes t key ≡ rise t key
parse_balance_changes-rise t key distinct =
    parse_balance_changes-rise_of t.account_keys t.meta key distinct

-- A transaction whose accounts are all different is taken for a transfer of `min_lamports` to
-- `destination` exactly when it did not fail and the balance of `destination` after it is at least
-- `min_lamports` above the one before it; what is then credited is that difference, and a failed
-- transaction credits nothing.
pub verify_incoming_transfer_exact :
    (t : ParsedTransaction) (destination : PublicKey) (min_lamports : ℤ)
    → DistinctKeys t.account_keys
    → ((verify_incoming_transfer t destination min_lamports).ok
        ≡ (not (has_failed t) && leb_ℤ min_lamports (rise t destination)))
      × ((verify_incoming_transfer t destination min_lamports).credited
          ≡ (if has_failed t then pos 0 else rise t destination))
unfolding verify_incoming_transfer
verify_incoming_transfer_exact t destination min_lamports distinct =
    let exact = parse_balance_changes-rise t destination distinct in
    elim (Bool-cases (has_failed t)) [
      | inl failed ↦ (simp failed, simp failed)
      | inr succeeded ↦ (rw (succeeded, exact) refl, rw (succeeded, exact) refl)
    ]
