-- ===== src/Settlement/Standing.antt =====
-- A reported standing (apps/worker/src/settlement/verify.ts), and the stable sort by placement
-- that `[...standings].sort((a, b) => a.placement - b.placement)` stands for.
-- A placement is an integer; a metric that JSON cannot bound (1e999) is `non_finite`.
use solana_snake_arena.Base.{
  ℕ, ◌≡◌, refl, ap, ◌∙◌, Bool, ◌||◌, ◌&&◌, every, List, [], ◌∷◌, map, arith, ◌==◌, if◌then◌else◌,
  any,
}
use solana_snake_arena.Base.Int.{ℤ, leb_ℤ, ◌≤ℤ◌}

pub data Metric : Type 0 where
  finite : ℤ → Metric
  non_finite : Metric

pub record ReportedStanding : Type 0 where
  pub player_id : ℕ
  pub placement : ℤ
  pub score : Metric
  pub kills : Metric
  pub survived_ms : Metric

abbrev pub is_player : ℕ → ReportedStanding → Bool
is_player id s = s.player_id == id

-- A stable sort: an element goes before those that it ties with, which come after it.
unfoldable pub insert_by {ℓ} : {A : Type ℓ} → (A → ℤ) → A → List A → List A
insert_by key x [] = x ∷ []
insert_by key x (y ∷ ys) =
    let rest = insert_by key x ys in if leb_ℤ (key x) (key y) then x ∷ y ∷ ys else y ∷ rest

unfoldable pub sort_by {ℓ} : {A : Type ℓ} → (A → ℤ) → List A → List A
sort_by key [] = []
sort_by key (x ∷ xs) = insert_by key x (sort_by key xs)

abbrev pub placement_of : ReportedStanding → ℤ
placement_of s = s.placement

unfoldable pub by_placement : List ReportedStanding → List ReportedStanding
unfolding sort_by insert_by
by_placement = sort_by placement_of

unfoldable pub sort_placements : List ℤ → List ℤ
unfolding sort_by insert_by
sort_placements = sort_by (λ p. p)

-- No key is less than the one before it.
abbrev pub IsSorted {ℓ} : {A : Type ℓ} → (A → ℤ) → List A → Type 0
IsSorted key [] = Unit
IsSorted key (x ∷ []) = Unit
IsSorted key (x ∷ y ∷ ys) = (key x ≤ℤ key y) × IsSorted key (y ∷ ys)

module _ {ℓ} {A : Type ℓ} (key : A → ℤ) where
  map-insert_by :
      (x : A) (ys : List A) → map key (insert_by key x ys) ≡ insert_by (λ p. p) (key x) (map key ys)
  unfolding insert_by
  map-insert_by x [] = refl
  map-insert_by x (y ∷ ys) = ground (arith, map-insert_by x ys)

  -- Sorting and then reading the keys is reading the keys and sorting them.
  pub map-sort_by : (xs : List A) → map key (sort_by key xs) ≡ sort_by (λ p. p) (map key xs)
  unfolding sort_by
  map-sort_by [] = refl
  map-sort_by (x ∷ xs) =
      map-insert_by x (sort_by key xs) ∙ ap (insert_by {A = ℤ} (λ p. p) (key x)) (map-sort_by xs)

  insert_by-sorted : (x : A) (ys : List A) → IsSorted key (x ∷ ys) → insert_by key x ys ≡ x ∷ ys
  unfolding insert_by
  insert_by-sorted x [] h = refl
  insert_by-sorted x (y ∷ ys) h = ground arith

  tail-IsSorted : (x : A) (ys : List A) → IsSorted key (x ∷ ys) → IsSorted key ys
  tail-IsSorted x [] h = tt
  tail-IsSorted x (y ∷ ys) h = h.1

  pub sort_by-sorted : (xs : List A) → IsSorted key xs → sort_by key xs ≡ xs
  unfolding sort_by
  sort_by-sorted [] h = refl
  sort_by-sorted (x ∷ xs) h =
      rw (sort_by-sorted xs (tail-IsSorted x xs h)) (insert_by-sorted x xs h)

  insert_by-IsSorted : (x : A) (ys : List A) → IsSorted key ys → IsSorted key (insert_by key x ys)
  unfolding insert_by
  insert_by-IsSorted x [] h = tt
  insert_by-IsSorted x (y ∷ []) h = ground arith
  insert_by-IsSorted x (y ∷ z ∷ zs) h = ground (arith, insert_by-IsSorted x (z ∷ zs) h.1)

  pub sort_by-IsSorted : (xs : List A) → IsSorted key (sort_by key xs)
  unfolding sort_by
  sort_by-IsSorted [] = tt
  sort_by-IsSorted (x ∷ xs) = insert_by-IsSorted x (sort_by key xs) (sort_by-IsSorted xs)

  any-insert_by :
      (p : A → Bool) (x : A) (ys : List A) → any p (insert_by key x ys) ≡ (p x || any p ys)
  unfolding insert_by
  any-insert_by p x [] = refl
  any-insert_by p x (y ∷ ys) = ground (arith, any-insert_by p x ys)

  -- A sort neither adds nor drops an element.
  pub any-sort_by : (p : A → Bool) (xs : List A) → any p (sort_by key xs) ≡ any p xs
  unfolding sort_by
  any-sort_by p [] = refl
  any-sort_by p (x ∷ xs) = ground (arith, any-insert_by p x (sort_by key xs), any-sort_by p xs)

  every-insert_by :
      (p : A → Bool) (x : A) (ys : List A) → every p (insert_by key x ys) ≡ (p x && every p ys)
  unfolding insert_by
  every-insert_by p x [] = refl
  every-insert_by p x (y ∷ ys) = ground (arith, every-insert_by p x ys)

  pub every-sort_by : (p : A → Bool) (xs : List A) → every p (sort_by key xs) ≡ every p xs
  unfolding sort_by
  every-sort_by p [] = refl
  every-sort_by p (x ∷ xs) =
      ground (arith, every-insert_by p x (sort_by key xs), every-sort_by p xs)
