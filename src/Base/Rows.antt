-- ===== src/Base/Rows.antt =====
-- Lists by native numbers, and tables as lists of rows: the first row that meets a `WHERE` clause,
-- an insertion at the end, an update of the rows that meet a clause.
use Prim.Native.Nat.{ℕ, zero, suc, ◌+◌}
use mathlib.Core.Path.{◌≡◌, refl, ap}
use mathlib.Core.Logic.{inl, inr}
use mathlib.Core.Bool.{Bool, true, false, ◌||◌}
use mathlib.Core.Option.{Option, none, some}
use mathlib.Core.List.{List, [], ◌∷◌, ◌++◌}
use native.Mathlib.Omega.{arith}
use package.e_commerce_agent.Base.Tests.{if◌then◌else◌, Bool-cases}

module _ {ℓ} {A : Type ℓ} where
  abbrev pub length : List A → ℕ
  length [] = 0
  length (x ∷ xs) = suc (length xs)

  pub length-append : (xs ys : List A) → length (xs ++ ys) ≡ length xs + length ys
  length-append [] ys = omega arith
  length-append (x ∷ xs) ys = omega (arith, length-append xs ys)

  unfoldable pub any : (A → Bool) → List A → Bool
  any p [] = false
  any p (x ∷ xs) = p x || any p xs

  unfoldable pub select : (A → Bool) → List A → Option A
  select p [] = none
  select p (x ∷ xs) = if p x then some x else select p xs

  unfoldable pub update : (A → Bool) → (A → A) → List A → List A
  update p f [] = []
  update p f (x ∷ xs) = (if p x then f x else x) ∷ update p f xs

  -- A row that is found meets the clause.
  pub select_sound : (p : A → Bool) (xs : List A) (r : A) → select p xs ≡ some r → p r ≡ true
  unfolding select
  select_sound p [] r h = ground arith
  select_sound p (x ∷ xs) r h = ground (arith, select_sound p xs r)

  -- A row that was found is still found after an insertion.
  pub select-append_some :
      (p : A → Bool) (xs ys : List A) (r : A) → select p xs ≡ some r → select p (xs ++ ys) ≡ some r
  unfolding select
  select-append_some p [] ys r h = ground arith
  select-append_some p (x ∷ xs) ys r h = ground (arith, select-append_some p xs ys r)

  -- Where no row met the clause, an inserted row that meets it is the one found.
  pub select-append_new :
      (p : A → Bool) (xs : List A) (r : A)
      → select p xs ≡ none
      → p r ≡ true
      → select p (xs ++ r ∷ []) ≡ some r
  unfolding select
  select-append_new p [] r h e = ground arith
  select-append_new p (x ∷ xs) r h e = ground (arith, select-append_new p xs r)

  pub any-select : (p : A → Bool) (xs : List A) → any p xs ≡ false → select p xs ≡ none
  unfolding any select
  any-select p [] h = refl
  any-select p (x ∷ xs) h = ground (arith, any-select p xs)

  abbrev pub updated : (A → Bool) → (A → A) → Option A → Option A
  updated c f none = none
  updated c f (some x) = some (if c x then f x else x)

  -- An update that keeps what a clause reads changes the found row at most.
  pub select-update :
      (p c : A → Bool) (f : A → A) (xs : List A)
      → ((x : A) → p (f x) ≡ p x)
      → select p (update c f xs) ≡ updated c f (select p xs)
  unfolding select update
  select-update p c f [] keep = refl
  select-update p c f (x ∷ xs) keep = ground (arith, keep x, select-update p c f xs keep)

  -- An inserted row that does not meet the clause changes no search.
  pub select-append_other :
      (p : A → Bool) (xs : List A) (r : A)
      → select p xs ≡ none
      → p r ≡ false
      → select p (xs ++ r ∷ []) ≡ none
  unfolding select
  select-append_other p [] r h e = ground arith
  select-append_other p (x ∷ xs) r h e = ground (arith, select-append_other p xs r)

  unfoldable pub filter : (A → Bool) → List A → List A
  filter p [] = []
  filter p (x ∷ xs) = let rest = filter p xs in if p x then x ∷ rest else rest

  unfoldable pub take : ℕ → List A → List A
  take zero xs = []
  take (suc n) [] = []
  take (suc n) (x ∷ xs) = x ∷ take n xs

  unfoldable pub drop : ℕ → List A → List A
  drop zero xs = xs
  drop (suc n) [] = []
  drop (suc n) (x ∷ xs) = drop n xs

  pub take-drop : (n : ℕ) (xs : List A) → xs ≡ take n xs ++ drop n xs
  unfolding take drop
  take-drop zero xs = refl
  take-drop (suc n) [] = refl
  take-drop (suc n) (x ∷ xs) = ap (λ l. x ∷ l) (take-drop n xs)

  pub filter-append :
      (p : A → Bool) (xs ys : List A) → filter p (xs ++ ys) ≡ filter p xs ++ filter p ys
  unfolding filter
  filter-append p [] ys = refl
  filter-append p (x ∷ xs) ys = elim (Bool-cases (p x)) [
    | inl kept ↦ rw (kept, filter-append p xs ys) refl
    | inr left ↦ rw (left, filter-append p xs ys) refl
  ]
