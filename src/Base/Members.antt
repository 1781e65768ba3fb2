-- ===== src/Base/Members.antt =====
-- What holds of every member of a list, or of one.
use mathlib.Core.Path.{◌≡◌, refl}
use mathlib.Core.Logic.{◌⊎◌, inl, inr}
use mathlib.Core.Bool.{Bool, true}
use mathlib.Core.List.{List, [], ◌∷◌, ◌++◌}
use native.Mathlib.Omega.{arith}
use package.e_commerce_agent.Base.Tests.{Bool-cases}
use package.e_commerce_agent.Base.Rows.{any}

module _ {A : Type 0} where
  abbrev pub All : (A → Type 0) → List A → Type 0
  All P [] = Unit
  All P (a ∷ l) = P a × All P l

  abbrev pub Any : (A → Type 0) → List A → Type 0
  Any P [] = ⊥
  Any P (a ∷ l) = P a ⊎ Any P l

  pub append-nil→left : (xs ys : List A) → xs ++ ys ≡ [] → (xs ≡ []) × (ys ≡ [])
  append-nil→left [] ys h = (refl, h)
  append-nil→left (x ∷ xs) ys h = absurd (ground arith)

  pub any→Any :
      (test : A → Bool) (P : A → Type 0)
      → ((a : A) → test a ≡ true → P a)
      → (l : List A) → any test l ≡ true
      → Any P l
  unfolding any
  any→Any test P sound [] h = absurd (ground arith)
  any→Any test P sound (a ∷ l) h = elim (Bool-cases (test a)) [
    | inl here ↦ inl (sound a here)
    | inr not_here ↦ inr (any→Any test P sound l (ground arith))
  ]

  pub Any→any :
      (test : A → Bool) (P : A → Type 0)
      → ((a : A) → P a → test a ≡ true)
      → (l : List A) → Any P l
      → any test l ≡ true
  unfolding any
  Any→any test P complete [] h = absurd h
  Any→any test P complete (a ∷ l) (inl here) = rw (complete a here) refl
  Any→any test P complete (a ∷ l) (inr later) = ground (arith, Any→any test P complete l later)

  pub Any-append-left : (P : A → Type 0) (xs ys : List A) → Any P xs → Any P (xs ++ ys)
  Any-append-left P [] ys h = absurd h
  Any-append-left P (x ∷ xs) ys (inl here) = inl here
  Any-append-left P (x ∷ xs) ys (inr later) = inr (Any-append-left P xs ys later)

  pub Any-append-right : (P : A → Type 0) (xs ys : List A) → Any P ys → Any P (xs ++ ys)
  Any-append-right P [] ys h = h
  Any-append-right P (x ∷ xs) ys h = inr (Any-append-right P xs ys h)

  pub Any-append : (P : A → Type 0) (xs ys : List A) → Any P (xs ++ ys) → Any P xs ⊎ Any P ys
  Any-append P [] ys h = inr h
  Any-append P (x ∷ xs) ys (inl here) = inl (inl here)
  Any-append P (x ∷ xs) ys (inr later) = elim (Any-append P xs ys later) [
    | inl left ↦ inl (inr left)
    | inr right ↦ inr right
  ]
