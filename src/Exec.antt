-- ===== src/Exec.antt =====
-- Methods that change a state and may raise: what was written before a raise stays written. A
-- database transaction is the exception, it gives the old state back.
use e_commerce_agent.Base.{◌≡◌, refl, ◌⊎◌, inl, inr, arith, Bool, true, false, Option, none, some}
use e_commerce_agent.Errors.{Error, Result, ok, err}

abbrev pub Exec {ℓ} : Type ℓ → Type ℓ → Type ℓ
Exec S A = S → Result A × S

module _ {ℓ} {S A : Type ℓ} where
  abbrev pub pure : A → Exec S A
  pure a s = (ok a, s)

  abbrev pub raise : Error → Exec S A
  raise e s = (err e, s)

  -- `if x is None: raise e`
  abbrev pub require : Error → Option A → Exec S A
  require e none s = (err e, s)
  require e (some a) s = (ok a, s)

  abbrev pub commit_or_rollback : S → Result A × S → Result A × S
  commit_or_rollback s (ok a, s') = (ok a, s')
  commit_or_rollback s (err e, s') = (err e, s)

  -- `BEGIN … commit`, with a rollback on any exception.
  abbrev pub transaction : Exec S A → Exec S A
  transaction m s = commit_or_rollback s (m s)

abbrev pub get_state {ℓ} : {S : Type ℓ} → Exec S S
get_state s = (ok s, s)

abbrev pub put_state : {S : Type 0} → S → Exec S Unit
put_state s' s = (ok tt, s')

-- `if not b: raise e`
abbrev pub ensure : {S : Type 0} → Bool → Error → Exec S Unit
ensure true e s = (ok tt, s)
ensure false e s = (err e, s)

module _ {ℓ} {S A B : Type ℓ} where
  abbrev pub resume : Result A × S → (A → Exec S B) → Result B × S
  resume (ok a, s) f = f a s
  resume (err e, s) f = (err e, s)

  infixl 5 ◌>>=◌
  abbrev pub ◌>>=◌ : Exec S A → (A → Exec S B) → Exec S B
  ◌>>=◌ m f s = resume (m s) f

infixl 5 ◌>>◌
abbrev pub ◌>>◌ : {S B : Type 0} → Exec S Unit → Exec S B → Exec S B
m >> k = m >>= λ _. k

module _ {ℓ} {S A : Type ℓ} where
  pub outcome_cases :
      (x : Result A × S)
      → ((a : A) × (s : S) × (x ≡ (ok a, s))) ⊎ ((e : Error) × (s : S) × (x ≡ (err e, s)))
  outcome_cases (ok a, s) = inl (a, s, refl)
  outcome_cases (err e, s) = inr (e, s, refl)

  -- A transaction that returned has run its body to the end.
  pub transaction-eq-ok :
      (m : Exec S A) (s s' : S) (a : A) → transaction m s ≡ (ok a, s') → m s ≡ (ok a, s')
  transaction-eq-ok m s s' a h = elim (outcome_cases (m s)) [
    | inl (b, t, e) ↦ cc
    | inr (x, t, e) ↦ absurd (ground arith)
  ]

module _ {ℓ} {S A B : Type ℓ} where
  -- A sequence that returned has run both parts to the end.
  pub >>=-eq-ok :
      (m : Exec S A) (f : A → Exec S B) (s s' : S) (b : B)
      → (m >>= f) s ≡ (ok b, s')
      → (a : A) × (t : S) × (m s ≡ (ok a, t)) × (f a t ≡ (ok b, s'))
  >>=-eq-ok m f s s' b h = elim (outcome_cases (m s)) [
    | inl (a, t, e) ↦ (a, t, e, rw e at h)
    | inr (x, t, e) ↦ absurd (ground arith)
  ]

module _ {ℓ} {S A : Type ℓ} where
  -- A transaction that raised has changed nothing.
  pub transaction-eq-err :
      (m : Exec S A) (s s' : S) (e : Error) → transaction m s ≡ (err e, s') → s' ≡ s
  transaction-eq-err m s s' e h = elim (outcome_cases (m s)) [
    | inl (b, t, q) ↦ absurd (ground arith)
    | inr (x, t, q) ↦ ground arith
  ]

module _ {ℓ} {S A : Type ℓ} where
  abbrev pub handle : (Error → Exec S A) → Result A × S → Result A × S
  handle handler (ok a, s) = (ok a, s)
  handle handler (err e, s) = handler e s

  -- `try: … except Exception as e: …`
  abbrev pub catch : Exec S A → (Error → Exec S A) → Exec S A
  catch m handler s = handle handler (m s)

module _ {ℓ} {S A B : Type ℓ} where
  abbrev pub handle_else : (Error → Exec S B) → (A → Exec S B) → Result A × S → Result B × S
  handle_else handler rest (ok a, s) = rest a s
  handle_else handler rest (err e, s) = handler e s

  -- `try: a = … except Exception as e: …; return`, and what stands below.
  abbrev pub try_else : Exec S A → (Error → Exec S B) → (A → Exec S B) → Exec S B
  try_else m handler rest s = handle_else handler rest (m s)

-- `try: … finally: …`, where the last part does not raise.
abbrev pub finally_do {ℓ} : {S A : Type ℓ} → Exec S A → (S → S) → Exec S A
finally_do m close s = let (r, s') = m s in (r, close s')
