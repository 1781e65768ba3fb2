-- ===== src/Queue/Delays.antt =====
-- The retry delays of queue/rabbitmq.py.
use e_commerce_agent.Base.{ℕ, zero, suc, ◌≤◌, ◌≡◌, refl, Option, some, none, List, [], ◌∷◌, arith}
use e_commerce_agent.Queue.{retry_delays_ms, retry_index}

abbrev get_elem? : List ℕ → ℕ → Option ℕ
get_elem? [] i = none
get_elem? (x ∷ xs) zero = some x
get_elem? (x ∷ xs) (suc i) = get_elem? xs i

-- The delay of a retry that carries this attempt.
abbrev pub delay_of : ℕ → Option ℕ
delay_of attempt = get_elem? retry_delays_ms (retry_index attempt)

delay : ℕ → ℕ
delay zero = 1000
delay (suc zero) = 1000
delay (suc (suc zero)) = 5000
delay (suc (suc (suc a))) = 20000

delay_of_lem : (a : ℕ) → delay_of a ≡ some (delay a)
unfolding delay retry_index
delay_of_lem zero = refl
delay_of_lem (suc zero) = refl
delay_of_lem (suc (suc zero)) = refl
delay_of_lem (suc (suc (suc a))) = ground arith

delay_mono : (a b : ℕ) → a ≤ b → delay a ≤ delay b
unfolding delay
delay_mono zero b h = ground arith
delay_mono (suc zero) b h = ground arith
delay_mono (suc (suc zero)) b h = ground arith
delay_mono (suc (suc (suc a))) b h = ground arith

-- Every attempt has a retry queue, and a later attempt never waits for less time.
pub delay_of_mono :
    (a b : ℕ) → a ≤ b → (d : ℕ) × (e : ℕ) × (delay_of a ≡ some d) × (delay_of b ≡ some e) × (d ≤ e)
delay_of_mono a b h = (delay a, delay b, delay_of_lem a, delay_of_lem b, delay_mono a b h)
