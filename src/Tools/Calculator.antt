-- ===== src/Tools/Calculator.antt =====
-- `CalculatorTool` of tools/builtin.py. Python's floats and its parser are arguments.
use e_commerce_agent.Base.{
  ◌≡◌, ◌↔◌, ◌⊎◌, ◌^◌, refl, sym, subst, ◌∙◌, ℕ, String, Bool, true, false, not, ◌&&◌, ◌||◌, Option,
  none, some, ◌==◌, leb, if◌then◌else◌, Bool-cases, inl, inr, arith,
}
use e_commerce_agent.Base.Json.{Json, str, Fields, end, field, get_field, text_of}
use e_commerce_agent.Base.Text.{text_length}
use e_commerce_agent.Errors.{Error, Result, ok, err, value_error}

pub data Operator : Type 0 where
  add sub mult div mod_ pow : Operator

pub data Sign : Type 0 where
  plus minus : Sign

-- Python's floats: the operators of `operator`, those on two numbers with what they may raise; `abs`,
-- `<`, the float nearest to a natural number, and a number as JSON has it.
pub record Floats : Type 1 where
  pub Float : Type 0
  pub apply : Operator → Float → Float → Result Float
  pub apply_sign : Sign → Float → Float
  pub absolute : Float → Float
  pub less : Float → Float → Bool
  pub of_nat : ℕ → Float
  pub shown : Float → Json

module _ (f : Floats) where
  open f use {Float, apply, apply_sign, absolute, less, of_nat}

  -- `ast.expr`, by what the calculator tells apart; `other` is any other syntax.
  pub data Expr : Type 0 where
    constant : Float → Expr
    binary : Operator → Expr → Expr → Expr
    unary : Sign → Expr → Expr
    other : Expr

  abbrev pub is_pow : Operator → Bool
  is_pow pow = true
  is_pow op = false

  -- `1e100`
  abbrev pub bound : Float
  bound = of_nat (10 ^ 100)

  -- `-1e100 < result < 1e100`
  abbrev in_range : Float → Bool
  in_range x = less (apply_sign minus bound) x && less x bound

  -- `abs(x) > n`
  abbrev exceeds : ℕ → Float → Bool
  exceeds n x = less (of_nat n) (absolute x)

  abbrev checked : Result Float → Result Float
  checked (err e) = err e
  checked (ok r) = if in_range r then ok r else err (value_error "计算结果超出允许范围")

  abbrev applied : Operator → Result Float → Result Float → Result Float
  applied op (err e) right = err e
  applied op (ok l) (err e) = err e
  applied op (ok l) (ok r) =
      if is_pow op && (exceeds 1000000 l || exceeds 12 r)
      then err (value_error "幂运算超出允许范围")
      else checked (apply op l r)

  abbrev signed : Sign → Result Float → Result Float
  signed s (err e) = err e
  signed s (ok r) = ok (apply_sign s r)

  -- `_evaluate`
  unfoldable pub evaluate : Expr → Result Float
  evaluate (constant x) = ok x
  evaluate (binary op l r) =
      let left = evaluate l in let right = evaluate r in applied op left right
  evaluate (unary s e) = let value = evaluate e in signed s value
  evaluate other = err (value_error "表达式包含不支持的语法")

  -- The operator gives the number, which lies strictly between -1e100 and 1e100.
  pub record IsResult (op : Operator) (x y z : Float) : Type 0 where
    pub given : apply op x y ≡ ok z
    pub above : less (apply_sign minus (of_nat (10 ^ 100))) z ≡ true
    pub below : less z (of_nat (10 ^ 100)) ≡ true

  -- The value of an expression whose every step is allowed: each result of two numbers lies in the
  -- range, and each power has a base of at most a million and an exponent of at most twelve.
  pub data Value : Expr → Float → Type 0 where
    of_constant : (x : Float) → Value (constant x) x
    of_sign : {s : Sign} {e : Expr} {x : Float} → Value e x → Value (unary s e) (apply_sign s x)
    of_operator :
        {op : Operator} {l r : Expr} {x y z : Float}
        → Value l x
        → Value r y
        → ¬ (op ≡ pow)
        → IsResult op x y z
        → Value (binary op l r) z
    of_power :
        {l r : Expr} {x y z : Float}
        → Value l x
        → Value r y
        → less (of_nat 1000000) (absolute x) ≡ false
        → less (of_nat 12) (absolute y) ≡ false
        → IsResult pow x y z
        → Value (binary pow l r) z

  ok-injective : {x y : Float} → ok x ≡ ok y → x ≡ y
  ok-injective h = cc

  Result-cases : (r : Result Float) → ((x : Float) × (r ≡ ok x)) ⊎ ((e : Error) × (r ≡ err e))
  Result-cases (ok x) = inl (x, refl)
  Result-cases (err e) = inr (e, refl)

  apply-IsResult :
      (op : Operator) (x y z : Float) → checked (apply op x y) ≡ ok z → IsResult op x y z
  apply-IsResult op x y z h = elim (Result-cases (apply op x y)) [
    | inr (e, raised) ↦ absurd (ground arith)
    | inl (v, given) ↦ elim (Bool-cases (in_range v)) [
      | inr out ↦ absurd (ground arith)
      | inl within ↦
          let same : v ≡ z = ok-injective (sym (rw given (rw within refl)) ∙ h) in
          subst (IsResult op x y) same
            (record { given = given; above = ground arith; below = ground arith })
    ]
  ]

  IsResult-checked :
      (op : Operator) (x y z : Float) → IsResult op x y z → checked (apply op x y) ≡ ok z
  IsResult-checked op x y z r = rw (r.given, r.above, r.below) refl

  applied-plain :
      (op : Operator) (x y : Float)
      → ¬ (op ≡ pow)
      → applied op (ok x) (ok y) ≡ checked (apply op x y)
  applied-plain add x y h = refl
  applied-plain sub x y h = refl
  applied-plain mult x y h = refl
  applied-plain div x y h = refl
  applied-plain mod_ x y h = refl
  applied-plain pow x y h = absurd (h refl)

  is_pow? : (op : Operator) → (op ≡ pow) ⊎ (¬ (op ≡ pow))
  is_pow? add = inr (λ e. cc)
  is_pow? sub = inr (λ e. cc)
  is_pow? mult = inr (λ e. cc)
  is_pow? div = inr (λ e. cc)
  is_pow? mod_ = inr (λ e. cc)
  is_pow? pow = inl refl

  power-Value :
      (l r : Expr) (x y z : Float)
      → Value l x
      → Value r y
      → applied pow (ok x) (ok y) ≡ ok z
      → Value (binary pow l r) z
  power-Value l r x y z vl vr h = elim (Bool-cases (exceeds 1000000 x || exceeds 12 y)) [
    | inl beyond ↦ absurd (ground arith)
    | inr allowed ↦
        of_power vl vr (ground arith) (ground arith) (apply-IsResult pow x y z (rw allowed at h))
  ]

  applied-Value :
      (op : Operator) (l r : Expr) (x y z : Float)
      → Value l x
      → Value r y
      → applied op (ok x) (ok y) ≡ ok z
      → Value (binary op l r) z
  applied-Value op l r x y z vl vr h = elim (is_pow? op) [
    | inl e ↦
        subst (λ o. Value (binary o l r) z) (sym e)
          (power-Value l r x y z vl vr (subst (λ o. applied o (ok x) (ok y) ≡ ok z) e h))
    | inr plain ↦
        of_operator vl vr plain (apply-IsResult op x y z (sym (applied-plain op x y plain) ∙ h))
  ]

  evaluate-Value : (e : Expr) (z : Float) → evaluate e ≡ ok z → Value e z
  unfolding evaluate
  evaluate-Value (constant x) z h = subst (Value (constant x)) (ok-injective h) (of_constant x)
  evaluate-Value (unary s e) z h = elim (Result-cases (evaluate e)) [
    | inr (x, raised) ↦ absurd (ground arith)
    | inl (x, given) ↦
        subst (Value (unary s e)) (ok-injective (rw given at h))
          (of_sign (evaluate-Value e x given))
  ]
  evaluate-Value (binary op l r) z h = elim (Result-cases (evaluate l)) [
    | inr (e, raised) ↦ absurd (ground arith)
    | inl (x, left) ↦ elim (Result-cases (evaluate r)) [
      | inr (e, raised) ↦ absurd (ground arith)
      | inl (y, right) ↦
          applied-Value op l r x y z (evaluate-Value l x left) (evaluate-Value r y right)
            (rw (left, right) at h)
    ]
  ]
  evaluate-Value other z h = absurd (ground arith)

  Value-evaluate : {e : Expr} {z : Float} → Value e z → evaluate e ≡ ok z
  unfolding evaluate
  Value-evaluate (of_constant x) = refl
  Value-evaluate (of_sign v) = rw (Value-evaluate v) refl
  Value-evaluate (of_operator {op} {l} {r} {x} {y} {z} vl vr plain result) =
      rw (Value-evaluate vl, Value-evaluate vr)
        (applied-plain op x y plain ∙ IsResult-checked op x y z result)
  Value-evaluate (of_power {l} {r} {x} {y} {z} vl vr base exponent result) =
      rw (Value-evaluate vl, Value-evaluate vr)
        (rw (base, exponent) (IsResult-checked pow x y z result))

  -- The evaluator gives a value exactly if every step of the expression is allowed: only the supported
  -- syntax, each result of two numbers strictly between -1e100 and 1e100, and each power with a base of
  -- at most a million and an exponent of at most twelve in absolute value.
  pub evaluate_iff : (e : Expr) (z : Float) → (evaluate e ≡ ok z) ↔ Value e z
  evaluate_iff e z = (evaluate-Value e z, Value-evaluate)

  module _ (parse : String → Result Expr) (strip : String → String) (repr : Json → String) where
    abbrev expression_of : Option Json → String
    expression_of none = strip ""
    expression_of (some v) = strip (text_of repr v)

    abbrev reported : String → Result Float → Result Fields
    reported expression (err e) = err e
    reported expression (ok x) =
        ok (field "expression" (str expression) (field "result" (f.shown x) end))

    abbrev computed : String → Result Expr → Result Fields
    computed expression (err e) = err e
    computed expression (ok tree) = reported expression (evaluate tree)

    -- `execute`
    unfoldable pub execute : Fields → Result Fields
    unfolding evaluate get_field text_of
    execute arguments =
        let expression = expression_of (get_field "expression" arguments) in
        if expression == "" || not (leb (text_length expression) 256)
        then err (value_error "expression 不能为空且长度不能超过 256")
        else computed expression (parse expression)
