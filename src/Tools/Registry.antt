-- ===== src/Tools/Registry.antt =====
-- `ToolRegistry` of tools/base.py: the tools by their names.
use e_commerce_agent.Base.{
  suc, ◌+◌, ◌≤◌, ◌≡◌, ◌↔◌, refl, sym, ap, subst, ◌∙◌, String, Bool, true, false, Option, some, List,
  [], ◌∷◌, ◌++◌, append_assoc, append-nil, ◌==◌, eqb, eq_refl, any, any-select, select,
  select-append_some, select-append_new, length, length-append, All, arith, Bool-cases, inl, inr,
  if◌then◌else◌,
}
use e_commerce_agent.Errors.{Result, ok, err, value_error}

ok-injective : {A : Type 0} {x y : A} → ok x ≡ ok y → x ≡ y
ok-injective h = cc

-- A tool, by the name of its definition.
module _ {T : Type 0} (name_of : T → String) where
  abbrev pub named : String → T → Bool
  named name t = name_of t == name

  -- `d[tool.definition.name] = tool`
  unfoldable pub put_tool : T → List T → List T
  put_tool t [] = t ∷ []
  put_tool t (x ∷ xs) = if named (name_of t) x then t ∷ xs else x ∷ put_tool t xs

  -- `{tool.definition.name: tool for tool in tools}`, after those before.
  unfoldable pub collect : List T → List T → List T
  unfolding put_tool
  collect before [] = before
  collect before (t ∷ ts) = collect (put_tool t before) ts

  -- `__init__`
  unfoldable pub registry : List T → Result (List T)
  unfolding collect
  registry tools =
      let by_name = collect [] tools in
      if eqb (length by_name) (length tools)
      then ok by_name
      else err (value_error "Tool names must be unique")

  -- `get`
  unfoldable pub get : String → List T → Option T
  unfolding select
  get name tools = select (named name) tools

  put_tool-new :
      (t : T) (xs : List T) → any (named (name_of t)) xs ≡ false → put_tool t xs ≡ xs ++ t ∷ []
  unfolding put_tool any
  put_tool-new t [] h = refl
  put_tool-new t (x ∷ xs) h = elim (Bool-cases (named (name_of t) x)) [
    | inl same ↦ absurd (ground arith)
    | inr other ↦ rw other (ap (λ l. x ∷ l) (put_tool-new t xs (rw other at h)))
  ]

  put_tool-known :
      (t : T) (xs : List T) → any (named (name_of t)) xs ≡ true → length (put_tool t xs) ≡ length xs
  unfolding put_tool any
  put_tool-known t [] h = absurd (ground arith)
  put_tool-known t (x ∷ xs) h = elim (Bool-cases (named (name_of t) x)) [
    | inl same ↦ rw same (omega arith)
    | inr other ↦ rw other (omega (arith, put_tool-known t xs (rw other at h)))
  ]

  put_tool-length : (t : T) (xs : List T) → length (put_tool t xs) ≤ suc (length xs)
  unfolding put_tool
  put_tool-length t [] = omega arith
  put_tool-length t (x ∷ xs) = ground (arith, put_tool-length t xs)

  collect-length : (before ts : List T) → length (collect before ts) ≤ length before + length ts
  unfolding collect
  collect-length before [] = omega arith
  collect-length before (t ∷ ts) =
      omega (arith, collect-length (put_tool t before) ts, put_tool-length t before)

  -- Each tool has another name than all before it.
  abbrev pub IsFresh : List T → List T → Type 0
  IsFresh before [] = Unit
  IsFresh before (t ∷ ts) = (any (named (name_of t)) before ≡ false) × IsFresh (before ++ t ∷ []) ts

  collect-IsFresh :
      (before ts : List T)
      → length (collect before ts) ≡ length before + length ts
      → IsFresh before ts
  unfolding collect
  collect-IsFresh before [] h = tt
  collect-IsFresh before (t ∷ ts) h = elim (Bool-cases (any (named (name_of t)) before)) [
    | inl known ↦
        absurd
          (omega (arith, collect-length (put_tool t before) ts, put_tool-known t before known, h))
    | inr new ↦ (
      new,
      collect-IsFresh (before ++ t ∷ []) ts (
          subst (λ l. length (collect l ts) ≡ length (before ++ t ∷ []) + length ts)
            (put_tool-new t before new) (omega (arith, h, length-append before (t ∷ [])))),
    )
  ]

  IsFresh-collect : (before ts : List T) → IsFresh before ts → collect before ts ≡ before ++ ts
  unfolding collect
  IsFresh-collect before [] h = sym (append-nil before)
  IsFresh-collect before (t ∷ ts) h =
      ap (λ l. collect l ts) (put_tool-new t before h.0)
      ∙ IsFresh-collect (before ++ t ∷ []) ts h.1
      ∙ append_assoc before (t ∷ []) ts

  IsFresh-get :
      (before ts : List T)
      → IsFresh before ts
      → All (λ t. get (name_of t) (before ++ ts) ≡ some t) ts
  unfolding get
  IsFresh-get before [] h = tt
  IsFresh-get before (t ∷ ts) h = (
    subst (λ l. select (named (name_of t)) l ≡ some t) (append_assoc before (t ∷ []) ts)
        (select-append_some (named (name_of t)) (before ++ t ∷ []) ts t (
          select-append_new (named (name_of t)) before t (any-select (named (name_of t)) before h.0)
            (eq_refl (name_of t)))),
    subst (λ l. All (λ u. select (named (name_of u)) l ≡ some u) ts)
        (append_assoc before (t ∷ []) ts) (IsFresh-get (before ++ t ∷ []) ts h.1),
  )

  made-IsFresh :
      (tools by_name : List T) → registry tools ≡ ok by_name → (by_name ≡ tools) × IsFresh [] tools
  unfolding registry
  made-IsFresh tools by_name h =
      elim (Bool-cases (eqb (length (collect [] tools)) (length tools))) [
        | inr shorter ↦ absurd (ground arith)
        | inl whole ↦
            let fresh = collect-IsFresh [] tools (ground arith) in
            let made : ok (collect [] tools) ≡ ok by_name = rw whole at h in
            (sym (ok-injective made) ∙ IsFresh-collect [] tools fresh, fresh)
      ]

  IsFresh-made : (tools : List T) → IsFresh [] tools → registry tools ≡ ok tools
  unfolding registry
  IsFresh-made tools fresh = rw (IsFresh-collect [] tools fresh) (ground arith)

  -- A registry is made exactly if the tools have distinct names; it then has the tools in their order,
  -- and each is found by its name.
  pub registry_iff :
      (tools by_name : List T)
      → ((registry tools ≡ ok by_name) ↔ ((by_name ≡ tools) × IsFresh [] tools))
        × (IsFresh [] tools → All (λ t. get (name_of t) tools ≡ some t) tools)
  registry_iff tools by_name = (
    (
      made-IsFresh tools by_name,
      λ h. subst (λ l. registry tools ≡ ok l) (sym h.0) (IsFresh-made tools h.1),
    ),
    IsFresh-get [] tools,
  )
