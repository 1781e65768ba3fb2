-- ===== src/Commerce/Evidence.antt =====
-- `_extract_evidence_ids` of commerce.py, and which ids it finds.
use e_commerce_agent.Base.{
  ◌≡◌, ◌↔◌, ◌⊎◌, inl, inr, refl, subst, String, false, Option, some, none, List, [], ◌∷◌, ◌++◌,
  ◌==◌, Any, Any-append, Any-append-left, Any-append-right, Bool-cases, if◌then◌else◌,
}
use e_commerce_agent.Base.Json.{
  Json, null, bool, num, float, str, arr, obj, Items, nil, cons, Fields, end, field, get_field,
}

-- `if isinstance(evidence_id, str) and evidence_id: …`
abbrev pub own_id : Option Json → List String
own_id (some (str e)) = if e == "" then [] else e ∷ []
own_id v = []

unfoldable mutual
  unfolding get_field

  pub extract_evidence_ids : Json → List String
  extract_evidence_ids (obj fs) = own_id (get_field "evidence_id" fs) ++ extract_fields fs
  extract_evidence_ids (arr vs) = extract_items vs
  extract_evidence_ids v = []

  pub extract_items : Items → List String
  extract_items nil = []
  extract_items (cons v vs) = extract_evidence_ids v ++ extract_items vs

  pub extract_fields : Fields → List String
  extract_fields end = []
  extract_fields (field k v fs) = extract_evidence_ids v ++ extract_fields fs

-- One value stands inside another, at any depth.
mutual
  pub data Inside (u : Json) : Json → Type 0 where
    itself : {v : Json} → u ≡ v → Inside u v
    in_list : {vs : Items} → InItems u vs → Inside u (arr vs)
    in_object : {fs : Fields} → InFields u fs → Inside u (obj fs)

  pub data InItems (u : Json) : Items → Type 0 where
    first_item : {v : Json} {vs : Items} → Inside u v → InItems u (cons v vs)
    later_item : {v : Json} {vs : Items} → InItems u vs → InItems u (cons v vs)

  pub data InFields (u : Json) : Fields → Type 0 where
    first_field : {k : String} {v : Json} {fs : Fields} → Inside u v → InFields u (field k v fs)
    later_field : {k : String} {v : Json} {fs : Fields} → InFields u fs → InFields u (field k v fs)

-- An object that carries the id.
pub record Carries (id : String) (fs : Fields) : Type 0 where
  pub is_id : get_field "evidence_id" fs ≡ some (str id)
  pub filled : (id == "") ≡ false

abbrev pub IsCited : String → List String → Type 0
IsCited id ids = Any (λ x. x ≡ id) ids

own_text-Carries :
    (id s : String) (fs : Fields)
    → get_field "evidence_id" fs ≡ some (str s)
    → IsCited id (own_id (some (str s)))
    → Carries id fs
own_text-Carries id s fs e h = elim (Bool-cases (s == "")) [
  | inl blank ↦ absurd (let none_ : ⊥ = rw blank at h in none_)
  | inr filled ↦
      let cited : (s ≡ id) ⊎ ⊥ = rw filled at h in
      elim cited [
        | inl same ↦ subst (λ x. Carries x fs) same (record { is_id = e; filled = filled })
        | inr none_ ↦ absurd none_
      ]
]

own_value-Carries :
    (id : String) (fs : Fields) (v : Option Json)
    → get_field "evidence_id" fs ≡ v
    → IsCited id (own_id v)
    → Carries id fs
own_value-Carries id fs none e h = absurd h
own_value-Carries id fs (some null) e h = absurd h
own_value-Carries id fs (some (bool b)) e h = absurd h
own_value-Carries id fs (some (num n)) e h = absurd h
own_value-Carries id fs (some (float t)) e h = absurd h
own_value-Carries id fs (some (arr vs)) e h = absurd h
own_value-Carries id fs (some (obj more)) e h = absurd h
own_value-Carries id fs (some (str s)) e h = own_text-Carries id s fs e h

Carries-own_id :
    (id : String) (fs : Fields) → Carries id fs → IsCited id (own_id (get_field "evidence_id" fs))
Carries-own_id id fs c = rw c.is_id (rw c.filled (inl refl))

mutual
  unfolding extract_evidence_ids

  found-Inside :
      (id : String) (v : Json)
      → IsCited id (extract_evidence_ids v)
      → (fs : Fields) × Inside (obj fs) v × Carries id fs
  found-Inside id null h = absurd h
  found-Inside id (bool b) h = absurd h
  found-Inside id (num n) h = absurd h
  found-Inside id (float t) h = absurd h
  found-Inside id (str s) h = absurd h
  found-Inside id (arr vs) h =
      let (fs, inside, c) = found-InItems id vs h in (fs, in_list inside, c)
  found-Inside id (obj fs) h =
      elim (Any-append (λ x. x ≡ id) (own_id (get_field "evidence_id" fs)) (extract_fields fs) h) [
        | inl own ↦ (fs, itself refl, own_value-Carries id fs (get_field "evidence_id" fs) refl own)
        | inr below ↦ let (gs, inside, c) = found-InFields id fs below in (gs, in_object inside, c)
      ]

  found-InItems :
      (id : String) (vs : Items)
      → IsCited id (extract_items vs)
      → (fs : Fields) × InItems (obj fs) vs × Carries id fs
  found-InItems id nil h = absurd h
  found-InItems id (cons v vs) h =
      elim (Any-append (λ x. x ≡ id) (extract_evidence_ids v) (extract_items vs) h) [
        | inl here ↦ let (fs, inside, c) = found-Inside id v here in (fs, first_item inside, c)
        | inr later ↦ let (fs, inside, c) = found-InItems id vs later in (fs, later_item inside, c)
      ]

  found-InFields :
      (id : String) (gs : Fields)
      → IsCited id (extract_fields gs)
      → (fs : Fields) × InFields (obj fs) gs × Carries id fs
  found-InFields id end h = absurd h
  found-InFields id (field k v gs) h =
      elim (Any-append (λ x. x ≡ id) (extract_evidence_ids v) (extract_fields gs) h) [
        | inl here ↦ let (fs, inside, c) = found-Inside id v here in (fs, first_field inside, c)
        | inr later ↦
            let (fs, inside, c) = found-InFields id gs later in (fs, later_field inside, c)
      ]

mutual
  unfolding extract_evidence_ids

  Inside-found :
      (id : String) (u : Json) {v : Json}
      → IsCited id (extract_evidence_ids u)
      → Inside u v
      → IsCited id (extract_evidence_ids v)
  Inside-found id u c (itself e) = subst (λ x. IsCited id (extract_evidence_ids x)) e c
  Inside-found id u c (in_list h) = InItems-found id u c h
  Inside-found id u c (in_object {fs = gs} h) =
      Any-append-right (λ x. x ≡ id) (own_id (get_field "evidence_id" gs)) (extract_fields gs)
        (InFields-found id u c h)

  InItems-found :
      (id : String) (u : Json) {vs : Items}
      → IsCited id (extract_evidence_ids u)
      → InItems u vs
      → IsCited id (extract_items vs)
  InItems-found id u c (first_item {v} {vs} h) =
      Any-append-left (λ x. x ≡ id) (extract_evidence_ids v) (extract_items vs)
        (Inside-found id u c h)
  InItems-found id u c (later_item {v} {vs} h) =
      Any-append-right (λ x. x ≡ id) (extract_evidence_ids v) (extract_items vs)
        (InItems-found id u c h)

  InFields-found :
      (id : String) (u : Json) {gs : Fields}
      → IsCited id (extract_evidence_ids u)
      → InFields u gs
      → IsCited id (extract_fields gs)
  InFields-found id u c (first_field {k = k} {v = v} {fs = gs} h) =
      Any-append-left (λ x. x ≡ id) (extract_evidence_ids v) (extract_fields gs)
        (Inside-found id u c h)
  InFields-found id u c (later_field {k = k} {v = v} {fs = gs} h) =
      Any-append-right (λ x. x ≡ id) (extract_evidence_ids v) (extract_fields gs)
        (InFields-found id u c h)

own_found : (id : String) (fs : Fields) → Carries id fs → IsCited id (extract_evidence_ids (obj fs))
unfolding extract_evidence_ids
own_found id fs c =
    Any-append-left (λ x. x ≡ id) (own_id (get_field "evidence_id" fs)) (extract_fields fs)
      (Carries-own_id id fs c)

-- The extraction finds an id exactly if some object in the value, at any depth, has it as its
-- `evidence_id`, as a text that is not empty.
pub extract_evidence_ids_iff :
    (id : String) (v : Json)
    → IsCited id (extract_evidence_ids v) ↔ ((fs : Fields) × Inside (obj fs) v × Carries id fs)
extract_evidence_ids_iff id v =
    (found-Inside id v, λ h. Inside-found id (obj h.0) (own_found id h.0 h.2) h.1)
