-- ===== src/Base/Json.antt =====
-- JSON objects as the program builds and reads them: `dict[str, object]`.
use package.e_commerce_agent.Base.Tests.{if◌then◌else◌}
use package.e_commerce_agent.Base.Decimal.{decimal}
use Prim.Native.Nat.{ℕ}
use Prim.Native.String.{String}
use mathlib.Core.Bool.{Bool, true, false}
use mathlib.Core.Option.{Option, none, some}
use text.Mathlib.Text.{◌==◌}

mutual
  -- `float` holds the text of a number that is no natural number: such numbers are only passed on.
  pub data Json : Type 0 where
    null : Json
    bool : Bool → Json
    num : ℕ → Json
    float : String → Json
    str : String → Json
    arr : Items → Json
    obj : Fields → Json

  pub data Items : Type 0 where
    nil : Items
    cons : Json → Items → Items

  pub data Fields : Type 0 where
    end : Fields
    field : String → Json → Fields → Fields

-- `d.get(key)`
unfoldable pub get_field : String → Fields → Option Json
get_field k end = none
get_field k (field j v rest) = if j == k then some v else get_field k rest

-- `d[key] = value`: a key keeps its place, a new key comes last.
unfoldable pub set_field : String → Json → Fields → Fields
set_field k v end = field k v end
set_field k v (field j w rest) = if j == k then field j v rest else field j w (set_field k v rest)

-- `{**base, **more}`
unfoldable pub merge : Fields → Fields → Fields
unfolding set_field
merge base end = base
merge base (field k v more) = merge (set_field k v base) more

abbrev pub optional_text : Option String → Json
optional_text none = null
optional_text (some s) = str s

-- `str(value)`; `shown` is what Python prints for a list or a dict.
unfoldable pub text_of : (Json → String) → Json → String
text_of shown null = "None"
text_of shown (bool true) = "True"
text_of shown (bool false) = "False"
text_of shown (num n) = decimal n
text_of shown (float t) = t
text_of shown (str s) = s
text_of shown (arr xs) = shown (arr xs)
text_of shown (obj fs) = shown (obj fs)

-- `isinstance(d, dict) and d.get("type") == name`
abbrev pub is_text : String → Option Json → Bool
is_text name (some (str s)) = s == name
is_text name _ = false

unfoldable pub has_type : String → Option Fields → Bool
unfolding get_field
has_type name none = false
has_type name (some fs) = is_text name (get_field "type" fs)
