-- ===== src/Store/Wire.antt =====
-- The fields of a stream entry: what `append_event` of redis_store.py writes, and `_decode_event`.
use e_commerce_agent.Base.{
  ◌≡◌, refl, ℕ, String, Option, none, some, List, [], ◌∷◌, ◌==◌, if◌then◌else◌,
}
use e_commerce_agent.Base.Decimal.{decimal}
use e_commerce_agent.Base.Json.{Json, obj, Fields, field, end}
use e_commerce_agent.Domain.{StreamEvent}
use e_commerce_agent.Errors.{Error, ok, unexpected, value_error}
use e_commerce_agent.Exec.{Exec, pure, require, ◌>>=◌}

-- `json.dumps`, `json.loads`, which may fail, and `int` of a text, which may fail.
pub record Codec : Type 0 where
  pub dumps : Json → String
  pub loads : String → Option Json
  pub int : String → Option ℕ

abbrev Entry : Type 0
Entry = List (String × String)

unfoldable pub entry_field : String → Entry → Option String
entry_field key [] = none
entry_field key ((k, v) ∷ rest) = if k == key then some v else entry_field key rest

-- `if not isinstance(payload, dict): payload = {"value": payload}`
abbrev as_object : Json → Fields
as_object (obj fs) = fs
as_object v = field "value" v end

abbrev key_error : Error
key_error = unexpected "KeyError"

module _ (c : Codec) where
  unfoldable pub entry_of : StreamEvent → Entry
  unfolding decimal
  entry_of e =
      ("event_type", e.event_type)
      ∷ ("sequence_number", decimal e.sequence_number)
      ∷ ("payload", c.dumps (obj e.payload))
      ∷ []

  unfoldable pub decode_event : {S : Type 0} → String → Entry → Exec S StreamEvent
  unfolding entry_field
  decode_event event_id fields = do
    text ← require key_error (entry_field "payload" fields)
    payload ← require (value_error "JSONDecodeError") (c.loads text)
    event_type ← require key_error (entry_field "event_type" fields)
    digits ← require key_error (entry_field "sequence_number" fields)
    number ← require (value_error "invalid literal for int()") (c.int digits)
    pure (record {
      event_id = event_id;
      event_type = event_type;
      sequence_number = number;
      payload = as_object payload;
    })

  -- An event that is written to a stream is read back as it was, provided that `loads` undoes `dumps`
  -- on its payload and `int` undoes `str` on its number.
  pub decode_event-entry_of :
      {S : Type 0} (e : StreamEvent) (s : S)
      → c.loads (c.dumps (obj e.payload)) ≡ some (obj e.payload)
      → c.int (decimal e.sequence_number) ≡ some e.sequence_number
      → decode_event e.event_id (entry_of e) s ≡ (ok e, s)
  unfolding decode_event entry_of
  decode_event-entry_of e s loads int = rw (loads, int) refl
