-- ===== src/Orchestration/Payload.antt =====
-- Event payloads of apps/desktop-backend/app/orchestration/models.py: `_freeze_value`,
-- `_thaw_value` and `FrozenPayload`. A value of Python is one of `Value`; a float is its 64 bits,
-- and `str.casefold` is a parameter.
pub mod Safety
mod Tests
use Prim.Native.Nat.{◌^◌}
use text.Mathlib.Text.{find?}
use real_time_surveillance_a.Base.{
  ℕ, zero, suc, ◌+◌, ◌-◌, ◌*◌, ◌/◌, ◌%◌, ◌≤◌, ◌<◌, min, max, String, ◌≡◌, refl, sym, ap, ◌∙◌, subst,
  ◌≢◌, ◌↔◌, ◌⊎◌, inl, inr, Bool, true, false, not, ◌&&◌, ◌||◌, Option, none, some, List, [], ◌∷◌,
  ◌++◌, map, arith, ltb, leb, if◌then◌else◌, Bool-cases, Option-cases, is_some, Comparable, ◌==◌,
  ==_refl, comparable_nat, comparable_text, comparable_pair, length, length-append, last?,
  last?-snoc, keep_last, length-keep_last, keep_last-short, keep_last-snoc, keep_last-append, All,
  All-append, All-keep_last, All-map, keep_if, any_of, count_if, contains, Result, ok, err, ◌>>=◌,
  ◌>>◌, raise_if, is_ok, Result-cases, Ensures, Ensures-bind, ℤ, pos, negsuc, is_negative,
}
use real_time_surveillance_a.Orchestration.Errors.{FailureCategory, callback, OrchestrationError}

-- `sequence` is a sequence of another type than list, tuple, `str` and bytes, `mapping` any mapping,
-- and `unsupported` an object of any other type.
mutual
  pub data Value : Type 0 where
    null : Value
    boolean : Bool → Value
    integer : ℤ → Value
    float : ℕ → Value
    str : String → Value
    list tuple sequence : Items → Value
    mapping : Fields → Value
    unsupported : String → Value

  pub data Items : Type 0 where
    nil : Items
    cons : Value → Items → Items

  -- A key is a string, or `none` for a key of another type.
  pub data Fields : Type 0 where
    end : Fields
    field : Option String → Value → Fields → Fields

mutual
  pub data FrozenValue : Type 0 where
    null : FrozenValue
    boolean : Bool → FrozenValue
    integer : ℤ → FrozenValue
    float : ℕ → FrozenValue
    str : String → FrozenValue
    tuple : FrozenItems → FrozenValue
    payload : FrozenPayload → FrozenValue

  pub data FrozenItems : Type 0 where
    nil : FrozenItems
    cons : FrozenValue → FrozenItems → FrozenItems

  pub data FrozenPayload : Type 0 where
    end : FrozenPayload
    field : String → FrozenValue → FrozenPayload → FrozenPayload

abbrev pub sensitive_event_keys : List String
sensitive_event_keys =
    "source" ∷ "stream_url" ∷ "rtsp_url" ∷ "camera_url" ∷ "password" ∷ "token" ∷ "secret"
    ∷ "credential" ∷ "api_key" ∷ "authorization" ∷ "aadhaar" ∷ []

-- The exponent of an infinity or a NaN is all ones.
pub isfinite : ℕ → Bool
isfinite bits = not (((bits / 2 ^ 52) % 2048) == 2047)

-- `"://" in value`
pub holds_url : String → Bool
holds_url value = is_some (find? value "://")

abbrev callback_error : String → OrchestrationError
callback_error message = record { category = callback; camera_id = none; public_message = message }

unfoldable mutual
  pub freeze_value : (String → String) → Value → Result OrchestrationError FrozenValue
  freeze_value casefold Value.null = ok FrozenValue.null
  freeze_value casefold (Value.boolean b) = ok (FrozenValue.boolean b)
  freeze_value casefold (Value.str value) =
      if holds_url value
      then err (callback_error "event payload must not contain connection URLs")
      else ok (FrozenValue.str value)
  freeze_value casefold (Value.integer n) = ok (FrozenValue.integer n)
  freeze_value casefold (Value.float bits) =
      if isfinite bits
      then ok (FrozenValue.float bits)
      else err (callback_error "event payload contains a non-finite number")
  freeze_value casefold (Value.mapping fields) = do
    frozen ← from_mapping casefold fields
    ok (FrozenValue.payload frozen)
  freeze_value casefold (Value.list items) = do
    frozen ← freeze_items casefold items
    ok (FrozenValue.tuple frozen)
  freeze_value casefold (Value.tuple items) = do
    frozen ← freeze_items casefold items
    ok (FrozenValue.tuple frozen)
  freeze_value casefold (Value.sequence items) = do
    frozen ← freeze_items casefold items
    ok (FrozenValue.tuple frozen)
  freeze_value casefold (Value.unsupported name) =
      err (callback_error "event payload contains unsupported type")

  pub freeze_items : (String → String) → Items → Result OrchestrationError FrozenItems
  freeze_items casefold Items.nil = ok FrozenItems.nil
  freeze_items casefold (Items.cons item items) = do
    first ← freeze_value casefold item
    rest ← freeze_items casefold items
    ok (FrozenItems.cons first rest)

  pub from_mapping : (String → String) → Fields → Result OrchestrationError FrozenPayload
  from_mapping casefold Fields.end = ok FrozenPayload.end
  from_mapping casefold (Fields.field none item fields) =
      err (callback_error "event payload keys must be strings")
  from_mapping casefold (Fields.field (some key) item fields) =
      if contains (casefold key) sensitive_event_keys
      then err (callback_error "event payload contains a prohibited sensitive field")
      else do
        first ← freeze_value casefold item
        rest ← from_mapping casefold fields
        ok (FrozenPayload.field key first rest)

mutual
  pub thaw_value : FrozenValue → Value
  thaw_value FrozenValue.null = Value.null
  thaw_value (FrozenValue.boolean b) = Value.boolean b
  thaw_value (FrozenValue.integer n) = Value.integer n
  thaw_value (FrozenValue.float bits) = Value.float bits
  thaw_value (FrozenValue.str value) = Value.str value
  thaw_value (FrozenValue.tuple items) = Value.list (thaw_items items)
  thaw_value (FrozenValue.payload fields) = Value.mapping (to_dict fields)

  pub thaw_items : FrozenItems → Items
  thaw_items FrozenItems.nil = Items.nil
  thaw_items (FrozenItems.cons first rest) = Items.cons (thaw_value first) (thaw_items rest)

  pub to_dict : FrozenPayload → Fields
  to_dict FrozenPayload.end = Fields.end
  to_dict (FrozenPayload.field key first rest) =
      Fields.field (some key) (thaw_value first) (to_dict rest)
