-- ===== src/Orchestration/Payload/Safety.antt =====
-- What a frozen payload keeps, and what it cannot hold.
use real_time_surveillance_a.Base.{
  String, ◌≡◌, refl, ap, inl, inr, Bool, true, not, ◌&&◌, none, some, arith, Bool-cases,
  comparable_nat, comparable_text, comparable_pair, contains, Ensures, Ensures-bind,
}
use real_time_surveillance_a.Orchestration.Payload.{
  Value, Items, Fields, FrozenValue, FrozenItems, FrozenPayload, sensitive_event_keys, isfinite,
  holds_url, freeze_value, freeze_items, from_mapping, thaw_value, thaw_items, to_dict,
}

-- No text with a URL, no number that is not finite and no sensitive key, at any depth.
mutual
  pub is_safe : (String → String) → FrozenValue → Bool
  is_safe casefold (FrozenValue.str value) = not (holds_url value)
  is_safe casefold (FrozenValue.float bits) = isfinite bits
  is_safe casefold (FrozenValue.tuple items) = is_safe_items casefold items
  is_safe casefold (FrozenValue.payload fields) = is_safe_payload casefold fields
  is_safe casefold _ = true

  pub is_safe_items : (String → String) → FrozenItems → Bool
  is_safe_items casefold FrozenItems.nil = true
  is_safe_items casefold (FrozenItems.cons first rest) =
      is_safe casefold first && is_safe_items casefold rest

  pub is_safe_payload : (String → String) → FrozenPayload → Bool
  is_safe_payload casefold FrozenPayload.end = true
  is_safe_payload casefold (FrozenPayload.field key first rest) =
      not (contains (casefold key) sensitive_event_keys)
      && is_safe casefold first
      && is_safe_payload casefold rest

-- The same value with a list for each sequence, at any depth.
mutual
  pub listed : Value → Value
  listed (Value.list items) = Value.list (listed_items items)
  listed (Value.tuple items) = Value.list (listed_items items)
  listed (Value.sequence items) = Value.list (listed_items items)
  listed (Value.mapping fields) = Value.mapping (listed_fields fields)
  listed value = value

  pub listed_items : Items → Items
  listed_items Items.nil = Items.nil
  listed_items (Items.cons item items) = Items.cons (listed item) (listed_items items)

  pub listed_fields : Fields → Fields
  listed_fields Fields.end = Fields.end
  listed_fields (Fields.field key item fields) =
      Fields.field key (listed item) (listed_fields fields)

mutual
  unfolding freeze_value freeze_items from_mapping thaw_value thaw_items to_dict is_safe
      is_safe_items is_safe_payload listed listed_items listed_fields

  freeze_value_lem :
      (casefold : String → String) (value : Value)
      → Ensures
          (λ frozen. (thaw_value frozen ≡ listed value) × (is_safe casefold frozen ≡ true))
          (freeze_value casefold value)
  freeze_value_lem casefold Value.null = (refl, refl)
  freeze_value_lem casefold (Value.boolean b) = (refl, refl)
  freeze_value_lem casefold (Value.integer n) = (refl, refl)
  freeze_value_lem casefold (Value.float bits) = ground arith
  freeze_value_lem casefold (Value.str value) = ground arith
  freeze_value_lem casefold (Value.list items) =
      Ensures-bind _ _ (freeze_items casefold items) _ (freeze_items_lem casefold items)
        λ frozen h. (ap Value.list h.0, h.1)
  freeze_value_lem casefold (Value.tuple items) =
      Ensures-bind _ _ (freeze_items casefold items) _ (freeze_items_lem casefold items)
        λ frozen h. (ap Value.list h.0, h.1)
  freeze_value_lem casefold (Value.sequence items) =
      Ensures-bind _ _ (freeze_items casefold items) _ (freeze_items_lem casefold items)
        λ frozen h. (ap Value.list h.0, h.1)
  freeze_value_lem casefold (Value.mapping fields) =
      Ensures-bind _ _ (from_mapping casefold fields) _ (from_mapping_lem casefold fields)
        λ frozen h. (ap Value.mapping h.0, h.1)
  freeze_value_lem casefold (Value.unsupported name) = tt

  freeze_items_lem :
      (casefold : String → String) (items : Items)
      → Ensures
          (λ frozen.
            (thaw_items frozen ≡ listed_items items) × (is_safe_items casefold frozen ≡ true))
          (freeze_items casefold items)
  freeze_items_lem casefold Items.nil = (refl, refl)
  freeze_items_lem casefold (Items.cons item items) =
      Ensures-bind _ _ (freeze_value casefold item) _ (freeze_value_lem casefold item) λ first h.
        Ensures-bind _ _ (freeze_items casefold items) _ (freeze_items_lem casefold items)
          λ rest k. ground arith

  pub from_mapping_lem :
      (casefold : String → String) (fields : Fields)
      → Ensures
          (λ frozen.
            (to_dict frozen ≡ listed_fields fields) × (is_safe_payload casefold frozen ≡ true))
          (from_mapping casefold fields)
  from_mapping_lem casefold Fields.end = (refl, refl)
  from_mapping_lem casefold (Fields.field none item fields) = tt
  from_mapping_lem casefold (Fields.field (some key) item fields) =
      elim (Bool-cases (contains (casefold key) sensitive_event_keys)) [
        | inl e ↦ rw e tt
        | inr e ↦ rw e (
            Ensures-bind _ _ (freeze_value casefold item) _ (freeze_value_lem casefold item)
              λ first h.
                Ensures-bind _ _ (from_mapping casefold fields) _ (from_mapping_lem casefold fields)
                  λ rest k. ground arith)
      ]
