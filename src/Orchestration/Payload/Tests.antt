-- ===== src/Orchestration/Payload/Tests.antt =====
-- Payloads with lower-case keys, where `casefold` is the identity.
use real_time_surveillance_a.Base.{
  ◌≡◌, refl, false, some, comparable_nat, comparable_text, comparable_pair, contains, is_ok, pos,
}
use real_time_surveillance_a.Orchestration.Payload.{
  Value, Items, Fields, FrozenValue, FrozenItems, FrozenPayload, isfinite, holds_url, freeze_value,
  from_mapping, to_dict,
}

abbrev count_payload : Fields
count_payload =
    Fields.field (some "count_in") (Value.integer (pos 3)) (
      Fields.field (some "zones") (Value.tuple (Items.cons (Value.str "gate") Items.nil))
        Fields.end)

abbrev frozen_payload : FrozenPayload
frozen_payload = FrozenPayload.field "count_in" (FrozenValue.integer (pos 3)) (
    FrozenPayload.field "zones"
      (FrozenValue.tuple (FrozenItems.cons (FrozenValue.str "gate") FrozenItems.nil))
      FrozenPayload.end)

-- The tuple comes back as a list.
thaws_to_list :
    to_dict frozen_payload
    ≡ Fields.field (some "count_in") (Value.integer (pos 3)) (
        Fields.field
          (some "zones")
          (Value.list (Items.cons (Value.str "gate") Items.nil))
          Fields.end)
unfolding to_dict
thaws_to_list = refl

refuses_password :
    is_ok (from_mapping (λ key. key) (Fields.field (some "password") Value.null Fields.end)) ≡ false
unfolding from_mapping contains
refuses_password = refl

refuses_url : is_ok (freeze_value (λ key. key) (Value.str "rtsp://10.0.0.9/stream")) ≡ false
unfolding freeze_value holds_url
refuses_url = refl

infinity_is_not_finite : isfinite 0x7ff0000000000000 ≡ false
unfolding isfinite
infinity_is_not_finite = refl
