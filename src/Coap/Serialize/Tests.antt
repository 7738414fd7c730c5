-- ===== src/Coap/Serialize/Tests.antt =====
-- Texts that are split into options.
use knx_iot_stack.Prelude.{◌≡◌, refl, [], ◌∷◌}
use knx_iot_stack.Coap.Serialize.{parts_from, block_value}

-- A path that ends with the separator: its last part is left out, or is made of the terminator.
trailing :
    (parts_from b'/' (0, 0) [] (b'a' ∷ b'/' ∷ []) ≡ (b'a' ∷ []) ∷ [])
    × (parts_from b'/' (0, b'/') [] (b'a' ∷ b'/' ∷ []) ≡ (b'a' ∷ []) ∷ (0 ∷ []) ∷ [])
unfolding parts_from
trailing = (refl, refl)

block_values : (block_value 3 1 64 ≡ 0x3a) × (block_value 0 0 1024 ≡ 0x06)
unfolding block_value
block_values = (refl, refl)
