-- ===== src/Model/Slot.antt =====
-- The blue and green slots of a service: `Slot` of internal/shared/model/entities.go. The type there is
-- `int`, and 0, which a service without a live slot has, is `unset` here.
use edge_pilot.Base.{Bool, true, false, ◌≡◌, arith}

pub data Slot : Type 0 where
  unset blue green : Slot

unfoldable pub slot_eq : Slot → Slot → Bool
slot_eq unset unset = true
slot_eq blue blue = true
slot_eq green green = true
slot_eq _ _ = false

pub slot_eq→eq : (a b : Slot) → slot_eq a b ≡ true → a ≡ b
unfolding slot_eq
slot_eq→eq a b h = ground arith
