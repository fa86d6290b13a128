-- ===== src/Tests/EventTableTests.antt =====
-- src/event/event_driver.cpp: a descriptor beyond the table, and its removal.
use libnbf.Prelude.{◌≡◌, refl, none, true, false, List, [], ◌∷◌, arith}
use libnbf.Prelude.Clib.{pos, negsuc}
use libnbf.EventTable.{new_driver, add}
use libnbf.EventTable.Bounds.{
  IsValid, Call, add_call, del_call, modr_call, modw_call, modrw_call, IsInside, AllFit, calls_from,
  calls_from-IsInside,
}

new-IsValid : IsValid new_driver
unfolding new_driver
new-IsValid = omega arith

abbrev twice : List Call
twice =
    add_call (pos 50000) 1 true true
    ∷ modr_call (pos 50000) true true
    ∷ add_call (pos 40960) 2 true true
    ∷ modw_call (pos 9) true true
    ∷ del_call (pos 50000)
    ∷ modrw_call (pos 60000) false true
    ∷ del_call (negsuc 0)
    ∷ []

twice-AllFit : AllFit twice
twice-AllFit = ground arith

-- A negative descriptor is written in front of the block.
add_negative : add (negsuc 0) 1 true true new_driver ≡ none
unfolding add
add_negative = refl

calls_from-IsInside_example : IsInside (calls_from twice new_driver)
calls_from-IsInside_example = calls_from-IsInside twice new_driver twice-AllFit new-IsValid
