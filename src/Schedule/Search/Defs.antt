-- ===== src/Schedule/Search/Defs.antt =====
-- The array methods that packages/room-state/src/state.ts calls with a slot and its place:
-- `find`, `some`, `filter`, and the loops that go backwards.
use conference_operator.Common.{
  ℕ, suc, Bool, true, false, Option, some, none, List, [], ◌∷◌, if◌then◌else◌,
}
use conference_operator.Schedule.{Slot, Placed, placed}

-- `slots.find(test)`, the slots standing at the places from `i` on.
unfoldable pub find_from : ℕ → (Placed → Bool) → List Slot → Option Placed
find_from i test [] = none
find_from i test (s ∷ rest) =
    let later = find_from (suc i) test rest in
    if test (placed i s) then some (placed i s) else later

-- The last slot that passes, as a loop that goes down from the last place finds it.
unfoldable pub find_last_from : ℕ → (Placed → Bool) → List Slot → Option Placed
find_last_from i test [] = none
find_last_from i test (s ∷ rest) = elim (find_last_from (suc i) test rest) [
  | some p ↦ some p
  | none ↦ if test (placed i s) then some (placed i s) else none
]

-- `slots.some(test)`
unfoldable pub some_from : ℕ → (Placed → Bool) → List Slot → Bool
some_from i test [] = false
some_from i test (s ∷ rest) =
    let later = some_from (suc i) test rest in if test (placed i s) then true else later

-- `slots.filter(test)`
unfoldable pub filter_from : ℕ → (Placed → Bool) → List Slot → List Placed
filter_from i test [] = []
filter_from i test (s ∷ rest) =
    let later = filter_from (suc i) test rest in
    if test (placed i s) then placed i s ∷ later else later
