-- ===== src/Tests/Emergency.antt =====
-- Talks whose slots are swapped.
use conference_operator.Common.{◌≡◌, refl, inl, inr, String, List, [], ◌∷◌}
use conference_operator.Common.Maps.{set}
use conference_operator.Pins.{slot_of, swap_slots}
use conference_operator.Pins.Swaps.{
  after_swaps, IsPermutation, after_swaps-IsPermutation, swap_slots-swap_slots,
}

abbrev chain : List (String × String)
chain = ("t2", "t3") ∷ ("t1", "t2") ∷ []

chain_run : slot_of "t2" (after_swaps chain) ≡ "t3"
unfolding after_swaps swap_slots set
chain_run = refl

-- The slots that a first swap leaves.
abbrev chained : List (String × String)
chained = ("t1", "t2") ∷ ("t2", "t1") ∷ []

after_swaps-IsPermutation_example : IsPermutation ("t1" ∷ "t2" ∷ "t3" ∷ []) (after_swaps chain)
after_swaps-IsPermutation_example =
    after_swaps-IsPermutation ("t1" ∷ "t2" ∷ "t3" ∷ []) chain
      (inr (inl refl), inr (inr (inl refl)), (inl refl, inr (inl refl), tt))

swapped_back :
    (slot_of "t3" (swap_slots "t1" "t2" (swap_slots "t1" "t2" chained)) ≡ slot_of "t3" chained)
    × (slot_of "t3" (swap_slots "t2" "t1" (swap_slots "t1" "t2" chained)) ≡ slot_of "t3" chained)
swapped_back = swap_slots-swap_slots "t1" "t2" "t3" chained

swapped_run : slot_of "t1" (swap_slots "t1" "t2" (swap_slots "t1" "t2" chained)) ≡ "t2"
unfolding swap_slots set
swapped_run = refl
