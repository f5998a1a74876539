-- ===== src/Room/Position.antt =====
-- Current, next and target talk of a room, pin included: `roomPosition` of
-- packages/room-state/src/state.ts.
use Prim.Native.Nat.add
use native.Mathlib.Decide.{dec_le}
use conference_operator.Common.{
  ℕ, zero, suc, ◌+◌, ◌≤◌, ◌<◌, ◌≡◌, ◌≢◌, ◌⊎◌, String, true, Option, some, none, List, [], ◌∷◌,
  arith, Option-cases, inl, inr, refl, get_elem?, ap, ◌∙◌,
}
use conference_operator.Schedule.{talk, break, Slot, Placed, placed}
use conference_operator.Schedule.Search.{
  IsAt, find-some, find-none, find-before, filter_from, find_from,
}
use conference_operator.Lifecycle.{scheduled}
use conference_operator.Room.{
  SessionStatuses, pinned_slot, is_talk, talk_to_control, room_position, jumped_over, still_to_give,
}
use conference_operator.Room.Pin.{pinned_slot-some}

-- No talk stands in the first `k` places.
jumped_over-skip :
    (i : ℕ) (before : Option Placed) (slots : List Slot) (k : ℕ) (p : Placed)
    → p.place ≡ i + k
    → get_elem? slots k ≡ some p.slot
    → p.slot.kind ≡ talk
    → ((m : ℕ) (s : Slot) → m < k → get_elem? slots m ≡ some s → s.kind ≡ break)
    → jumped_over before (filter_from i (λ q. is_talk q.slot.kind) slots) p ≡ before
unfolding jumped_over filter_from
jumped_over-skip i before [] k p e at kind none_between = cc
jumped_over-skip i before (x ∷ xs) zero p e at kind none_between = ground arith
jumped_over-skip i before (x ∷ xs) (suc k) p e at kind none_between = ground (
  arith,
  none_between 0 x (omega arith) refl,
  jumped_over-skip (suc i) before xs k p (omega arith) at kind
      (λ m s l g. none_between (suc m) s (omega arith) g),
)

jumped_over-before :
    (i : ℕ) (before : Option Placed) (slots : List Slot) (j k : ℕ) (t : Slot) (p : Placed)
    → j < k
    → get_elem? slots j ≡ some t
    → t.kind ≡ talk
    → p.place ≡ i + k
    → get_elem? slots k ≡ some p.slot
    → p.slot.kind ≡ talk
    → ((m : ℕ) (s : Slot) → j < m → m < k → get_elem? slots m ≡ some s → s.kind ≡ break)
    → jumped_over before (filter_from i (λ q. is_talk q.slot.kind) slots) p
      ≡ some (placed (i + j) t)
unfolding jumped_over filter_from
jumped_over-before i before [] j k t p l g tk e at kind between = cc
jumped_over-before i before (x ∷ xs) j zero t p l g tk e at kind between = elim l [ ]
jumped_over-before i before (x ∷ xs) zero (suc k) t p l g tk e at kind between = ground (
  arith,
  jumped_over-skip (suc i) (some (placed i x)) xs k p (omega arith) at kind
      (λ m s b h. between (suc m) s (omega arith) (omega arith) h),
)
jumped_over-before i before (x ∷ xs) (suc j) (suc k) t p l g tk e at kind between =
    let rest = λ (b : Option Placed).
      jumped_over-before (suc i) b xs j k t p (omega arith) g tk (omega arith) at kind
        (λ m s a b h. between (suc m) s (omega arith) (omega arith) h) in
    ground (arith, rest before, rest (some (placed i x)))

-- The talk right before `p` in the room's order.
pub record IsJumped (slots : List Slot) (p q : Placed) : Type 0 where
  pub at : IsAt slots q
  pub is_a_talk : q.slot.kind ≡ talk
  pub earlier : q.place < p.place
  pub between :
      (m : ℕ) (s : Slot) → q.place < m → m < p.place → get_elem? slots m ≡ some s → s.kind ≡ break

module _ (slots : List Slot) (now_ms : ℕ) (statuses : SessionStatuses)
    (pinned_id : Option String) where
  -- The target of a room's position is the talk that the room drives, pin included.
  pub room_position-target :
      (room_position slots now_ms statuses pinned_id).target
      ≡ talk_to_control slots now_ms statuses pinned_id
  unfolding room_position talk_to_control pinned_slot
  room_position-target = ground arith

  still_to_give-true :
      (p : Placed) (jumped : Option Placed) (n : Placed)
      → still_to_give slots now_ms statuses p jumped n ≡ true
      → (n.place ≢ p.place)
        × (n.slot.kind ≡ talk)
        × ((statuses n.slot.id ≡ none) ⊎ (statuses n.slot.id ≡ some scheduled))
  unfolding still_to_give
  still_to_give-true p jumped n h = ground arith

  abbrev next_of : Placed → Option Placed
  next_of p =
      find_from 0
        (still_to_give slots now_ms statuses p
          (jumped_over none (filter_from 0 (λ q. is_talk q.slot.kind) slots) p))
        slots

  room_position-held :
      (p : Placed)
      → pinned_slot slots statuses pinned_id ≡ some p
      → (room_position slots now_ms statuses pinned_id).next ≡ next_of p
  unfolding room_position
  room_position-held p held = ground arith

  -- With a pin that holds, the room is on the forced talk, and what comes next is another talk,
  -- neither started nor ended.
  pub room_position-pinned :
      (p : Placed)
      → pinned_slot slots statuses pinned_id ≡ some p
      → (n : Placed) → (room_position slots now_ms statuses pinned_id).next ≡ some n
      → ((room_position slots now_ms statuses pinned_id).current ≡ some p)
        × IsAt slots n
        × (n.place ≢ p.place)
        × (n.slot.kind ≡ talk)
        × ((statuses n.slot.id ≡ none) ⊎ (statuses n.slot.id ≡ some scheduled))
  unfolding room_position
  room_position-pinned p held n h =
      let (at, t) =
        find-some
          (still_to_give slots now_ms statuses p
            (jumped_over none (filter_from 0 (λ q. is_talk q.slot.kind) slots) p))
          slots {p = n} (rw (room_position-held p held) at h) in
      let (other, kind, untouched) = still_to_give-true p _ n t in
      (ground arith, at, other, kind, untouched)

  still_to_give-jumped :
      (p q : Placed)
      → IsJumped slots p q
      → (statuses q.slot.id ≡ none) ⊎ (statuses q.slot.id ≡ some scheduled)
      → still_to_give slots now_ms statuses p (some q) q ≡ true
  unfolding still_to_give
  still_to_give-jumped p q j u = ground (arith, j.is_a_talk, j.earlier)

  first_to_give :
      (p q : Placed)
      → IsJumped slots p q
      → (statuses q.slot.id ≡ none) ⊎ (statuses q.slot.id ≡ some scheduled)
      → (n : Placed) × (find_from 0 (still_to_give slots now_ms statuses p (some q)) slots ≡ some n)
        × (n.place ≤ q.place)
  first_to_give p q j u =
      elim (Option-cases (find_from 0 (still_to_give slots now_ms statuses p (some q)) slots)) [
        | inl missing ↦
            absurd (ground (arith, still_to_give-jumped p q j u, find-none _ slots missing j.at))
        | inr (n, found) ↦ elim (dec_le n.place q.place) [
          | yes l ↦ (n, found, l)
          | no g ↦ absurd (
              ground
                (arith, still_to_give-jumped p q j u, find-before _ slots found j.at (omega arith)))
        ]
      ]

  -- The talk that a forced talk jumped over is not lost: if it was neither started nor ended, what
  -- comes next is that talk or one that stands before it, even once its own slot has run out.
  pub room_position-jumped :
      (p q : Placed)
      → pinned_slot slots statuses pinned_id ≡ some p
      → IsJumped slots p q
      → (statuses q.slot.id ≡ none) ⊎ (statuses q.slot.id ≡ some scheduled)
      → (n : Placed) × ((room_position slots now_ms statuses pinned_id).next ≡ some n)
        × (n.place ≤ q.place)
  room_position-jumped p q held j u =
      let (at_p, _, kind, _) = pinned_slot-some slots statuses pinned_id held in
      let jumped : jumped_over none (filter_from 0 (λ r. is_talk r.slot.kind) slots) p ≡ some q =
        jumped_over-before 0 none slots q.place p.place q.slot p j.earlier j.at j.is_a_talk
          (omega arith) at_p kind j.between
        ∙ ap (λ k. some (placed k q.slot)) (add.zero q.place) in
      rw (room_position-held p held, jumped) (first_to_give p q j u)
