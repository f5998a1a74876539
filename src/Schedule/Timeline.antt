-- ===== src/Schedule/Timeline.antt =====
-- What `timelinePosition` answers, said by places instead of by its loop.
use Prim.Native.Nat.add
use native.Mathlib.Decide.{dec_le}
use conference_operator.Common.{
  All, Option-cases, ℕ, zero, suc, ◌+◌, ◌≤◌, ◌<◌, ◌≡◌, refl, ◌↔◌, true, false, Option, some, none,
  List, [], ◌∷◌, arith, get_elem?, ltb, Bool-cases, inl, inr, ap, ◌∙◌,
}
use conference_operator.Schedule.{
  Slot, Placed, placed, is_open, timeline_from, timeline_position, effective_end_at,
}

-- The slot `s` at the place `k` is the first that is not already over, and it has started.
pub record IsCurrentAt (slots : List Slot) (now_ms k : ℕ) (s : Slot) : Type 0 where
  pub at : get_elem? slots k ≡ some s
  pub started : s.starts_at_ms ≤ now_ms
  pub still_open : is_open (effective_end_at slots k) now_ms ≡ true
  pub before :
      (j : ℕ) (t : Slot)
      → j < k
      → get_elem? slots j ≡ some t
      → (t.starts_at_ms ≤ now_ms) × (is_open (effective_end_at slots j) now_ms ≡ false)

tail-IsCurrentAt :
    {slots : List Slot} {now_ms k : ℕ} {x s : Slot}
    → IsCurrentAt (x ∷ slots) now_ms (suc k) s
    → IsCurrentAt slots now_ms k s
unfolding effective_end_at
tail-IsCurrentAt h = record {
  at = h.at;
  started = h.started;
  still_open = h.still_open;
  before = λ j t l e. h.before (suc j) t (omega arith) e;
}

cons-IsCurrentAt :
    {slots : List Slot} {now_ms k : ℕ} {s : Slot} (x : Slot)
    → x.starts_at_ms ≤ now_ms
    → is_open (effective_end_at (x ∷ slots) 0) now_ms ≡ false
    → IsCurrentAt slots now_ms k s
    → IsCurrentAt (x ∷ slots) now_ms (suc k) s
unfolding effective_end_at
cons-IsCurrentAt {slots} {now_ms} {k} x started over h = record {
  at = h.at;
  started = h.started;
  still_open = h.still_open;
  before = earlier;
}
  where
    earlier :
        (j : ℕ) (t : Slot)
        → j < suc k
        → get_elem? (x ∷ slots) j ≡ some t
        → (t.starts_at_ms ≤ now_ms) × (is_open (effective_end_at (x ∷ slots) j) now_ms ≡ false)
    earlier zero t l e = ground arith
    earlier (suc j) t l e = h.before j t (omega arith) e

current_of_IsCurrentAt :
    (i : ℕ) (previous : Option Placed) (slots : List Slot) (now_ms k : ℕ) (s : Slot)
    → IsCurrentAt slots now_ms k s
    → (timeline_from i previous slots now_ms).current ≡ some (placed (i + k) s)
unfolding timeline_from effective_end_at
current_of_IsCurrentAt i previous [] now_ms k s h = ground (arith, h.at)
current_of_IsCurrentAt i previous (x ∷ xs) now_ms zero s h =
    ground (arith, h.at, h.started, h.still_open)
current_of_IsCurrentAt i previous (x ∷ xs) now_ms (suc k) s h = ground (
  arith,
  h.before 0 x (omega arith) refl,
  current_of_IsCurrentAt (suc i) (some (placed i x)) xs now_ms k s (tail-IsCurrentAt h),
)

IsCurrentAt-of_current :
    (i : ℕ) (previous : Option Placed) (slots : List Slot) (now_ms : ℕ) (p : Placed)
    → (timeline_from i previous slots now_ms).current ≡ some p
    → (k : ℕ) × (p.place ≡ i + k) × IsCurrentAt slots now_ms k p.slot
unfolding timeline_from
IsCurrentAt-of_current i previous [] now_ms p h = cc
IsCurrentAt-of_current i previous (x ∷ xs) now_ms p h =
    elim (Bool-cases (ltb now_ms x.starts_at_ms)) [
      | inl future ↦ absurd (unfold timeline_from in ground arith)
      | inr past ↦ elim (Bool-cases (is_open (effective_end_at (x ∷ xs) 0) now_ms)) [
        | inl open_still ↦ (
          0,
          unfold timeline_from effective_end_at in ground arith,
          unfold timeline_from effective_end_at in here (ground arith) (ground arith) open_still,
        )
        | inr over ↦
            let (k, e, c) =
              IsCurrentAt-of_current (suc i) (some (placed i x)) xs now_ms p
                (unfold timeline_from effective_end_at in ground arith) in
            (suc k, omega arith, cons-IsCurrentAt x (ground arith) over c)
      ]
    ]
  where
    here :
        x ≡ p.slot
        → x.starts_at_ms ≤ now_ms
        → is_open (effective_end_at (x ∷ xs) 0) now_ms ≡ true
        → IsCurrentAt (x ∷ xs) now_ms 0 p.slot
    here e started still_open = record {
      at = ap some e;
      started = rw (← e) started;
      still_open = still_open;
      before = λ j t l _. elim l [ ];
    }

-- The current slot of a timeline is the slot at the place `p.place` exactly when that slot has
-- started and is not over, and every slot before it has started and is over.
pub timeline_position-current_iff :
    (slots : List Slot) (now_ms : ℕ) (p : Placed)
    → ((timeline_position slots now_ms).current ≡ some p) ↔ IsCurrentAt slots now_ms p.place p.slot
unfolding timeline_position
timeline_position-current_iff slots now_ms p = (to, from)
  where
    to : (timeline_position slots now_ms).current ≡ some p → IsCurrentAt slots now_ms p.place p.slot
    to h = let (k, e, c) = IsCurrentAt-of_current 0 none slots now_ms p h in rw (e, add.zero k) c

    from :
        IsCurrentAt slots now_ms p.place p.slot → (timeline_position slots now_ms).current ≡ some p
    from c =
        current_of_IsCurrentAt 0 none slots now_ms p.place p.slot c
        ∙ ap (λ k. some (placed k p.slot)) (add.zero p.place)

-- The slots come in the order of their starts, as the program's normalizer leaves them.
abbrev pub IsSorted : List Slot → Type 0
IsSorted [] = Unit {0}
IsSorted (x ∷ xs) = All (λ y. x.starts_at_ms ≤ y.starts_at_ms) xs × IsSorted xs

All-get_elem? :
    (now_ms : ℕ) (slots : List Slot) (k : ℕ) (s : Slot)
    → All (λ y. now_ms ≤ y.starts_at_ms) slots
    → get_elem? slots k ≡ some s
    → now_ms ≤ s.starts_at_ms
All-get_elem? now_ms [] k s h e = cc
All-get_elem? now_ms (x ∷ xs) zero s h e = ground arith
All-get_elem? now_ms (x ∷ xs) (suc k) s h e = All-get_elem? now_ms xs k s h.1 e

timeline_from-idle :
    (i : ℕ) (previous : Option Placed) (slots : List Slot) (now_ms k : ℕ) (s : Slot)
    → IsSorted slots
    → (timeline_from i previous slots now_ms).current ≡ none
    → get_elem? slots k ≡ some s
    → s.starts_at_ms ≤ now_ms
    → is_open (effective_end_at slots k) now_ms ≡ false
unfolding timeline_from effective_end_at
timeline_from-idle i previous [] now_ms k s o h e l = cc
timeline_from-idle i previous (x ∷ xs) now_ms zero s o h e l = ground arith
timeline_from-idle i previous (x ∷ xs) now_ms (suc k) s o h e l = ground (
  arith,
  All-get_elem? x.starts_at_ms xs k s o.0,
  timeline_from-idle (suc i) (some (placed i x)) xs now_ms k s o.1,
)

-- In a sorted sequence the early end of the loop misses nothing: if some slot has started and is
-- not over, the clock has a current slot, and it stands at or before that one.
pub timeline_position-finds :
    (slots : List Slot) (now_ms : ℕ) (q : Placed)
    → IsSorted slots
    → get_elem? slots q.place ≡ some q.slot
    → q.slot.starts_at_ms ≤ now_ms
    → is_open (effective_end_at slots q.place) now_ms ≡ true
    → (p : Placed) × ((timeline_position slots now_ms).current ≡ some p) × (p.place ≤ q.place)
unfolding timeline_position
timeline_position-finds slots now_ms q o at started still_open =
    elim (Option-cases (timeline_from 0 none slots now_ms).current) [
      | inl idle ↦
          absurd (
            ground (arith, timeline_from-idle 0 none slots now_ms q.place q.slot o idle at started))
      | inr (p, current) ↦ elim (dec_le p.place q.place) [
        | yes l ↦ (p, current, l)
        | no g ↦ absurd (
            ground (
              arith,
              ((timeline_position-current_iff slots now_ms p).0 current).before q.place q.slot
                  (omega arith) at,
            ))
      ]
    ]
