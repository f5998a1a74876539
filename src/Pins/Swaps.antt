-- ===== src/Pins/Swaps.antt =====
-- What swaps of slots make of a programme, in apps/hub-server/src/services/pins.ts.
use conference_operator.Common.{
  ◌≡◌, ◌≢◌, In, inl, inr, refl, sym, ap, ◌∙◌, String, true, false, List, [], ◌∷◌, arith, str_eq,
  eq_iff, eq_refl, or_else, Bool-cases, if◌then◌else◌,
}
use conference_operator.Common.Maps.{get-set, get-delete, get-set_other, get-delete_other}
use conference_operator.Pins.{slot_of, put_slot, swap_slots}

slot_of-put_slot :
    (id target : String) (slots : List (String × String))
    → slot_of id (put_slot id target slots) ≡ target
unfolding put_slot
slot_of-put_slot id target slots = elim (Bool-cases (str_eq target id)) [
  | inl own ↦ rw own (rw (get-delete id slots) (ground (arith, eq_iff target id)))
  | inr other ↦ rw other (rw (get-set id target slots) refl)
]

slot_of-put_slot_other :
    (id target other : String) (slots : List (String × String))
    → id ≢ other
    → slot_of other (put_slot id target slots) ≡ slot_of other slots
unfolding put_slot
slot_of-put_slot_other id target other slots ne = elim (Bool-cases (str_eq target id)) [
  | inl own ↦ rw own (ap (λ o. or_else o other) (get-delete_other id other slots ne))
  | inr away ↦ rw away (ap (λ o. or_else o other) (get-set_other id other target slots ne))
]

-- A swap exchanges the slots that the two talks occupy at that moment, and moves no other talk.
pub slot_of-swap_slots :
    (a b c : String) (slots : List (String × String))
    → a ≢ b
    → a ≢ c
    → b ≢ c
    → (slot_of a (swap_slots a b slots) ≡ slot_of b slots)
      × (slot_of b (swap_slots a b slots) ≡ slot_of a slots)
      × (slot_of c (swap_slots a b slots) ≡ slot_of c slots)
unfolding swap_slots
slot_of-swap_slots a b c slots ab ac bc =
    let first = put_slot a (slot_of b slots) slots in
    (
      slot_of-put_slot_other b (slot_of a slots) a first (λ e. ab (sym e))
          ∙ slot_of-put_slot a (slot_of b slots) slots,
      slot_of-put_slot b (slot_of a slots) first,
      slot_of-put_slot_other b (slot_of a slots) c first bc
          ∙ slot_of-put_slot_other a (slot_of b slots) c slots ac,
    )

-- The slots after a chain of swaps, the last first.
unfoldable pub after_swaps : List (String × String) → List (String × String)
after_swaps [] = []
after_swaps ((a, b) ∷ swaps) = swap_slots a b (after_swaps swaps)

abbrev pub transpose : String → String → String → String
transpose a b x = if str_eq b x then a else if str_eq a x then b else x

slot_of-transpose :
    (a b x : String) (slots : List (String × String))
    → slot_of x (swap_slots a b slots) ≡ slot_of (transpose a b x) slots
unfolding swap_slots
slot_of-transpose a b x slots =
    let first = put_slot a (slot_of b slots) slots in
    elim (Bool-cases (str_eq b x)) [
      | inl at_b ↦ rw at_b (
          ap (λ y. slot_of y (put_slot b (slot_of a slots) first)) (sym (equal b x at_b))
          ∙ slot_of-put_slot b (slot_of a slots) first)
      | inr off_b ↦
          slot_of-put_slot_other b (slot_of a slots) x first (apart b x off_b)
          ∙ elim (Bool-cases (str_eq a x)) [
            | inl at_a ↦
                rw (off_b, at_a)
                  (ap (λ y. slot_of y first) (sym (equal a x at_a))
                    ∙ slot_of-put_slot a (slot_of b slots) slots)
            | inr off_a ↦
                rw (off_b, off_a)
                  (slot_of-put_slot_other a (slot_of b slots) x slots (apart a x off_a))
          ]
    ]
  where
    equal : (s t : String) → str_eq s t ≡ true → s ≡ t
    equal s t h = ground (arith, eq_iff s t)

    apart : (s t : String) → str_eq s t ≡ false → s ≢ t
    apart s t h = ground (arith, eq_iff s t)

transpose-injective : (a b x y : String) → transpose a b x ≡ transpose a b y → x ≡ y
transpose-injective a b x y h = ground (arith, eq_iff b x, eq_iff b y, eq_iff a x, eq_iff a y)

transpose-transpose : (a b x : String) → transpose a b (transpose a b x) ≡ x
transpose-transpose a b x =
    ground (arith, eq_iff b x, eq_iff a x, eq_iff b a, eq_iff a b, eq_refl a, eq_refl b)

after_swaps-injective :
    (swaps : List (String × String)) (x y : String)
    → slot_of x (after_swaps swaps) ≡ slot_of y (after_swaps swaps)
    → x ≡ y
unfolding after_swaps
after_swaps-injective [] x y h = h
after_swaps-injective ((a, b) ∷ swaps) x y h = transpose-injective a b x y (
    after_swaps-injective swaps (transpose a b x) (transpose a b y) (
      sym (slot_of-transpose a b x (after_swaps swaps))
      ∙ (h ∙ slot_of-transpose a b y (after_swaps swaps))))

-- The swaps of a list are between talks of the export.
abbrev pub AreOf : List String → List (String × String) → Type 0
AreOf ids [] = Unit
AreOf ids ((a, b) ∷ swaps) = In a ids × In b ids × AreOf ids swaps

transpose-In :
    (ids : List String) (a b x : String) → In a ids → In b ids → In x ids → In (transpose a b x) ids
transpose-In ids a b x ha hb hx = elim (Bool-cases (str_eq b x)) [
  | inl at_b ↦ rw at_b ha
  | inr off_b ↦ elim (Bool-cases (str_eq a x)) [
    | inl at_a ↦ rw (off_b, at_a) hb
    | inr off_a ↦ rw (off_b, off_a) hx
  ]
]

-- Each talk of the export occupies a slot of the export, two talks never the same one, and every slot
-- of the export is occupied.
pub record IsPermutation (ids : List String) (slots : List (String × String)) : Type 0 where
  pub inside : (x : String) → In x ids → In (slot_of x slots) ids
  pub injective : (x y : String) → slot_of x slots ≡ slot_of y slots → x ≡ y
  pub onto : (y : String) → In y ids → (x : String) × In x ids × (slot_of x slots ≡ y)

-- After any chain of swaps between talks of the export, what is served is a permutation of its slots:
-- each talk has one of them, no two talks the same, and none is left empty.
pub after_swaps-IsPermutation :
    (ids : List String) (swaps : List (String × String))
    → AreOf ids swaps
    → IsPermutation ids (after_swaps swaps)
unfolding after_swaps
after_swaps-IsPermutation ids [] h = record {
  inside = λ x m. m;
  injective = λ x y e. e;
  onto = λ y m. (y, m, refl);
}
after_swaps-IsPermutation ids ((a, b) ∷ swaps) (ha, hb, h) =
    let before = after_swaps-IsPermutation ids swaps h in
    record {
      inside = λ x m.
          rw (slot_of-transpose a b x (after_swaps swaps))
            (before.inside (transpose a b x) (transpose-In ids a b x ha hb m));
      injective = after_swaps-injective ((a, b) ∷ swaps);
      onto = λ y m.
          let (z, there, e) = before.onto y m in
          (
            transpose a b z,
            transpose-In ids a b z ha hb there,
            slot_of-transpose a b (transpose a b z) (after_swaps swaps)
                ∙ ap (λ x. slot_of x (after_swaps swaps)) (transpose-transpose a b z)
                ∙ e,
          );
    }

-- Two talks that are swapped and swapped again, in either order of the two, have their slots back,
-- and so has every other talk.
pub swap_slots-swap_slots :
    (a b c : String) (slots : List (String × String))
    → (slot_of c (swap_slots a b (swap_slots a b slots)) ≡ slot_of c slots)
      × (slot_of c (swap_slots b a (swap_slots a b slots)) ≡ slot_of c slots)
swap_slots-swap_slots a b c slots = (
  slot_of-transpose a b c (swap_slots a b slots)
      ∙ slot_of-transpose a b (transpose a b c) slots
      ∙ ap (λ x. slot_of x slots) (transpose-transpose a b c),
  slot_of-transpose b a c (swap_slots a b slots)
      ∙ slot_of-transpose a b (transpose b a c) slots
      ∙ ap (λ x. slot_of x slots) (transpose-back a b c),
)
  where
    transpose-back : (a b x : String) → transpose a b (transpose b a x) ≡ x
    transpose-back a b x =
        ground (arith, eq_iff b x, eq_iff a x, eq_iff b a, eq_iff a b, eq_refl a, eq_refl b)
