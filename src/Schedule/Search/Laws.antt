-- ===== src/Schedule/Search/Laws.antt =====
-- What the array methods over placed slots find.
use Prim.Native.Nat.add
use conference_operator.Common.{
  ℕ, zero, suc, ◌+◌, ◌<◌, ◌≡◌, refl, Bool, true, false, some, none, List, [], ◌∷◌, arith, get_elem?,
  In, inl, inr, Bool-cases, Option-cases,
}
use conference_operator.Schedule.{Slot, Placed, placed}
use conference_operator.Schedule.Search.Defs.{find_from, find_last_from, some_from, filter_from}

-- The reference `p` is to an element of the list.
abbrev pub IsAt : List Slot → Placed → Type 0
IsAt slots p = get_elem? slots p.place ≡ some p.slot

module _ (test : Placed → Bool) where
  find_from-none :
      (i : ℕ) (slots : List Slot) (k : ℕ) (s : Slot)
      → find_from i test slots ≡ none
      → get_elem? slots k ≡ some s
      → test (placed (i + k) s) ≡ false
  unfolding find_from
  find_from-none i [] k s h e = cc
  find_from-none i (x ∷ xs) zero s h e = ground arith
  find_from-none i (x ∷ xs) (suc k) s h e = ground (arith, find_from-none (suc i) xs k s)

  find_from-some :
      (i : ℕ) (slots : List Slot) (p : Placed)
      → find_from i test slots ≡ some p
      → (k : ℕ) × (p.place ≡ i + k) × (get_elem? slots k ≡ some p.slot) × (test p ≡ true)
  unfolding find_from
  find_from-some i [] p h = cc
  find_from-some i (x ∷ xs) p h = elim (Bool-cases (test (placed i x))) [
    | inl t ↦ (0, ground arith, ground arith, ground arith)
    | inr f ↦
        let (k, e, g, t) = find_from-some (suc i) xs p (ground arith) in (suc k, omega arith, g, t)
  ]

  -- Every slot before the one found fails the test.
  find_from-before :
      (i : ℕ) (slots : List Slot) (p : Placed) (j : ℕ) (s : Slot)
      → find_from i test slots ≡ some p
      → i + j < p.place
      → get_elem? slots j ≡ some s
      → test (placed (i + j) s) ≡ false
  unfolding find_from
  find_from-before i [] p j s h l e = cc
  find_from-before i (x ∷ xs) p zero s h l e = ground arith
  find_from-before i (x ∷ xs) p (suc j) s h l e = ground (arith, find_from-before (suc i) xs p j s)

  some_from_of :
      (i : ℕ) (slots : List Slot) (k : ℕ) (s : Slot)
      → get_elem? slots k ≡ some s
      → test (placed (i + k) s) ≡ true
      → some_from i test slots ≡ true
  unfolding some_from
  some_from_of i [] k s e t = cc
  some_from_of i (x ∷ xs) zero s e t = ground arith
  some_from_of i (x ∷ xs) (suc k) s e t = ground (arith, some_from_of (suc i) xs k s)

  some_from-true :
      (i : ℕ) (slots : List Slot)
      → some_from i test slots ≡ true
      → (k : ℕ) × (s : Slot) × (get_elem? slots k ≡ some s) × (test (placed (i + k) s) ≡ true)
  unfolding some_from
  some_from-true i [] h = cc
  some_from-true i (x ∷ xs) h = elim (Bool-cases (test (placed i x))) [
    | inl t ↦ (0, x, refl, ground arith)
    | inr f ↦
        let (k, s, g, t) = some_from-true (suc i) xs (ground arith) in (suc k, s, g, ground arith)
  ]

  find_last_from-some :
      (i : ℕ) (slots : List Slot) (p : Placed)
      → find_last_from i test slots ≡ some p
      → (k : ℕ) × (p.place ≡ i + k) × (get_elem? slots k ≡ some p.slot) × (test p ≡ true)
  unfolding find_last_from
  find_last_from-some i [] p h = cc
  find_last_from-some i (x ∷ xs) p h = elim (Option-cases (find_last_from (suc i) test xs)) [
    | inl missing ↦ (0, ground arith, ground arith, ground arith)
    | inr (q, found) ↦
        let (k, e, g, t) = find_last_from-some (suc i) xs p (ground arith) in
        (suc k, omega arith, g, t)
  ]

  -- A slot that passes stands at or before the one found.
  find_last_from-after :
      (i : ℕ) (slots : List Slot) (j : ℕ) (s : Slot)
      → get_elem? slots j ≡ some s
      → test (placed (i + j) s) ≡ true
      → (p : Placed) × (find_last_from i test slots ≡ some p) × (i + j < suc p.place)
  unfolding find_last_from
  find_last_from-after i [] j s e t = cc
  find_last_from-after i (x ∷ xs) zero s e t =
      elim (Option-cases (find_last_from (suc i) test xs)) [
        | inl missing ↦ (placed i x, ground arith, omega arith)
        | inr (q, found) ↦
            let (k, e', _, _) = find_last_from-some (suc i) xs q found in
            (q, ground arith, omega arith)
      ]
  find_last_from-after i (x ∷ xs) (suc j) s e t =
      let (p, h, l) = find_last_from-after (suc i) xs j s e (ground arith) in
      (p, ground arith, omega arith)

  filter_from-mem :
      (i : ℕ) (slots : List Slot) (p : Placed)
      → In p (filter_from i test slots)
      → (k : ℕ) × (p.place ≡ i + k) × (get_elem? slots k ≡ some p.slot) × (test p ≡ true)
  unfolding filter_from
  filter_from-mem i [] p h = elim h [ ]
  filter_from-mem i (x ∷ xs) p h = elim (Bool-cases (test (placed i x))) [
    | inl t ↦ elim (rw (t, filter_from) at h) [
      | inl e ↦ (0, ground arith, ground arith, rw e t)
      | inr m ↦ let (k, e, g, t') = filter_from-mem (suc i) xs p m in (suc k, omega arith, g, t')
    ]
    | inr f ↦
        let (k, e, g, t') = filter_from-mem (suc i) xs p (rw (f, filter_from) at h) in
        (suc k, omega arith, g, t')
  ]

  filter_from-mem_of :
      (i : ℕ) (slots : List Slot) (k : ℕ) (s : Slot)
      → get_elem? slots k ≡ some s
      → test (placed (i + k) s) ≡ true
      → In (placed (i + k) s) (filter_from i test slots)
  unfolding filter_from
  filter_from-mem_of i [] k s e t = cc
  filter_from-mem_of i (x ∷ xs) zero s e t = ground arith
  filter_from-mem_of i (x ∷ xs) (suc k) s e t = ground (arith, filter_from-mem_of (suc i) xs k s)

  -- The same at the whole list.
  pub find-some :
      (slots : List Slot) {p : Placed}
      → find_from 0 test slots ≡ some p
      → IsAt slots p × (test p ≡ true)
  find-some slots {p} h = let (k, e, g, t) = find_from-some 0 slots p h in (rw (e, add.zero k) g, t)

  pub find-before :
      (slots : List Slot) {p q : Placed}
      → find_from 0 test slots ≡ some p
      → IsAt slots q
      → q.place < p.place
      → test q ≡ false
  find-before slots {p} {q} h e l =
      rw add.zero at (find_from-before 0 slots p q.place q.slot h (omega arith) e)

  pub find-none :
      (slots : List Slot) {q : Placed}
      → find_from 0 test slots ≡ none
      → IsAt slots q
      → test q ≡ false
  find-none slots {q} h e = rw add.zero at (find_from-none 0 slots q.place q.slot h e)

  pub some_of :
      (slots : List Slot) {q : Placed}
      → IsAt slots q
      → test q ≡ true
      → some_from 0 test slots ≡ true
  some_of slots {q} e t = some_from_of 0 slots q.place q.slot e (rw add.zero t)

  pub some-true :
      (slots : List Slot)
      → some_from 0 test slots ≡ true
      → (p : Placed) × IsAt slots p × (test p ≡ true)
  some-true slots h =
      let (k, s, g, t) = some_from-true 0 slots h in (placed k s, g, rw add.zero at t)

  pub find_last-some :
      (slots : List Slot) {p : Placed}
      → find_last_from 0 test slots ≡ some p
      → IsAt slots p × (test p ≡ true)
  find_last-some slots {p} h =
      let (k, e, g, t) = find_last_from-some 0 slots p h in (rw (e, add.zero k) g, t)

  pub find_last-after :
      (slots : List Slot) {q : Placed}
      → IsAt slots q
      → test q ≡ true
      → (p : Placed) × (find_last_from 0 test slots ≡ some p) × (q.place < suc p.place)
  find_last-after slots {q} e t =
      let (p, h, l) = find_last_from-after 0 slots q.place q.slot e (rw add.zero t) in
      (p, h, omega arith)

  pub filter-mem :
      (slots : List Slot) {p : Placed}
      → In p (filter_from 0 test slots)
      → IsAt slots p × (test p ≡ true)
  filter-mem slots {p} h =
      let (k, e, g, t) = filter_from-mem 0 slots p h in (rw (e, add.zero k) g, t)

  pub filter-mem_of :
      (slots : List Slot) {p : Placed}
      → IsAt slots p
      → test p ≡ true
      → In p (filter_from 0 test slots)
  filter-mem_of slots {p} e t =
      rw add.zero at (filter_from-mem_of 0 slots p.place p.slot e (rw add.zero t))
