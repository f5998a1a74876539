-- ===== src/Common/Laws.antt =====
-- Laws of the shared predicates on lists: `All`, `Pairwise` and `In` under `filter`, `++`, `map`
-- and `take`.
use Prim.Native.Nat.{ℕ, zero, suc, ◌≤◌, ◌+◌, min}
use mathlib.Core.Path.{◌≡◌, refl, ap, sym, ◌∙◌}
use mathlib.Core.Logic.{◌⊎◌, inl, inr, ◌↔◌}
use mathlib.Core.Bool.{Bool, true}
use mathlib.Core.List.{List, [], ◌∷◌, ◌++◌, map}
use native.Mathlib.Omega.{arith}
use conference_operator.Common.Tests.{Bool-cases}
use conference_operator.Common.Lists.{All, Pairwise, In, filter, take, length}

module _ {A : Type 0} (P : A → Type 0) where
  pub All-filter : (test : A → Bool) (xs : List A) → All P xs → All P (filter test xs)
  All-filter test [] h = h
  All-filter test (x ∷ xs) h = ground (arith, All-filter test xs h.1)

  pub All-append : (xs ys : List A) → All P xs → All P ys → All P (xs ++ ys)
  All-append [] ys h k = k
  All-append (x ∷ xs) ys h k = (h.0, All-append xs ys h.1 k)

  pub All-In : (xs : List A) (x : A) → All P xs → In x xs → P x
  All-In [] x h m = elim m [ ]
  All-In (y ∷ xs) x h (inl e) = rw e h.0
  All-In (y ∷ xs) x h (inr m) = All-In xs x h.1 m

  pub All_of_In : (xs : List A) → ((x : A) → In x xs → P x) → All P xs
  All_of_In [] h = tt
  All_of_In (x ∷ xs) h = (h x (inl refl), All_of_In xs (λ y m. h y (inr m)))

  pub All-take : (n : ℕ) (xs : List A) → All P xs → All P (take n xs)
  All-take zero xs h = tt
  All-take (suc n) [] h = tt
  All-take (suc n) (x ∷ xs) h = (h.0, All-take n xs h.1)

  pub All-map : {B : Type 0} (f : B → A) (xs : List B) → All P (map f xs) ↔ All (λ b. P (f b)) xs
  All-map f [] = (λ h. h, λ h. h)
  All-map f (x ∷ xs) = (λ h. (h.0, (All-map f xs).0 h.1), λ h. (h.0, (All-map f xs).1 h.1))

module _ {A : Type 0} (R : A → A → Type 0) where
  pub Pairwise-filter :
      (test : A → Bool) (xs : List A) → Pairwise R xs → Pairwise R (filter test xs)
  Pairwise-filter test [] h = h
  Pairwise-filter test (x ∷ xs) h =
      ground (arith, Pairwise-filter test xs h.1, All-filter (R x) test xs h.0)

  pub Pairwise-snoc :
      (xs : List A) (y : A) → Pairwise R xs → All (λ x. R x y) xs → Pairwise R (xs ++ y ∷ [])
  Pairwise-snoc [] y h k = (tt, tt)
  Pairwise-snoc (x ∷ xs) y h k =
      (All-append (R x) xs (y ∷ []) h.0 (k.0, tt), Pairwise-snoc xs y h.1 k.1)

  pub Pairwise-take : (n : ℕ) (xs : List A) → Pairwise R xs → Pairwise R (take n xs)
  Pairwise-take zero xs h = tt
  Pairwise-take (suc n) [] h = tt
  Pairwise-take (suc n) (x ∷ xs) h = (All-take (R x) n xs h.0, Pairwise-take n xs h.1)

  pub Pairwise-map :
      {B : Type 0} (f : B → A) (xs : List B)
      → Pairwise R (map f xs) ↔ Pairwise (λ a b. R (f a) (f b)) xs
  Pairwise-map f [] = (λ h. h, λ h. h)
  Pairwise-map f (x ∷ xs) = (
    λ h. ((All-map (R (f x)) f xs).0 h.0, (Pairwise-map f xs).0 h.1),
    λ h. ((All-map (R (f x)) f xs).1 h.0, (Pairwise-map f xs).1 h.1),
  )

module _ {A : Type 0} where
  pub List-cases : (xs : List A) → (xs ≡ []) ⊎ ((x : A) × (ys : List A) × (xs ≡ x ∷ ys))
  List-cases [] = inl refl
  List-cases (x ∷ xs) = inr (x, xs, refl)

  pub In-filter :
      (test : A → Bool) (xs : List A) (x : A) → In x (filter test xs) ↔ (In x xs × (test x ≡ true))
  In-filter test [] x = (λ m. elim m [ ], λ m. elim m.0 [ ])
  In-filter test (y ∷ xs) x = elim (Bool-cases (test y)) [
    | inl t ↦ (λ m. ground (arith, In-filter test xs x), λ m. ground (arith, In-filter test xs x))
    | inr f ↦ (λ m. ground (arith, In-filter test xs x), λ m. ground (arith, In-filter test xs x))
  ]

  pub In-append : (xs ys : List A) (x : A) → In x (xs ++ ys) ↔ (In x xs ⊎ In x ys)
  In-append [] ys x = (λ m. inr m, λ m. ground arith)
  In-append (y ∷ xs) ys x =
      (λ m. ground (arith, In-append xs ys x), λ m. ground (arith, In-append xs ys x))

  pub In-take : (n : ℕ) (xs : List A) (x : A) → In x (take n xs) → In x xs
  In-take zero xs x m = elim m [ ]
  In-take (suc n) [] x m = m
  In-take (suc n) (y ∷ xs) x m = ground (arith, In-take n xs x)

  pub In-map : {B : Type 0} (f : A → B) (xs : List A) (x : A) → In x xs → In (f x) (map f xs)
  In-map f [] x m = elim m [ ]
  In-map f (y ∷ xs) x (inl e) = inl (ap f e)
  In-map f (y ∷ xs) x (inr m) = inr (In-map f xs x m)

  pub In-of_map :
      {B : Type 0} (f : A → B) (xs : List A) (b : B)
      → In b (map f xs)
      → (a : A) × In a xs × (b ≡ f a)
  In-of_map f [] b m = elim m [ ]
  In-of_map f (y ∷ xs) b (inl e) = (y, inl refl, e)
  In-of_map f (y ∷ xs) b (inr m) = let (a, h, e) = In-of_map f xs b m in (a, inr h, e)

  pub length-filter : (test : A → Bool) (xs : List A) → length (filter test xs) ≤ length xs
  length-filter test [] = omega arith
  length-filter test (x ∷ xs) = ground (arith, length-filter test xs)

  pub length-append : (xs ys : List A) → length (xs ++ ys) ≡ length xs + length ys
  length-append [] ys = omega arith
  length-append (x ∷ xs) ys = omega (arith, length-append xs ys)

  pub length-take : (n : ℕ) (xs : List A) → length (take n xs) ≡ min n (length xs)
  length-take zero xs = omega arith
  length-take (suc n) [] = omega arith
  length-take (suc n) (x ∷ xs) = omega (arith, length-take n xs)

  pub length-map : {B : Type 0} (f : A → B) (xs : List A) → length (map f xs) ≡ length xs
  length-map f [] = refl
  length-map f (x ∷ xs) = ap suc (length-map f xs)

  pub take_all : (n : ℕ) (xs : List A) → length xs ≤ n → take n xs ≡ xs
  take_all zero [] h = refl
  take_all zero (x ∷ xs) h = absurd (omega arith)
  take_all (suc n) [] h = refl
  take_all (suc n) (x ∷ xs) h = ap (λ l. x ∷ l) (take_all n xs (omega arith))

  pub Pairwise-cases :
      (R : A → A → Type 0) (xs : List A) (a b : A)
      → Pairwise R xs
      → In a xs
      → In b xs
      → (a ≡ b) ⊎ R a b ⊎ R b a
  Pairwise-cases R [] a b h m n = elim m [ ]
  Pairwise-cases R (x ∷ xs) a b h (inl e) (inl f) = inl (e ∙ sym f)
  Pairwise-cases R (x ∷ xs) a b h (inl e) (inr n) = inr (inl (rw e (All-In (R x) xs b h.0 n)))
  Pairwise-cases R (x ∷ xs) a b h (inr m) (inl f) = inr (inr (rw f (All-In (R x) xs a h.0 m)))
  Pairwise-cases R (x ∷ xs) a b h (inr m) (inr n) = Pairwise-cases R xs a b h.1 m n
