-- ===== src/Ingest/Takes/Pairs.antt =====
-- Captures that are open, counted and changed in their place, for `captations` of
-- apps/hub-server/src/services/ingest.ts.
use conference_operator.Common.{
  ℕ, suc, zero, ◌+◌, ◌≡◌, ◌⊎◌, inl, inr, refl, sym, ap, Bool, true, false, ◌&&◌, Option, none, some,
  List, [], ◌∷◌, ◌++◌, get_elem?, length, arith,
}
use conference_operator.Ingest.Project.{ObsInstance, obs_a, obs_b}
use conference_operator.Ingest.Takes.{RawCapture, same_obs, Pairing, change_at}

abbrev pub bit : Bool → ℕ
bit true = 1
bit false = 0

module _ {A : Type 0} (test : A → Bool) where
  abbrev pub count : List A → ℕ
  count [] = 0
  count (x ∷ xs) = bit (test x) + count xs

  pub count-append : (xs ys : List A) → count (xs ++ ys) ≡ count xs + count ys
  count-append [] ys = omega arith
  count-append (x ∷ xs) ys = omega (arith, count-append xs ys)

get_elem?-append :
    (xs ys : List RawCapture) (i : ℕ) (c : RawCapture)
    → get_elem? xs i ≡ some c
    → get_elem? (xs ++ ys) i ≡ some c
get_elem?-append [] ys i c e = cc
get_elem?-append (x ∷ xs) ys zero c e = e
get_elem?-append (x ∷ xs) ys (suc i) c e = get_elem?-append xs ys i c e

get_elem?-length :
    (xs : List RawCapture) (c : RawCapture) → get_elem? (xs ++ (c ∷ [])) (length xs) ≡ some c
get_elem?-length [] c = refl
get_elem?-length (x ∷ xs) c = get_elem?-length xs c

pub count-change_at :
    (test : RawCapture → Bool) (f : RawCapture → RawCapture) (xs : List RawCapture) (i : ℕ)
    (c : RawCapture)
    → get_elem? xs i ≡ some c
    → count test (change_at f i xs) + bit (test c) ≡ count test xs + bit (test (f c))
count-change_at test f [] i c e = cc
count-change_at test f (x ∷ xs) zero c e = let same : x ≡ c = cc in rw same (omega arith)
count-change_at test f (x ∷ xs) (suc i) c e = omega (arith, count-change_at test f xs i c e)

get_elem?-change_at :
    (f : RawCapture → RawCapture) (xs : List RawCapture) (i j : ℕ) (c : RawCapture)
    → get_elem? xs j ≡ some c
    → (i ≡ j) ⊎ (get_elem? (change_at f i xs) j ≡ some c)
get_elem?-change_at f [] i j c e = cc
get_elem?-change_at f (x ∷ xs) zero zero c e = inl refl
get_elem?-change_at f (x ∷ xs) zero (suc j) c e = inr e
get_elem?-change_at f (x ∷ xs) (suc i) zero c e = inr e
get_elem?-change_at f (x ∷ xs) (suc i) (suc j) c e = elim (get_elem?-change_at f xs i j c e) [
  | inl same ↦ inl (ap suc same)
  | inr kept ↦ inr kept
]

-- The take of an instance is running.
abbrev pub rolls : ObsInstance → RawCapture → Bool
rolls o c = same_obs o c.obs && c.en_cours

abbrev pub OpenAt : List RawCapture → ObsInstance → Option ℕ → Type 0
OpenAt captures o none = count (rolls o) captures ≡ 0
OpenAt captures o (some i) =
    (count (rolls o) captures ≡ 1)
    × (c : RawCapture) × (get_elem? captures i ≡ some c)
    × (rolls o c ≡ true)
    × (c.file ≡ none)

abbrev pub IsPairing : Pairing → Type 0
IsPairing s = (o : ObsInstance) → OpenAt s.captures o (s.opened o)

same_obs-other :
    (o obs x : ObsInstance) → same_obs obs x ≡ true → same_obs o obs ≡ false → same_obs o x ≡ false
same_obs-other obs_a obs_a x e f = cc
same_obs-other obs_b obs_b x e f = cc
same_obs-other obs_a obs_b obs_a e f = cc
same_obs-other obs_a obs_b obs_b e f = refl
same_obs-other obs_b obs_a obs_a e f = refl
same_obs-other obs_b obs_a obs_b e f = cc

-- A change that stops a take.
abbrev pub Stops : (RawCapture → RawCapture) → Type 0
Stops f = (o : ObsInstance) (c : RawCapture) → rolls o (f c) ≡ false

pub change_at-here :
    (f : RawCapture → RawCapture) (captures : List RawCapture) (obs : ObsInstance) (i : ℕ)
    → Stops f
    → OpenAt captures obs (some i)
    → OpenAt (change_at f i captures) obs none
change_at-here f captures obs i stops (one, c, at, running, empty) =
    omega
      (arith, count-change_at (rolls obs) f captures i c at, ap bit running, ap bit (stops obs c))

pub change_at-there :
    (f : RawCapture → RawCapture) (captures : List RawCapture) (obs o : ObsInstance) (i : ℕ)
    (place : Option ℕ)
    → Stops f
    → OpenAt captures obs (some i)
    → same_obs o obs ≡ false
    → OpenAt captures o place
    → OpenAt (change_at f i captures) o place
change_at-there f captures obs o i none stops (one, c, at, running, empty) other v =
    omega (arith, count-change_at (rolls o) f captures i c at, ap bit (stops o c))
change_at-there f captures obs o i (some j) stops (one, c, at, running, empty) other
      (v, d, there, runs_d, empty_d) =
    let elsewhere : same_obs o c.obs ≡ false = same_obs-other o obs c.obs (ground arith) other in
    let still : rolls o c ≡ false = ground arith in
    (
      omega (arith, count-change_at (rolls o) f captures i c at, ap bit (stops o c), ap bit still),
      d,
      elim (get_elem?-change_at f captures i j d there) [
        | inl same ↦
            let both : c ≡ d = cc in let bad : rolls o d ≡ false = rw (sym both) still in cc
        | inr kept ↦ kept
      ],
      runs_d,
      empty_d,
    )

pub append-OpenAt :
    (captures : List RawCapture) (c : RawCapture) (o : ObsInstance) (place : Option ℕ)
    → rolls o c ≡ false
    → OpenAt captures o place
    → OpenAt (captures ++ (c ∷ [])) o place
append-OpenAt captures c o none idle v =
    omega (arith, count-append (rolls o) captures (c ∷ []), ap bit idle)
append-OpenAt captures c o (some i) idle (one, d, at, running, empty) = (
  omega (arith, count-append (rolls o) captures (c ∷ []), ap bit idle),
  d,
  get_elem?-append captures (c ∷ []) i d at,
  running,
  empty,
)

pub append-opens :
    (captures : List RawCapture) (c : RawCapture) (o : ObsInstance)
    → rolls o c ≡ true
    → c.file ≡ none
    → OpenAt captures o none
    → OpenAt (captures ++ (c ∷ [])) o (some (length captures))
append-opens captures c o running empty v = (
  omega (arith, count-append (rolls o) captures (c ∷ []), ap bit running),
  c,
  get_elem?-length captures c,
  running,
  empty,
)
