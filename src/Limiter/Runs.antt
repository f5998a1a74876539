-- ===== src/Limiter/Runs.antt =====
-- Sequences of calls of the limiter of apps/hub-server/src/services/rate-limit.ts, on a clock that does
-- not go back.
use conference_operator.Common.{
  ℕ, ◌+◌, ◌-◌, ◌*◌, ◌≤◌, ◌≡◌, ◌≢◌, inl, inr, refl, sym, ap, ◌∙◌, String, Bool, true, false, ◌&&◌,
  List, [], ◌∷◌, leb, arith, str_eq, eq_iff, Bool-cases, Option-cases, if◌then◌else◌,
}
use conference_operator.Common.Maps.{get}
use conference_operator.Limiter.{
  RateLimitOptions, Buckets, Call, taking, pruning, one_token, take, prune, answers,
}
use conference_operator.Limiter.Levels.{
  IsSane, level_at, capped, left_of, take-IsTaken, prune-IsSane, later-IsSane,
}

-- Calls at instants that do not go back, where a bucket is forgotten only at an age that fills it.
abbrev pub Suits : RateLimitOptions → ℕ → List Call → Type 0
Suits options from [] = Unit
Suits options from (taking now key ∷ calls) = (from ≤ now) × Suits options now calls
Suits options from (pruning max_age_ms now ∷ calls) =
    (from ≤ now)
    × (options.capacity ≤ max_age_ms * options.refill_per_second)
    × Suits options now calls

abbrev pub takes_only : List Call → List Call
takes_only [] = []
takes_only (taking now key ∷ calls) = taking now key ∷ takes_only calls
takes_only (pruning max_age_ms now ∷ calls) = takes_only calls

abbrev pub last_instant : ℕ → List Call → ℕ
last_instant from [] = from
last_instant from (taking now key ∷ calls) = last_instant now calls
last_instant from (pruning max_age_ms now ∷ calls) = last_instant now calls

-- How many times a key was let through.
abbrev pub granted : String → List (String × Bool) → ℕ
granted key [] = 0
granted key ((k, allowed) ∷ rest) =
    let n = granted key rest in if str_eq k key && allowed then n + 1 else n

apart : (s t : String) → str_eq s t ≡ false → s ≢ t
apart s t h = ground (arith, eq_iff s t)

answers-same :
    (options : RateLimitOptions) (from : ℕ) (calls : List Call) (bs cs : Buckets)
    → IsSane options from bs
    → IsSane options from cs
    → ((key : String) (t : ℕ) → from ≤ t → level_at options t key bs ≡ level_at options t key cs)
    → Suits options from calls
    → answers options calls bs ≡ answers options (takes_only calls) cs
unfolding answers
answers-same options from [] bs cs s s' same suits = refl
answers-same options from (taking now key ∷ calls) bs cs s s' same (h, suits) =
    let T = take-IsTaken options now key bs (later-IsSane options from now bs h s) in
    let T' = take-IsTaken options now key cs (later-IsSane options from now cs h s') in
    let lv = same key now h in
    let agreed : (take options now key bs).1 ≡ (take options now key cs).1 =
      T.answer ∙ ap (leb one_token) lv ∙ sym T'.answer in
    let rest =
      answers-same options now calls (take options now key bs).0 (take options now key cs).0 T.sane
        T'.sane
        (λ other t k. elim (Bool-cases (str_eq key other)) [
          | inl own ↦ rw (← (eq_iff key other).0 own) (
              T.own t k
              ∙ ap (λ n. capped options (left_of n + (t - now) * options.refill_per_second)) lv
              ∙ sym (T'.own t k))
          | inr away ↦
              T.others other t (apart key other away)
              ∙ same other t (omega (arith, h, k))
              ∙ sym (T'.others other t (apart key other away))
        ])
        suits in
    ap (λ a. (key, a) ∷ answers options calls (take options now key bs).0) agreed
    ∙ ap (λ r. (key, (take options now key cs).1) ∷ r) rest
answers-same options from (pruning max_age_ms now ∷ calls) bs cs s s' same (h, enough, suits) =
    let (sane, kept) =
      prune-IsSane options max_age_ms now bs (later-IsSane options from now bs h s) enough in
    answers-same options now calls (prune max_age_ms now bs) cs sane
      (later-IsSane options from now cs h s')
      (λ key t k. kept key t k ∙ same key t (omega (arith, h, k))) suits

empty-IsSane : (options : RateLimitOptions) (from : ℕ) → IsSane options from []
empty-IsSane options from = record { distinct = tt; sound = λ key b there. cc }

-- To forget the buckets that were not used for a while changes no answer, when the age at which they
-- are forgotten is enough to fill one.
pub answers-takes_only :
    (options : RateLimitOptions) (from : ℕ) (calls : List Call)
    → Suits options from calls
    → answers options calls [] ≡ answers options (takes_only calls) []
answers-takes_only options from calls suits =
    answers-same options from calls [] [] (empty-IsSane options from) (empty-IsSane options from)
      (λ key t h. refl) suits

spread : (a b c r : ℕ) → a ≤ b → b ≤ c → (b - a) * r + (c - b) * r ≡ (c - a) * r
spread a b c r h k = grind arith

level_at-growth :
    (options : RateLimitOptions) (from now : ℕ) (key : String) (bs : Buckets)
    → IsSane options from bs
    → from ≤ now
    → level_at options now key bs
      ≤ level_at options from key bs + (now - from) * options.refill_per_second
unfolding level_at
level_at-growth options from now key bs s h = elim (Option-cases (get key bs)) [
  | inl absent ↦ rw absent (omega arith)
  | inr (b, there) ↦ rw there (
      let k = s.sound key b there in
      grown options b.tokens _ _ _
        (spread b.updated_at from now options.refill_per_second k.past h))
]
  where
    grown :
        (options : RateLimitOptions) (tokens x y z : ℕ)
        → x + y ≡ z
        → capped options (tokens + z) ≤ capped options (tokens + x) + y
    grown options tokens x y z e = ground arith

nil : (n r : ℕ) → (n - n) * r ≡ 0
nil n r = let e : n - n ≡ 0 = omega arith in rw e (omega arith)

under : (options : RateLimitOptions) (n : ℕ) → capped options (n + 0) ≤ n
under options n = ground arith

uncapped : (options : RateLimitOptions) (n now r : ℕ) → capped options (n + (now - now) * r) ≤ n
uncapped options n now r = let e : (now - now) * r ≡ 0 = nil now r in rw e (under options n)

kept :
    (n lv' lv lvf x y z : ℕ)
    → n * 1000000 ≤ lv' + y
    → lv' ≡ lv
    → lv ≤ lvf + x
    → x + y ≡ z
    → n * 1000000 ≤ lvf + z
kept n lv' lv lvf x y z a b c d = omega arith

spent :
    (n lv' lv lvf x y z : ℕ)
    → n * 1000000 ≤ lv' + y
    → lv' ≤ left_of lv
    → leb one_token lv ≡ true
    → lv ≤ lvf + x
    → x + y ≡ z
    → (n + 1) * 1000000 ≤ lvf + z
spent n lv' lv lvf x y z a b o c d = ground arith

refused :
    (n lv' lv lvf x y z : ℕ)
    → n * 1000000 ≤ lv' + y
    → lv' ≤ left_of lv
    → leb one_token lv ≡ false
    → lv ≤ lvf + x
    → x + y ≡ z
    → n * 1000000 ≤ lvf + z
refused n lv' lv lvf x y z a b o c d = ground arith

granted_from :
    (options : RateLimitOptions) (from : ℕ) (key : String) (calls : List Call) (bs : Buckets)
    → IsSane options from bs
    → Suits options from calls
    → (from ≤ last_instant from calls)
      × (granted key (answers options calls bs) * one_token
          ≤ level_at options from key bs
            + (last_instant from calls - from) * options.refill_per_second)
unfolding answers
granted_from options from key [] bs s suits = (omega arith, omega arith)
granted_from options from key (taking now k ∷ calls) bs s (h, suits) =
    let sane = later-IsSane options from now bs h s in
    let T = take-IsTaken options now k bs sane in
    let (up, ih) = granted_from options now key calls (take options now k bs).0 T.sane suits in
    let grows = level_at-growth options from now key bs s h in
    let whole = spread from now (last_instant now calls) options.refill_per_second h up in
    (
      omega (arith, h, up),
      elim (Bool-cases (str_eq k key)) [
        | inl own ↦
            let e = (eq_iff k key).0 own in
            let left : level_at options now key (take options now k bs).0
                ≤ left_of (level_at options now key bs) =
              rw (← e)
                (rw (T.own now (omega arith)) (uncapped options _ now options.refill_per_second)) in
            let answer : (take options now k bs).1 ≡ leb one_token (level_at options now key bs) =
              rw (← e) T.answer in
            elim (Bool-cases (leb one_token (level_at options now key bs))) [
              | inl one ↦
                  let yes = answer ∙ one in
                  rw (own, yes) (spent _ _ _ _ _ _ _ ih left one grows whole)
              | inr short ↦
                  let no = answer ∙ short in
                  rw (own, no) (refused _ _ _ _ _ _ _ ih left short grows whole)
            ]
        | inr away ↦
            let same = T.others key now (apart k key away) in
            rw away (kept _ _ _ _ _ _ _ ih same grows whole)
      ],
    )
granted_from options from key (pruning max_age_ms now ∷ calls) bs s (h, enough, suits) =
    let (sane, same) =
      prune-IsSane options max_age_ms now bs (later-IsSane options from now bs h s) enough in
    let (up, ih) = granted_from options now key calls (prune max_age_ms now bs) sane suits in
    let grows = level_at-growth options from now key bs s h in
    let whole = spread from now (last_instant now calls) options.refill_per_second h up in
    (omega (arith, h, up), kept _ _ _ _ _ _ _ ih (same key now (omega arith)) grows whole)

-- A key that was never seen is let through, between the first call and the last, at most its capacity
-- and what the time in between gives back, whatever the other keys do and however often the
-- table is pruned, when the age of pruning is enough to fill a bucket.
pub granted_bounds :
    (options : RateLimitOptions) (from : ℕ) (key : String) (calls : List Call)
    → Suits options from calls
    → granted key (answers options calls []) * one_token
      ≤ options.capacity + (last_instant from calls - from) * options.refill_per_second
unfolding level_at
granted_bounds options from key calls suits =
    (granted_from options from key calls [] (empty-IsSane options from) suits).1
