-- ===== src/Limiter/Levels.antt =====
-- What is left in a bucket as time goes by, in apps/hub-server/src/services/rate-limit.ts.
use conference_operator.Common.{
  ℕ, ◌+◌, ◌-◌, ◌*◌, ◌<◌, ◌≤◌, ◌≡◌, ◌≢◌, ◌⊎◌, inl, inr, refl, sym, ◌∙◌, String, Bool, true, false,
  Option, none, some, or_else, [], ◌∷◌, filter, ltb, leb, arith, str_eq, eq_iff, Bool-cases,
  Option-cases, if◌then◌else◌,
}
use conference_operator.Common.Maps.{get, set, get-set, get-set_other}
use conference_operator.Limiter.{
  RateLimitOptions, Bucket, Buckets, one_token, full, refilled, take, is_kept, prune,
}

-- No two entries have one key.
abbrev pub Distinct : Buckets → Type 0
Distinct [] = Unit
Distinct (e ∷ buckets) = (get e.0 buckets ≡ none) × Distinct buckets

get-filter-none :
    (p : String × Bucket → Bool) (key : String) (buckets : Buckets)
    → get key buckets ≡ none
    → get key (filter p buckets) ≡ none
get-filter-none p key [] h = refl
get-filter-none p key (e ∷ buckets) h = ground (arith, get-filter-none p key buckets)

filter-Distinct :
    (p : String × Bucket → Bool) (buckets : Buckets)
    → Distinct buckets
    → Distinct (filter p buckets)
filter-Distinct p [] d = tt
filter-Distinct p (e ∷ buckets) (fresh, d) = elim (Bool-cases (p e)) [
  | inl kept ↦ rw kept (get-filter-none p e.0 buckets fresh, filter-Distinct p buckets d)
  | inr dropped ↦ rw dropped (filter-Distinct p buckets d)
]

set-Distinct :
    (key : String) (b : Bucket) (buckets : Buckets)
    → Distinct buckets
    → Distinct (set key b buckets)
unfolding set
set-Distinct key b [] d = (refl, tt)
set-Distinct key b (e ∷ buckets) (fresh, d) = elim (Bool-cases (str_eq e.0 key)) [
  | inl same ↦ rw same (rw ((eq_iff e.0 key).0 same) at fresh, d)
  | inr other ↦ rw other (
    get-set_other key e.0 b buckets (λ s. apart e.0 key other (sym s)) ∙ fresh,
    set-Distinct key b buckets d,
  )
]
  where
    apart : (s t : String) → str_eq s t ≡ false → s ≢ t
    apart s t h = ground (arith, eq_iff s t)

-- An entry is kept or dropped with its key.
get-filter :
    (p : String × Bucket → Bool) (key : String) (buckets : Buckets) (b : Bucket)
    → Distinct buckets
    → get key buckets ≡ some b
    → ((get key (filter p buckets) ≡ some b) × (p (key, b) ≡ true))
      ⊎ ((get key (filter p buckets) ≡ none) × (p (key, b) ≡ false))
get-filter p key [] b d h = cc
get-filter p key ((k, c) ∷ buckets) b (fresh, d) h = elim (Bool-cases (str_eq k key)) [
  | inl own ↦
      let here : some c ≡ some b = rw own at h in
      let it : p (k, c) ≡ p (key, b) = it_is p k key c b ((eq_iff k key).0 own) cc in
      let gone : get key buckets ≡ none = rw ((eq_iff k key).0 own) at fresh in
      elim (Bool-cases (p (k, c))) [
        | inl kept ↦ inl (rw (kept, own) here, sym it ∙ kept)
        | inr dropped ↦ inr (rw dropped (get-filter-none p key buckets gone), sym it ∙ dropped)
      ]
  | inr other ↦
      let later : get key buckets ≡ some b = rw other at h in
      elim (Bool-cases (p (k, c))) [
        | inl kept ↦ rw (kept, other) (get-filter p key buckets b d later)
        | inr dropped ↦ rw dropped (get-filter p key buckets b d later)
      ]
]
  where
    it_is :
        (p : String × Bucket → Bool) (k key : String) (c b : Bucket)
        → k ≡ key
        → c ≡ b
        → p (k, c) ≡ p (key, b)
    it_is p k key c b e f = rw (e, f) refl

-- What a clock that does not go back leaves in a bucket.
pub record IsSound (options : RateLimitOptions) (now : ℕ) (b : Bucket) : Type 0 where
  pub none_owed : b.owed ≡ 0
  pub past : b.updated_at ≤ now
  pub below : b.tokens ≤ options.capacity

pub record IsSane (options : RateLimitOptions) (now : ℕ) (buckets : Buckets) : Type 0 where
  pub distinct : Distinct buckets
  pub sound : (key : String) (b : Bucket) → get key buckets ≡ some b → IsSound options now b

abbrev pub capped : RateLimitOptions → ℕ → ℕ
capped options n = if leb options.capacity n then options.capacity else n

abbrev pub level : RateLimitOptions → ℕ → Option Bucket → ℕ
level options t none = options.capacity
level options t (some b) =
    capped options (b.tokens + (t - b.updated_at) * options.refill_per_second)

-- What is left for a key at an instant.
unfoldable pub level_at : RateLimitOptions → ℕ → String → Buckets → ℕ
level_at options t key buckets = level options t (get key buckets)

refilled-IsSound :
    (options : RateLimitOptions) (now : ℕ) (b : Bucket)
    → IsSound options now b
    → IsSound options now (refilled options now b)
      × ((refilled options now b).tokens ≡ level options now (some b))
      × ((refilled options now b).updated_at ≡ now)
refilled-IsSound options now b s =
    let r = options.refill_per_second in
    let tokens = b.tokens + (now - b.updated_at) * r in
    let zero_owed : b.owed + (b.updated_at - now) * r ≡ 0 = none_left _ _ _ r s.none_owed s.past in
    elim (Bool-cases (leb options.capacity tokens)) [
      | inl over ↦
          let over' : leb (options.capacity + 0) tokens ≡ true = ground (arith, over) in
          rw (zero_owed, over', over)
            (record { none_owed = refl; past = omega arith; below = omega arith }, refl, refl)
      | inr under ↦
          let under' : leb (options.capacity + 0) tokens ≡ false = ground (arith, under) in
          rw (zero_owed, under', under)
            (
              record { none_owed = refl; past = omega arith; below = ground (arith, under) },
              refl,
              refl,
            )
    ]
  where
    none_left : (owed at now r : ℕ) → owed ≡ 0 → at ≤ now → owed + (at - now) * r ≡ 0
    none_left owed at now r h k = let e : at - now ≡ 0 = omega (arith, k) in rw (h, e) (omega arith)

-- One token less, when one is left.
abbrev pub left_of : ℕ → ℕ
left_of n = if leb one_token n then n - one_token else n

capped-over :
    (options : RateLimitOptions) (n : ℕ) → capped options (options.capacity + n) ≡ options.capacity
capped-over options n = ground arith

or_full-IsSound :
    (options : RateLimitOptions) (now : ℕ) (key : String) (buckets : Buckets)
    → IsSane options now buckets
    → IsSound options now (or_else (get key buckets) (full options now))
      × (level options now (some (or_else (get key buckets) (full options now)))
          ≡ level_at options now key buckets)
unfolding level_at
or_full-IsSound options now key buckets s = elim (Option-cases (get key buckets)) [
  | inl absent ↦
      rw (absent, level_at)
        (
          record { none_owed = refl; past = omega arith; below = omega arith },
          capped-over options ((now - now) * options.refill_per_second),
        )
  | inr (b, there) ↦ rw (there, level_at) (s.sound key b there, refl)
]

pub later-IsSane :
    (options : RateLimitOptions) (from now : ℕ) (buckets : Buckets)
    → from ≤ now
    → IsSane options from buckets
    → IsSane options now buckets
later-IsSane options from now buckets h s = record {
  distinct = s.distinct;
  sound = λ key b there.
      let k = s.sound key b there in
      record { none_owed = k.none_owed; past = let q = k.past in omega arith; below = k.below };
}

-- What an answer is, and what it leaves to its key and to the others.
pub record IsTaken (options : RateLimitOptions) (now : ℕ) (key : String)
    (buckets buckets' : Buckets) (allowed : Bool) : Type 0 where
  pub sane : IsSane options now buckets'
  pub answer : allowed ≡ leb one_token (level_at options now key buckets)
  pub own :
      (t : ℕ)
      → now ≤ t
      → level_at options t key buckets'
        ≡ capped options
            (left_of (level_at options now key buckets) + (t - now) * options.refill_per_second)
  pub others :
      (other : String) (t : ℕ)
      → key ≢ other
      → level_at options t other buckets' ≡ level_at options t other buckets

set-IsSane :
    (options : RateLimitOptions) (now : ℕ) (key : String) (b : Bucket) (buckets : Buckets)
    → IsSane options now buckets
    → IsSound options now b
    → IsSane options now (set key b buckets)
set-IsSane options now key b buckets s k = record {
  distinct = set-Distinct key b buckets s.distinct;
  sound = λ other c there. elim (Bool-cases (str_eq key other)) [
    | inl own ↦
        let here : get key (set key b buckets) ≡ some c =
          rw (sym ((eq_iff key other).0 own)) at there in
        let same : some b ≡ some c = sym (get-set key b buckets) ∙ here in
        let e : b ≡ c = cc in rw (← e) k
    | inr away ↦
        s.sound other c (sym (get-set_other key other b buckets (apart key other away)) ∙ there)
  ];
}
  where
    apart : (s t : String) → str_eq s t ≡ false → s ≢ t
    apart s t h = ground (arith, eq_iff s t)

set-IsTaken :
    (options : RateLimitOptions) (now : ℕ) (key : String) (b : Bucket) (buckets : Buckets)
    (allowed : Bool)
    → IsSane options now buckets
    → IsSound options now b
    → b.updated_at ≡ now
    → b.tokens ≡ left_of (level_at options now key buckets)
    → allowed ≡ leb one_token (level_at options now key buckets)
    → IsTaken options now key buckets (set key b buckets) allowed
unfolding level_at
set-IsTaken options now key b buckets allowed s k at_now left answer = record {
  sane = set-IsSane options now key b buckets s k;
  answer = answer;
  own = λ t h. rw (get-set key b buckets, at_now, left, level_at) refl;
  others = λ other t ne. rw (get-set_other key other b buckets ne, level_at) refl;
}

spend-IsTaken :
    (options : RateLimitOptions) (now : ℕ) (key : String) (buckets : Buckets) (b : Bucket)
    → IsSane options now buckets
    → IsSound options now b
    → b.updated_at ≡ now
    → b.tokens ≡ level_at options now key buckets
    → let after : Buckets × Bool =
        if ltb b.tokens (one_token + b.owed)
        then (set key b buckets, false)
        else (set key (record b { tokens = b.tokens - one_token }) buckets, true) in
      IsTaken options now key buckets after.0 after.1
spend-IsTaken options now key buckets b s k at_now left =
    let clear : b.owed ≡ 0 = k.none_owed in
    elim (Bool-cases (ltb b.tokens (one_token + b.owed))) [
      | inl short ↦
          let none_left : leb one_token b.tokens ≡ false = ground arith in
          rw short (
            set-IsTaken options now key b buckets false s k at_now
              (left ∙ sym (rw (sym left, none_left) refl)) (sym (rw (sym left) none_left)))
      | inr one ↦
          let some_left : leb one_token b.tokens ≡ true = ground arith in
          let b' : Bucket = record b { tokens = b.tokens - one_token } in
          let k' : IsSound options now b' = record {
            none_owed = clear;
            past = k.past;
            below = let q = k.below in omega arith;
          } in
          rw one (
            set-IsTaken options now key b' buckets true s k' at_now
              (sym (rw (sym left, some_left) refl)) (sym (rw (sym left) some_left)))
    ]

pub take-IsTaken :
    (options : RateLimitOptions) (now : ℕ) (key : String) (buckets : Buckets)
    → IsSane options now buckets
    → IsTaken options now key buckets
        (take options now key buckets).0
        (take options now key buckets).1
unfolding take
take-IsTaken options now key buckets s =
    let (k, lv) = or_full-IsSound options now key buckets s in
    let b = or_else (get key buckets) (full options now) in
    let (k', lv', at_now) = refilled-IsSound options now b k in
    spend-IsTaken options now key buckets (refilled options now b) s k' at_now (lv' ∙ lv)

pub prune-IsSane :
    (options : RateLimitOptions) (max_age_ms now : ℕ) (buckets : Buckets)
    → IsSane options now buckets
    → options.capacity ≤ max_age_ms * options.refill_per_second
    → IsSane options now (prune max_age_ms now buckets)
      × ((key : String) (t : ℕ)
          → now ≤ t
          → level_at options t key (prune max_age_ms now buckets) ≡ level_at options t key buckets)
unfolding prune level_at
prune-IsSane options max_age_ms now buckets s enough = (
  record {
    distinct = filter-Distinct (is_kept max_age_ms now) buckets s.distinct;
    sound = λ key b there. elim (Option-cases (get key buckets)) [
      | inl absent ↦
          absurd (nothing there (get-filter-none (is_kept max_age_ms now) key buckets absent))
      | inr (c, was) ↦ elim (get-filter (is_kept max_age_ms now) key buckets c s.distinct was) [
        | inl (same, kept) ↦ let e : c ≡ b = cc in rw (← e) (s.sound key c was)
        | inr (gone, dropped) ↦ absurd (nothing there gone)
      ]
    ];
  },
  λ key t h. elim (Option-cases (get key buckets)) [
    | inl absent ↦ rw (absent, get-filter-none (is_kept max_age_ms now) key buckets absent) refl
    | inr (c, was) ↦ elim (get-filter (is_kept max_age_ms now) key buckets c s.distinct was) [
      | inl (same, kept) ↦ rw (was, same) refl
      | inr (gone, dropped) ↦
          let old : max_age_ms < now - c.updated_at = ground arith in
          rw (was, gone) (sym (long_ago options _ _ (more _ _ _ _ _ _ old h enough)))
    ]
  ],
)
  where
    nothing : {o : Option Bucket} {b : Bucket} → o ≡ some b → o ≡ none → ⊥
    nothing e f = cc

    long_ago :
        (options : RateLimitOptions) (n tokens : ℕ)
        → options.capacity ≤ n
        → capped options (tokens + n) ≡ options.capacity
    long_ago options n tokens h = ground arith

    more : (age now at t r cap : ℕ) → age < now - at → now ≤ t → cap ≤ age * r → cap ≤ (t - at) * r
    more age now at t r cap h k e = grind arith
