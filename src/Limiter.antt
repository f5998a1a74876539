-- ===== src/Limiter.antt =====
-- apps/hub-server/src/services/rate-limit.ts, and its copy apps/mur-public/src/rate-limit.ts: a bucket
-- of tokens for each key. Tokens are counted in millionths, and what a second gives back in
-- thousandths of a token, so that a millisecond gives back a whole number of millionths.
pub mod Levels
pub mod Runs
use conference_operator.Common.{
  ℕ, ◌+◌, ◌-◌, ◌*◌, ◌<◌, ◌≤◌, String, Bool, true, false, not, Option, none, some, or_else, List, [],
  ◌∷◌, filter, ltb, leb, if◌then◌else◌,
}
use conference_operator.Common.Maps.{get, set}

pub record RateLimitOptions : Type 0 where
  pub capacity : ℕ
  pub refill_per_second : ℕ

-- What is left is `tokens` less `owed`: a clock that goes back takes tokens away, and what is left may
-- be negative.
pub record Bucket : Type 0 where
  pub tokens : ℕ
  pub owed : ℕ
  pub updated_at : ℕ

abbrev pub one_token : ℕ
one_token = 1000000

abbrev pub full : RateLimitOptions → ℕ → Bucket
full options now = record { tokens = options.capacity; owed = 0; updated_at = now }

-- What is gained since the last call, no more than the capacity.
abbrev pub refilled : RateLimitOptions → ℕ → Bucket → Bucket
refilled options now b =
    let tokens = b.tokens + (now - b.updated_at) * options.refill_per_second in
    let owed = b.owed + (b.updated_at - now) * options.refill_per_second in
    if leb (options.capacity + owed) tokens
    then full options now
    else record { tokens = tokens; owed = owed; updated_at = now }

abbrev pub Buckets : Type 0
Buckets = List (String × Bucket)

unfoldable pub take : RateLimitOptions → ℕ → String → Buckets → Buckets × Bool
take options now key buckets =
    let b = refilled options now (or_else (get key buckets) (full options now)) in
    if ltb b.tokens (one_token + b.owed)
    then (set key b buckets, false)
    else (set key (record b { tokens = b.tokens - one_token }) buckets, true)

abbrev pub is_kept : ℕ → ℕ → String × Bucket → Bool
is_kept max_age_ms now e = not (ltb max_age_ms (now - e.1.updated_at))

unfoldable pub prune : ℕ → ℕ → Buckets → Buckets
prune max_age_ms now buckets = filter (is_kept max_age_ms now) buckets

pub data Call : Type 0 where
  taking : ℕ → String → Call
  pruning : ℕ → ℕ → Call

-- The answers of a sequence of calls, with their keys.
unfoldable pub answers : RateLimitOptions → List Call → Buckets → List (String × Bool)
answers options [] buckets = []
answers options (taking now key ∷ calls) buckets =
    let (buckets', allowed) = take options now key buckets in
    (key, allowed) ∷ answers options calls buckets'
answers options (pruning max_age_ms now ∷ calls) buckets =
    answers options calls (prune max_age_ms now buckets)
