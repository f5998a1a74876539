-- ===== src/Command/Steps.antt =====
-- How the publications and the turns of the generator `stream` of
-- apps/hub-server/src/services/commands.ts follow one another.
use conference_operator.Common.{
  ℕ, ◌≤◌, ◌<◌, ◌≡◌, ◌⊎◌, inl, inr, refl, ap, String, true, false, ◌&&◌, Option, List, [], ◌∷◌, ◌++◌,
  arith, All, Pairwise, In, ltb,
}
use conference_operator.Command.{
  CommandPayload, Command, Dispatched, Bus, is_for, dispatched, insert, picked, backlog_after, Flow,
  subscribe, emit, read_backlog, yield_pending, deliver,
}

abbrev pub Ascending : List Dispatched → Type 0
Ascending = Pairwise (λ a b. a.command.seq < b.command.seq)

pub record IsTable (b : Bus) : Type 0 where
  pub ascending : Ascending b.rows
  pub below : All (λ d. d.command.seq < b.next_seq) b.rows

-- The number that the next event must pass once the first loop is over.
abbrev pub last_of : ℕ → List Command → ℕ
last_of n [] = n
last_of n (c ∷ cs) = last_of c.seq cs

module _ (room_id : String) (since_seq : ℕ) where
  -- What can happen next to the bus and to one flow.
  pub data Step : Bus → Flow → Bus → Flow → Type 0 where
    publishes :
        (b : Bus) (f : Flow) (target : Option String) (payload : CommandPayload)
        (ttl_seconds : Option ℕ) (now_ms : ℕ)
        → Step b f
            (insert (dispatched target payload ttl_seconds now_ms b) b)
            (emit (dispatched target payload ttl_seconds now_ms b) f)
    reads :
        (b : Bus) (f : Flow) → f.caught_up ≡ false → Step b f b (read_backlog room_id since_seq b f)
    yields :
        (b : Bus) (f : Flow) (c : Command) (rest : List Command)
        → f.caught_up ≡ true
        → f.pending ≡ c ∷ rest
        → Step b f b (yield_pending c rest f)
    delivers :
        (b : Bus) (f : Flow) (d : Dispatched) (rest : List Dispatched)
        → f.caught_up ≡ true
        → f.pending ≡ []
        → f.live ≡ d ∷ rest
        → Step b f b (deliver room_id d rest f)

  pub data Reach (b : Bus) : Bus → Flow → Type 0 where
    opened : Reach b b (subscribe since_seq)
    next : {c e : Bus} {f g : Flow} → Reach b c f → Step c f e g → Reach b e g

  pub record IsTracking (b : Bus) (f : Flow) : Type 0 where
    pub table : IsTable b
    pub live_ascending : Ascending f.live
    pub live_in : All (λ d. In d b.rows) f.live
    pub unread :
        f.caught_up ≡ false → (f.yielded ≡ []) × (f.pending ≡ []) × (f.last_seq ≡ since_seq)
    pub mark :
        (last_of f.last_seq f.pending ≡ since_seq)
        ⊎ ((since_seq < last_of f.last_seq f.pending) × (last_of f.last_seq f.pending < b.next_seq))
    pub told :
        f.caught_up ≡ true
        → f.yielded ++ (f.pending ++ picked room_id (last_of f.last_seq f.pending) f.live)
          ≡ backlog_after room_id since_seq b

pub append_assoc : {A : Type 0} (xs ys zs : List A) → (xs ++ ys) ++ zs ≡ xs ++ (ys ++ zs)
append_assoc [] ys zs = refl
append_assoc (x ∷ xs) ys zs = ap (λ l. x ∷ l) (append_assoc xs ys zs)

pub append_nil : {A : Type 0} (xs : List A) → xs ++ [] ≡ xs
append_nil [] = refl
append_nil (x ∷ xs) = ap (λ l. x ∷ l) (append_nil xs)

module _ (room_id : String) where
  pub picked-append :
      (n : ℕ) (xs ys : List Dispatched)
      → picked room_id n (xs ++ ys) ≡ picked room_id n xs ++ picked room_id n ys
  picked-append n [] ys = refl
  picked-append n (x ∷ xs) ys = ground (arith, picked-append n xs ys)

  pub picked_none :
      (n : ℕ) (ds : List Dispatched)
      → All (λ d. (is_for room_id d && ltb n d.command.seq) ≡ false) ds
      → picked room_id n ds ≡ []
  picked_none n [] h = refl
  picked_none n (d ∷ ds) h = ground (arith, picked_none n ds h.1, h.0)

  pub picked_above :
      (n m : ℕ) (ds : List Dispatched)
      → n ≤ m
      → All (λ d. m < d.command.seq) ds
      → picked room_id n ds ≡ picked room_id m ds
  picked_above n m [] l h = refl
  picked_above n m (d ∷ ds) l h = ground (arith, picked_above n m ds l h.1, h.0)

  pub picked_one :
      (n m : ℕ) (d : Dispatched)
      → (n ≡ m) ⊎ ((m < n) × (n < d.command.seq))
      → picked room_id n (d ∷ []) ≡ picked room_id m (d ∷ [])
  picked_one n m d (inl e) = rw e refl
  picked_one n m d (inr (l, h)) = ground arith

pub last_bounds :
    (since_seq n limit : ℕ) (cs : List Command)
    → All (λ c. (since_seq < c.seq) × (c.seq < limit)) cs
    → (last_of n cs ≡ n) ⊎ ((since_seq < last_of n cs) × (last_of n cs < limit))
last_bounds since_seq n limit [] h = inl refl
last_bounds since_seq n limit (c ∷ cs) h = elim (last_bounds since_seq c.seq limit cs h.1) [
  | inl e ↦ inr (rw e h.0)
  | inr p ↦ inr p
]

pub last_above :
    (n : ℕ) (cs : List Command)
    → Pairwise (λ a b. a.seq < b.seq) cs
    → All (λ c. n < c.seq) cs
    → n ≤ last_of n cs
last_above n [] p h = omega arith
last_above n (c ∷ cs) p h = omega (arith, last_above c.seq cs p.1 p.0, h.0)

pub last_max :
    (n : ℕ) (cs : List Command)
    → Pairwise (λ a b. a.seq < b.seq) cs
    → All (λ c. c.seq ≤ last_of n cs) cs
last_max n [] p = tt
last_max n (c ∷ cs) p = (last_above c.seq cs p.1 p.0, last_max c.seq cs p.1)
