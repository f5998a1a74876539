-- ===== src/Breaks/Free.antt =====
-- What a programme gains from the breaks that packages/program/src/shared-breaks.ts shares.
use conference_operator.Common.{
  ℕ, ◌≡◌, ◌⊎◌, ◌↔◌, inl, inr, refl, String, Bool, true, false, ◌||◌, some, List, [], ◌∷◌, ◌++◌,
  arith, filter, leb, In, In-append, In-filter, Bool-cases, Option-cases, length,
}
use conference_operator.Breaks.{
  Session, Program, Ended, in_room, with_ends, overlaps, taken, is_room_break, has_seen, key_of,
  copy_of, inherit, inherit_all, SlotKey, insert_session, sort_sessions, sorts_before, re_sorted,
  apply_shared_breaks,
}

-- A break of another room whose end is known, and the room is free all along.
pub record IsShared (all : List Ended) (room_id : String) (s : Session) : Type 0 where
  pub origin : Ended
  pub there : In origin all
  pub is_a_break : is_room_break origin ≡ true
  pub end_ms : ℕ
  pub end_known : origin.end_ms ≡ some end_ms
  pub elsewhere : in_room room_id origin.session ≡ false
  pub free :
      (o : Ended)
      → In o all
      → in_room room_id o.session ≡ true
      → overlaps o origin.session.slot.starts_at_ms end_ms ≡ false
  pub copied : s ≡ copy_of origin room_id

taken-false :
    (room_id : String) (start break_end : ℕ) (all : List Ended) (o : Ended)
    → taken room_id start break_end all ≡ false
    → In o all
    → in_room room_id o.session ≡ true
    → overlaps o start break_end ≡ false
unfolding taken
taken-false room_id start break_end [] o h m ours = elim m [ ]
taken-false room_id start break_end (p ∷ all) o h (inl same) ours =
    let here : in_room room_id p.session ≡ true = rw (← same) ours in rw same (ground arith)
taken-false room_id start break_end (p ∷ all) o h (inr m) ours =
    taken-false room_id start break_end all o (ground arith) m ours

inherit-IsShared :
    (room_id : String) (all breaks : List Ended) (seen : List SlotKey) (s : Session)
    → ((b : Ended) → In b breaks → In b all × (is_room_break b ≡ true))
    → In s (inherit room_id all breaks seen)
    → IsShared all room_id s
unfolding inherit
inherit-IsShared room_id all [] seen s from m = elim m [ ]
inherit-IsShared room_id all (b ∷ breaks) seen s from m = elim (Option-cases b.end_ms) [
  | inl unknown ↦
      inherit-IsShared room_id all breaks seen s (λ c n. from c (inr n))
        (rw (unknown, inherit) at m)
  | inr (end, known) ↦
      elim (Bool-cases (
        in_room room_id b.session
        || (has_seen seen (key_of b end) || taken room_id b.session.slot.starts_at_ms end all))) [
          | inl skip ↦
              inherit-IsShared room_id all breaks seen s (λ c n. from c (inr n))
                (rw (known, skip, inherit) at m)
          | inr shared ↦
              let m' : (s ≡ copy_of b room_id)
                  ⊎ In s (inherit room_id all breaks (key_of b end ∷ seen)) =
                rw (known, shared, inherit) at m in
              elim m' [
                | inl same ↦
                    let (there, is_a_break) = from b (inl refl) in
                    let free : taken room_id b.session.slot.starts_at_ms end all ≡ false =
                      ground arith in
                    record {
                      origin = b;
                      there = there;
                      is_a_break = is_a_break;
                      end_ms = end;
                      end_known = known;
                      elsewhere = ground arith;
                      free = λ o n ours.
                          taken-false room_id b.session.slot.starts_at_ms end all o free n ours;
                      copied = same;
                    }
                | inr n ↦
                    inherit-IsShared room_id all breaks (key_of b end ∷ seen) s
                      (λ c k. from c (inr k)) n
              ]
        ]
]

inherit_all-IsShared :
    (rooms : List String) (all : List Ended) (s : Session)
    → In s (inherit_all rooms all)
    → (room_id : String) × In room_id rooms × IsShared all room_id s
unfolding inherit_all
inherit_all-IsShared [] all s m = elim m [ ]
inherit_all-IsShared (room_id ∷ rooms) all s m =
    elim ((In-append (inherit room_id all (filter is_room_break all) []) (inherit_all rooms all)
        s).0
      m) [
        | inl here ↦ (
          room_id,
          inl refl,
          inherit-IsShared room_id all (filter is_room_break all) [] s
              (λ b n. (In-filter is_room_break all b).0 n) here,
        )
        | inr later ↦
            let (r, there, shared) = inherit_all-IsShared rooms all s later in
            (r, inr there, shared)
      ]

module _ (before : String → String → Bool) where
  insert_session-In :
      (s t : Session) (sessions : List Session)
      → In t (insert_session before s sessions) ↔ ((t ≡ s) ⊎ In t sessions)
  unfolding insert_session
  insert_session-In s t [] = (λ m. m, λ m. m)
  insert_session-In s t (u ∷ sessions) = elim (Bool-cases (sorts_before before s u)) [
    | inl sooner ↦ rw (sooner, insert_session) (λ m. m, λ m. m)
    | inr later ↦
        let rest = insert_session-In s t sessions in
        rw (later, insert_session)
          (
            λ m. elim m [
              | inl here ↦ inr (inl here)
              | inr n ↦ elim (rest.0 n) [ inl new ↦ inl new | inr old ↦ inr (inr old) ]
            ],
            λ m. elim m [
              | inl new ↦ inr (rest.1 (inl new))
              | inr (inl here) ↦ inl here
              | inr (inr old) ↦ inr (rest.1 (inr old))
            ],
          )
  ]

  sort_sessions-In :
      (t : Session) (sessions : List Session) → In t (sort_sessions before sessions) ↔ In t sessions
  unfolding sort_sessions
  sort_sessions-In t [] = (λ m. m, λ m. m)
  sort_sessions-In t (s ∷ sessions) =
      let one = insert_session-In s t (sort_sessions before sessions) in
      let rest = sort_sessions-In t sessions in
      (
        λ m. elim (one.0 m) [ inl new ↦ inl new | inr old ↦ inr (rest.0 old) ],
        λ m. elim m [ inl new ↦ one.1 (inl new) | inr old ↦ one.1 (inr (rest.1 old)) ],
      )

  re_sorted-In :
      (program : Program) (added : List Session) (s : Session)
      → In s (re_sorted before program added).sessions ↔ (In s program.sessions ⊎ In s added)
  re_sorted-In program [] s =
      (λ m. inl m, λ m. elim m [ inl old ↦ old | inr absent ↦ absurd absent ])
  re_sorted-In program (a ∷ added) s =
      let sorted = sort_sessions-In s (program.sessions ++ (a ∷ added)) in
      let both = In-append program.sessions (a ∷ added) s in
      (λ m. both.0 (sorted.0 m), λ m. sorted.1 (both.1 m))

  -- The programme keeps every session it had, and what it gains are copies of breaks: in a room of the
  -- programme, of a break that another room holds, whose end is known, and during which no session
  -- of the room, whatever its end, is under way.
  pub apply_shared_breaks-IsShared :
      (program : Program) (s : Session)
      → (In s program.sessions → In s (apply_shared_breaks before program).sessions)
        × (In s (apply_shared_breaks before program).sessions
            → In s program.sessions
              ⊎ ((room_id : String) × In room_id program.rooms
                  × IsShared (with_ends program.sessions) room_id s))
  unfolding apply_shared_breaks
  apply_shared_breaks-IsShared program s =
      let all = with_ends program.sessions in
      elim (Bool-cases
        (leb (length (filter is_room_break all)) 0 || leb (length program.rooms) 1)) [
          | inl alone ↦ rw (alone, apply_shared_breaks) (λ m. m, λ m. inl m)
          | inr several ↦
              let both = re_sorted-In program (inherit_all program.rooms all) s in
              rw (several, apply_shared_breaks)
                (
                  λ m. both.1 (inl m),
                  λ m. elim (both.0 m) [
                    | inl old ↦ inl old
                    | inr new ↦ inr (inherit_all-IsShared program.rooms all s new)
                  ],
                )
        ]
