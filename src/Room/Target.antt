-- ===== src/Room/Target.antt =====
-- The talk a room drives: `talkToControl`, `talkOnAir` and `nextTalk` of
-- packages/room-state/src/state.ts.
use conference_operator.Common.{
  refl, ◌⊎◌, ◌↔◌, ℕ, ◌<◌, ◌≤◌, ◌≡◌, ◌≢◌, sym, ap, ◌∙◌, Bool, not, ◌&&◌, ltb, leb, get_elem?, String,
  true, false, Option, some, none, List, arith, Bool-cases, Option-cases, inl, inr,
}
use conference_operator.Schedule.{talk, Slot, Placed, placed, timeline_position}
use conference_operator.Schedule.Search.{
  IsAt, find-some, find-before, find-none, find_from, find_last-some, find_last-after,
  find_last_from,
}
use conference_operator.Lifecycle.{running, is_ended}
use conference_operator.Room.{
  SessionStatuses, depassement, pinned_slot, state_of_slots, is_talk, runs, open_or_next, next_talk,
  talk_to_control,
}
use conference_operator.Room.Overrun.{depassement_iff}

module _ (slots : List Slot) (now_ms : ℕ) (statuses : SessionStatuses) where
  pub record IsOnAir (p : Placed) : Type 0 where
    pub there : IsAt slots p
    pub is_a_talk : p.slot.kind ≡ talk
    pub live : statuses p.slot.id ≡ some running

  pub record IsToCome (p : Placed) : Type 0 where
    pub there : IsAt slots p
    pub is_a_talk : p.slot.kind ≡ talk
    pub ahead : now_ms < p.slot.starts_at_ms
    pub open_still : is_ended (statuses p.slot.id) ≡ false

  -- The clock stands on no talk.
  abbrev pub NoTalkNow : Type 0
  NoTalkNow = (c : Placed) → (timeline_position slots now_ms).current ≡ some c → c.slot.kind ≢ talk

  -- Why the slot `p` is the one that the room drives: each reason supposes that those above it fail.
  pub data IsTarget (pinned_id : Option String) (p : Placed) : Type 0 where
    forced : pinned_slot slots statuses pinned_id ≡ some p → IsTarget pinned_id p
    on_the_clock :
        pinned_slot slots statuses pinned_id ≡ none
        → (timeline_position slots now_ms).current ≡ some p
        → p.slot.kind ≡ talk
        → IsTarget pinned_id p
    still_on_air :
        pinned_slot slots statuses pinned_id ≡ none
        → NoTalkNow
        → IsOnAir p
        → ((q : Placed) → IsOnAir q → q.place ≤ p.place)
        → IsTarget pinned_id p
    to_come :
        pinned_slot slots statuses pinned_id ≡ none
        → NoTalkNow
        → ((q : Placed) → ¬ IsOnAir q)
        → IsToCome p
        → ((q : Placed) → IsToCome q → p.place ≤ q.place)
        → IsTarget pinned_id p

  same_place : {p q : Placed} → IsAt slots p → IsAt slots q → p.place ≡ q.place → p ≡ q
  same_place {p} {q} a b e =
      let a' : get_elem? slots q.place ≡ some p.slot = rw e at a in
      let s : some p.slot ≡ some q.slot = sym a' ∙ b in
      let f : p.slot ≡ q.slot = cc in ap (λ i. placed i p.slot) e ∙ ap (placed q.place) f

  runs-IsOnAir : (p : Placed) → IsOnAir p ↔ (IsAt slots p × (runs statuses p ≡ true))
  runs-IsOnAir p = (
    λ h. (h.there, let k = h.is_a_talk in let l = h.live in ground (arith, k, l)),
    λ h. record {
      there = h.0;
      is_a_talk = let k = h.1 in ground arith;
      live = let k = h.1 in ground arith;
    },
  )

  abbrev comes : Placed → Bool
  comes p =
      is_talk p.slot.kind && ltb now_ms p.slot.starts_at_ms && not (is_ended (statuses p.slot.id))

  comes-IsToCome : (p : Placed) → IsToCome p ↔ (IsAt slots p × (comes p ≡ true))
  comes-IsToCome p = (
    λ h. (
      h.there,
      let k = h.is_a_talk in let l = h.ahead in let m = h.open_still in ground (arith, k, l, m),
    ),
    λ h.
        let k = h.1 in
        record {
          there = h.0;
          is_a_talk = ground arith;
          ahead = ground arith;
          open_still = ground arith;
        },
  )

  find_last-exactly :
      (p : Placed)
      → (find_last_from 0 (runs statuses) slots ≡ some p)
        ↔ (IsOnAir p × ((q : Placed) → IsOnAir q → q.place ≤ p.place))
  find_last-exactly p = (
    λ h. (
      (runs-IsOnAir p).1 (find_last-some (runs statuses) slots h),
      λ q on_air.
          let (there, t) = (runs-IsOnAir q).0 on_air in
          let (r, found, l) = find_last-after (runs statuses) slots there t in
          let same : some r ≡ some p = sym found ∙ h in
          let e : r ≡ p = cc in
          let n : r.place ≡ p.place = ap (λ (x : Placed). x.place) e in omega (arith, l, n),
    ),
    λ h.
        let (there, t) = (runs-IsOnAir p).0 h.0 in
        let (r, found, l) = find_last-after (runs statuses) slots there t in
        let back = find_last-some (runs statuses) slots found in
        let k = h.1 r ((runs-IsOnAir r).1 back) in
        found ∙ ap some (same_place back.0 there (omega (arith, k, l))),
  )

  find_last-nothing : (find_last_from 0 (runs statuses) slots ≡ none) ↔ ((q : Placed) → ¬ IsOnAir q)
  find_last-nothing = (
    λ h q on_air.
        let (there, t) = (runs-IsOnAir q).0 on_air in
        let (r, found, l) = find_last-after (runs statuses) slots there t in ground arith,
    λ h. elim (Option-cases (find_last_from 0 (runs statuses) slots)) [
      | inl missing ↦ missing
      | inr (r, found) ↦
          absurd (h r ((runs-IsOnAir r).1 (find_last-some (runs statuses) slots found)))
    ],
  )

  next_talk-exactly :
      (p : Placed)
      → (next_talk slots now_ms statuses ≡ some p)
        ↔ (IsToCome p × ((q : Placed) → IsToCome q → p.place ≤ q.place))
  unfolding next_talk
  next_talk-exactly p = (
    λ h. (
      (comes-IsToCome p).1 (find-some comes slots h),
      λ q soon. elim (Bool-cases (leb p.place q.place)) [
        | inl below ↦ ground arith
        | inr above ↦
            let (there, t) = (comes-IsToCome q).0 soon in
            let f = find-before comes slots h there (ground arith) in absurd (ground arith)
      ],
    ),
    λ h. elim (Option-cases (find_from 0 comes slots)) [
      | inl missing ↦
          let (there, t) = (comes-IsToCome p).0 h.0 in
          let f = find-none comes slots missing there in absurd (ground arith)
      | inr (r, found) ↦
          let (there, t) = (comes-IsToCome p).0 h.0 in
          let back = find-some comes slots found in
          let below = h.1 r ((comes-IsToCome r).1 back) in
          elim (Bool-cases (leb r.place p.place)) [
            | inl near ↦ found ∙ ap some (same_place back.0 there (ground arith))
            | inr far ↦
                let f = find-before comes slots found there (ground arith) in absurd (ground arith)
          ]
    ],
  )

  open_or_next-IsTarget :
      (pinned_id : Option String) (p : Placed)
      → pinned_slot slots statuses pinned_id ≡ none
      → NoTalkNow
      → open_or_next slots now_ms statuses ≡ some p
      → IsTarget pinned_id p
  unfolding open_or_next
  open_or_next-IsTarget pinned_id p unpinned idle h =
      elim (Option-cases (find_last_from 0 (runs statuses) slots)) [
        | inl missing ↦
            let (soon, first) = (next_talk-exactly p).0 (rw (missing, open_or_next) at h) in
            to_come unpinned idle (find_last-nothing.0 missing) soon first
        | inr (r, found) ↦
            let e : some r ≡ some p = rw (found, open_or_next) at h in
            let (air, last) = (find_last-exactly p).0 (found ∙ e) in
            still_on_air unpinned idle air last
      ]

  IsTarget-open_or_next :
      {pinned_id : Option String} {p : Placed}
      → pinned_slot slots statuses pinned_id ≡ none
      → NoTalkNow
      → IsTarget pinned_id p
      → open_or_next slots now_ms statuses ≡ some p
  unfolding open_or_next
  IsTarget-open_or_next unpinned idle (forced e) = cc
  IsTarget-open_or_next {pinned_id} {p} unpinned idle (on_the_clock _ now kind) =
      absurd (idle p now kind)
  IsTarget-open_or_next {pinned_id} {p} unpinned idle (still_on_air _ _ air last) =
      rw ((find_last-exactly p).1 (air, last), open_or_next) refl
  IsTarget-open_or_next {pinned_id} {p} unpinned idle (to_come _ _ nobody soon first) =
      rw (find_last-nothing.1 nobody, open_or_next) ((next_talk-exactly p).1 (soon, first))

  IsTarget-pinned :
      {pinned_id : Option String} {p q : Placed}
      → pinned_slot slots statuses pinned_id ≡ some q
      → IsTarget pinned_id p
      → some q ≡ some p
  IsTarget-pinned held (forced e) = sym held ∙ e
  IsTarget-pinned held (on_the_clock none_held _ _) = cc
  IsTarget-pinned held (still_on_air none_held _ _ _) = cc
  IsTarget-pinned held (to_come none_held _ _ _ _) = cc

  IsTarget-now :
      {pinned_id : Option String} {p c : Placed}
      → pinned_slot slots statuses pinned_id ≡ none
      → (timeline_position slots now_ms).current ≡ some c
      → c.slot.kind ≡ talk
      → IsTarget pinned_id p
      → some c ≡ some p
  IsTarget-now unpinned now kind (forced e) = cc
  IsTarget-now unpinned now kind (on_the_clock _ here _) = sym now ∙ here
  IsTarget-now {pinned_id} {p} {c} unpinned now kind (still_on_air _ idle _ _) =
      absurd (idle c now kind)
  IsTarget-now {pinned_id} {p} {c} unpinned now kind (to_come _ idle _ _ _) =
      absurd (idle c now kind)

  -- What a room drives, and for each reason when: the forced talk; with none, the clock's slot when it
  -- is a talk; else the last talk of the list that is running; with none running, the first that is
  -- to come and has not ended. It drives a talk exactly when one of these holds of it.
  pub talk_to_control_iff :
      (pinned_id : Option String) (p : Placed)
      → (talk_to_control slots now_ms statuses pinned_id ≡ some p) ↔ IsTarget pinned_id p
  unfolding talk_to_control
  talk_to_control_iff pinned_id p = elim (Option-cases (pinned_slot slots statuses pinned_id)) [
    | inr (q, held) ↦
        rw (held, talk_to_control) (λ h. forced (held ∙ h), λ t. IsTarget-pinned held t)
    | inl unpinned ↦ elim (Option-cases (timeline_position slots now_ms).current) [
      | inl nothing ↦
          let idle : NoTalkNow = λ c now. absurd (clash nothing now) in
          rw (unpinned, nothing, talk_to_control)
            (open_or_next-IsTarget pinned_id p unpinned idle, IsTarget-open_or_next unpinned idle)
      | inr (c, now) ↦ elim (Bool-cases (is_talk c.slot.kind)) [
        | inl yes_talk ↦
            let kind : c.slot.kind ≡ talk = ground arith in
            rw (unpinned, now, yes_talk, talk_to_control)
              (
                λ h.
                    on_the_clock unpinned (now ∙ h)
                      (let e : c ≡ p = cc in ap (λ (x : Placed). x.slot.kind) (sym e) ∙ kind),
                λ t. IsTarget-now unpinned now kind t,
              )
        | inr no_talk ↦
            let idle : NoTalkNow = λ d here k.
              let e : some c ≡ some d = sym now ∙ here in
              let f : c ≡ d = cc in
              let m : c.slot.kind ≡ talk = ap (λ (x : Placed). x.slot.kind) f ∙ k in
              not_talk c m no_talk in
            rw (unpinned, now, no_talk, talk_to_control)
              (open_or_next-IsTarget pinned_id p unpinned idle, IsTarget-open_or_next unpinned idle)
      ]
    ]
  ]
    where
      clash : {o : Option Placed} {c : Placed} → o ≡ none → o ≡ some c → ⊥
      clash a b = cc

      not_talk : (c : Placed) → c.slot.kind ≡ talk → is_talk c.slot.kind ≡ false → ⊥
      not_talk c k n = ground arith

  open_or_next-running :
      (q : Placed)
      → IsAt slots q
      → runs statuses q ≡ true
      → (p : Placed) × (open_or_next slots now_ms statuses ≡ some p)
        × (statuses p.slot.id ≡ some running)
  unfolding open_or_next
  open_or_next-running q at t =
      let (p, found, _) = find_last-after (runs statuses) slots at t in
      let (_, r) = find_last-some (runs statuses) slots found in (p, ground arith, ground arith)

  -- A room in overrun always has a talk to drive: one that is running, whose end gesture so stays
  -- at hand, unless the pin or the clock's own slot comes first.
  pub depassement-talk_to_control :
      (pinned_id : Option String)
      → state_of_slots slots now_ms statuses pinned_id ≡ depassement
      → (p : Placed) × (talk_to_control slots now_ms statuses pinned_id ≡ some p)
        × ((statuses p.slot.id ≡ some running)
            ⊎ (pinned_slot slots statuses pinned_id ≡ some p)
            ⊎ ((timeline_position slots now_ms).current ≡ some p))
  unfolding talk_to_control
  depassement-talk_to_control pinned_id h =
      let (o, over) = (depassement_iff slots now_ms statuses pinned_id).0 h in
      let (r, drives, live) =
        open_or_next-running o over.at (ground (arith, over.launched, over.is_a_talk)) in
      elim (Option-cases (pinned_slot slots statuses pinned_id)) [
        | inr (q, held) ↦ (q, ground arith, inr (inl held))
        | inl unpinned ↦ elim (Option-cases (timeline_position slots now_ms).current) [
          | inl idle ↦ (r, ground arith, inl live)
          | inr (c, current) ↦ elim (Bool-cases (is_talk c.slot.kind)) [
            | inl t ↦ (c, ground arith, inr (inr current))
            | inr f ↦ (r, ground arith, inl live)
          ]
        ]
      ]
