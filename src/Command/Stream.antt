-- ===== src/Command/Stream.antt =====
-- What a room receives from the `stream` of apps/hub-server/src/services/commands.ts, however the
-- publications fall among the turns of the generator.
use conference_operator.Common.{
  ℕ, ◌≤◌, ◌<◌, ◌≡◌, ◌⊎◌, inl, inr, refl, sym, ◌∙◌, String, true, false, ◌&&◌, List, [], ◌∷◌, ◌++◌,
  arith, All, In, All-In, ltb, leb, Bool-cases,
}
use conference_operator.Command.{
  Command, Dispatched, Bus, is_for, picked, backlog_after, Flow, subscribe, deliver,
}
use mathlib.Core.Path.{subst}
use conference_operator.Command.Steps.{
  Ascending, IsTable, Step, publishes, reads, yields, delivers, Reach, opened, next, last_of,
  IsTracking, append_assoc, append_nil, picked_above,
}
use conference_operator.Command.Tracking.{publishes-IsTracking, reads-IsTracking, yields-IsTracking}

module _ (room_id : String) (since_seq : ℕ) where
  -- The flow once an event has left the emitter's list.
  module _ {b : Bus} {f : Flow} (d : Dispatched) (rest : List Dispatched) (up : f.caught_up ≡ true)
      (done : f.pending ≡ []) (e : f.live ≡ d ∷ rest) (v : IsTracking room_id since_seq b f) where
    rest-Ascending : Ascending (d ∷ rest)
    rest-Ascending = subst Ascending e v.live_ascending

    rest-In : All (λ x. In x b.rows) (d ∷ rest)
    rest-In = subst (All (λ x. In x b.rows)) e v.live_in

    mark_now : (f.last_seq ≡ since_seq) ⊎ ((since_seq < f.last_seq) × (f.last_seq < b.next_seq))
    mark_now =
        subst
          (λ p.
            (last_of f.last_seq p ≡ since_seq)
            ⊎ ((since_seq < last_of f.last_seq p) × (last_of f.last_seq p < b.next_seq)))
          done v.mark

    told_now : f.yielded ++ picked room_id f.last_seq (d ∷ rest) ≡ backlog_after room_id since_seq b
    told_now =
        subst (λ l. f.yielded ++ picked room_id f.last_seq l ≡ backlog_after room_id since_seq b) e
          (subst
            (λ p.
              f.yielded ++ (p ++ picked room_id (last_of f.last_seq p) f.live)
              ≡ backlog_after room_id since_seq b)
            done (v.told up))

    -- An event that is not yielded leaves nothing behind.
    skips-IsTracking :
        (is_for room_id d && ltb f.last_seq d.command.seq) ≡ false
        → IsTracking room_id since_seq b (record f { live = rest })
    skips-IsTracking other = record {
      table = v.table;
      live_ascending = rest-Ascending.1;
      live_in = rest-In.1;
      unread = λ h. ground arith;
      mark = v.mark;
      told = λ h. rw done (skipped other told_now);
    }
      where
        skipped :
            (is_for room_id d && ltb f.last_seq d.command.seq) ≡ false
            → f.yielded ++ picked room_id f.last_seq (d ∷ rest) ≡ backlog_after room_id since_seq b
            → f.yielded ++ picked room_id f.last_seq rest ≡ backlog_after room_id since_seq b
        skipped other t = ground arith

    takes-IsTracking :
        (is_for room_id d && ltb f.last_seq d.command.seq) ≡ true
        → IsTracking room_id since_seq b (record f {
          live = rest;
          last_seq = d.command.seq;
          yielded = f.yielded ++ (d.command ∷ []);
        })
    takes-IsTracking wanted =
        let below : d.command.seq < b.next_seq =
          All-In (λ (x : Dispatched). x.command.seq < b.next_seq) b.rows d v.table.below
            rest-In.0 in
        record {
          table = v.table;
          live_ascending = rest-Ascending.1;
          live_in = rest-In.1;
          unread = λ h. ground arith;
          mark = rw done (inr (above wanted mark_now, below));
          told = λ h.
              rw (done, append_assoc f.yielded (d.command ∷ []) (picked room_id d.command.seq rest))
                (taken wanted told_now (
                  picked_above room_id f.last_seq d.command.seq rest (less wanted)
                    rest-Ascending.0));
        }
      where
        less :
            (is_for room_id d && ltb f.last_seq d.command.seq) ≡ true → f.last_seq ≤ d.command.seq
        less wanted = ground arith

        above :
            (is_for room_id d && ltb f.last_seq d.command.seq) ≡ true
            → ((f.last_seq ≡ since_seq) ⊎ ((since_seq < f.last_seq) × (f.last_seq < b.next_seq)))
            → since_seq < d.command.seq
        above wanted m = ground arith

        taken :
            (is_for room_id d && ltb f.last_seq d.command.seq) ≡ true
            → f.yielded ++ picked room_id f.last_seq (d ∷ rest) ≡ backlog_after room_id since_seq b
            → picked room_id f.last_seq rest ≡ picked room_id d.command.seq rest
            → f.yielded ++ (d.command ∷ picked room_id d.command.seq rest)
              ≡ backlog_after room_id since_seq b
        taken wanted t same = ground arith

    delivers-IsTracking : IsTracking room_id since_seq b (deliver room_id d rest f)
    unfolding deliver
    delivers-IsTracking = elim (Bool-cases (is_for room_id d)) [
      | inr other ↦ rw other (skips-IsTracking (ground arith))
      | inl ours ↦ elim (Bool-cases (leb d.command.seq f.last_seq)) [
        | inl old ↦ rw (ours, old) (skips-IsTracking (ground arith))
        | inr new ↦ rw (ours, new) (takes-IsTracking (ground arith))
      ]
    ]

  Step-IsTracking :
      {b c : Bus} {f g : Flow}
      → IsTracking room_id since_seq b f
      → Step room_id since_seq b f c g
      → IsTracking room_id since_seq c g
  Step-IsTracking v (publishes b f target payload ttl_seconds now_ms) =
      publishes-IsTracking room_id since_seq target payload ttl_seconds now_ms v
  Step-IsTracking v (reads b f early) = reads-IsTracking room_id since_seq early v
  Step-IsTracking v (yields b f c rest up e) = yields-IsTracking room_id since_seq c rest up e v
  Step-IsTracking v (delivers b f d rest up done e) = delivers-IsTracking d rest up done e v

  opened-IsTracking : (b : Bus) → IsTable b → IsTracking room_id since_seq b (subscribe since_seq)
  unfolding subscribe
  opened-IsTracking b v = record {
    table = v;
    live_ascending = tt;
    live_in = tt;
    unread = λ h. (refl, refl, refl);
    mark = inl refl;
    told = λ h. ground arith;
  }

  Reach-IsTracking :
      {b c : Bus} {f : Flow}
      → IsTable b
      → Reach room_id since_seq b c f
      → IsTracking room_id since_seq c f
  Reach-IsTracking {b} v opened = opened-IsTracking b v
  Reach-IsTracking v (next r s) = Step-IsTracking (Reach-IsTracking v r) s

  -- However the publications fall among the turns of a flow, what it has yielded is a beginning of
  -- the room's commands after `since_seq`, in the order of their numbers: none is skipped, repeated
  -- or swapped, and none of another room is among them.
  pub yielded-prefix :
      {b c : Bus} {f : Flow}
      → IsTable b
      → Reach room_id since_seq b c f
      → (rest : List Command) × (f.yielded ++ rest ≡ backlog_after room_id since_seq c)
  yielded-prefix {c} {f} v r = elim (Bool-cases f.caught_up) [
    | inl up ↦
        let w = Reach-IsTracking v r in
        (f.pending ++ picked room_id (last_of f.last_seq f.pending) f.live, w.told up)
    | inr early ↦
        let w = Reach-IsTracking v r in
        (backlog_after room_id since_seq c, rw ((w.unread early).0) refl)
  ]

  -- A flow that has read the backlog and has nothing left to yield has yielded every command of the
  -- room after `since_seq`, those published before it read the backlog included.
  pub yielded_complete :
      {b c : Bus} {f : Flow}
      → IsTable b
      → Reach room_id since_seq b c f
      → f.caught_up ≡ true
      → f.pending ≡ []
      → f.live ≡ []
      → f.yielded ≡ backlog_after room_id since_seq c
  yielded_complete {c} {f} v r up done quiet =
      let w = Reach-IsTracking v r in
      let t =
        subst
          (λ p.
            f.yielded ++ (p ++ picked room_id (last_of f.last_seq p) f.live)
            ≡ backlog_after room_id since_seq c)
          done (w.told up) in
      sym (append_nil f.yielded)
      ∙ subst (λ l. f.yielded ++ picked room_id f.last_seq l ≡ backlog_after room_id since_seq c)
          quiet t
