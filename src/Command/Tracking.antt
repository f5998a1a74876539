-- ===== src/Command/Tracking.antt =====
-- The publications and the first loop of `stream` of apps/hub-server/src/services/commands.ts keep
-- what has been yielded, and what is still to be, equal to the room's commands.
use conference_operator.Common.{
  All-map, ℕ, ◌+◌, ◌≤◌, ◌<◌, ◌≡◌, ◌⊎◌, inl, inr, refl, sym, ◌∙◌, String, Bool, true, false, ◌&&◌,
  Option, List, [], ◌∷◌, ◌++◌, arith, All, Pairwise, In, filter, All-In, All_of_In, All-append,
  Pairwise-snoc, In-append, In-map, In-filter, Pairwise-filter, Pairwise-map, ltb, Bool-cases,
}
use conference_operator.Command.{
  CommandPayload, Command, Dispatched, Bus, is_for, dispatched, insert, picked, backlog_after, Flow,
  emit, read_backlog, yield_pending,
}
use mathlib.Core.Path.{subst}
use conference_operator.Command.Steps.{
  IsTable, last_of, IsTracking, append_assoc, append_nil, picked-append, picked_none, picked_one,
  last_bounds, last_above, last_max,
}

module _ (room_id : String) (since_seq : ℕ) where
  insert-IsTable :
      (target : Option String) (payload : CommandPayload) (ttl_seconds : Option ℕ) (now_ms : ℕ)
      (b : Bus)
      → IsTable b
      → IsTable (insert (dispatched target payload ttl_seconds now_ms b) b)
  unfolding insert dispatched
  insert-IsTable target payload ttl_seconds now_ms b v = record {
    ascending =
        Pairwise-snoc (λ (x y : Dispatched). x.command.seq < y.command.seq) b.rows _ v.ascending
          v.below;
    below =
        All-append (λ (d : Dispatched). d.command.seq < b.next_seq + 1) b.rows _
          (All_of_In (λ (d : Dispatched). d.command.seq < b.next_seq + 1) b.rows
            (λ d m.
              omega (
                arith,
                All-In (λ (x : Dispatched). x.command.seq < b.next_seq) b.rows d v.below m,
              )))
          (omega arith, tt);
  }

  live_below :
      {b : Bus} {f : Flow}
      → IsTracking room_id since_seq b f
      → All (λ d. d.command.seq < b.next_seq) f.live
  live_below {b} {f} v =
      All_of_In (λ (d : Dispatched). d.command.seq < b.next_seq) f.live
        (λ d m.
          All-In (λ (x : Dispatched). x.command.seq < b.next_seq) b.rows d v.table.below
            (All-In (λ (x : Dispatched). In x b.rows) f.live d v.live_in m))

  pub publishes-IsTracking :
      (target : Option String) (payload : CommandPayload) (ttl_seconds : Option ℕ) (now_ms : ℕ)
      {b : Bus} {f : Flow}
      → IsTracking room_id since_seq b f
      → IsTracking room_id since_seq
          (insert (dispatched target payload ttl_seconds now_ms b) b)
          (emit (dispatched target payload ttl_seconds now_ms b) f)
  unfolding insert emit dispatched backlog_after
  publishes-IsTracking target payload ttl_seconds now_ms {b} {f} v =
      let d = dispatched target payload ttl_seconds now_ms b in
      let n = last_of f.last_seq f.pending in
      record {
        table = insert-IsTable target payload ttl_seconds now_ms b v.table;
        live_ascending =
            Pairwise-snoc (λ (x y : Dispatched). x.command.seq < y.command.seq) f.live d
              v.live_ascending (live_below v);
        live_in =
            All-append (λ (x : Dispatched). In x (b.rows ++ (d ∷ []))) f.live (d ∷ [])
              (All_of_In (λ (x : Dispatched). In x (b.rows ++ (d ∷ []))) f.live
                (λ x m.
                  (In-append b.rows (d ∷ []) x).1
                    (inl (All-In (λ (y : Dispatched). In y b.rows) f.live x v.live_in m))))
              ((In-append b.rows (d ∷ []) d).1 (inr (inl refl)), tt);
        unread = v.unread;
        mark = ground (arith, v.mark);
        told = λ h.
            rw
              (
                picked-append room_id n f.live (d ∷ []),
                picked-append room_id since_seq b.rows (d ∷ []),
                sym (picked_one room_id n since_seq d v.mark),
                sym (v.told h),
                append_assoc f.yielded (f.pending ++ picked room_id n f.live)
                    (picked room_id n (d ∷ [])),
                append_assoc f.pending (picked room_id n f.live) (picked room_id n (d ∷ [])),
              )
              refl;
      }

  -- What the backlog holds is for the room, numbered after `since_seq` and below the next number.
  backlog_after-bounds :
      (b : Bus)
      → IsTable b
      → All (λ c. (since_seq < c.seq) × (c.seq < b.next_seq)) (backlog_after room_id since_seq b)
  unfolding backlog_after
  backlog_after-bounds b v =
      let test : Dispatched → Bool = λ d. is_for room_id d && ltb since_seq d.command.seq in
      (All-map (λ (c : Command). (since_seq < c.seq) × (c.seq < b.next_seq))
          (λ (d : Dispatched). d.command) (filter test b.rows)).1
        (All_of_In (λ (d : Dispatched). (since_seq < d.command.seq) × (d.command.seq < b.next_seq))
          (filter test b.rows)
          (λ d m.
            let (old, kept) = (In-filter test b.rows d).0 m in
            (
              after d kept,
              All-In (λ (x : Dispatched). x.command.seq < b.next_seq) b.rows d v.below old,
            )))
    where
      after :
          (d : Dispatched)
          → (is_for room_id d && ltb since_seq d.command.seq) ≡ true
          → since_seq < d.command.seq
      after d h = ground arith

  backlog_after-Ascending :
      (b : Bus) → IsTable b → Pairwise (λ x y. x.seq < y.seq) (backlog_after room_id since_seq b)
  unfolding backlog_after
  backlog_after-Ascending b v =
      (Pairwise-map (λ (x y : Command). x.seq < y.seq) (λ (d : Dispatched). d.command) _).1
        (Pairwise-filter (λ (x y : Dispatched). x.command.seq < y.command.seq) _ b.rows v.ascending)

  -- A row that the table already holds does not pass the end of the backlog.
  caught :
      (b : Bus) (d : Dispatched)
      → IsTable b
      → In d b.rows
      → (is_for room_id d
          && ltb (last_of since_seq (backlog_after room_id since_seq b)) d.command.seq)
        ≡ false
  unfolding backlog_after
  caught b d v m =
      let test : Dispatched → Bool = λ x. is_for room_id x && ltb since_seq x.command.seq in
      let cs = backlog_after room_id since_seq b in
      let up = backlog_after-Ascending b v in
      let low =
        All_of_In (λ (c : Command). since_seq < c.seq) cs
          (λ c k.
            (All-In (λ (x : Command). (since_seq < x.seq) × (x.seq < b.next_seq)) cs c
              (backlog_after-bounds b v) k).0) in
      elim (Bool-cases (test d)) [
        | inl wanted ↦
            let in_cs =
              In-map (λ (x : Dispatched). x.command) (filter test b.rows) d
                ((In-filter test b.rows d).1 (m, wanted)) in
            let max =
              All-In (λ (c : Command). c.seq ≤ last_of since_seq cs) cs d.command
                (last_max since_seq cs up) in_cs in
            passed d (last_of since_seq cs) max
        | inr refused ↦ under d (last_of since_seq cs) (last_above since_seq cs up low) refused
      ]
    where
      passed :
          (d : Dispatched) (n : ℕ)
          → d.command.seq ≤ n
          → (is_for room_id d && ltb n d.command.seq) ≡ false
      passed d n l = ground arith

      under :
          (d : Dispatched) (n : ℕ)
          → since_seq ≤ n
          → (is_for room_id d && ltb since_seq d.command.seq) ≡ false
          → (is_for room_id d && ltb n d.command.seq) ≡ false
      under d n l h = ground arith

  pub reads-IsTracking :
      {b : Bus} {f : Flow}
      → f.caught_up ≡ false
      → IsTracking room_id since_seq b f
      → IsTracking room_id since_seq b (read_backlog room_id since_seq b f)
  unfolding read_backlog
  reads-IsTracking {b} {f} early v =
      let (silent, idle, start) = v.unread early in
      let cs = backlog_after room_id since_seq b in
      record {
        table = v.table;
        live_ascending = v.live_ascending;
        live_in = v.live_in;
        unread = λ h. ground arith;
        mark =
            rw start
              (last_bounds since_seq since_seq b.next_seq cs (backlog_after-bounds b v.table));
        told = λ h.
            rw
              (
                silent,
                start,
                picked_none room_id (last_of since_seq cs) f.live (
                    All_of_In
                      (λ (d : Dispatched).
                        (is_for room_id d && ltb (last_of since_seq cs) d.command.seq) ≡ false)
                      f.live
                      (λ d m.
                        caught b d v.table
                          (All-In (λ (x : Dispatched). In x b.rows) f.live d v.live_in m))),
              )
              (append_nil cs);
      }

  pub yields-IsTracking :
      {b : Bus} {f : Flow} (c : Command) (rest : List Command)
      → f.caught_up ≡ true
      → f.pending ≡ c ∷ rest
      → IsTracking room_id since_seq b f
      → IsTracking room_id since_seq b (yield_pending c rest f)
  unfolding yield_pending
  yields-IsTracking {b} {f} c rest up e v = record {
    table = v.table;
    live_ascending = v.live_ascending;
    live_in = v.live_in;
    unread = λ h. ground arith;
    mark =
        subst
          (λ p.
            (last_of f.last_seq p ≡ since_seq)
            ⊎ ((since_seq < last_of f.last_seq p) × (last_of f.last_seq p < b.next_seq)))
          e v.mark;
    told = λ h.
        append_assoc f.yielded (c ∷ []) (rest ++ picked room_id (last_of c.seq rest) f.live)
        ∙ subst
            (λ p.
              f.yielded ++ (p ++ picked room_id (last_of f.last_seq p) f.live)
              ≡ backlog_after room_id since_seq b)
            e (v.told up);
  }
