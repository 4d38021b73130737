-- ===== src/Agent/Queue/Steps.antt =====
-- What the operations of the queue do to a stream whose rows are in order.
use sakura_assistant.Base.{
  ℕ, zero, suc, ◌+◌, ◌-◌, ◌≤◌, ◌<◌, min, String, ◌≡◌, refl, sym, ap, ◌∙◌, inl, inr, Option, none,
  some, List, [], ◌∷◌, ◌++◌, drop, length, length-append, length-drop, arith, Bool-cases, ltb,
}
use sakura_assistant.Agent.Queue.Rows.{Row, Table, insert_row}
use sakura_assistant.Agent.Queue.Fifo.{
  Ordered, IsOrdered, oldest_of_nothing, oldest-eq-take, delete_ids-oldest, drop-IsOrdered,
  insert_row-IsOrdered, min_created-some, max_created-some,
}
use sakura_assistant.Agent.Queue.{Overflow, Stream, cut, add_overflow, enqueue, drop_oldest}

module _ (n : ℕ) (t : Table) (ordered : IsOrdered t) where
  pub cut-some :
      0 < n
      → 0 < length t.rows
      → (first last : ℕ) × (cut n t ≡ some (first, last, record t { rows = drop n t.rows }))
  unfolding cut
  cut-some p q =
      let (first, e) = min_created-some n t.rows p q in
      let (last, f) = max_created-some n t.rows p q in
      (first, last, ground (arith, delete_ids-oldest n t ordered, oldest-eq-take n t ordered, e, f))

abbrev pub lost : Stream → ℕ
lost s = elim s.overflow [ none ↦ 0 | some o ↦ o.dropped ]

-- The row that an `INSERT` of the stream adds.
abbrev pub inserted : ℕ → String → ℕ → Stream → Row
inserted seq payload now s = record {
  id = s.table.next_id;
  seq = seq;
  payload = payload;
  created_at = now;
}

module _ (seq : ℕ) (payload : String) (now : ℕ) (s : Stream) (ordered : IsOrdered s.table) where
  grown : insert_row seq payload now s.table ≡ record {
    rows = s.table.rows ++ inserted seq payload now s ∷ [];
    next_id = s.table.next_id + 1;
  }
  unfolding insert_row
  grown = refl

  length_grown : length (insert_row seq payload now s.table).rows ≡ length s.table.rows + 1
  unfolding insert_row
  length_grown = length-append s.table.rows (inserted seq payload now s ∷ [])

  -- Up to the limit nothing is dropped.
  pub enqueue_room :
      (limit : ℕ)
      → length s.table.rows < limit
      → enqueue limit seq payload now s
        ≡ some (0, record s { table = insert_row seq payload now s.table })
  unfolding enqueue
  enqueue_room limit h = ground (arith, length_grown)

  enqueue-cut :
      (limit first last : ℕ) (t : Table)
      → limit ≤ length s.table.rows
      → cut (length s.table.rows + 1 - limit) (insert_row seq payload now s.table)
        ≡ some (first, last, t)
      → enqueue limit seq payload now s
        ≡ some (
          length s.table.rows + 1 - limit,
          add_overflow (length s.table.rows + 1 - limit) first last (record s { table = t }),
        )
  unfolding enqueue
  enqueue-cut limit first last t h e = ground (arith, length_grown)

  pub enqueue_full :
      (limit : ℕ)
      → limit ≤ length s.table.rows
      → (first last : ℕ) × (enqueue limit seq payload now s
          ≡ some (
            length s.table.rows + 1 - limit,
            add_overflow (length s.table.rows + 1 - limit) first last (record s {
              table = record {
                rows =
                    drop
                      (length s.table.rows + 1 - limit)
                      (s.table.rows ++ inserted seq payload now s ∷ []);
                next_id = s.table.next_id + 1;
              };
            }),
          ))
  enqueue_full limit h =
      let (first, last, e) =
        cut-some (length s.table.rows + 1 - limit) (insert_row seq payload now s.table)
          (insert_row-IsOrdered seq payload now s.table ordered) (omega arith)
          (omega (arith, length_grown)) in
      (first, last, enqueue-cut limit first last _ h (rw e (unfold insert_row in refl)))

  lost-add_overflow :
      (n first last : ℕ) (t : Table)
      → lost (add_overflow n first last (record s { table = t })) ≡ lost s + n
  unfolding add_overflow
  lost-add_overflow n first last t = ground arith

abbrev pub surplus : ℕ → Stream → ℕ
surplus limit s = length s.table.rows + 1 - limit

abbrev pub arrived : ℕ → String → ℕ → Stream → List Row
arrived seq payload now s = s.table.rows ++ inserted seq payload now s ∷ []

-- What an enqueue leaves, as a first-in first-out list of at most `limit` rows sees it.
pub record Enqueued (limit seq : ℕ) (payload : String) (now : ℕ) (s : Stream)
    (r : Option (ℕ × Stream)) : Type 0 where
  pub after : Stream
  pub returns : r ≡ some (surplus limit s, after)
  pub newest_kept : after.table.rows ≡ drop (surplus limit s) (arrived seq payload now s)
  pub next_id : after.table.next_id ≡ s.table.next_id + 1
  pub counted : lost after ≡ lost s + surplus limit s
  pub bounded : length after.table.rows ≤ limit
  pub same_seq : after.last_seq ≡ s.last_seq
  pub in_order : IsOrdered after.table

module _ (limit seq : ℕ) (payload : String) (now : ℕ) (s : Stream)
    (ordered : IsOrdered s.table) where
  bounded_drop : length (drop (surplus limit s) (arrived seq payload now s)) ≤ limit
  bounded_drop = omega (
    arith,
    length-drop (surplus limit s) (arrived seq payload now s),
    length-append s.table.rows (inserted seq payload now s ∷ []),
  )

  drop_nothing :
      length s.table.rows < limit
      → drop (surplus limit s) (arrived seq payload now s) ≡ arrived seq payload now s
  drop_nothing h =
      let e : surplus limit s ≡ 0 = omega arith in ap (λ k. drop k (arrived seq payload now s)) e

  cut_enqueue : ℕ → ℕ → Stream
  cut_enqueue first last = add_overflow (surplus limit s) first last (record s {
    table = record {
      rows = drop (surplus limit s) (arrived seq payload now s);
      next_id = s.table.next_id + 1;
    };
  })

  Enqueued-room :
      length s.table.rows < limit
      → Enqueued limit seq payload now s (enqueue limit seq payload now s)
  unfolding insert_row
  Enqueued-room room = record {
    after = record s { table = insert_row seq payload now s.table };
    returns =
        enqueue_room seq payload now s ordered limit room
        ∙ ap (λ k. some (k, record s { table = insert_row seq payload now s.table })) (omega arith);
    newest_kept = sym (drop_nothing room);
    next_id = refl;
    counted = omega arith;
    bounded = omega (arith, length-append s.table.rows (inserted seq payload now s ∷ []));
    same_seq = refl;
    in_order = insert_row-IsOrdered seq payload now s.table ordered;
  }

  Enqueued-full :
      limit ≤ length s.table.rows
      → Enqueued limit seq payload now s (enqueue limit seq payload now s)
  unfolding cut_enqueue
  Enqueued-full full =
      let (first, last, e) = enqueue_full seq payload now s ordered limit full in
      record {
        after = cut_enqueue first last;
        returns = e;
        newest_kept = unfold add_overflow in refl;
        next_id = unfold add_overflow in refl;
        counted = lost-add_overflow seq payload now s ordered _ _ _ _;
        bounded = unfold add_overflow in bounded_drop;
        same_seq = unfold add_overflow in refl;
        in_order =
            unfold add_overflow insert_row in
            drop-IsOrdered (surplus limit s) (insert_row seq payload now s.table)
              (insert_row-IsOrdered seq payload now s.table ordered);
      }

  -- An enqueue into an ordered stream returns, appends its row, drops the oldest rows beyond the
  -- limit and no others, and counts them in the overflow record; the ids stay in order.
  pub enqueue-Enqueued : Enqueued limit seq payload now s (enqueue limit seq payload now s)
  enqueue-Enqueued = elim (Bool-cases (ltb (length s.table.rows) limit)) [
    | inl room ↦ Enqueued-room (ground arith)
    | inr full ↦ Enqueued-full (ground arith)
  ]

-- What dropping the `n` oldest rows leaves.
pub record Dropped (n : ℕ) (s : Stream) (r : ℕ × Stream) : Type 0 where
  pub rest : r.1.table ≡ record s.table { rows = drop n s.table.rows }
  pub returns : r.0 ≡ min n (length s.table.rows)
  pub counted : lost r.1 ≡ lost s + min n (length s.table.rows)
  pub same_seq : r.1.last_seq ≡ s.last_seq

cut_nothing : (n next : ℕ) → cut n (record { rows = []; next_id = next }) ≡ none
unfolding cut
cut_nothing n next = rw (oldest_of_nothing n next, cut)

module _ (n : ℕ) (s : Stream) (ordered : IsOrdered s.table) where
  drop_oldest-cut :
      (first last : ℕ)
      → 0 < n
      → 0 < length s.table.rows
      → cut n s.table ≡ some (first, last, record s.table { rows = drop n s.table.rows })
      → Dropped n s (drop_oldest n s)
  unfolding drop_oldest add_overflow
  drop_oldest-cut first last p q e = record {
    rest = ground (arith, length-drop n s.table.rows);
    returns = ground (arith, length-drop n s.table.rows);
    counted = ground (arith, length-drop n s.table.rows);
    same_seq = ground (arith, length-drop n s.table.rows);
  }

drop_oldest_empty :
    (n next : ℕ) (last_seq : Option ℕ) (o : Option Overflow)
    → let s : Stream = record {
      table = record { rows = []; next_id = next };
      last_seq = last_seq;
      overflow = o;
    } in
      drop_oldest (suc n) s ≡ (0, s)
unfolding drop_oldest
drop_oldest_empty n next last_seq o = ground (arith, cut_nothing (suc n) next)

drop_oldest_rows :
    (n next : ℕ) (rows : List Row) (last_seq : Option ℕ) (o : Option Overflow)
    → Ordered 1 rows next
    → let s : Stream = record {
      table = record { rows = rows; next_id = next };
      last_seq = last_seq;
      overflow = o;
    } in
      Dropped n s (drop_oldest n s)
drop_oldest_rows zero next rows last_seq o h =
    unfold drop_oldest in
    record { rest = refl; returns = omega arith; counted = omega arith; same_seq = refl }
drop_oldest_rows (suc n) next [] last_seq o h =
    rw (drop_oldest_empty n next last_seq o)
      (record { rest = refl; returns = omega arith; counted = omega arith; same_seq = refl })
drop_oldest_rows (suc n) next (r ∷ rest) last_seq o h =
    let s : Stream = record {
      table = record { rows = r ∷ rest; next_id = next };
      last_seq = last_seq;
      overflow = o;
    } in
    let (first, last, e) = cut-some (suc n) s.table h (omega arith) (omega arith) in
    drop_oldest-cut (suc n) s h first last (omega arith) (omega arith) e

-- Dropping the oldest rows of an ordered stream keeps the others and counts what it drops.
pub drop_oldest-Dropped : (n : ℕ) (s : Stream) → IsOrdered s.table → Dropped n s (drop_oldest n s)
drop_oldest-Dropped n s h = drop_oldest_rows n s.table.next_id s.table.rows s.last_seq s.overflow h
