-- ===== src/Agent/Queue/Delivery.antt =====
-- The rows that the sender read, and deletes once they are delivered (queue.go, PeekMetrics and
-- DeleteMetrics), while the collector goes on adding rows.
use sakura_assistant.Base.{
  ℕ, zero, suc, min, max, String, ◌≡◌, sym, ap, ◌∙◌, some, List, [], ◌∷◌, ◌++◌, take, drop, length,
  arith,
}
use sakura_assistant.Agent.Queue.Rows.{Table, ids, insert_row}
use sakura_assistant.Agent.Queue.Fifo.{
  IsOrdered, oldest-eq-take, delete_ids-oldest, delete_ids-drop, insert_row-IsOrdered,
}
use sakura_assistant.Agent.Queue.Steps.{inserted, surplus, arrived, enqueue-Enqueued}
use sakura_assistant.Agent.Queue.{Stream, enqueue, delete, peek}

take-append {ℓ} :
    {A : Type ℓ} (n : ℕ) (xs ys : List A) → take (min n (length xs)) (xs ++ ys) ≡ take n xs
take-append zero xs ys = let e : min 0 (length xs) ≡ 0 = omega arith in rw e
take-append (suc n) [] ys = let e : min (suc n) 0 ≡ 0 = omega arith in rw e
take-append (suc n) (x ∷ xs) ys =
    let e : min (suc n) (suc (length xs)) ≡ suc (min n (length xs)) = omega arith in
    rw e (ap (◌∷◌ x) (take-append n xs ys))

module _ (n : ℕ) (s : Stream) (ordered : IsOrdered s.table) where
  -- Deleting what was read leaves the rest of the rows, in order.
  pub delete-peek :
      (peek n s ≡ take n s.table.rows)
      × ((delete (ids (peek n s)) s).table ≡ record s.table { rows = drop n s.table.rows })
  unfolding peek delete
  delete-peek = (oldest-eq-take n s.table ordered, delete_ids-oldest n s.table ordered)

  module _ (limit seq : ℕ) (payload : String) (now : ℕ) where
    abbrev read : ℕ
    read = min n (length s.table.rows)

    arrived_table : Table
    arrived_table = insert_row seq payload now s.table

    read-ids : ids (peek n s) ≡ ids (take read arrived_table.rows)
    unfolding peek insert_row arrived_table
    read-ids = ap ids (
        oldest-eq-take n s.table ordered
        ∙ sym (take-append n s.table.rows (inserted seq payload now s ∷ [])))

    trimmed :
        (s' : Stream)
        → enqueue limit seq payload now s ≡ some (surplus limit s, s')
        → s'.table ≡ record arrived_table { rows = drop (surplus limit s) arrived_table.rows }
    unfolding arrived_table insert_row
    trimmed s' e =
        let q = enqueue-Enqueued limit seq payload now s ordered in
        ground (arith, q.returns, q.newest_kept, q.next_id, e)

    -- When a row is enqueued between the reading of the `n` oldest rows and their deletion, the
    -- deletion takes the rows that were read and are still there, and no other row.
    pub delete-enqueue :
        (s' : Stream)
        → enqueue limit seq payload now s ≡ some (surplus limit s, s')
        → (delete (ids (peek n s)) s').table.rows
          ≡ drop (max (min n (length s.table.rows)) (surplus limit s)) (arrived seq payload now s)
    unfolding delete arrived_table insert_row
    delete-enqueue s' e =
        rw (trimmed s' e, read-ids)
          (ap (λ t. t.rows)
            (delete_ids-drop read (surplus limit s) arrived_table
              (insert_row-IsOrdered seq payload now s.table ordered)))
