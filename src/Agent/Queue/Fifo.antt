-- ===== src/Agent/Queue/Fifo.antt =====
-- On the rows that the queue keeps, in the order of their ids, its statements are those of a
-- first-in first-out list.
use sakura_assistant.Base.{
  ℕ, zero, suc, ◌+◌, ◌≤◌, ◌<◌, min, max, String, ◌≡◌, refl, ap, ◌∙◌, inl, inr, none, some, List, [],
  ◌∷◌, ◌++◌, take, drop, length, leb, arith, Bool-cases, Option-cases,
}
use sakura_assistant.Agent.Queue.Rows.{
  Row, Table, ids, insert_row, place, order_by_id, oldest, is_in, without, delete_ids, min_created,
  max_created,
}

-- The ids lie in [lo, hi) and increase strictly.
abbrev pub Ordered : ℕ → List Row → ℕ → Type 0
Ordered lo [] hi = lo ≤ hi
Ordered lo (r ∷ rest) hi = (lo ≤ r.id) × Ordered (r.id + 1) rest hi

abbrev pub IsOrdered : Table → Type 0
IsOrdered t = Ordered 1 t.rows t.next_id

place_first :
    (r : Row) (rest : List Row) (lo hi : ℕ)
    → Ordered lo (r ∷ rest) hi
    → order_by_id rest ≡ rest
    → order_by_id (r ∷ rest) ≡ r ∷ rest
unfolding order_by_id
place_first r [] lo hi h e = refl
place_first r (s ∷ rest) lo hi h e = rw e (ground arith)

order_by_id_of_Ordered :
    (rows : List Row) (lo hi : ℕ) → Ordered lo rows hi → order_by_id rows ≡ rows
order_by_id_of_Ordered [] lo hi h = unfold order_by_id in refl
order_by_id_of_Ordered (r ∷ rest) lo hi h =
    place_first r rest lo hi h (order_by_id_of_Ordered rest (r.id + 1) hi h.1)

without_fresh :
    (k : ℕ) (gone : List ℕ) (rows : List Row) (lo hi : ℕ)
    → Ordered lo rows hi
    → k < lo
    → without (k ∷ gone) rows ≡ without gone rows
unfolding without
without_fresh k gone [] lo hi h l = refl
without_fresh k gone (r ∷ rest) lo hi h l = ground (arith, without_fresh k gone rest (r.id + 1) hi)

without_nothing : (rows : List Row) → without [] rows ≡ rows
unfolding without
without_nothing [] = refl
without_nothing (r ∷ rest) = ap (◌∷◌ r) (without_nothing rest)

without_oldest :
    (n : ℕ) (rows : List Row) (lo hi : ℕ)
    → Ordered lo rows hi
    → without (ids (take n rows)) rows ≡ drop n rows
unfolding without
without_oldest zero rows lo hi h = without_nothing rows
without_oldest (suc n) [] lo hi h = refl
without_oldest (suc n) (r ∷ rest) lo hi h = ground (
  arith,
  without_fresh r.id (ids (take n rest)) rest (r.id + 1) hi,
  without_oldest n rest (r.id + 1) hi,
)

pub oldest-eq-take : (n : ℕ) (t : Table) → IsOrdered t → oldest n t ≡ take n t.rows
unfolding oldest
oldest-eq-take n t h = rw (order_by_id_of_Ordered t.rows 1 t.next_id h)

pub delete_ids-oldest :
    (n : ℕ) (t : Table)
    → IsOrdered t
    → delete_ids (ids (oldest n t)) t ≡ record t { rows = drop n t.rows }
unfolding delete_ids
delete_ids-oldest n t h =
    rw (oldest-eq-take n t h)
      (ap (λ rows. record t { rows = rows }) (without_oldest n t.rows 1 t.next_id h))

Ordered-weaken :
    (rows : List Row) (lo lo' hi : ℕ) → lo' ≤ lo → Ordered lo rows hi → Ordered lo' rows hi
Ordered-weaken [] lo lo' hi l h = omega arith
Ordered-weaken (r ∷ rest) lo lo' hi l h = (omega arith, h.1)

drop-Ordered :
    (n : ℕ) (rows : List Row) (lo hi : ℕ) → Ordered lo rows hi → Ordered lo (drop n rows) hi
drop-Ordered zero rows lo hi h = h
drop-Ordered (suc n) [] lo hi h = h
drop-Ordered (suc n) (r ∷ rest) lo hi h =
    Ordered-weaken (drop n rest) (r.id + 1) lo hi (omega arith)
      (drop-Ordered n rest (r.id + 1) hi h.1)

without-drop :
    (n d : ℕ) (rows : List Row) (lo hi : ℕ)
    → Ordered lo rows hi
    → without (ids (take n rows)) (drop d rows) ≡ drop (max n d) rows
without-drop zero d rows lo hi h =
    let e : d ≡ max zero d = omega arith in without_nothing (drop d rows) ∙ ap (λ k. drop k rows) e
without-drop (suc n) zero rows lo hi h =
    let e : suc n ≡ max (suc n) zero = omega arith in
    without_oldest (suc n) rows lo hi h ∙ ap (λ k. drop k rows) e
without-drop (suc n) (suc d) [] lo hi h =
    let e : suc (max n d) ≡ max (suc n) (suc d) = omega arith in
    unfold without in ap (λ k. drop k (let none_left : List Row = [] in none_left)) e
without-drop (suc n) (suc d) (r ∷ rest) lo hi h =
    let e : suc (max n d) ≡ max (suc n) (suc d) = omega arith in
    without_fresh r.id (ids (take n rest)) (drop d rest) (r.id + 1) hi
      (drop-Ordered d rest (r.id + 1) hi h.1) (omega arith)
    ∙ without-drop n d rest (r.id + 1) hi h.1
    ∙ ap (λ k. drop k (r ∷ rest)) e

-- Deleting rows that were read first, when `d` rows have been dropped since.
pub delete_ids-drop :
    (n d : ℕ) (t : Table)
    → IsOrdered t
    → delete_ids (ids (take n t.rows)) (record t { rows = drop d t.rows })
      ≡ record t { rows = drop (max n d) t.rows }
unfolding delete_ids
delete_ids-drop n d t h =
    ap (λ rows. record t { rows = rows }) (without-drop n d t.rows 1 t.next_id h)

append-Ordered :
    (rows : List Row) (x : Row) (lo hi : ℕ)
    → Ordered lo rows hi
    → hi ≤ x.id
    → Ordered lo (rows ++ x ∷ []) (x.id + 1)
append-Ordered [] x lo hi h l = (omega arith, omega arith)
append-Ordered (r ∷ rest) x lo hi h l = (h.0, append-Ordered rest x (r.id + 1) hi h.1 l)

without-Ordered :
    (gone : List ℕ) (rows : List Row) (lo hi : ℕ)
    → Ordered lo rows hi
    → Ordered lo (without gone rows) hi
unfolding without
without-Ordered gone [] lo hi h = h
without-Ordered gone (r ∷ rest) lo hi h = elim (Bool-cases (is_in r.id gone)) [
  | inl out ↦ rw out (
      Ordered-weaken (without gone rest) (r.id + 1) lo hi (omega arith)
        (without-Ordered gone rest (r.id + 1) hi h.1))
  | inr kept ↦ rw kept (h.0, without-Ordered gone rest (r.id + 1) hi h.1)
]

pub drop-IsOrdered :
    (n : ℕ) (t : Table) → IsOrdered t → IsOrdered (record t { rows = drop n t.rows })
drop-IsOrdered n t h = drop-Ordered n t.rows 1 t.next_id h

pub insert_row-IsOrdered :
    (seq : ℕ) (payload : String) (now : ℕ) (t : Table)
    → IsOrdered t
    → IsOrdered (insert_row seq payload now t)
unfolding insert_row
insert_row-IsOrdered seq payload now t h =
    append-Ordered t.rows
      (record { id = t.next_id; seq = seq; payload = payload; created_at = now }) 1 t.next_id h
      (omega arith)

pub delete_ids-IsOrdered : (gone : List ℕ) (t : Table) → IsOrdered t → IsOrdered (delete_ids gone t)
unfolding delete_ids
delete_ids-IsOrdered gone t h = without-Ordered gone t.rows 1 t.next_id h

-- MIN and MAX of at least one row are not NULL.
pub min_created-some :
    (n : ℕ) (rows : List Row)
    → 0 < n
    → 0 < length rows
    → (m : ℕ) × (min_created (take n rows) ≡ some m)
unfolding min_created
min_created-some (suc n) (r ∷ rest) p q = elim (Option-cases (min_created (take n rest))) [
  | inl e ↦ (r.created_at, rw e)
  | inr (m, e) ↦ (min r.created_at m, rw e)
]
min_created-some zero rows p q = absurd (omega arith)
min_created-some (suc n) [] p q = absurd (omega arith)

pub max_created-some :
    (n : ℕ) (rows : List Row)
    → 0 < n
    → 0 < length rows
    → (m : ℕ) × (max_created (take n rows) ≡ some m)
unfolding max_created
max_created-some (suc n) (r ∷ rest) p q = elim (Option-cases (max_created (take n rest))) [
  | inl e ↦ (r.created_at, rw e)
  | inr (m, e) ↦ (max r.created_at m, rw e)
]
max_created-some zero rows p q = absurd (omega arith)
max_created-some (suc n) [] p q = absurd (omega arith)

length-without : (gone : List ℕ) (rows : List Row) → length (without gone rows) ≤ length rows
unfolding without
length-without gone [] = omega arith
length-without gone (r ∷ rest) = ground (arith, length-without gone rest)

pub length-delete_ids :
    (gone : List ℕ) (t : Table) → length (delete_ids gone t).rows ≤ length t.rows
unfolding delete_ids
length-delete_ids gone t = length-without gone t.rows

pub oldest_of_nothing :
    (n next : ℕ) → min_created (oldest n (record { rows = []; next_id = next })) ≡ none
unfolding oldest min_created
oldest_of_nothing zero next = refl
oldest_of_nothing (suc n) next = refl

place_some : (r : Row) (rows : List Row) → (x : Row) × (rest : List Row) × (place r rows ≡ x ∷ rest)
unfolding place
place_some r [] = (r, [], refl)
place_some r (s ∷ rest) = elim (Bool-cases (leb r.id s.id)) [
  | inl first ↦ (r, s ∷ rest, rw first)
  | inr later ↦ (s, place r rest, rw later)
]

-- Reading at least one row of a table that has one brings one.
pub oldest_some :
    (n : ℕ) (t : Table)
    → 0 < length t.rows
    → (x : Row) × (rest : List Row) × (oldest (suc n) t ≡ x ∷ rest)
unfolding oldest
oldest_some n t h = go t.rows h
  where
    go :
        (rows : List Row)
        → 0 < length rows
        → (x : Row) × (rest : List Row) × (take (suc n) (order_by_id rows) ≡ x ∷ rest)
    go [] p = absurd (omega arith)
    go (r ∷ rest) p =
        let (x, others, e) = place_some r (order_by_id rest) in (x, take n others, rw e)
