-- ===== src/Hub/Api/Paging.antt =====
-- hub/api.go, handleSync: a client that follows the cursors gets the whole log.
use sakura_assistant.Base.{
  ℕ, zero, suc, ◌+◌, ◌≤◌, ◌<◌, ◌≡◌, refl, sym, ap, ◌∙◌, Bool, true, false, inl, inr, List, [], ◌∷◌,
  ◌++◌, ltb, leb, length, length-append, length-drop, length-take, take, drop, take-append-drop,
  Bool-cases, arith, if◌then◌else◌,
}
use mathlib.Core.List.{append-nil, append_assoc}
use sakura_assistant.Hub.Types.{ChangeEntry}
use sakura_assistant.Hub.Fault.Invariant.{Rising}
use sakura_assistant.Hub.Stream.Client.{above, last_of}
use sakura_assistant.Hub.Stream.Numbers.{Rising-le, above-all, changes_since-above, above-Rising}
use sakura_assistant.Hub.Api.Sync.{Page, scan_rows, page_of, sync_page}

-- The client's loop, with fuel.
unfoldable pub follow : ℕ → ℕ → ℕ → List ChangeEntry → List ChangeEntry
follow zero limit since log = []
follow (suc fuel) limit since log =
    let p = sync_page limit since log log in
    let rest = follow fuel limit p.cursor log in p.changes ++ (if p.has_more then rest else [])

-- The rows of a page are the first ones, and it says whether there are more.
scan_rows-take :
    (limit k last : ℕ) (items rows : List ChangeEntry)
    → length items + k ≡ limit
    → scan_rows limit items last (take (suc k) rows)
      ≡ (items ++ take k rows, last_of last (take k rows), ltb k (length rows))
unfolding scan_rows
scan_rows-take limit zero last items [] full = rw (append-nil items) refl
scan_rows-take limit (suc k) last items [] full =
    let none_left : ltb (suc k) 0 ≡ false = ground arith in rw (append-nil items, none_left) refl
scan_rows-take limit zero last items (c ∷ rest) full =
    let stop : leb limit (length items) ≡ true = ground (arith, full) in
    let more : ltb 0 (suc (length rest)) ≡ true = ground arith in
    rw (stop, append-nil items, more) refl
scan_rows-take limit (suc k) last items (c ∷ rest) full =
    let on : leb limit (length items) ≡ false = ground (arith, full) in
    let shift : ltb (suc k) (suc (length rest)) ≡ ltb k (length rest) = ground arith in
    rw (on, shift)
      (scan_rows-take limit k c.seq (items ++ c ∷ []) rest
          (omega (arith, full, length-append items (c ∷ [])))
        ∙ ap (λ t. (t, last_of c.seq (take k rest), ltb k (length rest)))
            (append_assoc items (c ∷ []) (take k rest)))

take-Rising :
    (k lo : ℕ) (rows : List ChangeEntry) (hi : ℕ)
    → Rising lo rows hi
    → Rising lo (take k rows) (last_of lo (take k rows))
take-Rising zero lo rows hi h = omega arith
take-Rising (suc k) lo [] hi h = omega arith
take-Rising (suc k) lo (c ∷ rest) hi h = (h.0, take-Rising k c.seq rest hi h.1)

-- Beyond the last of the first rows are the others.
above-take :
    (k lo : ℕ) (rows : List ChangeEntry) (hi : ℕ)
    → Rising lo rows hi
    → above (last_of lo (take k rows)) rows ≡ drop k rows
unfolding above
above-take zero lo rows hi h = above-all lo lo rows hi h (omega arith)
above-take (suc k) lo [] hi h = refl
above-take (suc k) lo (c ∷ rest) hi h =
    let b =
      Rising-le c.seq (take k rest) (last_of c.seq (take k rest))
        (take-Rising k c.seq rest hi h.1) in
    let below : ltb (last_of c.seq (take k rest)) c.seq ≡ false = ground (arith, b) in
    rw below (above-take k c.seq rest hi h.1)

above-above :
    (n since : ℕ) (cs : List ChangeEntry) → since ≤ n → above n (above since cs) ≡ above n cs
unfolding above
above-above n since [] l = refl
above-above n since (c ∷ rest) l = elim (Bool-cases (ltb since c.seq)) [
  | inl new ↦
      let shown : above since (c ∷ rest) ≡ c ∷ above since rest = rw new refl in
      ap (above n) shown ∙ ap (λ t. if ltb n c.seq then c ∷ t else t) (above-above n since rest l)
  | inr old ↦
      let hidden : above since (c ∷ rest) ≡ above since rest = rw old refl in
      let below : ltb n c.seq ≡ false = ground (arith, old, l) in
      ap (above n) hidden ∙ (above-above n since rest l ∙ sym (rw below refl))
]

-- A page with more to come ends at its last row, from which the client goes on.
above-cursor :
    (limit since : ℕ) (log : List ChangeEntry) (hi : ℕ)
    → Rising 0 log hi
    → above (last_of since (take limit (above since log))) log ≡ drop limit (above since log)
above-cursor limit since log hi h =
    let rows = above since log in
    let rising = above-Rising since 0 log hi h in
    let b =
      Rising-le since (take limit rows) (last_of since (take limit rows))
        (take-Rising limit since rows (last_of since rows) rising) in
    sym (above-above (last_of since (take limit rows)) since log b)
    ∙ above-take limit since rows (last_of since rows) rising

last_of-anything : (a b : ℕ) (cs : List ChangeEntry) → 0 < length cs → last_of a cs ≡ last_of b cs
last_of-anything a b [] l = omega (arith, l)
last_of-anything a b (c ∷ rest) l = refl

sync_page-Pages :
    (limit since : ℕ) (log : List ChangeEntry) (hi : ℕ)
    → Rising 0 log hi
    → sync_page limit since log log
      ≡ page_of since log (
        take limit (above since log),
        last_of 0 (take limit (above since log)),
        ltb limit (length (above since log)),
      )
unfolding sync_page
sync_page-Pages limit since log hi h =
    rw (changes_since-above since log hi h)
      (ap (page_of since log) (scan_rows-take limit limit 0 [] (above since log) (omega arith)))

empty_of : (cs : List ChangeEntry) → length cs ≤ 0 → [] ≡ cs
empty_of [] l = refl
empty_of (c ∷ rest) l = ground (arith, l)

take_all : (k : ℕ) (cs : List ChangeEntry) → length cs ≤ k → take k cs ≡ cs
take_all zero cs l = empty_of cs l
take_all (suc k) [] l = refl
take_all (suc k) (c ∷ rest) l = ap (λ t. c ∷ t) (take_all k rest (omega (arith, l)))

-- What the client makes of a page.
abbrev turn : ℕ → ℕ → List ChangeEntry → Page → List ChangeEntry
turn fuel limit log p = p.changes ++ (if p.has_more then follow fuel limit p.cursor log else [])

last-turn :
    (fuel limit since last : ℕ) (log items : List ChangeEntry)
    → turn fuel limit log (page_of since log (items, last, false)) ≡ items
last-turn fuel limit since last log [] = refl
last-turn fuel limit since last log (c ∷ items) = append-nil (c ∷ items)

follow-turn :
    (fuel limit since : ℕ) (log : List ChangeEntry) (hi : ℕ) (more : Bool)
    → Rising 0 log hi
    → ltb limit (length (above since log)) ≡ more
    → follow (suc fuel) limit since log
      ≡ turn fuel limit log (
          page_of since log
            (take limit (above since log), last_of 0 (take limit (above since log)), more))
unfolding follow
follow-turn fuel limit since log hi more h at =
    ap (turn fuel limit log) (sync_page-Pages limit since log hi h)
    ∙ ap
        (λ b. turn fuel limit log (
          page_of since log
            (take limit (above since log), last_of 0 (take limit (above since log)), b)))
        at

-- In a log that is in order and does not change meanwhile, a client that follows the cursors while there
-- is more, with at least as many rounds as changes above its cursor, gets these changes, each once and
-- in order, whatever the size of a page.
pub follow-above :
    (fuel limit since : ℕ) (log : List ChangeEntry) (hi : ℕ)
    → Rising 0 log hi
    → 0 < limit
    → length (above since log) ≤ fuel
    → follow fuel limit since log ≡ above since log
unfolding follow
follow-above zero limit since log hi h some_room enough = empty_of (above since log) enough
follow-above (suc fuel) limit since log hi h some_room enough =
    let rows = above since log in
    elim (Bool-cases (ltb limit (length (above since log)))) [
      | inr done ↦
          follow-turn fuel limit since log hi false h done
          ∙ (last-turn fuel limit since (last_of 0 (take limit rows)) log (take limit rows)
              ∙ take_all limit rows (ground (arith, done)))
      | inl more ↦
          let long : limit < length rows = ground (arith, more) in
          let same : last_of 0 (take limit rows) ≡ last_of since (take limit rows) =
            last_of-anything 0 since (take limit rows)
              (omega (arith, length-take limit rows, long, some_room)) in
          let rest : above (last_of 0 (take limit rows)) log ≡ drop limit rows =
            ap (λ n. above n log) same ∙ above-cursor limit since log hi h in
          follow-turn fuel limit since log hi true h more
          ∙ (ap (λ t. take limit rows ++ t)
                (follow-above fuel limit (last_of 0 (take limit rows)) log hi h some_room
                    (omega (arith, ap length rest, length-drop limit rows, enough, some_room, long))
                  ∙ rest)
              ∙ take-append-drop limit rows)
    ]
