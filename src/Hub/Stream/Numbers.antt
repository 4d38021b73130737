-- ===== src/Hub/Stream/Numbers.antt =====
-- hub/sse.go, changesSince: the changes above a number, when the log is in order.
use sakura_assistant.Base.{
  ℕ, ◌≤◌, ◌≡◌, refl, ap, ◌∙◌, true, false, ◌⊎◌, inl, inr, List, [], ◌∷◌, ◌++◌, ltb, leb, arith,
  Bool-cases,
}
use sakura_assistant.Hub.Types.{ChangeEntry}
use sakura_assistant.Hub.Fault.Invariant.{Rising}
use sakura_assistant.Hub.Stream.Client.{above, place_change, order_by_seq, changes_since, last_of}

pub Rising-lower :
    (lo' lo : ℕ) (cs : List ChangeEntry) (hi : ℕ) → lo' ≤ lo → Rising lo cs hi → Rising lo' cs hi
Rising-lower lo' lo [] hi l h = omega (arith, l, h)
Rising-lower lo' lo (c ∷ rest) hi l h = (omega (arith, l, h.0), h.1)

pub Rising-le : (lo : ℕ) (cs : List ChangeEntry) (hi : ℕ) → Rising lo cs hi → lo ≤ hi
Rising-le lo [] hi h = h
Rising-le lo (c ∷ rest) hi h = omega (arith, h.0, Rising-le c.seq rest hi h.1)

-- The changes after a cut are above those before it.
pub Rising-split :
    (lo : ℕ) (xs ys : List ChangeEntry) (hi : ℕ)
    → Rising lo (xs ++ ys) hi
    → (mid : ℕ) × Rising mid ys hi
Rising-split lo [] ys hi h = (lo, h)
Rising-split lo (x ∷ xs) ys hi h = Rising-split x.seq xs ys hi h.1

pub above-append :
    (n : ℕ) (xs ys : List ChangeEntry) → above n (xs ++ ys) ≡ above n xs ++ above n ys
unfolding above
above-append n [] ys = refl
above-append n (x ∷ xs) ys = elim (Bool-cases (ltb n x.seq)) [
  | inl new ↦ rw (new, above-append n xs ys) refl
  | inr old ↦ rw (old, above-append n xs ys) refl
]

pub above-all :
    (n lo : ℕ) (cs : List ChangeEntry) (hi : ℕ) → Rising lo cs hi → n ≤ lo → above n cs ≡ cs
unfolding above
above-all n lo [] hi h l = refl
above-all n lo (c ∷ rest) hi h l =
    let new : ltb n c.seq ≡ true = ground (arith, h.0, l) in
    rw (new, above-all n c.seq rest hi h.1 (omega (arith, h.0, l))) refl

pub above-none :
    (n lo : ℕ) (cs : List ChangeEntry) (hi : ℕ) → Rising lo cs hi → hi ≤ n → above n cs ≡ []
unfolding above
above-none n lo [] hi h l = refl
above-none n lo (c ∷ rest) hi h l =
    let b = Rising-le c.seq rest hi h.1 in
    let old : ltb n c.seq ≡ false = ground (arith, b, l) in
    rw (old, above-none n c.seq rest hi h.1 l) refl

place-first :
    (e : ChangeEntry) (cs : List ChangeEntry) (hi : ℕ)
    → Rising e.seq cs hi
    → place_change e cs ≡ e ∷ cs
unfolding place_change
place-first e [] hi h = refl
place-first e (c ∷ rest) hi h =
    let first : leb e.seq c.seq ≡ true = ground (arith, h.0) in rw first refl

-- Changes in order are not moved.
order_by_seq-Rising :
    (lo : ℕ) (cs : List ChangeEntry) (hi : ℕ) → Rising lo cs hi → order_by_seq cs ≡ cs
unfolding order_by_seq
order_by_seq-Rising lo [] hi h = refl
order_by_seq-Rising lo (c ∷ rest) hi h =
    rw (order_by_seq-Rising c.seq rest hi h.1) (place-first c rest hi h.1)

pub Rising-last :
    (lo : ℕ) (cs : List ChangeEntry) (hi : ℕ)
    → Rising lo cs hi
    → Rising lo cs (last_of lo cs) × (last_of lo cs ≤ hi)
Rising-last lo [] hi h = (omega arith, h)
Rising-last lo (c ∷ rest) hi h = let r = Rising-last c.seq rest hi h.1 in ((h.0, r.0), r.1)

pub above-Rising :
    (n lo : ℕ) (cs : List ChangeEntry) (hi : ℕ)
    → Rising lo cs hi
    → Rising n (above n cs) (last_of n (above n cs))
unfolding above
above-Rising n lo [] hi h = omega arith
above-Rising n lo (c ∷ rest) hi h = elim (Bool-cases (ltb n c.seq)) [
  | inr old ↦ rw old (above-Rising n c.seq rest hi h.1)
  | inl new ↦
      rw (new, above-all n c.seq rest hi h.1 (ground (arith, new)))
        (ground (arith, new), (Rising-last c.seq rest hi h.1).0)
]

pub changes_since-above :
    (n : ℕ) (cs : List ChangeEntry) (hi : ℕ) → Rising 0 cs hi → changes_since n cs ≡ above n cs
unfolding changes_since
changes_since-above n cs hi h =
    order_by_seq-Rising n (above n cs) (last_of n (above n cs)) (above-Rising n 0 cs hi h)

-- The last of the changes above a number, or the number, is the last of all.
pub above-last :
    (n lo : ℕ) (cs : List ChangeEntry) (hi : ℕ)
    → Rising lo cs hi
    → above (last_of n (above n cs)) cs ≡ []
unfolding above
above-last n lo [] hi h = refl
above-last n lo (c ∷ rest) hi h = elim (Bool-cases (ltb n c.seq)) [
  | inl new ↦
      let r = Rising-last c.seq rest hi h.1 in
      let whole : above n (c ∷ rest) ≡ c ∷ rest =
        rw (new, above-all n c.seq rest hi h.1 (ground (arith, new))) refl in
      ap (λ xs. above (last_of n xs) (c ∷ rest)) whole
      ∙ (above-none (last_of c.seq rest) lo (c ∷ rest) (last_of c.seq rest) (h.0, r.0)
          (omega arith))
  | inr old ↦
      let b =
        Rising-le n (above n rest) (last_of n (above n rest)) (above-Rising n c.seq rest hi h.1) in
      let below : ltb (last_of n (above n rest)) c.seq ≡ false = ground (arith, old, b) in
      let skipped : above n (c ∷ rest) ≡ above n rest = rw old refl in
      let skips : above (last_of n (above n rest)) (c ∷ rest)
          ≡ above (last_of n (above n rest)) rest =
        rw below refl in
      ap (λ xs. above (last_of n xs) (c ∷ rest)) skipped ∙ (skips ∙ above-last n c.seq rest hi h.1)
]

pub last_of-above :
    (n lo : ℕ) (cs : List ChangeEntry) (hi : ℕ)
    → Rising lo cs hi
    → (last_of n (above n cs) ≡ n) ⊎ (last_of n (above n cs) ≤ hi)
unfolding above
last_of-above n lo [] hi h = inl refl
last_of-above n lo (c ∷ rest) hi h = elim (Bool-cases (ltb n c.seq)) [
  | inr old ↦ rw old (last_of-above n c.seq rest hi h.1)
  | inl new ↦
      rw (new, above-all n c.seq rest hi h.1 (ground (arith, new)))
        (inr (Rising-last c.seq rest hi h.1).1)
]
