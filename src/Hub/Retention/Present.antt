-- ===== src/Hub/Retention/Present.antt =====
-- hub/retention.go: rows that are in a table, and what a deletion or a selection makes of them.
use sakura_assistant.Base.{
  String, ◌≡◌, refl, sym, ap, ◌∙◌, if◌then◌else◌, ◌⊎◌, inl, inr, Bool, true, false, List, [], ◌∷◌,
  ◌++◌, All, Bool-cases,
}
use sakura_assistant.Hub.Retention.Run.{delete_where, ids_where, select}

abbrev pub In : {A : Type 0} → A → List A → Type 0
In x [] = ⊥
In x (y ∷ ys) = (x ≡ y) ⊎ In x ys

module _ {A : Type 0} where
  pub In-append : (x : A) (xs ys : List A) → In x xs → In x (xs ++ ys)
  In-append x [] ys h = absurd h
  In-append x (y ∷ xs) ys (inl e) = inl e
  In-append x (y ∷ xs) ys (inr h) = inr (In-append x xs ys h)

  pub In-snoc : (x : A) (xs : List A) → In x (xs ++ x ∷ [])
  In-snoc x [] = inl refl
  In-snoc x (y ∷ xs) = inr (In-snoc x xs)

  pub All-weaken : (P Q : A → Type 0) (xs : List A) → ((x : A) → P x → Q x) → All P xs → All Q xs
  All-weaken P Q [] f h = tt
  All-weaken P Q (x ∷ xs) f h = (f x h.0, All-weaken P Q xs f h.1)

  -- Each row of a list is in it.
  pub All-In : (P : A → Type 0) (xs : List A) → ((x : A) → In x xs → P x) → All P xs
  All-In P [] f = tt
  All-In P (x ∷ xs) f = (f x (inl refl), All-In P xs (λ y h. f y (inr h)))

  In-either :
      (b : Bool) (x y : A) (ys : List A) → In x (if b then ys else y ∷ ys) → (x ≡ y) ⊎ In x ys
  In-either true x y ys h = inr h
  In-either false x y ys h = h

module _ {A : Type 0} (p : A → Bool) where
  pub delete_where-In : (x : A) (xs : List A) → p x ≡ false → In x xs → In x (delete_where p xs)
  unfolding delete_where
  delete_where-In x [] stays h = absurd h
  delete_where-In x (y ∷ xs) stays (inl e) =
      let kept : p y ≡ false = sym (ap p e) ∙ stays in rw kept (inl e)
  delete_where-In x (y ∷ xs) stays (inr h) = elim (Bool-cases (p y)) [
    | inl goes ↦ rw goes (delete_where-In x xs stays h)
    | inr kept ↦ rw kept (inr (delete_where-In x xs stays h))
  ]

  pub In-delete_where : (x : A) (xs : List A) → In x (delete_where p xs) → In x xs
  unfolding delete_where
  In-delete_where x [] h = h
  In-delete_where x (y ∷ xs) h = elim (In-either (p y) x y (delete_where p xs) h) [
    | inl e ↦ inl e
    | inr later ↦ inr (In-delete_where x xs later)
  ]

  pub delete_where-All : (P : A → Type 0) (xs : List A) → All P xs → All P (delete_where p xs)
  unfolding delete_where
  delete_where-All P [] h = tt
  delete_where-All P (x ∷ xs) h = elim (Bool-cases (p x)) [
    | inl goes ↦ rw (All, goes) (delete_where-All P xs h.1)
    | inr kept ↦ rw (All, kept) (h.0, delete_where-All P xs h.1)
  ]

  pub select-All :
      (P : A → Type 0) (xs : List A) → ((x : A) → In x xs → p x ≡ true → P x) → All P (select p xs)
  unfolding select
  select-All P [] f = tt
  select-All P (x ∷ xs) f = elim (Bool-cases (p x)) [
    | inl chosen ↦ rw (All, chosen) (f x (inl refl) chosen, select-All P xs (λ y h. f y (inr h)))
    | inr other ↦ rw (All, other) (select-All P xs (λ y h. f y (inr h)))
  ]

  pub ids_where-All :
      (id : A → String) (P : String → Type 0) (xs : List A)
      → ((x : A) → In x xs → p x ≡ true → P (id x))
      → All P (ids_where p id xs)
  unfolding ids_where
  ids_where-All id P [] f = tt
  ids_where-All id P (x ∷ xs) f = elim (Bool-cases (p x)) [
    | inl chosen ↦
        rw (All, chosen) (f x (inl refl) chosen, ids_where-All id P xs (λ y h. f y (inr h)))
    | inr other ↦ rw (All, other) (ids_where-All id P xs (λ y h. f y (inr h)))
  ]
