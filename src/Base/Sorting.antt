-- ===== src/Base/Sorting.antt =====
-- sort.Slice with a strict order. It leaves the order of equal members open; here they keep theirs.
use mathlib.Core.Path.{◌≡◌, refl, ◌∙◌}
use mathlib.Core.Logic.{inl, inr, ◌↔◌}
use mathlib.Core.Bool.{Bool, true, false, ◌&&◌, ◌||◌}
use mathlib.Core.List.{List, [], ◌∷◌, Memᴰ}
use native.Mathlib.Omega.{arith}
use repo_man.Base.Tests.{if◌then◌else◌, ◌==◌, ltb, Bool-cases}
use repo_man.Base.Lists.{length, keep, All}
use repo_man.Base.Text.{Str}

module _ {ℓ} {A : Type ℓ} (less : A → A → Bool) where
  unfoldable pub insert_sorted : A → List A → List A
  insert_sorted x [] = x ∷ []
  insert_sorted x (y ∷ ys) =
      let rest = insert_sorted x ys in if less y x then y ∷ rest else x ∷ y ∷ ys

  unfoldable pub sort_by : List A → List A
  unfolding insert_sorted
  sort_by [] = []
  sort_by (x ∷ xs) = insert_sorted x (sort_by xs)

  -- No member is less than one before it.
  abbrev pub IsSorted : List A → Type 0
  IsSorted [] = Unit
  IsSorted (x ∷ xs) = All (λ y. less y x ≡ false) xs × IsSorted xs

  -- The order is strict, and what is not less is transitive.
  pub record IsOrder : Type ℓ where
    pub asym : (a b : A) → less a b ≡ true → less b a ≡ false
    pub trans : (a b c : A) → less b a ≡ false → less c b ≡ false → less c a ≡ false

  All-insert_sorted :
      (P : A → Type 0) (x : A) (ys : List A) → P x → All P ys → All P (insert_sorted x ys)
  unfolding insert_sorted
  All-insert_sorted P x [] p h = (p, tt)
  All-insert_sorted P x (y ∷ ys) p h = elim (Bool-cases (less y x)) [
    | inl l ↦ rw l (h.0, All-insert_sorted P x ys p h.1)
    | inr n ↦ rw n (p, h)
  ]

  above :
      IsOrder
      → (x y : A) (ys : List A) → less y x ≡ false
      → All (λ z. less z y ≡ false) ys
      → All (λ z. less z x ≡ false) ys
  above o x y [] n h = tt
  above o x y (z ∷ ys) n h = (o.trans x y z n h.0, above o x y ys n h.1)

  insert_sorted-IsSorted :
      IsOrder → (x : A) (ys : List A) → IsSorted ys → IsSorted (insert_sorted x ys)
  unfolding insert_sorted
  insert_sorted-IsSorted o x [] s = (tt, tt)
  insert_sorted-IsSorted o x (y ∷ ys) s = elim (Bool-cases (less y x)) [
    | inl l ↦ rw l (
      All-insert_sorted (λ z. less z y ≡ false) x ys (o.asym y x l) s.0,
      insert_sorted-IsSorted o x ys s.1,
    )
    | inr n ↦ rw n ((n, above o x y ys n s.0), s)
  ]

  pub sort_by-IsSorted : IsOrder → (xs : List A) → IsSorted (sort_by xs)
  unfolding sort_by
  sort_by-IsSorted o [] = tt
  sort_by-IsSorted o (x ∷ xs) = insert_sorted-IsSorted o x (sort_by xs) (sort_by-IsSorted o xs)

  keep-insert_sorted :
      (p : A → Bool) (x : A) (ys : List A)
      → length (keep p (insert_sorted x ys)) ≡ length (keep p (x ∷ ys))
  unfolding insert_sorted keep
  keep-insert_sorted p x [] = refl
  keep-insert_sorted p x (y ∷ ys) = ground (arith, keep-insert_sorted p x ys)

  -- Sorting keeps how many members pass a test, for each test.
  pub keep-sort_by :
      (p : A → Bool) (xs : List A) → length (keep p (sort_by xs)) ≡ length (keep p xs)
  unfolding sort_by keep
  keep-sort_by p [] = refl
  keep-sort_by p (x ∷ xs) = keep-insert_sorted p x (sort_by xs) ∙ ground (arith, keep-sort_by p xs)

module _ {ℓ} {A : Type ℓ} (less : A → A → Bool) where
  -- Equal members, in front of equal lists.
  mem_cons : (a x : A) (ys zs : List A) → Memᴰ a ys ↔ Memᴰ a zs → Memᴰ a (x ∷ ys) ↔ Memᴰ a (x ∷ zs)
  mem_cons a x ys zs i = (to, from)
    where
      to : Memᴰ a (x ∷ ys) → Memᴰ a (x ∷ zs)
      to (Memᴰ.head q) = Memᴰ.head q
      to (Memᴰ.tail m) = Memᴰ.tail (i.0 m)

      from : Memᴰ a (x ∷ zs) → Memᴰ a (x ∷ ys)
      from (Memᴰ.head q) = Memᴰ.head q
      from (Memᴰ.tail m) = Memᴰ.tail (i.1 m)

  mem_swap : (a x y : A) (ys : List A) → Memᴰ a (x ∷ y ∷ ys) → Memᴰ a (y ∷ x ∷ ys)
  mem_swap a x y ys (Memᴰ.head q) = Memᴰ.tail (Memᴰ.head q)
  mem_swap a x y ys (Memᴰ.tail (Memᴰ.head q)) = Memᴰ.head q
  mem_swap a x y ys (Memᴰ.tail (Memᴰ.tail m)) = Memᴰ.tail (Memᴰ.tail m)

  mem-insert_sorted : (a x : A) (ys : List A) → Memᴰ a (insert_sorted less x ys) ↔ Memᴰ a (x ∷ ys)
  unfolding insert_sorted
  mem-insert_sorted a x [] = (λ m. m, λ m. m)
  mem-insert_sorted a x (y ∷ ys) = elim (Bool-cases (less y x)) [
    | inr n ↦ rw n (λ m. m, λ m. m)
    | inl l ↦
        let behind = mem_cons a y (insert_sorted less x ys) (x ∷ ys) (mem-insert_sorted a x ys) in
        rw l (λ m. mem_swap a y x ys (behind.0 m), λ m. behind.1 (mem_swap a x y ys m))
  ]

  -- Sorting keeps the members.
  pub mem-sort_by : (a : A) (xs : List A) → Memᴰ a (sort_by less xs) ↔ Memᴰ a xs
  unfolding sort_by
  mem-sort_by a [] = (λ m. m, λ m. m)
  mem-sort_by a (x ∷ xs) =
      let first = mem-insert_sorted a x (sort_by less xs) in
      let rest = mem_cons a x (sort_by less xs) xs (mem-sort_by a xs) in
      (λ m. rest.0 (first.0 m), λ m. first.1 (rest.1 m))

-- s < t on Go strings.
unfoldable pub less_str : Str → Str → Bool
less_str s [] = false
less_str [] (y ∷ t) = true
less_str (x ∷ s) (y ∷ t) = ltb x y || (x == y && less_str s t)

pub less_str-asym : (s t : Str) → less_str s t ≡ true → less_str t s ≡ false
unfolding less_str
less_str-asym s [] h = cc
less_str-asym [] (y ∷ t) h = refl
less_str-asym (x ∷ s) (y ∷ t) h = ground (arith, less_str-asym s t)

pub less_str_trans :
    (a b c : Str) → less_str b a ≡ false → less_str c b ≡ false → less_str c a ≡ false
unfolding less_str
less_str_trans [] b c h k = refl
less_str_trans (x ∷ a) [] c h k = cc
less_str_trans (x ∷ a) (y ∷ b) [] h k = cc
less_str_trans (x ∷ a) (y ∷ b) (z ∷ c) h k = ground (arith, less_str_trans a b c)
