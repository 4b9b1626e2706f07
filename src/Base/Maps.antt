-- ===== src/Base/Maps.antt =====
-- A Go map with string keys as an association list. The order of the list stands for the order
-- in which a range over the map meets its entries, which Go leaves open.
use Prim.Native.Nat.{suc, ◌≤◌, ◌<◌}
use mathlib.Core.Path.{◌≡◌, refl, subst}
use mathlib.Core.Bool.{Bool}
use mathlib.Core.Logic.{inl, inr}
use mathlib.Core.List.{List, [], ◌∷◌}
use mathlib.Core.Option.{Option, none, some}
use native.Mathlib.Omega.{arith}
use repo_man.Base.Tests.{if◌then◌else◌, Bool-cases}
use repo_man.Base.Lists.{length}
use repo_man.Base.Text.{Str, eqb, eqb_iff, eqb→eq}

abbrev pub Dict {ℓ} : Type ℓ → Type ℓ
Dict V = List (Str × V)

module _ {ℓ} {V : Type ℓ} where
  unfoldable pub lookup : Str → Dict V → Option V
  unfolding eqb
  lookup k [] = none
  lookup k ((j, v) ∷ m) = if eqb j k then some v else lookup k m

  -- m[k] = v
  unfoldable pub insert : Str → V → Dict V → Dict V
  unfolding eqb
  insert k v [] = (k, v) ∷ []
  insert k v ((j, w) ∷ m) = if eqb j k then (j, v) ∷ m else (j, w) ∷ insert k v m

  -- delete(m, k)
  unfoldable pub delete : Str → Dict V → Dict V
  unfolding eqb
  delete k [] = []
  delete k ((j, w) ∷ m) = if eqb j k then delete k m else (j, w) ∷ delete k m

  -- The loop `for k, v := range m { if !p(v) { delete(m, k) } }`.
  unfoldable pub retain : (V → Bool) → Dict V → Dict V
  retain p [] = []
  retain p ((j, w) ∷ m) = if p w then (j, w) ∷ retain p m else retain p m

module _ {ℓ} {V : Type ℓ} where
  pub lookup-insert :
      (k j : Str) (v : V) (m : Dict V)
      → lookup j (insert k v m) ≡ (if eqb k j then some v else lookup j m)
  unfolding lookup insert
  lookup-insert k j v [] = refl
  lookup-insert k j v ((i, w) ∷ m) =
      unfold lookup insert in
      ground (arith, eqb_iff k j, eqb_iff i k, eqb_iff i j, lookup-insert k j v m)

  pub lookup-delete :
      (k j : Str) (m : Dict V) → lookup j (delete k m) ≡ (if eqb k j then none else lookup j m)
  unfolding lookup delete
  lookup-delete k j [] = ground arith
  lookup-delete k j ((i, w) ∷ m) =
      ground (arith, eqb_iff k j, eqb_iff i k, eqb_iff i j, lookup-delete k j m)

  pub length-insert_new :
      (k : Str) (v : V) (m : Dict V) → lookup k m ≡ none → length (insert k v m) ≡ suc (length m)
  unfolding lookup insert
  length-insert_new k v [] h = refl
  length-insert_new k v ((i, w) ∷ m) h = ground (arith, length-insert_new k v m)

  pub length-insert_old :
      (k : Str) (v w : V) (m : Dict V) → lookup k m ≡ some w → length (insert k v m) ≡ length m
  unfolding lookup insert
  length-insert_old k v w [] h = cc
  length-insert_old k v w ((i, u) ∷ m) h = ground (arith, length-insert_old k v w m)

  pub length-insert-le : (k : Str) (v : V) (m : Dict V) → length (insert k v m) ≤ suc (length m)
  unfolding insert
  length-insert-le k v [] = omega arith
  length-insert-le k v ((i, w) ∷ m) = ground (arith, length-insert-le k v m)

  pub length-delete-le : (k : Str) (m : Dict V) → length (delete k m) ≤ length m
  unfolding delete
  length-delete-le k [] = omega arith
  length-delete-le k ((i, w) ∷ m) = ground (arith, length-delete-le k m)

  pub length-delete-lt :
      (k : Str) (v : V) (m : Dict V) → lookup k m ≡ some v → length (delete k m) < length m
  unfolding lookup delete
  length-delete-lt k v [] h = cc
  length-delete-lt k v ((i, w) ∷ m) h = ground (arith, length-delete-le k m, length-delete-lt k v m)

  pub length-retain-le : (p : V → Bool) (m : Dict V) → length (retain p m) ≤ length m
  unfolding retain
  length-retain-le p [] = omega arith
  length-retain-le p ((i, w) ∷ m) = ground (arith, length-retain-le p m)

-- No key stands twice, as in every Go map.
module _ {ℓ} {V : Type ℓ} where
  abbrev pub IsDistinct : Dict V → Type ℓ
  IsDistinct [] = Unit
  IsDistinct ((k, v) ∷ m) = (lookup k m ≡ none) × IsDistinct m

  pub insert-IsDistinct : (k : Str) (v : V) (m : Dict V) → IsDistinct m → IsDistinct (insert k v m)
  unfolding insert lookup
  insert-IsDistinct k v [] h = (refl, tt)
  insert-IsDistinct k v ((i, w) ∷ m) h =
      ground (arith, lookup-insert k i v m, eqb_iff i k, eqb_iff k i, insert-IsDistinct k v m h.1)

  pub delete-IsDistinct : (k : Str) (m : Dict V) → IsDistinct m → IsDistinct (delete k m)
  unfolding delete
  delete-IsDistinct k [] h = tt
  delete-IsDistinct k ((i, w) ∷ m) h =
      ground (arith, lookup-delete k i m, delete-IsDistinct k m h.1)

  -- What a lookup finds after the entries that fail a test are gone.
  abbrev pub when : (V → Bool) → Option V → Option V
  when p none = none
  when p (some v) = if p v then some v else none

  pub lookup-retain :
      (p : V → Bool) (j : Str) (m : Dict V)
      → IsDistinct m
      → lookup j (retain p m) ≡ when p (lookup j m)
  unfolding lookup retain
  lookup-retain p j [] h = refl
  lookup-retain p j ((i, w) ∷ m) h = ground (arith, eqb_iff i j, lookup-retain p j m h.1)

  pub retain-IsDistinct : (p : V → Bool) (m : Dict V) → IsDistinct m → IsDistinct (retain p m)
  unfolding retain
  retain-IsDistinct p [] h = tt
  retain-IsDistinct p ((i, w) ∷ m) h =
      ground (arith, lookup-retain p i m h.1, retain-IsDistinct p m h.1)

-- A property of every entry, key and value.
module _ {ℓ κ} {V : Type ℓ} (P : Str → V → Type κ) where
  abbrev pub Entries : Dict V → Type κ
  Entries [] = Unit
  Entries ((k, v) ∷ m) = P k v × Entries m

  pub insert-Entries : (k : Str) (v : V) (m : Dict V) → P k v → Entries m → Entries (insert k v m)
  unfolding insert
  insert-Entries k v [] p h = (p, tt)
  insert-Entries k v ((i, w) ∷ m) p h = elim (Bool-cases (eqb i k)) [
    | inl e ↦ rw e (rw (eqb→eq i k e) (p, h.1))
    | inr e ↦ rw e (h.0, insert-Entries k v m p h.1)
  ]

  pub delete-Entries : (k : Str) (m : Dict V) → Entries m → Entries (delete k m)
  unfolding delete
  delete-Entries k [] h = tt
  delete-Entries k ((i, w) ∷ m) h = elim (Bool-cases (eqb i k)) [
    | inl e ↦ rw e (delete-Entries k m h.1)
    | inr e ↦ rw e (h.0, delete-Entries k m h.1)
  ]

  pub retain-Entries : (p : V → Bool) (m : Dict V) → Entries m → Entries (retain p m)
  unfolding retain
  retain-Entries p [] h = tt
  retain-Entries p ((i, w) ∷ m) h = elim (Bool-cases (p w)) [
    | inl e ↦ rw e (h.0, retain-Entries p m h.1)
    | inr e ↦ rw e (retain-Entries p m h.1)
  ]

  pub lookup-Entries : (k : Str) (v : V) (m : Dict V) → Entries m → lookup k m ≡ some v → P k v
  unfolding lookup
  lookup-Entries k v [] h e = cc
  lookup-Entries k v ((i, w) ∷ m) h e = elim (Bool-cases (eqb i k)) [
    | inl t ↦
        let e' : some w ≡ some v = rw t at e in
        let q : w ≡ v = cc in rw (← eqb→eq i k t) (subst (λ u. P i u) q h.0)
    | inr t ↦ let e' : lookup k m ≡ some v = rw t at e in lookup-Entries k v m h.1 e'
  ]
