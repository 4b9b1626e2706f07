-- ===== src/Auth/Oldest.antt =====
-- The loop by which evictLRULocked (ratelimit.go) and evictOldestLocked (session.go) choose the
-- entry to drop. The two differ in the field that is compared, here the parameter `age`.
use repo_man.Base.{
  ℕ, ◌≤◌, ◌<◌, ◌≡◌, refl, ◌≢◌, ◌||◌, [], ◌∷◌, some, none, arith, Str, Dict, eqb, eqb_iff, lookup,
  delete, ltb, length, length-delete-lt, if◌then◌else◌, Entries, Bool-cases, inl, inr, IsDistinct,
  eqb_refl, eqb-nil, ltb→lt, delete-IsDistinct, delete-Entries, lookup-delete,
}

module _ {ℓ} {V : Type ℓ} (age : V → ℕ) where
  -- `best` is the key found so far, "" before the first; `at` is its age.
  unfoldable pub oldest_key : Str → ℕ → Dict V → Str
  unfolding eqb
  oldest_key best at [] = best
  oldest_key best at ((k, v) ∷ m) =
      oldest_key (if eqb best [] || ltb (age v) at then k else best)
        (if eqb best [] || ltb (age v) at then age v else at) m

  unfoldable pub evict_oldest : Dict V → Dict V
  unfolding oldest_key eqb
  evict_oldest m = let k = oldest_key [] 0 m in if eqb k [] then m else delete k m

  -- The key in hand, or a later one that is older; nothing that was passed is older.
  data Pick (best : Str) (at : ℕ) (m : Dict V) (k : Str) : Type ℓ where
    held : k ≡ best → Entries (λ j v. at ≤ age v) m → Pick best at m k
    found :
        (v : V)
        → lookup k m ≡ some v
        → age v ≤ at
        → Entries (λ j w. age v ≤ age w) m
        → Pick best at m k

  Entries-le :
      (a b : ℕ) (m : Dict V) → a ≤ b → Entries (λ j w. b ≤ age w) m → Entries (λ j w. a ≤ age w) m
  Entries-le a b [] h e = tt
  Entries-le a b ((j, w) ∷ m) h e = (omega arith, Entries-le a b m h e.1)

  -- A key found in the rest is found in the whole.
  lookup_later :
      (k r : Str) (v w : V) (m : Dict V)
      → IsDistinct ((k, v) ∷ m)
      → lookup r m ≡ some w
      → lookup r ((k, v) ∷ m) ≡ some w
  unfolding lookup
  lookup_later k r v w m d h = ground (arith, eqb_iff k r)

  lookup_here : (k : Str) (v : V) (m : Dict V) → lookup k ((k, v) ∷ m) ≡ some v
  unfolding lookup
  lookup_here k v m = rw eqb_refl

  Pick-take :
      (best k r : Str) (at : ℕ) (v : V) (m : Dict V)
      → IsDistinct ((k, v) ∷ m)
      → age v < at
      → Pick k (age v) m r
      → Pick best at ((k, v) ∷ m) r
  Pick-take best k r at v m d h (held e le) =
      found v (rw e (lookup_here k v m)) (omega arith) (omega arith, le)
  Pick-take best k r at v m d h (found w e a le) =
      found w (lookup_later k r v w m d e) (omega arith) (a, le)

  Pick-pass :
      (best k r : Str) (at : ℕ) (v : V) (m : Dict V)
      → IsDistinct ((k, v) ∷ m)
      → at ≤ age v
      → Pick best at m r
      → Pick best at ((k, v) ∷ m) r
  Pick-pass best k r at v m d h (held e le) = held e (h, le)
  Pick-pass best k r at v m d h (found w e a le) =
      found w (lookup_later k r v w m d e) a (omega arith, le)

  oldest_key-Pick :
      (best : Str) (at : ℕ) (m : Dict V)
      → best ≢ []
      → IsDistinct m
      → Entries (λ k v. k ≢ []) m
      → (oldest_key best at m ≢ []) × Pick best at m (oldest_key best at m)
  unfolding oldest_key
  oldest_key-Pick best at [] named d n = (named, held refl tt)
  oldest_key-Pick best at ((k, v) ∷ m) named d n = elim (Bool-cases (ltb (age v) at)) [
    | inl e ↦
        let ih = oldest_key-Pick k (age v) m n.0 d.1 n.1 in
        rw (eqb-nil best named, e) (ih.0, Pick-take best k _ at v m d (ltb→lt _ _ e) ih.1)
    | inr e ↦
        let ih = oldest_key-Pick best at m named d.1 n.1 in
        rw (eqb-nil best named, e) (ih.0, Pick-pass best k _ at v m d (ground arith) ih.1)
  ]

  -- The loop from its start finds an entry of a map that is not empty, and none is older.
  pub oldest_key_least :
      (k : Str) (v : V) (m : Dict V)
      → IsDistinct ((k, v) ∷ m)
      → Entries (λ j w. j ≢ []) ((k, v) ∷ m)
      → (oldest_key [] 0 ((k, v) ∷ m) ≢ [])
        × ((w : V) × (lookup (oldest_key [] 0 ((k, v) ∷ m)) ((k, v) ∷ m) ≡ some w)
            × Entries (λ j u. age w ≤ age u) ((k, v) ∷ m))
  unfolding oldest_key
  oldest_key_least k v m d n = let p = oldest_key-Pick k (age v) m n.0 d.1 n.1 in (p.0, least _ p.1)
    where
      least :
          (r : Str)
          → Pick k (age v) m r
          → (w : V) × (lookup r ((k, v) ∷ m) ≡ some w) × Entries (λ j u. age w ≤ age u) ((k, v) ∷ m)
      least r (held e le) = (v, rw e (lookup_here k v m), (omega arith, le))
      least r (found w e a le) = (w, lookup_later k r v w m d e, (a, le))

  -- So a map that is not empty gets shorter.
  pub evict_oldest_shrinks :
      (m : Dict V)
      → IsDistinct m
      → Entries (λ k v. k ≢ []) m
      → 0 < length m
      → length (evict_oldest m) < length m
  unfolding evict_oldest
  evict_oldest_shrinks [] d n h = absurd (omega arith)
  evict_oldest_shrinks ((k, v) ∷ m) d n h =
      let p = oldest_key_least k v m d n in
      rw (eqb-nil _ p.0) (length-delete-lt _ _ ((k, v) ∷ m) p.1.1)

  pub evict_oldest-IsDistinct : (m : Dict V) → IsDistinct m → IsDistinct (evict_oldest m)
  unfolding evict_oldest
  evict_oldest-IsDistinct m d = ground (arith, delete-IsDistinct (oldest_key [] 0 m) m d)

  pub evict_oldest-Entries {κ} :
      (P : Str → V → Type κ) (m : Dict V) → Entries P m → Entries P (evict_oldest m)
  unfolding evict_oldest
  evict_oldest-Entries P m h = elim (Bool-cases (eqb (oldest_key [] 0 m) [])) [
    | inl e ↦ rw e h
    | inr e ↦ rw e (delete-Entries P _ m h)
  ]

  -- A key that is not there stays away.
  pub evict_oldest-none :
      (k : Str) (m : Dict V) → lookup k m ≡ none → lookup k (evict_oldest m) ≡ none
  unfolding evict_oldest
  evict_oldest-none k m h = ground (arith, lookup-delete (oldest_key [] 0 m) k m)
