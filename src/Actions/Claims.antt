-- ===== src/Actions/Claims.antt =====
-- actions.go: the claims of concurrent InitRepo calls. beginInit and endInit hold the mutex, so
-- calls interleave at them.
use repo_man.Actions.{begin_init, end_init, claim}
use repo_man.Base.{
  ℕ, suc, ◌+◌, ◌≤◌, ◌≡◌, refl, ap, sym, subst, ◌↔◌, arith, List, [], ◌∷◌, ◌++◌, Option, none, some,
  Str, Dict, lookup, insert, lookup-insert, lookup-delete, eqb, eqb_iff, if◌then◌else◌,
}

-- The claims, and the destinations of the calls between beginInit and endInit.
pub record Calls : Type 0 where
  pub initing : Dict (Unit {0})
  pub holders : List Str

-- One call takes its claim or gives it back; a call that is refused changes nothing.
pub data Step (c : Calls) : Calls → Type 0 where
  enter :
      (abs : Str) (m : Dict (Unit {0}))
      → begin_init abs c.initing ≡ some m
      → Step c (record { initing = m; holders = abs ∷ c.holders })
  leave :
      (abs : Str) (before after : List Str)
      → c.holders ≡ before ++ abs ∷ after
      → Step c (record { initing = end_init abs c.initing; holders = before ++ after })

-- What concurrent calls lead to.
pub data Reach (c : Calls) : Calls → Type 0 where
  here : Reach c c
  next : {d e : Calls} → Reach c d → Step d e → Reach c e

-- How often a destination is held.
unfoldable pub count_of : Str → List Str → ℕ
count_of k [] = 0
count_of k (h ∷ hs) = if eqb h k then suc (count_of k hs) else count_of k hs

abbrev pub held : Option (Unit {0}) → ℕ
held none = 0
held (some u) = 1

-- A destination is claimed while one call holds it.
abbrev pub IsExclusive : Calls → Type 0
IsExclusive c = (k : Str) → count_of k c.holders ≡ held (lookup k c.initing)

count_of-append :
    (k : Str) (xs ys : List Str) → count_of k (xs ++ ys) ≡ count_of k xs + count_of k ys
unfolding count_of
count_of-append k [] ys = omega arith
count_of-append k (x ∷ xs) ys = ground (arith, count_of-append k xs ys)

claimed :
    (abs : Str) (m m' : Dict (Unit {0}))
    → begin_init abs m ≡ some m'
    → (lookup abs m ≡ none) × (m' ≡ insert abs tt m)
unfolding begin_init
claimed abs m m' h = taken (lookup abs m) refl h
  where
    taken :
        (o : Option (Unit {0}))
        → lookup abs m ≡ o
        → claim abs m o ≡ some m'
        → (lookup abs m ≡ none) × (m' ≡ insert abs tt m)
    taken none q h = (q, cc)
    taken (some u) q h = absurd (cc (h))

held-le : (o : Option (Unit {0})) → held o ≤ 1
held-le none = omega arith
held-le (some u) = omega arith

Step-IsExclusive : {c d : Calls} → Step c d → IsExclusive c → IsExclusive d
unfolding end_init count_of
Step-IsExclusive {c = c} (enter abs m h) i k =
    let q = claimed abs c.initing m h in
    let l : lookup abs c.initing ≡ none = q.0 in
    let g = lookup-insert abs k tt c.initing in
    subst (λ m. count_of k (abs ∷ c.holders) ≡ held (lookup k m)) (sym q.1)
      (ground (arith, g, l, i k, eqb_iff abs k))
Step-IsExclusive {c = c} (leave abs before after h) i k =
    let g = lookup-delete abs k c.initing in
    let n = count_of-append k before after in
    let o = count_of-append k before (abs ∷ after) in
    let e : count_of k c.holders ≡ count_of k (before ++ abs ∷ after) = ap (count_of k) h in
    let b = held-le (lookup k c.initing) in ground (arith, g, n, o, e, i k, b)

abbrev pub no_calls : Calls
no_calls = record { initing = []; holders = [] }

Reach-IsExclusive : {c : Calls} → Reach no_calls c → IsExclusive c
unfolding count_of lookup
Reach-IsExclusive here k = refl
Reach-IsExclusive (next r s) k = Step-IsExclusive s (Reach-IsExclusive r) k

-- However calls of InitRepo interleave, at most one of them holds a destination, and beginInit
-- refuses a destination exactly while one does.
pub Reach-exclusive :
    {c : Calls}
    → Reach no_calls c
    → (k : Str)
    → (count_of k c.holders ≤ 1) × ((begin_init k c.initing ≡ none) ↔ (count_of k c.holders ≡ 1))
unfolding begin_init
Reach-exclusive {c = c} r k =
    exclusive (count_of k c.holders) (lookup k c.initing) (Reach-IsExclusive r k)
  where
    exclusive :
        (n : ℕ) (o : Option (Unit {0}))
        → n ≡ held o
        → (n ≤ 1) × ((claim k c.initing o ≡ none) ↔ (n ≡ 1))
    exclusive n none h =
        (omega (arith, h), (λ e. absurd (cc (e)), λ e. absurd (omega (arith, h, e))))
    exclusive n (some u) h = (omega (arith, h), (λ e. h, λ e. refl))
