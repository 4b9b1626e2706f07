-- ===== src/Auth/RateLimit/Sweep.antt =====
-- ratelimit.go: gc forgets nothing that a later call could tell.
use repo_man.Auth.RateLimit.{
  RateLimiter, IpRecord, empty_record, fail, locked, record_failure, gc, is_live,
}
use repo_man.Auth.RateLimit.Records.{IsWell}
use repo_man.Auth.RateLimit.Lockout.{
  record_failure_old, record_failure_new, locked-lookup, locked_absent,
}
use native.Mathlib.Decide.{dec_lt}
use repo_man.Base.{
  ℕ, ◌≤◌, ◌<◌, ◌≡◌, false, none, some, arith, Str, lookup, IsDistinct, Entries, when, lookup-retain,
  lookup-Entries, Option-cases, Bool-cases, inl, inr,
}

-- A record that gc drops holds no lock, then or later.
dead_unlocked :
    (swept now : ℕ) (r : IpRecord)
    → swept ≤ now
    → is_live swept r ≡ false
    → IsWell r
    → (fail now r ≡ fail now empty_record) × ((now < r.locked_until) → ⊥)
unfolding is_live fail
dead_unlocked swept now r le d w = (ground arith, λ h. ground arith)

lookup-gc :
    (swept : ℕ) (ip : Str) (l : RateLimiter)
    → IsDistinct l
    → lookup ip (gc swept l) ≡ when (is_live swept) (lookup ip l)
unfolding gc
lookup-gc swept ip l d = lookup-retain (is_live swept) ip l d

-- What the limiter answers about an IP after m agrees with what it answers after l.
abbrev pub Agree : ℕ → Str → RateLimiter → RateLimiter → Type 0
Agree now ip m l =
    ((locked now ip m).1 ≡ (locked now ip l).1)
    × ((locked now ip m).2 ≡ (locked now ip l).2)
    × (lookup ip (record_failure now ip m) ≡ lookup ip (record_failure now ip l))

Agree-absent :
    (now : ℕ) (ip : Str) (m l : RateLimiter)
    → lookup ip m ≡ none
    → lookup ip l ≡ none
    → Agree now ip m l
Agree-absent now ip m l e f =
    let a = locked_absent now ip m e in
    let b = locked_absent now ip l f in
    (
      cc (a.0, b.0),
      cc (a.1, b.1),
      cc (record_failure_new now ip m e, record_failure_new now ip l f),
    )

Agree-same :
    (now : ℕ) (ip : Str) (m l : RateLimiter) (r : IpRecord)
    → lookup ip m ≡ some r
    → lookup ip l ≡ some r
    → Agree now ip m l
Agree-same now ip m l r e f =
    let a = locked-lookup now ip m r e in
    let b = locked-lookup now ip l r f in
    (
      cc (a.0, b.0),
      held (dec_lt now r.locked_until),
      cc (record_failure_old now ip m r e, record_failure_old now ip l r f),
    )
  where
    held : Dec (now < r.locked_until) → (locked now ip m).2 ≡ (locked now ip l).2
    held (yes h) = cc ((locked-lookup now ip m r e).1.0 h, (locked-lookup now ip l r f).1.0 h)
    held (no h) = cc (
      (locked-lookup now ip m r e).1.1 (omega arith),
      (locked-lookup now ip l r f).1.1 (omega arith),
    )

Agree-dropped :
    (swept now : ℕ) (ip : Str) (m l : RateLimiter) (r : IpRecord)
    → swept ≤ now
    → is_live swept r ≡ false
    → IsWell r
    → lookup ip m ≡ none
    → lookup ip l ≡ some r
    → Agree now ip m l
Agree-dropped swept now ip m l r le d w e f =
    let dead = dead_unlocked swept now r le d w in
    let a = locked_absent now ip m e in
    let b = locked-lookup now ip l r f in
    let off : r.locked_until ≤ now = omega (arith, dead.1) in
    (
      omega (arith, a.0, b.0, off),
      cc (a.1, b.1.1 off),
      cc (record_failure_new now ip m e, record_failure_old now ip l r f, dead.0),
    )

-- For the entries of a map whose records are in a state that the limiter leaves them in, a sweep
-- cannot be told from no sweep by the first call after it: a question gets the same answer with the
-- same time left, and a failure leaves the same record of its IP.
pub Agree-gc :
    (swept now : ℕ) (ip : Str) (l : RateLimiter)
    → swept ≤ now
    → IsDistinct l
    → Entries (λ k r. IsWell r) l
    → Agree now ip (gc swept l) l
Agree-gc swept now ip l le d w = elim (Option-cases (lookup ip l)) [
  | inl e ↦ Agree-absent now ip (gc swept l) l (rw (lookup-gc swept ip l d, e)) e
  | inr (r, e) ↦ elim (Bool-cases (is_live swept r)) [
    | inl live ↦ Agree-same now ip (gc swept l) l r (rw (lookup-gc swept ip l d, e, live)) e
    | inr dead ↦
        Agree-dropped swept now ip (gc swept l) l r le dead
          (lookup-Entries (λ k u. IsWell u) ip r l w e) (rw (lookup-gc swept ip l d, e, dead)) e
  ]
]
