-- ===== src/Auth/RateLimit/History.antt =====
-- ratelimit.go: the records over a history of calls on a clock that does not go back.
use repo_man.Auth.RateLimit.{
  RateLimiter, IpRecord, Call, asks_locked, fails, succeeds, sweeps, step, locked, record_failure,
  record_success, gc, is_live, empty_record, fail, refresh, strike, evict_lru, max_tracked_ips,
}
use repo_man.Auth.RateLimit.Bounds.{run}
use repo_man.Auth.RateLimit.Records.{IsWell, empty-IsWell, refresh-IsWell, strike-IsWell}
use repo_man.Auth.RateLimit.Sweep.{Agree, Agree-gc}
use repo_man.Auth.Oldest.{evict_oldest-Entries, evict_oldest-IsDistinct}
use repo_man.Base.{
  ℕ, ◌≤◌, ◌<◌, List, [], ◌∷◌, arith, Str, lookup, insert, length, leb, IsDistinct, Entries,
  insert-Entries, delete-Entries, retain-Entries, lookup-Entries, insert-IsDistinct,
  delete-IsDistinct, retain-IsDistinct, Option-cases, Bool-cases, inl, inr,
}

-- A record that is well-formed, with no failure after `now`.
abbrev pub IsSound : ℕ → Str → IpRecord → Type 0
IsSound now ip r = IsWell r × (r.last_failure ≤ now)

abbrev pub time : ℕ → Call → ℕ
time now (asks_locked t ip) = t
time now (fails t ip) = t
time now (succeeds ip) = now
time now (sweeps t) = t

-- The clock reads no earlier instant than `now`, and never its zero.
abbrev pub Ordered : ℕ → List Call → Type 0
Ordered now [] = Unit
Ordered now (c ∷ cs) = (now ≤ time now c) × (0 < time now c) × Ordered (time now c) cs

later : (s t : ℕ) (l : RateLimiter) → s ≤ t → Entries (IsSound s) l → Entries (IsSound t) l
later s t [] h e = tt
later s t ((k, r) ∷ l) h e = ((e.0.0, omega arith), later s t l h e.1)

seen-IsWell : (now : ℕ) (r : IpRecord) → IsWell r → IsWell (record r { last_seen = now })
seen-IsWell now r w = record {
  unused = w.unused;
  lasting = w.lasting;
  ordered = w.ordered;
  locks = w.locks;
  counts = w.counts;
}

refresh_late : (now : ℕ) (r : IpRecord) → r.last_failure ≤ now → (refresh now r).last_failure ≤ now
unfolding refresh
refresh_late now r h = ground arith

strike_late : (now : ℕ) (r : IpRecord) → r.last_failure ≤ now → (strike now r).last_failure ≤ now
unfolding strike
strike_late now r h = ground arith

fail-IsSound :
    (ip : Str) (now : ℕ) (r : IpRecord) → 0 < now → IsSound now ip r → IsSound now ip (fail now r)
unfolding fail
fail-IsSound ip now r pos s =
    let q : IpRecord = record r { last_seen = now } in
    let w : IsWell q = seen-IsWell now r s.0 in
    (
      strike-IsWell now (refresh now q) pos (refresh_late now q s.1) (refresh-IsWell now q w),
      strike_late now (refresh now q) (refresh_late now q s.1),
    )

record IsKept (now : ℕ) (l : RateLimiter) : Type 0 where
  distinct : IsDistinct l
  sound : Entries (IsSound now) l

put-IsKept :
    (now : ℕ) (ip : Str) (r : IpRecord) (l : RateLimiter)
    → IsSound now ip r
    → IsKept now l
    → IsKept now (insert ip r l)
put-IsKept now ip r l s k = record {
  distinct = insert-IsDistinct ip r l k.distinct;
  sound = insert-Entries (IsSound now) ip r l s k.sound;
}

evict_lru-IsKept : (now : ℕ) (l : RateLimiter) → IsKept now l → IsKept now (evict_lru l)
unfolding evict_lru
evict_lru-IsKept now l k = record {
  distinct = evict_oldest-IsDistinct _ l k.distinct;
  sound = evict_oldest-Entries _ (IsSound now) l k.sound;
}

record_failure-IsKept :
    (now : ℕ) (ip : Str) (l : RateLimiter)
    → 0 < now
    → IsKept now l
    → IsKept now (record_failure now ip l)
unfolding record_failure
record_failure-IsKept now ip l pos k = elim (Option-cases (lookup ip l)) [
  | inr (r, e) ↦
      rw (e, record_failure)
        (put-IsKept now ip _ l
          (fail-IsSound ip now r pos (lookup-Entries (IsSound now) ip r l k.sound e)) k)
  | inl e ↦
      let s = fail-IsSound ip now empty_record pos (empty-IsWell, omega arith) in
      elim (Bool-cases (leb max_tracked_ips (length l))) [
        | inl full ↦
            rw (e, record_failure, full)
              (put-IsKept now ip _ (evict_lru l) s (evict_lru-IsKept now l k))
        | inr room ↦ rw (e, record_failure, room) (put-IsKept now ip _ l s k)
      ]
]

locked-IsKept :
    (now : ℕ) (ip : Str) (l : RateLimiter) → IsKept now l → IsKept now (locked now ip l).0
locked-IsKept now ip l k = elim (Option-cases (lookup ip l)) [
  | inl e ↦ unfold locked in rw (e, locked) k
  | inr (r, e) ↦
      let s = lookup-Entries (IsSound now) ip r l k.sound e in
      let p = put-IsKept now ip (record r { last_seen = now }) l (seen-IsWell now r s.0, s.1) k in
      unfold locked in rw (e, locked) (ground (arith, p))
]

step-IsKept :
    (now : ℕ) (c : Call) (l : RateLimiter)
    → now ≤ time now c
    → 0 < time now c
    → IsKept now l
    → IsKept (time now c) (step c l)
unfolding step
step-IsKept now (asks_locked t ip) l le pos k =
    locked-IsKept t ip l (record { distinct = k.distinct; sound = later now t l le k.sound })
step-IsKept now (fails t ip) l le pos k =
    record_failure-IsKept t ip l pos
      (record { distinct = k.distinct; sound = later now t l le k.sound })
step-IsKept now (succeeds ip) l le pos k =
    unfold record_success in
    record {
      distinct = delete-IsDistinct ip l k.distinct;
      sound = delete-Entries (IsSound now) ip l k.sound;
    }
step-IsKept now (sweeps t) l le pos k =
    unfold gc in
    record {
      distinct = retain-IsDistinct (is_live t) l k.distinct;
      sound = retain-Entries (IsSound t) (is_live t) l (later now t l le k.sound);
    }

abbrev pub end : ℕ → List Call → ℕ
end now [] = now
end now (c ∷ cs) = end (time now c) cs

run-IsKept :
    (now : ℕ) (cs : List Call) (l : RateLimiter)
    → Ordered now cs
    → IsKept now l
    → IsKept (end now cs) (run cs l)
unfolding run
run-IsKept now [] l o k = k
run-IsKept now (c ∷ cs) l o k =
    run-IsKept (time now c) cs (step c l) o.2 (step-IsKept now c l o.0 o.1 k)

Entries-IsWell : (now : ℕ) (l : RateLimiter) → Entries (IsSound now) l → Entries (λ k r. IsWell r) l
Entries-IsWell now [] e = tt
Entries-IsWell now ((k, r) ∷ l) e = (e.0.0, Entries-IsWell now l e.1)

-- After any history of calls, from the empty map, on a clock that does not go back, the first call
-- after a sweep, at its instant or later, goes as without the sweep: the question whether an IP is
-- locked gets the same answer with the same time left, and a failure leaves the same record of its
-- IP.
pub Agree-gc-run :
    (cs : List Call) (swept now : ℕ) (ip : Str)
    → Ordered 0 cs
    → swept ≤ now
    → Agree now ip (gc swept (run cs [])) (run cs [])
Agree-gc-run cs swept now ip o le =
    let k = run-IsKept 0 cs [] o (record { distinct = tt; sound = tt }) in
    Agree-gc swept now ip (run cs []) le k.distinct (Entries-IsWell (end 0 cs) (run cs []) k.sound)
