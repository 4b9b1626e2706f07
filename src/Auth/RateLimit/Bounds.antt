-- ===== src/Auth/RateLimit/Bounds.antt =====
-- ratelimit.go: the size of the map of tracked IPs over any history of calls.
use repo_man.Auth.Oldest.{
  evict_oldest_shrinks, evict_oldest-IsDistinct, evict_oldest-Entries, evict_oldest-none,
}
use repo_man.Auth.RateLimit.{
  RateLimiter, IpRecord, Call, asks_locked, fails, succeeds, sweeps, step, locked, record_failure,
  record_success, gc, evict_lru, max_tracked_ips, is_live,
}
use repo_man.Base.{
  ℕ, ◌≤◌, ◌<◌, ◌≡◌, ◌≢◌, List, [], ◌∷◌, none, some, arith, Str, lookup, insert, length, IsDistinct,
  Entries, All, leb, leb→le, insert-IsDistinct, delete-IsDistinct, retain-IsDistinct,
  insert-Entries, delete-Entries, retain-Entries, length-insert_new, length-insert_old,
  length-delete-le, length-retain-le, Option-cases, Bool-cases, inl, inr,
}

-- The IP of a call is not the empty string.
abbrev pub HasIp : Call → Type 0
HasIp (asks_locked now ip) = ip ≢ []
HasIp (fails now ip) = ip ≢ []
HasIp (succeeds ip) = ip ≢ []
HasIp (sweeps now) = Unit

pub record IsBounded (l : RateLimiter) : Type 0 where
  pub distinct : IsDistinct l
  pub named : Entries (λ k v. k ≢ []) l
  pub bounded : length l ≤ max_tracked_ips

replace-IsBounded :
    (ip : Str) (old new : IpRecord) (l : RateLimiter)
    → ip ≢ []
    → lookup ip l ≡ some old
    → IsBounded l
    → IsBounded (insert ip new l)
replace-IsBounded ip old new l h e b = record {
  distinct = insert-IsDistinct ip new l b.distinct;
  named = insert-Entries (λ k v. k ≢ []) ip new l h b.named;
  bounded = omega (arith, length-insert_old ip new old l e, b.bounded);
}

add-IsBounded :
    (ip : Str) (new : IpRecord) (l : RateLimiter)
    → ip ≢ []
    → lookup ip l ≡ none
    → IsBounded l
    → length l < max_tracked_ips
    → IsBounded (insert ip new l)
add-IsBounded ip new l h e b s = record {
  distinct = insert-IsDistinct ip new l b.distinct;
  named = insert-Entries (λ k v. k ≢ []) ip new l h b.named;
  bounded = omega (arith, length-insert_new ip new l e);
}

evict_lru-IsBounded :
    (l : RateLimiter)
    → max_tracked_ips ≤ length l
    → IsBounded l
    → IsBounded (evict_lru l) × (length (evict_lru l) < max_tracked_ips)
unfolding evict_lru
evict_lru-IsBounded l full b =
    let s = evict_oldest_shrinks (λ rec. rec.last_seen) l b.distinct b.named (omega arith) in
    (
      record {
        distinct = evict_oldest-IsDistinct _ l b.distinct;
        named = evict_oldest-Entries _ (λ k v. k ≢ []) l b.named;
        bounded = omega (arith, s, b.bounded);
      },
      omega (arith, s, b.bounded),
    )

record_failure-IsBounded :
    (now : ℕ) (ip : Str) (l : RateLimiter)
    → ip ≢ []
    → IsBounded l
    → IsBounded (record_failure now ip l)
unfolding record_failure
record_failure-IsBounded now ip l h b = elim (Option-cases (lookup ip l)) [
  | inr (rec, e) ↦ rw (e, record_failure) (replace-IsBounded ip rec _ l h e b)
  | inl e ↦ elim (Bool-cases (leb max_tracked_ips (length l))) [
    | inl full ↦
        rw (e, record_failure, full)
          (let s = evict_lru-IsBounded l (leb→le _ _ full) b in
            add-IsBounded ip _ (evict_lru l) h (evict_oldest-none _ ip l e) s.0 s.1)
    | inr room ↦ rw (e, record_failure, room) (add-IsBounded ip _ l h e b (ground arith))
  ]
]

locked-IsBounded :
    (now : ℕ) (ip : Str) (l : RateLimiter) → ip ≢ [] → IsBounded l → IsBounded (locked now ip l).0
unfolding locked
locked-IsBounded now ip l h b = elim (Option-cases (lookup ip l)) [
  | inl e ↦ rw (e, locked) b
  | inr (rec, e) ↦ ground (arith, replace-IsBounded ip rec (record rec { last_seen = now }) l h e b)
]

step-IsBounded : (c : Call) (l : RateLimiter) → HasIp c → IsBounded l → IsBounded (step c l)
unfolding step record_success gc
step-IsBounded (asks_locked now ip) l h b = locked-IsBounded now ip l h b
step-IsBounded (fails now ip) l h b = record_failure-IsBounded now ip l h b
step-IsBounded (succeeds ip) l h b = record {
  distinct = delete-IsDistinct ip l b.distinct;
  named = delete-Entries (λ k v. k ≢ []) ip l b.named;
  bounded = omega (arith, length-delete-le ip l, b.bounded);
}
step-IsBounded (sweeps now) l h b = record {
  distinct = retain-IsDistinct (is_live now) l b.distinct;
  named = retain-Entries (λ k v. k ≢ []) (is_live now) l b.named;
  bounded = omega (arith, length-retain-le (is_live now) l, b.bounded);
}

unfoldable pub run : List Call → RateLimiter → RateLimiter
run [] l = l
run (c ∷ cs) l = run cs (step c l)

run-IsBounded :
    (cs : List Call) (l : RateLimiter) → All HasIp cs → IsBounded l → IsBounded (run cs l)
unfolding run
run-IsBounded [] l h b = b
run-IsBounded (c ∷ cs) l h b = run-IsBounded cs (step c l) h.1 (step-IsBounded c l h.0 b)

-- After any history of calls whose IPs are not empty strings, from the empty map, every key of the
-- map stands once and is not empty, and at most max_tracked_ips IPs are tracked.
pub run-empty-IsBounded : (cs : List Call) → All HasIp cs → IsBounded (run cs [])
run-empty-IsBounded cs h =
    run-IsBounded cs [] h (record { distinct = tt; named = tt; bounded = omega arith })
