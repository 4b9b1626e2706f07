-- ===== src/Auth/Session/Bounds.antt =====
-- session.go: the number of sessions, and which one makes room for a new one.
use repo_man.Auth.Oldest.{
  evict_oldest_shrinks, evict_oldest-IsDistinct, evict_oldest-Entries, oldest_key, oldest_key_least,
}
use repo_man.Auth.Session.{
  SessionStore, SessionRecord, max_sessions, create, touch, mark_cookie_issued, delete_session, gc,
  count, evict_oldest_session,
}
use repo_man.Base.{
  ℕ, ◌≤◌, ◌<◌, ◌≡◌, refl, ◌≢◌, ◌⊎◌, List, [], ◌∷◌, not, none, some, arith, Str, lookup, insert,
  delete, length, IsDistinct, Entries, All, leb, ltb, leb→le, le→leb, eqb-nil, eqb_refl, eqb_iff,
  lookup-insert, lookup-delete, insert-IsDistinct, delete-IsDistinct, retain-IsDistinct,
  insert-Entries, delete-Entries, retain-Entries, length-insert-le, length-insert_old,
  length-delete-le, length-retain-le, Option-cases, Bool-cases, inl, inr,
}

-- Every id of the store stands once and is not the empty string, and the store is within its cap.
pub record IsBounded (s : SessionStore) : Type 0 where
  pub distinct : IsDistinct s
  pub named : Entries (λ k v. k ≢ []) s
  pub bounded : length s ≤ max_sessions

insert-IsBounded :
    (id : Str) (rec : SessionRecord) (s : SessionStore)
    → id ≢ []
    → IsBounded s
    → (length s < max_sessions) ⊎ ((old : SessionRecord) × (lookup id s ≡ some old))
    → IsBounded (insert id rec s)
insert-IsBounded id rec s h b room = record {
  distinct = insert-IsDistinct id rec s b.distinct;
  named = insert-Entries (λ k v. k ≢ []) id rec s h b.named;
  bounded = fits room;
}
  where
    fits :
        (length s < max_sessions) ⊎ ((old : SessionRecord) × (lookup id s ≡ some old))
        → length (insert id rec s) ≤ max_sessions
    fits (inl lt) = omega (arith, length-insert-le id rec s)
    fits (inr (old, e)) = omega (arith, length-insert_old id rec old s e, b.bounded)

evict_oldest_session-IsBounded :
    (s : SessionStore)
    → max_sessions ≤ length s
    → IsBounded s
    → IsBounded (evict_oldest_session s) × (length (evict_oldest_session s) < max_sessions)
unfolding evict_oldest_session
evict_oldest_session-IsBounded s full b =
    let h = evict_oldest_shrinks (λ rec. rec.created) s b.distinct b.named (omega arith) in
    (
      record {
        distinct = evict_oldest-IsDistinct _ s b.distinct;
        named = evict_oldest-Entries _ (λ k v. k ≢ []) s b.named;
        bounded = omega (arith, h, b.bounded);
      },
      omega (arith, h, b.bounded),
    )

-- A call of the store. The ids that newSessionID draws are not empty.
pub data Call : Type 0 where
  creates : ℕ → ℕ → Str → Call
  create_fails : ℕ → ℕ → Call
  touches : ℕ → Str → ℕ → Call
  marks : Str → ℕ → Call
  deletes : Str → Call
  sweeps : ℕ → Call

unfoldable pub step : Call → SessionStore → SessionStore
step (creates now ttl id) s = (create now ttl (some id) s).0
step (create_fails now ttl) s = (create now ttl none s).0
step (touches now id ttl) s = (touch now id ttl s).0
step (marks id now) s = mark_cookie_issued id now s
step (deletes id) s = delete_session id s
step (sweeps now) s = gc now s

abbrev pub HasId : Call → Type 0
HasId (creates now ttl id) = id ≢ []
HasId (create_fails now ttl) = Unit
HasId (touches now id ttl) = id ≢ []
HasId (marks id now) = id ≢ []
HasId (deletes id) = Unit
HasId (sweeps now) = Unit

delete-IsBounded : (id : Str) (s : SessionStore) → IsBounded s → IsBounded (delete id s)
delete-IsBounded id s b = record {
  distinct = delete-IsDistinct id s b.distinct;
  named = delete-Entries (λ k v. k ≢ []) id s b.named;
  bounded = omega (arith, length-delete-le id s, b.bounded);
}

create-IsBounded :
    (now ttl : ℕ) (id : Str) (s : SessionStore)
    → id ≢ []
    → IsBounded s
    → IsBounded (create now ttl (some id) s).0
unfolding create
create-IsBounded now ttl id s h b = elim (Bool-cases (leb max_sessions (length s))) [
  | inl full ↦
      let e = evict_oldest_session-IsBounded s (leb→le _ _ full) b in
      rw (create, full) (insert-IsBounded id _ (evict_oldest_session s) h e.0 (inl e.1))
  | inr room ↦ rw (create, room) (insert-IsBounded id _ s h b (inl (ground arith)))
]

touch-IsBounded :
    (now : ℕ) (id : Str) (ttl : ℕ) (s : SessionStore)
    → id ≢ []
    → IsBounded s
    → IsBounded (touch now id ttl s).0
unfolding touch
touch-IsBounded now id ttl s h b = elim (Option-cases (lookup id s)) [
  | inl e ↦ rw (e, touch) b
  | inr (rec, e) ↦ elim (Bool-cases (ltb rec.expires now)) [
    | inl gone ↦ rw (e, touch, gone) (delete-IsBounded id s b)
    | inr here ↦ rw (e, touch, here) (insert-IsBounded id _ s h b (inr (rec, e)))
  ]
]

mark_cookie_issued-IsBounded :
    (id : Str) (now : ℕ) (s : SessionStore)
    → id ≢ []
    → IsBounded s
    → IsBounded (mark_cookie_issued id now s)
unfolding mark_cookie_issued
mark_cookie_issued-IsBounded id now s h b = elim (Option-cases (lookup id s)) [
  | inl e ↦ rw (e, mark_cookie_issued) b
  | inr (rec, e) ↦ rw (e, mark_cookie_issued) (insert-IsBounded id _ s h b (inr (rec, e)))
]

step-IsBounded : (c : Call) (s : SessionStore) → HasId c → IsBounded s → IsBounded (step c s)
unfolding step gc delete_session
step-IsBounded (creates now ttl id) s h b = create-IsBounded now ttl id s h b
step-IsBounded (create_fails now ttl) s h b = unfold create in b
step-IsBounded (touches now id ttl) s h b = touch-IsBounded now id ttl s h b
step-IsBounded (marks id now) s h b = mark_cookie_issued-IsBounded id now s h b
step-IsBounded (deletes id) s h b = delete-IsBounded id s b
step-IsBounded (sweeps now) s h b = record {
  distinct = retain-IsDistinct (λ rec. not (ltb rec.expires now)) s b.distinct;
  named = retain-Entries (λ k v. k ≢ []) (λ rec. not (ltb rec.expires now)) s b.named;
  bounded =
      omega
        (arith, length-retain-le (λ (rec : SessionRecord). not (ltb rec.expires now)) s, b.bounded);
}

unfoldable pub run : List Call → SessionStore → SessionStore
run [] s = s
run (c ∷ cs) s = run cs (step c s)

run-IsBounded :
    (cs : List Call) (s : SessionStore) → All HasId cs → IsBounded s → IsBounded (run cs s)
unfolding run
run-IsBounded [] s h b = b
run-IsBounded (c ∷ cs) s h b = run-IsBounded cs (step c s) h.1 (step-IsBounded c s h.0 b)

-- After any history of calls whose ids are not empty strings, from the empty store, every id of
-- the store stands once, and `count` is at most max_sessions.
pub count-run-le :
    (cs : List Call) → All HasId cs → IsBounded (run cs []) × (count (run cs []) ≤ max_sessions)
unfolding count
count-run-le cs h =
    let b = run-IsBounded cs [] h (record { distinct = tt; named = tt; bounded = omega arith }) in
    (b, b.bounded)

oldest_session :
    (s : SessionStore)
    → IsBounded s
    → 0 < length s
    → (k : Str) × (k ≢ [])
      × (evict_oldest_session s ≡ delete k s)
      × ((old : SessionRecord) × (lookup k s ≡ some old)
          × Entries (λ i rec. old.created ≤ rec.created) s)
oldest_session [] b h = absurd (omega arith)
oldest_session ((i, w) ∷ s) b h =
    let p = oldest_key_least (λ rec. rec.created) i w s b.distinct b.named in
    (
      oldest_key (λ rec. rec.created) [] 0 ((i, w) ∷ s),
      p.0,
      unfold evict_oldest_session in rw (eqb-nil _ p.0),
      p.1,
    )

-- A session that is created while the store is full, and within its bounds, drops a session that
-- no other session is older than, and only that one: any other id but the new one is found as
-- before.
pub create_evicts_oldest :
    (now ttl : ℕ) (id j : Str) (s : SessionStore)
    → IsBounded s
    → max_sessions ≤ length s
    → (k : Str) × (old : SessionRecord) × (lookup k s ≡ some old)
      × Entries (λ i rec. old.created ≤ rec.created) s
      × (j ≢ k → j ≢ id → lookup j (create now ttl (some id) s).0 ≡ lookup j s)
      × (k ≢ id → lookup k (create now ttl (some id) s).0 ≡ none)
create_evicts_oldest now ttl id j s b full =
    let (k, named, e, o) = oldest_session s b (omega arith) in
    (k, o.0, o.1, o.2, λ h g. kept k e h g, λ g. gone k e g)
  where
    stored :
        (i : Str)
        → i ≢ id
        → lookup i (create now ttl (some id) s).0 ≡ lookup i (evict_oldest_session s)
    stored i g = unfold create in rw (le→leb _ _ full, lookup-insert) (ground (arith, eqb_iff id i))

    kept :
        (k : Str)
        → evict_oldest_session s ≡ delete k s
        → j ≢ k
        → j ≢ id
        → lookup j (create now ttl (some id) s).0 ≡ lookup j s
    kept k e h g = rw (stored j g, e, lookup-delete) (ground (arith, eqb_iff k j))

    gone :
        (k : Str)
        → evict_oldest_session s ≡ delete k s
        → k ≢ id
        → lookup k (create now ttl (some id) s).0 ≡ none
    gone k e g = rw (stored k g, e, lookup-delete) (rw eqb_refl refl)
