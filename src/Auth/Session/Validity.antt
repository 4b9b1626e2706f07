-- ===== src/Auth/Session/Validity.antt =====
-- session.go: how long a session is valid, and that gc ends none that is.
use repo_man.Auth.Session.{
  SessionStore, SessionRecord, create, touch, mark_cookie_issued, delete_session, gc,
}
use repo_man.Base.{
  ℕ, ◌+◌, ◌≤◌, ◌≡◌, refl, ◌≢◌, not, Option, none, some, arith, Str, lookup, retain, leb, ltb,
  if◌then◌else◌, IsDistinct, lookup-insert, lookup-delete, lookup-retain, eqb_refl, eqb_iff, ap,
  Option-cases, Bool-cases, inl, inr,
}

-- What `touch` answers, from the record alone.
abbrev pub verdict : ℕ → Option SessionRecord → Option ℕ
verdict now none = none
verdict now (some rec) = if ltb rec.expires now then none else some rec.cookie_issued

pub touch-verdict :
    (now : ℕ) (id : Str) (ttl : ℕ) (s : SessionStore)
    → (touch now id ttl s).1 ≡ verdict now (lookup id s)
unfolding touch
touch-verdict now id ttl s = ground arith

-- A new session is valid up to and including the instant `ttl` after its creation, and at no later
-- one; each check that finds it valid moves that deadline to `ttl` after the check.
pub touch-create :
    (now ttl : ℕ) (id : Str) (s : SessionStore) (t u : ℕ)
    → ((touch t id ttl (create now ttl (some id) s).0).1
        ≡ (if leb t (now + ttl) then some now else none))
      × (t ≤ now + ttl
          → (touch u id ttl (touch t id ttl (create now ttl (some id) s).0).0).1
            ≡ (if leb u (t + ttl) then some now else none))
touch-create now ttl id s t u = (first t, second)
  where
    made : SessionRecord
    made = record { created = now; expires = now + ttl; cookie_issued = now }

    found : lookup id (create now ttl (some id) s).0 ≡ some made
    found = unfold create in rw lookup-insert (rw eqb_refl refl)

    first :
        (t : ℕ)
        → (touch t id ttl (create now ttl (some id) s).0).1
          ≡ (if leb t (now + ttl) then some now else none)
    first t = rw (touch-verdict, found) (ground arith)

    slid :
        t ≤ now + ttl
        → lookup id (touch t id ttl (create now ttl (some id) s).0).0
          ≡ some (record made { expires = t + ttl })
    slid h =
        unfold touch in
        rw (found, touch)
          (ground (
            arith,
            lookup-insert id id (record made { expires = t + ttl }) (create now ttl (some id) s).0,
            eqb_refl id,
          ))

    second :
        t ≤ now + ttl
        → (touch u id ttl (touch t id ttl (create now ttl (some id) s).0).0).1
          ≡ (if leb u (t + ttl) then some now else none)
    second h = rw (touch-verdict, slid h) (ground arith)

-- After a session was deleted no check finds it, and a check that finds none ends it for good.
pub touch-delete :
    (now : ℕ) (id : Str) (ttl : ℕ) (s : SessionStore) (later : ℕ)
    → ((touch later id ttl (delete_session id s)).1 ≡ none)
      × ((touch now id ttl s).1 ≡ none → (touch later id ttl (touch now id ttl s).0).1 ≡ none)
touch-delete now id ttl s later = (rw touch-verdict (gone refl), λ h. rw touch-verdict (ended h))
  where
    gone : {m : SessionStore} → m ≡ delete_session id s → verdict later (lookup id m) ≡ none
    gone e = unfold delete_session in rw (e, lookup-delete) (rw eqb_refl refl)

    ended : (touch now id ttl s).1 ≡ none → verdict later (lookup id (touch now id ttl s).0) ≡ none
    ended h = elim (Option-cases (lookup id s)) [
      | inl e ↦ unfold touch in rw (e, touch) (rw e refl)
      | inr (rec, e) ↦ elim (Bool-cases (ltb rec.expires now)) [
        | inl over ↦ unfold touch in rw (e, touch, over) (rw lookup-delete (rw eqb_refl refl))
        | inr live ↦
            let valid : (touch now id ttl s).1 ≡ some rec.cookie_issued =
              unfold touch in rw (e, touch, live) in
            cc
      ]
    ]

-- The first check after a sweep of a store that holds each id once, at its instant or later, is
-- answered as without the sweep.
pub touch-gc :
    (swept now : ℕ) (id : Str) (ttl : ℕ) (s : SessionStore)
    → swept ≤ now
    → IsDistinct s
    → (touch now id ttl (gc swept s)).1 ≡ (touch now id ttl s).1
touch-gc swept now id ttl s le d =
    unfold gc in
    rw
      (
        touch-verdict now id ttl (retain (λ rec. not (ltb rec.expires swept)) s),
        touch-verdict now id ttl s,
        lookup-retain (λ rec. not (ltb rec.expires swept)) id s d,
      )
      (ground arith)

-- No check, cookie or logout of another id changes what a check of an id answers.
pub touch_other :
    (now : ℕ) (id j : Str) (ttl t : ℕ) (s : SessionStore)
    → id ≢ j
    → ((touch now j ttl (touch t id ttl s).0).1 ≡ (touch now j ttl s).1)
      × ((touch now j ttl (mark_cookie_issued id t s)).1 ≡ (touch now j ttl s).1)
      × ((touch now j ttl (delete_session id s)).1 ≡ (touch now j ttl s).1)
touch_other now id j ttl t s h = (
  rw (touch-verdict, touch-verdict) (ap (verdict now) touched),
  rw (touch-verdict, touch-verdict) (ap (verdict now) marked),
  rw (touch-verdict, touch-verdict) (ap (verdict now) deleted),
)
  where
    touched : lookup j (touch t id ttl s).0 ≡ lookup j s
    touched = elim (Option-cases (lookup id s)) [
      | inl e ↦ unfold touch in rw (e, touch)
      | inr (rec, e) ↦ elim (Bool-cases (ltb rec.expires t)) [
        | inl over ↦
            unfold touch in rw (e, touch, over) (rw lookup-delete (ground (arith, eqb_iff id j)))
        | inr live ↦
            unfold touch in rw (e, touch, live) (rw lookup-insert (ground (arith, eqb_iff id j)))
      ]
    ]

    marked : lookup j (mark_cookie_issued id t s) ≡ lookup j s
    marked = elim (Option-cases (lookup id s)) [
      | inl e ↦ unfold mark_cookie_issued in rw (e, mark_cookie_issued)
      | inr (rec, e) ↦
          unfold mark_cookie_issued in
          rw (e, mark_cookie_issued) (rw lookup-insert (ground (arith, eqb_iff id j)))
    ]

    deleted : lookup j (delete_session id s) ≡ lookup j s
    deleted = unfold delete_session in rw lookup-delete (ground (arith, eqb_iff id j))
