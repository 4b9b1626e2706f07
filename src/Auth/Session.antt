-- ===== src/Auth/Session.antt =====
-- internal/auth/session.go: the sessions, in memory. The id that newSessionID draws from
-- crypto/rand is an argument; `none` stands for its error.
pub mod Bounds
pub mod Validity
use repo_man.Auth.Oldest.{evict_oldest}
use repo_man.Base.{
  ℕ, ◌+◌, Bool, true, false, not, Option, none, some, Str, Dict, lookup, insert, delete, retain,
  ltb, leb, length, if◌then◌else◌,
}

abbrev pub max_sessions : ℕ
max_sessions = 64

pub record SessionRecord : Type 0 where
  pub created : ℕ
  pub expires : ℕ
  pub cookie_issued : ℕ

-- sessionStore.byID
abbrev pub SessionStore : Type 0
SessionStore = Dict SessionRecord

unfoldable pub evict_oldest_session : SessionStore → SessionStore
unfolding evict_oldest
evict_oldest_session s = evict_oldest (λ rec. rec.created) s

unfoldable pub create : ℕ → ℕ → Option Str → SessionStore → SessionStore × Option Str
unfolding evict_oldest_session
create now ttl none s = (s, none)
create now ttl (some id) s =
    let rec : SessionRecord = record { created = now; expires = now + ttl; cookie_issued = now } in
    (insert id rec (if leb max_sessions (length s) then evict_oldest_session s else s), some id)

-- The store, and when the cookie of the session was issued, if the session is valid.
unfoldable pub touch : ℕ → Str → ℕ → SessionStore → SessionStore × Option ℕ
touch now id ttl s = elim (lookup id s) [
  | none ↦ (s, none)
  | some rec ↦
      if ltb rec.expires now
      then (delete id s, none)
      else (insert id (record rec { expires = now + ttl }) s, some rec.cookie_issued)
]

unfoldable pub mark_cookie_issued : Str → ℕ → SessionStore → SessionStore
mark_cookie_issued id now s = elim (lookup id s) [
  | none ↦ s
  | some rec ↦ insert id (record rec { cookie_issued = now }) s
]

unfoldable pub delete_session : Str → SessionStore → SessionStore
delete_session id s = delete id s

unfoldable pub gc : ℕ → SessionStore → SessionStore
gc now s = retain (λ rec. not (ltb rec.expires now)) s

unfoldable pub count : SessionStore → ℕ
count s = length s
