-- ===== src/Auth/Ip.antt =====
-- internal/auth/ip.go: the address that a login is attributed to.
pub mod Forwarded
use repo_man.Base.{
  ℕ, ◌≡◌, refl, Bool, true, false, not, ◌||◌, ◌&&◌, List, [], ◌∷◌, ◌++◌, Option, none, some, arith,
  Str, eqb, split, join, trim_space, has_char, cut, last_part, if◌then◌else◌, ◌==◌, ◌≢◌,
}

-- The port, which holds no further colon, bracket or closing bracket.
abbrev pub is_port : Str → Bool
is_port s = not (has_char b':' s || has_char b'[' s || has_char b']' s)

abbrev pub bracketed : Option (Str × Str) → Option Str
bracketed none = none
bracketed (some (host, [])) = none
bracketed (some (host, c ∷ port)) =
    if c == b':' && is_port port && not (has_char b'[' host) then some host else none

abbrev pub plain : Option (Str × Str) → Option Str
plain none = none
plain (some (host, port)) =
    if is_port port && not (has_char b'[' host || has_char b']' host) then some host else none

-- The host of net.SplitHostPort: "host:port" or "[host]:port".
unfoldable pub split_host_port : Str → Option Str
unfolding cut has_char
split_host_port [] = none
split_host_port (c ∷ s) = if c == b'[' then bracketed (cut b']' s) else plain (cut b':' (c ∷ s))

unfoldable pub host_of : Str → Str
unfolding split_host_port
host_of addr = elim (split_host_port addr) [ none ↦ addr | some host ↦ host ]

-- `xff` holds the values of the X-Forwarded-For header lines, in order.
unfoldable pub client_ip : Bool → List Str → Str → Str
unfolding last_part host_of trim_space eqb
client_ip trust_proxy_ip xff remote_addr =
    let all = join xff (b',' ∷ []) in
    let last = trim_space (last_part (split all b',')) in
    if trust_proxy_ip && not (eqb all []) && not (eqb last []) then last else host_of remote_addr
