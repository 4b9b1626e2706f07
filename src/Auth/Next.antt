-- ===== src/Auth/Next.antt =====
-- internal/auth/next.go: the redirect target of a login.
pub mod Laws
use repo_man.Base.{
  ℕ, ◌≡◌, refl, ◌≢◌, ◌⊎◌, Bool, true, false, not, ◌||◌, ◌&&◌, [], ◌∷◌, Option, none, some, arith,
  Str, eqb, any, ltb, if◌then◌else◌, ◌==◌,
}

-- The loop over the runes. In valid UTF-8 the runes below 0x80 are the bytes below 0x80.
unfoldable pub is_control : ℕ → Bool
is_control r = ltb r 0x20 || r == 0x7F

-- next[0] != '/', or next[1] is a slash or a backslash.
unfoldable pub leaves_origin : Str → Bool
leaves_origin [] = true
leaves_origin (c ∷ []) = not (c == b'/')
leaves_origin (c ∷ d ∷ s) = not (c == b'/') || d == b'/' || d == b'\\'

abbrev pub fallback : Str
fallback = b'/' ∷ []

-- The scheme and the host that url.Parse finds, or none where it fails.
abbrev pub UrlParser : Type 0
UrlParser = Str → Option (Str × Str)

abbrev pub is_local : Option (Str × Str) → Bool
is_local none = false
is_local (some (scheme, host)) = eqb scheme [] && eqb host []

unfoldable pub sanitize_next : UrlParser → Str → Str
unfolding is_control leaves_origin any eqb
sanitize_next parse next =
    if eqb next []
    then fallback
    else if any is_control next
    then fallback
    else if leaves_origin next
    then fallback
    else if is_local (parse next)
    then next
    else fallback
