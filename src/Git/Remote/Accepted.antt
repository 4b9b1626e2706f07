-- ===== src/Git/Remote/Accepted.antt =====
-- remote.go: what a URL that ValidateCloneURL accepts looks like.
use repo_man.Git.Remote.{
  Url, UrlParser, CloneError, is_alphanumeric, is_host_char, is_segment_char, is_segment, scp_like,
  expand, normalize_shorthand, not_recognized, invalid_url, no_host, dash_host, empty_url,
  control_char, backslash, dash, ext_transport, file_url, validate_form, validate_trimmed,
  validate_clone_url,
}
use repo_man.Base.{
  ℕ, ◌≡◌, refl, subst, ◌≢◌, ◌⊎◌, inl, inr, Bool, true, false, List, [], ◌∷◌, ◌++◌, Option, none,
  some, arith, Str, codes, Result, ok, err, eqb, has_prefix, has_char, contains, contains_any,
  trim_space, to_lower, split, all, if◌then◌else◌, ◌||◌, All, All-append, Bool-cases,
}

-- No NUL, no line end and no backslash.
abbrev pub IsUrlChar : ℕ → Type 0
IsUrlChar c = (c ≢ 0) × (c ≢ b'\r') × (c ≢ b'\n') × (c ≢ b'\\')

abbrev has_scheme : Str → Bool
has_scheme u =
    has_prefix (to_lower u) (codes "https://")
    || has_prefix (to_lower u) (codes "http://")
    || has_prefix (to_lower u) (codes "ssh://")

-- The URL names one of the three schemes, or is scp-like with a host that is no option.
abbrev pub IsRemote : Str → Type 0
IsRemote u =
    (has_scheme u ≡ true)
    ⊎ ((host : Str) × (path : Str) × (scp_like u ≡ some (host, path))
        × (has_prefix host (b'-' ∷ []) ≡ false))

pub record IsAccepted (u : Str) : Type 0 where
  pub chars : All IsUrlChar u
  pub no_dash : has_prefix u (b'-' ∷ []) ≡ false
  pub remote : IsRemote u

IsUrlChar-chars :
    (s : Str)
    → contains_any s (0 ∷ 13 ∷ 10 ∷ []) ≡ false
    → has_char b'\\' s ≡ false
    → All IsUrlChar s
unfolding contains_any has_char
IsUrlChar-chars [] h k = tt
IsUrlChar-chars (c ∷ s) h k = ground (arith, IsUrlChar-chars s)

segment-chars : (s : Str) → all is_segment_char s ≡ true → All IsUrlChar s
unfolding all is_segment_char is_host_char is_alphanumeric
segment-chars [] h = tt
segment-chars (c ∷ s) h = ground (arith, segment-chars s)

is_segment-chars : (s : Str) → is_segment s ≡ true → All IsUrlChar s
unfolding is_segment
is_segment-chars s h = segment-chars s (ground arith)

slash-IsUrlChar : IsUrlChar b'/'
slash-IsUrlChar = (λ h. cc, λ h. cc, λ h. cc, λ h. cc)

https-chars : All IsUrlChar (codes "https://")
unfolding contains_any has_char
https-chars = IsUrlChar-chars (codes "https://") refl refl

github-chars : All IsUrlChar (codes "https://github.com/")
unfolding contains_any has_char
github-chars = IsUrlChar-chars (codes "https://github.com/") refl refl

joined-chars : (a b : Str) → All IsUrlChar a → All IsUrlChar b → All IsUrlChar (a ++ b'/' ∷ b)
joined-chars a b ha hb = All-append IsUrlChar a (b'/' ∷ b) ha (slash-IsUrlChar, hb)

-- A text that is accepted as it stands.
kept : (s u : Str) → IsAccepted s → ◌≡◌ {A = Result CloneError Str} (ok s) (ok u) → IsAccepted u
kept s u a e = let q : s ≡ u = cc in subst IsAccepted q a

expand_two :
    (a b : Str)
    → All IsUrlChar a
    → All IsUrlChar b
    → IsAccepted (codes "https://github.com/" ++ (a ++ b'/' ∷ b))
unfolding has_prefix to_lower
expand_two a b ha hb = record {
  chars =
      All-append IsUrlChar (codes "https://github.com/") _ github-chars (joined-chars a b ha hb);
  no_dash = refl;
  remote = inl refl;
}

expand_three :
    (a b c : Str)
    → All IsUrlChar a
    → All IsUrlChar b
    → All IsUrlChar c
    → IsAccepted (codes "https://" ++ (a ++ b'/' ∷ (b ++ b'/' ∷ c)))
unfolding has_prefix to_lower
expand_three a b c ha hb hc = record {
  chars =
      All-append IsUrlChar (codes "https://") _ https-chars
        (joined-chars a _ ha (joined-chars b c hb hc));
  no_dash = refl;
  remote = inl refl;
}

expand-IsAccepted :
    (segs : List Str) (u : Str) → all is_segment segs ≡ true → expand segs ≡ ok u → IsAccepted u
expand-IsAccepted [] u h e = cc
expand-IsAccepted (a ∷ []) u h e = cc
expand-IsAccepted (a ∷ b ∷ []) u h e =
    kept _ u
      (expand_two a b (is_segment-chars a (unfold all in ground arith))
        (is_segment-chars b (unfold all in ground arith)))
      e
expand-IsAccepted (a ∷ b ∷ c ∷ []) u h e = elim (Bool-cases (has_char b'.' a)) [
  | inl y ↦
      kept _ u
        (expand_three a b c (is_segment-chars a (unfold all in ground arith))
          (is_segment-chars b (unfold all in ground arith))
          (is_segment-chars c (unfold all in ground arith)))
        (rw y at e)
  | inr n ↦ let q : err not_recognized ≡ ok u = rw n at e in cc
]
expand-IsAccepted (a ∷ b ∷ c ∷ d ∷ segs) u h e = cc

normalize_shorthand-IsAccepted : (s u : Str) → normalize_shorthand s ≡ ok u → IsAccepted u
unfolding normalize_shorthand
normalize_shorthand-IsAccepted s u h = ground (arith, expand-IsAccepted (split s b'/') u)

-- The form with a scheme.
schemed :
    (parsed : Option Url) (s u : Str)
    → IsAccepted s
    → ◌≡◌ {A = Result CloneError Str}
        (elim parsed [
          | none ↦ err invalid_url
          | some p ↦ if eqb p.host [] then err no_host else ok s
        ])
        (ok u)
    → IsAccepted u
schemed none s u a h = cc
schemed (some p) s u a h = elim (Bool-cases (eqb p.host [])) [
  | inl y ↦ let q : ◌≡◌ {A = Result CloneError Str} (err no_host) (ok u) = rw y at h in cc
  | inr n ↦ kept s u a (rw n at h)
]

-- The scp-like form, and the shorthand behind it.
scp :
    (m : Option (Str × Str)) (s u : Str)
    → scp_like s ≡ m
    → All IsUrlChar s
    → has_prefix s (b'-' ∷ []) ≡ false
    → ◌≡◌ {A = Result CloneError Str}
        (elim m [
          | some (host, path) ↦ if has_prefix host (b'-' ∷ []) then err dash_host else ok s
          | none ↦ normalize_shorthand s
        ])
        (ok u)
    → IsAccepted u
scp none s u e c d h = normalize_shorthand-IsAccepted s u h
scp (some (host, path)) s u e c d h = elim (Bool-cases (has_prefix host (b'-' ∷ []))) [
  | inl y ↦ let q : ◌≡◌ {A = Result CloneError Str} (err dash_host) (ok u) = rw y at h in cc
  | inr n ↦
      kept s u (record { chars = c; no_dash = d; remote = inr (host, path, e, n) }) (rw n at h)
]

validate_form-IsAccepted :
    (parse : UrlParser) (s u : Str)
    → All IsUrlChar s
    → has_prefix s (b'-' ∷ []) ≡ false
    → validate_form parse s ≡ ok u
    → IsAccepted u
unfolding validate_form
validate_form-IsAccepted parse s u c d h = elim (Bool-cases (has_scheme s)) [
  | inl y ↦ schemed (parse s) s u (record { chars = c; no_dash = d; remote = inl y }) (rw y at h)
  | inr n ↦ scp (scp_like s) s u refl c d (rw n at h)
]

trimmed-IsAccepted :
    (parse : UrlParser) (s u : Str) → validate_trimmed parse s ≡ ok u → IsAccepted u
unfolding validate_trimmed
trimmed-IsAccepted parse s u h =
    passed (eqb s []) (contains_any s (0 ∷ 13 ∷ 10 ∷ [])) (has_char b'\\' s)
      (has_prefix s (b'-' ∷ [])) (contains (to_lower s) (codes "ext::"))
      (has_prefix (to_lower s) (codes "file://")) refl refl refl h
  where
    passed :
        (e z k d x f : Bool)
        → contains_any s (0 ∷ 13 ∷ 10 ∷ []) ≡ z
        → has_char b'\\' s ≡ k
        → has_prefix s (b'-' ∷ []) ≡ d
        → ◌≡◌ {A = Result CloneError Str}
            (if e
              then err empty_url
              else if z
              then err control_char
              else if k
              then err backslash
              else if d
              then err dash
              else if x
              then err ext_transport
              else if f
              then err file_url
              else validate_form parse s)
            (ok u)
        → IsAccepted u
    passed false false false false false false hz hk hd q =
        validate_form-IsAccepted parse s u (IsUrlChar-chars s hz hk) hd q
    passed true z k d x f hz hk hd q = cc
    passed false true k d x f hz hk hd q = cc
    passed false false true d x f hz hk hd q = cc
    passed false false false true x f hz hk hd q = cc
    passed false false false false true f hz hk hd q = cc
    passed false false false false false true hz hk hd q = cc

-- Whatever url.Parse answers, a URL that ValidateCloneURL returns begins with no dash, holds no
-- NUL, line end or backslash, and names https, http or ssh, or has the scp-like form with a host
-- that begins with no dash.
pub validate_clone_url-IsAccepted :
    (parse : UrlParser) (raw u : Str) → validate_clone_url parse raw ≡ ok u → IsAccepted u
unfolding validate_clone_url
validate_clone_url-IsAccepted parse raw u h = trimmed-IsAccepted parse (trim_space raw) u h
