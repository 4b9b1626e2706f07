-- ===== src/Auth/Next/Laws.antt =====
-- next.go: what a redirect target can be.
use repo_man.Auth.Next.{UrlParser, sanitize_next, is_control, leaves_origin, fallback, is_local}
use repo_man.Base.{
  ℕ, ◌≤◌, ◌≡◌, refl, ◌≢◌, ◌⊎◌, inl, inr, false, [], ◌∷◌, arith, Str, eqb, any, All, Bool-cases,
}

-- A path on this origin: a slash, then neither a slash nor a backslash.
abbrev pub IsPath : Str → Type 0
IsPath [] = ⊥
IsPath (c ∷ []) = c ≡ b'/'
IsPath (c ∷ d ∷ s) = (c ≡ b'/') × (d ≢ b'/') × (d ≢ b'\\')

abbrev pub IsPrintable : ℕ → Type 0
IsPrintable c = (0x20 ≤ c) × (c ≢ 0x7F)

any-IsPrintable : (s : Str) → any is_control s ≡ false → All IsPrintable s
unfolding any is_control
any-IsPrintable [] h = tt
any-IsPrintable (c ∷ s) h = ground (arith, any-IsPrintable s)

leaves_origin-IsPath : (s : Str) → leaves_origin s ≡ false → IsPath s
unfolding leaves_origin
leaves_origin-IsPath [] h = cc
leaves_origin-IsPath (c ∷ []) h = ground arith
leaves_origin-IsPath (c ∷ d ∷ s) h = ground arith

-- Whatever the target and whatever url.Parse makes of it, the result is a path on this origin
-- without control characters, and it is the target itself or "/".
pub sanitize_next-IsPath :
    (parse : UrlParser) (next : Str)
    → IsPath (sanitize_next parse next)
      × All IsPrintable (sanitize_next parse next)
      × ((sanitize_next parse next ≡ next) ⊎ (sanitize_next parse next ≡ fallback))
unfolding sanitize_next
sanitize_next-IsPath parse next = elim (Bool-cases (eqb next [])) [
  | inl e ↦ rw e (refl, (omega arith), inr refl)
  | inr e ↦ elim (Bool-cases (any is_control next)) [
    | inl c ↦ rw (e, c) (refl, (omega arith), inr refl)
    | inr c ↦ elim (Bool-cases (leaves_origin next)) [
      | inl o ↦ rw (e, c, o) (refl, (omega arith), inr refl)
      | inr o ↦ elim (Bool-cases (is_local (parse next))) [
        | inl l ↦ rw (e, c, o, l) (leaves_origin-IsPath next o, any-IsPrintable next c, inl refl)
        | inr l ↦ rw (e, c, o, l) (refl, (omega arith), inr refl)
      ]
    ]
  ]
]
