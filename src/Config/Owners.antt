-- ===== src/Config/Owners.antt =====
-- config.go: what ParseOwners returns.
use mathlib.Core.List.{map-append, reverse-append}
use repo_man.Model.{Owner, owner_rel}
use repo_man.Config.{OwnerError, invalid_owner, read_owner, is_invalid, parse_entries, parse_owners}
use repo_man.Base.{
  ◌≡◌, sym, ap, subst, ◌∙◌, ◌≢◌, false, List, [], ◌∷◌, ◌++◌, map, reverse, arith, Str, Result, ok,
  err, eqb, eqb_iff, any, split, trim_prefix, trim_space, All, All-append, Lacks, Bool-cases, inl,
  inr,
}

-- A host and a login that is one name.
abbrev pub IsOwner : Owner → Type 0
IsOwner o = (o.host ≢ []) × (o.login ≢ []) × Lacks b'/' o.login

-- No text stands in the list twice.
abbrev pub IsUnique : List Str → Type 0
IsUnique [] = Unit
IsUnique (s ∷ ss) = (any (eqb s) ss ≡ false) × IsUnique ss

-- The owners, the last one first.
unfoldable pub rels : List Owner → List Str
rels os = reverse (map owner_rel os)

is_invalid-IsOwner : (o : Owner) → is_invalid o ≡ false → IsOwner o
unfolding is_invalid
is_invalid-IsOwner o h = ground (arith, eqb_iff o.host [], eqb_iff o.login [])

rels-append : (os : List Owner) (o : Owner) → rels (os ++ o ∷ []) ≡ owner_rel o ∷ rels os
unfolding rels
rels-append os o =
    ap reverse (map-append owner_rel os (o ∷ []))
    ∙ reverse-append (map owner_rel os) (owner_rel o ∷ [])

parse_entries-IsOwner :
    (ss : List Str) (out os : List Owner)
    → All IsOwner out
    → IsUnique (rels out)
    → parse_entries ss (rels out) out ≡ ok os
    → All IsOwner os × IsUnique (rels os)
unfolding parse_entries
parse_entries-IsOwner [] out os a u h =
    let e : out ≡ os = cc in subst (λ l. All IsOwner l × IsUnique (rels l)) e (a, u)
parse_entries-IsOwner (s ∷ ss) out os a u h = elim (Bool-cases (eqb entry [])) [
  | inl y ↦ parse_entries-IsOwner ss out os a u (rw y at h)
  | inr n ↦ elim (Bool-cases (is_invalid o)) [
    | inl y ↦
        let q : ◌≡◌ {A = Result OwnerError (List Owner)} (err (invalid_owner entry)) (ok os) =
          rw (n, y) at h in
        cc
    | inr good ↦ elim (Bool-cases (any (eqb (owner_rel o)) (rels out))) [
      | inl y ↦ parse_entries-IsOwner ss out os a u (rw (n, good, y) at h)
      | inr new ↦
          parse_entries-IsOwner ss (out ++ o ∷ []) os
            (All-append IsOwner out (o ∷ []) a (is_invalid-IsOwner o good, tt))
            (subst IsUnique (sym (rels-append out o)) (new, u))
            (subst (λ l. parse_entries ss l (out ++ o ∷ []) ≡ ok os) (sym (rels-append out o))
              (rw (n, good, new) at h))
    ]
  ]
]
  where
    entry : Str
    entry = trim_prefix (trim_space s) (b'/' ∷ [])

    o : Owner
    o = read_owner entry

-- Every owner of a list that is accepted has a host and a login without a slash, and no two of them
-- have the same directory.
pub parse_owners-IsOwner :
    (s : Str) (os : List Owner) → parse_owners s ≡ ok os → All IsOwner os × IsUnique (rels os)
unfolding parse_owners
parse_owners-IsOwner s os h =
    parse_entries-IsOwner (split s b',') [] os tt (unfold rels in tt) (unfold rels in h)
