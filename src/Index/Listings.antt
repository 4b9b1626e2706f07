-- ===== src/Index/Listings.antt =====
-- index.go: what refreshGhosts keeps of the listings.
use repo_man.Model.{Ghost, Owner, owner_rel}
use repo_man.Config.{Config}
use repo_man.Index.{
  new_index, Index, Lister, take_listing, list_owners, list_configured, list_failed, refresh_ghosts,
}
use repo_man.Base.{
  ℕ, Bool-cases, inl, inr, ◌≡◌, refl, ◌∙◌, ap, List, [], ◌∷◌, Option, none, some, Str, Result, ok,
  err, eqb, lookup, lookup-insert, lookup-delete, if◌then◌else◌, subst,
}
use repo_man.Index.Requests.{refresh_ghosts-frame}

-- A listing that failed leaves the one before it.
abbrev pub kept_listing : Result Str (List Ghost) → Option (List Ghost) → Option (List Ghost)
kept_listing (ok list) before = some list
kept_listing (err e) before = before

-- The warning that is left by the last listing.
abbrev pub left_warning : Str → Result Str (List Ghost) → Option Str
left_warning rel (ok list) = none
left_warning rel (err e) = some (list_failed rel e)

-- The listings that were made, the newest first: the path of the owner, and what the lister returned.
abbrev pub Listing : Type 0
Listing = Str × Result Str (List Ghost)

-- The last listing of an owner that did not fail.
unfoldable pub last_good : Str → List Listing → Option (List Ghost)
unfolding eqb
last_good k [] = none
last_good k ((j, o) ∷ ls) =
    let before = last_good k ls in if eqb j k then kept_listing o before else before

-- The warning of the last listing of an owner.
unfoldable pub last_warning : Str → List Listing → Option Str
unfolding eqb
last_warning k [] = none
last_warning k ((j, o) ∷ ls) =
    let before = last_warning k ls in if eqb j k then left_warning j o else before

-- The listings of one round, on those before it.
unfoldable pub round_listings : Lister → List Owner → List Listing → List Listing
unfolding owner_rel
round_listings lister [] ls = ls
round_listings lister (o ∷ os) ls =
    round_listings lister os ((owner_rel o, lister o.host o.login) ∷ ls)

abbrev listings_with : Option Lister → List Owner → List Listing → List Listing
listings_with none os ls = ls
listings_with (some lister) os ls = round_listings lister os ls

-- The rounds of refreshGhosts, the newest first, with their listers and times.
abbrev pub Rounds : Type 0
Rounds = List (Option Lister × ℕ)

unfoldable pub all_listings : Rounds → List Owner → List Listing
unfolding round_listings
all_listings [] os = []
all_listings ((lister, now) ∷ rs) os = listings_with lister os (all_listings rs os)

unfoldable pub after_rounds : Rounds → Index → Index
unfolding refresh_ghosts
after_rounds [] ix = ix
after_rounds ((lister, now) ∷ rs) ix = refresh_ghosts lister now (after_rounds rs ix)

abbrev IsKept : List Listing → Index → Type 0
IsKept ls ix =
    (k : Str) → (lookup k ix.ghosts ≡ last_good k ls) × (lookup k ix.ghost_warn ≡ last_warning k ls)

take_listing-IsKept :
    (rel : Str) (o : Result Str (List Ghost)) (ls : List Listing) (ix : Index)
    → IsKept ls ix
    → IsKept ((rel, o) ∷ ls) (take_listing rel o ix)
unfolding take_listing last_good last_warning
take_listing-IsKept rel (ok list) ls ix h k =
    let a = lookup-insert rel k list ix.ghosts in
    let b = lookup-delete rel k ix.ghost_warn in
    elim (Bool-cases (eqb rel k)) [
      | inl y ↦ rw y (rw y at a, rw y at b)
      | inr n ↦ rw n ((rw n at a) ∙ (h k).0, (rw n at b) ∙ (h k).1)
    ]
take_listing-IsKept rel (err e) ls ix h k =
    let a = lookup-insert rel k (list_failed rel e) ix.ghost_warn in
    elim (Bool-cases (eqb rel k)) [
      | inl y ↦ rw y ((h k).0, rw y at a)
      | inr n ↦ rw n ((h k).0, (rw n at a) ∙ (h k).1)
    ]

list_owners-IsKept :
    (lister : Lister) (os : List Owner) (ls : List Listing) (ix : Index)
    → IsKept ls ix
    → IsKept (round_listings lister os ls) (list_owners lister os ix)
unfolding list_owners round_listings
list_owners-IsKept lister [] ls ix h = h
list_owners-IsKept lister (o ∷ os) ls ix h =
    list_owners-IsKept lister os _ _
      (take_listing-IsKept (owner_rel o) (lister o.host o.login) ls ix h)

list_configured-IsKept :
    (lister : Lister) (now : ℕ) (os : List Owner) (ls : List Listing) (ix : Index)
    → IsKept ls ix
    → IsKept (round_listings lister os ls) (list_configured lister now os ix)
unfolding round_listings
list_configured-IsKept lister now [] ls ix h = h
list_configured-IsKept lister now (o ∷ os) ls ix h = list_owners-IsKept lister (o ∷ os) ls ix h

refresh_ghosts-IsKept :
    (lister : Option Lister) (now : ℕ) (ls : List Listing) (ix : Index)
    → IsKept ls ix
    → IsKept (listings_with lister ix.cfg.owners ls) (refresh_ghosts lister now ix)
unfolding refresh_ghosts
refresh_ghosts-IsKept none now ls ix h = h
refresh_ghosts-IsKept (some lister) now ls ix h =
    list_configured-IsKept lister now ix.cfg.owners ls ix h

after_rounds-cfg : (rs : Rounds) (ix : Index) → (after_rounds rs ix).cfg ≡ ix.cfg
unfolding after_rounds
after_rounds-cfg [] ix = refl
after_rounds-cfg ((lister, now) ∷ rs) ix =
    ap (λ (k : Index). k.cfg) (refresh_ghosts-frame lister now (after_rounds rs ix))
    ∙ after_rounds-cfg rs ix

new_index-cfg : (cfg : Config) (rs : Rounds) → (after_rounds rs (new_index cfg)).cfg ≡ cfg
unfolding new_index
new_index-cfg cfg rs = after_rounds-cfg rs (new_index cfg)

after_rounds-IsKept :
    (cfg : Config) (rs : Rounds)
    → IsKept (all_listings rs cfg.owners) (after_rounds rs (new_index cfg))
unfolding after_rounds all_listings
after_rounds-IsKept cfg [] k = unfold new_index lookup last_good last_warning in (refl, refl)
after_rounds-IsKept cfg ((lister, now) ∷ rs) k =
    let ix : Index = after_rounds rs (new_index cfg) in
    (subst
        (λ (c : Config).
          IsKept (listings_with lister c.owners (all_listings rs cfg.owners))
            (refresh_ghosts lister now ix))
        (new_index-cfg cfg rs)
        (refresh_ghosts-IsKept lister now (all_listings rs cfg.owners) ix
          (after_rounds-IsKept cfg rs)))
      k

-- After any rounds of listings the index serves for each owner its last listing that did not fail,
-- however many failed since, and warns of an owner exactly where its last listing failed, with the
-- error of that one.
pub after_rounds-listed :
    (cfg : Config) (rs : Rounds) (rel : Str)
    → let ix = after_rounds rs (new_index cfg) in
      (lookup rel ix.ghosts ≡ last_good rel (all_listings rs cfg.owners))
      × (lookup rel ix.ghost_warn ≡ last_warning rel (all_listings rs cfg.owners))
after_rounds-listed cfg rs rel = after_rounds-IsKept cfg rs rel
