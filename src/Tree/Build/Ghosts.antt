-- ===== src/Tree/Build/Ghosts.antt =====
-- tree.go: which ghosts Build places.
use mathlib.Core.List.{Memᴰ}
use mathlib.Core.List.Memᴰ
use repo_man.Tree.{holds}
use repo_man.Model.{Repo, Ghost, slug, ghost_slug}
use repo_man.Tree.Build.{Cell, Builder, Input, cloned_slugs, place_all}
use repo_man.Base.{
  ℕ, ◌≡◌, refl, ap, sym, subst, ◌∙◌, ◌≢◌, Bool, true, false, List, [], ◌∷◌, ◌++◌, Option, some, Str,
  Dict, eqb, eqb-nil, eqb_refl, lookup, insert, lookup-insert, All, if◌then◌else◌,
}
use repo_man.Tree.Build.Cells.{Holds, AllCells, place_all-Holds}

if-holds : (c : Bool) (o : Option Bool) → holds o ≡ true → holds (if c then some true else o) ≡ true
if-holds true o h = refl
if-holds false o h = h

-- One turn of the loop that fills the map.
turn_stays :
    (k s : Str) (m : Dict Bool) (c : Bool)
    → holds (lookup k m) ≡ true
    → holds (lookup k (if c then m else insert s true m)) ≡ true
turn_stays k s m true h = h
turn_stays k s m false h = ap holds (lookup-insert s k true m) ∙ if-holds (eqb s k) (lookup k m) h

-- A slug in the map of the cloned ones stays there.
cloned_stays :
    (k : Str) (rs : List Repo) (m : Dict Bool)
    → holds (lookup k m) ≡ true
    → holds (lookup k (cloned_slugs rs m)) ≡ true
unfolding cloned_slugs
cloned_stays k [] m h = h
cloned_stays k (r ∷ rs) m h =
    cloned_stays k rs (if eqb (slug r.remote) [] then m else insert (slug r.remote) true m)
      (turn_stays k (slug r.remote) m (eqb (slug r.remote) []) h)

own_turn :
    (s : Str) (m : Dict Bool) (c : Bool)
    → c ≡ false
    → holds (lookup s (if c then m else insert s true m)) ≡ true
own_turn s m true e = absurd (cc (e))
own_turn s m false e =
    ap holds (lookup-insert s s true m)
    ∙ ap (λ c. holds (if c then some true else lookup s m)) (eqb_refl s)

cloned_slugs-holds :
    (r : Repo) (rs : List Repo) (m : Dict Bool)
    → Memᴰ r rs
    → slug r.remote ≢ []
    → holds (lookup (slug r.remote) (cloned_slugs rs m)) ≡ true
unfolding cloned_slugs
cloned_slugs-holds r [] m t n = absurd (Memᴰ.not-nil t)
cloned_slugs-holds r (s ∷ rs) m (Memᴰ.tail t) n = cloned_slugs-holds r rs _ t n
cloned_slugs-holds r (s ∷ rs) m (Memᴰ.head e) n =
    cloned_stays (slug r.remote) rs
      (if eqb (slug s.remote) [] then m else insert (slug s.remote) true m)
      (subst
        (λ (x : Repo).
          holds (
            lookup (slug x.remote)
              (if eqb (slug s.remote) [] then m else insert (slug s.remote) true m))
          ≡ true)
        (sym e)
        (own_turn (slug s.remote) m (eqb (slug s.remote) [])
          (eqb-nil (slug s.remote) (λ z. n (ap (λ (x : Repo). slug x.remote) e ∙ z)))))

append-ne-nil : (s t : Str) (c : ℕ) → s ++ c ∷ t ≢ []
append-ne-nil [] t c = λ e. cc
append-ne-nil (d ∷ s) t c = λ e. cc

ghost_slug-ne-nil : (g : Ghost) → ghost_slug g ≢ []
unfolding ghost_slug
ghost_slug-ne-nil g = append-ne-nil g.host (g.owner ++ b'/' ∷ g.name) b'/'

of_All : {A : Type 0} (P : A → Type 0) (x : A) (xs : List A) → All P xs → Memᴰ x xs → P x
of_All P x [] a m = absurd (Memᴰ.not-nil m)
of_All P x (y ∷ ys) a (Memᴰ.head e) = subst P (sym e) a.0
of_All P x (y ∷ ys) a (Memᴰ.tail m) = of_All P x ys a.1 m

-- No ghost duplicates a checkout: where a node that Build placed carries a provider's repository, no
-- checkout of the input, wherever it lies below the root, has a remote with that repository's slug.
pub place_all-ghosts :
    (input : Input) (b : Builder) (c : Cell) (g : Ghost) (r : Repo)
    → place_all input ≡ some b
    → Memᴰ c b.cells
    → c.info.ghost ≡ some g
    → Memᴰ r input.repos
    → slug r.remote ≢ ghost_slug g
place_all-ghosts input b c g r p m i t e = clash
  where
    Uncloned : Option Ghost → Type 0
    Uncloned o =
        (h : Ghost)
        → o ≡ some h
        → holds (lookup (ghost_slug h) (cloned_slugs input.repos [])) ≡ false

    kept :
        (h : Ghost)
        → holds (lookup (ghost_slug h) (cloned_slugs input.repos [])) ≡ false
        → Uncloned (some h)
    kept h f k q =
        let same : h ≡ k = cc in
        subst (λ (x : Ghost). holds (lookup (ghost_slug x) (cloned_slugs input.repos [])) ≡ false)
          same f

    cells : All (λ (d : Cell). Uncloned d.info.ghost) b.cells
    cells =
        subst (Holds (AllCells Uncloned (λ h q. absurd (cc (q))))) p
          (place_all-Holds Uncloned (λ h q. absurd (cc (q))) input kept)

    clash : ⊥
    clash =
        let f : holds (lookup (ghost_slug g) (cloned_slugs input.repos [])) ≡ false =
          of_All (λ (d : Cell). Uncloned d.info.ghost) c b.cells cells m g i in
        let h = cloned_slugs-holds r input.repos [] t (λ z. ghost_slug-ne-nil g (sym e ∙ z)) in
        let h' : holds (lookup (ghost_slug g) (cloned_slugs input.repos [])) ≡ true =
          subst (λ (s : Str). holds (lookup s (cloned_slugs input.repos [])) ≡ true) e h in
        absurd (cc (f, h'))
