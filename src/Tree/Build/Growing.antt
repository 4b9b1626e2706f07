-- ===== src/Tree/Build/Growing.antt =====
-- tree.go: every step of Build keeps the pointers sound and the checkouts of the cells.
use repo_man.Model.Node.{Kind, Info, dir}
use repo_man.Safepath.{dot, parent_dir}
use repo_man.Tree.Build.{
  Cell, Builder, add_child, change, link, register, trim_slashes, new_info, root_place, attach_to,
  dir_found, dir_node, dir_at, attach, with_kind, place, place_found,
}
use repo_man.Tree.Build.Cells.{Holds, if-Holds}
use repo_man.Tree.Build.Store.{
  cell_at, cell_at-there, cell_at-lt, length-change, change-same, append-new,
}
use repo_man.Tree.Build.Sound.{
  IsKinded, IsSound, Extends, Extends-refl, Extends-trans, change-IsSound, change-Extends,
  link-IsSound, link-Extends, link-length, register-IsSound, register-Extends,
}
use repo_man.Base.{
  ℕ, zero, suc, ◌<◌, ◌≡◌, refl, sym, subst, ◌≢◌, ◌||◌, [], ◌∷◌, ◌++◌, Option, none, some, Str,
  arith, eqb, lookup, length,
}

-- A step from one builder to another.
pub record IsGrown (b b' : Builder) : Type 0 where
  pub sound : IsSound b'
  pub extends : Extends b b'

pub grown : (b : Builder) → IsSound b → IsGrown b b
grown b s = record { sound = s; extends = Extends-refl b }

pub IsGrown-trans : (a b c : Builder) → IsGrown a b → IsGrown b c → IsGrown a c
IsGrown-trans a b c f g = record {
  sound = g.sound;
  extends = Extends-trans a b c f.extends g.extends;
}

pub Extends-lt : (b b' : Builder) (k : ℕ) → Extends b b' → k < length b.cells → k < length b'.cells
Extends-lt b b' k e h =
    let (c, at) = cell_at-there k b.cells h in
    let (c', at', same) = e.cells k c at in cell_at-lt k b'.cells c' at'

-- A step that returns a node.
abbrev pub Leads : Builder → ℕ × Builder → Type 0
Leads b (id, b') = (id < length b'.cells) × IsGrown b b'

no_repo : (i : Info) → i.repo ≡ none → IsKinded i
no_repo i e r h = absurd (cc (e, h))

pub added-IsGrown :
    (rel : Str) (p : ℕ) (i : Info) (b : Builder)
    → IsKinded i
    → p < length b.cells
    → IsSound b
    → IsGrown b (register rel (link p i b))
added-IsGrown rel p i b t l s = record {
  sound = register-IsSound rel (link p i b) (link-IsSound p i b s l t);
  extends =
      Extends-trans b (link p i b) (register rel (link p i b)) (link-Extends p i b)
        (register-Extends rel (link p i b));
}

attach_to-Leads :
    (rel : Str) (i : Info) (b : Builder) (o : Option (ℕ × Builder))
    → IsKinded i
    → Holds (Leads b) o
    → Holds (Leads b) (attach_to rel i o)
unfolding attach_to register
attach_to-Leads rel i b none t h = tt
attach_to-Leads rel i b (some (p, b₁)) t (l, g) = (
  omega (arith, link-length p i b₁),
  IsGrown-trans b b₁ _ g (added-IsGrown rel p i b₁ t l g.sound),
)

dir_found-Leads :
    (rel : Str) (i : Info) (b : Builder) (parent : Option (ℕ × Builder)) (o : Option ℕ)
    → IsSound b
    → IsKinded i
    → lookup rel b.nodes ≡ o
    → Holds (Leads b) parent
    → Holds (Leads b) (dir_found rel i b parent o)
dir_found-Leads rel i b parent (some id) s t e h = (s.named rel id e, grown b s)
dir_found-Leads rel i b parent none s t e h = attach_to-Leads rel i b parent t h

root_place-lt :
    (b : Builder) (o : Option ℕ) → IsSound b → lookup [] b.nodes ≡ o → root_place o < length b.cells
root_place-lt b none s e = s.begun
root_place-lt b (some id) s e = s.named [] id e

new_info-IsKinded : (kind : Kind) (rel : Str) (b : Builder) → IsKinded (new_info kind rel b)
unfolding new_info
new_info-IsKinded kind rel b = no_repo (new_info kind rel b) refl

pub dir_node-Leads :
    (fuel : ℕ) (rel : Str) (b : Builder) → IsSound b → Holds (Leads b) (dir_node fuel rel b)
unfolding dir_node
dir_node-Leads zero rel b s = tt
dir_node-Leads (suc fuel) rel b s =
    let r = trim_slashes rel in
    if-Holds (Leads b) (eqb r [] || eqb r dot) (some (root_place (lookup [] b.nodes), b)) _
      (root_place-lt b (lookup [] b.nodes) s refl, grown b s)
      (λ e.
        dir_found-Leads r (new_info dir r b) b (dir_node fuel (parent_dir r) b) (lookup r b.nodes) s
          (new_info-IsKinded dir r b) refl (dir_node-Leads fuel (parent_dir r) b s))

pub dir_at-Leads : (rel : Str) (b : Builder) → IsSound b → Holds (Leads b) (dir_at rel b)
unfolding dir_at
dir_at-Leads rel b s = dir_node-Leads (suc (suc (length rel))) rel b s

pub attach-Leads :
    (rel : Str) (i : Info) (b : Builder) → IsKinded i → IsSound b → Holds (Leads b) (attach rel i b)
unfolding attach
attach-Leads rel i b t s =
    attach_to-Leads rel i b (dir_at (parent_dir rel) b) t (dir_at-Leads (parent_dir rel) b s)

place_found-Leads :
    (rel : Str) (kind : Kind) (b : Builder) (o : Option ℕ)
    → kind ≢ dir
    → IsSound b
    → lookup rel b.nodes ≡ o
    → Holds (Leads b) (place_found rel kind b o)
place_found-Leads rel kind b (some id) n s e = (
  subst (λ l. id < l) (sym (length-change id (with_kind kind) b.cells)) (s.named rel id e),
  record {
    sound = change-IsSound id (with_kind kind) (λ c. refl) b (λ c h k r q. n) s;
    extends = change-Extends id (with_kind kind) (λ c. refl) b (λ c. refl);
  },
)
place_found-Leads rel kind b none n s e =
    attach-Leads rel (new_info kind rel b) b (new_info-IsKinded kind rel b) s

pub place-Leads :
    (rel : Str) (kind : Kind) (b : Builder)
    → kind ≢ dir
    → IsSound b
    → Holds (Leads b) (place rel kind b)
unfolding place
place-Leads rel kind b n s =
    place_found-Leads (trim_slashes rel) kind b (lookup (trim_slashes rel) b.nodes) n s refl

-- The node that place returns has the kind.
abbrev pub HasKind : Kind → ℕ × Builder → Type 0
HasKind kind (id, b) = (c : Cell) × (cell_at id b.cells ≡ some c) × (c.info.kind ≡ kind)

pub link-new :
    (p : ℕ) (i : Info) (b : Builder)
    → cell_at (length b.cells) (link p i b).cells ≡ some (record { info = i; children = [] })
unfolding link
link-new p i b =
    subst
      (λ n.
        cell_at n
          (change p (add_child (length b.cells)) b.cells ++ record { info = i; children = [] } ∷ [])
        ≡ some (record { info = i; children = [] }))
      (length-change p (add_child (length b.cells)) b.cells)
      (append-new (change p (add_child (length b.cells)) b.cells)
        (record { info = i; children = [] }))

attach_to-HasKind :
    (rel : Str) (i : Info) (o : Option (ℕ × Builder)) → Holds (HasKind i.kind) (attach_to rel i o)
unfolding attach_to register
attach_to-HasKind rel i none = tt
attach_to-HasKind rel i (some (p, b)) = (_, link-new p i b, refl)

place_found-HasKind :
    (rel : Str) (kind : Kind) (b : Builder) (o : Option ℕ)
    → IsSound b
    → lookup rel b.nodes ≡ o
    → Holds (HasKind kind) (place_found rel kind b o)
unfolding attach new_info
place_found-HasKind rel kind b (some id) s e =
    let (c, at) = cell_at-there id b.cells (s.named rel id e) in
    (with_kind kind c, change-same id (with_kind kind) b.cells c at, refl)
place_found-HasKind rel kind b none s e =
    attach_to-HasKind rel (new_info kind rel b) (dir_at (parent_dir rel) b)

pub place-HasKind :
    (rel : Str) (kind : Kind) (b : Builder) → IsSound b → Holds (HasKind kind) (place rel kind b)
unfolding place
place-HasKind rel kind b s =
    place_found-HasKind (trim_slashes rel) kind b (lookup (trim_slashes rel) b.nodes) s refl

-- The node that attach returns has the fields that it was given.
abbrev pub HasInfo : Info → ℕ × Builder → Type 0
HasInfo i (id, b) = (c : Cell) × (cell_at id b.cells ≡ some c) × (c.info ≡ i)

attach_to-HasInfo :
    (rel : Str) (i : Info) (o : Option (ℕ × Builder)) → Holds (HasInfo i) (attach_to rel i o)
unfolding attach_to register
attach_to-HasInfo rel i none = tt
attach_to-HasInfo rel i (some (p, b)) = (_, link-new p i b, refl)

pub attach-HasInfo : (rel : Str) (i : Info) (b : Builder) → Holds (HasInfo i) (attach rel i b)
unfolding attach
attach-HasInfo rel i b = attach_to-HasInfo rel i (dir_at (parent_dir rel) b)
