-- ===== src/Tree/Build/Naming.antt =====
-- tree.go: the names of the nodes, as dir and place keep them: no two paths name one node, and a
-- path keeps its node.
use repo_man.Model.Node.{Kind, Info, dir}
use repo_man.Safepath.{dot, parent_dir}
use repo_man.Tree.Build.{
  Builder, link, register, trim_slashes, new_info, root_place, attach_to, dir_found, dir_node,
  dir_at, attach, place, place_found,
}
use repo_man.Tree.Build.Cells.{Holds, if-Holds}
use repo_man.Tree.Build.Sound.{IsSound, link-length}
use repo_man.Tree.Build.Growing.{Leads, dir_at-Leads, dir_node-Leads}
use repo_man.Base.{
  ℕ, zero, suc, ◌-◌, ◌≡◌, refl, ap, ◌∙◌, ◌||◌, [], Option, none, some, Str, arith, eqb, eqb_iff,
  lookup, lookup-insert, length, if◌then◌else◌,
}

pub record IsNamed (b b' : Builder) : Type 0 where
  pub distinct :
      (p q : Str) (k : ℕ) → lookup p b'.nodes ≡ some k → lookup q b'.nodes ≡ some k → p ≡ q
  pub grows : (q : Str) (k : ℕ) → lookup q b.nodes ≡ some k → lookup q b'.nodes ≡ some k

abbrev pub IsDistinctly : Builder → Type 0
IsDistinctly b = (p q : Str) (k : ℕ) → lookup p b.nodes ≡ some k → lookup q b.nodes ≡ some k → p ≡ q

pub IsNamed-same : (b : Builder) → IsDistinctly b → IsNamed b b
IsNamed-same b d = record { distinct = d; grows = λ q k h. h }

register-lookup :
    (rel : Str) (p : ℕ) (i : Info) (b : Builder) (q : Str)
    → lookup q (register rel (link p i b)).nodes
      ≡ (if eqb rel q then some (length b.cells) else lookup q b.nodes)
unfolding register link
register-lookup rel p i b q =
    lookup-insert rel q (length (link p i b).cells - 1) b.nodes
    ∙ ap (λ n. if eqb rel q then some n else lookup q b.nodes)
        (let l = link-length p i b in omega (arith, l))

register-IsNamed :
    (rel : Str) (p : ℕ) (i : Info) (b₀ b : Builder)
    → lookup rel b₀.nodes ≡ none
    → IsSound b
    → IsNamed b₀ b
    → IsNamed b₀ (register rel (link p i b))
register-IsNamed rel p i b₀ b n s h = record {
  distinct = λ q r k x y. ground (
    arith,
    register-lookup rel p i b q,
    register-lookup rel p i b r,
    eqb_iff rel q,
    eqb_iff rel r,
    s.named q k,
    s.named r k,
    h.distinct q r k,
    x,
    y,
  );
  grows = λ q k x. ground (arith, register-lookup rel p i b q, eqb_iff rel q, h.grows q k x, n, x);
}

pub both-Holds :
    {S : Type 0} (P Q : S → Type 0) (o : Option S)
    → Holds P o
    → Holds Q o
    → Holds (λ s. P s × Q s) o
both-Holds P Q none p q = tt
both-Holds P Q (some s) p q = (p, q)

pub map-Holds :
    {S : Type 0} (P Q : S → Type 0) (o : Option S) → ((s : S) → P s → Q s) → Holds P o → Holds Q o
map-Holds P Q none f p = tt
map-Holds P Q (some s) f p = f s p

abbrev pub Names : Builder → ℕ × Builder → Type 0
Names b₀ (id, b) = IsNamed b₀ b

-- A step that names the node that it returns.
abbrev pub NamesAs : Str → Builder → ℕ × Builder → Type 0
NamesAs rel b₀ (id, b) = IsNamed b₀ b × (lookup rel b.nodes ≡ some id)

attach_to-NamesAs :
    (rel : Str) (i : Info) (b₀ : Builder) (o : Option (ℕ × Builder))
    → lookup rel b₀.nodes ≡ none
    → Holds (Leads b₀) o
    → Holds (Names b₀) o
    → Holds (NamesAs rel b₀) (attach_to rel i o)
unfolding attach_to
attach_to-NamesAs rel i b₀ none n l h = tt
attach_to-NamesAs rel i b₀ (some (p, b)) n l h = (
  register-IsNamed rel p i b₀ b n l.1.sound h,
  ground (arith, register-lookup rel p i b rel, eqb_iff rel rel),
)

dir_found-Names :
    (rel : Str) (i : Info) (b : Builder) (parent : Option (ℕ × Builder)) (o : Option ℕ)
    → IsDistinctly b
    → lookup rel b.nodes ≡ o
    → Holds (Leads b) parent
    → Holds (Names b) parent
    → Holds (Names b) (dir_found rel i b parent o)
dir_found-Names rel i b parent (some id) d e l h = IsNamed-same b d
dir_found-Names rel i b parent none d e l h =
    map-Holds (NamesAs rel b) (Names b) (attach_to rel i parent) (λ s n. n.0)
      (attach_to-NamesAs rel i b parent e l h)

dir_node-Names :
    (fuel : ℕ) (rel : Str) (b : Builder)
    → IsSound b
    → IsDistinctly b
    → Holds (Names b) (dir_node fuel rel b)
unfolding dir_node
dir_node-Names zero rel b s d = tt
dir_node-Names (suc fuel) rel b s d =
    let r = trim_slashes rel in
    if-Holds (Names b) (eqb r [] || eqb r dot) (some (root_place (lookup [] b.nodes), b)) _
      (IsNamed-same b d)
      (λ e.
        dir_found-Names r (new_info dir r b) b (dir_node fuel (parent_dir r) b) (lookup r b.nodes) d
          refl (dir_node-Leads fuel (parent_dir r) b s) (dir_node-Names fuel (parent_dir r) b s d))

pub dir_at-Names :
    (rel : Str) (b : Builder) → IsSound b → IsDistinctly b → Holds (Names b) (dir_at rel b)
unfolding dir_at
dir_at-Names rel b s d = dir_node-Names (suc (suc (length rel))) rel b s d

place_found-NamesAs :
    (rel : Str) (kind : Kind) (b : Builder) (o : Option ℕ)
    → IsSound b
    → IsDistinctly b
    → lookup rel b.nodes ≡ o
    → Holds (NamesAs rel b) (place_found rel kind b o)
unfolding attach
place_found-NamesAs rel kind b (some id) s d e = (record { distinct = d; grows = λ q k h. h }, e)
place_found-NamesAs rel kind b none s d e =
    attach_to-NamesAs rel (new_info kind rel b) b (dir_at (parent_dir rel) b) e
      (dir_at-Leads (parent_dir rel) b s) (dir_at-Names (parent_dir rel) b s d)

pub place-NamesAs :
    (rel : Str) (kind : Kind) (b : Builder)
    → IsSound b
    → IsDistinctly b
    → Holds (NamesAs (trim_slashes rel) b) (place rel kind b)
unfolding place
place-NamesAs rel kind b s d =
    place_found-NamesAs (trim_slashes rel) kind b (lookup (trim_slashes rel) b.nodes) s d refl
