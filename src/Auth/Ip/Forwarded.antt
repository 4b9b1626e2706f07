-- ===== src/Auth/Ip/Forwarded.antt =====
-- ip.go: which part of X-Forwarded-For is believed.
use repo_man.Auth.Ip.{client_ip, host_of}
use repo_man.Base.{
  ◌≡◌, refl, ◌≢◌, true, false, List, [], ◌∷◌, ◌++◌, Str, eqb-nil, split, join, trim_space,
  last_part, Lacks, split_whole, split-append, last_part-append, append_assoc,
}

-- The header lines before, the part of the last line before the last entry, and that entry.
join_lines :
    (lines : List Str) (front e : Str)
    → (s : Str) × (join (lines ++ (front ++ b',' ∷ e) ∷ []) (b',' ∷ []) ≡ s ++ b',' ∷ e)
unfolding join
join_lines [] front e = (front, refl)
join_lines (l ∷ []) front e = (l ++ b',' ∷ front, simp append_assoc)
join_lines (l ∷ m ∷ lines) front e =
    let ih = join_lines (m ∷ lines) front e in (l ++ b',' ∷ ih.0, rw ih.1 (simp append_assoc))

join_lines_alone :
    (l : Str) (lines : List Str) (e : Str)
    → (s : Str) × (join ((l ∷ lines) ++ e ∷ []) (b',' ∷ []) ≡ s ++ b',' ∷ e)
unfolding join
join_lines_alone l [] e = (l, refl)
join_lines_alone l (m ∷ lines) e =
    let ih = join_lines_alone m lines e in (l ++ b',' ∷ ih.0, rw ih.1 (simp append_assoc))

last_entry : (s e : Str) → Lacks b',' e → last_part (split (s ++ b',' ∷ e) b',') ≡ e
unfolding last_part
last_entry s e h =
    rw (split-append, split_whole e b',' h) (last_part-append (split s b',') (e ∷ []) (λ n. cc))

append-ne-nil : (s e : Str) → s ++ b',' ∷ e ≢ []
append-ne-nil [] e h = cc
append-ne-nil (x ∷ s) e h = cc

believed :
    (lines : List Str) (e addr s : Str)
    → join lines (b',' ∷ []) ≡ s ++ b',' ∷ e
    → Lacks b',' e
    → trim_space e ≢ []
    → client_ip true lines addr ≡ trim_space e
unfolding client_ip
believed lines e addr s j h n =
    rw (j, last_entry s e h) (rw (eqb-nil _ (append-ne-nil s e), eqb-nil _ n) refl)

-- With TrustProxyIP on, the entry that the proxy appended, where it is not blank and holds no
-- comma, is the address, whatever the client put before it: in the same header line, or in header
-- lines of their own.
pub client_ip_proxy :
    (line : Str) (lines : List Str) (front e addr : Str)
    → Lacks b',' e
    → trim_space e ≢ []
    → (client_ip true (e ∷ []) addr ≡ trim_space e)
      × (client_ip true (line ∷ lines ++ e ∷ []) addr ≡ trim_space e)
      × (client_ip true (lines ++ (front ++ b',' ∷ e) ∷ []) addr ≡ trim_space e)
client_ip_proxy line lines front e addr h n = (
  alone e h n,
  (let j = join_lines_alone line lines e in believed _ e addr j.0 j.1 h n),
  (let j = join_lines lines front e in believed _ e addr j.0 j.1 h n),
)
  where
    alone :
        (e : Str) → Lacks b',' e → trim_space e ≢ [] → client_ip true (e ∷ []) addr ≡ trim_space e
    alone [] h n = absurd (n (unfold trim_space in refl))
    alone (x ∷ e) h n =
        unfold client_ip join last_part in rw (split_whole (x ∷ e) b',' h) (rw (eqb-nil _ n) refl)

-- With TrustProxyIP off, the header has no say.
pub client_ip_direct : (lines : List Str) (addr : Str) → client_ip false lines addr ≡ host_of addr
unfolding client_ip
client_ip_direct lines addr = refl
