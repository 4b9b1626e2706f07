-- ===== src/Scan/Walked.antt =====
-- scan.go: what a part of the walk adds to the result, and how the parts compose.
use mathlib.Core.List.{Memᴰ}
use mathlib.Core.List.Memᴰ
use repo_man.Scan.{Candidate, Fault, Walk, cancelled, Context, Outcome, check, add_repo}
use repo_man.Base.{
  ℕ, ◌≡◌, refl, ap, ◌⊎◌, inl, inr, true, List, [], ◌∷◌, ◌++◌, Str, ok, err, ◌>>=◌, Bool-cases,
}

-- One member of a result.
pub data Item : Type 0 where
  repo : Candidate → Item
  plain : Str → Item
  fault : Fault → Item

abbrev pub In : Item → Walk → Type 0
In (repo c) w = Memᴰ c w.repos
In (plain r) w = Memᴰ r w.dirs
In (fault e) w = Memᴰ e w.errs

-- The later result holds what the earlier one holds, and what P holds of.
pub record Adds (P : Item → Type 0) (w w' : Walk) : Type 0 where
  pub forth : (x : Item) → In x w' → In x w ⊎ P x
  pub back : (x : Item) → In x w ⊎ P x → In x w'

pub Adds-errs :
    (w : Walk) (faults : List Fault)
    → Adds
        (λ x. (f : Fault) × (Memᴰ f faults × (x ≡ fault f)))
        w
        (record w { errs = w.errs ++ faults })
Adds-errs w faults = record { forth = to; back = from }
  where
    to :
        (x : Item)
        → In x (record w { errs = w.errs ++ faults })
        → In x w ⊎ ((f : Fault) × (Memᴰ f faults × (x ≡ fault f)))
    to (repo c) m = inl m
    to (plain r) m = inl m
    to (fault e) m = elim (Memᴰ.append_cases w.errs m) [
      | inl o ↦ inl o
      | inr n ↦ inr (e, (n, refl))
    ]

    from :
        (x : Item)
        → In x w ⊎ ((f : Fault) × (Memᴰ f faults × (x ≡ fault f)))
        → In x (record w { errs = w.errs ++ faults })
    from (repo c) (inl m) = m
    from (plain r) (inl m) = m
    from (fault e) (inl m) = Memᴰ.append_left faults m
    from x (inr (f, (m, q))) = rw q (Memᴰ.append_right w.errs m)

pub Adds-dir :
    (w : Walk) (rel : Str) → Adds (λ x. x ≡ plain rel) w (record w { dirs = w.dirs ++ rel ∷ [] })
Adds-dir w rel = record { forth = to; back = from }
  where
    to : (x : Item) → In x (record w { dirs = w.dirs ++ rel ∷ [] }) → In x w ⊎ (x ≡ plain rel)
    to (repo c) m = inl m
    to (fault e) m = inl m
    to (plain r) m = elim (Memᴰ.append_cases w.dirs m) [
      | inl o ↦ inl o
      | inr (Memᴰ.head q) ↦ inr (ap plain q)
      | inr (Memᴰ.tail n) ↦ absurd (Memᴰ.not-nil n)
    ]

    from : (x : Item) → In x w ⊎ (x ≡ plain rel) → In x (record w { dirs = w.dirs ++ rel ∷ [] })
    from (repo c) (inl m) = m
    from (fault e) (inl m) = m
    from (plain r) (inl m) = Memᴰ.append_left (rel ∷ []) m
    from x (inr q) = rw q (Memᴰ.append_right w.dirs (Memᴰ.head refl))

Adds-repo :
    (w : Walk) (c : Candidate) → Adds (λ x. x ≡ repo c) w (record w { repos = w.repos ++ c ∷ [] })
Adds-repo w c = record { forth = to; back = from }
  where
    to : (x : Item) → In x (record w { repos = w.repos ++ c ∷ [] }) → In x w ⊎ (x ≡ repo c)
    to (plain r) m = inl m
    to (fault e) m = inl m
    to (repo d) m = elim (Memᴰ.append_cases w.repos m) [
      | inl o ↦ inl o
      | inr (Memᴰ.head q) ↦ inr (ap repo q)
      | inr (Memᴰ.tail n) ↦ absurd (Memᴰ.not-nil n)
    ]

    from : (x : Item) → In x w ⊎ (x ≡ repo c) → In x (record w { repos = w.repos ++ c ∷ [] })
    from (plain r) (inl m) = m
    from (fault e) (inl m) = m
    from (repo d) (inl m) = Memᴰ.append_left (c ∷ []) m
    from x (inr q) = rw q (Memᴰ.append_right w.repos (Memᴰ.head refl))

pub Adds-checkout :
    (w : Walk) (cf : Candidate × List Fault)
    → Adds (λ x. (x ≡ repo cf.0) ⊎ ((f : Fault) × (Memᴰ f cf.1 × (x ≡ fault f)))) w (add_repo cf w)
Adds-checkout w (c, faults) =
    let a = Adds-repo w c in
    let b = Adds-errs (record w { repos = w.repos ++ c ∷ [] }) faults in
    record {
      forth = λ x m. elim (b.forth x m) [
        | inl o ↦ elim (a.forth x o) [ inl o' ↦ inl o' | inr q ↦ inr (inl q) ]
        | inr q ↦ inr (inr q)
      ];
      back = λ x m. elim m [
        | inl o ↦ b.back x (inl (a.back x (inl o)))
        | inr (inl q) ↦ b.back x (inl (a.back x (inr q)))
        | inr (inr q) ↦ b.back x (inr q)
      ];
    }

module _ (ctx : Context) where
  -- The walk goes on to add what P holds of, or a check of the context has failed.
  abbrev pub Leads : (Item → Type 0) → Walk → Outcome → Type 0
  Leads P w (ok w') = Adds P w w'
  Leads P w (err e) = (e ≡ cancelled) × ((n : ℕ) × (ctx n ≡ true))

  pub Leads-same :
      (P Q : Item → Type 0) (w : Walk) (r : Outcome)
      → ((x : Item) → P x → Q x)
      → ((x : Item) → Q x → P x)
      → Leads P w r
      → Leads Q w r
  Leads-same P Q w (err e) f g h = h
  Leads-same P Q w (ok w') f g h = record {
    forth = λ x m. elim (h.forth x m) [ inl o ↦ inl o | inr p ↦ inr (f x p) ];
    back = λ x m. elim m [ inl o ↦ h.back x (inl o) | inr q ↦ h.back x (inr (g x q)) ];
  }

  pub Leads->>= :
      (P Q : Item → Type 0) (w : Walk) (r : Outcome) (f : Walk → Outcome)
      → Leads P w r
      → ((w₁ : Walk) → Leads Q w₁ (f w₁))
      → Leads (λ x. P x ⊎ Q x) w (r >>= f)
  Leads->>= P Q w (err e) f h k = h
  Leads->>= P Q w (ok w₁) f h k = both (f w₁) (k w₁)
    where
      both : (s : Outcome) → Leads Q w₁ s → Leads (λ x. P x ⊎ Q x) w s
      both (err e) l = l
      both (ok w₂) l = record {
        forth = λ x m. elim (l.forth x m) [
          | inl o ↦ elim (h.forth x o) [ inl o' ↦ inl o' | inr p ↦ inr (inl p) ]
          | inr q ↦ inr (inr q)
        ];
        back = λ x m. elim m [
          | inl o ↦ l.back x (inl (h.back x (inl o)))
          | inr (inl p) ↦ l.back x (inl (h.back x (inr p)))
          | inr (inr q) ↦ l.back x (inr q)
        ];
      }

  -- Nothing is added.
  pub Leads-ok : (w : Walk) → Leads (λ x. ⊥) w (ok w)
  Leads-ok w = record {
    forth = λ x m. inl m;
    back = λ x m. elim m [ inl o ↦ o | inr b ↦ absurd b ];
  }

  kept :
      (w : Walk) (n : ℕ) (x : Item)
      → (In x w → In x (record w { checks = n })) × (In x (record w { checks = n }) → In x w)
  kept w n (repo c) = (λ m. m, λ m. m)
  kept w n (plain r) = (λ m. m, λ m. m)
  kept w n (fault e) = (λ m. m, λ m. m)

  pub Leads-check : (w : Walk) → Leads (λ x. ⊥) w (check ctx w)
  unfolding check
  Leads-check w = elim (Bool-cases (ctx w.checks)) [
    | inl y ↦ rw y (refl, (w.checks, y))
    | inr n ↦ rw n (record {
      forth = λ x m. inl ((kept w _ x).1 m);
      back = λ x m. elim m [ inl o ↦ (kept w _ x).0 o | inr b ↦ absurd b ];
    })
  ]

  -- A check, and then what is left.
  pub Leads-checked :
      (P : Item → Type 0) (w : Walk) (f : Walk → Outcome)
      → ((w₁ : Walk) → Leads P w₁ (f w₁))
      → Leads P w (check ctx w >>= f)
  Leads-checked P w f k =
      Leads-same (λ x. ⊥ ⊎ P x) P w (check ctx w >>= f)
        (λ x m. elim m [ inl b ↦ absurd b | inr p ↦ p ]) (λ x p. inr p)
        (Leads->>= (λ x. ⊥) P w (check ctx w) f (Leads-check w) k)
