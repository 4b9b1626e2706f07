-- ===== src/Web/Funcs/Words.antt =====
-- funcs.go: the word and the badges of a row agree with the status.
use repo_man.Model.{Repo, dirty, clean, is_zero_int, exceeds_zero}
use repo_man.Web.Funcs.{ok_word, status_word, clean_badge, badges, status_badges}
use repo_man.Base.{◌≡◌, ◌≢◌, ◌↔◌, true, false, not, [], ◌∷◌, some, arith, ℤ, pos, negsuc, eqb_iff}

-- A count that git reports is not negative.
abbrev pub IsCount : ℤ → Type 0
IsCount (pos n) = Unit
IsCount (negsuc n) = ⊥

count_zero : (z : ℤ) → IsCount z → is_zero_int z ≡ not (exceeds_zero z)
unfolding is_zero_int exceeds_zero
count_zero (pos n) c = ground arith
count_zero (negsuc n) c = absurd c

-- For counts that are not negative, the word of a row is "ok" if and only if the inspection
-- succeeded and the checkout is clean: no change that is not committed, and level with its
-- upstream.
pub status_word_ok :
    (r : Repo)
    → IsCount r.status.ahead
    → IsCount r.status.behind
    → (status_word (some r) ≡ ok_word) ↔ ((r.error ≡ []) × (clean r.status ≡ true))
status_word_ok r ha hb = (sound, complete)
  where
    a : is_zero_int r.status.ahead ≡ not (exceeds_zero r.status.ahead)
    a = count_zero r.status.ahead ha

    b : is_zero_int r.status.behind ≡ not (exceeds_zero r.status.behind)
    b = count_zero r.status.behind hb

    sound : status_word (some r) ≡ ok_word → (r.error ≡ []) × (clean r.status ≡ true)
    sound h = unfold status_word clean in ground (arith, a, b, eqb_iff r.error [])

    complete : (r.error ≡ []) × (clean r.status ≡ true) → status_word (some r) ≡ ok_word
    complete h =
        unfold status_word clean dirty in ground (arith, a, b, eqb_iff r.error [], h.0, h.1)

-- What a row has when nothing is to be done about it.
pub record IsTidy (r : Repo) : Type 0 where
  pub inspected : r.error ≡ []
  pub level : clean r.status ≡ true
  pub unstashed : r.status.stashes ≡ 0
  pub attached : r.status.detached ≡ false
  pub tracked : r.status.upstream ≢ []
  pub hosted : r.remote.url ≢ []

-- For counts that are not negative, a tidy row shows the one badge "clean".
pub badges-IsTidy :
    (r : Repo)
    → IsCount r.status.ahead
    → IsCount r.status.behind
    → IsTidy r
    → badges (some r) ≡ clean_badge ∷ []
badges-IsTidy r ha hb t =
    let a = count_zero r.status.ahead ha in
    let b = count_zero r.status.behind hb in
    unfold badges status_badges clean dirty in
    ground (
      arith,
      a,
      b,
      eqb_iff r.error [],
      eqb_iff r.status.upstream [],
      eqb_iff r.remote.url [],
      t.inspected,
      t.level,
      t.unstashed,
      t.attached,
      t.tracked,
      t.hosted,
    )
