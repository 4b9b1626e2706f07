-- ===== src/Web/Funcs.antt =====
-- internal/web/funcs.go: statusWord, badges, errSummary and short. A badge has its class and its kind; its
-- label and its title are texts made from them and the counts.
pub mod Words
pub mod Summary
pub mod Ages
mod Tests
use repo_man.Model.{Remote, Status, Repo, dirty, exceeds_zero}
use repo_man.Base.{
  byte_len, take_bytes, cut_text, drop_prefix, has_prefix, ℕ, zero, suc, ◌-◌, Bool, true, false,
  not, List, [], ◌∷◌, ◌++◌, Option, none, some, Str, codes, ℤ, pos, negsuc, eqb, has_prefix,
  trim_prefix, drop_prefix, ltb, if◌then◌else◌, ◌==◌, ◌&&◌, ◌||◌,
}

pub data Word : Type 0 where
  no_repo error_word dirty_word behind_word ahead_word ok_word : Word

-- `none` stands for the nil pointer.
unfoldable pub status_word : Option Repo → Word
unfolding dirty exceeds_zero eqb
status_word none = no_repo
status_word (some r) =
    if not (eqb r.error [])
    then error_word
    else if ltb 0 r.status.conflicted
    then error_word
    else if dirty r.status
    then dirty_word
    else if exceeds_zero r.status.behind
    then behind_word
    else if exceeds_zero r.status.ahead
    then ahead_word
    else ok_word

pub data Badge : Type 0 where
  failed : Str → Badge
  conflicted : ℕ → Badge
  behind ahead : ℤ → Str → Badge
  staged modified untracked stashed : ℕ → Badge
  detached no_upstream no_remote clean_badge : Badge

abbrev badge_if : Bool → Badge → List Badge
badge_if b badge = if b then badge ∷ [] else []

abbrev or_clean : List Badge → List Badge
or_clean [] = clean_badge ∷ []
or_clean (b ∷ bs) = b ∷ bs

-- The badges that `out` collects, in order.
unfoldable pub status_badges : Repo → List Badge
unfolding exceeds_zero eqb
status_badges r =
    let st = r.status in
    badge_if (ltb 0 st.conflicted) (conflicted st.conflicted)
    ++ badge_if (exceeds_zero st.behind) (behind st.behind st.upstream)
    ++ badge_if (exceeds_zero st.ahead) (ahead st.ahead st.upstream)
    ++ badge_if (ltb 0 st.staged) (staged st.staged)
    ++ badge_if (ltb 0 st.unstaged) (modified st.unstaged)
    ++ badge_if (ltb 0 st.untracked) (untracked st.untracked)
    ++ badge_if (ltb 0 st.stashes) (stashed st.stashes)
    ++ (if st.detached
        then detached ∷ []
        else badge_if (eqb st.upstream [] && not (eqb r.remote.url [])) no_upstream)
    ++ badge_if (eqb r.remote.url []) no_remote

unfoldable pub badges : Option Repo → List Badge
unfolding status_badges
badges none = []
badges (some r) = if not (eqb r.error []) then failed r.error ∷ [] else or_clean (status_badges r)

-- errSummary
unfoldable pub err_summary : Str → Str
unfolding cut_text has_prefix drop_prefix eqb
err_summary msg =
    if has_prefix msg (codes "git ")
    then elim (cut_text (codes ": ") (drop_prefix msg (codes "git "))) [
      | none ↦ msg
      | some (before, after) ↦ if eqb after [] then msg else after
    ]
    else msg

-- short, on an abbreviated hash: its characters are bytes.
unfoldable pub short : Str → Str
unfolding take_bytes byte_len
short sha = if ltb 7 (byte_len sha) then take_bytes 7 sha else sha
