-- ===== src/Config.antt =====
-- internal/config/config.go: the owners list and the checks on a configuration. Durations and
-- numbers are signed.
pub mod Owners
pub mod Checks
pub mod Loading
pub mod Loaded
pub mod Samples
mod Tests
use repo_man.Model.{Owner, owner_rel}
use repo_man.Base.{
  ℕ, zero, suc, Bool, true, false, not, List, [], ◌∷◌, ◌++◌, Option, none, some, Str, codes, ℤ, pos,
  negsuc, Result, ok, err, eqb, any, has_char, cut, split, trim_prefix, trim_suffix, trim_space,
  to_lower, if◌then◌else◌, ◌&&◌, ◌||◌,
}

pub record Config : Type 0 where
  pub root : Str
  pub addr : Str
  pub owners : List Owner
  pub passphrase : Str
  pub secure_cookie : Bool
  pub trust_proxy_ip : Bool
  pub scan_interval : ℤ
  pub fetch_interval : ℤ
  pub github_interval : ℤ
  pub fetch_concurrency : ℤ
  pub fetch_timeout : ℤ
  pub max_depth : ℤ

pub data ConfigError : Type 0 where
  empty_addr scan_interval fetch_interval github_interval fetch_concurrency fetch_timeout
        max_depth :
      ConfigError

unfoldable pub is_positive : ℤ → Bool
is_positive (pos zero) = false
is_positive (pos (suc n)) = true
is_positive (negsuc n) = false

unfoldable pub is_negative : ℤ → Bool
is_negative (pos n) = false
is_negative (negsuc n) = true

unfoldable pub validate : Config → Option ConfigError
validate c =
    if eqb c.addr []
    then some empty_addr
    else if not (is_positive c.scan_interval)
    then some scan_interval
    else if is_negative c.fetch_interval
    then some fetch_interval
    else if not (is_positive c.github_interval)
    then some github_interval
    else if not (is_positive c.fetch_concurrency)
    then some fetch_concurrency
    else if not (is_positive c.fetch_timeout)
    then some fetch_timeout
    else if not (is_positive c.max_depth)
    then some max_depth
    else none

unfoldable pub auth_enabled : Config → Bool
auth_enabled c = not (eqb c.passphrase [])

pub data OwnerError : Type 0 where
  invalid_owner : Str → OwnerError

-- The owner that an entry names, before it is checked.
unfoldable pub read_owner : Str → Owner
read_owner entry = elim (cut b'/' entry) [
  | none ↦ record { host = codes "github.com"; login = entry }
  | some (host, login) ↦ record { host = to_lower host; login = trim_suffix login (b'/' ∷ []) }
]

unfoldable pub is_invalid : Owner → Bool
is_invalid o = eqb o.host [] || eqb o.login [] || has_char b'/' o.login

-- The loop over the entries, with the owners that were seen and those that were found.
unfoldable pub parse_entries : List Str → List Str → List Owner → Result OwnerError (List Owner)
parse_entries [] seen out = ok out
parse_entries (raw ∷ rest) seen out =
    let entry = trim_prefix (trim_space raw) (b'/' ∷ []) in
    let o = read_owner entry in
    let skipped = parse_entries rest seen out in
    let added = parse_entries rest (owner_rel o ∷ seen) (out ++ o ∷ []) in
    if eqb entry []
    then skipped
    else if is_invalid o
    then err (invalid_owner entry)
    else if any (eqb (owner_rel o)) seen
    then skipped
    else added

unfoldable pub parse_owners : Str → Result OwnerError (List Owner)
parse_owners s = parse_entries (split s b',') [] []
