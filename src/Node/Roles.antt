-- ===== src/Node/Roles.antt =====
-- internal/node/hybrid/hybrid_role_validator.go. The two services are parameters.
use eks_hybrid.Base.{
  ℕ, zero, suc, ◌+◌, String, ◌<>◌, str_eq, starts_with, has_infix, has_suffix, split_at,
  if◌then◌else◌, ◌≡◌, refl, ap, ◌∙◌, Bool, false, ◌&&◌, ◌||◌, Option, none, some, List, [], ◌∷◌,
  ◌++◌, Result, ok, err, wrap, arith,
}
use mathlib.Core.List.{append_assoc}
use eks_hybrid.Rules.Runner.{Failure, plain, remediable}

-- arn.ARN: the two parts that are read
pub record Arn : Type 0 where
  pub service : String
  pub resource : String

abbrev pub second : List String → Option String
second (a ∷ b ∷ rest) = some b
second _ = none

-- the last of at least two parts
unfoldable pub last_of : List String → Option String
last_of [] = none
last_of (a ∷ []) = none
last_of (a ∷ b ∷ []) = some b
last_of (a ∷ b ∷ c ∷ rest) = last_of (b ∷ c ∷ rest)

abbrev pub or_else : Option String → Option String → Option String
or_else none later = later
or_else (some s) later = some s

-- extractRoleNameFromARN
unfoldable pub extract_role_name : Arn → Option String
extract_role_name a =
    let parts = split_at b'/' a.resource in
    or_else
      (if str_eq a.service "sts" && starts_with a.resource "assumed-role"
        then second parts
        else none)
      (if str_eq a.service "iam" && starts_with a.resource "role" then last_of parts else none)

-- One page of access entries, and the token of the next one; an empty token is as good as none.
pub record Page : Type 0 where
  pub entries : List String
  pub next_token : Option String

abbrev pub token_of : Option String → Option String
token_of none = none
token_of (some t) = if str_eq t "" then none else some t

pub record Services : Type 0 where
  pub caller_arn : Result (Option String)
  pub parse_arn : String → Result Arn
  pub list_access_entries : Option String → Result Page

abbrev pub Fetched : Type 0
Fetched = Option (Result (List String))

abbrev pub go_on : (Option String → Fetched) → List String → Option String → Fetched
go_on more entries none = some (ok entries)
go_on more entries (some t) = more (some t)

abbrev pub after_page :
    (List String → Option String → Fetched) → List String → Result Page → Fetched
after_page more entries (err e) = some (err (wrap "failed to list access entries" e))
after_page more entries (ok page) =
    go_on (more (entries ++ page.entries)) (entries ++ page.entries) (token_of page.next_token)

module _ (s : Services) where
  -- fetchAllAccessEntries: the loop, which is given a number of rounds; `none` is running out of them.
  unfoldable pub fetch_all_access_entries : ℕ → List String → Option String → Fetched
  fetch_all_access_entries zero entries token = none
  fetch_all_access_entries (suc n) entries token =
      after_page (λ more t. fetch_all_access_entries n more t) entries (s.list_access_entries token)

  -- the service answers with `n` pages from a token on, which hold these entries
  pub data Pages : ℕ → Option String → List String → Type 0 where
    last_page :
        {token : Option String} (page : Page)
        → s.list_access_entries token ≡ ok page
        → token_of page.next_token ≡ none
        → Pages 1 token page.entries
    one_more :
        {n : ℕ} {token : Option String} {rest : List String} (page : Page) (t : String)
        → s.list_access_entries token ≡ ok page
        → token_of page.next_token ≡ some t
        → Pages n (some t) rest
        → Pages (suc n) token (page.entries ++ rest)

  abbrev pub is_principal : String → String → Bool
  is_principal role entry =
      has_infix entry ("role/" <> role)
      || (has_infix entry ("role/" <> role <> "/") || has_suffix entry role)

  unfoldable pub has_principal : String → List String → Bool
  has_principal role [] = false
  has_principal role (e ∷ es) = is_principal role e || has_principal role es

  abbrev pub advise : String → Option Failure
  advise m = some (
      remediable (plain m)
        "Ensure your EKS cluster has at least one access entry of type HYBRID_LINUX with the hybrid node IAM role as principal.")

  abbrev pub check_entries : String → Fetched → Option (Option Failure)
  check_entries role none = none
  check_entries role (some (err e)) = some (advise "fetching access entries from cluster")
  check_entries role (some (ok entries)) = some (
      if has_principal role entries
      then none
      else advise "missing access entry of type HYBRID_LINUX with Hybrid Node role principal")

  abbrev pub check_role : ℕ → Option String → Option (Option Failure)
  check_role fuel none = some (advise "extracting role name from ARN")
  check_role fuel (some role) =
      if str_eq role ""
      then some (advise "extracting role name from ARN")
      else check_entries role (fetch_all_access_entries fuel [] none)

  abbrev pub check_parsed_arn : ℕ → Result Arn → Option (Option Failure)
  check_parsed_arn fuel (ok a) = check_role fuel (extract_role_name a)
  check_parsed_arn fuel (err e) = some (advise "parsing role ARN")

  abbrev pub check_arn : ℕ → Option String → Option (Option Failure)
  check_arn fuel none = some (advise "caller identity ARN is nil")
  check_arn fuel (some a) = check_parsed_arn fuel (s.parse_arn a)

  abbrev pub check_caller : ℕ → Result (Option String) → Option (Option Failure)
  check_caller fuel (ok a) = check_arn fuel a
  check_caller fuel (err e) = some (advise "getting caller identity")

  -- ValidateClusterAccess, where the AWS configuration is set: skipped if the cluster is not known
  unfoldable pub validate_cluster_access : ℕ → Option String → Option (Option Failure)
  validate_cluster_access fuel none = some none
  validate_cluster_access fuel (some cluster) = check_caller fuel s.caller_arn

  -- Given at least as many rounds as the service has pages, the loop returns all entries of all pages,
  -- in their order.
  pub fetch_all_access_entries-Pages :
      (n fuel : ℕ) (entries : List String) (token : Option String) (rest : List String)
      → Pages n token rest
      → fetch_all_access_entries (n + fuel) entries token ≡ some (ok (entries ++ rest))
  unfolding fetch_all_access_entries
  fetch_all_access_entries-Pages n fuel entries token rest (last_page page e t) =
      let more : 1 + fuel ≡ suc fuel = omega arith in rw (more, e, t) refl
  fetch_all_access_entries-Pages n fuel entries token _
        (one_more {n = m} {rest = rest} page t e f pages) =
      let more : suc m + fuel ≡ suc (m + fuel) = omega arith in
      rw (more, e, f)
        (fetch_all_access_entries-Pages m fuel (entries ++ page.entries) (some t) rest pages
          ∙ ap (λ es. some (ok es)) (append_assoc entries page.entries rest))
