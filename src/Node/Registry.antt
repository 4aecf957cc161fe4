-- ===== src/Node/Registry.antt =====
-- internal/aws/ecr/ecr.go, with GetPartitionDNSSuffix of internal/aws/partition.go and
-- internal/system/fips.go. Reading the file of FIPS, Atoi and the lookup of hosts are parameters.
use eks_hybrid.Base.{
  ℕ, ◌==◌, String, ◌<>◌, str_eq, starts_with, if◌then◌else◌, Bool, true, false, ◌&&◌, Option, none,
  some, List, [], ◌∷◌, not_exist, Result, ok, err,
}
use eks_hybrid.Release.Defs.{RegionData}
use eks_hybrid.Release.Select.{◌>>=◌, partition_of_region}

unfoldable pub dns_suffix_of : String → String
dns_suffix_of partition =
    if str_eq partition "aws"
    then "amazonaws.com"
    else if str_eq partition "aws-cn"
    then "amazonaws.com.cn"
    else if str_eq partition "aws-us-gov"
    then "amazonaws.com"
    else if str_eq partition "aws-iso"
    then "c2s.ic.gov"
    else if str_eq partition "aws-iso-b"
    then "sc2s.sgov.gov"
    else if str_eq partition "aws-iso-e"
    then "cloud.adc-e.uk"
    else if str_eq partition "aws-iso-f"
    then "csp.hci.ic.gov"
    else if str_eq partition "aws-eusc"
    then "amazonaws.eu"
    else "amazonaws.com"

abbrev pub non_opt_in_account : String
non_opt_in_account = "602401143452"

abbrev pub accounts_by_region : List (String × String)
accounts_by_region =
    ("cn-north-1", "918309763551")
    ∷ ("cn-northwest-1", "961992271922")
    ∷ ("eu-isoe-west-1", "249663109785")
    ∷ ("us-gov-east-1", "151742754352")
    ∷ ("us-gov-west-1", "013241004608")
    ∷ ("us-iso-east-1", "725322719131")
    ∷ ("us-iso-west-1", "608367168043")
    ∷ ("us-isob-east-1", "187977181151")
    ∷ ("us-isof-south-1", "676585237158")
    ∷ []

unfoldable pub account_in : String → List (String × String) → Option String
account_in region [] = none
account_in region ((r, a) ∷ rest) =
    let more = account_in region rest in if str_eq r region then some a else more

abbrev pub by_prefix : String → String × String
by_prefix region =
    if starts_with region "us-gov-"
    then ("013241004608", "us-gov-west-1")
    else if starts_with region "cn-"
    then ("961992271922", "cn-northwest-1")
    else if starts_with region "us-iso-"
    then ("725322719131", "us-iso-east-1")
    else if starts_with region "us-isob-"
    then ("187977181151", "us-isob-east-1")
    else if starts_with region "us-isof-"
    then ("676585237158", "us-isof-south-1")
    else (non_opt_in_account, "us-west-2")

abbrev pub account_or : String → Option String → String × String
account_or region (some account) = (account, region)
account_or region none = by_prefix region

-- getEKSRegistryCoordinates
unfoldable pub registry_coordinates : String → String × String
registry_coordinates region = account_or region (account_in region accounts_by_region)

-- getEKSRegistryCoordinatesWithRegionConfig
unfoldable pub coordinates_with_config : String → Option RegionData → String × String
coordinates_with_config region none = registry_coordinates region
coordinates_with_config region (some c) =
    if str_eq c.ecr_account_id "" then registry_coordinates region else (c.ecr_account_id, region)

unfoldable pub get_registry : String → String → String → String → String
get_registry account subdomain region domain =
    account <> ".dkr." <> subdomain <> "." <> region <> "." <> domain

abbrev pub services_domain : String → Option RegionData → String
services_domain region none = dns_suffix_of (partition_of_region region)
services_domain region (some c) =
    if str_eq c.dns_suffix "" then dns_suffix_of (partition_of_region region) else c.dns_suffix

unfoldable pub image_reference : String → String → String → String
image_reference registry repository tag = registry <> "/" <> repository <> ":" <> tag

-- GetSandboxImage
abbrev pub sandbox_image_of : String → String
sandbox_image_of registry = image_reference registry "eks/pause" "3.5"

pub record RegistryHost : Type 0 where
  -- the text of /proc/sys/crypto/fips_enabled, trimmed
  pub fips_file : Result String
  pub atoi : String → Result ℕ
  pub lookup_host : String → Result (List String)

abbrev pub fips_of : Result ℕ → Result (Bool × Bool)
fips_of (ok n) = ok (true, n == 1)
fips_of (err e) = err e

abbrev pub fips_read : (String → Result ℕ) → Result String → Result (Bool × Bool)
fips_read atoi (ok s) = fips_of (atoi s)
fips_read atoi (err not_exist) = ok (false, false)
fips_read atoi (err e) = err e

module _ (h : RegistryHost) where
  unfoldable pub get_fips_info : Result (Bool × Bool)
  get_fips_info = fips_read h.atoi h.fips_file

  abbrev pub resolved : String → String → List String → Result String
  resolved fips plain [] = ok plain
  resolved fips plain (a ∷ more) = ok fips

  abbrev pub registry_for : String → String × String → Bool × Bool → Result String
  registry_for domain (account, place) (installed, enabled) =
      if installed && enabled
      then (do
        addresses ← h.lookup_host (get_registry account "ecr-fips" place domain)
        resolved (get_registry account "ecr-fips" place domain)
            (get_registry account "ecr" place domain) addresses)
      else ok (get_registry account "ecr" place domain)

  -- getEksRegistryWithServiceDomainAndRegionConfig
  unfoldable pub registry_at : String → String → Option RegionData → Result String
  registry_at region domain config = do
    fips ← get_fips_info
    registry_for domain (coordinates_with_config region config) fips

  unfoldable pub get_hybrid_registry : String → Option RegionData → Result String
  get_hybrid_registry region config = registry_at region (services_domain region config) config
