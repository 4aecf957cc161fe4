-- ===== src/Release/Match.antt =====
-- What GetLatestSource's result has to do with the version and the region that were asked for.
use eks_hybrid.Base.{
  String, ◌<>◌, str_eq, str_eq_iff, ◌==◌, ◌≡◌, refl, sym, ap, subst, ◌∙◌, Bool, true, false, not,
  ◌||◌, cut_prefix, arith, count_char, ok, wrap_err,
}
use eks_hybrid.Machine.Triple.{wrap_err-eq-ok}
use eks_hybrid.Release.Defs.{EksPatchRelease, Manifest, Source, Versions}
use eks_hybrid.Release.Select.{
  require, find_region, major_minor_of, latest_eks_source, latest_iam_source,
  validate_version_match, source_from_manifest,
}
use eks_hybrid.Release.Chosen.{>>=-ok, require-ok, Offered, choose-Memᴰ, matched_releases-Offered}

source_injective : {s t : Source} → ok s ≡ ok t → s ≡ t
source_injective e = cc

module _ (v : Versions) where
  latest_eks_source-Offered :
      (version : String) (m : Manifest) (r : EksPatchRelease)
      → latest_eks_source v version m ≡ ok r
      → Offered
          (major_minor_of v version)
          (cut_prefix version (major_minor_of v version <> "."))
          m.supported_eks_releases
          r
  unfolding latest_eks_source
  latest_eks_source-Offered version m r e =
      let (_, (_, e1)) = >>=-ok (require (not (str_eq version "")) _) _ e in
      let (_, (_, e2)) = >>=-ok (require (v.is_valid ("v" <> version)) _) _ e1 in
      matched_releases-Offered _ (cut_prefix version (major_minor_of v version <> "."))
        m.supported_eks_releases r (choose-Memᴰ v _ _ r e2)

  patch_rule : (a b : Bool) → (not a || b) ≡ true → a ≡ true → b ≡ true
  patch_rule true true p e = refl
  patch_rule true false p e = p
  patch_rule false b p e = cc

  validate_version_match-minor :
      (requested given : String) {u : Unit {0}}
      → validate_version_match v requested given ≡ ok u
      → major_minor_of v requested ≡ major_minor_of v given
        × (not (count_char b'.' requested == 2) || str_eq requested given) ≡ true
  unfolding validate_version_match
  validate_version_match-minor requested given e =
      let (_, (_, e1)) = >>=-ok (require (not (str_eq requested "" || str_eq given "")) _) _ e in
      let (_, (_, e2)) = >>=-ok (require (v.is_valid ("v" <> requested)) _) _ e1 in
      let (_, (_, e3)) = >>=-ok (require (v.is_valid ("v" <> given)) _) _ e2 in
      let (_, (p, e4)) =
        >>=-ok (require (str_eq (major_minor_of v requested) (major_minor_of v given)) _) _ e3 in
      ((str_eq_iff _ _).0 (require-ok _ _ p), require-ok _ _ e4)

  -- If the manifest gives a source, its EKS release is offered by a supported release of the
  -- requested major and minor version, with the requested patch or else the latest patch of that
  -- release; its version has the requested major and minor version; and its region is the one asked for.
  pub source_from_manifest-Offered :
      (version region : String) (m : Manifest) (s : Source)
      → source_from_manifest v version region m ≡ ok s
      → Offered
          (major_minor_of v version)
          (cut_prefix version (major_minor_of v version <> "."))
          m.supported_eks_releases
          s.eks
        × major_minor_of v version ≡ major_minor_of v s.eks.version
        × find_region region m.region_config ≡ ok s.region_info
  unfolding source_from_manifest
  source_from_manifest-Offered version region m s e =
      let (eks, (p, e1)) = >>=-ok (wrap_err _ (latest_eks_source v version m)) _ e in
      let (_, (q, e2)) = >>=-ok (validate_version_match v version eks.version) _ e1 in
      let (iam, (_, e3)) = >>=-ok (wrap_err _ (latest_iam_source v m)) _ e2 in
      let (info, (r, e4)) = >>=-ok (find_region region m.region_config) _ e3 in
      let same = source_injective e4 in
      (
        subst
            (λ x.
              Offered (major_minor_of v version)
                (cut_prefix version (major_minor_of v version <> ".")) m.supported_eks_releases x)
            (ap (λ x. x.eks) same) (latest_eks_source-Offered version m eks (wrap_err-eq-ok _ _ p)),
        (validate_version_match-minor version eks.version q).0
            ∙ ap (λ x. major_minor_of v x.eks.version) same,
        r ∙ ap (λ x. ok x.region_info) same,
      )

  -- If the manifest gives a source for a version with two dots, its EKS release has that version.
  pub source_from_manifest-patch :
      (version region : String) (m : Manifest) (s : Source)
      → source_from_manifest v version region m ≡ ok s
      → count_char b'.' version ≡ 2
      → s.eks.version ≡ version
  unfolding source_from_manifest
  source_from_manifest-patch version region m s e two =
      let (eks, (_, e1)) = >>=-ok (wrap_err _ (latest_eks_source v version m)) _ e in
      let (_, (q, e2)) = >>=-ok (validate_version_match v version eks.version) _ e1 in
      let (iam, (_, e3)) = >>=-ok (wrap_err _ (latest_iam_source v m)) _ e2 in
      let (info, (_, e4)) = >>=-ok (find_region region m.region_config) _ e3 in
      let (_, rule) = validate_version_match-minor version eks.version q in
      sym (
        (str_eq_iff _ _).0 (patch_rule (count_char b'.' version == 2) _ rule (ground (arith, two)))
        ∙ ap (λ x. x.eks.version) (source_injective e4))
