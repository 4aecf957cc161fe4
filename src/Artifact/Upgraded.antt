-- ===== src/Artifact/Upgraded.antt =====
-- What an upgrade of an artifact leaves.
use eks_hybrid.Base.{
  String, ◌<>◌, ◌≡◌, refl, ◌∙◌, Bool, true, false, not, arith, Option, none, some, Option-cases,
  errorf, wrap, Result, ok, IsOk,
}
use eks_hybrid.Machine.{
  Bytes, Source, read_file, Host, World, Exec, pure, ◌>>◌, wrapping, guard, when, os_read_file,
  file_bytes,
}
use eks_hybrid.Machine.Triple.{Triple, Triple-bind, Triple-wrapping, Triple-guard}
use eks_hybrid.Machine.Gives.{Gives, Gives-wrapping, Gives-bind, Gives-then}
use eks_hybrid.Artifact.Checksum.{bytes_eq, verify_checksum}
use eks_hybrid.Artifact.Install.{install_file}
use eks_hybrid.Artifact.Verified.{Any, bytes_eq→eq, files-install_file}
use eks_hybrid.Artifact.Upgrade.{checksum_match, upgrade}

module _ (h : Host) where
  -- The file has the digest `d`.
  abbrev pub HasDigest : String → Bytes → World → Type 0
  HasDigest p d w = (b : Bytes) × (w.files p ≡ some b × h.sha256 b ≡ d)

  file_bytes-ok : (o : Option Bytes) (b : Bytes) → file_bytes h o ≡ ok b → o ≡ some b
  file_bytes-ok none b e = cc
  file_bytes-ok (some a) b e = cc

  read-Gives : (p : String) → Gives Any (os_read_file h p) (λ b w. w.files p ≡ some b)
  unfolding os_read_file
  read-Gives p = record {
    at = λ w _ b e.
        ground (arith, file_bytes-ok (w.files p) b, Option-cases (h.act w.trace (read_file p)));
  }

  compare-Gives :
      (p : String) (src : Source) (b : Bytes)
      → Gives
          (λ w. w.files p ≡ some b)
          (pure (bytes_eq (h.sha256 b) src.expected))
          (λ same w. same ≡ true → HasDigest p src.expected w)
  compare-Gives p src b = record {
    at = λ w f same e s. (b, (f, bytes_eq→eq _ _ (ok_injective e ∙ s)));
  }
    where
      ok_injective : {x y : Bool} → ◌≡◌ {A = Result Bool} (ok x) (ok y) → x ≡ y
      ok_injective e = cc

  checksum_match-Gives :
      (p : String) (src : Source)
      → Gives Any (checksum_match h p src) (λ same w. same ≡ true → HasDigest p src.expected w)
  unfolding checksum_match
  checksum_match-Gives p src =
      Gives-bind {R = λ _. Any} _ _ (record { at = λ w _ a e. tt })
        λ _. Gives-bind _ _ (Gives-wrapping _ _ (read-Gives p)) λ b. compare-Gives p src b

  abbrev replace : String → String → Source → Exec Unit
  replace name p src = do
    wrapping ("installing " <> name) (install_file h p src.contents)
    guard (verify_checksum h src)
        (wrap ("verifying checksum post installing " <> name) (errorf "checksum mismatch"))

  replaced :
      (name p : String) (src : Source) → Triple Any (replace name p src) (HasDigest p src.expected)
  unfolding verify_checksum
  replaced name p src =
      Triple-bind _ _ (Triple-wrapping _ _ (files-install_file h p src.contents))
        λ _. Triple-guard _ _ (λ w v f. (src.contents, (f, bytes_eq→eq _ _ v)))

  replaced_unless :
      (name p : String) (src : Source) (same : Bool)
      → Triple
          (λ w. same ≡ true → HasDigest p src.expected w)
          (when (not same) (replace name p src))
          (HasDigest p src.expected)
  replaced_unless name p src true = record { at = λ w p o. p refl }
  replaced_unless name p src false = record { at = λ w _ o. (replaced name p src).at w tt o }

  pub upgrade-HasDigest_triple :
      (name p : String) (src : Source)
      → Triple Any (upgrade h name p src) (HasDigest p src.expected)
  unfolding upgrade
  upgrade-HasDigest_triple name p src =
      Gives-then _ _ (checksum_match-Gives p src) (replaced_unless name p src)

  -- An upgrade that succeeds leaves a file whose digest is the one published for the source, whether
  -- the file was replaced or left as it was.
  pub upgrade-HasDigest :
      (name p : String) (src : Source) (w : World)
      → IsOk (upgrade h name p src w).0
      → HasDigest p src.expected (upgrade h name p src w).1
  upgrade-HasDigest name p src w o = (upgrade-HasDigest_triple name p src).at w tt o
