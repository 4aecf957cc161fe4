-- ===== src/Components/Verified.antt =====
-- Downloads, and the checksums published for them.
use eks_hybrid.Base.{ℕ, suc, String, ◌≡◌, refl, true, some, List, Err, ok, IsOk}
use eks_hybrid.Machine.{Call, Source, Host, World, Exec, wrapping, guard, get_source, ◌>>=◌}
use eks_hybrid.Machine.Triple.{
  Triple, Keeps, Triple-bind, Triple-bind_value, Triple-guard, Triple-wrapping, Triple-attempts,
  wrap_err-eq-ok,
}
use eks_hybrid.Artifact.Checksum.{verify_checksum}
use eks_hybrid.Artifact.Install.{install_file}
use eks_hybrid.Artifact.Verified.{Any, bytes_eq→eq, files-install_file}
use eks_hybrid.Components.Download.{Binary, download_file_to, download_file_with_retries}

-- `p` holds what a download of `name` delivers after some calls, and its digest is the one
-- published with it.
abbrev pub Holds : Host → String → String → World → Type 0
Holds h name p w =
    (src : Source) × (t : List Call) × (h.fetch_source t name ≡ ok src)
    × (w.files p ≡ some src.contents)
    × (h.sha256 src.contents ≡ src.expected)

module _ (h : Host) where
  pub Keeps-Any : {A : Type 0} (m : Exec A) → Keeps Any m
  Keeps-Any m = record { at = λ w p. tt }

  verify_checksum→eq :
      (src : Source) → verify_checksum h src ≡ true → h.sha256 src.contents ≡ src.expected
  unfolding verify_checksum
  verify_checksum→eq src e = bytes_eq→eq _ _ e

  pub fetched :
      (s name : String) (w : World) (src : Source)
      → (wrapping s (get_source h name) w).0 ≡ ok src
      → h.fetch_source w.trace name ≡ ok src
  unfolding wrapping get_source
  fetched s name w src e = wrap_err-eq-ok s _ e

  pub install-verify-Holds :
      (name p s : String) (e : Err) (src : Source) (t : List Call)
      → h.fetch_source t name ≡ ok src
      → Triple Any
          (wrapping s (install_file h p src.contents) >>= λ _. guard (verify_checksum h src) e)
          (Holds h name p)
  install-verify-Holds name p s e src t f =
      Triple-bind _ _ (Triple-wrapping s _ (files-install_file h p src.contents))
        λ _. Triple-guard _ e (λ w v i. (src, t, f, i, verify_checksum→eq src v))

  module _ (b : Binary) where
    download_file_to-Holds : Triple Any (download_file_to h b) (Holds h b.name b.path)
    unfolding download_file_to
    download_file_to-Holds =
        Triple-bind_value _ _ (Keeps-Any _)
          λ w src e. install-verify-Holds b.name b.path _ _ src w.trace (fetched _ b.name w src e)

    pub download_file_with_retries-Holds :
        Triple Any (download_file_with_retries h b) (Holds h b.name b.path)
    unfolding download_file_with_retries
    download_file_with_retries-Holds =
        rw three (Triple-attempts _ (Keeps-Any _) download_file_to-Holds 2 (ok tt))
      where
        three : ◌≡◌ {A = ℕ} 3 (suc 2)
        three = refl

    -- When one of the three attempts at a download succeeds, the file holds what a download delivers
    -- at some point, and its digest is the one published with it.
    pub download_file_with_retries-verified :
        (w : World)
        → IsOk (download_file_with_retries h b w).0
        → Holds h b.name b.path (download_file_with_retries h b w).1
    download_file_with_retries-verified w o = download_file_with_retries-Holds.at w tt o
