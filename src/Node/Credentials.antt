-- ===== src/Node/Credentials.antt =====
-- What a node's AWS configuration for IAM Roles Anywhere holds once it is written
use eks_hybrid.Base.{
  String, str_eq, str_eq_iff, str_eq-false, ◌≡◌, ◌≢◌, refl, Bool, Bool-cases, inl, inr, some, arith,
  Option-cases, List, Err, Result, ok, IsOk,
}
use eks_hybrid.Machine.{
  Bytes, World, Host, act, lift, wrapping, mkdir_all, write_file, os_write_file,
}
use eks_hybrid.Machine.Success.{answered, at_last, ok-IsOk, unwrapped-IsOk}
use eks_hybrid.Components.Gather.{joined}
use eks_hybrid.Node.Aws.{
  AwsConfig, missing, completed, validate_aws_config, write_config_file, write_aws_config,
}

-- Each value that the template needs is there.
abbrev pub IsComplete : AwsConfig → Type 0
IsComplete c =
    (c.trust_anchor_arn ≢ "")
    × (c.profile_arn ≢ "")
    × (c.role_arn ≢ "")
    × (c.region ≢ "")
    × (c.node_name ≢ "")
    × (c.signing_helper_bin_path ≢ "")
    × (c.certificate_path ≢ "")
    × (c.private_key_path ≢ "")

not_missing :
    (s m : String) (errs : List Err)
    → IsOk (joined (missing s m errs))
    → (s ≢ "") × IsOk (joined errs)
not_missing s m errs o = elim (Bool-cases (str_eq s "")) [
  | inl e ↦ let x = (rw e at o) in absurd x
  | inr e ↦ let x = (rw e at o) in ((str_eq-false s "").0 e, x)
]

validate_aws_config-IsComplete : (c : AwsConfig) → IsOk (validate_aws_config c) → IsComplete c
unfolding validate_aws_config
validate_aws_config-IsComplete c o =
    let (n1, o1) = not_missing c.trust_anchor_arn _ _ o in
    let (n2, o2) = not_missing c.profile_arn _ _ o1 in
    let (n3, o3) = not_missing c.role_arn _ _ o2 in
    let (n4, o4) = not_missing c.region _ _ o3 in
    let (n5, o5) = not_missing c.node_name _ _ o4 in
    let (n6, o6) = not_missing c.signing_helper_bin_path _ _ o5 in
    let (n7, o7) = not_missing c.certificate_path _ _ o6 in
    let (n8, o8) = not_missing c.private_key_path _ _ o7 in (n1, n2, n3, n4, n5, n6, n7, n8)

module _ (h : Host) (render : AwsConfig → Result Bytes) (proxy : Bool) where
  os_write_file-file :
      (p : String) (b : Bytes) (w : World)
      → IsOk (os_write_file h p b w).0
      → (os_write_file h p b w).1.files p ≡ some b
  unfolding os_write_file
  os_write_file-file p b w o =
      ground (arith, (str_eq_iff p p).1 refl, Option-cases (h.act w.trace (write_file p)))

  -- what is at the path of a configuration that was written
  abbrev pub HoldsRendered : AwsConfig → World → Type 0
  HoldsRendered c v = (b : Bytes) × (render c ≡ ok b) × (v.files c.config_path ≡ some b)

  write_config_file-HoldsRendered :
      (c : AwsConfig) (w : World)
      → IsOk (write_config_file h render proxy c w).0
      → HoldsRendered c (write_config_file h render proxy c w).1
  unfolding write_config_file wrapping
  write_config_file-HoldsRendered c w =
      answered _ (λ r. HoldsRendered c r.1) (lift (render c)) w
        (λ b e.
          at_last _ (λ r. HoldsRendered c r.1) (act h (mkdir_all (h.dir c.config_path)))
            (λ u v o. (b, e, os_write_file-file c.config_path b v (unwrapped-IsOk _ _ o))) _)

  -- When the AWS configuration for IAM Roles Anywhere is written with success, none of the eight
  -- values that it needs is empty, and the file at its path, or else at the default path, holds what
  -- the template gives for it.
  pub write_aws_config-HoldsRendered :
      (c : AwsConfig) (w : World)
      → IsOk (write_aws_config h render proxy c w).0
      → IsComplete c × HoldsRendered (completed proxy c) (write_aws_config h render proxy c w).1
  unfolding write_aws_config
  write_aws_config-HoldsRendered c w =
      answered _ (λ r. IsComplete c × HoldsRendered (completed proxy c) r.1)
        (lift (validate_aws_config (completed proxy c))) w
        (λ u e o. (
          validate_aws_config-IsComplete (completed proxy c) (ok-IsOk _ u e),
          write_config_file-HoldsRendered (completed proxy c) w o,
        ))
