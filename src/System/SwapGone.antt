-- ===== src/System/SwapGone.antt =====
-- What the swap aspect leaves of /etc/fstab
use eks_hybrid.Base.{
  String, str_eq_iff, ◌≡◌, refl, sym, ap, subst, ◌∙◌, arith, not, [], ◌∷◌, errorf, not_exist, wrap,
  join_cons, join_end, panic, Option, none, some, Option-cases, List, All, Result, ok, err, IsOk,
}
use eks_hybrid.Machine.{
  Bytes, World, Host, copy, service, stat, act, guard, lift, os_open, os_open_trunc, io_copy,
  or_empty,
}
use eks_hybrid.Machine.Triple.{Keeps, Keeps-bind, Keeps-lift, Keeps-guard, Keeps-reporting}
use eks_hybrid.Machine.Frame.{At, At-act, At-os_open}
use eks_hybrid.Machine.Success.{answered, at_last}
use eks_hybrid.Rules.Swap.{SwapArea, kept_lines, partition_swap_exists}
use eks_hybrid.Rules.SwapOff.{WithoutSwap, kept_lines-WithoutSwap}
use eks_hybrid.Machine.Lines.{scan, unlines, IsLine, scan-unlines}
use eks_hybrid.System.SwapSetup.{
  contents, paths_in, get_swapfile_paths, off_after, turn_off, swap_off, partition_found,
  rewrite_fstab, disable_swap_on_fstab, set_up_swap,
}

-- The file holds those of the lines that mount no swap.
abbrev pub IsRewritten : List Bytes → World → Type 0
IsRewritten lines v =
    (out : List Bytes) × WithoutSwap lines out × (v.files "/etc/fstab" ≡ some (unlines out))

ok_injective : {a b : Bytes} → ok a ≡ ok b → a ≡ b
ok_injective e = cc

module _ (h : Host) where
  io_copy-file :
      (p : String) (b : Bytes) (w : World)
      → IsOk (io_copy h p b w).0
      → (io_copy h p b w).1.files p ≡ some b
  unfolding io_copy
  io_copy-file p b w o =
      ground (arith, (str_eq_iff p p).1 refl, Option-cases (h.act w.trace (copy p)))

  module _ (text : Bytes → String) (areas_file : String) where
    rewrite_fstab-file :
        (lines : List Bytes) (w : World)
        → IsOk (rewrite_fstab h text areas_file lines w).0
        → (rewrite_fstab h text areas_file lines w).1.files "/etc/fstab" ≡ some (unlines lines)
    unfolding rewrite_fstab
    rewrite_fstab-file lines =
        at_last _ (λ r. r.1.files "/etc/fstab" ≡ some (unlines lines))
          (os_open_trunc h "/etc/fstab")
          (λ _.
            at_last _ (λ r. r.1.files "/etc/fstab" ≡ some (unlines lines))
              (act h (service "seek /etc/fstab"))
              (λ _ v. io_copy-file "/etc/fstab" (unlines lines) v))

    module _ {o : Option Bytes} where
      paths_in-Keeps :
          (r : Result (Unit {0})) → Keeps (At "/etc/fstab" o) (paths_in h text areas_file r)
      paths_in-Keeps (ok u) = Keeps-bind _ _ (record { at = λ w p. p }) (λ b. Keeps-lift _)
      paths_in-Keeps (err (errorf s)) = record { at = λ w p. p }
      paths_in-Keeps (err not_exist) = record { at = λ w p. p }
      paths_in-Keeps (err (wrap s e)) = record { at = λ w p. p }
      paths_in-Keeps (err (join_cons e es)) = record { at = λ w p. p }
      paths_in-Keeps (err join_end) = record { at = λ w p. p }
      paths_in-Keeps (err (panic s)) = record { at = λ w p. p }

      get_swapfile_paths-Keeps : Keeps (At "/etc/fstab" o) (get_swapfile_paths h text areas_file)
      unfolding get_swapfile_paths
      get_swapfile_paths-Keeps = record {
        at = λ w p.
            let (r, v) = os_open h areas_file w in
            (paths_in-Keeps r).at v ((At-os_open h areas_file).at w p);
      }

      off_after-Keeps :
          (a : SwapArea) (r : Result (Unit {0}))
          → Keeps (At "/etc/fstab" o) (off_after h text areas_file a r)
      off_after-Keeps a (ok u) = Keeps-reporting _ _ (At-act h _)
      off_after-Keeps a (err (errorf s)) = record { at = λ w p. p }
      off_after-Keeps a (err not_exist) = record { at = λ w p. p }
      off_after-Keeps a (err (wrap s e)) = record { at = λ w p. p }
      off_after-Keeps a (err (join_cons e es)) = record { at = λ w p. p }
      off_after-Keeps a (err join_end) = record { at = λ w p. p }
      off_after-Keeps a (err (panic s)) = record { at = λ w p. p }

      turn_off-Keeps : (a : SwapArea) → Keeps (At "/etc/fstab" o) (turn_off h text areas_file a)
      unfolding turn_off
      turn_off-Keeps a = record {
        at = λ w p.
            let (r, v) = act h (stat (text a.file_path)) w in
            (off_after-Keeps a r).at v ((At-act h (stat (text a.file_path))).at w p);
      }

      swap_off-Keeps :
          (areas : List (Option SwapArea))
          → Keeps (At "/etc/fstab" o) (swap_off h text areas_file areas)
      unfolding swap_off
      swap_off-Keeps [] = record { at = λ w p. p }
      swap_off-Keeps (none ∷ areas) = Keeps-lift _
      swap_off-Keeps (some a ∷ areas) =
          Keeps-bind _ _ (Keeps-guard _ _)
            (λ _. Keeps-bind _ _ (turn_off-Keeps a) (λ _. swap_off-Keeps areas))

    disable_swap_on_fstab-IsRewritten :
        (lines : List Bytes) (w : World)
        → All IsLine lines
        → w.files "/etc/fstab" ≡ some (unlines lines)
        → IsOk (disable_swap_on_fstab h text areas_file w).0
        → IsRewritten lines (disable_swap_on_fstab h text areas_file w).1
    unfolding disable_swap_on_fstab
    disable_swap_on_fstab-IsRewritten lines w a k =
        answered _ (λ r. IsRewritten lines r.1) (os_open h "/etc/fstab") w
          (λ _ _.
            let v = (os_open h "/etc/fstab" w).1 in
            answered _ (λ r. IsRewritten lines r.1) (contents h text areas_file "/etc/fstab") v
              (λ b q.
                let same : b ≡ unlines lines =
                  sym (ok_injective q) ∙ ap or_empty ((At-os_open h "/etc/fstab").at w k) in
                answered _ (λ r. IsRewritten lines r.1) (lift (kept_lines (scan b))) v
                  (λ out e o.
                    let f = subst (λ x. kept_lines (scan x) ≡ ok out) same e in
                    (
                      out,
                      kept_lines-WithoutSwap lines out
                          (subst (λ ls. kept_lines ls ≡ ok out) (scan-unlines lines a) f),
                      rewrite_fstab-file out v o,
                    ))))

    -- When /etc/fstab holds lines, none of which is longer than 65535 bytes or has a carriage return
    -- at its end, and the swap aspect is set up with success, the file holds in their order those of
    -- the lines that are blank, a comment or mount no swap, and no others.
    pub set_up_swap-IsRewritten :
        (lines : List Bytes) (w : World)
        → All IsLine lines
        → w.files "/etc/fstab" ≡ some (unlines lines)
        → IsOk (set_up_swap h text areas_file w).0
        → IsRewritten lines (set_up_swap h text areas_file w).1
    unfolding set_up_swap
    set_up_swap-IsRewritten lines w a k =
        let before = some (unlines lines) in
        let k1 = get_swapfile_paths-Keeps.at w k in
        answered _ (λ r. IsRewritten lines r.1) (get_swapfile_paths h text areas_file) w
          (λ areas _.
            answered _ (λ r. IsRewritten lines r.1) (lift (partition_swap_exists areas)) _
              (λ found _.
                answered _ (λ r. IsRewritten lines r.1) (guard (not found) _) _
                  (λ _ _.
                    let k2 =
                      (Keeps-guard {P = At "/etc/fstab" before} (not found)
                          (partition_found h text areas_file)).at
                        (get_swapfile_paths h text areas_file w).1 k1 in
                    answered _ (λ r. IsRewritten lines r.1) (swap_off h text areas_file areas) _
                      (λ _ _.
                        disable_swap_on_fstab-IsRewritten lines _ a
                          ((swap_off-Keeps areas).at _ k2)))))
