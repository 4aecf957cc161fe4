-- ===== src/Kubelet/Flags.antt =====
-- Which value of a flag kubelet is left with
use eks_hybrid.Base.{String, ◌<>◌, ◌≡◌, refl, ap, ◌∙◌, List, [], ◌∷◌, ◌++◌}
use text.Mathlib.TextLemmas.{append_assoc}
use eks_hybrid.Config.Validate.{extract_flag, flag_or}
use eks_hybrid.Kubelet.NodeName.{cut_prefix-append}
use eks_hybrid.Kubelet.Defs.{Table}
use eks_hybrid.Kubelet.Write.{Formats, flag_texts, kubelet_args}

extract_flag-append :
    (xs ys : List String) (flag v : String)
    → extract_flag v (xs ++ ys) flag ≡ extract_flag (extract_flag v xs flag) ys flag
unfolding extract_flag
extract_flag-append [] ys flag v = refl
extract_flag-append (x ∷ xs) ys flag v = extract_flag-append xs ys flag _

extract_flag-last :
    (v : String) (flag value : String)
    → extract_flag v (("--" <> flag <> "=" <> value) ∷ []) flag ≡ value
unfolding extract_flag
extract_flag-last v flag value =
    let e : ("--" <> flag <> "=") <> value ≡ "--" <> flag <> "=" <> value =
      append_assoc "--" (flag <> "=") value ∙ ap (λ s. "--" <> s) (append_assoc flag "=" value) in
    rw (← e) (ap (λ o. flag_or o v) (cut_prefix-append ("--" <> flag <> "=") value))

-- When the last of the user's flags sets a flag, that is the value that stands last among the
-- arguments of kubelet, whatever nodeadm sets and in whatever order.
pub kubelet_args-last :
    (m : Formats) (flags : Table) (user : List String) (flag value : String)
    → extract_flag "" (kubelet_args m flags (user ++ (("--" <> flag <> "=" <> value) ∷ []))) flag
      ≡ value
unfolding kubelet_args
kubelet_args-last m flags user flag value =
    extract_flag-append (flag_texts (m.iterate flags)) _ flag ""
    ∙ extract_flag-append user _ flag _
    ∙ extract_flag-last _ flag value
