-- ===== src/Config/Merge.antt =====
-- The merge of kubelet's options in internal/api/merge.go. util.DocumentMerge and json.Marshal are
-- parameters.
use eks_hybrid.Base.{String, List, [], ◌∷◌, ◌++◌, Result, ok}
use eks_hybrid.Machine.{Bytes}
use eks_hybrid.Release.Select.{◌>>=◌}
use eks_hybrid.Config.Defs.{InlineDocument, KubeletOptions}

-- a map of values that JSON can encode
module _ {V : Type 0}
    (document_merge : InlineDocument → InlineDocument → Result (List (String × V)))
    (marshal : V → Result Bytes) where
  unfoldable pub to_inline_document : List (String × V) → Result InlineDocument
  to_inline_document [] = ok []
  to_inline_document ((key, value) ∷ rest) = do
    raw ← marshal value
    more ← to_inline_document rest
    ok ((key, raw) ∷ more)

  unfoldable pub transform_config : InlineDocument → InlineDocument → Result InlineDocument
  transform_config [] src = ok src
  transform_config (d ∷ ds) [] = ok (d ∷ ds)
  transform_config (d ∷ ds) (s ∷ ss) = do
    merged ← document_merge (d ∷ ds) (s ∷ ss)
    to_inline_document merged

  -- The flags are appended, in the order that gives the later ones precedence.
  abbrev pub transform_flags : List String → List String → List String
  transform_flags dst src = dst ++ src

  unfoldable pub merge_kubelet_options : KubeletOptions → KubeletOptions → Result KubeletOptions
  merge_kubelet_options dst src = do
    config ← transform_config dst.config src.config
    ok (record { config = config; flags = transform_flags dst.flags src.flags })
