-- ===== src/Examples/MemInfoRuns.antt =====
-- Readings of /proc/meminfo.
use llm_guard_proxy.Prelude.{ℕ, ◌≡◌, refl, List, [], ◌∷◌, ◌++◌, arith}
use llm_guard_proxy.Guardian.MemInfo.{duplicate, ok, err, strip_prefix, label, parse_mem_available}
use llm_guard_proxy.Guardian.MemInfo.Reading.{field}
use llm_guard_proxy.Guardian.MemInfo.Text.{
  Others, unlines, parse_mem_available-field, parse_mem_available-duplicate,
}

-- "MemFree: 1"
abbrev free_line : List ℕ
free_line = b'M' ∷ b'e' ∷ b'm' ∷ b'F' ∷ []

free_line-Others : Others (free_line ∷ [])
unfolding strip_prefix
free_line-Others = ((refl, (refl, (refl, (refl, tt)))), refl, tt)

parse_mem_available-field_example :
    parse_mem_available (unlines (free_line ∷ field 3 2048 ∷ free_line ∷ [])) ≡ ok 2097152
parse_mem_available-field_example =
    parse_mem_available-field (free_line ∷ []) (free_line ∷ []) 3 2048 free_line-Others
      (omega arith) free_line-Others

parse_mem_available-duplicate_example :
    parse_mem_available (unlines (free_line ∷ field 3 2048 ∷ (label ++ []) ∷ free_line ∷ []))
    ≡ err duplicate
parse_mem_available-duplicate_example =
    parse_mem_available-duplicate (free_line ∷ []) (free_line ∷ []) 3 2048 free_line-Others
      (omega arith) [] [] tt tt free_line-Others
