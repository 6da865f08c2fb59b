-- ===== src/Builder/Tar/Total.antt =====
-- The loop that reads a tar ends.
use xmcl_shared_node_agent.Base.{
  ℕ, zero, suc, ◌+◌, ◌<◌, ◌≢◌, ◌||◌, List, none, leb, ltb, length, take, drop, arith, Bool-cases,
  inl, inr,
}
use xmcl_shared_node_agent.Base.Dict
use xmcl_shared_node_agent.Base.Dict.{Dict}
use xmcl_shared_node_agent.Base.{length-drop}
use xmcl_shared_node_agent.Js.Fault.{Result-cases}
use xmcl_shared_node_agent.Builder.Tar.{Texts, File, read_header, unpack_files, is_zero, padding}

-- The loop that reads a tar ends on every input: one round more than there are bytes is enough, so
-- that the answer is never that of a loop that was cut off.
pub unpack_files-ne-none :
    (texts : Texts) (fuel : ℕ) (rest : List ℕ) (files : Dict File)
    → length rest < fuel
    → unpack_files texts fuel rest files ≢ none
unfolding unpack_files
unpack_files-ne-none texts zero rest files h = absurd (omega arith)
unpack_files-ne-none texts (suc fuel) rest files h = elim (Bool-cases (leb 512 (length rest))) [
  | inr short ↦ rw short (λ e. cc)
  | inl long ↦ elim (Bool-cases (is_zero (take 512 rest))) [
    | inl empty ↦ rw (long, empty) (λ e. cc)
    | inr header ↦ elim (Result-cases (read_header texts (take 512 rest))) [
      | inr (e, bad) ↦ rw (long, header, bad, unpack_files) (λ same. cc)
      | inl (read, found) ↦
          elim (Bool-cases (Dict.has files read.path || ltb (length (drop 512 rest)) read.size)) [
            | inl bad ↦ rw (long, header, found, unpack_files, bad) (λ e. cc)
            | inr good ↦
                let fits : 512 < suc (length rest) = ground arith in
                rw (long, header, found, unpack_files, good)
                  (unpack_files-ne-none texts fuel
                    (drop (read.size + padding read.size) (drop 512 rest)) _
                    (omega (
                      arith,
                      length-drop 512 rest,
                      length-drop (read.size + padding read.size) (drop 512 rest),
                    )))
          ]
    ]
  ]
]
