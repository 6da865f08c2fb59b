-- ===== src/Bundle/Tests.antt =====
-- An entry of a small archive.
use xmcl_shared_node_agent.Base.{ℕ, ◌≡◌, refl, true, List, [], ◌∷◌, some}
use xmcl_shared_node_agent.Base.Dict
use xmcl_shared_node_agent.Base.Dict.{Dict}
use xmcl_shared_node_agent.Js.Text
use xmcl_shared_node_agent.Compiler.Sample.{print, host}
use xmcl_shared_node_agent.Bundle.Path.{allowed_path}
use xmcl_shared_node_agent.Bundle.Manifest.{FileEntry}
use xmcl_shared_node_agent.Bundle.Check.{entries_listed}
use xmcl_shared_node_agent.Bundle.Check.Listed.{IsListed, entries_listed-IsListed}

abbrev files : List FileEntry
files = record { path = "instance/mods/a.jar"; sha256 = print; size_bytes = 1 } ∷ []

abbrev entries : Dict (List ℕ)
entries = ("bundle.json", []) ∷ ("instance/mods/a.jar", 7 ∷ []) ∷ []

listed : entries_listed host files entries ≡ true
unfolding entries_listed allowed_path Text.starts_with
listed = refl

there : Dict.get entries "instance/mods/a.jar" ≡ some (7 ∷ [])
unfolding Dict.get
there = refl

entries_listed-IsListed_example :
    (allowed_path "instance/mods/a.jar" ≡ true) × IsListed host files "instance/mods/a.jar" (7 ∷ [])
entries_listed-IsListed_example =
    entries_listed-IsListed host files entries "instance/mods/a.jar" (7 ∷ []) listed there refl
