-- ===== src/Builder/Plan.antt =====
-- `createAssemblyPlan` as far as the launch of a server goes, and `generatedLauncher`.
use Prim.Native.String.{◌++◌ as append_text}
use xmcl_shared_node_agent.Base.{
  ℕ, String, Bool, ◌&&◌, ◌||◌, List, [], ◌∷◌, Option, none, some, is_some, ltb, ◌==◌, length, all,
  if◌then◌else◌, str_eq,
}
use xmcl_shared_node_agent.Js.Text.{units, is_alnum, segment}
use xmcl_shared_node_agent.Js.Value.{
  Value, str, get, plain_object, same_keys, strict_eq, string_that,
}
use xmcl_shared_node_agent.Js.Fault.{Result, ok, err}
use xmcl_shared_node_agent.Compiler.Job.{text, in_range}
use xmcl_shared_node_agent.Bundle.Manifest.{valid_loader_version}
use xmcl_shared_node_agent.Builder.Zstd.{invalid_output}

-- `loaderTemplates`
unfoldable pub loader_template : String → Option String
loader_template kind =
    if str_eq kind "forge"
    then some "forge-unix-args-v1"
    else if str_eq kind "fabric"
    then some "fabric-server-jar-v1"
    else if str_eq kind "neoforge"
    then some "neoforge-unix-args-v1"
    else if str_eq kind "quilt"
    then some "quilt-server-jar-v1"
    else none

-- `validLoader`; a key of an object is the text of a value.
unfoldable pub valid_loader : (Value → String) → Value → Bool
unfolding loader_template
valid_loader print v =
    plain_object v
    && same_keys v ("kind" ∷ "version" ∷ [])
    && is_some (loader_template (print (get v "kind")))
    && valid_loader_version (get v "version")

-- `validIdentifier`
abbrev pub identifier : Value → Bool
identifier = string_that (segment 127)

-- `validJava`
unfoldable pub valid_java : Value → Bool
valid_java v =
    plain_object v
    && same_keys v ("component" ∷ "major" ∷ [])
    && identifier (get v "component")
    && in_range 1 255 (get v "major")

-- The arguments of the launch, for a loader that is valid.
unfoldable pub launch_arguments : Value → Value → List String
launch_arguments minecraft loader =
    if strict_eq (get loader "kind") (str "forge")
    then append_text "@libraries/net/minecraftforge/forge/" (
        append_text (text minecraft)
          (append_text "-" (append_text (text (get loader "version")) "/unix_args.txt")))
      ∷ "nogui"
      ∷ []
    else if strict_eq (get loader "kind") (str "neoforge")
    then append_text "@libraries/net/neoforged/neoforge/"
        (append_text (text (get loader "version")) "/unix_args.txt")
      ∷ "nogui"
      ∷ []
    else "-jar" ∷ "server.jar" ∷ "nogui" ∷ []

-- `/^[A-Za-z0-9_@./:+-]+$/`
abbrev pub is_argument_unit : ℕ → Bool
is_argument_unit c =
    is_alnum c
    || c == b'_'
    || c == b'@'
    || c == b'.'
    || c == b'/'
    || c == b':'
    || c == b'+'
    || c == b'-'

abbrev pub is_argument : List ℕ → Bool
is_argument cs = ltb 0 (length cs) && all is_argument_unit cs

abbrev pub join_spaces : List String → String
join_spaces [] = ""
join_spaces (a ∷ []) = a
join_spaces (a ∷ b ∷ rest) = append_text a (append_text " " (join_spaces (b ∷ rest)))

abbrev pub launcher_head : String
launcher_head =
    "#!/bin/sh\nset -eu\n: \"${XMCL_JAVA:?XMCL_JAVA is required}\"\nexec \"$XMCL_JAVA\" "

-- `generatedLauncher`, before it is encoded
unfoldable pub generated_launcher : List String → Result String
unfolding units
generated_launcher arguments =
    if all (λ argument. is_argument (units argument)) arguments
    then ok (append_text launcher_head (append_text (join_spaces arguments) "\n"))
    else err invalid_output
