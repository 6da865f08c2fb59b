-- ===== src/Queue/Files/Disk.antt =====
-- The two directories of the queue and what `atomicWrite` and `durableRemove` do to them, action by
-- action: a crash leaves the disk after any first part of the actions.
use Prim.Native.String.{◌++◌ as append_text}
use xmcl_shared_node_agent.Base.{
  String, Bool, List, [], ◌∷◌, Option, map, ◌&&◌, ◌==◌, all, take, drop, length, if◌then◌else◌,
  none, some,
}
use xmcl_shared_node_agent.Base.Dict
use xmcl_shared_node_agent.Base.Dict.{Dict}
use xmcl_shared_node_agent.Js.Text.{units, sort, is_hex, eq_units}
use xmcl_shared_node_agent.Js.Value.{Value}

-- A file holds a printed JSON value, or a text that `JSON.parse` or the decoder refuses. Printing and
-- parsing give the value again; what JSON leaves out or changes within a result is not modelled.
pub data File : Type 0 where
  json : Value → File
  unreadable : File

pub data Place : Type 0 where
  pending_directory archive_directory : Place

pub record Disk : Type 0 where
  pub pending : Dict File
  pub archive : Dict File

abbrev pub directory : Place → Disk → Dict File
directory pending_directory d = d.pending
directory archive_directory d = d.archive

abbrev pub with_directory : Place → Dict File → Disk → Disk
with_directory pending_directory m d = record d { pending = m }
with_directory archive_directory m d = record d { archive = m }

-- One durable effect.
pub data Action : Type 0 where
  create : Place → String → File → Action
  rename : Place → String → String → Action
  remove : Place → String → Action

abbrev pub renamed : Option File → String → String → Dict File → Dict File
renamed none from to m = m
renamed (some file) from to m = Dict.put (Dict.delete m from) to file

unfoldable pub act : Action → Disk → Disk
act (create place name file) d = with_directory place (Dict.put (directory place d) name file) d
act (rename place from to) d =
    with_directory place (renamed (Dict.get (directory place d) from) from to (directory place d)) d
act (remove place name) d = with_directory place (Dict.delete (directory place d) name) d

unfoldable pub act_all : List Action → Disk → Disk
act_all [] d = d
act_all (a ∷ as') d = act_all as' (act a d)

-- The name of the temporary file.
abbrev pub partial_name : String → String → String
partial_name name uuid = append_text name (append_text "." (append_text uuid ".partial"))

-- `atomicWrite` to the end
abbrev pub atomic_write : Place → String → String → Value → List Action
atomic_write place name uuid value =
    create place (partial_name name uuid) (json value)
    ∷ rename place (partial_name name uuid) name
    ∷ []

-- `durableRemove`
abbrev pub durable_remove : Place → String → List Action
durable_remove place name = remove place name ∷ []

-- `/^[a-f0-9]{64}\.json$/`
unfoldable pub is_job_name : String → Bool
unfolding units
is_job_name name =
    length (units name) == 69
    && all is_hex (take 64 (units name))
    && eq_units (drop 64 (units name)) (units ".json")

keep_job_names : List String → List String
keep_job_names [] = []
keep_job_names (n ∷ ns) = let rest = keep_job_names ns in if is_job_name n then n ∷ rest else rest

-- `jsonFiles`
unfoldable pub json_files : Dict File → List String
unfolding keep_job_names is_job_name
json_files m = sort (keep_job_names (map (λ e. e.0) m))
