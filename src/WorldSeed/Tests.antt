-- ===== src/WorldSeed/Tests.antt =====
-- A seed that is restored, in a world that answers.
use xmcl_shared_node_agent.Base.{◌≡◌, refl, true, [], ◌∷◌}
use xmcl_shared_node_agent.Js.Text
use xmcl_shared_node_agent.Js.Value
use xmcl_shared_node_agent.Js.Value.{Value, str, obj, arr, field, end, int, get, of_list}
use xmcl_shared_node_agent.Js.Fault.{ok}
use xmcl_shared_node_agent.Compiler.Sample.{print, host}
use xmcl_shared_node_agent.WorldSeed.{
  SeedWorld, SeedResponse, run_seed, seed_job_ok, verify_seed_grants, download_seed,
}
use xmcl_shared_node_agent.WorldSeed.Exact.{Unpacks, run_seed-Unpacks}

abbrev archive : Value
archive = obj (
    field "sha256" (str print) (
      field "sizeBytes" (int 2)
        (field "key" (str "shared-hosting/a1/s1/world-seeds/w1.xmcl-world-seed") end)))

abbrev job : Value
job = obj (
    field "accountId" (str "a1") (
      field "serviceId" (str "s1")
        (field "seedId" (str "w1") (field "worldName" (str "home") (field "archive" archive end)))))

abbrev input : Value
input = obj (
    field "method" (str "GET") (
      field "key" (get archive "key")
        (field "url" (str "https://s/") (field "expiresAt" (str "later") end))))

abbrev grants : Value
grants = obj (
    field "accountId" (str "a1") (
      field "serviceId" (str "s1")
        (field "seedId" (str "w1") (field "grants" (arr (of_list (input ∷ []))) end))))

abbrev response : SeedResponse
response = record { is_ok = true; declared = int 2; bytes = ok (1 ∷ 2 ∷ []) }

abbrev world : SeedWorld
world = record {
  grants = λ id. ok grants;
  fetch = λ grant. ok response;
  unpack = λ bytes j. ok (str "done");
}

valid : seed_job_ok job ≡ true
unfolding seed_job_ok get Text.valid_id Text.valid_sha256
valid = refl

granted : verify_seed_grants grants job ≡ ok input
unfolding verify_seed_grants get Value.elements of_list Text.starts_with
granted = refl

downloaded : download_seed host (get job "archive") response ≡ ok (1 ∷ 2 ∷ [])
unfolding download_seed get
downloaded = refl

restored : run_seed host world job ≡ ok (str "done")
unfolding run_seed
restored = rw (valid, run_seed, granted, downloaded) refl

run_seed-Unpacks_example : Unpacks host world job (str "done")
run_seed-Unpacks_example = run_seed-Unpacks host world job (str "done") restored
