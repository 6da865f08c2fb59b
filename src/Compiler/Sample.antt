-- ===== src/Compiler/Sample.antt =====
-- A job that passes its validation, and grants for it.
use xmcl_shared_node_agent.Base.{◌≡◌, refl, String, [], ◌∷◌, some, none}
use xmcl_shared_node_agent.Base.Int.{pos}
use xmcl_shared_node_agent.Js.Value
use xmcl_shared_node_agent.Js.Text
use xmcl_shared_node_agent.Js.Value.{Value, str, obj, arr, field, end, int, get, of_list}
use xmcl_shared_node_agent.Js.Host.{Host, Url}
use xmcl_shared_node_agent.Js.Fault.{ok}
use xmcl_shared_node_agent.Compiler.Job
use xmcl_shared_node_agent.Compiler.Job.{validate_compiler_job}

abbrev pub print : String
print = "0123456789abcdef0123456789abcdef0123456789abcdef0123456789abcdef"

abbrev pub url : Url
url = record {
  protocol = "https:";
  username = "";
  password = "";
  hash = "";
  pathname = "/";
  search = "";
  hostname = "s";
  port = "";
  origin = "https://s";
  href = "https://s/";
}

-- Every text is one address and one date, and every hash is the same.
abbrev pub host : Host
host = record {
  parse_url = λ v. some url;
  parse_date = λ v. some (pos 5000);
  parse_json = λ bytes. none;
  print_json = λ v. [];
  sha256 = λ bytes. print;
}

abbrev pub input_name : String
input_name = "shared-hosting/a1/s1/compiler-inputs/i1.xmcl-server-bundle"

abbrev pub content_name : String
content_name =
    "shared-hosting/a1/s1/compiler-content/0123456789abcdef0123456789abcdef0123456789abcdef0123456789abcdef.tar.zst"

abbrev pub archive : Value
archive =
    obj (field "sha256" (str print) (field "sizeBytes" (int 2) (field "key" (str input_name) end)))

abbrev pub manifest : Value
manifest = obj (
    field "sourceFormat" (str "xmcl_server_bundle")
      (field "importId" (str "i1") (field "archive" archive end)))

abbrev pub job : Value
job = obj (
    field "accountId" (str "a1") (
      field "serviceId" (str "s1") (
        field "deploymentId" (str "d1") (
          field "compilerRequestId" (str "r1") (
            field "manifestSha256" (str print) (
              field "expectedContentKey" (str content_name)
                (field "frozenManifest" manifest end)))))))

abbrev pub grant : String → String → Value
grant key method = obj (
    field "key" (str key) (
      field "method" (str method)
        (field "url" (str "https://s/") (field "expiresAt" (str "later") end))))

abbrev pub output_grant : Value
output_grant = obj (
    field "key" (str content_name) (
      field "method" (str "PUT") (
        field "url" (str "https://s/") (
          field "expiresAt" (str "later")
            (field "headers" (obj (field "if-none-match" (str "*") end)) end)))))

abbrev pub grants : Value
grants = obj (
    field "accountId" (str "a1") (
      field "serviceId" (str "s1") (
        field "deploymentId" (str "d1") (
          field "compilerRequestId" (str "r1") (
            field "manifestSha256" (str print)
              (field "grants" (arr (of_list (grant input_name "GET" ∷ output_grant ∷ []))) end))))))

pub job_valid : validate_compiler_job job ≡ ok tt
unfolding validate_compiler_job Job.job_fields_ok Value.same_keys get Text.segment Text.valid_sha256
    Job.archive_fields_ok Job.keys_bound
job_valid = refl
