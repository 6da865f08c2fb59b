-- ===== src/Builder/Sample.antt =====
-- A catalog, a sandbox and a bundle from which a build succeeds.
use xmcl_shared_node_agent.Base.{
  ℕ, String, true, List, [], ◌∷◌, Option, none, some, str_eq, if◌then◌else◌,
}
use xmcl_shared_node_agent.Base.Int.{pos}
use xmcl_shared_node_agent.Base.Dict.{Dict}
use xmcl_shared_node_agent.Js.Text.{units, eq_units}
use xmcl_shared_node_agent.Js.Value.{Value, str, int, bool, obj, arr, field, end, of_list}
use xmcl_shared_node_agent.Js.Host.{Host, Url}
use xmcl_shared_node_agent.Js.Fault.{Result, ok}
use xmcl_shared_node_agent.Bundle.Manifest.{Manifest}
use xmcl_shared_node_agent.Builder.Tar.{Texts}
use xmcl_shared_node_agent.Builder.Files.{octets}
use xmcl_shared_node_agent.Builder.Remote.{Downloads}
use xmcl_shared_node_agent.Builder.Catalog.{Jre}
use xmcl_shared_node_agent.Builder.Build.{Builder, Sandbox, document, make_builder}

abbrev pub digest : String
digest = "0123456789abcdef0123456789abcdef0123456789abcdef0123456789abcdef"

abbrev url_on : String → String → Url
url_on hostname href = record {
  protocol = "https:";
  username = "";
  password = "";
  hash = "";
  pathname = "/a";
  search = "";
  hostname = hostname;
  port = "";
  origin = href;
  href = href;
}

abbrev pub mod_url : String
mod_url = "https://cdn.modrinth.com/a"

abbrev pub artifact_url : String
artifact_url = "https://maven.fabricmc.net/a"

abbrev parse_url : Value → Option Url
parse_url (str s) =
    if str_eq s mod_url
    then some (url_on "cdn.modrinth.com" mod_url)
    else some (url_on "maven.fabricmc.net" artifact_url)
parse_url _ = none

abbrev loader : Value
loader = obj (field "kind" (str "fabric") (field "version" (str "0.15.0") end))

abbrev java : Value
java = obj (field "component" (str "java-runtime-gamma") (field "major" (int 17) end))

-- The content of `.xmcl/runtime.json`
abbrev runtime : Value
runtime = obj (
    field "schemaVersion" (int 1) (
      field "runtimeCatalogRevision" (str digest) (
        field "minecraftVersion" (str "1.20.1") (
          field "loader" loader (
            field "java"
              (obj (
                field "component" (str "java-runtime-gamma")
                  (field "major" (int 17) (field "jreId" (str "jre-17") end))))
              (field "launch"
                (obj (
                  field "path" (str ".xmcl/launch.sh") (
                    field "kind" (str "generated-server-launcher") (
                      field "arguments"
                        (arr (of_list (str "-jar" ∷ str "server.jar" ∷ str "nogui" ∷ []))) end))))
                end))))))

-- Every JSON text is the same, and so is every hash.
abbrev pub host : Host
host = record {
  parse_url = parse_url;
  parse_date = λ v. some (pos 5000);
  parse_json = λ bytes. some runtime;
  print_json = λ v. b'{' ∷ b'}' ∷ [];
  sha256 = λ bytes. digest;
}

abbrev script : String
script =
    "#!/bin/sh\nset -eu\n: \"${XMCL_JAVA:?XMCL_JAVA is required}\"\nexec \"$XMCL_JAVA\" -jar server.jar nogui\n"

abbrev known_texts : List String
known_texts =
    "" ∷ "ustar" ∷ "server.jar" ∷ "config/a.txt" ∷ "mods/m.jar" ∷ ".xmcl/runtime.json"
    ∷ ".xmcl/launch.sh" ∷ "0000644" ∷ "0000755" ∷ "00000000002" ∷ "00000000003" ∷ "00000000142"
    ∷ script ∷ []

abbrev decode_among : List String → List ℕ → Option String
decode_among [] bytes = none
decode_among (s ∷ ss) bytes =
    let rest = decode_among ss bytes in if eq_units bytes (units s) then some s else rest

abbrev print_value : Value → String
print_value (str s) = s
print_value _ = "17"

abbrev pub texts : Texts
texts = record {
  print = print_value;
  encode = λ cs. cs;
  decode = decode_among known_texts;
  lower = λ s. s;
  nfkc = λ s. s;
}

abbrev pub artifact : Value
artifact = obj (
    field "role" (str "primary") (
      field "coordinate" (str "net.fabricmc:fabric-loader:0.15.0") (
        field "url" (str artifact_url)
          (field "sha256" (str digest) (field "sizeBytes" (int 3) end)))))

abbrev pub hosts : Value
hosts = arr (of_list (str "maven.fabricmc.net" ∷ []))

abbrev pub catalog_document : Value
catalog_document = obj (
    field "schemaVersion" (int 1) (
      field "catalogVersion" (str "v1") (
        field "runtimeCatalogRevision" (str digest) (
          field "approvedArtifactHosts" hosts (
            field "toolchains"
              (arr (
                of_list (
                  obj (
                    field "minecraftVersion" (str "1.20.1") (
                      field "loader" loader (
                        field "java" java (
                          field "jre"
                            (obj (
                              field "id" (str "jre-17") (
                                field "sha256" (str digest) (
                                  field "component" (str "java-runtime-gamma") (
                                    field "major" (int 17)
                                      (field "runtimeCatalogRevision" (str digest) end))))))
                            (field "artifacts" (arr (of_list (artifact ∷ [])))
                              (field "launchTemplate" (str "fabric-server-jar-v1") end))))))
                  ∷ [])))
              end)))))

abbrev pub request : Value
request = obj (
    field "runtimeCatalogRevision" (str digest)
      (field "minecraftVersion" (str "1.20.1") (field "loader" loader (field "java" java end))))

abbrev guarantees : Value → Value
guarantees last = obj (
    field "ephemeralWorkspace" (bool true) (
      field "nonRoot" (bool true) (
        field "readOnlyBaseFilesystem" (bool true) (
          field "noSecrets" (bool true) (
            field "noDockerSocket" (bool true) (
              field "boundedResources" (bool true)
                (field "network" (str "disabled") (field "egress" last end))))))))

abbrev sandbox : Sandbox
sandbox = record {
  capabilities = guarantees (str "approved-artifacts-only");
  assemble = λ jre plan artifacts. ok (
      some (record {
        attestation = guarantees (str "");
        files =
            some
              (("server.jar", record { contents = octets (1 ∷ 2 ∷ 3 ∷ []); mode = int 420 }) ∷ []);
      }));
}

abbrev registry : Jre → Result Value
registry jre = ok (
    obj (
      field "verified" (bool true) (
        field "readOnly" (bool true) (
          field "id" jre.id (
            field "sha256" (str jre.sha256) (
              field "component" jre.component (
                field "major" jre.major (
                  field "runtimeCatalogRevision" (str jre.revision)
                    (field "rootToken" (str "jre-17") end)))))))))

abbrev pub downloads : Downloads
downloads = record {
  artifact = λ calls v approved. ok (some (1 ∷ 2 ∷ 3 ∷ []));
  remote = λ calls v. ok (some (4 ∷ 5 ∷ 6 ∷ []));
  has_remote = true;
}

abbrev pub remote_mod : Value
remote_mod = obj (
    field "downloadUrl" (str mod_url) (
      field "fileId" (str "f") (
        field "filename" (str "m.jar") (
          field "projectId" (str "p") (
            field "provider" (str "modrinth")
              (field "sha256" (str digest) (field "sizeBytes" (int 3) end)))))))

abbrev pub manifest : Manifest
manifest = record {
  instance_name = str "i";
  minecraft_version = str "1.20.1";
  loader_kind = str "fabric";
  loader_version = str "0.15.0";
  java_component = str "java-runtime-gamma";
  java_major = int 17;
  catalog_sha256 = digest;
  files = record { path = "instance/config/a.txt"; sha256 = digest; size_bytes = 2 } ∷ [];
}

abbrev pub entries : Dict (List ℕ)
entries = ("instance/config/a.txt", 7 ∷ 8 ∷ []) ∷ []

abbrev pub frozen : Value
frozen = obj (
    field "compatibility" (obj (field "runtimeCatalog" (obj (field "sha256" (str digest) end)) end))
      (field "mods" (arr (of_list (remote_mod ∷ []))) end))

unfoldable pub builder : Builder
unfolding make_builder
builder =
    make_builder host texts (document catalog_document) (some registry) (some sandbox)
      (some downloads)
