-- ===== src/Tests/Files.antt =====
-- The credential and the artifact files on an empty disk.
use folk_around.Prelude.{ℕ, [], ◌++◌, some, ◌≡◌, refl, true, replicate}
use folk_around.Text.{Text, Bytes, codes, text_eq}
use folk_around.Text.Path.{join, ends_with_slash}
use folk_around.Effect.{Result, ok}
use folk_around.Core.Disk.{
  Disk, syscall, get_node, put_node, create_dir_all, set_permissions, create_new, write_all,
  sync_all,
}
use folk_around.Core.Credential.{
  ConfigError, generate_hex, config_dir, ensure_private_dir, open_new_private_file, open_token,
  settle_token, new_token, load_or_create_http_bearer,
}
use folk_around.Core.Artifact.{
  ArtifactFile, artifact_name, create_artifact_file, attempt_artifact, finish_artifact, IsFresh,
  create_artifact_file-IsFresh,
}
use folk_around.Core.Credential.Stable.{IsStored, load_or_create_http_bearer-IsStored}
use folk_around.Core.Credential.Again.{load_or_create_http_bearer_again}

abbrev random_bytes : Bytes
random_bytes = replicate 32 171

abbrev no_disk : Disk
no_disk = record { nodes = []; faults = [] }

abbrev first_call : Result Text ConfigError × Disk
first_call = load_or_create_http_bearer true (some (codes "/h")) random_bytes no_disk

load_or_create_http_bearer-IsStored_example :
    IsStored
      (join (config_dir (codes "/h")) (codes "http-token"))
      (generate_hex random_bytes)
      first_call.1
unfolding codes join ends_with_slash config_dir load_or_create_http_bearer ensure_private_dir
    create_dir_all set_permissions syscall get_node put_node open_token open_new_private_file
    create_new settle_token new_token write_all sync_all text_eq
load_or_create_http_bearer-IsStored_example =
    load_or_create_http_bearer-IsStored (codes "/h") (generate_hex random_bytes) random_bytes
      no_disk first_call.1 refl refl

load_or_create_http_bearer_again_example :
    (load_or_create_http_bearer true (some (codes "/h")) (replicate 32 7) first_call.1).0
    ≡ ok (generate_hex random_bytes)
unfolding codes join ends_with_slash config_dir load_or_create_http_bearer ensure_private_dir
    create_dir_all set_permissions syscall get_node put_node open_token open_new_private_file
    create_new settle_token new_token write_all sync_all text_eq
load_or_create_http_bearer_again_example =
    load_or_create_http_bearer_again (codes "/h") (generate_hex random_bytes) random_bytes
      (replicate 32 7) no_disk first_call.1 refl refl refl

abbrev drawn : ℕ → Bytes
drawn n = replicate 16 n

abbrev artifact_call : Result ArtifactFile ConfigError × Disk
artifact_call = create_artifact_file true (some (codes "/h")) drawn no_disk

abbrev drawn_artifact : ArtifactFile
drawn_artifact = record {
  path = join (join (config_dir (codes "/h")) (codes "artifacts")) (artifact_name (drawn 15));
  locator = codes "folk-artifact:" ++ artifact_name (drawn 15);
}

create_artifact_file-IsFresh_example :
    IsFresh (join (config_dir (codes "/h")) (codes "artifacts")) drawn_artifact artifact_call.1
unfolding codes join ends_with_slash config_dir create_artifact_file ensure_private_dir
    create_dir_all set_permissions syscall get_node put_node open_new_private_file create_new
    attempt_artifact finish_artifact sync_all text_eq
create_artifact_file-IsFresh_example =
    create_artifact_file-IsFresh (codes "/h") drawn drawn_artifact no_disk artifact_call.1 refl
