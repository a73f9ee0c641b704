-- ===== src/Core/Credential.antt =====
-- The credential of crates/folk-core/src/lib.rs: `load_or_create_http_bearer` and what it calls. The
-- random bytes and the variable HOME are arguments.
pub mod Hex
pub mod Success
pub mod Stable
pub mod Leaves
pub mod Again
use folk_around.Prelude.{
  ℕ, Bool, true, false, List, [], ◌∷◌, ◌++◌, Option, none, some, if◌then◌else◌, ◌&&◌, ◌||◌, not,
  ◌==◌, all, take, length, within,
}
use folk_around.Text.{Text, Bytes, codes, is_ascii_digit}
use folk_around.Text.Number.{hex_byte}
use folk_around.Text.Path.{join}
use folk_around.Text.Utf8.{as_bytes, from_utf8}
use folk_around.Effect.{Result, ok, err, Exec, ◌>>=◌, ◌>>◌, pure, raise}
use folk_around.Core.Disk.{
  IoError, already_exists, other_error, Node, file, Disk, create_dir_all, set_permissions,
  create_new, write_all, sync_all, symlink_metadata, read_file,
}

pub data ConfigError : Type 0 where
  home_missing invalid_http_bearer private_permissions_unavailable : ConfigError
  io : IoError → ConfigError

-- `{byte:02x}` of each byte
unfoldable pub generate_hex : Bytes → Text
generate_hex [] = []
generate_hex (b ∷ bs) = hex_byte b ++ generate_hex bs

unfoldable pub is_hex : ℕ → Bool
is_hex byte = is_ascii_digit byte || within b'a' b'f' byte

abbrev pub http_bearer_hex_len : ℕ
http_bearer_hex_len = 64

unfoldable pub valid_http_bearer : Text → Bool
valid_http_bearer token =
    length (as_bytes token) == http_bearer_hex_len && all is_hex (as_bytes token)

-- `?` on an I/O error
abbrev pub io_result {ℓ} : {A : Type ℓ} → Result A IoError → Result A ConfigError
io_result (ok a) = ok a
io_result (err e) = err (io e)

abbrev pub try {ℓ} : {A : Type ℓ} → Exec Disk IoError A → Exec Disk ConfigError A
try m d = let (r, d') = m d in (io_result r, d')

unfoldable pub ensure_private_dir : Text → Exec {0, 0, 0} Disk IoError Unit
ensure_private_dir path = create_dir_all path >> set_permissions path 0o700

unfoldable pub open_new_private_file : Text → Exec {0, 0, 0} Disk IoError Unit
open_new_private_file path = create_new path 0o600

unfoldable pub config_dir : Text → Text
config_dir home = join (join home (codes ".config")) (codes "folk-around")

-- the arm of a file that was created
unfoldable pub new_token : Text → Text → Exec Disk ConfigError Text
new_token path token =
    try (write_all path (as_bytes token)) >> (try sync_all >> (try sync_all >> pure token))

abbrev is_token_file : Node → Bool
is_token_file (file mode contents) = length contents == http_bearer_hex_len
is_token_file _ = false

abbrev checked : Option Text → Result Text ConfigError
checked none = err (io other_error)
checked (some token) = if valid_http_bearer token then ok token else err invalid_http_bearer

unfoldable pub check_token : Bytes → Exec Disk ConfigError Text
check_token contents d = (checked (from_utf8 (take 65 contents)), d)

unfoldable pub reread_token : Text → Exec Disk ConfigError Text
reread_token path = try (set_permissions path 0o600) >> (try (read_file path) >>= check_token)

unfoldable pub read_token : Text → Node → Exec Disk ConfigError Text
read_token path node = if is_token_file node then reread_token path else raise invalid_http_bearer

-- the arm of a file that was there
unfoldable pub old_token : Text → Exec Disk ConfigError Text
old_token path = try (symlink_metadata path) >>= read_token path

unfoldable pub settle_token : Text → Text → Result {0, 0} Unit IoError → Exec Disk ConfigError Text
settle_token path token (ok _) = new_token path token
settle_token path token (err already_exists) = old_token path
settle_token path token (err e) = raise (io e)

unfoldable pub open_token : Text → Text → Exec Disk ConfigError Text
open_token path token d = let (r, d') = open_new_private_file path d in settle_token path token r d'

unfoldable pub load_or_create_http_bearer :
    (unix : Bool) (home : Option Text) (random : Bytes) → Exec Disk ConfigError Text
load_or_create_http_bearer false home random = raise private_permissions_unavailable
load_or_create_http_bearer true none random = raise home_missing
load_or_create_http_bearer true (some home) random =
    try (ensure_private_dir (config_dir home))
    >> open_token (join (config_dir home) (codes "http-token")) (generate_hex random)
