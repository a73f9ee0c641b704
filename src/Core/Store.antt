-- ===== src/Core/Store.antt =====
-- `save_config` and `load_config` of crates/folk-core/src/lib.rs on the disk.
pub mod Settled
pub mod Proper
use folk_around.Prelude.{
  ℕ, [], Option, none, some, ◌≡◌, ap, ◌∙◌, subst, arith, Option-cases, inl, inr,
}
use folk_around.Text.{Text, Bytes, codes}
use folk_around.Text.Path.{join}
use folk_around.Text.Utf8.{as_bytes, from_utf8}
use folk_around.Text.Utf8.Scalar.{IsText, from_utf8-as_bytes}
use folk_around.Effect.{Result, ok, err, Exec, ◌>>◌, raise}
use folk_around.Core.Disk.{
  IoError, not_found, other_error, file, directory, other_node, Disk, get_node, write_file,
  read_file, set_permissions, syscall,
}
use folk_around.Core.Config.{AppConfig, default_config, parse_config, render_config}
use folk_around.Core.Config.Value.{IsSavable}
use folk_around.Core.Config.RoundTrip.{parse_config-render_config}
use folk_around.Core.Credential.{ConfigError, io, home_missing, try, config_dir, ensure_private_dir}
use folk_around.Core.Credential.Success.{bind_ok, try_ok, get_node-put_node, set_permissions_ok}

unfoldable pub config_path : Text → Text
config_path home = join (config_dir home) (codes "config")

unfoldable pub save_config : Option Text → AppConfig → Exec {0, 0, 0} Disk ConfigError Unit
save_config none config = raise home_missing
save_config (some home) config =
    try (ensure_private_dir (config_dir home))
    >> (try (write_file (config_path home) (as_bytes (render_config config)))
        >> try (set_permissions (config_path home) 0o600))

abbrev pub parsed : Option Text → Result AppConfig ConfigError
parsed none = err (io other_error)
parsed (some text) = ok (parse_config text)

-- the match on `read_to_string`
abbrev pub loaded : Result Bytes IoError → Result AppConfig ConfigError
loaded (ok bytes) = parsed (from_utf8 bytes)
loaded (err not_found) = ok default_config
loaded (err e) = err (io e)

unfoldable pub load_config : Option Text → Exec Disk ConfigError AppConfig
load_config none = raise home_missing
load_config (some home) = λ d. let (r, d') = read_file (config_path home) d in (loaded r, d')

write_file_ok :
    (path : Text) (bytes : Bytes) (d : Disk)
    → (write_file path bytes d).0 ≡ ok tt
    → (mode : ℕ) × (get_node path (write_file path bytes d).1.nodes ≡ some (file mode bytes))
unfolding write_file syscall
write_file_ok path bytes d h = elim (Option-cases (get_node path d.nodes)) [
  | inl f ↦ (0o644, ground (arith, h, f, get_node-put_node path (file 0o644 bytes) d.nodes))
  | inr (file mode old, f) ↦
      (mode, ground (arith, h, f, get_node-put_node path (file mode bytes) d.nodes))
  | inr (directory mode, f) ↦ (let bad : ⊥ = ground (arith, h, f) in elim bad [ ])
  | inr (other_node, f) ↦ (let bad : ⊥ = ground (arith, h, f) in elim bad [ ])
]

pub save_config_stores :
    (home : Text) (config : AppConfig) (d d' : Disk)
    → save_config (some home) config d ≡ (ok tt, d')
    → get_node (config_path home) d'.nodes ≡ some (file 0o600 (as_bytes (render_config config)))
unfolding save_config
save_config_stores home config d d' h =
    let path = config_path home in
    let bytes = as_bytes (render_config config) in
    let (u, e1, h1) = bind_ok (try (ensure_private_dir (config_dir home))) _ d d' tt h in
    let d1 = (ensure_private_dir (config_dir home) d).1 in
    let (v, e2, h2) = bind_ok (try (write_file path bytes)) _ d1 d' tt h1 in
    let d2 = (write_file path bytes d1).1 in
    let (mode, f) = write_file_ok path bytes d1 (try_ok (write_file path bytes) d1 tt e2) in
    subst (λ x. get_node path x.nodes ≡ some (file 0o600 bytes)) (ap (λ r. r.1) h2)
      (set_permissions_ok path 0o600 mode bytes d2 f
        (try_ok (set_permissions path 0o600) d2 tt (ap (λ r. r.0) h2)))

load_config_stored :
    (home : Text) (bytes : Bytes) (mode : ℕ) (d : Disk)
    → d.faults ≡ []
    → get_node (config_path home) d.nodes ≡ some (file mode bytes)
    → load_config (some home) d ≡ (parsed (from_utf8 bytes), d)
unfolding load_config read_file syscall
load_config_stored home bytes mode d quiet f = ground (arith, quiet, f)

pub load_config_text :
    (home : Text) (config : AppConfig) (mode : ℕ) (d : Disk)
    → IsSavable config
    → IsText (render_config config)
    → d.faults ≡ []
    → get_node (config_path home) d.nodes ≡ some (file mode (as_bytes (render_config config)))
    → load_config (some home) d ≡ (ok config, d)
load_config_text home config mode d v scalars quiet f =
    let text = render_config config in
    load_config_stored home (as_bytes text) mode d quiet f
    ∙ ap (λ t. (parsed t, d)) (from_utf8-as_bytes text scalars)
    ∙ ap (λ c. (ok c, d)) (parse_config-render_config config v)

-- A configuration that was saved is loaded again, if each of its texts is one line, not empty, with
-- no white space around it, its port is a `u16`, its text is made of Unicode scalar values as every
-- `str` is, and the disk does not fail after the save.
pub load_config-save_config :
    (home : Text) (config : AppConfig) (d d' : Disk)
    → IsSavable config
    → IsText (render_config config)
    → save_config (some home) config d ≡ (ok tt, d')
    → d'.faults ≡ []
    → (load_config (some home) d').0 ≡ ok config
load_config-save_config home config d d' v scalars h quiet =
    ap (λ r. r.0)
      (load_config_text home config 0o600 d' v scalars quiet
        (save_config_stores home config d d' h))
