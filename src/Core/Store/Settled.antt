-- ===== src/Core/Store/Settled.antt =====
-- A disk that holds a saved configuration and a credential: what `save_config`, `load_config` and
-- `load_or_create_http_bearer` of crates/folk-core/src/lib.rs do on it, and how it comes about.
use folk_around.Prelude.{
  ℕ, true, false, [], ◌∷◌, some, ◌≡◌, ap, ◌∙◌, arith, Bool-cases, inl, inr, length, length-append,
}
use folk_around.Text.{Text, Bytes, codes, text_eq}
use folk_around.Text.Laws.{text_eq_iff}
use folk_around.Text.Path.{join}
use folk_around.Text.Utf8.{as_bytes}
use folk_around.Text.Utf8.Scalar.{IsText}
use folk_around.Effect.{ok, ◌>>◌}
use folk_around.Core.Disk.{
  Node, directory, file, Disk, get_node, put_node, write_file, set_permissions, syscall,
}
use folk_around.Core.Config.{AppConfig, render_config}
use folk_around.Core.Config.Value.{IsSavable}
use folk_around.Core.Credential.{
  io_result, try, config_dir, ensure_private_dir, load_or_create_http_bearer,
}
use folk_around.Core.Credential.Success.{get_node-put_node}
use folk_around.Core.Credential.Stable.{IsStored, load_or_create_http_bearer-IsStored}
use folk_around.Core.Credential.Leaves.{get_node-put_other, ensure_private_dir-Leaves}
use folk_around.Core.Credential.Again.{
  bind_forward, ensure_private_dir_ok, ensure_private_dir_again, join_apart, token_path,
  token_apart, text_eq_flip, load_or_create_http_bearer-Leaves, load_or_create_http_bearer-stored,
}
use folk_around.Core.Store.{
  config_path, save_config, load_config, save_config_stores, load_config_text,
}

config_apart : (home : Text) → text_eq (config_dir home) (config_path home) ≡ false
unfolding codes config_path
config_apart home = join_apart (config_dir home) b'c' (codes "onfig")

files_apart : (home : Text) → text_eq (token_path home) (config_path home) ≡ false
unfolding codes config_path join
files_apart home = elim (Bool-cases (text_eq (token_path home) (config_path home))) [
  | inr e ↦ e
  | inl e ↦
      let dir = config_dir home in
      let same = ap (λ s. length s) ((text_eq_iff (token_path home) (config_path home)).0 e) in
      let bad : ⊥ = ground (
        arith,
        same,
        length-append dir (codes "http-token"),
        length-append dir (b'/' ∷ codes "http-token"),
        length-append dir (codes "config"),
        length-append dir (b'/' ∷ codes "config"),
      ) in
      elim bad [ ]
]

-- The configuration and the credential are on a disk that does not fail from now on.
pub record IsSettled (home : Text) (config : AppConfig) (token : Text) (d : Disk) : Type 0 where
  pub quiet : d.faults ≡ []
  pub private_dir : get_node (config_dir home) d.nodes ≡ some (directory 0o700)
  pub config_file :
      get_node (config_path home) d.nodes ≡ some (file 0o600 (as_bytes (render_config config)))
  pub token_file : IsStored (token_path home) token d

-- What is saved before a credential is given is there with it.
pub save_then_bearer-IsSettled :
    (home token : Text) (config : AppConfig) (random : Bytes) (d d' d'' : Disk)
    → length random ≡ 32
    → save_config (some home) config d ≡ (ok tt, d')
    → load_or_create_http_bearer true (some home) random d' ≡ (ok token, d'')
    → d''.faults ≡ []
    → IsSettled home config token d''
save_then_bearer-IsSettled home token config random d d' d'' size s b quiet =
    let (made, rest) = load_or_create_http_bearer-Leaves home token random d' d'' b in
    record {
      quiet = quiet;
      private_dir = made;
      config_file =
          rest (config_path home) (config_apart home) (files_apart home)
          ∙ save_config_stores home config d d' s;
      token_file = load_or_create_http_bearer-IsStored home token random d' d'' size b;
    }

-- Loading gives the configuration and changes nothing.
pub load_config-IsSettled :
    (home token : Text) (config : AppConfig) (d : Disk)
    → IsSavable config
    → IsText (render_config config)
    → IsSettled home config token d
    → load_config (some home) d ≡ (ok config, d)
load_config-IsSettled home token config d v scalars s =
    load_config_text home config 0o600 d v scalars s.quiet s.config_file

-- A write over a file, or its permissions: without faults, the others stay.
write_file_again :
    (path : Text) (bytes old : Bytes) (mode : ℕ) (d : Disk)
    → d.faults ≡ []
    → get_node path d.nodes ≡ some (file mode old)
    → write_file path bytes d
      ≡ (ok tt, record d { nodes = put_node path (file mode bytes) d.nodes })
unfolding write_file syscall
write_file_again path bytes old mode d quiet f = ground (arith, quiet, f)

set_permissions_again :
    (path : Text) (bytes : Bytes) (old mode : ℕ) (d : Disk)
    → d.faults ≡ []
    → get_node path d.nodes ≡ some (file old bytes)
    → set_permissions path mode d
      ≡ (ok tt, record d { nodes = put_node path (file mode bytes) d.nodes })
unfolding set_permissions syscall
set_permissions_again path bytes old mode d quiet f = ground (arith, quiet, f)

-- A node of the configuration file leaves what is settled, if it has the configuration.
put_config-IsSettled :
    (home token : Text) (config : AppConfig) (d : Disk)
    → IsSettled home config token d
    → (node : Node)
    → IsSettled home config token (record d {
      nodes =
          put_node
            (config_path home)
            (file 0o600 (as_bytes (render_config config)))
            (put_node (config_path home) node d.nodes);
    })
put_config-IsSettled home token config d s node =
    let path = config_path home in
    let last = file 0o600 (as_bytes (render_config config)) in
    let beside : (q : Text)
        → text_eq q path ≡ false
        → get_node q (put_node path last (put_node path node d.nodes)) ≡ get_node q d.nodes =
      λ q apart.
        get_node-put_other path q last (put_node path node d.nodes) (text_eq_flip q path apart)
        ∙ get_node-put_other path q node d.nodes (text_eq_flip q path apart) in
    record {
      quiet = s.quiet;
      private_dir = beside (config_dir home) (config_apart home) ∙ s.private_dir;
      config_file = get_node-put_node path last (put_node path node d.nodes);
      token_file = record {
        contents = s.token_file.contents;
        private_file = beside (token_path home) (files_apart home) ∙ s.token_file.private_file;
        holds = s.token_file.holds;
      };
    }

-- The private directory is made again.
ensure_private_dir-IsSettled :
    (home token : Text) (config : AppConfig) (d : Disk)
    → IsSettled home config token d
    → ((ensure_private_dir (config_dir home) d).0 ≡ ok tt)
      × IsSettled home config token (ensure_private_dir (config_dir home) d).1
ensure_private_dir-IsSettled home token config d s =
    let dir = config_dir home in
    let (again, still, beside) =
      ensure_private_dir_again dir (config_path home) d (config_apart home) s.quiet s.private_dir in
    let d1 = (ensure_private_dir dir d).1 in
    (
      again,
      record {
        quiet = still;
        private_dir = ensure_private_dir_ok dir d d1 (ap (λ r. (r, d1)) again);
        config_file = beside ∙ s.config_file;
        token_file = record {
          contents = s.token_file.contents;
          private_file =
              ensure_private_dir-Leaves dir (token_path home) (token_apart home) d
              ∙ s.token_file.private_file;
          holds = s.token_file.holds;
        };
      },
    )

-- Saving the same configuration again succeeds and leaves what is settled.
pub save_config-IsSettled :
    (home token : Text) (config : AppConfig) (d : Disk)
    → IsSettled home config token d
    → (d' : Disk) × (save_config (some home) config d ≡ (ok tt, d'))
      × IsSettled home config token d'
unfolding save_config
save_config-IsSettled home token config d s =
    let path = config_path home in
    let bytes = as_bytes (render_config config) in
    let (again, s1) = ensure_private_dir-IsSettled home token config d s in
    let d1 = (ensure_private_dir (config_dir home) d).1 in
    let d2 : Disk = record d1 { nodes = put_node path (file 0o600 bytes) d1.nodes } in
    let written = write_file_again path bytes bytes 0o600 d1 s1.quiet s1.config_file in
    let d3 : Disk = record d2 { nodes = put_node path (file 0o600 bytes) d2.nodes } in
    let narrowed =
      set_permissions_again path bytes 0o600 0o600 d2 s1.quiet
        (get_node-put_node path (file 0o600 bytes) d1.nodes) in
    (
      d3,
      bind_forward (try (ensure_private_dir (config_dir home)))
            (λ _. try (write_file path bytes) >> try (set_permissions path 0o600)) d tt
            (ap (λ r. io_result r) again)
          ∙ ground (arith, written, narrowed),
      put_config-IsSettled home token config d1 s1 (file 0o600 bytes),
    )

-- The credential that is stored is given again.
pub load_or_create_http_bearer-IsSettled :
    (home token : Text) (config : AppConfig) (random : Bytes) (d : Disk)
    → IsSettled home config token d
    → (load_or_create_http_bearer true (some home) random d).0 ≡ ok token
load_or_create_http_bearer-IsSettled home token config random d s =
    load_or_create_http_bearer-stored home token random d s.quiet s.private_dir s.token_file
