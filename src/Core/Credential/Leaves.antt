-- ===== src/Core/Credential/Leaves.antt =====
-- What the operations on the file of the credential leave of its directory, and how a stored
-- credential is read.
use folk_around.Prelude.{ℕ, false, [], ◌∷◌, ◌≡◌, refl, arith, ◌∙◌}
use folk_around.Text.{Text, Bytes, text_eq}
use folk_around.Text.Laws.{text_eq_iff}
use folk_around.Text.Utf8.{as_bytes}
use folk_around.Effect.{Result, ok, err, Exec, ◌>>=◌, ◌>>◌, pure, continue}
use folk_around.Core.Disk.{
  IoError, already_exists, not_found, other_error, Node, directory, file, Nodes, Disk,
  create_dir_all, get_node, put_node, create_new, write_all, sync_all, set_permissions,
  symlink_metadata, read_file, syscall,
}
use folk_around.Core.Credential.{
  ensure_private_dir, try, new_token, old_token, reread_token, read_token, check_token,
  settle_token, open_token, open_new_private_file,
}
use folk_around.Core.Credential.Success.{get_node-put_node}
use folk_around.Core.Credential.Stable.{IsStored}

pub get_node-put_other :
    (p q : Text) (n : Node) (nodes : Nodes)
    → text_eq p q ≡ false
    → get_node q (put_node p n nodes) ≡ get_node q nodes
unfolding get_node put_node
get_node-put_other p q n [] h = ground (arith, h)
get_node-put_other p q n ((r, m) ∷ nodes) h =
    ground
      (arith, h, text_eq_iff r p, text_eq_iff r q, text_eq_iff p q, get_node-put_other p q n nodes)

module _ (path dir : Text) (apart : text_eq path dir ≡ false) where
  -- An action on the path leaves the directory.
  abbrev Leaves {ℓ} : {A E : Type ℓ} → Exec Disk E A → Type 0
  Leaves m = (d : Disk) → get_node dir (m d).1.nodes ≡ get_node dir d.nodes

  create_new-Leaves : (mode : ℕ) → Leaves (create_new path mode)
  unfolding create_new syscall
  create_new-Leaves mode d =
      ground (arith, get_node-put_other path dir (file mode []) d.nodes apart)

  write_all-Leaves : (bytes : Bytes) → Leaves (write_all path bytes)
  unfolding write_all syscall
  write_all-Leaves bytes d =
      grind (arith, λ (n : Node). get_node-put_other path dir n d.nodes apart)

  sync_all-Leaves : Leaves sync_all
  unfolding sync_all syscall
  sync_all-Leaves d = ground arith

  set_permissions-Leaves : (mode : ℕ) → Leaves (set_permissions path mode)
  unfolding set_permissions syscall
  set_permissions-Leaves mode d =
      grind (arith, λ (n : Node). get_node-put_other path dir n d.nodes apart)

  read_file-Leaves : Leaves (read_file path)
  unfolding read_file syscall
  read_file-Leaves d = ground arith

  symlink_metadata-Leaves : Leaves (symlink_metadata path)
  unfolding symlink_metadata syscall
  symlink_metadata-Leaves d = ground arith

  continue-Leaves :
      {E A B : Type 0} (f : A → Exec Disk E B)
      → ((a : A) → Leaves (f a))
      → (r : Result A E) (d : Disk) → get_node dir (continue r f d).1.nodes ≡ get_node dir d.nodes
  continue-Leaves f k (ok a) d = k a d
  continue-Leaves f k (err e) d = refl

  bind-Leaves :
      {E A B : Type 0} (m : Exec Disk E A) (f : A → Exec Disk E B)
      → Leaves m
      → ((a : A) → Leaves (f a))
      → Leaves (m >>= f)
  bind-Leaves m f h k d = continue-Leaves f k (m d).0 (m d).1 ∙ h d

  create_dir_all-Leaves : Leaves (create_dir_all path)
  unfolding create_dir_all syscall
  create_dir_all-Leaves d =
      ground (arith, get_node-put_other path dir (directory 0o755) d.nodes apart)

  pub ensure_private_dir-Leaves : Leaves (ensure_private_dir path)
  unfolding ensure_private_dir
  ensure_private_dir-Leaves d =
      bind-Leaves (create_dir_all path) (λ _. set_permissions path 0o700) create_dir_all-Leaves
        (λ _. set_permissions-Leaves 0o700) d

  new_token-Leaves : (token : Text) → Leaves (new_token path token)
  unfolding new_token
  new_token-Leaves token d =
      bind-Leaves (try (write_all path (as_bytes token)))
        (λ _. try sync_all >> (try sync_all >> pure token)) (write_all-Leaves (as_bytes token))
        (λ _.
          bind-Leaves (try sync_all) (λ _. try sync_all >> pure token) sync_all-Leaves
            (λ _. bind-Leaves (try sync_all) (λ _. pure token) sync_all-Leaves (λ _ e. refl)))
        d

  reread_token-Leaves : Leaves (reread_token path)
  unfolding reread_token check_token
  reread_token-Leaves d =
      bind-Leaves (try (set_permissions path 0o600)) (λ _. try (read_file path) >>= check_token)
        (set_permissions-Leaves 0o600)
        (λ _. bind-Leaves (try (read_file path)) check_token read_file-Leaves (λ c e. refl)) d

  read_token-Leaves : (node : Node) → Leaves (read_token path node)
  unfolding read_token
  read_token-Leaves node d = ground (arith, reread_token-Leaves d)

  old_token-Leaves : Leaves (old_token path)
  unfolding old_token
  old_token-Leaves d =
      bind-Leaves (try (symlink_metadata path)) (read_token path) symlink_metadata-Leaves
        read_token-Leaves d

  settle_token-Leaves :
      (token : Text) (r : Result {0, 0} Unit IoError) → Leaves (settle_token path token r)
  unfolding settle_token
  settle_token-Leaves token (ok _) d = new_token-Leaves token d
  settle_token-Leaves token (err already_exists) d = old_token-Leaves d
  settle_token-Leaves token (err not_found) d = refl
  settle_token-Leaves token (err other_error) d = refl

  pub open_token-Leaves : (token : Text) → Leaves (open_token path token)
  unfolding open_token open_new_private_file
  open_token-Leaves token d =
      settle_token-Leaves token (create_new path 0o600 d).0 (create_new path 0o600 d).1
      ∙ create_new-Leaves 0o600 d

  -- Without faults, a stored token is read.
  pub open_token-stored :
      (token t : Text) (d : Disk)
      → d.faults ≡ []
      → IsStored path t d
      → (open_token path token d).0 ≡ ok t
  unfolding open_token open_new_private_file create_new syscall settle_token old_token
      symlink_metadata read_token reread_token set_permissions read_file check_token
  open_token-stored token t d quiet s = ground (
    arith,
    quiet,
    s.private_file,
    s.holds.size,
    s.holds.reads,
    s.holds.valid,
    get_node-put_node path (file 0o600 s.contents) d.nodes,
  )
