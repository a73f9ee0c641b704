-- ===== src/Core/Disk.antt =====
-- The file operations that crates/folk-core/src/lib.rs uses, on a map from paths to nodes. Each
-- operation may fail: `faults` says for each next one whether it does. A write that fails may have
-- written a prefix. Links are not followed, and the directories above a created one are not kept.
use folk_around.Prelude.{ℕ, List, [], ◌∷◌, ◌++◌, Option, none, some, if◌then◌else◌, take}
use folk_around.Text.{Text, Bytes, text_eq}
use folk_around.Effect.{Result, ok, err, Exec}

pub data IoError : Type 0 where
  already_exists not_found other_error : IoError

-- `other_node` is a link or a special file.
pub data Node : Type 0 where
  directory : (mode : ℕ) → Node
  file : (mode : ℕ) (contents : Bytes) → Node
  other_node : Node

abbrev pub Nodes : Type 0
Nodes = List (Text × Node)

-- A fault of a write says how many bytes were written.
pub record Disk : Type 0 where
  pub nodes : Nodes
  pub faults : List (Option ℕ)

unfoldable pub get_node : Text → Nodes → Option Node
get_node path [] = none
get_node path ((p, n) ∷ rest) = if text_eq p path then some n else get_node path rest

unfoldable pub put_node : Text → Node → Nodes → Nodes
put_node path n [] = (path, n) ∷ []
put_node path n ((p, m) ∷ rest) =
    if text_eq p path then (p, n) ∷ rest else (p, m) ∷ put_node path n rest

abbrev first_fault : List (Option ℕ) → Option ℕ
first_fault [] = none
first_fault (fault ∷ faults) = fault

abbrev later_faults : List (Option ℕ) → List (Option ℕ)
later_faults [] = []
later_faults (fault ∷ faults) = faults

-- One operation: what it does, and what it leaves when it fails.
unfoldable pub syscall {ℓ} :
    {A : Type ℓ} → (Nodes → Result A IoError × Nodes) → (ℕ → Nodes → Nodes) → Exec Disk IoError A
syscall f broken d = elim (first_fault d.faults) [
  | none ↦
      let (r, nodes) = f d.nodes in (r, record { nodes = nodes; faults = later_faults d.faults })
  | some n ↦ (err other_error, record { nodes = broken n d.nodes; faults = later_faults d.faults })
]

abbrev unchanged : ℕ → Nodes → Nodes
unchanged n nodes = nodes

abbrev make_dir : Text → Nodes → Option Node → Result {0, 0} Unit IoError × Nodes
make_dir path nodes none = (ok tt, put_node path (directory 0o755) nodes)
make_dir path nodes (some (directory mode)) = (ok tt, nodes)
make_dir path nodes (some _) = (err other_error, nodes)

unfoldable pub create_dir_all : Text → Exec {0, 0, 0} Disk IoError Unit
create_dir_all path = syscall (λ nodes. make_dir path nodes (get_node path nodes)) unchanged

abbrev change_mode : Text → ℕ → Nodes → Option Node → Result {0, 0} Unit IoError × Nodes
change_mode path mode nodes none = (err not_found, nodes)
change_mode path mode nodes (some (directory _)) = (ok tt, put_node path (directory mode) nodes)
change_mode path mode nodes (some (file _ contents)) =
    (ok tt, put_node path (file mode contents) nodes)
change_mode path mode nodes (some other_node) = (ok tt, nodes)

unfoldable pub set_permissions : Text → ℕ → Exec {0, 0, 0} Disk IoError Unit
set_permissions path mode =
    syscall (λ nodes. change_mode path mode nodes (get_node path nodes)) unchanged

abbrev make_new : Text → ℕ → Nodes → Option Node → Result {0, 0} Unit IoError × Nodes
make_new path mode nodes none = (ok tt, put_node path (file mode []) nodes)
make_new path mode nodes (some _) = (err already_exists, nodes)

-- `create_new(true)`
unfoldable pub create_new : Text → ℕ → Exec {0, 0, 0} Disk IoError Unit
create_new path mode = syscall (λ nodes. make_new path mode nodes (get_node path nodes)) unchanged

abbrev append_to : Text → Bytes → Nodes → Option Node → Nodes
append_to path bytes nodes (some (file mode contents)) =
    put_node path (file mode (contents ++ bytes)) nodes
append_to path bytes nodes _ = nodes

unfoldable pub write_all : Text → Bytes → Exec {0, 0, 0} Disk IoError Unit
write_all path bytes =
    syscall (λ nodes. (ok tt, append_to path bytes nodes (get_node path nodes)))
      (λ n nodes. append_to path (take n bytes) nodes (get_node path nodes))

-- `sync_all` of a file or a directory
unfoldable pub sync_all : Exec {0, 0, 0} Disk IoError Unit
sync_all = syscall (λ nodes. (ok tt, nodes)) unchanged

abbrev found : Option Node → Result Node IoError
found none = err not_found
found (some n) = ok n

unfoldable pub symlink_metadata : Text → Exec Disk IoError Node
symlink_metadata path = syscall (λ nodes. (found (get_node path nodes), nodes)) unchanged

abbrev contents_of : Option Node → Result Bytes IoError
contents_of none = err not_found
contents_of (some (file mode contents)) = ok contents
contents_of (some _) = err other_error

unfoldable pub read_file : Text → Exec Disk IoError Bytes
read_file path = syscall (λ nodes. (contents_of (get_node path nodes), nodes)) unchanged

abbrev replace_contents : Text → Bytes → Nodes → Option Node → Result {0, 0} Unit IoError × Nodes
replace_contents path bytes nodes none = (ok tt, put_node path (file 0o644 bytes) nodes)
replace_contents path bytes nodes (some (file mode _)) =
    (ok tt, put_node path (file mode bytes) nodes)
replace_contents path bytes nodes (some _) = (err other_error, nodes)

-- `fs::write`: a failure may leave a prefix.
unfoldable pub write_file : Text → Bytes → Exec {0, 0, 0} Disk IoError Unit
write_file path bytes =
    syscall (λ nodes. replace_contents path bytes nodes (get_node path nodes))
      (λ n nodes. (replace_contents path (take n bytes) nodes (get_node path nodes)).1)
