-- ===== src/Core/Credential/Success.antt =====
-- What the operations on the disk have done when they succeed.
use folk_around.Prelude.{ℕ, [], ◌∷◌, ◌++◌, some, ◌≡◌, refl, arith}
use folk_around.Text.{Text, Bytes}
use folk_around.Text.Laws.{text_eq_refl}
use folk_around.Effect.{Result, ok, err, Exec, ◌>>=◌, continue}
use folk_around.Core.Disk.{
  IoError, Node, file, Nodes, Disk, get_node, put_node, syscall, create_new, write_all, sync_all,
  set_permissions, symlink_metadata, read_file,
}
use folk_around.Core.Credential.{try, io_result}

pub get_node-put_node :
    (path : Text) (n : Node) (nodes : Nodes) → get_node path (put_node path n nodes) ≡ some n
unfolding get_node put_node
get_node-put_node path n [] = ground (arith, text_eq_refl path)
get_node-put_node path n ((p, m) ∷ nodes) =
    ground (arith, text_eq_refl path, get_node-put_node path n nodes)

continue_ok :
    {S E A B : Type 0} (r : Result A E) (f : A → Exec S E B) (s t : S) (b : B)
    → continue r f s ≡ (ok b, t)
    → (a : A) × (r ≡ ok a) × (f a s ≡ (ok b, t))
continue_ok (ok a) f s t b h = (a, refl, h)
continue_ok (err e) f s t b h = (let bad : ⊥ = ground (arith, h) in elim bad [ ])

pub bind_ok :
    {S E A B : Type 0} (m : Exec S E A) (f : A → Exec S E B) (s t : S) (b : B)
    → (m >>= f) s ≡ (ok b, t)
    → (a : A) × ((m s).0 ≡ ok a) × (f a (m s).1 ≡ (ok b, t))
bind_ok m f s t b h = continue_ok (m s).0 f (m s).1 t b h

io_result_ok : {A : Type 0} (r : Result A IoError) (a : A) → io_result r ≡ ok a → r ≡ ok a
io_result_ok (ok b) a h = ground (arith, h)
io_result_ok (err e) a h = (let bad : ⊥ = ground (arith, h) in elim bad [ ])

pub try_ok :
    {A : Type 0} (m : Exec Disk IoError A) (d : Disk) (a : A) → (try m d).0 ≡ ok a → (m d).0 ≡ ok a
try_ok m d a h = io_result_ok (m d).0 a h

pub create_new_ok :
    (path : Text) (mode : ℕ) (d : Disk)
    → (create_new path mode d).0 ≡ ok tt
    → get_node path (create_new path mode d).1.nodes ≡ some (file mode [])
unfolding create_new syscall
create_new_ok path mode d h = ground (arith, h, get_node-put_node path (file mode []) d.nodes)

pub write_all_ok :
    (path : Text) (bytes contents : Bytes) (mode : ℕ) (d : Disk)
    → get_node path d.nodes ≡ some (file mode contents)
    → (write_all path bytes d).0 ≡ ok tt
    → get_node path (write_all path bytes d).1.nodes ≡ some (file mode (contents ++ bytes))
unfolding write_all syscall
write_all_ok path bytes contents mode d f h =
    ground (arith, f, h, get_node-put_node path (file mode (contents ++ bytes)) d.nodes)

pub sync_all_nodes : (d : Disk) → (sync_all d).1.nodes ≡ d.nodes
unfolding sync_all syscall
sync_all_nodes d = ground arith

pub symlink_metadata_ok :
    (path : Text) (d : Disk) (n : Node)
    → (symlink_metadata path d).0 ≡ ok n
    → (get_node path d.nodes ≡ some n) × ((symlink_metadata path d).1.nodes ≡ d.nodes)
unfolding symlink_metadata syscall
symlink_metadata_ok path d n h = ground (arith, h)

pub set_permissions_ok :
    (path : Text) (mode old : ℕ) (contents : Bytes) (d : Disk)
    → get_node path d.nodes ≡ some (file old contents)
    → (set_permissions path mode d).0 ≡ ok tt
    → get_node path (set_permissions path mode d).1.nodes ≡ some (file mode contents)
unfolding set_permissions syscall
set_permissions_ok path mode old contents d f h =
    ground (arith, f, h, get_node-put_node path (file mode contents) d.nodes)

pub read_file_ok :
    (path : Text) (mode : ℕ) (contents bytes : Bytes) (d : Disk)
    → get_node path d.nodes ≡ some (file mode contents)
    → (read_file path d).0 ≡ ok bytes
    → (bytes ≡ contents) × ((read_file path d).1.nodes ≡ d.nodes)
unfolding read_file syscall
read_file_ok path mode contents bytes d f h = ground (arith, f, h)
