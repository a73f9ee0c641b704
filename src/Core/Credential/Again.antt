-- ===== src/Core/Credential/Again.antt =====
-- A second call of `load_or_create_http_bearer` of crates/folk-core/src/lib.rs.
use folk_around.Prelude.{
  ℕ, true, false, [], ◌∷◌, some, ◌≡◌, sym, arith, ap, ◌∙◌, subst, Option-cases, Bool-cases, inl,
  inr, length, length-append,
}
use folk_around.Text.{Text, Bytes, codes, text_eq}
use folk_around.Text.Laws.{text_eq_iff}
use folk_around.Text.Path.{join}
use folk_around.Effect.{Result, ok, err, Exec, ◌>>=◌, continue}
use folk_around.Core.Disk.{
  file, directory, other_node, Disk, get_node, create_dir_all, set_permissions, syscall,
}
use folk_around.Core.Credential.{
  io_result, try, open_token, generate_hex, load_or_create_http_bearer, config_dir,
  ensure_private_dir,
}
use folk_around.Core.Credential.Success.{bind_ok, try_ok, get_node-put_node}
use folk_around.Core.Credential.Stable.{IsStored, load_or_create_http_bearer-IsStored}
use folk_around.Core.Credential.Leaves.{
  get_node-put_other, ensure_private_dir-Leaves, open_token-Leaves, open_token-stored,
}

create_dir_all_ok :
    (dir : Text) (d : Disk)
    → (create_dir_all dir d).0 ≡ ok tt
    → (mode : ℕ) × (get_node dir (create_dir_all dir d).1.nodes ≡ some (directory mode))
unfolding create_dir_all syscall
create_dir_all_ok dir d h = elim (Option-cases (get_node dir d.nodes)) [
  | inl f ↦ (0o755, ground (arith, h, f, get_node-put_node dir (directory 0o755) d.nodes))
  | inr (directory mode, f) ↦ (mode, ground (arith, h, f))
  | inr (file mode contents, f) ↦ (let bad : ⊥ = ground (arith, h, f) in elim bad [ ])
  | inr (other_node, f) ↦ (let bad : ⊥ = ground (arith, h, f) in elim bad [ ])
]

set_permissions_dir :
    (dir : Text) (mode old : ℕ) (d : Disk)
    → get_node dir d.nodes ≡ some (directory old)
    → (set_permissions dir mode d).0 ≡ ok tt
    → get_node dir (set_permissions dir mode d).1.nodes ≡ some (directory mode)
unfolding set_permissions syscall
set_permissions_dir dir mode old d f h =
    ground (arith, h, f, get_node-put_node dir (directory mode) d.nodes)

pub ensure_private_dir_ok :
    (dir : Text) (d d' : Disk)
    → ensure_private_dir dir d ≡ (ok tt, d')
    → get_node dir d'.nodes ≡ some (directory 0o700)
unfolding ensure_private_dir
ensure_private_dir_ok dir d d' h =
    let (u, hc, h1) = bind_ok (create_dir_all dir) (λ _. set_permissions dir 0o700) d d' tt h in
    let d1 = (create_dir_all dir d).1 in
    let (mode, f) = create_dir_all_ok dir d hc in
    subst (λ x. get_node dir x.nodes ≡ some (directory 0o700)) (ap (λ r. r.1) h1)
      (set_permissions_dir dir 0o700 mode d1 f (ap (λ r. r.0) h1))

-- A private directory that is there stays, without faults, and so does what is beside it.
pub ensure_private_dir_again :
    (dir path : Text) (d : Disk)
    → text_eq dir path ≡ false
    → d.faults ≡ []
    → get_node dir d.nodes ≡ some (directory 0o700)
    → ((ensure_private_dir dir d).0 ≡ ok tt)
      × ((ensure_private_dir dir d).1.faults ≡ [])
      × (get_node path (ensure_private_dir dir d).1.nodes ≡ get_node path d.nodes)
unfolding ensure_private_dir create_dir_all set_permissions syscall
ensure_private_dir_again dir path d apart quiet f =
    ground (arith, quiet, f, get_node-put_other dir path (directory 0o700) d.nodes apart)

continue_forward :
    {S E A B : Type 0} (r : Result A E) (f : A → Exec S E B) (s : S) (a : A)
    → r ≡ ok a
    → continue r f s ≡ f a s
continue_forward (ok b) f s a h = ground (arith, h)
continue_forward (err e) f s a h = (let bad : ⊥ = ground (arith, h) in elim bad [ ])

pub bind_forward :
    {S E A B : Type 0} (m : Exec S E A) (f : A → Exec S E B) (s : S) (a : A)
    → (m s).0 ≡ ok a
    → (m >>= f) s ≡ f a (m s).1
bind_forward m f s a h = continue_forward (m s).0 f (m s).1 a h

pub join_apart : (dir : Text) (c : ℕ) (name : Text) → text_eq dir (join dir (c ∷ name)) ≡ false
unfolding join
join_apart dir c name = elim (Bool-cases (text_eq dir (join dir (c ∷ name)))) [
  | inr e ↦ e
  | inl e ↦
      let same = ap (λ s. length s) ((text_eq_iff dir (join dir (c ∷ name))).0 e) in
      let bad : ⊥ =
        ground (arith, same, length-append dir (c ∷ name), length-append dir (b'/' ∷ c ∷ name)) in
      elim bad [ ]
]

abbrev pub token_path : Text → Text
token_path home = join (config_dir home) (codes "http-token")

pub token_apart : (home : Text) → text_eq (config_dir home) (token_path home) ≡ false
unfolding codes
token_apart home = join_apart (config_dir home) b'h' (codes "ttp-token")

pub text_eq_flip : (a b : Text) → text_eq a b ≡ false → text_eq b a ≡ false
text_eq_flip a b h = ground (arith, h, text_eq_iff a b, text_eq_iff b a)

-- What a call that succeeds leaves of the disk: its directory is private, and the other files are as
-- they were.
pub load_or_create_http_bearer-Leaves :
    (home t : Text) (random : Bytes) (d d' : Disk)
    → load_or_create_http_bearer true (some home) random d ≡ (ok t, d')
    → (get_node (config_dir home) d'.nodes ≡ some (directory 0o700))
      × ((q : Text)
          → text_eq (config_dir home) q ≡ false
          → text_eq (token_path home) q ≡ false
          → get_node q d'.nodes ≡ get_node q d.nodes)
unfolding load_or_create_http_bearer
load_or_create_http_bearer-Leaves home t random d d' h =
    let dir = config_dir home in
    let path = token_path home in
    let (u, he, h1) =
      bind_ok (try (ensure_private_dir dir)) (λ _. open_token path (generate_hex random)) d d' t
        h in
    let d1 = (ensure_private_dir dir d).1 in
    let made =
      ensure_private_dir_ok dir d d1
        (ap (λ r. (r, d1)) (try_ok (ensure_private_dir dir) d tt he)) in
    let rest : (q : Text) → text_eq path q ≡ false → get_node q d'.nodes ≡ get_node q d1.nodes =
      λ q apart.
        ap (λ x. get_node q x.1.nodes) (sym h1)
        ∙ open_token-Leaves path q apart (generate_hex random) d1 in
    (
      rest dir (text_eq_flip dir path (token_apart home)) ∙ made,
      λ q other apart. rest q apart ∙ ensure_private_dir-Leaves dir q other d,
    )

-- Without faults, a stored credential is given, whatever the random bytes.
pub load_or_create_http_bearer-stored :
    (home t : Text) (random : Bytes) (d : Disk)
    → d.faults ≡ []
    → get_node (config_dir home) d.nodes ≡ some (directory 0o700)
    → IsStored (token_path home) t d
    → (load_or_create_http_bearer true (some home) random d).0 ≡ ok t
unfolding load_or_create_http_bearer
load_or_create_http_bearer-stored home t random d quiet made stored =
    let dir = config_dir home in
    let path = token_path home in
    let apart = token_apart home in
    let (again, still, beside) = ensure_private_dir_again dir path d apart quiet made in
    ap (λ r. r.0)
      (bind_forward (try (ensure_private_dir dir)) (λ _. open_token path (generate_hex random)) d tt
        (ap (λ r. io_result r) again))
    ∙ open_token-stored path dir (text_eq_flip dir path apart) (generate_hex random) t
        (ensure_private_dir dir d).1 still
        (record {
          contents = stored.contents;
          private_file = beside ∙ stored.private_file;
          holds = stored.holds;
        })

-- A second call gives the same credential, whatever its random bytes, if the disk does not fail from
-- the end of the first call on and the first call had 32 random bytes.
pub load_or_create_http_bearer_again :
    (home t : Text) (random random' : Bytes) (d d' : Disk)
    → length random ≡ 32
    → load_or_create_http_bearer true (some home) random d ≡ (ok t, d')
    → d'.faults ≡ []
    → (load_or_create_http_bearer true (some home) random' d').0 ≡ ok t
load_or_create_http_bearer_again home t random random' d d' size h quiet =
    load_or_create_http_bearer-stored home t random' d' quiet
      (load_or_create_http_bearer-Leaves home t random d d' h).0
      (load_or_create_http_bearer-IsStored home t random d d' size h)
