-- ===== src/Tools/Gate/Commands.antt =====
-- The filter of shell commands: exactly which commands pass it, and what is run then.
use folk_around.Prelude.{
  ℕ, Bool, false, List, [], ◌∷◌, ◌++◌, Option, none, some, ◌≡◌, ◌≢◌, refl, ap, arith, All, any,
  Bool-cases, Option-cases, inl, inr,
}
use mathlib.Core.Option.{some-injective}
use folk_around.Text.{
  Text, codes, text_eq, contains, split_whitespace, words_from, is_empty, is_whitespace,
}
use folk_around.Tools.Host.{History, Host}
use folk_around.Tools.Shell.{
  safe_commands, restricted_chars, is_restricted_char, restricted_command, first_safe,
  run_restricted, run_command, shell, list_apps, spawn_command,
}
use folk_around.Tools.Args.{str_arg}
use folk_around.Tools.Gate.{IsSafeRun, AllHarmless, IsGated}

abbrev IsPlain : (ℕ → Bool) → Text → Type 0
IsPlain p s = any p s ≡ false

any-concat :
    (p : ℕ → Bool) (s : Text) (c : ℕ) → any p s ≡ false → p c ≡ false → any p (s ++ c ∷ []) ≡ false
any-concat p [] c h k = ground arith
any-concat p (d ∷ s) c h k = ground (arith, any-concat p s c)

words_from-IsPlain :
    (p : ℕ → Bool) (cur s : Text) → IsPlain p cur → IsPlain p s → All (IsPlain p) (words_from cur s)
unfolding words_from is_empty
words_from-IsPlain p [] [] h k = tt
words_from-IsPlain p (d ∷ cur) [] h k = (h, tt)
words_from-IsPlain p cur (c ∷ s) h k = elim (Bool-cases (is_whitespace c)) [
  | inl e ↦ rw e (ground (arith, words_from-IsPlain p [] s refl))
  | inr e ↦
      rw e
        (words_from-IsPlain p (cur ++ c ∷ []) s (ground (arith, any-concat p cur c)) (ground arith))
]

none-ne-some {ℓ} : {A : Type ℓ} {a : A} → none ≢ some a
none-ne-some e = cc

first_safe-words :
    (words : List Text) (program : Text) (args : List Text)
    → first_safe words ≡ some (program, args)
    → words ≡ program ∷ args
first_safe-words [] program args e = cc
first_safe-words (word ∷ words) program args e = ground arith

first_safe-IsSafeRun :
    (words : List Text) (program : Text) (args : List Text)
    → All (IsPlain is_restricted_char) words
    → first_safe words ≡ some (program, args)
    → IsSafeRun program args
first_safe-IsSafeRun [] program args h e = cc
first_safe-IsSafeRun (word ∷ words) program args (p, h) e =
    elim (Bool-cases (contains safe_commands word)) [
      | inl safe ↦
          let same : (word, words) ≡ (program, args) = some-injective _ _ (rw safe at e) in
          let same_program : word ≡ program = ap (λ p. p.0) same in
          let same_args : words ≡ args = ap (λ p. p.1) same in
          record { listed = rw (← same_program) safe; plain = rw (← same_args) h }
      | inr other ↦ absurd (none-ne-some (rw other at e))
    ]

-- What passes the filter is an allowlisted program, given as the words of the command, and no
-- argument has a shell metacharacter.
pub restricted_command-IsSafeRun :
    (command program : Text) (args : List Text)
    → restricted_command command ≡ some (program, args)
    → IsSafeRun program args × (split_whitespace command ≡ program ∷ args)
unfolding restricted_command split_whitespace
restricted_command-IsSafeRun command program args e =
    elim (Bool-cases (any is_restricted_char command)) [
      | inl bad ↦ absurd (none-ne-some (rw (bad, restricted_command) at e))
      | inr plain ↦
          let passed = rw (plain, restricted_command) at e in
          (
            first_safe-IsSafeRun (words_from [] command) program args
                (words_from-IsPlain is_restricted_char [] command refl plain) passed,
            first_safe-words (words_from [] command) program args passed,
          )
    ]

module _ (host : Host) where
  shell-restricted :
      (filtered : Option (Text × List Text)) (cwd : Option Text) (h : History)
      → ((program : Text) (args : List Text)
          → filtered ≡ some (program, args)
          → IsSafeRun program args)
      → AllHarmless h
      → AllHarmless (run_restricted host filtered cwd h).1
  unfolding run_command
  shell-restricted none cwd h safe k = k
  shell-restricted (some (program, args)) cwd h safe k = ground (arith, safe program args refl)

  pub shell-IsGated : IsGated (shell host)
  unfolding shell
  shell-IsGated args mode h m k = elim (Option-cases (str_arg args (codes "command"))) [
    | inl e ↦ rw e k
    | inr (command, e) ↦
        rw (e, m)
          (shell-restricted (restricted_command command) (str_arg args (codes "cwd")) h
            (λ program args' p. (restricted_command-IsSafeRun command program args' p).0) k)
  ]

  pub list_apps-IsGated : IsGated (λ args. list_apps host)
  unfolding list_apps safe_commands is_restricted_char restricted_chars codes text_eq contains
  list_apps-IsGated args mode h m k = ground arith

  pub spawn_command-IsGated : IsGated (spawn_command host)
  unfolding spawn_command
  spawn_command-IsGated args mode h m k = ground arith
