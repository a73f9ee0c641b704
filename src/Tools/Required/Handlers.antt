-- ===== src/Tools/Required/Handlers.antt =====
-- Each handler of crates/folk-computer-use/src/lib.rs without a field that it needs.
use folk_around.Prelude.{
  All, [], ◌∷◌, true, false, none, Option-cases, ◌≡◌, refl, arith, Bool, inl, inr,
}
use folk_around.Text.{Text, codes, text_eq}
use folk_around.Json.{Value}
use folk_around.Tools.Host.{Host, ensure_mutation}
use folk_around.Tools.Args.{str_arg, semantic_args_ok, semantic_ids, ensure_semantic_args}
use folk_around.Tools.Shell.{shell, spawn_command}
use folk_around.Tools.Desktop.{
  clipboard_write, click, set_value, type_text, press, paste, hotkey, swipe, drag, perform_action,
  open_target, sleep,
}
use folk_around.Tools.Windows.{change_window, change_app, window, app, menu}
use folk_around.Tools.Required.{Needs}

module _ (host : Host) where
  pub shell-Needs : Needs (shell host) (codes "command")
  unfolding shell
  shell-Needs args mode h e = ground (arith, e)

  pub spawn_command-Needs : Needs (spawn_command host) (codes "command")
  unfolding spawn_command
  spawn_command-Needs args mode h e = ground (arith, e)

  pub clipboard_write-Needs : Needs (clipboard_write host) (codes "text")
  unfolding clipboard_write ensure_mutation
  clipboard_write-Needs args mode h e = ground (arith, e)

  pub type_text-Needs : Needs (type_text host) (codes "text")
  unfolding type_text ensure_mutation
  type_text-Needs args mode h e = ground (arith, e)

  pub press-Needs : Needs (press host) (codes "key")
  unfolding press ensure_mutation
  press-Needs args mode h e = ground (arith, e)

  pub paste-Needs : Needs (paste host) (codes "text")
  unfolding paste ensure_mutation
  paste-Needs args mode h e = ground (arith, e)

  pub hotkey-Needs : Needs (hotkey host) (codes "keys")
  unfolding hotkey ensure_mutation
  hotkey-Needs args mode h e = ground (arith, e)

  pub swipe-Needs : (key : Text) → Needs (swipe host) key
  unfolding swipe ensure_mutation
  swipe-Needs key args mode h e = ground arith

  pub drag-Needs : (key : Text) → Needs (drag host) key
  unfolding drag ensure_mutation
  drag-Needs key args mode h e = ground arith

  pub sleep-Needs : (key : Text) → Needs (λ args mode. sleep host args) key
  unfolding sleep
  sleep-Needs key args mode h e = refl

  pub open_target-Needs : Needs (open_target host) (codes "target")
  unfolding open_target ensure_mutation
  open_target-Needs args mode h e = ground (arith, e)

  pub menu-Needs : Needs (menu host) (codes "action")
  unfolding menu
  menu-Needs args mode h e = ground (arith, e)

  pub perform_action-Needs_on : Needs (perform_action host) (codes "on")
  unfolding perform_action ensure_mutation
  perform_action-Needs_on args mode h e = ground (arith, e)

  pub perform_action-Needs_action : Needs (perform_action host) (codes "action")
  unfolding perform_action ensure_mutation
  perform_action-Needs_action args mode h e = elim (Option-cases (str_arg args (codes "on"))) [
    | inl f ↦ ground (arith, e, f)
    | inr (on, f) ↦ ground (arith, e, f)
  ]

  -- Without an action it is the empty text, which is none that the handler knows.
  pub window-Needs : Needs (window host) (codes "action")
  unfolding window change_window ensure_mutation text_eq codes
  window-Needs args mode h e = elim (Option-cases (str_arg args (codes "app"))) [
    | inl f ↦ ground (arith, e, f)
    | inr (name, f) ↦ ground (arith, e, f)
  ]

  pub app-Needs : Needs (app host) (codes "action")
  unfolding app change_app ensure_mutation text_eq codes
  app-Needs args mode h e = elim (Option-cases (str_arg args (codes "app"))) [
    | inl f ↦ ground (arith, e, f)
    | inr (name, f) ↦ ground (arith, e, f)
  ]

-- The tests of the semantic arguments, by the parts that are missing.
module _ (args : Value) (set : Bool) where
  ids_missing :
      semantic_ids
          (str_arg args (codes "operation_id"))
          (str_arg args (codes "observation_id"))
          (str_arg args (codes "tag"))
        ≡ false
      → semantic_args_ok args set ≡ false
  unfolding semantic_args_ok
  ids_missing e = ground (arith, e)

  operation_id_missing :
      str_arg args (codes "operation_id") ≡ none → semantic_args_ok args set ≡ false
  operation_id_missing e = ids_missing (rw e)

  observation_id_missing :
      str_arg args (codes "observation_id") ≡ none → semantic_args_ok args set ≡ false
  observation_id_missing e =
      ids_missing (elim (Option-cases (str_arg args (codes "operation_id"))) [
        | inl f ↦ rw f
        | inr (id, f) ↦ rw (f, e)
      ])

  tag_missing : str_arg args (codes "tag") ≡ none → semantic_args_ok args set ≡ false
  tag_missing e = ids_missing (elim (Option-cases (str_arg args (codes "operation_id"))) [
    | inl f ↦ rw f
    | inr (id, f) ↦ elim (Option-cases (str_arg args (codes "observation_id"))) [
      | inl g ↦ rw (f, g)
      | inr (observation, g) ↦ rw (f, g, e)
    ]
  ])

  mode_missing : str_arg args (codes "interaction_mode") ≡ none → semantic_args_ok args set ≡ false
  unfolding semantic_args_ok
  mode_missing e = ground (arith, e)

value_missing :
    (args : Value) → str_arg args (codes "value") ≡ none → semantic_args_ok args true ≡ false
unfolding semantic_args_ok
value_missing args e = ground (arith, e)

module _ (host : Host) where
  click_refused :
      (key : Text)
      → ((args : Value) → str_arg args key ≡ none → semantic_args_ok args false ≡ false)
      → Needs (click host) key
  unfolding click ensure_mutation ensure_semantic_args
  click_refused key missing args mode h e = ground (arith, missing args e)

  set_value_refused :
      (key : Text)
      → ((args : Value) → str_arg args key ≡ none → semantic_args_ok args true ≡ false)
      → Needs (set_value host) key
  unfolding set_value ensure_mutation ensure_semantic_args
  set_value_refused key missing args mode h e = ground (arith, missing args e)

  pub click-Needs :
      All (Needs (click host)) (
        codes "operation_id" ∷ codes "observation_id" ∷ codes "tag" ∷ codes "interaction_mode" ∷ [])
  click-Needs = (
    click_refused _ (λ args. operation_id_missing args false),
    (
      click_refused _ (λ args. observation_id_missing args false),
      (
        click_refused _ (λ args. tag_missing args false),
        (click_refused _ (λ args. mode_missing args false), tt),
      ),
    ),
  )

  pub set_value-Needs : All (Needs (set_value host)) (
      codes "operation_id"
      ∷ codes "observation_id"
      ∷ codes "tag"
      ∷ codes "value"
      ∷ codes "interaction_mode"
      ∷ [])
  set_value-Needs = (
    set_value_refused _ (λ args. operation_id_missing args true),
    (
      set_value_refused _ (λ args. observation_id_missing args true),
      (
        set_value_refused _ (λ args. tag_missing args true),
        (
          set_value_refused _ value_missing,
          (set_value_refused _ (λ args. mode_missing args true), tt),
        ),
      ),
    ),
  )
