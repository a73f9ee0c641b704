-- ===== src/Tools/Gate/Handlers.antt =====
-- Every handler is gated: in a restricted mode it observes, or it is blocked.
use folk_around.Prelude.{true, false, ◌≡◌, ◌≢◌, ◌⊎◌, refl, arith, Bool-cases, inl, inr}
use folk_around.Text.{Text, codes, text_eq}
use folk_around.Text.Laws.{text_eq_iff}
use folk_around.Json.{Value}
use folk_around.Core.{AccessMode, full, limited, sandbox, is_full}
use folk_around.Effect.{ok, err}
use folk_around.Tools.Host.{blocked, History, Host, ensure_mutation}
use folk_around.Tools.Capture.{
  screenshot_reference, image_result, ensure_screenshot_reference_supported, screen_capture, image,
  see,
}
use folk_around.Tools.Desktop.{
  clipboard_read, clipboard_write, doctor, list_screens, permissions, ui_snapshot, click, set_value,
  type_text, press, paste, hotkey, scroll, swipe, drag, move_pointer, perform_action, open_target,
  clean, sleep,
}
use folk_around.Tools.Windows.{
  ensure_safe_focus_or_full, is_focus_like, is_switch_like, is_app_action, action_or_empty,
  change_window, change_app, window, app, menu,
}
use folk_around.Tools.Args.{str_arg}
use folk_around.Tools.Gate.{AllHarmless, IsGated}
use folk_around.Tools.Gate.Commands.{list_apps-IsGated}

ensure_mutation_blocked :
    (mode : AccessMode) (h : History)
    → is_full mode ≡ false
    → ensure_mutation mode h ≡ (err blocked, h)
unfolding ensure_mutation
ensure_mutation_blocked full h m = cc
ensure_mutation_blocked limited h m = refl
ensure_mutation_blocked sandbox h m = refl

safe_focus_cases :
    (mode : AccessMode) (action : Text) (h : History)
    → is_full mode ≡ false
    → (ensure_safe_focus_or_full mode action h ≡ (err blocked, h))
      ⊎ (ensure_safe_focus_or_full mode action h ≡ (ok tt, h))
        × ((action ≡ codes "list") ⊎ (action ≡ codes "focus") ⊎ (action ≡ codes "activate"))
unfolding ensure_safe_focus_or_full
safe_focus_cases mode action h m = ground (
  arith,
  ensure_mutation_blocked mode h,
  text_eq_iff action (codes "list"),
  text_eq_iff action (codes "focus"),
  text_eq_iff action (codes "activate"),
)

-- No action that acts on a window is "activate", and none on an application is "list".
focus_like_cases : (action : Text) → is_focus_like action ≡ true → action ≢ codes "activate"
unfolding codes text_eq
focus_like_cases action e a = cc (rw a at e)

app_action_cases :
    (action : Text)
    → is_app_action action ≡ true
    → (action ≢ codes "list") × (action ≢ codes "focus")
unfolding codes text_eq
app_action_cases action e = (λ a. cc (rw a at e), λ a. cc (rw a at e))

module _ (host : Host) where
  pub clipboard_read-IsGated : IsGated (λ args mode. clipboard_read host)
  unfolding clipboard_read
  clipboard_read-IsGated args mode h m k = ground arith

  -- A mutating handler stops at its first line.
  pub clipboard_write-IsGated : IsGated (clipboard_write host)
  unfolding clipboard_write ensure_mutation
  clipboard_write-IsGated args mode h m k = ground arith

  pub doctor-IsGated : IsGated (λ args mode. doctor host)
  unfolding doctor
  doctor-IsGated args mode h m k = ground arith

  pub permissions-IsGated : IsGated (permissions host)
  unfolding permissions ensure_mutation
  permissions-IsGated args mode h m k = ground arith

  pub click-IsGated : IsGated (click host)
  unfolding click ensure_mutation
  click-IsGated args mode h m k = ground arith

  pub menu-IsGated : IsGated (menu host)
  unfolding menu ensure_mutation
  menu-IsGated args mode h m k = ground arith

  change_window-keeps :
      (args : Value) (mode : AccessMode) (action : Text) (h : History)
      → is_full mode ≡ false
      → AllHarmless h
      → AllHarmless (change_window host args mode action h).1
  unfolding change_window
  change_window-keeps args mode action h m k = elim (Bool-cases (is_focus_like action)) [
    | inl e ↦ rw e (ground (arith, safe_focus_cases mode action h m, focus_like_cases action e))
    | inr e ↦ rw e (ground (arith, ensure_mutation_blocked mode h m))
  ]

  pub window-IsGated : IsGated (window host)
  unfolding window
  window-IsGated args mode h m k =
      let action = action_or_empty (str_arg args (codes "action")) in
      elim (Bool-cases (text_eq action (codes "list"))) [
        | inl e ↦ rw e (ground arith)
        | inr e ↦ rw e (change_window-keeps args mode action h m k)
      ]

  change_app-keeps :
      (args : Value) (mode : AccessMode) (action : Text) (h : History)
      → is_full mode ≡ false
      → AllHarmless h
      → AllHarmless (change_app host args mode action h).1
  unfolding change_app
  change_app-keeps args mode action h m k = elim (Bool-cases (is_switch_like action)) [
    | inl e ↦ elim (Bool-cases (is_app_action action)) [
      | inl a ↦
          rw (e, a) (ground (arith, safe_focus_cases mode action h m, app_action_cases action a))
      | inr a ↦ rw (e, a) (ground (arith, safe_focus_cases mode action h m))
    ]
    | inr e ↦ rw e (ground (arith, ensure_mutation_blocked mode h m))
  ]

  pub app-IsGated : IsGated (app host)
  unfolding app
  app-IsGated args mode h m k =
      let action = action_or_empty (str_arg args (codes "action")) in
      elim (Bool-cases (text_eq action (codes "list"))) [
        | inl e ↦ rw e (list_apps-IsGated host args mode h m k)
        | inr e ↦ rw e (change_app-keeps args mode action h m k)
      ]

  pub screen_capture-IsGated : IsGated (screen_capture host)
  unfolding screen_capture ensure_screenshot_reference_supported image_result screenshot_reference
  screen_capture-IsGated args mode h m k = ground arith

  pub image-IsGated : IsGated (image host)
  unfolding image ensure_screenshot_reference_supported image_result screenshot_reference
  image-IsGated args mode h m k = ground arith

  pub see-IsGated : IsGated (see host)
  unfolding see ensure_screenshot_reference_supported image_result screenshot_reference
  see-IsGated args mode h m k = ground arith

  pub list_screens-IsGated : IsGated (λ args. list_screens host)
  unfolding list_screens
  list_screens-IsGated args mode h m k = ground arith

  pub ui_snapshot-IsGated : IsGated (λ args. ui_snapshot host)
  unfolding ui_snapshot
  ui_snapshot-IsGated args mode h m k = ground arith

  pub set_value-IsGated : IsGated (set_value host)
  unfolding set_value ensure_mutation
  set_value-IsGated args mode h m k = ground arith

  pub type_text-IsGated : IsGated (type_text host)
  unfolding type_text ensure_mutation
  type_text-IsGated args mode h m k = ground arith

  pub press-IsGated : IsGated (press host)
  unfolding press ensure_mutation
  press-IsGated args mode h m k = ground arith

  pub paste-IsGated : IsGated (paste host)
  unfolding paste ensure_mutation
  paste-IsGated args mode h m k = ground arith

  pub hotkey-IsGated : IsGated (hotkey host)
  unfolding hotkey ensure_mutation
  hotkey-IsGated args mode h m k = ground arith

  pub scroll-IsGated : IsGated (scroll host)
  unfolding scroll ensure_mutation
  scroll-IsGated args mode h m k = ground arith

  pub swipe-IsGated : IsGated (swipe host)
  unfolding swipe ensure_mutation
  swipe-IsGated args mode h m k = ground arith

  pub drag-IsGated : IsGated (drag host)
  unfolding drag ensure_mutation
  drag-IsGated args mode h m k = ground arith

  pub move_pointer-IsGated : IsGated (move_pointer host)
  unfolding move_pointer ensure_mutation
  move_pointer-IsGated args mode h m k = ground arith

  pub perform_action-IsGated : IsGated (perform_action host)
  unfolding perform_action ensure_mutation
  perform_action-IsGated args mode h m k = ground arith

  pub open_target-IsGated : IsGated (open_target host)
  unfolding open_target ensure_mutation
  open_target-IsGated args mode h m k = ground arith

  pub clean-IsGated : IsGated (clean host)
  unfolding clean ensure_mutation
  clean-IsGated args mode h m k = ground arith

  pub sleep-IsGated : IsGated (λ args mode. sleep host args)
  unfolding sleep
  sleep-IsGated args mode h m k = ground arith
