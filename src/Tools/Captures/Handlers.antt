-- ===== src/Tools/Captures/Handlers.antt =====
-- Each handler of crates/folk-computer-use/src/lib.rs and its captures.
use folk_around.Prelude.{arith}
use folk_around.Tools.Host.{Host, ensure_mutation}
use folk_around.Tools.Args.{ensure_semantic_args, interaction_mode_arg}
use folk_around.Tools.Shell.{shell, list_apps, spawn_command, run_command, run_shell}
use folk_around.Tools.Capture.{
  screenshot_reference, image_result, ensure_screenshot_reference_supported, screen_capture, image,
  see,
}
use folk_around.Tools.Desktop.{
  clipboard_read, clipboard_write, doctor, list_screens, permissions, ui_snapshot, click, set_value,
  type_text, press, paste, hotkey, scroll, swipe, drag, execute_move, move_pointer, perform_action,
  open_target, clean, sleep,
}
use folk_around.Tools.Windows.{
  ensure_safe_focus_or_full, change_window, change_app, window, app, menu, window_bounds,
}
use folk_around.Tools.Captures.{Owns}

module _ (host : Host) where
  pub shell-Owns : Owns host (shell host)
  unfolding shell run_command run_shell
  shell-Owns args mode h k = ground arith

  pub list_apps-Owns : Owns host (λ args. list_apps host)
  unfolding list_apps run_command run_shell
  list_apps-Owns args mode h k = ground arith

  pub spawn_command-Owns : Owns host (spawn_command host)
  unfolding spawn_command run_command
  spawn_command-Owns args mode h k = ground arith

  pub image-Owns : Owns host (image host)
  unfolding image ensure_screenshot_reference_supported image_result screenshot_reference
  image-Owns args mode h k = ground arith

  pub see-Owns : Owns host (see host)
  unfolding see ensure_screenshot_reference_supported image_result screenshot_reference
  see-Owns args mode h k = ground arith

  pub list_screens-Owns : Owns host (λ args. list_screens host)
  unfolding list_screens
  list_screens-Owns args mode h k = ground arith

  pub clipboard_read-Owns : Owns host (λ args mode. clipboard_read host)
  unfolding clipboard_read
  clipboard_read-Owns args mode h k = ground arith

  pub clipboard_write-Owns : Owns host (clipboard_write host)
  unfolding clipboard_write ensure_mutation
  clipboard_write-Owns args mode h k = ground arith

  pub permissions-Owns : Owns host (permissions host)
  unfolding permissions ensure_mutation
  permissions-Owns args mode h k = ground arith

  pub doctor-Owns : Owns host (λ args mode. doctor host)
  unfolding doctor
  doctor-Owns args mode h k = ground arith

  pub screen_capture-Owns : Owns host (screen_capture host)
  unfolding screen_capture ensure_screenshot_reference_supported image_result screenshot_reference
  screen_capture-Owns args mode h k = ground arith

  pub ui_snapshot-Owns : Owns host (λ args. ui_snapshot host)
  unfolding ui_snapshot
  ui_snapshot-Owns args mode h k = ground arith

  pub click-Owns : Owns host (click host)
  unfolding click ensure_mutation ensure_semantic_args interaction_mode_arg
  click-Owns args mode h k = ground arith

  pub press-Owns : Owns host (press host)
  unfolding press ensure_mutation
  press-Owns args mode h k = ground arith

  pub type_text-Owns : Owns host (type_text host)
  unfolding type_text ensure_mutation
  type_text-Owns args mode h k = ground arith

  pub paste-Owns : Owns host (paste host)
  unfolding paste ensure_mutation
  paste-Owns args mode h k = ground arith

  pub hotkey-Owns : Owns host (hotkey host)
  unfolding hotkey ensure_mutation
  hotkey-Owns args mode h k = ground arith

  pub scroll-Owns : Owns host (scroll host)
  unfolding scroll ensure_mutation
  scroll-Owns args mode h k = ground arith

  pub swipe-Owns : Owns host (swipe host)
  unfolding swipe ensure_mutation
  swipe-Owns args mode h k = ground arith

  pub drag-Owns : Owns host (drag host)
  unfolding drag ensure_mutation
  drag-Owns args mode h k = ground arith

  pub move_pointer-Owns : Owns host (move_pointer host)
  unfolding move_pointer execute_move ensure_mutation
  move_pointer-Owns args mode h k = ground arith

  pub set_value-Owns : Owns host (set_value host)
  unfolding set_value ensure_mutation ensure_semantic_args interaction_mode_arg
  set_value-Owns args mode h k = ground arith

  pub perform_action-Owns : Owns host (perform_action host)
  unfolding perform_action ensure_mutation
  perform_action-Owns args mode h k = ground arith

  pub window-Owns : Owns host (window host)
  unfolding window change_window ensure_safe_focus_or_full ensure_mutation window_bounds
  window-Owns args mode h k = ground arith

  pub app-Owns : Owns host (app host)
  unfolding app change_app list_apps ensure_safe_focus_or_full ensure_mutation run_command run_shell
  app-Owns args mode h k = ground arith

  pub open_target-Owns : Owns host (open_target host)
  unfolding open_target ensure_mutation
  open_target-Owns args mode h k = ground arith

  pub menu-Owns : Owns host (menu host)
  unfolding menu ensure_mutation
  menu-Owns args mode h k = ground arith

  pub sleep-Owns : Owns host (λ args mode. sleep host args)
  unfolding sleep
  sleep-Owns args mode h k = ground arith

  pub clean-Owns : Owns host (clean host)
  unfolding clean ensure_mutation
  clean-Owns args mode h k = ground arith
