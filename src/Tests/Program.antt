-- ===== src/Tests/Program.antt =====
-- The program, its configuration and the semantic adapter at concrete inputs.
use folk_around.Prelude.{◌++◌, All-of_all, ltb, [], none, some, ◌≡◌, refl, true, arith, inl}
use folk_around.Text.{Text, codes, lines, trim, split_once, is_whitespace, text_eq}
use folk_around.Effect.{ok, Result}
use folk_around.Core.Disk.{
  Disk, syscall, get_node, put_node, create_dir_all, set_permissions, write_file,
}
use folk_around.Core.Credential.{ConfigError, config_dir, ensure_private_dir}
use folk_around.Core.Store.{config_path, save_config, load_config, load_config-save_config}
use folk_around.Text.Path.{join, ends_with_slash}
use folk_around.Text.Utf8.Scalar.{IsScalar, IsText}
use folk_around.Text.Number.{decimal, parse_unsigned}
use folk_around.Core.Config.{
  AppConfig, render_field, set_key, apply_pair, apply_line, apply_lines, parse_config,
  render_config,
}
use folk_around.Core.Config.Normal.{parse_config_again}
use folk_around.Core.Config.Value.{IsSavable}
use folk_around.Core.Config.RoundTrip.{parse_config-render_config}
use folk_around.Cli.{Cli, default_cli, parse_args_from}
use folk_around.Cli.Arguments.{render_args, parse_args_from-render_args}

abbrev home : AppConfig
home = record {
  signal_url = none;
  room = some (codes "den");
  http_port = some 8080;
  mode = some (codes "limited");
}

home-IsSavable : IsSavable home
unfolding codes is_whitespace
home-IsSavable = record {
  signal_url = tt;
  room = record {
    trimmed = record { starts = refl; ends = refl };
    not_empty = ground arith;
    one_line = ground arith;
  };
  http_port = omega arith;
  mode = record {
    trimmed = record { starts = refl; ends = refl };
    not_empty = ground arith;
    one_line = ground arith;
  };
}

parse_config-render_config_example : parse_config (render_config home) ≡ home
parse_config-render_config_example = parse_config-render_config home home-IsSavable

abbrev no_disk : Disk
no_disk = record { nodes = []; faults = [] }

abbrev saved_home : Result {0, 0} Unit ConfigError × Disk
saved_home = save_config (some (codes "/h")) home no_disk

home-IsText : IsText (render_config home)
unfolding codes render_config render_field decimal
home-IsText =
    All-of_all IsScalar (λ c. ltb c 128) (render_config home) (λ c e. inl (ground (arith, e))) refl

load_config-save_config_example : (load_config (some (codes "/h")) saved_home.1).0 ≡ ok home
unfolding codes join ends_with_slash config_dir config_path save_config ensure_private_dir
    create_dir_all set_permissions syscall get_node put_node write_file text_eq
load_config-save_config_example =
    load_config-save_config (codes "/h") home no_disk saved_home.1 home-IsSavable home-IsText refl
      refl

-- A file with white space, an unknown key, a port that is none and the same key twice.
abbrev untidy : Text
untidy = codes " room =  den \r\n\nhttp_port=80800\nroom2=x\n" ++ codes "mode=full\nmode = sandbox "

parse_untidy : parse_config untidy ≡ record {
  signal_url = none;
  room = some (codes "den");
  http_port = none;
  mode = some (codes "sandbox");
}
unfolding codes parse_config lines apply_lines apply_line trim apply_pair split_once set_key text_eq
    parse_unsigned
parse_untidy = refl

abbrev quiet : Cli
quiet = record default_cli { stdio_requested = true; http_port = some 9000 }

parse_config_again_example :
    parse_config (render_config (parse_config untidy)) ≡ parse_config untidy
parse_config_again_example = parse_config_again untidy

parse_args_from-render_args_example : parse_args_from (render_args quiet) ≡ quiet
parse_args_from-render_args_example = parse_args_from-render_args quiet (omega arith)
