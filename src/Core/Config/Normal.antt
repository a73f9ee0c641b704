-- ===== src/Core/Config/Normal.antt =====
-- What `load_config` of crates/folk-core/src/lib.rs reads can always be saved.
use folk_around.Prelude.{
  ℕ, false, List, [], ◌∷◌, Option, none, some, ◌≡◌, ◌≢◌, arith, All, Bool-cases, Option-cases, inl,
  inr,
}
use folk_around.Text.{Text, codes, is_empty, trim, lines, split_once, text_eq}
use folk_around.Text.Number.{u16_bound, parse_unsigned, IsBelow, parse_unsigned-IsBelow}
use folk_around.Text.Pieces.{trim-IsTrimmed, trim-All, lines-All, lines-one_line, split_once-All}
use folk_around.Core.Config.{
  AppConfig, default_config, set_key, apply_pair, apply_line, apply_lines, parse_config,
  render_config,
}
use folk_around.Core.Config.Value.{IsValue, IsGiven, IsPort, IsSavable}
use folk_around.Core.Config.RoundTrip.{parse_config-render_config}

IsBelow-IsPort : (port : Option ℕ) → IsBelow u16_bound port → IsPort port
IsBelow-IsPort none h = tt
IsBelow-IsPort (some n) h = h

ne_of_is_empty : (s : Text) → is_empty s ≡ false → s ≢ []
unfolding is_empty
ne_of_is_empty [] h = ground (arith, h)
ne_of_is_empty (c ∷ cs) h = ground arith

module _ (P : ℕ → Type 0) where
  -- Each text of a configuration is a value of such characters, and its port is a `u16`.
  abbrev pub Holds : AppConfig → Type 0
  Holds config =
      IsSavable config
      × IsGiven (All P) config.signal_url
      × IsGiven (All P) config.room
      × IsGiven (All P) config.mode

  set_key-Holds :
      (config : AppConfig) (key value : Text)
      → IsValue value
      → All P value
      → Holds config
      → Holds (set_key config key value)
  unfolding set_key
  set_key-Holds config key value v p (s, u, r, m) =
      let port =
        IsBelow-IsPort (parse_unsigned u16_bound value)
          (parse_unsigned-IsBelow u16_bound value (omega arith)) in
      elim (Bool-cases (text_eq key (codes "signal_url"))) [
        | inl e ↦ rw e (
          record { signal_url = v; room = s.room; http_port = s.http_port; mode = s.mode },
          p,
          r,
          m,
        )
        | inr e ↦ elim (Bool-cases (text_eq key (codes "room"))) [
          | inl f ↦
              rw (e, f)
                (
                  record {
                    signal_url = s.signal_url;
                    room = v;
                    http_port = s.http_port;
                    mode = s.mode;
                  },
                  u,
                  p,
                  m,
                )
          | inr f ↦ elim (Bool-cases (text_eq key (codes "http_port"))) [
            | inl g ↦
                rw (e, f, g)
                  (
                    record {
                      signal_url = s.signal_url;
                      room = s.room;
                      http_port = port;
                      mode = s.mode;
                    },
                    u,
                    r,
                    m,
                  )
            | inr g ↦ elim (Bool-cases (text_eq key (codes "mode"))) [
              | inl i ↦
                  rw (e, f, g, i)
                    (
                      record {
                        signal_url = s.signal_url;
                        room = s.room;
                        http_port = s.http_port;
                        mode = v;
                      },
                      u,
                      r,
                      p,
                    )
              | inr i ↦ rw (e, f, g, i) (s, u, r, m)
            ]
          ]
        ]
      ]

  apply_pair-Holds :
      (config : AppConfig) (line : Text)
      → All (λ c. c ≢ b'\n') line
      → All P line
      → Holds config
      → Holds (apply_pair config (split_once b'=' line))
  unfolding apply_pair
  apply_pair-Holds config line one p h = elim (Option-cases (split_once b'=' line)) [
    | inl e ↦ rw e h
    | inr ((key, value), e) ↦ elim (Bool-cases (is_empty (trim value))) [
      | inl f ↦ rw (e, f) h
      | inr f ↦
          rw (e, f)
            (set_key-Holds config (trim key) (trim value)
              (record {
                trimmed = trim-IsTrimmed value;
                not_empty = ne_of_is_empty (trim value) f;
                one_line =
                    trim-All (λ c. c ≢ b'\n') value
                      (split_once-All (λ c. c ≢ b'\n') b'=' line key value one e);
              })
              (trim-All P value (split_once-All P b'=' line key value p e)) h)
    ]
  ]

  apply_line-Holds :
      (config : AppConfig) (line : Text)
      → All (λ c. c ≢ b'\n') line
      → All P line
      → Holds config
      → Holds (apply_line config line)
  unfolding apply_line
  apply_line-Holds config line one p h = ground (
    arith,
    h,
    apply_pair-Holds config (trim line) (trim-All (λ c. c ≢ b'\n') line one) (trim-All P line p) h,
  )

  apply_lines-Holds :
      (config : AppConfig) (all_lines : List Text)
      → All (λ line. All (λ c. c ≢ b'\n') line) all_lines
      → All (λ line. All P line) all_lines
      → Holds config
      → Holds (apply_lines config all_lines)
  unfolding apply_lines
  apply_lines-Holds config [] _ _ h = h
  apply_lines-Holds config (line ∷ rest) (one, ones) (p, ps) h =
      apply_lines-Holds (apply_line config line) rest ones ps (apply_line-Holds config line one p h)

  pub parse_config-Holds : (contents : Text) → All P contents → Holds (parse_config contents)
  unfolding parse_config
  parse_config-Holds contents p =
      apply_lines-Holds default_config (lines contents) (lines-one_line contents)
        (lines-All P contents p)
        (record { signal_url = tt; room = tt; http_port = tt; mode = tt }, tt, tt, tt)

All_any : (s : Text) → All {0, 0} (λ _. Unit) s
All_any [] = tt
All_any (c ∷ cs) = (tt, All_any cs)

-- Whatever text stands in the file, the configuration that is read from it is read again from the
-- text that it is saved as.
pub parse_config_again :
    (contents : Text) → parse_config (render_config (parse_config contents)) ≡ parse_config contents
parse_config_again contents =
    parse_config-render_config (parse_config contents)
      (parse_config-Holds (λ _. Unit) contents (All_any contents)).0
