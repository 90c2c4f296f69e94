-- ===== src/Command/Examples.antt =====
-- The configuration from the flags and from a file, and its saving, with names that are told apart.
use Prim.Native.String.{String}
use text.Mathlib.Text.{◌==◌ as str_eq}
use btp2_bsc.Base.{
  ℕ, ◌≡◌, refl, none, some, if◌then◌else◌, Result, ok, err, panics, config_not_opened, external,
}
use btp2_bsc.Command.{
  RelayConfig, Config, set_base_dir, set_log_filename, from_file, chain_by_flag, from_flags,
  resolve_config, save_config,
}

abbrev empty : Config ℕ ℕ
empty = record {
  file_path = "";
  relay = record { base_dir = ""; log_filename = none; rest = 0 };
  src = 0;
  dst = 0;
}

abbrev decoded_relay : RelayConfig ℕ
decoded_relay = record { base_dir = "data"; log_filename = some "relay.log"; rest = 1 }

abbrev against : Config ℕ ℕ → String → String
against cfg path = if str_eq cfg.file_path "" then path else "resolved"

-- The value of a setting is a function of its name.
abbrev flags_only : String → String
flags_only key = if str_eq key "base_dir" then "dir" else ""

abbrev src_flag : String → Result String
src_flag name = if str_eq name "src_config" then ok "src.json" else ok ""

by_flags :
    resolve_config against
      (λ (vc : String → String). vc)
      (λ path. path)
      (λ path. ok 0)
      (λ vc (f : ℕ). ok vc)
      (λ vc cfg. ok cfg)
      (λ vc. ok decoded_relay)
      src_flag
      (λ path. ok (some 7))
      flags_only
      empty
    ≡ ok (record {
      file_path = "";
      relay = record decoded_relay { base_dir = "dir" };
      src = 7;
      dst = 0;
    })
unfolding resolve_config from_flags chain_by_flag set_base_dir
by_flags = refl

abbrev file_named : String → String
file_named key = if str_eq key "config" then "relay.json" else ""

no_file :
    resolve_config against
      (λ (vc : String → String). vc)
      (λ path. path)
      (λ path. err (external 1))
      (λ vc (f : ℕ). ok vc)
      (λ vc cfg. ok cfg)
      (λ vc. ok decoded_relay)
      src_flag
      (λ path. ok (some 7))
      file_named
      empty
    ≡ err config_not_opened
unfolding resolve_config from_file
no_file = refl

abbrev log_named : String → String
log_named key = if str_eq key "log_writer.filename" then "relay.log" else ""

-- A log file is named, but the configuration has no log writer.
no_log_writer :
    resolve_config against
      (λ (vc : String → String). vc)
      (λ path. path)
      (λ path. ok 0)
      (λ vc (f : ℕ). ok vc)
      (λ vc cfg. ok cfg)
      (λ vc. ok (record decoded_relay { log_filename = none }))
      src_flag
      (λ path. ok (some 7))
      log_named
      empty
    ≡ panics
unfolding resolve_config from_flags chain_by_flag set_log_filename
no_log_writer = refl

saved : save_config against (λ path. path) (λ path cfg. ok tt) empty "out.json" ≡ (
  record {
    file_path = "out.json";
    relay = record { base_dir = "resolved"; log_filename = none; rest = 0 };
    src = 0;
    dst = 0;
  },
  ok tt,
)
unfolding save_config set_base_dir
saved = refl
