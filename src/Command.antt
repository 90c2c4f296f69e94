-- ===== src/Command.antt =====
-- cmd/relay/main.go: the relay's configuration before a command runs, and `save`. Viper, the flags, the
-- files, JSON and `ResolveRelative` of the relay's library are arguments.
pub mod Examples
use Prim.Native.String.{String}
use text.Mathlib.Text.{◌==◌ as str_eq}
use btp2_bsc.Base.{
  Option, none, some, Bool, not, if◌then◌else◌, Result, ok, err, panics, ◌>>=◌, config_not_opened,
  config_not_read, config_not_decoded,
}

-- What is read and set of the relay's configuration; the log writer is a pointer.
pub record RelayConfig (Rest : Type 0) : Type 0 where
  pub base_dir : String
  pub log_filename : Option String
  pub rest : Rest

pub record Config (Rest Raw : Type 0) : Type 0 where
  pub file_path : String
  pub relay : RelayConfig Rest
  pub src : Raw
  pub dst : Raw

module _ {Rest Raw : Type 0} (resolve_relative : Config Rest Raw → String → String) where
  -- `cfg.BaseDir = cfg.ResolveRelative(dir)`
  unfoldable pub set_base_dir : Config Rest Raw → String → Config Rest Raw
  set_base_dir cfg dir = record cfg {
    relay = record cfg.relay { base_dir = resolve_relative cfg dir };
  }

  -- `cfg.LogWriter.Filename = cfg.ResolveRelative(name)`, through a pointer that may be nil.
  unfoldable pub set_log_filename : Config Rest Raw → String → Result (Config Rest Raw)
  set_log_filename cfg name = elim cfg.relay.log_filename [
    | none ↦ panics
    | some _ ↦ ok (record cfg {
      relay = record cfg.relay { log_filename = some (resolve_relative cfg name) };
    })
  ]

  module _ {Viper File : Type 0} (get_string : Viper → String → String) (abs : String → String)
      (open_file : String → Result File) (read_config : Viper → File → Result Viper)
      (unmarshal_config : Viper → Config Rest Raw → Result (Config Rest Raw))
      (unmarshal_relay : Viper → Result (RelayConfig Rest)) (flag : String → Result String)
      (read_json : String → Result (Option Raw)) where
    -- With a file, all comes from it.
    unfoldable pub from_file : Viper → Config Rest Raw → Result (Config Rest Raw)
    from_file vc cfg = elim (open_file cfg.file_path) [
      | err e ↦ err config_not_opened
      | panics ↦ panics
      | ok f ↦ elim (read_config vc f) [
        | err e ↦ err config_not_read
        | panics ↦ panics
        | ok vc' ↦ elim (unmarshal_config vc' (record cfg { file_path = abs cfg.file_path })) [
          | err e ↦ err config_not_decoded
          | panics ↦ panics
          | ok read ↦ ok read
        ]
      ]
    ]

    -- A chain's configuration by the file that a flag names; an empty or unknown flag changes nothing.
    unfoldable pub chain_by_flag : String → Raw → Result Raw
    chain_by_flag name before = elim (flag name) [
      | err e ↦ ok before
      | panics ↦ panics
      | ok path ↦
          if not (str_eq path "")
          then (read_json path >>= λ parsed. ok (elim parsed [ none ↦ before | some raw ↦ raw ]))
          else ok before
    ]

    unfoldable pub from_flags : Viper → Config Rest Raw → Result (Config Rest Raw)
    unfolding chain_by_flag
    from_flags vc cfg = elim (unmarshal_relay vc) [
      | err e ↦ err config_not_decoded
      | panics ↦ panics
      | ok relay ↦ chain_by_flag "src_config" cfg.src >>= λ src.
          chain_by_flag "dst_config" cfg.dst >>= λ dst.
          ok (record cfg { relay = relay; src = src; dst = dst })
    ]

    -- `PersistentPreRunE`; the two names are read before the file is.
    unfoldable pub resolve_config : Viper → Config Rest Raw → Result (Config Rest Raw)
    unfolding from_file from_flags set_base_dir set_log_filename
    resolve_config vc cfg =
        let base_dir = get_string vc "base_dir" in
        let logfile = get_string vc "log_writer.filename" in
        let named = record cfg { file_path = get_string vc "config" } in
        (if not (str_eq named.file_path "") then from_file vc named else from_flags vc named)
        >>= λ read.
            let based = if not (str_eq base_dir "") then set_base_dir read base_dir else read in
            if not (str_eq logfile "") then set_log_filename based logfile else ok based

  -- `save`, which writes what it resolves against the new path; the configuration is changed even
  -- where the file cannot be written.
  unfoldable pub save_config :
      (String → String)
      → (String → Config Rest Raw → Result (Unit {0}))
      → Config Rest Raw
      → String
      → Config Rest Raw × Result (Unit {0})
  unfolding set_base_dir
  save_config abs save_file cfg path =
      let based = set_base_dir (record cfg { file_path = abs path }) cfg.relay.base_dir in
      let resolved = record based {
        relay = record based.relay {
          log_filename = elim based.relay.log_filename [
            | none ↦ none
            | some name ↦ some (resolve_relative based name)
          ];
        };
      } in
      (resolved, save_file path resolved)
