-- ===== src/Config/Paths.antt =====
-- The paths of a configuration, resolved.
use wireguard_babeld_igp.Base.{◌≡◌, String, Bool, Option, true, arith, string_key}
use wireguard_babeld_igp.Errors.{Error, ok}
use wireguard_babeld_igp.Config.{ServerConfig, resolve_log, resolve_relative_paths}

module _ (is_abs : String → Bool) (join : String → String → String) (base : String)
    (join_abs : (path : String) → is_abs (join base path) ≡ true) where
  resolve_log_twice :
      (file : String)
      → resolve_log is_abs join base (resolve_log is_abs join base file)
        ≡ resolve_log is_abs join base file
  unfolding resolve_log
  resolve_log_twice file = ground (arith, join_abs file)

  -- Where join always gives an absolute path, a configuration whose paths have been resolved resolves
  -- to itself, and no directory is made for it.
  pub resolve_twice :
      (mkdir mkdir' : String → Option Error) (c d : ServerConfig)
      → resolve_relative_paths is_abs join mkdir base c ≡ ok d
      → resolve_relative_paths is_abs join mkdir' base d ≡ ok d
  unfolding resolve_relative_paths
  resolve_twice mkdir mkdir' c d h =
      ground (arith, resolve_log_twice c.log.file, join_abs c.storage.sqlite_path)
