-- ===== src/Server/Static/Pages.antt =====
-- What the static handlers of pkg/server/static/static.go answer.
use Prim.Native.String.{[], ◌∷◌}
use wireguard_babeld_igp.Base.{
  String, true, some, ltb, string_key, ◌≡◌, refl, arith, ap, string_key,
}
use wireguard_babeld_igp.Base.{[], ◌∷◌}
use wireguard_babeld_igp.Data.Text.Scan.{strip_prefix}
use wireguard_babeld_igp.Store.Interface.{Store}
use wireguard_babeld_igp.Server.Static.{
  len, trim_prefix, Stat, LocalFileSystem, local_exists, from_files, file_server, serve,
}

local_exists-prefix :
    (stat : String → Stat) (join : String → String → String) (l : LocalFileSystem)
    (prefix path : String)
    → local_exists stat join l prefix path ≡ true
    → ltb (len (trim_prefix prefix path)) (len path) ≡ true
unfolding local_exists
local_exists-prefix stat join l prefix path h = ground arith

file_server_under :
    (prefix path : String)
    → ltb (len (trim_prefix prefix path)) (len path) ≡ true
    → file_server prefix path ≡ from_files (trim_prefix prefix path)
unfolding file_server trim_prefix strip_prefix
file_server_under [] path h = refl
file_server_under (c ∷ prefix) path h = rw h refl

-- What a local file system says is there is asked of the file server by its path without the prefix,
-- and so is not answered as missing.
pub serve-local_exists :
    (stat : String → Stat) (join : String → String → String) (l : LocalFileSystem)
    (prefix path : String)
    → local_exists stat join l prefix path ≡ true
    → serve prefix (local_exists stat join l) path ≡ some (from_files (trim_prefix prefix path))
unfolding serve
serve-local_exists stat join l prefix path h =
    rw h (ap some (file_server_under prefix path (local_exists-prefix stat join l prefix path h)))
