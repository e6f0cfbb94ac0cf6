-- ===== src/Health/Manager/Reconfigure.antt =====
-- Hot reload of the servers under check (pkg/health/manager.go, Reconfigure).
use mathlib.Core.Option.{or_else}
use open_gslb.Common.{Text, Option, none, some, List, [], ◌∷◌, ◌==◌, text_eq, if◌then◌else◌}
use open_gslb.Common.Table.{Table}
use open_gslb.Common.Keys.{server_key}
use open_gslb.Health.Manager.{
  apply_defaults, ServerConfig, ManagerConfig, ServerEntry, Manager, fresh_entry, config_changed,
}

-- What a reload leaves of the old servers: those that the new list names.
abbrev kept : Option ServerConfig → Option ServerEntry → Option ServerEntry
kept none e = none
kept (some _) e = e

-- What a reload makes of the entry under one key, from the new configuration and the old entry: a
-- server that is not wanted goes, a new one starts with a fresh tracker, and one that stays keeps
-- its health, and its old configuration if that needs no change.
abbrev pub reloaded :
    ManagerConfig → Text → Option ServerConfig → Option ServerEntry → Option ServerEntry
reloaded m key none old = none
reloaded m key (some cfg) none = some (fresh_entry m key cfg)
reloaded m key (some cfg) (some entry) =
    some (if config_changed entry.config cfg then record entry { config = cfg } else entry)

abbrev over : ManagerConfig → Text → Option ServerConfig → Option ServerEntry → Option ServerEntry
over m key none old = old
over m key (some cfg) old = reloaded m key (some cfg) old

-- The last of the new configurations for a key, its defaults filled in.
unfoldable pub latest : ManagerConfig → Text → List ServerConfig → Option ServerConfig
latest m j [] = none
latest m j (cfg ∷ cfgs) =
    or_else (latest m j cfgs)
      (if server_key cfg.address cfg.port == j then some (apply_defaults m cfg) else none)
