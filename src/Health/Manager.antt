-- ===== src/Health/Manager.antt =====
-- pkg/health/manager.go: the servers under check. A check loop is a goroutine that calls
-- `perform_check`; here each call of it is one step, whenever the ticker lets it run, and the result
-- of `checker.Check` is its argument. `started` lists the servers for which a loop was started, and
-- `notified` what `onChange` was called with; the mutex makes each method one step.
pub mod Reconfigure
use open_gslb.Common.{
  ℕ, suc, ◌+◌, Text, Option, none, some, Bool, true, false, not, ◌||◌, List, [], ◌∷◌, ◌++◌, ◌==◌,
  nat_eq, text_eq, length, if◌then◌else◌,
}
use open_gslb.Common.Table.{Table, lookup, insert, erase}
use open_gslb.Common.Keys.{server_key}
use open_gslb.Health.{
  Status, CheckResult, ServerHealth, Snapshot, new_server_health, is_healthy, record_result,
  snapshot,
}

pub record ServerConfig : Type 0 where
  pub address : Text
  pub port : ℕ
  pub path : Text
  pub scheme : Text
  pub host : Text
  pub interval : ℕ
  pub timeout : ℕ

pub record ManagerConfig : Type 0 where
  pub fail_threshold : ℕ
  pub pass_threshold : ℕ
  pub default_interval : ℕ
  pub default_timeout : ℕ

abbrev pub default_manager_config : ManagerConfig
default_manager_config = record {
  fail_threshold = 3;
  pass_threshold = 2;
  default_interval = 30_000_000_000;
  default_timeout = 5_000_000_000;
}

pub record ServerEntry : Type 0 where
  pub config : ServerConfig
  pub health : ServerHealth

pub record Manager : Type 0 where
  pub config : ManagerConfig
  pub servers : Table Text ServerEntry
  pub running : Bool
  pub started : List Text
  pub notified : List (Text × Status)

pub data Error : Type 0 where
  already_registered not_found already_running : Error

unfoldable pub new_manager : ManagerConfig → Manager
new_manager config = record {
  config = config;
  servers = [];
  running = false;
  started = [];
  notified = [];
}

-- `cfg.Interval == 0` and `cfg.Timeout == 0`
unfoldable pub apply_defaults : ManagerConfig → ServerConfig → ServerConfig
apply_defaults m cfg = record cfg {
  interval = if cfg.interval == 0 then m.default_interval else cfg.interval;
  timeout = if cfg.timeout == 0 then m.default_timeout else cfg.timeout;
}

unfoldable pub fresh_entry : ManagerConfig → Text → ServerConfig → ServerEntry
fresh_entry m key cfg = record {
  config = cfg;
  health = new_server_health key m.fail_threshold m.pass_threshold;
}

-- `if m.running { go m.checkLoop(entry) }`
abbrev start_loop : Bool → Text → List Text → List Text
start_loop running key started = if running then started ++ key ∷ [] else started

unfoldable pub add_server : Manager → ServerConfig → Manager × Option Error
unfolding apply_defaults fresh_entry
add_server m cfg =
    let key = server_key cfg.address cfg.port in
    elim (lookup key m.servers) [
      | some _ ↦ (m, some already_registered)
      | none ↦ (
        record m {
          servers = insert key (fresh_entry m.config key (apply_defaults m.config cfg)) m.servers;
          started = start_loop m.running key m.started;
        },
        none,
      )
    ]

unfoldable pub remove_server : Manager → Text → ℕ → Manager × Option Error
remove_server m address port =
    let key = server_key address port in
    elim (lookup key m.servers) [
      | none ↦ (m, some not_found)
      | some _ ↦ (record m { servers = erase key m.servers }, none)
    ]

abbrev keys : Table Text ServerEntry → List Text
keys [] = []
keys ((k, _) ∷ m) = k ∷ keys m

unfoldable pub start : Manager → Manager × Option Error
start m =
    if m.running
    then (m, some already_running)
    else (record m { running = true; started = m.started ++ keys m.servers }, none)

-- Waiting for the loops to end is left out: they only perform checks.
unfoldable pub stop : Manager → Manager
stop m = if m.running then record m { running = false } else m

-- A check of the server under `key` that ends with `result`.
unfoldable pub perform_check : Manager → Text → CheckResult → Manager
perform_check m key result = elim (lookup key m.servers) [
  | none ↦ m
  | some entry ↦
      let (health, changed) = record_result entry.health result in
      record m {
        servers = insert key (record entry { health = health }) m.servers;
        notified =
            if changed then m.notified ++ (health.address, health.status) ∷ [] else m.notified;
      }
]

unfoldable pub server_is_healthy : Manager → Text → ℕ → Bool
unfolding is_healthy
server_is_healthy m address port = elim (lookup (server_key address port) m.servers) [
  | none ↦ false
  | some entry ↦ is_healthy entry.health
]

healthy_addresses : Table Text ServerEntry → List Text
unfolding is_healthy
healthy_addresses [] = []
healthy_addresses ((_, entry) ∷ m) =
    let rest = healthy_addresses m in
    if is_healthy entry.health then entry.health.address ∷ rest else rest

unfoldable pub get_healthy_servers : Manager → List Text
unfolding healthy_addresses
get_healthy_servers m = healthy_addresses m.servers

unfoldable pub get_status : Manager → Text → ℕ → Option Snapshot
unfolding snapshot
get_status m address port = elim (lookup (server_key address port) m.servers) [
  | none ↦ none
  | some entry ↦ some (snapshot entry.health)
]

unfoldable pub get_all_status : Table Text ServerEntry → List Snapshot
unfolding snapshot
get_all_status [] = []
get_all_status ((_, entry) ∷ m) = snapshot entry.health ∷ get_all_status m

unfoldable pub server_count : Manager → ℕ
server_count m = length m.servers

unfoldable pub config_changed : ServerConfig → ServerConfig → Bool
config_changed old new =
    not (old.path == new.path)
    || not (old.scheme == new.scheme)
    || not (old.host == new.host)
    || not (old.interval == new.interval)
    || not (old.timeout == new.timeout)

-- `newServerMap`
unfoldable pub wanted :
    ManagerConfig → Table Text ServerConfig → List ServerConfig → Table Text ServerConfig
unfolding apply_defaults
wanted m acc [] = acc
wanted m acc (cfg ∷ cfgs) =
    wanted m (insert (server_key cfg.address cfg.port) (apply_defaults m cfg) acc) cfgs

pub record Counts : Type 0 where
  pub added : ℕ
  pub removed : ℕ
  pub updated : ℕ

-- The keys to remove; the loop that erases them counts each.
unfoldable pub unwanted : Table Text ServerConfig → Table Text ServerEntry → List Text
unwanted new [] = []
unwanted new ((k, _) ∷ m) =
    let rest = unwanted new m in elim (lookup k new) [ none ↦ k ∷ rest | some _ ↦ rest ]

unfoldable pub remove_all : List Text → Table Text ServerEntry → Table Text ServerEntry
remove_all [] m = m
remove_all (k ∷ ks) m = remove_all ks (erase k m)

-- One round of the loop over `newServerMap`.
unfoldable pub upsert : Manager × Counts → Text → ServerConfig → Manager × Counts
unfolding config_changed fresh_entry
upsert (m, c) key cfg = elim (lookup key m.servers) [
  | some entry ↦
      if config_changed entry.config cfg
      then (
        record m {
          servers = insert key (record entry { config = cfg }) m.servers;
          started = start_loop m.running key m.started;
        },
        record c { updated = c.updated + 1 },
      )
      else (m, c)
  | none ↦ (
    record m {
      servers = insert key (fresh_entry m.config key cfg) m.servers;
      started = start_loop m.running key m.started;
    },
    record c { added = c.added + 1 },
  )
]

unfoldable pub upsert_all : Manager × Counts → Table Text ServerConfig → Manager × Counts
upsert_all s [] = s
upsert_all s ((k, cfg) ∷ new) = upsert_all (upsert s k cfg) new

unfoldable pub reconfigure : Manager → List ServerConfig → Manager × Counts
reconfigure m cfgs =
    let new = wanted m.config [] cfgs in
    let gone = unwanted new m.servers in
    upsert_all
      (
        record m { servers = remove_all gone m.servers },
        record { added = 0; removed = length gone; updated = 0 },
      )
      new
