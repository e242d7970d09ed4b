-- ===== src/Lists/Config.antt =====
-- pkg/route/list.go: the settings of the lists, `resetRefreshInterval` and `SaveContractConfig`. What
-- the book of settings answers is an argument. Durations are in nanoseconds.
pub mod InStep
pub mod Unsaved
use text.Mathlib.Text.{◌==◌ as ◌≟◌}
use Prim.Native.String.{String}
use yuhaiin.Prelude.{
  ℕ, ◌+◌, ◌*◌, Bool, true, false, not, ◌||◌, Option, none, some, List, [], ◌∷◌, ◌++◌, ◌==◌, ltb,
  if◌then◌else◌, Map, lookup, assign,
}
use yuhaiin.Lists.Entries.{string_discrete, RouteListDetail}

pub record RouteListSettings : Type 0 where
  pub refresh_interval : ℕ
  pub last_refresh_time : ℕ
  pub error : String
  pub host_index_disk : Bool
  pub maxminddb_download_url : String
  pub maxminddb_error : String

-- What `SaveContractConfig` reads of its request.
pub record ListConfig : Type 0 where
  pub host_index_disk : Bool
  pub maxminddb_download_url : String

abbrev pub minute_ns : ℕ
minute_ns = 60000000000

-- `uint64(math.MaxInt64/int64(time.Minute))`
abbrev pub max_minutes : ℕ
max_minutes = 153722867

-- The timer for an interval in minutes, `none` where there is none.
unfoldable pub interval_of : ℕ → Option ℕ
interval_of minute =
    if minute == 0 then none else if ltb max_minutes minute then none else some (minute_ns * minute)

-- The lists' timer and kind of index, the settings in their book, and how often the index was built
-- again.
pub record Service : Type 0 where
  pub ticker : Option ℕ
  pub host_trie_disk : Bool
  pub stored : RouteListSettings
  pub rebuilt : ℕ

unfoldable pub reset_refresh_interval : ℕ → Service → Service
unfolding interval_of
reset_refresh_interval minute s = record s { ticker = interval_of minute }

-- The book of settings, where there is one: whether it can be read, and whether it can be written.
pub record Book : Type 0 where
  pub lists : Bool
  pub saves : Bool

changed_settings : RouteListSettings → ListConfig → ℕ → RouteListSettings
changed_settings settings req interval =
    if settings.maxminddb_download_url ≟ req.maxminddb_download_url
    then record settings {
      refresh_interval = interval;
      host_index_disk = req.host_index_disk;
      error = "";
    }
    else record settings {
      refresh_interval = interval;
      host_index_disk = req.host_index_disk;
      maxminddb_download_url = req.maxminddb_download_url;
      maxminddb_error = "";
      error = "";
    }

same_bool : Bool → Bool → Bool
same_bool true b = b
same_bool false true = false
same_bool false false = true

rebuild : Service → Service
rebuild s = record s { host_trie_disk = s.stored.host_index_disk; rebuilt = s.rebuilt + 1 }

with_interval : ℕ → Service → Service
unfolding reset_refresh_interval
with_interval interval s =
    if interval == s.stored.refresh_interval then s else reset_refresh_interval interval s

-- What follows the settings' being written; `old` are those that were read.
save_changed : ListConfig → RouteListSettings → Service → ℕ → Service
unfolding changed_settings same_bool rebuild
save_changed req old s interval =
    if same_bool old.host_index_disk req.host_index_disk
    then record s { stored = changed_settings old req interval }
    else rebuild (record s { stored = changed_settings old req interval })

-- The service, and whether the call gives no error.
unfoldable pub save_contract_config : Option Book → ListConfig → ℕ → Service → Service × Bool
unfolding save_changed with_interval
save_contract_config none req interval s = (s, true)
save_contract_config (some book) req interval s =
    if book.lists
    then if book.saves
      then (save_changed req s.stored (with_interval interval s) interval, true)
      else (with_interval interval s, false)
    else (s, false)
