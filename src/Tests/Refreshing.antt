-- ===== src/Tests/Refreshing.antt =====
-- The theorems on how the lists are refreshed at concrete inputs.
use text.Mathlib.TextEquality.{eq_iff}
use yuhaiin.Prelude.{
  ℕ, ◌<◌, ◌≡◌, ◌⊎◌, refl, true, false, ◌&&◌, Option, none, some, List, [], ◌∷◌, contains, arith,
  ℕ_discrete, ◌==◌, if◌then◌else◌,
}
use yuhaiin.Lists.Entries.{RouteListDetail}
use yuhaiin.Lists.Config.{
  RouteListSettings, ListConfig, Service, Book, interval_of, save_contract_config,
}
use yuhaiin.Lists.Remote.{Refresh, refresh_contract}
use yuhaiin.Lists.Config.InStep.{IsInStep, save_contract_config-IsInStep}
use yuhaiin.Lists.Config.Unsaved.{save_all, save_all-save_contract_config}
use yuhaiin.Lists.Remote.Messages.{HasNames, checked_lists, up_to_failure}
use yuhaiin.Lists.Remote.Downloads.{refresh_contract-saves}
use yuhaiin.Lists.Geoip.{GeoipCall, load, refresh, run_geoip, load_geoip, load_geoip-open}
use yuhaiin.Lists.Activation.{
  Pc, State, init, update, Reach, start, later, thread, fire, lock, load_version, read_lists, swap,
  match_version, clear_status, unlock, idle, waiting, locked, loaded, reading, swapped, matched,
  leaving,
}
use yuhaiin.Lists.Activation.Safety.{quiet_settled, at_rest, status_races}

abbrev own_list : RouteListDetail
own_list = record {
  name = "own";
  type = "host";
  source_type = "local";
  local = some ((b'a' ∷ []) ∷ []);
  remote = none;
  error_msgs = [];
}

abbrev hourly : RouteListSettings
hourly = record {
  refresh_interval = 60;
  last_refresh_time = 0;
  error = "";
  host_index_disk = false;
  maxminddb_download_url = "";
  maxminddb_error = "";
}

abbrev service : Service
service = record {
  ticker = some 3600000000000;
  host_trie_disk = false;
  stored = hourly;
  rebuilt = 0;
}

abbrev on_disk : ListConfig
on_disk = record { host_index_disk = true; maxminddb_download_url = "" }

service-ticker : service.ticker ≡ interval_of 60
unfolding interval_of
service-ticker = refl

abbrev book : Book
book = record { lists = true; saves = true }

save_contract_config-IsInStep_example :
    (((save_contract_config (some book) on_disk 30 service).1 ≡ true)
      × IsInStep (save_contract_config (some book) on_disk 30 service).0)
    ⊎ (((save_contract_config (some book) on_disk 30 service).1 ≡ false)
        × (((save_contract_config (some book) on_disk 30 service).0.stored ≡ hourly)
            × ((save_contract_config (some book) on_disk 30 service).0.host_trie_disk ≡ false)))
save_contract_config-IsInStep_example =
    save_contract_config-IsInStep (some book) on_disk 30 service (service-ticker, refl)

abbrev read_only : Book
read_only = record { lists = true; saves = false }

-- The interval that is stored is asked for again, twice, the second time without a book.
abbrev later_calls : List (Option Book × ListConfig)
later_calls = (some book, on_disk) ∷ (none, on_disk) ∷ []

save_all-save_contract_config_example :
    ((save_all later_calls 60 (save_contract_config (some read_only) on_disk 30 service).0).ticker
      ≡ interval_of 30)
    × ((save_all later_calls 60
          (save_contract_config (some read_only) on_disk 30 service).0).stored.refresh_interval
        ≡ 60)
save_all-save_contract_config_example =
    save_all-save_contract_config read_only on_disk 30 service later_calls refl refl
      (λ e. omega (arith, e))

abbrev remote_list : RouteListDetail
remote_list = record {
  name = "ads";
  type = "host";
  source_type = "remote";
  local = none;
  remote = some ("u" ∷ "u" ∷ []);
  error_msgs = [];
}

abbrev two_lists : List RouteListDetail
two_lists = remote_list ∷ own_list ∷ []

names_differ : HasNames two_lists
names_differ = ((λ e. cc ((eq_iff "own" "ads").1 e), tt), (tt, tt))

abbrev refreshing : Refresh
refreshing = record {
  refreshing = false;
  has_books = true;
  lists = some two_lists;
  settings = some hourly;
  download = λ name i url. if i == 0 then some "u: refused" else none;
  saves = λ list. true;
  saves_settings = true;
  geoip_error = "";
  now = 7;
}

refresh_contract-saves_example :
    ((refresh_contract refreshing).saved
      ≡ (up_to_failure refreshing.saves (checked_lists refreshing.download two_lists)).0)
    × (((refresh_contract refreshing).ok ≡ (
          (up_to_failure refreshing.saves (checked_lists refreshing.download two_lists)).1 && true))
        × ((refresh_contract refreshing).notified ≡ (refresh_contract refreshing).ok))
refresh_contract-saves_example =
    refresh_contract-saves refreshing two_lists hourly refl refl refl refl names_differ

-- A file name, a load, and a refresh that replaces the file.
abbrev geoip_calls : List GeoipCall
geoip_calls = refresh (b'u' ∷ []) true ∷ load true ∷ []

load_again : (load_geoip true (run_geoip geoip_calls)).1 ≡ some 1
unfolding load_geoip run_geoip
load_again = refl

load_geoip-open_example :
    contains ℕ_discrete (load_geoip true (run_geoip geoip_calls)).0.closed 1 ≡ false
load_geoip-open_example = load_geoip-open geoip_calls true 1 load_again

-- A first refresh, by a thread that the timer starts.
abbrev idle_again : ℕ → Pc
idle_again =
    update
      (update
        (update
          (update
            (update (update (update (update (λ i. idle) 0 waiting) 0 locked) 0 (loaded 0)) 0
              (reading 0 0))
            0 (swapped 0))
          0 matched)
        0 leaving)
      0 idle

abbrev after_first : State
after_first = record { mem = record init.mem { armed = false }; pc = idle_again }

first_refresh : Reach init after_first
first_refresh =
    later
      (later
        (later
          (later
            (later
              (later (later (later start (thread 0 (fire refl))) (thread 0 (lock refl)))
                (thread 0 load_version))
              (thread 0 read_lists))
            (thread 0 swap))
          (thread 0 (match_version refl)))
        (thread 0 clear_status))
      (thread 0 unlock)

idle_again-idle : (i : ℕ) → idle_again i ≡ idle
idle_again-idle i = ground arith

quiet_settled_example : (after_first.mem.refresh_at ≡ false) × (after_first.mem.refresh_mu ≡ none)
quiet_settled_example =
    quiet_settled first_refresh (record { all_idle = idle_again-idle; not_armed = refl })

status_races_example :
    (t : State) × (Reach (at_rest after_first.mem) t
      × ((t.mem.refresh_at ≡ false) × ((t.mem.armed ≡ true) × (t.mem.indexed < t.mem.revision))))
status_races_example = status_races after_first.mem refl
