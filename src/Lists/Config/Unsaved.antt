-- ===== src/Lists/Config/Unsaved.antt =====
-- What a call leaves that changes the interval and then fails to save it.
use yuhaiin.Prelude.{
  ℕ, ◌≡◌, ◌≢◌, true, false, Option, none, some, List, [], ◌∷◌, arith, Bool-cases, inl, inr,
}
use yuhaiin.Lists.Config.{
  RouteListSettings, ListConfig, interval_of, Service, reset_refresh_interval, Book,
  changed_settings, rebuild, with_interval, save_changed, save_contract_config,
}

-- Calls one after another that ask for the same interval, each with what the book answers.
unfoldable pub save_all : List (Option Book × ListConfig) → ℕ → Service → Service
save_all [] interval s = s
save_all ((book, req) ∷ calls) interval s =
    save_all calls interval (save_contract_config book req interval s).0

-- The timer, and the interval of the stored settings.
abbrev Runs : Service → Option ℕ → ℕ → Type 0
Runs s ticker interval = (s.ticker ≡ ticker) × (s.stored.refresh_interval ≡ interval)

with_interval-Runs :
    (ticker : Option ℕ) (interval : ℕ) (s : Service)
    → Runs s ticker interval
    → Runs (with_interval interval s) ticker interval
unfolding with_interval
with_interval-Runs ticker interval s (tick, is) = ground (arith, tick, is)

save_changed-Runs :
    (ticker : Option ℕ) (req : ListConfig) (old : RouteListSettings) (s : Service) (interval : ℕ)
    → s.ticker ≡ ticker
    → Runs (save_changed req old s interval) ticker interval
unfolding save_changed rebuild changed_settings
save_changed-Runs ticker req old s interval tick = ground (arith, tick)

save_contract_config-Runs :
    (ticker : Option ℕ) (book : Option Book) (req : ListConfig) (interval : ℕ) (s : Service)
    → Runs s ticker interval
    → Runs (save_contract_config book req interval s).0 ticker interval
unfolding save_contract_config
save_contract_config-Runs ticker none req interval s runs = runs
save_contract_config-Runs ticker (some book) req interval s runs = elim (Bool-cases book.lists) [
  | inr unread ↦ rw unread runs
  | inl reads ↦ elim (Bool-cases book.saves) [
    | inl saves ↦
        rw (reads, saves)
          (save_changed-Runs ticker req s.stored (with_interval interval s) interval
            (with_interval-Runs ticker interval s runs).0)
    | inr fails ↦ rw (reads, fails) (with_interval-Runs ticker interval s runs)
  ]
]

save_all-Runs :
    (ticker : Option ℕ) (calls : List (Option Book × ListConfig)) (interval : ℕ) (s : Service)
    → Runs s ticker interval
    → Runs (save_all calls interval s) ticker interval
unfolding save_all
save_all-Runs ticker [] interval s runs = runs
save_all-Runs ticker ((book, req) ∷ calls) interval s runs =
    save_all-Runs ticker calls interval (save_contract_config book req interval s).0
      (save_contract_config-Runs ticker book req interval s runs)

failed-Runs :
    (book : Book) (req : ListConfig) (interval : ℕ) (s : Service)
    → book.lists ≡ true
    → book.saves ≡ false
    → interval ≢ s.stored.refresh_interval
    → Runs
        (save_contract_config (some book) req interval s).0
        (interval_of interval)
        s.stored.refresh_interval
unfolding save_contract_config with_interval reset_refresh_interval
failed-Runs book req interval s reads fails other = ground (arith, reads, fails, other)

-- After a call that asks for another interval than the stored one, where the settings can be read but
-- not written, no calls that ask for the stored interval bring the timer back, whatever the book
-- answers to each of them: the timer stays the one of the interval that was not saved, or none where
-- that interval has none, while the stored interval is the old one.
pub save_all-save_contract_config :
    (book : Book) (req : ListConfig) (interval : ℕ) (s : Service)
    (calls : List (Option Book × ListConfig))
    → book.lists ≡ true
    → book.saves ≡ false
    → interval ≢ s.stored.refresh_interval
    → ((save_all calls s.stored.refresh_interval
          (save_contract_config (some book) req interval s).0).ticker
        ≡ interval_of interval)
      × ((save_all calls s.stored.refresh_interval
            (save_contract_config (some book) req interval s).0).stored.refresh_interval
          ≡ s.stored.refresh_interval)
save_all-save_contract_config book req interval s calls reads fails other =
    save_all-Runs (interval_of interval) calls s.stored.refresh_interval
      (save_contract_config (some book) req interval s).0
      (failed-Runs book req interval s reads fails other)
