-- ===== src/Lists/Config/InStep.antt =====
-- Whether the service's timer and kind of index are those of the stored settings.
use yuhaiin.Prelude.{
  ℕ, ◌*◌, ◌^◌, ◌<◌, ◌≡◌, ◌⊎◌, refl, sym, ◌∙◌, Bool, true, false, Option, none, some, arith,
  Bool-cases, inl, inr,
}
use yuhaiin.Lists.Config.{
  RouteListSettings, ListConfig, minute_ns, interval_of, Service, reset_refresh_interval, Book,
  changed_settings, same_bool, rebuild, with_interval, save_changed, save_contract_config,
}

-- The timer's interval is a `time.Duration`, and that of the minutes without overflow.
interval_of_bounds :
    (minute d : ℕ) → interval_of minute ≡ some d → (d < 2 ^ 63) × (d ≡ minute_ns * minute)
unfolding interval_of
interval_of_bounds minute d h = ground arith

abbrev pub IsInStep : Service → Type 0
IsInStep s =
    (s.ticker ≡ interval_of s.stored.refresh_interval)
    × (s.host_trie_disk ≡ s.stored.host_index_disk)

with_interval-ticker :
    (interval : ℕ) (s : Service)
    → s.ticker ≡ interval_of s.stored.refresh_interval
    → (with_interval interval s).ticker ≡ interval_of interval
unfolding with_interval reset_refresh_interval
with_interval-ticker interval s h = ground (arith, interval_of)

same_bool→eq : (a b : Bool) → same_bool a b ≡ true → a ≡ b
unfolding same_bool
same_bool→eq true b h = ground arith
same_bool→eq false true h = cc h
same_bool→eq false false h = refl

with_interval-disk :
    (interval : ℕ) (s : Service) → (with_interval interval s).host_trie_disk ≡ s.host_trie_disk
unfolding with_interval reset_refresh_interval
with_interval-disk interval s = ground arith

with_interval-stored : (interval : ℕ) (s : Service) → (with_interval interval s).stored ≡ s.stored
unfolding with_interval reset_refresh_interval
with_interval-stored interval s = ground arith

changed-interval :
    (old : RouteListSettings) (req : ListConfig) (interval : ℕ)
    → (changed_settings old req interval).refresh_interval ≡ interval
unfolding changed_settings
changed-interval old req interval = ground arith

changed-disk :
    (old : RouteListSettings) (req : ListConfig) (interval : ℕ)
    → (changed_settings old req interval).host_index_disk ≡ req.host_index_disk
unfolding changed_settings
changed-disk old req interval = ground arith

save_changed-IsInStep :
    (req : ListConfig) (old : RouteListSettings) (t : Service) (interval : ℕ)
    → t.ticker ≡ interval_of interval
    → t.host_trie_disk ≡ old.host_index_disk
    → IsInStep (save_changed req old t interval)
unfolding save_changed rebuild
save_changed-IsInStep req old t interval tick disk =
    elim (Bool-cases (same_bool old.host_index_disk req.host_index_disk)) [
      | inl same_disk ↦ rw same_disk (
        rw (changed-interval old req interval) tick,
        disk ∙ same_bool→eq _ _ same_disk ∙ sym (changed-disk old req interval),
      )
      | inr other ↦ rw other (rw (changed-interval old req interval) tick, refl)
    ]

saved-stored :
    (req : ListConfig) (old : RouteListSettings) (t : Service) (interval : ℕ)
    → (save_changed req old t interval).stored ≡ changed_settings old req interval
unfolding save_changed rebuild
saved-stored req old t interval = ground arith

-- Where the timer and the kind of index are those of the stored settings, a call that gives no
-- error leaves a service of which this holds again, and one that gives an error leaves the stored
-- settings and the kind of index as they were.
pub save_contract_config-IsInStep :
    (book : Option Book) (req : ListConfig) (interval : ℕ) (s : Service)
    → IsInStep s
    → (((save_contract_config book req interval s).1 ≡ true)
        × IsInStep (save_contract_config book req interval s).0)
      ⊎ (((save_contract_config book req interval s).1 ≡ false)
          × (((save_contract_config book req interval s).0.stored ≡ s.stored)
              × ((save_contract_config book req interval s).0.host_trie_disk ≡ s.host_trie_disk)))
unfolding save_contract_config
save_contract_config-IsInStep none req interval s step = inl (refl, step)
save_contract_config-IsInStep (some book) req interval s (tick, disk) =
    elim (Bool-cases book.lists) [
      | inr unread ↦ rw unread (inr (refl, (refl, refl)))
      | inl reads ↦ elim (Bool-cases book.saves) [
        | inl saves ↦
            rw (reads, saves)
              (inl (
                refl,
                save_changed-IsInStep req s.stored (with_interval interval s) interval
                    (with_interval-ticker interval s tick) (with_interval-disk interval s ∙ disk),
              ))
        | inr fails ↦
            rw (reads, fails)
              (inr (refl, (with_interval-stored interval s, with_interval-disk interval s)))
      ]
    ]
