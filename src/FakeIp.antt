-- ===== src/FakeIp.antt =====
-- pkg/net/dns/fakeip/pool.go and cache.go: the addresses that stand for domains. An address is a number,
-- a masked prefix its first address and how many it has; a prefix that starts at address 0, whose `Prev`
-- is no address, is left out. The disk cache is an interface that the pool is given: `disk_put` and its
-- kin are what one batch does to it, whether it fails or not. `fuel` bounds the search for an address.
pub mod Search
pub mod Domains
pub mod Addresses
pub mod History
pub mod Reserved
use yuhaiin.Prelude.{
  ℕ, zero, suc, ◌+◌, ◌-◌, Bool, true, false, not, ◌&&◌, Option, none, some, List, [], ◌∷◌, ◌==◌,
  if◌then◌else◌, ltb, leb, ◌/◌, ◌^◌, ℕ_discrete,
}
use yuhaiin.Lru.{Callback, on_remove, on_value_update, Loaded}
use yuhaiin.ReverseLru.{
  ReverseLru, reverse_add, reverse_load_key, reverse_load, value_exist, last_pop_value,
  new_reverse_lru,
}

pub record Prefix : Type 0 where
  pub first : ℕ
  pub count : ℕ

unfoldable pub contains : Prefix → ℕ → Bool
contains p a = leb p.first a && ltb a (p.first + p.count)

-- What the pool asks of the disk cache, over the type of its states.
pub record Disk (Host D : Type 0) : Type 0 where
  pub disk_put : D → Host → ℕ → D
  pub disk_delete : D → Host → ℕ → D
  pub disk_delete_address : D → ℕ → D
  pub disk_get : D → ℕ → Option Host

pub record FakeLru (Host D : Type 0) : Type 0 where
  pub size : ℕ
  pub lru : ReverseLru Host ℕ
  pub disk : D

pub record FakePool (Host D : Type 0) : Type 0 where
  pub current : ℕ
  pub domain_to_ip : FakeLru Host D
  pub prefix : Prefix

-- The capacity of a pool: `width` is 32 or 128.
unfoldable pub lru_size : ℕ → ℕ → ℕ
lru_size width bits =
    let size = 2 ^ (width - bits) - 1 in
    if bits == width then 0 else (if ltb 65535 size then 65535 else size)

module _ {Host D : Type 0} (dec : Discrete Host) (disk : Disk Host D) where
  -- `newFakeLru`'s callbacks: `WithOnRemove` and `WithOnValueChanged`.
  unfoldable pub on_disk : D → List (Callback Host ℕ) → D
  on_disk d [] = d
  on_disk d (on_remove host ip ∷ cs) = on_disk (disk.disk_delete d host ip) cs
  on_disk d (on_value_update old new ∷ cs) = on_disk (disk.disk_delete_address d old) cs

  -- The loop of `newFakeLru` over the disk cache's addresses and hosts.
  unfoldable pub restore : Prefix → ℕ → List (ℕ × Host) → FakeLru Host D → Option (FakeLru Host D)
  unfolding contains on_disk reverse_add
  restore p now [] f = some f
  restore p now ((ip, host) ∷ rest) f =
      let skipped = restore p now rest f in
      if contains p ip
      then elim (reverse_add dec ℕ_discrete f.lru now host ip []) [
        | none ↦ none
        | some (r, cs) ↦ restore p now rest (record f { lru = r; disk = on_disk f.disk cs })
      ]
      else skipped

  unfoldable pub new_fake_lru : Prefix → ℕ → ℕ → List (ℕ × Host) → D → Option (FakeLru Host D)
  unfolding restore new_reverse_lru
  new_fake_lru p now size stored d =
      let fresh : FakeLru Host D = record { size = size; lru = new_reverse_lru size 0; disk = d } in
      if size == 0 then some fresh else restore p now stored fresh

  -- `Load`
  unfoldable pub fake_load : FakeLru Host D → ℕ → Host → Option (FakeLru Host D × Option ℕ)
  unfolding on_disk reverse_load_key
  fake_load f now host =
      if f.size == 0
      then some (f, none)
      else elim (reverse_load_key dec ℕ_discrete f.lru now host false false) [
        | none ↦ none
        | some (r, (cs, x)) ↦ some (record f { lru = r; disk = on_disk f.disk cs }, x.found)
      ]

  -- `Add`
  unfoldable pub fake_add : FakeLru Host D → ℕ → Host → ℕ → Option (FakeLru Host D)
  unfolding on_disk reverse_add
  fake_add f now host ip =
      if f.size == 0 then some f else elim (reverse_add dec ℕ_discrete f.lru now host ip []) [
        | none ↦ none
        | some (r, cs) ↦
            some (record f { lru = r; disk = disk.disk_put (on_disk f.disk cs) host ip })
      ]

  -- `ValueExist`
  unfoldable pub fake_value_exist : FakeLru Host D → ℕ → ℕ → Option (FakeLru Host D × Bool)
  unfolding on_disk value_exist
  fake_value_exist f now ip =
      if f.size == 0 then some (f, false) else elim (value_exist dec ℕ_discrete f.lru now ip) [
        | none ↦ none
        | some (r, (cs, b)) ↦ some (record f { lru = r; disk = on_disk f.disk cs }, b)
      ]

  -- `ReverseLoad`: what the cache lacks, the disk may have.
  unfoldable pub fake_reverse_load : FakeLru Host D → ℕ → ℕ → Option (FakeLru Host D × Option Host)
  unfolding on_disk reverse_load
  fake_reverse_load f now ip =
      if f.size == 0 then some (f, none) else elim (reverse_load dec ℕ_discrete f.lru now ip) [
        | none ↦ none
        | some (r, (cs, x)) ↦
            let f' = record f { lru = r; disk = on_disk f.disk cs } in
            elim x [ none ↦ some (f', disk.disk_get f'.disk ip) | some host ↦ some (f', some host) ]
      ]

  -- `LastPopValue`
  unfoldable pub fake_last_pop_value : FakeLru Host D → Option ℕ
  unfolding last_pop_value
  fake_last_pop_value f = if f.size == 0 then none else last_pop_value f.lru

  -- The pool after an address is given to a host.
  unfoldable pub give : FakePool Host D → ℕ → Host → ℕ → Option (FakePool Host D × ℕ)
  unfolding fake_add
  give p now host ip = elim (fake_add p.domain_to_ip now host ip) [
    | none ↦ none
    | some f ↦ some (record p { domain_to_ip = f }, ip)
  ]

  -- The `for` of `GetFakeIPForDomain`.
  unfoldable pub search : ℕ → FakePool Host D → ℕ → Host → Bool → Option (FakePool Host D × ℕ)
  unfolding contains give fake_value_exist
  search zero p now host looped = none
  search (suc fuel) p now host looped =
      let addr = suc p.current in
      let around = search fuel (record p { current = p.prefix.first - 1 }) now host true in
      if contains p.prefix addr
      then elim (fake_value_exist p.domain_to_ip now addr) [
        | none ↦ none
        | some (f, true) ↦
            search fuel (record p { current = addr; domain_to_ip = f }) now host looped
        | some (f, false) ↦ give (record p { current = addr; domain_to_ip = f }) now host addr
      ]
      else if looped
      then give (record p { current = suc (p.prefix.first - 1) }) now host
          (suc (p.prefix.first - 1))
      else around

  -- `GetFakeIPForDomain` from the mutex on.
  unfoldable pub get_locked : ℕ → FakePool Host D → ℕ → Host → Option (FakePool Host D × ℕ)
  unfolding fake_load fake_last_pop_value give search
  get_locked fuel p now host = elim (fake_load p.domain_to_ip now host) [
    | none ↦ none
    | some (f, some ip) ↦ some (record p { domain_to_ip = f }, ip)
    | some (f, none) ↦ elim (fake_last_pop_value f) [
      | some ip ↦ give (record p { domain_to_ip = f }) now host ip
      | none ↦ search fuel (record p { domain_to_ip = f }) now host false
    ]
  ]

  unfoldable pub get_fake_ip_for_domain :
      ℕ → FakePool Host D → ℕ → Host → Option (FakePool Host D × ℕ)
  unfolding fake_load get_locked
  get_fake_ip_for_domain fuel p now host = elim (fake_load p.domain_to_ip now host) [
    | none ↦ none
    | some (f, some ip) ↦ some (record p { domain_to_ip = f }, ip)
    | some (f, none) ↦ get_locked fuel (record p { domain_to_ip = f }) now host
  ]

  unfoldable pub get_domain_from_ip :
      FakePool Host D → ℕ → ℕ → Option (FakePool Host D × Option Host)
  unfolding contains fake_reverse_load
  get_domain_from_ip p now ip =
      if contains p.prefix ip
      then elim (fake_reverse_load p.domain_to_ip now ip) [
        | none ↦ none
        | some (f, x) ↦ some (record p { domain_to_ip = f }, x)
      ]
      else some (p, none)

  -- `NewFakeIPPool`: `width` is the address's, `bits` the prefix's.
  unfoldable pub new_fake_ip_pool :
      Prefix → ℕ → ℕ → ℕ → List (ℕ × Host) → D → Option (FakePool Host D)
  unfolding new_fake_lru lru_size
  new_fake_ip_pool p width bits now stored d =
      elim (new_fake_lru p now (lru_size width bits) stored d) [
        | none ↦ none
        | some f ↦ some (record { current = p.first - 1; domain_to_ip = f; prefix = p })
      ]
