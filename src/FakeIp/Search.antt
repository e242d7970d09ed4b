-- ===== src/FakeIp/Search.antt =====
-- The search for an address ends, and the domain has the address that it is given.
use yuhaiin.Prelude.{
  ℕ, zero, suc, ◌+◌, ◌-◌, ◌≤◌, ◌<◌, ◌≡◌, ◌≢◌, refl, Bool, true, false, Option, some, [], arith,
  ◌==◌, Bool-cases, inl, inr, ℕ_discrete,
}
use yuhaiin.Lru.{LruEntry, new_entry}
use yuhaiin.Lru.Recency.{find_key}
use yuhaiin.Lru.Elements.{entries}
use yuhaiin.Lru.Bounds.{find_key-put}
use yuhaiin.ReverseLru.Calls.{ValidReverse}
use yuhaiin.ReverseLru.Adds.{reverse_add-Keeps, freed}
use yuhaiin.ReverseLru.Lookups.{value_exist-Keeps}
use yuhaiin.FakeIp.{
  Prefix, contains, Disk, FakeLru, FakePool, on_disk, fake_add, fake_value_exist, give, search,
}

module _ {Host D : Type 0} (dec : Discrete Host) (disk : Disk Host D) where
  -- The cache holds the host with the address.
  abbrev pub Holds : FakeLru Host D → Host → ℕ → Type 0
  Holds f host ip =
      (e : LruEntry Host ℕ) × (find_key dec host (entries f.lru.lru.list) ≡ some e) × (e.value ≡ ip)

  -- A pool with a cache, whose search stands in its prefix or right before it.
  pub record WellFormed (p : FakePool Host D) : Type 0 where
    pub positive : p.domain_to_ip.size ≢ 0
    pub one : 1 ≤ p.prefix.first
    pub some_address : 1 ≤ p.prefix.count
    pub low : p.prefix.first ≤ suc p.current
    pub inside : p.current < p.prefix.first + p.prefix.count
    pub valid : ValidReverse dec ℕ_discrete p.domain_to_ip.lru

  -- A result: an address, which the host has in a pool that is well formed still.
  pub record Gives (q : Prefix) (r : Option (FakePool Host D × ℕ)) (host : Host) : Type 0 where
    pub after : FakePool Host D
    pub ip : ℕ
    pub returns : r ≡ some (after, ip)
    pub well_formed : WellFormed after
    pub is_prefix : after.prefix ≡ q
    pub holds : Holds after.domain_to_ip host ip

  -- A pool moved to an address of its prefix, with another state of its cache.
  pub moved :
      (p : FakePool Host D) (f : FakeLru Host D) (a : ℕ)
      → WellFormed p
      → f.size ≡ p.domain_to_ip.size
      → ValidReverse dec ℕ_discrete f.lru
      → p.prefix.first ≤ suc a
      → a < p.prefix.first + p.prefix.count
      → WellFormed (record p { current = a; domain_to_ip = f })
  moved p f a w is_size v low inside = record {
    positive = rw is_size w.positive;
    one = w.one;
    some_address = w.some_address;
    low = low;
    inside = inside;
    valid = v;
  }

  pub give-Gives :
      (p : FakePool Host D) (now : ℕ) (host : Host) (ip : ℕ)
      → WellFormed p
      → Gives p.prefix (give dec disk p now host ip) host
  unfolding give fake_add new_entry
  give-Gives p now host ip w =
      let v = w.valid in
      let positive = w.positive in
      let f = p.domain_to_ip in
      let k = reverse_add-Keeps dec ℕ_discrete f.lru now host ip [] v in
      let full : (f.size == 0) ≡ false = ground arith in
      let f' : FakeLru Host D = record f {
        lru = k.after;
        disk = disk.disk_put (on_disk dec disk f.disk k.result) host ip;
      } in
      let e = new_entry f.lru.lru now host ip [] in
      let there : find_key dec host (entries k.after.lru.list) ≡ some e = rw k.is_entries (
        find_key-put dec f.lru.lru.capacity e (freed dec ℕ_discrete ip (entries f.lru.lru.list))) in
      record {
        after = record p { domain_to_ip = f' };
        ip = ip;
        returns = rw (give, full, k.returns) refl;
        well_formed = moved p f' p.current w refl k.valid w.low w.inside;
        is_prefix = refl;
        holds = (e, there, refl);
      }

  -- Whether an address is held, in a cache that is valid still.
  pub record Checks (f : FakeLru Host D) (r : Option (FakeLru Host D × Bool)) : Type 0 where
    pub after : FakeLru Host D
    pub exists : Bool
    pub returns : r ≡ some (after, exists)
    pub valid : ValidReverse dec ℕ_discrete after.lru
    pub is_size : after.size ≡ f.size

  pub value_exist-Checks :
      (f : FakeLru Host D) (now ip : ℕ)
      → f.size ≢ 0
      → ValidReverse dec ℕ_discrete f.lru
      → Checks f (fake_value_exist dec disk f now ip)
  unfolding fake_value_exist
  value_exist-Checks f now ip positive v =
      let k = value_exist-Keeps dec ℕ_discrete f.lru now ip v in
      let full : (f.size == 0) ≡ false = ground arith in
      record {
        after = record f { lru = k.after; disk = on_disk dec disk f.disk k.result.0 };
        exists = k.result.1;
        returns = rw (fake_value_exist, full, k.returns) refl;
        valid = k.valid;
        is_size = refl;
      }

  -- Enough fuel for the addresses that are left, and for all of them once more before the loop has
  -- turned back.
  pub Enough : ℕ → FakePool Host D → Bool → Type 0
  Enough fuel p true = p.prefix.first + p.prefix.count < fuel + p.current
  Enough fuel p false = p.prefix.first + p.prefix.count + p.prefix.count + 2 < fuel + p.current

  -- Twice round the prefix is enough from any address of it, and from right before it.
  pub twice-Enough :
      (fuel : ℕ) (p : FakePool Host D)
      → p.prefix.first ≤ suc p.current
      → p.prefix.count + p.prefix.count + 4 ≤ fuel
      → Enough fuel p false
  unfolding Enough
  twice-Enough fuel p low h = omega arith

  pub contains-lt : (q : Prefix) (a : ℕ) → contains q a ≡ true → a < q.first + q.count
  unfolding contains
  contains-lt q a h = ground arith

  onward :
      (fuel : ℕ) (p : FakePool Host D) (f : FakeLru Host D) (looped : Bool)
      → Enough (suc fuel) p looped
      → Enough fuel (record p { current = suc p.current; domain_to_ip = f }) looped
  unfolding Enough
  onward fuel p f true h = omega arith
  onward fuel p f false h = omega arith

  turned :
      (fuel : ℕ) (p : FakePool Host D) (looped : Bool)
      → looped ≡ false
      → 1 ≤ p.prefix.first
      → p.current < p.prefix.first + p.prefix.count
      → Enough (suc fuel) p looped
      → Enough fuel (record p { current = p.prefix.first - 1 }) true
  unfolding Enough
  turned fuel p true h one inside enough = cc
  turned fuel p false h one inside enough = omega arith

  pub search-Gives :
      (fuel : ℕ) (p : FakePool Host D) (now : ℕ) (host : Host) (looped : Bool)
      → WellFormed p
      → Enough fuel p looped
      → Gives p.prefix (search dec disk fuel p now host looped) host
  unfolding search Enough
  search-Gives zero p now host true w enough = (let inside = w.inside in ground arith)
  search-Gives zero p now host false w enough = (let inside = w.inside in ground arith)
  search-Gives (suc fuel) p now host looped w enough =
      let c = value_exist-Checks p.domain_to_ip now (suc p.current) w.positive w.valid in
      elim (Bool-cases (contains p.prefix (suc p.current))) [
        | inl within ↦
            let next : FakePool Host D = record p {
              current = suc p.current;
              domain_to_ip = c.after;
            } in
            let w' : WellFormed next =
              moved p c.after (suc p.current) w c.is_size c.valid (omega (arith, w.low))
                (contains-lt p.prefix (suc p.current) within) in
            elim (Bool-cases c.exists) [
              | inl taken ↦
                  rw (search, within, c.returns, taken)
                    (search-Gives fuel next now host looped w'
                      (onward fuel p c.after looped enough))
              | inr free ↦
                  rw (search, within, c.returns, free) (give-Gives next now host (suc p.current) w')
            ]
        | inr past ↦ elim (Bool-cases looped) [
          | inl again ↦
              rw (search, past, again)
                (give-Gives (record p { current = suc (p.prefix.first - 1) }) now host
                  (suc (p.prefix.first - 1))
                  (moved p p.domain_to_ip (suc (p.prefix.first - 1)) w refl w.valid
                    (omega (arith, w.one)) (omega (arith, w.one, w.some_address))))
          | inr first_time ↦
              rw (search, past, first_time)
                (search-Gives fuel (record p { current = p.prefix.first - 1 }) now host true
                  (moved p p.domain_to_ip (p.prefix.first - 1) w refl w.valid (omega (arith, w.one))
                    (omega (arith, w.one, w.inside)))
                  (turned fuel p looped first_time w.one w.inside enough))
        ]
      ]
