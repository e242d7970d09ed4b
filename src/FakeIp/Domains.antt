-- ===== src/FakeIp/Domains.antt =====
-- GetFakeIPForDomain returns an address that the domain then has.
use yuhaiin.Prelude.{
  ℕ, ◌+◌, ◌≡◌, ◌≢◌, refl, false, Option, some, List, arith, ◌==◌, Option-cases, inl, inr,
  ℕ_discrete, Map,
}
use yuhaiin.Lru.{Lru, Callback, Loaded}
use yuhaiin.Lru.Elements.{entries}
use yuhaiin.Lru.LoadOrAdd.{touch-found}
use yuhaiin.Lru.Calls.{load-touch}
use yuhaiin.ReverseLru.{ReverseLru, told, reverse_load_key}
use yuhaiin.ReverseLru.Calls.{ValidReverse, reverse_load_key-Keeps}
use yuhaiin.FakeIp.{
  Prefix, Disk, FakeLru, FakePool, on_disk, fake_load, fake_last_pop_value, get_locked,
  get_fake_ip_for_domain,
}
use yuhaiin.FakeIp.Search.{WellFormed, Holds, Gives, twice-Enough, give-Gives, search-Gives}

module _ {Host D : Type 0} (dec : Discrete Host) (disk : Disk Host D) where
  told-result :
      (m : Map ℕ Host) (o : Option (Lru Host ℕ × (List (Callback Host ℕ) × Loaded ℕ)))
      (l : Lru Host ℕ) (cs cs' : List (Callback Host ℕ)) (x y : Loaded ℕ) (r : ReverseLru Host ℕ)
      → o ≡ some (l, (cs, x))
      → told dec ℕ_discrete m o ≡ some (r, (cs', y))
      → y ≡ x
  unfolding told
  told-result m o l cs cs' x y r h g = cc (rw h at g)

  -- A load: it returns, and what it finds the host has.
  pub record Loads (f : FakeLru Host D) (r : Option (FakeLru Host D × Option ℕ)) (host : Host)
      : Type 0 where
    pub after : FakeLru Host D
    pub result : Option ℕ
    pub returns : r ≡ some (after, result)
    pub valid : ValidReverse dec ℕ_discrete after.lru
    pub is_size : after.size ≡ f.size
    pub holds : (ip : ℕ) → result ≡ some ip → Holds dec disk after host ip

  pub fake_load-Loads :
      (f : FakeLru Host D) (now : ℕ) (host : Host)
      → f.size ≢ 0
      → ValidReverse dec ℕ_discrete f.lru
      → Loads f (fake_load dec disk f now host) host
  unfolding fake_load reverse_load_key
  fake_load-Loads f now host positive v =
      let t = load-touch dec f.lru.lru now host false false v.cache in
      let k = reverse_load_key-Keeps dec ℕ_discrete f.lru now host false false v in
      let full : (f.size == 0) ≡ false = ground arith in
      let is_found = told-result f.lru.reverse_map _ _ _ _ _ _ _ t.returns k.returns in
      record {
        after = record f { lru = k.after; disk = on_disk dec disk f.disk k.result.0 };
        result = k.result.1.found;
        returns = rw (fake_load, full, k.returns) refl;
        valid = k.valid;
        is_size = refl;
        holds = λ ip h. rw (k.is_entries) (
            touch-found dec f.lru.lru.timeout now host false (entries f.lru.lru.list) ip
              (rw is_found at h));
      }

  -- The fuel that is enough from anywhere: twice round the prefix.
  unfoldable pub fuel_for : Prefix → ℕ
  fuel_for q = q.count + q.count + 4

  pub with_cache :
      (p : FakePool Host D) (f : FakeLru Host D)
      → WellFormed dec disk p
      → f.size ≡ p.domain_to_ip.size
      → ValidReverse dec ℕ_discrete f.lru
      → WellFormed dec disk (record p { domain_to_ip = f })
  with_cache p f w is_size v = record {
    positive = rw is_size w.positive;
    one = w.one;
    some_address = w.some_address;
    low = w.low;
    inside = w.inside;
    valid = v;
  }

  get_locked-Gives :
      (p : FakePool Host D) (now : ℕ) (host : Host)
      → WellFormed dec disk p
      → Gives dec disk p.prefix (get_locked dec disk (fuel_for p.prefix) p now host) host
  unfolding get_locked fuel_for
  get_locked-Gives p now host w =
      let t = fake_load-Loads p.domain_to_ip now host w.positive w.valid in
      let w' = with_cache p t.after w t.is_size t.valid in
      elim (Option-cases t.result) [
        | inr (ip, hit) ↦
            rw (get_locked, t.returns, hit)
              (record {
                after = record p { domain_to_ip = t.after };
                ip = ip;
                returns = refl;
                well_formed = w';
                is_prefix = refl;
                holds = t.holds ip hit;
              })
        | inl miss ↦ elim (Option-cases (fake_last_pop_value dec disk t.after)) [
          | inr (ip, popped) ↦
              rw (get_locked, t.returns, miss, popped)
                (give-Gives dec disk (record p { domain_to_ip = t.after }) now host ip w')
          | inl none_popped ↦
              rw (get_locked, t.returns, miss, none_popped)
                (search-Gives dec disk (fuel_for p.prefix) (record p { domain_to_ip = t.after }) now
                  host false w' (twice-Enough dec disk _ _ w.low (omega arith)))
        ]
      ]

  -- On a well formed pool GetFakeIPForDomain returns, with fuel for twice round the prefix: an address
  -- that the domain has in the pool after it, which is well formed still and has the same prefix.
  pub get_fake_ip_for_domain-Gives :
      (p : FakePool Host D) (now : ℕ) (host : Host)
      → WellFormed dec disk p
      → Gives dec disk p.prefix
          (get_fake_ip_for_domain dec disk (fuel_for p.prefix) p now host)
          host
  unfolding get_fake_ip_for_domain
  get_fake_ip_for_domain-Gives p now host w =
      let t = fake_load-Loads p.domain_to_ip now host w.positive w.valid in
      let w' = with_cache p t.after w t.is_size t.valid in
      elim (Option-cases t.result) [
        | inr (ip, hit) ↦
            rw (get_fake_ip_for_domain, t.returns, hit)
              (record {
                after = record p { domain_to_ip = t.after };
                ip = ip;
                returns = refl;
                well_formed = w';
                is_prefix = refl;
                holds = t.holds ip hit;
              })
        | inl miss ↦
            rw (get_fake_ip_for_domain, t.returns, miss)
              (get_locked-Gives (record p { domain_to_ip = t.after }) now host w')
      ]
