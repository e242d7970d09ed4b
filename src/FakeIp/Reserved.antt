-- ===== src/FakeIp/Reserved.antt =====
-- Any pool reached from a new one hands out addresses of its prefix.
use yuhaiin.Prelude.{
  ℕ, ◌-◌, ◌≤◌, ◌≡◌, ◌≢◌, refl, sym, ◌∙◌, true, false, Option, some, List, [], ◌∷◌, arith, ◌==◌,
  Bool-cases, Option-cases, inl, inr, ℕ_discrete,
}
use yuhaiin.ReverseLru.{new_reverse_lru}
use yuhaiin.ReverseLru.Calls.{ValidReverse}
use yuhaiin.ReverseLru.Adds.{reverse_add-Keeps}
use yuhaiin.ReverseLru.Lookups.{reverse_load-Keeps}
use yuhaiin.ReverseLru.History.{new_reverse_lru-ValidReverse}
use yuhaiin.ReverseLru.Values.{new-Passes, reverse_add-Passes, reverse_load-Passes}
use yuhaiin.FakeIp.{
  Prefix, contains, Disk, FakeLru, FakePool, lru_size, on_disk, restore, new_fake_lru,
  fake_reverse_load, get_fake_ip_for_domain, get_domain_from_ip, new_fake_ip_pool,
}
use yuhaiin.FakeIp.Search.{WellFormed}
use yuhaiin.FakeIp.Domains.{fuel_for, with_cache, get_fake_ip_for_domain-Gives}
use yuhaiin.FakeIp.Addresses.{InPrefix, same_pool, get_fake_ip_for_domain-InPrefix}
use yuhaiin.FakeIp.History.{
  Request, domain_request, address_request, forget_answer, answer, answer_all,
}

module _ {Host D : Type 0} (dec : Discrete Host) (disk : Disk Host D) (q : Prefix) where
  record Reserved (p : FakePool Host D) : Type 0 where
    well_formed : WellFormed dec disk p
    is_prefix : p.prefix ≡ q
    in_prefix : InPrefix dec disk q p.domain_to_ip

  restores-InPrefix :
      (now : ℕ) (stored : List (ℕ × Host)) (f f' : FakeLru Host D)
      → ValidReverse dec ℕ_discrete f.lru
      → InPrefix dec disk q f
      → restore dec disk q now stored f ≡ some f'
      → (f'.size ≡ f.size) × ValidReverse dec ℕ_discrete f'.lru × InPrefix dec disk q f'
  unfolding restore
  restores-InPrefix now [] f f' v i h = let is_f : f ≡ f' = cc in rw (← is_f) (refl, v, i)
  restores-InPrefix now ((ip, host) ∷ rest) f f' v i h = elim (Bool-cases (contains q ip)) [
    | inl within ↦
        let k = reverse_add-Keeps dec ℕ_discrete f.lru now host ip [] v in
        restores-InPrefix now rest
          (record f { lru = k.after; disk = on_disk dec disk f.disk k.result }) f' k.valid
          (reverse_add-Passes dec ℕ_discrete (contains q) f.lru k.after now host ip [] k.result v i
            within k.returns)
          (rw (restore, within, k.returns) at h)
    | inr outside ↦ restores-InPrefix now rest f f' v i (rw (restore, outside) at h)
  ]

  domain-Reserved :
      (p p' : FakePool Host D) (now : ℕ) (host : Host) (ip : ℕ)
      → Reserved p
      → get_fake_ip_for_domain dec disk (fuel_for dec disk p.prefix) p now host ≡ some (p', ip)
      → (contains q ip ≡ true) × Reserved p'
  domain-Reserved p p' now host ip r h =
      let g = get_fake_ip_for_domain-Gives dec disk p now host r.well_formed in
      let (is_p, is_ip) = same_pool dec disk g.after p' g.ip ip (sym g.returns ∙ h) in
      let (within, i) =
        get_fake_ip_for_domain-InPrefix dec disk (fuel_for dec disk p.prefix) p p' now host ip
          r.well_formed (rw r.is_prefix r.in_prefix) h in
      (
        rw r.is_prefix at within,
        record {
          well_formed = rw (← is_p) g.well_formed;
          is_prefix = rw (← is_p) (g.is_prefix ∙ r.is_prefix);
          in_prefix = rw r.is_prefix at i;
        },
      )

  address-Reserved :
      (p p' : FakePool Host D) (now ip : ℕ) (x : Option Host)
      → Reserved p
      → get_domain_from_ip dec disk p now ip ≡ some (p', x)
      → Reserved p'
  unfolding get_domain_from_ip fake_reverse_load
  address-Reserved p p' now ip x r h =
      let w = r.well_formed in
      let k = reverse_load-Keeps dec ℕ_discrete p.domain_to_ip.lru now ip w.valid in
      let f : FakeLru Host D = record p.domain_to_ip {
        lru = k.after;
        disk = on_disk dec disk p.domain_to_ip.disk k.result.0;
      } in
      let positive = w.positive in
      let full : (p.domain_to_ip.size == 0) ≡ false = ground arith in
      let loaded : Reserved (record p { domain_to_ip = f }) = record {
        well_formed = with_cache dec disk p f w refl k.valid;
        is_prefix = r.is_prefix;
        in_prefix =
            reverse_load-Passes dec ℕ_discrete (contains q) p.domain_to_ip.lru k.after now ip
              k.result w.valid r.in_prefix k.returns;
      } in
      elim (Bool-cases (contains p.prefix ip)) [
        | inl within ↦ elim (Option-cases k.result.1) [
          | inl missing ↦
              rw
                (← (same_pool dec disk _ p' _ x (
                  rw (get_domain_from_ip, within, fake_reverse_load, full, k.returns, missing) at
                    h)).0)
                loaded
          | inr (host, there) ↦
              rw
                (← (same_pool dec disk _ p' _ x (
                  rw (get_domain_from_ip, within, fake_reverse_load, full, k.returns, there) at
                    h)).0)
                loaded
        ]
        | inr outside ↦
            rw (← (same_pool dec disk p p' _ x (rw (get_domain_from_ip, outside) at h)).0) r
      ]

  answer-Reserved :
      (p p' : FakePool Host D) (r : Request Host)
      → Reserved p
      → answer dec disk p r ≡ some p'
      → Reserved p'
  unfolding answer forget_answer
  answer-Reserved p p' (domain_request now host) r h =
      elim (Option-cases
        (get_fake_ip_for_domain dec disk (fuel_for dec disk p.prefix) p now host)) [
          | inl stuck ↦ absurd (cc (rw (answer, stuck) at h))
          | inr ((s, ip), given) ↦
              let is_p : s ≡ p' = cc (rw (answer, given) at h) in
              rw (← is_p) ((domain-Reserved p s now host ip r given).1)
        ]
  answer-Reserved p p' (address_request now ip) r h =
      elim (Option-cases (get_domain_from_ip dec disk p now ip)) [
        | inl stuck ↦ absurd (cc (rw (answer, stuck) at h))
        | inr ((s, x), told) ↦
            let is_p : s ≡ p' = cc (rw (answer, told) at h) in
            rw (← is_p) (address-Reserved p s now ip x r told)
      ]

  answer_all-Reserved :
      (p p' : FakePool Host D) (rs : List (Request Host))
      → Reserved p
      → answer_all dec disk p rs ≡ some p'
      → Reserved p'
  unfolding answer_all
  answer_all-Reserved p p' [] r h = let is_p : p ≡ p' = cc in rw (← is_p) r
  answer_all-Reserved p p' (x ∷ rs) r h = elim (Option-cases (answer dec disk p x)) [
    | inl stuck ↦ absurd (cc (rw (answer_all, stuck) at h))
    | inr (s, answered) ↦
        answer_all-Reserved s p' rs (answer-Reserved p s x r answered)
          (rw (answer_all, answered) at h)
  ]

  new-Reserved :
      (width bits now : ℕ) (stored : List (ℕ × Host)) (d : D) (p : FakePool Host D)
      → 1 ≤ q.first
      → 1 ≤ q.count
      → lru_size width bits ≢ 0
      → new_fake_ip_pool dec disk q width bits now stored d ≡ some p
      → Reserved p
  unfolding new_fake_ip_pool new_fake_lru
  new-Reserved width bits now stored d p one some_address positive h =
      let size = lru_size width bits in
      let fresh : FakeLru Host D = record { size = size; lru = new_reverse_lru size 0; disk = d } in
      let full : (size == 0) ≡ false = ground arith in
      elim (Option-cases (restore dec disk q now stored fresh)) [
        | inl stuck ↦ absurd (cc (rw (new_fake_ip_pool, new_fake_lru, full, stuck) at h))
        | inr (f, restored) ↦
            let (is_size, v, i) =
              restores-InPrefix now stored fresh f
                (new_reverse_lru-ValidReverse dec ℕ_discrete size 0)
                (new-Passes dec ℕ_discrete (contains q) size) restored in
            let made : FakePool Host D = record {
              current = q.first - 1;
              domain_to_ip = f;
              prefix = q;
            } in
            let is_p : made ≡ p = cc (rw (new_fake_ip_pool, new_fake_lru, full, restored) at h) in
            rw (← is_p) (record {
              well_formed = record {
                positive = rw is_size positive;
                one = one;
                some_address = some_address;
                low = omega arith;
                inside = omega arith;
                valid = v;
              };
              is_prefix = refl;
              in_prefix = i;
            })
      ]

  -- An address that GetFakeIPForDomain gives lies in the prefix of the pool, for a pool made of a prefix
  -- that has an address, does not start at address 0 and gives its cache a capacity, after any requests.
  pub get_fake_ip_for_domain-contains :
      (width bits now : ℕ) (stored : List (ℕ × Host)) (d : D) (rs : List (Request Host))
      (p p' p'' : FakePool Host D) (later : ℕ) (host : Host) (ip : ℕ)
      → 1 ≤ q.first
      → 1 ≤ q.count
      → lru_size width bits ≢ 0
      → new_fake_ip_pool dec disk q width bits now stored d ≡ some p
      → answer_all dec disk p rs ≡ some p'
      → get_fake_ip_for_domain dec disk (fuel_for dec disk p'.prefix) p' later host ≡ some (p'', ip)
      → contains q ip ≡ true
  get_fake_ip_for_domain-contains width bits now stored d rs p p' p'' later host ip one some_address
        positive made answered given =
      let start = new-Reserved width bits now stored d p one some_address positive made in
      (domain-Reserved p' p'' later host ip (answer_all-Reserved p p' rs start answered) given).0
