-- ===== src/FakeIp/History.antt =====
-- A pool made from what the disk has, and any requests to it.
use yuhaiin.Prelude.{
  ℕ, ◌-◌, ◌≤◌, ◌≡◌, ◌≢◌, refl, false, Option, none, some, List, [], ◌∷◌, arith, ◌==◌, Bool-cases,
  Option-cases, inl, inr, ℕ_discrete,
}
use yuhaiin.Lru.Elements.{entries}
use yuhaiin.ReverseLru.{new_reverse_lru}
use yuhaiin.ReverseLru.Inverse.{key_of-found}
use yuhaiin.Lru.Recency.{find_key-key}
use yuhaiin.ReverseLru.Calls.{ValidReverse}
use yuhaiin.ReverseLru.Adds.{reverse_add-Keeps}
use yuhaiin.ReverseLru.History.{new_reverse_lru-ValidReverse}
use yuhaiin.ReverseLru.Lookups.{reverse_load-Keeps}
use yuhaiin.FakeIp.{
  Prefix, contains, Disk, FakeLru, FakePool, lru_size, on_disk, restore, new_fake_lru,
  fake_reverse_load, get_fake_ip_for_domain, get_domain_from_ip, new_fake_ip_pool,
}
use yuhaiin.FakeIp.Search.{WellFormed, Holds}
use yuhaiin.FakeIp.Domains.{fuel_for, with_cache, get_fake_ip_for_domain-Gives}

-- A request with the clock's reading at it.
pub data Request (Host : Type 0) : Type 0 where
  domain_request : ℕ → Host → Request Host
  address_request : ℕ → ℕ → Request Host

module _ {Host D : Type 0} (dec : Discrete Host) (disk : Disk Host D) where
  unfoldable pub forget_answer :
      {R : Type 0} → Option (FakePool Host D × R) → Option (FakePool Host D)
  forget_answer none = none
  forget_answer (some (p, x)) = some p

  unfoldable pub answer : FakePool Host D → Request Host → Option (FakePool Host D)
  unfolding forget_answer fuel_for get_fake_ip_for_domain get_domain_from_ip
  answer p (domain_request now host) =
      forget_answer (get_fake_ip_for_domain dec disk (fuel_for dec disk p.prefix) p now host)
  answer p (address_request now ip) = forget_answer (get_domain_from_ip dec disk p now ip)

  unfoldable pub answer_all : FakePool Host D → List (Request Host) → Option (FakePool Host D)
  unfolding answer
  answer_all p [] = some p
  answer_all p (q ∷ qs) = elim (answer p q) [ none ↦ none | some p' ↦ answer_all p' qs ]

  restores :
      (q : Prefix) (now : ℕ) (stored : List (ℕ × Host)) (f : FakeLru Host D)
      → ValidReverse dec ℕ_discrete f.lru
      → (f' : FakeLru Host D) × (restore dec disk q now stored f ≡ some f')
        × (f'.size ≡ f.size)
        × ValidReverse dec ℕ_discrete f'.lru
  unfolding restore
  restores q now [] f v = (f, refl, refl, v)
  restores q now ((ip, host) ∷ rest) f v = elim (Bool-cases (contains q ip)) [
    | inl within ↦
        let k = reverse_add-Keeps dec ℕ_discrete f.lru now host ip [] v in
        rw (restore, within, k.returns)
          (restores q now rest (record f { lru = k.after; disk = on_disk dec disk f.disk k.result })
            k.valid)
    | inr outside ↦ rw (restore, outside) (restores q now rest f v)
  ]

  -- The record of a step's result.
  pub record Answers (r : Option (FakePool Host D)) : Type 0 where
    pub after : FakePool Host D
    pub returns : r ≡ some after
    pub well_formed : WellFormed dec disk after

  address-Answers :
      (p : FakePool Host D) (now ip : ℕ)
      → WellFormed dec disk p
      → Answers (forget_answer (get_domain_from_ip dec disk p now ip))
  unfolding get_domain_from_ip fake_reverse_load forget_answer
  address-Answers p now ip w =
      let k = reverse_load-Keeps dec ℕ_discrete p.domain_to_ip.lru now ip w.valid in
      let f : FakeLru Host D = record p.domain_to_ip {
        lru = k.after;
        disk = on_disk dec disk p.domain_to_ip.disk k.result.0;
      } in
      let positive = w.positive in
      let full : (p.domain_to_ip.size == 0) ≡ false = ground arith in
      elim (Bool-cases (contains p.prefix ip)) [
        | inl within ↦ elim (Option-cases k.result.1) [
          | inl missing ↦
              rw (get_domain_from_ip, within, fake_reverse_load, full, k.returns, missing)
                (record {
                  after = record p { domain_to_ip = f };
                  returns = refl;
                  well_formed = with_cache dec disk p f w refl k.valid;
                })
          | inr (host, there) ↦
              rw (get_domain_from_ip, within, fake_reverse_load, full, k.returns, there)
                (record {
                  after = record p { domain_to_ip = f };
                  returns = refl;
                  well_formed = with_cache dec disk p f w refl k.valid;
                })
        ]
        | inr outside ↦
            rw (get_domain_from_ip, outside) (record { after = p; returns = refl; well_formed = w })
      ]

  answer-Answers :
      (p : FakePool Host D) (q : Request Host) → WellFormed dec disk p → Answers (answer p q)
  unfolding answer forget_answer
  answer-Answers p (domain_request now host) w =
      let g = get_fake_ip_for_domain-Gives dec disk p now host w in
      record { after = g.after; returns = rw (answer, g.returns) refl; well_formed = g.well_formed }
  answer-Answers p (address_request now ip) w = address-Answers p now ip w

  answer_all-Answers :
      (p : FakePool Host D) (qs : List (Request Host))
      → WellFormed dec disk p
      → Answers (answer_all p qs)
  unfolding answer_all
  answer_all-Answers p [] w = record { after = p; returns = refl; well_formed = w }
  answer_all-Answers p (q ∷ qs) w =
      let a = answer-Answers p q w in
      rw (answer_all, a.returns) (answer_all-Answers a.after qs a.well_formed)

  -- A pool of a prefix that has an address, does not start at address 0 and gives its cache a capacity
  -- is made, whatever the disk has stored, and answers any sequence of requests for domains and
  -- addresses: none faults, and no search for an address goes on for ever. The pool is well formed
  -- after them.
  pub new_fake_ip_pool-Answers :
      (q : Prefix) (width bits now : ℕ) (stored : List (ℕ × Host)) (d : D)
      (qs : List (Request Host))
      → 1 ≤ q.first
      → 1 ≤ q.count
      → lru_size width bits ≢ 0
      → (p : FakePool Host D) × (new_fake_ip_pool dec disk q width bits now stored d ≡ some p)
        × Answers (answer_all p qs)
  unfolding new_fake_ip_pool new_fake_lru
  new_fake_ip_pool-Answers q width bits now stored d qs one some_address positive =
      let size = lru_size width bits in
      let fresh : FakeLru Host D = record { size = size; lru = new_reverse_lru size 0; disk = d } in
      let full : (size == 0) ≡ false = ground arith in
      let (f, returns, is_size, v) =
        restores q now stored fresh (new_reverse_lru-ValidReverse dec ℕ_discrete size 0) in
      let p : FakePool Host D = record { current = q.first - 1; domain_to_ip = f; prefix = q } in
      let w : WellFormed dec disk p = record {
        positive = rw is_size positive;
        one = one;
        some_address = some_address;
        low = omega arith;
        inside = omega arith;
        valid = v;
      } in
      (p, rw (new_fake_ip_pool, new_fake_lru, full, returns) refl, answer_all-Answers p qs w)

  -- In a pool reached from a new one by any requests, under the same conditions on the prefix, two
  -- domains that hold the same address are the same domain.
  pub Holds-unique :
      (q : Prefix) (width bits now : ℕ) (stored : List (ℕ × Host)) (d : D)
      (qs : List (Request Host)) (p p' : FakePool Host D) (one other : Host) (ip : ℕ)
      → 1 ≤ q.first
      → 1 ≤ q.count
      → lru_size width bits ≢ 0
      → new_fake_ip_pool dec disk q width bits now stored d ≡ some p
      → answer_all p qs ≡ some p'
      → Holds dec disk p'.domain_to_ip one ip
      → Holds dec disk p'.domain_to_ip other ip
      → one ≡ other
  Holds-unique q width bits now stored d qs p p' one other ip first_one some_address positive made
        done (e, found, is_ip) (e', found', is_ip') =
      let (start, made', a) =
        new_fake_ip_pool-Answers q width bits now stored d qs first_one some_address positive in
      let is_start : start ≡ p = cc (made, made') in
      let is_after : a.after ≡ p' = cc (rw is_start at a.returns, done) in
      let w : WellFormed dec disk p' = rw is_after at a.well_formed in
      let es = entries p'.domain_to_ip.lru.lru.list in
      let h = key_of-found dec ℕ_discrete one e es w.valid.inverse.distinct found in
      let h' = key_of-found dec ℕ_discrete other e' es w.valid.inverse.distinct found' in
      let is_one = find_key-key dec one e es found in
      let is_other = find_key-key dec other e' es found' in cc
