-- ===== src/FakeIp/Addresses.antt =====
-- The addresses that the pool hands out lie in its prefix.
use yuhaiin.Prelude.{
  ℕ, zero, suc, ◌-◌, ◌≤◌, ◌≡◌, ◌≢◌, refl, Bool, true, false, Option, none, some, [], arith, ◌==◌,
  Bool-cases, Option-cases, inl, inr, ℕ_discrete,
}
use yuhaiin.Lru.{LruEntry}
use yuhaiin.Lru.Elements.{entries}
use yuhaiin.Lru.Values.{PopPasses, find_key-AllValues}
use yuhaiin.ReverseLru.{last_pop_value}
use yuhaiin.ReverseLru.Calls.{ValidReverse, reverse_load_key-Keeps}
use yuhaiin.ReverseLru.Adds.{reverse_add-Keeps}
use yuhaiin.ReverseLru.Lookups.{value_exist-Keeps}
use yuhaiin.ReverseLru.Values.{
  Passes, reverse_add-Passes, reverse_load_key-Passes, value_exist-Passes,
}
use yuhaiin.FakeIp.{
  Prefix, contains, Disk, FakeLru, FakePool, on_disk, fake_load, fake_add, fake_value_exist,
  fake_last_pop_value, give, search, get_locked, get_fake_ip_for_domain,
}
use yuhaiin.FakeIp.Search.{WellFormed, Holds, moved, contains-lt, value_exist-Checks}
use yuhaiin.FakeIp.Domains.{with_cache, fake_load-Loads}

module _ {Host D : Type 0} (dec : Discrete Host) (disk : Disk Host D) where
  -- Every address of the cache is in the prefix, and that of the entry evicted last.
  abbrev pub InPrefix : Prefix → FakeLru Host D → Type 0
  InPrefix q f = Passes dec ℕ_discrete (contains q) f.lru

  pub same_pool :
      {R : Type 0} (s p : FakePool Host D) (x y : R)
      → ◌≡◌ {A = Option (FakePool Host D × R)} (some (s, x)) (some (p, y))
      → (s ≡ p) × (x ≡ y)
  same_pool s p x y h = (cc, cc)

  give-InPrefix :
      (p p' : FakePool Host D) (now : ℕ) (host : Host) (ip ip' : ℕ)
      → WellFormed dec disk p
      → InPrefix p.prefix p.domain_to_ip
      → contains p.prefix ip ≡ true
      → give dec disk p now host ip ≡ some (p', ip')
      → (contains p.prefix ip' ≡ true) × InPrefix p.prefix p'.domain_to_ip
  unfolding give fake_add
  give-InPrefix p p' now host ip ip' w i within h =
      let f = p.domain_to_ip in
      let k = reverse_add-Keeps dec ℕ_discrete f.lru now host ip [] w.valid in
      let positive = w.positive in
      let full : (f.size == 0) ≡ false = ground arith in
      let (is_p, is_ip) = same_pool _ p' ip ip' (rw (give, full, k.returns) at h) in
      (
        rw (← is_ip) within,
        rw (← is_p) (
            reverse_add-Passes dec ℕ_discrete (contains p.prefix) f.lru k.after now host ip []
              k.result w.valid i within k.returns),
      )

  value_exist-InPrefix :
      (f f' : FakeLru Host D) (q : Prefix) (now ip : ℕ) (b : Bool)
      → f.size ≢ 0
      → ValidReverse dec ℕ_discrete f.lru
      → InPrefix q f
      → fake_value_exist dec disk f now ip ≡ some (f', b)
      → InPrefix q f'
  unfolding fake_value_exist
  value_exist-InPrefix f f' q now ip b positive v i h =
      let k = value_exist-Keeps dec ℕ_discrete f.lru now ip v in
      let full : (f.size == 0) ≡ false = ground arith in
      let h' : ◌≡◌ {A = Option (FakeLru Host D × Bool)}
          (some (record f { lru = k.after; disk = on_disk dec disk f.disk k.result.0 }, k.result.1))
          (some (f', b)) =
        rw (fake_value_exist, full, k.returns) at h in
      let is_lru : k.after ≡ f'.lru = cc in
      rw (← is_lru)
        (value_exist-Passes dec ℕ_discrete (contains q) f.lru k.after now ip k.result v i k.returns)

  load-InPrefix :
      (f f' : FakeLru Host D) (q : Prefix) (now : ℕ) (host : Host) (x : Option ℕ)
      → f.size ≢ 0
      → ValidReverse dec ℕ_discrete f.lru
      → InPrefix q f
      → fake_load dec disk f now host ≡ some (f', x)
      → InPrefix q f'
  unfolding fake_load
  load-InPrefix f f' q now host x positive v i h =
      let k = reverse_load_key-Keeps dec ℕ_discrete f.lru now host false false v in
      let full : (f.size == 0) ≡ false = ground arith in
      let h' : ◌≡◌ {A = Option (FakeLru Host D × Option ℕ)}
          (some (
            record f { lru = k.after; disk = on_disk dec disk f.disk k.result.0 },
            k.result.1.found,
          ))
          (some (f', x)) =
        rw (fake_load, full, k.returns) at h in
      let is_lru : k.after ≡ f'.lru = cc in
      rw (← is_lru) (
        reverse_load_key-Passes dec ℕ_discrete (contains q) f.lru k.after now host false false
          k.result v i k.returns)

  popped :
      (test : ℕ → Bool) (o : Option (LruEntry Host ℕ)) (ip : ℕ)
      → PopPasses test o
      → (elim o [ none ↦ none | some e ↦ some e.value ]) ≡ some ip
      → test ip ≡ true
  popped test none ip passes h = absurd (cc h)
  popped test (some e) ip passes h = let is_ip : e.value ≡ ip = cc in rw is_ip at passes

  popped-InPrefix :
      (f : FakeLru Host D) (q : Prefix) (ip : ℕ)
      → InPrefix q f
      → fake_last_pop_value dec disk f ≡ some ip
      → contains q ip ≡ true
  unfolding fake_last_pop_value last_pop_value
  popped-InPrefix f q ip i h = elim (Bool-cases (f.size == 0)) [
    | inl empty ↦ absurd (cc (rw (fake_last_pop_value, empty) at h))
    | inr full ↦
        popped (contains q) f.lru.lru.last_pop_entry ip i.pop (rw (fake_last_pop_value, full) at h)
  ]

  first-contains : (q : Prefix) → 1 ≤ q.first → 1 ≤ q.count → contains q (suc (q.first - 1)) ≡ true
  unfolding contains
  first-contains q one some_address = ground arith

  search-InPrefix :
      (fuel : ℕ) (p p' : FakePool Host D) (now : ℕ) (host : Host) (looped : Bool) (ip : ℕ)
      → WellFormed dec disk p
      → InPrefix p.prefix p.domain_to_ip
      → search dec disk fuel p now host looped ≡ some (p', ip)
      → (contains p.prefix ip ≡ true) × InPrefix p.prefix p'.domain_to_ip
  unfolding search
  search-InPrefix zero p p' now host looped ip w i h = absurd (cc h)
  search-InPrefix (suc fuel) p p' now host looped ip w i h =
      let c = value_exist-Checks dec disk p.domain_to_ip now (suc p.current) w.positive w.valid in
      elim (Bool-cases (contains p.prefix (suc p.current))) [
        | inl within ↦
            let next : FakePool Host D = record p {
              current = suc p.current;
              domain_to_ip = c.after;
            } in
            let w' : WellFormed dec disk next =
              moved dec disk p c.after (suc p.current) w c.is_size c.valid (omega (arith, w.low))
                (contains-lt dec disk p.prefix (suc p.current) within) in
            let i' : InPrefix p.prefix c.after =
              value_exist-InPrefix p.domain_to_ip c.after p.prefix now (suc p.current) c.exists
                w.positive w.valid i c.returns in
            elim (Bool-cases c.exists) [
              | inl taken ↦
                  search-InPrefix fuel next p' now host looped ip w' i'
                    (rw (search, within, c.returns, taken) at h)
              | inr free ↦
                  give-InPrefix next p' now host (suc p.current) ip w' i' within
                    (rw (search, within, c.returns, free) at h)
            ]
        | inr past ↦ elim (Bool-cases looped) [
          | inl again ↦
              give-InPrefix (record p { current = suc (p.prefix.first - 1) }) p' now host
                (suc (p.prefix.first - 1)) ip
                (moved dec disk p p.domain_to_ip (suc (p.prefix.first - 1)) w refl w.valid
                  (omega (arith, w.one)) (omega (arith, w.one, w.some_address)))
                i (first-contains p.prefix w.one w.some_address) (rw (search, past, again) at h)
          | inr first_time ↦
              search-InPrefix fuel (record p { current = p.prefix.first - 1 }) p' now host true ip
                (moved dec disk p p.domain_to_ip (p.prefix.first - 1) w refl w.valid
                  (omega (arith, w.one)) (omega (arith, w.one, w.inside)))
                i (rw (search, past, first_time) at h)
        ]
      ]

  held-InPrefix :
      (f : FakeLru Host D) (q : Prefix) (host : Host) (ip : ℕ)
      → InPrefix q f
      → Holds dec disk f host ip
      → contains q ip ≡ true
  held-InPrefix f q host ip i (e, found, is_ip) =
      rw (← is_ip) (find_key-AllValues dec (contains q) host e (entries f.lru.lru.list) i.all found)

  get_locked-InPrefix :
      (fuel : ℕ) (p p' : FakePool Host D) (now : ℕ) (host : Host) (ip : ℕ)
      → WellFormed dec disk p
      → InPrefix p.prefix p.domain_to_ip
      → get_locked dec disk fuel p now host ≡ some (p', ip)
      → (contains p.prefix ip ≡ true) × InPrefix p.prefix p'.domain_to_ip
  unfolding get_locked
  get_locked-InPrefix fuel p p' now host ip w i h =
      let t = fake_load-Loads dec disk p.domain_to_ip now host w.positive w.valid in
      let w' = with_cache dec disk p t.after w t.is_size t.valid in
      let i' =
        load-InPrefix p.domain_to_ip t.after p.prefix now host t.result w.positive w.valid i
          t.returns in
      elim (Option-cases t.result) [
        | inr (a, hit) ↦
            let (is_p, is_ip) =
              same_pool (record p { domain_to_ip = t.after }) p' a ip
                (rw (get_locked, t.returns, hit) at h) in
            (
              rw (← is_ip) (held-InPrefix t.after p.prefix host a i' (t.holds a hit)),
              rw (← is_p) i',
            )
        | inl miss ↦ elim (Option-cases (fake_last_pop_value dec disk t.after)) [
          | inr (a, last) ↦
              give-InPrefix (record p { domain_to_ip = t.after }) p' now host a ip w' i'
                (popped-InPrefix t.after p.prefix a i' last)
                (rw (get_locked, t.returns, miss, last) at h)
          | inl none_last ↦
              search-InPrefix fuel (record p { domain_to_ip = t.after }) p' now host false ip w' i'
                (rw (get_locked, t.returns, miss, none_last) at h)
        ]
      ]

  pub get_fake_ip_for_domain-InPrefix :
      (fuel : ℕ) (p p' : FakePool Host D) (now : ℕ) (host : Host) (ip : ℕ)
      → WellFormed dec disk p
      → InPrefix p.prefix p.domain_to_ip
      → get_fake_ip_for_domain dec disk fuel p now host ≡ some (p', ip)
      → (contains p.prefix ip ≡ true) × InPrefix p.prefix p'.domain_to_ip
  unfolding get_fake_ip_for_domain
  get_fake_ip_for_domain-InPrefix fuel p p' now host ip w i h =
      let t = fake_load-Loads dec disk p.domain_to_ip now host w.positive w.valid in
      let w' = with_cache dec disk p t.after w t.is_size t.valid in
      let i' =
        load-InPrefix p.domain_to_ip t.after p.prefix now host t.result w.positive w.valid i
          t.returns in
      elim (Option-cases t.result) [
        | inr (a, hit) ↦
            let (is_p, is_ip) =
              same_pool (record p { domain_to_ip = t.after }) p' a ip
                (rw (get_fake_ip_for_domain, t.returns, hit) at h) in
            (
              rw (← is_ip) (held-InPrefix t.after p.prefix host a i' (t.holds a hit)),
              rw (← is_p) i',
            )
        | inl miss ↦
            get_locked-InPrefix fuel (record p { domain_to_ip = t.after }) p' now host ip w' i'
              (rw (get_fake_ip_for_domain, t.returns, miss) at h)
      ]
