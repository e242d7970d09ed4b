-- ===== src/Tests/Pools.antt =====
-- The theorems on the addresses for domains at concrete inputs.
use yuhaiin.Prelude.{
  ℕ, ◌≡◌, refl, true, none, some, List, [], ◌∷◌, Map, lookup, assign, erase, ℕ_discrete, arith,
  same,
}
use yuhaiin.Lru.Recency.{find_key}
use yuhaiin.Lru.Elements.{entries}
use yuhaiin.ReverseLru.{new_reverse_lru}
use yuhaiin.ReverseLru.History.{new_reverse_lru-ValidReverse}
use yuhaiin.FakeIp.{
  contains, Prefix, Disk, FakePool, lru_size, new_fake_ip_pool, get_fake_ip_for_domain,
}
use yuhaiin.FakeIp.Search.{WellFormed, Gives, Holds}
use yuhaiin.FakeIp.Domains.{fuel_for, get_fake_ip_for_domain-Gives}
use yuhaiin.FakeIp.Reserved.{get_fake_ip_for_domain-contains}
use yuhaiin.FakeIp.History.{
  Request, domain_request, address_request, answer_all, Answers, new_fake_ip_pool-Answers,
  Holds-unique,
}

-- A disk that keeps the host of each address.
abbrev memory : Disk ℕ (Map ℕ ℕ)
memory = record {
  disk_put = λ d host ip. assign ℕ_discrete ip host d;
  disk_delete = λ d host ip. erase ℕ_discrete ip d;
  disk_delete_address = λ d ip. erase ℕ_discrete ip d;
  disk_get = λ d ip. lookup ℕ_discrete ip d;
}

abbrev four : Prefix
four = record { first = 40; count = 4 }

abbrev pool : FakePool ℕ (Map ℕ ℕ)
pool = record {
  current = 39;
  domain_to_ip = record { size = 3; lru = new_reverse_lru 3 0; disk = [] };
  prefix = four;
}

pool-WellFormed : WellFormed ℕ_discrete memory pool
pool-WellFormed = record {
  positive = λ h. omega arith;
  one = omega arith;
  some_address = omega arith;
  low = omega arith;
  inside = omega arith;
  valid = new_reverse_lru-ValidReverse ℕ_discrete ℕ_discrete 3 0;
}

get_fake_ip_for_domain-Gives_example :
    Gives ℕ_discrete memory four
      (get_fake_ip_for_domain ℕ_discrete memory (fuel_for ℕ_discrete memory four) pool 5 7)
      7
get_fake_ip_for_domain-Gives_example =
    get_fake_ip_for_domain-Gives ℕ_discrete memory pool 5 7 pool-WellFormed

-- Five domains for the three places of a prefix of four addresses, one of them restored from the disk.
abbrev requests : List (Request ℕ)
requests =
    domain_request 5 7
    ∷ domain_request 5 8
    ∷ address_request 6 41
    ∷ domain_request 6 9
    ∷ domain_request 7 7
    ∷ domain_request 8 10
    ∷ []

size_test : lru_size 32 30 ≡ 3
unfolding lru_size
size_test = refl

new_fake_ip_pool-Answers_example :
    (p : FakePool ℕ (Map ℕ ℕ)) × (new_fake_ip_pool ℕ_discrete memory four 32 30 3
        ((42, 6) ∷ [])
        ((42, 6) ∷ [])
      ≡ some p)
    × Answers ℕ_discrete memory (answer_all ℕ_discrete memory p requests)
new_fake_ip_pool-Answers_example =
    new_fake_ip_pool-Answers ℕ_discrete memory four 32 30 3 ((42, 6) ∷ []) ((42, 6) ∷ []) requests
      (omega arith) (omega arith) (λ h. omega (arith, h, size_test))

abbrev pool_after : FakePool ℕ (Map ℕ ℕ)
pool_after = record {
  current = 40;
  domain_to_ip = record {
    size = 3;
    lru = record {
      lru = record {
        list = record { id = 0; entry = record { key = 7; value = 40; expire = 0 } } ∷ [];
        mapping = (7, 0) ∷ [];
        next = 1;
        last_pop_entry = none;
        capacity = 3;
        timeout = 0;
      };
      reverse_map = (40, 7) ∷ [];
    };
    disk = (40, 7) ∷ [];
  };
  prefix = four;
}

made_pool : new_fake_ip_pool ℕ_discrete memory four 32 30 3 [] [] ≡ some pool
unfolding new_fake_ip_pool
made_pool = refl

answered : answer_all ℕ_discrete memory pool (domain_request 5 7 ∷ []) ≡ some pool_after
unfolding answer_all lookup assign same ℕ_discrete new_reverse_lru
answered = refl

held : Holds ℕ_discrete memory pool_after.domain_to_ip 7 40
unfolding find_key entries same ℕ_discrete
held = (record { key = 7; value = 40; expire = 0 }, refl, refl)

Holds-unique_example : ◌≡◌ {A = ℕ} 7 7
Holds-unique_example =
    Holds-unique ℕ_discrete memory four 32 30 3 [] [] (domain_request 5 7 ∷ []) pool pool_after 7 7
      40 (omega arith) (omega arith) (λ h. omega (arith, h, size_test)) made_pool answered held held

abbrev pool_given : FakePool ℕ (Map ℕ ℕ)
pool_given = record {
  current = 41;
  domain_to_ip = record {
    size = 3;
    lru = record {
      lru = record {
        list =
            record { id = 1; entry = record { key = 8; value = 41; expire = 0 } }
            ∷ record { id = 0; entry = record { key = 7; value = 40; expire = 0 } }
            ∷ [];
        mapping = (8, 1) ∷ (7, 0) ∷ [];
        next = 2;
        last_pop_entry = none;
        capacity = 3;
        timeout = 0;
      };
      reverse_map = (41, 8) ∷ (40, 7) ∷ [];
    };
    disk = (41, 8) ∷ (40, 7) ∷ [];
  };
  prefix = four;
}

given :
    get_fake_ip_for_domain ℕ_discrete memory (fuel_for ℕ_discrete memory four) pool_after 6 8
    ≡ some (pool_given, 41)
unfolding get_fake_ip_for_domain fuel_for lookup assign same ℕ_discrete
given = refl

get_fake_ip_for_domain-contains_example : contains four 41 ≡ true
get_fake_ip_for_domain-contains_example =
    get_fake_ip_for_domain-contains ℕ_discrete memory four 32 30 3 [] [] (domain_request 5 7 ∷ [])
      pool pool_after pool_given 6 8 41 (omega arith) (omega arith)
      (λ h. omega (arith, h, size_test)) made_pool answered given
