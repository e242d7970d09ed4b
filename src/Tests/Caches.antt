-- ===== src/Tests/Caches.antt =====
-- The theorems on the caches at concrete inputs.
use yuhaiin.Prelude.{
  ℕ, ◌≤◌, ◌≡◌, ◌↔◌, refl, Bool, true, false, some, List, [], ◌∷◌, inl, lookup, assign, length,
  ℕ_discrete, arith, same,
}
use yuhaiin.Lru.{load_or_add, LruEntry, Lru, Callback, new_lru, add, load, is_expired, new_entry}
use yuhaiin.Lru.Recency.{find_key}
use yuhaiin.Lru.Elements.{entries}
use yuhaiin.Lru.Valid.{Valid}
use yuhaiin.Lru.History.{
  Call, call_add, call_load, call_delete, call_clear_expired, run, run_ref, run-run_ref, run-Valid,
}
use yuhaiin.Lru.LoadOrAdd.{load_or_add-load}
use yuhaiin.Lru.Bounds.{length-run, add-load}
use yuhaiin.ReverseLru.{ReverseLru, new_reverse_lru}
use yuhaiin.ReverseLru.History.{ReverseCall, reverse_run, reverse_run-inverse}

-- Key 2 is the least recently used when key 3 comes.
abbrev lru_calls : List (Call ℕ ℕ)
lru_calls =
    call_add 5 1 10 []
    ∷ call_add 5 2 20 []
    ∷ call_load 6 1 false false
    ∷ call_add 7 3 30 []
    ∷ call_delete 4
    ∷ call_clear_expired 9
    ∷ []

abbrev lru_after : Lru ℕ ℕ
lru_after = record {
  list =
      record { id = 2; entry = record { key = 3; value = 30; expire = 0 } }
      ∷ record { id = 0; entry = record { key = 1; value = 10; expire = 0 } }
      ∷ [];
  mapping = (3, 2) ∷ (1, 0) ∷ [];
  next = 3;
  last_pop_entry = some (record { key = 2; value = 20; expire = 0 });
  capacity = 2;
  timeout = 0;
}

run-lru_calls : run ℕ_discrete (new_lru 2 0) lru_calls ≡ some lru_after
unfolding run lookup new_lru assign same ℕ_discrete
run-lru_calls = refl

run-run_ref_example :
    (l : Lru ℕ ℕ) × (run ℕ_discrete (new_lru 2 0) lru_calls ≡ some l)
    × (entries l.list ≡ run_ref ℕ_discrete 2 0 [] lru_calls)
run-run_ref_example = run-run_ref ℕ_discrete 2 0 lru_calls

run-Valid_example : Valid ℕ_discrete lru_after
run-Valid_example = run-Valid ℕ_discrete 2 0 lru_calls lru_after run-lru_calls

length-run_example : length (lru_after.list) ≤ 2
length-run_example = length-run ℕ_discrete 2 0 lru_calls lru_after (omega arith) run-lru_calls

lru_after-Valid : Valid ℕ_discrete lru_after
lru_after-Valid = run-Valid ℕ_discrete 2 0 lru_calls lru_after run-lru_calls

add-load_example :
    (a : Lru ℕ ℕ) × (b : Lru ℕ ℕ) × (ca : List (Callback ℕ ℕ)) × (e : Bool) × (add ℕ_discrete
        lru_after 8 4 40
        (3 ∷ [])
      ≡ some (a, ca))
    × (load ℕ_discrete a 11 4 false false ≡ some (b, ([], record { found = some 40; expired = e })))
unfolding is_expired new_entry
add-load_example =
    add-load ℕ_discrete lru_after 8 11 4 40 (3 ∷ []) false false lru_after-Valid (inl refl)

-- Key 1 is there, with the value 10.
load_or_add-load_example :
    (a : Lru ℕ ℕ) × (b : Lru ℕ ℕ) × (cs : List (Callback ℕ ℕ)) × (v : ℕ) × (ok : Bool) × (e : Bool)
    × (load_or_add ℕ_discrete lru_after 8 1 11 [] ≡ some (a, cs, v, ok))
    × (ok ≡ false → v ≡ 11)
    × (load ℕ_discrete a 9 1 false true ≡ some (b, ([], record { found = some v; expired = e })))
load_or_add-load_example = load_or_add-load ℕ_discrete lru_after 8 9 1 11 [] lru_after-Valid

-- The value 20 moves from key 2 to key 1, and key 3 evicts the least recently used key.
abbrev reverse_calls : List (ReverseCall ℕ ℕ)
reverse_calls =
    ReverseCall.call_add 5 1 10 []
    ∷ ReverseCall.call_add 5 2 20 []
    ∷ ReverseCall.call_add 6 1 20 []
    ∷ ReverseCall.call_reverse_load 7 20
    ∷ ReverseCall.call_add 8 3 30 []
    ∷ ReverseCall.call_value_exist 8 10
    ∷ ReverseCall.call_clear_expired 9
    ∷ []

reverse_run-inverse_example :
    (r : ReverseLru ℕ ℕ) × (reverse_run ℕ_discrete ℕ_discrete (new_reverse_lru 2 0) reverse_calls
      ≡ some r)
    × ((k : ℕ) (v : ℕ)
        → (lookup ℕ_discrete v r.reverse_map ≡ some k) ↔ (
            (e : LruEntry ℕ ℕ) × (find_key ℕ_discrete k (entries r.lru.list) ≡ some e)
            × (e.value ≡ v)))
reverse_run-inverse_example = reverse_run-inverse ℕ_discrete ℕ_discrete 2 0 reverse_calls
