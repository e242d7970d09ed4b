-- ===== src/Tests/Structures.antt =====
-- The theorems on the ring buffer and the tries at concrete inputs.
use yuhaiin.Ring.History.{Call, push_call, pop_call, Served, serve, serve-fifo}
use yuhaiin.Prelude.{◌-◌, ◌*◌, ◌<◌, ◌^◌, some, List, []}
use yuhaiin.Paging.{normal_page, normal_size}
use yuhaiin.Prelude.{
  ℕ, ◌≡◌, refl, true, some, List, [], ◌∷◌, ◌++◌, replicate, arith, contains, ℕ_discrete,
}
use yuhaiin.Bytes.{Bytes}
use yuhaiin.Cidr.{v4, v6, new_cidr, search_ip}
use yuhaiin.Cidr.Family
use yuhaiin.Cidr.Family.{Op, insert_op, remove_op, run, note_all, run-lookup}
use yuhaiin.Domain.{new_fqdn, batch, search_string}
use yuhaiin.Domain.Rules
use yuhaiin.Domain.Queries.{path, rules, batch-lookup}
use yuhaiin.Ring.{RingBuffer, new_ring_buffer}
use yuhaiin.Ring.Contents.{IsValid, contents}

-- Three places, full, the oldest element in the middle.
abbrev full_ring : RingBuffer ℕ
full_ring = record { ring = 7 ∷ 5 ∷ 6 ∷ []; head_pos = 1; tail_pos = 1; full = true }

full_ring-IsValid : IsValid full_ring
full_ring-IsValid = record { head_in = omega arith; tail_in = omega arith; met = λ _. refl }

-- 10.0.0.0/8 is marked 1, 10.1.0.0/16 is marked 2 and removed again, ::/0 is marked 3.
abbrev cidr_calls : List (Op ℕ)
cidr_calls =
    insert_op (v4 (10 ∷ 0 ∷ 0 ∷ 0 ∷ [])) 8 1
    ∷ insert_op (v4 (10 ∷ 1 ∷ 0 ∷ 0 ∷ [])) 16 2
    ∷ remove_op (v4 (10 ∷ 1 ∷ 0 ∷ 0 ∷ [])) 16
    ∷ insert_op (v6 (replicate 16 0)) 0 3
    ∷ []

run-lookup_example :
    contains ℕ_discrete (search_ip (run ℕ_discrete cidr_calls new_cidr) (10 ∷ 1 ∷ 2 ∷ 3 ∷ [])) 1
    ≡ Family.lookup ℕ_discrete (note_all cidr_calls ([], [])) (10 ∷ 1 ∷ 2 ∷ 3 ∷ []) 1
run-lookup_example = run-lookup ℕ_discrete cidr_calls (10 ∷ 1 ∷ 2 ∷ 3 ∷ []) 1

-- `a.b`, `*.b` and the empty name.
abbrev domain_items : List (Bytes × ℕ)
domain_items = (b'a' ∷ b'.' ∷ b'b' ∷ [], 1) ∷ (b'*' ∷ b'.' ∷ b'b' ∷ [], 2) ∷ ([], 3) ∷ []

batch-lookup_example :
    contains ℕ_discrete
      (search_string (batch ℕ_discrete new_fqdn domain_items) (b'a' ∷ b'.' ∷ b'b' ∷ []))
      1
    ≡ Rules.lookup ℕ_discrete (rules domain_items []) (path (b'a' ∷ b'.' ∷ b'b' ∷ [])) 1
batch-lookup_example = batch-lookup ℕ_discrete domain_items (b'a' ∷ b'.' ∷ b'b' ∷ []) 1

abbrev ten_items : List ℕ
ten_items = 1 ∷ 2 ∷ 3 ∷ 4 ∷ 5 ∷ 6 ∷ 7 ∷ 8 ∷ 9 ∷ 10 ∷ []

second_page_starts : (normal_page 2 - 1) * normal_size 4 < 2 ^ 32
unfolding normal_page normal_size
second_page_starts = omega arith

abbrev some_calls : List (Call ℕ)
some_calls = push_call 4 7 ∷ push_call 4 8 ∷ push_call 1 9 ∷ pop_call ∷ []

serve-fifo_example :
    (s : Served ℕ) × (serve 0 some_calls (new_ring_buffer 0 1) ≡ some s)
    × (s.popped ++ contents s.buffer ≡ s.accepted)
serve-fifo_example = serve-fifo 0 1 some_calls
