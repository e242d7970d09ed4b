-- ===== src/Cidr/Family.antt =====
-- The matcher for both address families, against a table for each.
use yuhaiin.Prelude.{
  ℕ, ◌≡◌, Bool, List, [], ◌∷◌, none, some, contains, take, Option-cases, inl, inr,
}
use yuhaiin.Cidr.{
  Addr, v4, v6, Cidr, new_cidr, clear, insert_ip, remove_ip, search_ip, bits, to4, to16, search,
}
use yuhaiin.Cidr.Table.{Table, scan, drop_prefix}
use yuhaiin.Cidr.Refines.{
  Represents, IsNode, search-scan, insert-Represents, remove-Represents, remove-IsNode,
  new_trie-Represents,
}

-- A call that changes the matcher.
pub data Op {ℓ} (A : Type ℓ) : Type ℓ where
  insert_op : Addr → ℕ → A → Op A
  remove_op : Addr → ℕ → Op A
  clear_op : Op A

module _ {ℓ} {A : Type ℓ} where
  -- The tables after a call.
  pub note : Op A → Table A × Table A → Table A × Table A
  note (insert_op (v4 ip) n m) (es, fs) = ((take n (bits ip), m) ∷ es, fs)
  note (insert_op (v6 ip) n m) (es, fs) = (es, (take n (bits ip), m) ∷ fs)
  note (remove_op (v4 ip) n) (es, fs) = (drop_prefix (take n (bits ip)) es, fs)
  note (remove_op (v6 ip) n) (es, fs) = (es, drop_prefix (take n (bits ip)) fs)
  note clear_op (es, fs) = ([], [])

  pub note_all : List (Op A) → Table A × Table A → Table A × Table A
  note_all [] e = e
  note_all (o ∷ os) e = note_all os (note o e)

module _ {ℓ} {A : Type ℓ} (dec : Discrete A) where
  unfoldable pub step : Op A → Cidr A → Cidr A
  step (insert_op a n m) c = insert_ip dec c a n m
  step (remove_op a n) c = remove_ip c a n
  step clear_op c = clear c

  unfoldable pub run : List (Op A) → Cidr A → Cidr A
  run [] c = c
  run (o ∷ os) c = run os (step o c)

  -- The answer that a scan of the tables gives: the IPv4 table for four bytes and for the
  -- IPv4-mapped sixteen, else the IPv6 table.
  pub lookup : Table A × Table A → List ℕ → A → Bool
  lookup (es, fs) ip x = elim (to4 ip) [
    | some four ↦ scan dec es (bits four) x
    | none ↦ scan dec fs (bits (to16 ip)) x
  ]

  record Agrees (c : Cidr A) (e : Table A × Table A) : Type ℓ where
    v4_root : IsNode c.v4_cidr_trie
    v6_root : IsNode c.v6_cidr_trie
    v4_table : Represents dec c.v4_cidr_trie e.0
    v6_table : Represents dec c.v6_cidr_trie e.1

  step-Agrees :
      (o : Op A) (c : Cidr A) (e : Table A × Table A) → Agrees c e → Agrees (step o c) (note o e)
  unfolding step note insert_ip remove_ip clear
  step-Agrees (insert_op (v4 ip) n m) c e g =
      let (root, table) = insert-Represents dec c.v4_cidr_trie e.0 ip n m g.v4_root g.v4_table in
      record { v4_root = root; v6_root = g.v6_root; v4_table = table; v6_table = g.v6_table }
  step-Agrees (insert_op (v6 ip) n m) c e g =
      let (root, table) = insert-Represents dec c.v6_cidr_trie e.1 ip n m g.v6_root g.v6_table in
      record { v4_root = g.v4_root; v6_root = root; v4_table = g.v4_table; v6_table = table }
  step-Agrees (remove_op (v4 ip) n) c e g = record {
    v4_root = remove-IsNode dec c.v4_cidr_trie ip n g.v4_root;
    v6_root = g.v6_root;
    v4_table = remove-Represents dec c.v4_cidr_trie e.0 ip n g.v4_table;
    v6_table = g.v6_table;
  }
  step-Agrees (remove_op (v6 ip) n) c e g = record {
    v4_root = g.v4_root;
    v6_root = remove-IsNode dec c.v6_cidr_trie ip n g.v6_root;
    v4_table = g.v4_table;
    v6_table = remove-Represents dec c.v6_cidr_trie e.1 ip n g.v6_table;
  }
  step-Agrees clear_op c e g = cleared
    where
      cleared : Agrees (clear c) ([], [])
      cleared = record {
        v4_root = (new_trie-Represents dec).0;
        v6_root = (new_trie-Represents dec).0;
        v4_table = (new_trie-Represents dec).1;
        v6_table = (new_trie-Represents dec).1;
      }

  run-Agrees :
      (os : List (Op A)) (c : Cidr A) (e : Table A × Table A)
      → Agrees c e
      → Agrees (run os c) (note_all os e)
  unfolding run note_all
  run-Agrees [] c e g = g
  run-Agrees (o ∷ os) c e g = run-Agrees os (step o c) (note o e) (step-Agrees o c e g)

  Agrees-lookup :
      (c : Cidr A) (e : Table A × Table A) (ip : List ℕ) (x : A)
      → Agrees c e
      → contains dec (search_ip c ip) x ≡ lookup e ip x
  unfolding search_ip lookup search
  Agrees-lookup c e ip x g = elim (Option-cases (to4 ip)) [
    | inl four_not ↦
        rw (four_not, search_ip, lookup)
          (search-scan dec (bits (to16 ip)) c.v6_cidr_trie e.1 x g.v6_table)
    | inr (four, is_four) ↦
        rw (is_four, search_ip, lookup)
          (search-scan dec (bits four) c.v4_cidr_trie e.0 x g.v4_table)
  ]

  -- After any sequence of insertions, removals and clearings on a new matcher, a search finds a mark
  -- exactly when the scan of the tables does: some prefix that was inserted with the mark, and not
  -- removed or cleared since, covers the address.
  pub run-lookup :
      (os : List (Op A)) (ip : List ℕ) (x : A)
      → contains dec (search_ip (run os new_cidr) ip) x ≡ lookup (note_all os ([], [])) ip x
  run-lookup os ip x =
      Agrees-lookup (run os new_cidr) (note_all os ([], [])) ip x
        (run-Agrees os new_cidr ([], []) start)
    where
      start : Agrees new_cidr ([], [])
      start =
          unfold new_cidr in
          record {
            v4_root = (new_trie-Represents dec).0;
            v6_root = (new_trie-Represents dec).0;
            v4_table = (new_trie-Represents dec).1;
            v6_table = (new_trie-Represents dec).1;
          }
