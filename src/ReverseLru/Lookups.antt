-- ===== src/ReverseLru/Lookups.antt =====
-- The lookups from a value.
use yuhaiin.Prelude.{ℕ, refl, Bool, true, false, Option, none, some, List, Option-cases, inl, inr}
use yuhaiin.Lru.{LruEntry}
use yuhaiin.Lru.Recency.{touch}
use yuhaiin.Lru.Elements.{entries}
use yuhaiin.ReverseLru.{ReverseLru, reverse_load, reverse_load_refresh_expire, value_exist}
use yuhaiin.ReverseLru.Inverse.{key_of}
use yuhaiin.ReverseLru.Calls.{ValidReverse, Keeps, reverse_load_key-Keeps}

module _ {ℓ} {K V : Type ℓ} (dec : Discrete K) (dec_value : Discrete V) where
  -- The entries after a lookup from a value: those of a load of its key.
  unfoldable pub touched_by : ℕ → ℕ → Bool → V → List (LruEntry K V) → List (LruEntry K V)
  unfolding key_of touch
  touched_by timeout now refresh v es = elim (key_of dec_value v es) [
    | none ↦ es
    | some k ↦ (touch dec timeout now k refresh false es).0
  ]

  stays :
      {R : Type ℓ} (r : ReverseLru K V) (x : R)
      → ValidReverse dec dec_value r
      → Keeps dec dec_value r (some (r, x)) (entries r.lru.list)
  stays r x v = record {
    after = r;
    result = x;
    returns = refl;
    valid = v;
    is_entries = refl;
    is_capacity = refl;
    is_timeout = refl;
  }

  instead :
      {R S : Type ℓ} (r : ReverseLru K V) (o : Option (ReverseLru K V × R))
      (es : List (LruEntry K V)) (x : S)
      → (t : Keeps dec dec_value r o es) → Keeps dec dec_value r (some (t.after, x)) es
  instead r o es x t = record {
    after = t.after;
    result = x;
    returns = refl;
    valid = t.valid;
    is_entries = t.is_entries;
    is_capacity = t.is_capacity;
    is_timeout = t.is_timeout;
  }

  module _ (r : ReverseLru K V) (now : ℕ) (value : V) (v : ValidReverse dec dec_value r) where
    pub reverse_load-Keeps :
        Keeps dec dec_value r
          (reverse_load dec dec_value r now value)
          (touched_by r.lru.timeout now false value (entries r.lru.list))
    unfolding reverse_load touched_by
    reverse_load-Keeps = elim (Option-cases (key_of dec_value value (entries r.lru.list))) [
      | inl free ↦ rw (v.inverse.agree value, free, reverse_load, touched_by) (stays r _ v)
      | inr (k, held) ↦
          let t = reverse_load_key-Keeps dec dec_value r now k false false v in
          rw (v.inverse.agree value, held, reverse_load, touched_by, t.returns) (instead r _ _ _ t)
    ]

    pub reverse_load_refresh_expire-Keeps :
        Keeps dec dec_value r
          (reverse_load_refresh_expire dec dec_value r now value)
          (touched_by r.lru.timeout now true value (entries r.lru.list))
    unfolding reverse_load_refresh_expire touched_by
    reverse_load_refresh_expire-Keeps =
        elim (Option-cases (key_of dec_value value (entries r.lru.list))) [
          | inl free ↦
              rw (v.inverse.agree value, free, reverse_load_refresh_expire, touched_by)
                (stays r _ v)
          | inr (k, held) ↦
              let t = reverse_load_key-Keeps dec dec_value r now k true false v in
              rw (v.inverse.agree value, held, reverse_load_refresh_expire, touched_by, t.returns)
                (instead r _ _ _ t)
        ]

    pub value_exist-Keeps :
        Keeps dec dec_value r
          (value_exist dec dec_value r now value)
          (touched_by r.lru.timeout now false value (entries r.lru.list))
    unfolding value_exist touched_by
    value_exist-Keeps = elim (Option-cases (key_of dec_value value (entries r.lru.list))) [
      | inl free ↦ rw (v.inverse.agree value, free, value_exist, touched_by) (stays r _ v)
      | inr (k, held) ↦
          let t = reverse_load_key-Keeps dec dec_value r now k false false v in
          rw (v.inverse.agree value, held, value_exist, touched_by, t.returns) (instead r _ _ _ t)
    ]
