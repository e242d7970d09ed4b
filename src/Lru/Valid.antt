-- ===== src/Lru/Valid.antt =====
-- The cache's invariant: the mapping leads each key to its element, and the numbers and the keys of
-- the elements are distinct.
use yuhaiin.Prelude.{
  ℕ, ◌<◌, ◌≡◌, refl, sym, ap, ◌∙◌, none, some, List, [], ◌∷◌, arith, if◌then◌else◌, same, same→eq,
  lookup, lookup-erase, lookup-assign, IsMap, erase-IsMap, assign-IsMap,
}
use yuhaiin.Lru.{
  LruEntry, Element, Lru, remove_id, put_in_front, remove_element, push_front, new_lru,
}
use yuhaiin.Lru.Recency.{
  DistinctKeys, erase_key-DistinctKeys, has_key-erase_key_self, has_key-find_key,
}
use yuhaiin.Lru.Elements.{
  entries, DistinctIds, AllBelow, AllBelow-suc, AllBelow-fresh, AllBelow-remove_id,
  has_id-remove_id_self, remove_id-DistinctIds, id_of, id_of-none, Found, id_of-remove_id,
}

module _ {ℓ} {K V : Type ℓ} (dec : Discrete K) where
  pub record Valid (l : Lru K V) : Type ℓ where
    pub agree : (k : K) → lookup dec k l.mapping ≡ id_of dec k l.list
    pub ids : DistinctIds l.list
    pub keys : DistinctKeys dec (entries l.list)
    pub below : AllBelow l.next l.list
    pub one_each : IsMap dec l.mapping

  pub new_lru-Valid : (capacity timeout : ℕ) → Valid (new_lru capacity timeout)
  unfolding new_lru lookup id_of entries
  new_lru-Valid capacity timeout = record {
    agree = λ k. refl;
    ids = tt;
    keys = tt;
    below = tt;
    one_each = tt;
  }

  pub remove_element-Valid :
      (l : Lru K V) (k : K) (i : ℕ) (v : Valid l)
      → id_of dec k l.list ≡ some i
      → (f : Found dec k i l.list) → Valid ((remove_element dec l f.element).0)
  unfolding remove_element
  remove_element-Valid l k i v h f =
      rw (f.is_id, f.is_key)
        (record {
          agree = λ j.
              lookup-erase dec k j l.mapping
              ∙ ap (λ o. if same dec k j then none else o) (v.agree j)
              ∙ sym (id_of-remove_id dec k j i l.list v.ids v.keys h);
          ids = remove_id-DistinctIds i l.list v.ids;
          keys = rw f.removed (erase_key-DistinctKeys dec k (entries l.list) v.keys);
          below = AllBelow-remove_id l.next i l.list v.below;
          one_each = erase-IsMap dec k l.mapping v.one_each;
        })

  pub push_front-Valid :
      (l : Lru K V) (e : LruEntry K V)
      → Valid l
      → lookup dec e.key l.mapping ≡ none
      → Valid (push_front dec l e)
  unfolding push_front id_of entries
  push_front-Valid l e v new = record {
    agree = λ j.
        lookup-assign dec e.key j l.next l.mapping
        ∙ ap (λ o. if same dec e.key j then some l.next else o) (v.agree j);
    ids = (AllBelow-fresh l.next l.list v.below, v.ids);
    keys = (
      has_key-find_key dec e.key (entries l.list)
          (id_of-none dec e.key l.list (sym (v.agree e.key) ∙ new)),
      v.keys,
    );
    below = (omega arith, AllBelow-suc l.next l.list v.below);
    one_each = assign-IsMap dec e.key l.next l.mapping v.one_each;
  }

  moved :
      (j k : K) (i : ℕ) (l : Lru K V)
      → Valid l
      → id_of dec k l.list ≡ some i
      → lookup dec j l.mapping ≡ (if same dec k j then some i else id_of dec j (remove_id i l.list))
  moved j k i l v h =
      ground (arith, v.agree j, id_of-remove_id dec k j i l.list v.ids v.keys h, same→eq dec k j)

  below_found :
      (k : K) (i n : ℕ) (xs : List (Element K V)) → AllBelow n xs → id_of dec k xs ≡ some i → i < n
  unfolding id_of
  below_found k i n [] b h = cc
  below_found k i n (x ∷ xs) (lt, b) h = ground (arith, below_found k i n xs b)

  -- The element of `k` with another entry for `k`, moved to the front.
  pub put_in_front-Valid :
      (l : Lru K V) (k : K) (i : ℕ) (v : Valid l)
      → id_of dec k l.list ≡ some i
      → (f : Found dec k i l.list) (e : LruEntry K V) → e.key ≡ k
      → Valid (record l { list = put_in_front f.element e l.list })
  unfolding put_in_front id_of entries
  put_in_front-Valid l k i v h f e is_k =
      rw (f.is_id, is_k)
        (record {
          agree = λ j. moved j k i l v h;
          ids = (has_id-remove_id_self i l.list v.ids, remove_id-DistinctIds i l.list v.ids);
          keys = rw f.removed (
            has_key-erase_key_self dec k (entries l.list) v.keys,
            erase_key-DistinctKeys dec k (entries l.list) v.keys,
          );
          below =
              (below_found k i l.next l.list v.below h, AllBelow-remove_id l.next i l.list v.below);
          one_each = v.one_each;
        })
