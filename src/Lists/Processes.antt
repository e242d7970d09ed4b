-- ===== src/Lists/Processes.antt =====
-- The process matcher: what its searches find after each call, and which lists a refresh reads.
use Prim.Native.String.{String}
use yuhaiin.Prelude.{
  ◌≡◌, refl, Bool, true, false, ◌&&◌, ◌||◌, none, List, [], ◌∷◌, contains, contains-append,
  contains-add_new, add_new, same, same→eq, same_refl, inl, inr, Bool-cases, arith, lookup, erase,
  assign, lookup-assign, IsMap, assign-IsMap, if◌then◌else◌,
}
use yuhaiin.Bytes.{Bytes, bytes_discrete}
use yuhaiin.Lists.Entries.{string_discrete}
use yuhaiin.Lists.{
  ProcessMatcher, search_process, add_process, range_process, include_process, add_processes,
}

abbrev pub finds : ProcessMatcher → Bytes → String → Bool
finds h p x = contains string_discrete (search_process h p) x

search-add_process :
    (h : ProcessMatcher) (p q : Bytes) (l : String)
    → search_process (add_process p l h) q ≡ (
        if same bytes_discrete p q
        then add_new string_discrete l (search_process h p)
        else search_process h q)
unfolding add_process search_process
search-add_process h p q l =
    ground
      (arith, lookup-assign bytes_discrete p q (add_new string_discrete l (search_process h p)) h)

finds-add_process :
    (h : ProcessMatcher) (p q : Bytes) (l x : String)
    → finds (add_process p l h) q x
      ≡ (finds h q x || (same bytes_discrete p q && same string_discrete l x))
finds-add_process h p q l x = ground (
  arith,
  search-add_process h p q l,
  contains-add_new string_discrete l (search_process h p) x,
  same→eq bytes_discrete p q,
)

pub finds-add_processes :
    (h : ProcessMatcher) (iter : List Bytes) (q : Bytes) (l x : String)
    → finds (add_processes iter l h) q x
      ≡ (finds h q x || (contains bytes_discrete iter q && same string_discrete l x))
unfolding add_processes contains
finds-add_processes h [] q l x = ground arith
finds-add_processes h (p ∷ iter) q l x =
    ground (arith, finds-add_processes (add_process p l h) iter q l x, finds-add_process h p q l x)

add_process-IsMap :
    (h : ProcessMatcher) (p : Bytes) (l : String)
    → IsMap bytes_discrete h
    → IsMap bytes_discrete (add_process p l h)
unfolding add_process
add_process-IsMap h p l m = assign-IsMap bytes_discrete p _ h m

pub add_processes-IsMap :
    (h : ProcessMatcher) (iter : List Bytes) (l : String)
    → IsMap bytes_discrete h
    → IsMap bytes_discrete (add_processes iter l h)
unfolding add_processes
add_processes-IsMap h [] l m = m
add_processes-IsMap h (p ∷ iter) l m =
    add_processes-IsMap (add_process p l h) iter l (add_process-IsMap h p l m)

finds-cons :
    (q : Bytes) (names : List String) (h : ProcessMatcher) (p : Bytes) (x : String)
    → finds ((q, names) ∷ h) p x
      ≡ (if same bytes_discrete q p then contains string_discrete names x else finds h p x)
unfolding search_process lookup
finds-cons q names h p x = ground arith

finds_absent :
    (p : Bytes) (h : ProcessMatcher) (x : String)
    → lookup bytes_discrete p h ≡ none
    → finds h p x ≡ false
unfolding search_process contains
finds_absent p h x e = ground arith

include-cons :
    (q : Bytes) (names : List String) (h : ProcessMatcher) (x : String)
    → include_process ((q, names) ∷ h) x ≡ (contains string_discrete names x || include_process h x)
unfolding include_process range_process
include-cons q names h x = contains-append string_discrete names (range_process h) x

erase_absent :
    (p : Bytes) (h : ProcessMatcher)
    → lookup bytes_discrete p h ≡ none
    → erase bytes_discrete p h ≡ h
unfolding lookup erase
erase_absent p [] e = refl
erase_absent p ((q, names) ∷ h) e = ground (arith, erase_absent p h)

-- The names of a process stand beside those of the others.
include-erase :
    (h : ProcessMatcher) (p : Bytes) (x : String)
    → IsMap bytes_discrete h
    → include_process h x ≡ (finds h p x || include_process (erase bytes_discrete p h) x)
unfolding erase
include-erase [] p x m = unfold include_process range_process search_process lookup contains in refl
include-erase ((q, names) ∷ h) p x (new, m) = elim (Bool-cases (same bytes_discrete q p)) [
  | inl hit ↦
      rw (hit, finds-cons q names h p x, hit, include-cons q names h x)
        (ground (arith, erase_absent p h (rw (← same→eq bytes_discrete q p hit) new)))
  | inr miss ↦
      rw
        (
          miss,
          finds-cons q names h p x,
          miss,
          include-cons q names h x,
          include-cons q names (erase bytes_discrete p h) x,
        )
        (ground (arith, include-erase h p x m))
]

include-add_process :
    (h : ProcessMatcher) (p : Bytes) (l x : String)
    → IsMap bytes_discrete h
    → include_process (add_process p l h) x ≡ (include_process h x || same string_discrete l x)
unfolding add_process assign
include-add_process h p l x m = ground (
  arith,
  include-cons p (add_new string_discrete l (search_process h p)) (erase bytes_discrete p h) x,
  contains-add_new string_discrete l (search_process h p) x,
  include-erase h p x m,
)

unfoldable pub some_entry : List Bytes → Bool
some_entry [] = false
some_entry (v ∷ vs) = true

pub include-add_processes :
    (h : ProcessMatcher) (iter : List Bytes) (l x : String)
    → IsMap bytes_discrete h
    → include_process (add_processes iter l h) x
      ≡ (include_process h x || (some_entry iter && same string_discrete l x))
unfolding add_processes some_entry
include-add_processes h [] l x m = ground arith
include-add_processes h (p ∷ []) l x m = ground (arith, include-add_process h p l x m)
include-add_processes h (p ∷ (q ∷ iter)) l x m = ground (
  arith,
  include-add_processes (add_process p l h) (q ∷ iter) l x (add_process-IsMap h p l m),
  include-add_process h p l x m,
)

-- What is found for a process stands in the matcher.
pub finds→include :
    (h : ProcessMatcher) (p : Bytes) (x : String) → finds h p x ≡ true → include_process h x ≡ true
finds→include [] p x e = unfold search_process lookup contains in cc e
finds→include ((q, names) ∷ h) p x e =
    ground (arith, finds-cons q names h p x, include-cons q names h x, finds→include h p x)

-- And what stands in it is found for some process.
pub include→finds :
    (h : ProcessMatcher) (x : String)
    → IsMap bytes_discrete h
    → include_process h x ≡ true
    → (p : Bytes) × (finds h p x ≡ true)
include→finds [] x m e = unfold include_process range_process contains in absurd (cc e)
include→finds ((q, names) ∷ h) x (new, m) e = elim (Bool-cases (contains string_discrete names x)) [
  | inl here ↦ (q, rw (finds-cons q names h q x, same_refl bytes_discrete q) here)
  | inr later ↦
      let (p, found) = include→finds h x m (ground (arith, include-cons q names h x)) in
      (
        p,
        ground (
          arith,
          finds-cons q names h p x,
          same→eq bytes_discrete q p,
          found,
          finds_absent q h x new,
        ),
      )
]
