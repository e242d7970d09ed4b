-- ===== src/Lists/Entries.antt =====
-- pkg/route/list.go: how the entries of a list are read, `getIter`, from its record in the book of
-- lists and from the files that the downloader cached. The book and the files are parameters (`Env`).
use text.Mathlib.Text.{◌==◌ as ◌≟◌}
use text.Mathlib.TextEquality.{eq_iff}
use Prim.Native.String.{String}
use yuhaiin.Prelude.{
  ℕ, ◌≡◌, refl, Bool, true, false, ◌||◌, Option, none, some, List, [], ◌∷◌, ◌++◌, ◌==◌,
  if◌then◌else◌, ltb, length, drop,
}
use yuhaiin.Bytes.{Bytes, onto_first}
use yuhaiin.Route.Texts.{is_space, trim_space}

dec_by_test : (a b : String) (t : Bool) → (a ≟ b) ≡ t → Dec (a ≡ b)
dec_by_test a b true h = yes ((eq_iff a b).0 h)
dec_by_test a b false h = no (λ e. cc ((eq_iff a b).1 e, h))

unfoldable pub string_discrete : Discrete String
unfolding dec_by_test
string_discrete a b = dec_by_test a b (a ≟ b) refl

-- `RouteListDetail` with its `ListSource`: `local` and `remote` are pointers.
pub record RouteListDetail : Type 0 where
  pub name : String
  pub type : String
  pub source_type : String
  pub local : Option (List Bytes)
  pub remote : Option (List String)
  pub error_msgs : List String

-- The book of lists, `none` where there is none, and what it gives for a name, `none` where it fails;
-- the lines of the file that is cached for a URL, `none` where it cannot be opened.
pub record Env : Type 0 where
  pub lists : Option (String → Option RouteListDetail)
  pub get_reader : String → Option (List Bytes)

before_hash : Bytes → Bytes
before_hash [] = []
before_hash (b ∷ bs) = let rest = before_hash bs in if b == b'#' then [] else b ∷ rest

unfoldable pub trim_rule : Bytes → Bytes
unfolding before_hash trim_space
trim_rule str = trim_space (before_hash str)

push_rule : Bytes → List Bytes → List Bytes
push_rule [] rest = rest
push_rule (b ∷ bs) rest = (b ∷ bs) ∷ rest

unfoldable pub trim_rule_iter : List Bytes → List Bytes
unfolding push_rule
trim_rule_iter [] = []
trim_rule_iter (v ∷ vs) = push_rule (trim_rule v) (trim_rule_iter vs)

unfoldable pub get_local_cache_trim_rule_iter :
    (String → Option (List Bytes)) → List String → List Bytes
get_local_cache_trim_rule_iter get_reader [] = []
get_local_cache_trim_rule_iter get_reader (v ∷ rules) =
    let rest = get_local_cache_trim_rule_iter get_reader rules in
    elim (get_reader v) [ none ↦ rest | some lines ↦ trim_rule_iter lines ++ rest ]

-- A byte before the text `after`, whose fields are `rest`.
onto_field : ℕ → Bytes → List Bytes → List Bytes
onto_field b [] rest = (b ∷ []) ∷ rest
onto_field b (c ∷ after) rest = if is_space c then (b ∷ []) ∷ rest else onto_first b rest

-- `strings.Fields`, with the white space of ASCII.
unfoldable pub fields : Bytes → List Bytes
unfolding onto_field is_space
fields [] = []
fields (b ∷ bs) = let rest = fields bs in if is_space b then rest else onto_field b bs rest

-- The names of the lines of a hosts file.
unfoldable pub hosts_as_host : List Bytes → List Bytes
unfolding fields
hosts_as_host [] = []
hosts_as_host (v ∷ vs) =
    let rest = hosts_as_host vs in
    if ltb (length (fields v)) 2 then rest else drop 1 (fields v) ++ rest

-- How the type of a list reads its trimmed entries.
unfoldable pub entries_of_type : String → List Bytes → Option (List Bytes)
unfolding hosts_as_host
entries_of_type type values =
    if type ≟ "hosts_as_host"
    then some (hosts_as_host values)
    else if (type ≟ "host") || (type ≟ "process")
    then some values
    else none

or_empty {ℓ} : {A : Type ℓ} → Option (List A) → List A
or_empty none = []
or_empty (some xs) = xs

unfoldable pub entries_of : (String → Option (List Bytes)) → RouteListDetail → Option (List Bytes)
unfolding entries_of_type or_empty
entries_of get_reader rules =
    if (rules.source_type ≟ "local") || (rules.source_type ≟ "")
    then entries_of_type rules.type (trim_rule_iter (or_empty rules.local))
    else if rules.source_type ≟ "remote"
    then entries_of_type rules.type
        (get_local_cache_trim_rule_iter get_reader (or_empty rules.remote))
    else none

with_detail : RouteListDetail → Option (List Bytes) → Option (RouteListDetail × List Bytes)
with_detail rules none = none
with_detail rules (some iter) = some (rules, iter)

-- `none` is the error.
unfoldable pub get_iter : Env → String → Option (RouteListDetail × List Bytes)
unfolding with_detail entries_of
get_iter env name = elim env.lists [
  | none ↦ none
  | some book ↦ elim (book name) [
    | none ↦ none
    | some rules ↦ with_detail rules (entries_of env.get_reader rules)
  ]
]
