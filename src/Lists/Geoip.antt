-- ===== src/Lists/Geoip.antt =====
-- pkg/route/list.go: the handle of the GeoIP database, `LoadGeoip`, `closeCurrentGeoip` and
-- `refreshGeoip`. Opening the file and downloading it are not under src/'s control: whether the one
-- gives a handle, and whether the other replaces the file, are arguments; a handle is new when it is
-- opened.
use yuhaiin.Prelude.{
  ℕ, ◌+◌, ◌<◌, ◌≡◌, ◌⊎◌, inl, inr, refl, Bool, true, false, Option, none, some, List, [], ◌∷◌,
  contains, All, ℕ_discrete, same→eq, arith, if◌then◌else◌,
}
use yuhaiin.Bytes.{Bytes}
use yuhaiin.Route.Texts.{trim_space}

-- `geoip` is a pointer to a struct of one pointer; `closed` are the handles that were closed, and
-- `opened` how many were opened.
pub record Geoip : Type 0 where
  pub current : Option (Option ℕ)
  pub closed : List ℕ
  pub opened : ℕ

unfoldable pub new_geoip : Geoip
new_geoip = record { current = none; closed = []; opened = 0 }

load_missing : Bool → Geoip → Geoip × Option ℕ
load_missing true g =
    (record g { current = some (some g.opened); opened = g.opened + 1 }, some g.opened)
load_missing false g = (record g { current = some none }, none)

-- `opens` tells whether the settings can be read, name a file, and the file is a database.
unfoldable pub load_geoip : Bool → Geoip → Geoip × Option ℕ
unfolding load_missing
load_geoip opens g = elim g.current [ none ↦ load_missing opens g | some m ↦ (g, m) ]

unfoldable pub close_current_geoip : Geoip → Geoip
close_current_geoip g = elim g.current [
  | none ↦ g
  | some m ↦ elim m [ none ↦ g | some h ↦ record g { current = some none; closed = h ∷ g.closed } ]
]

-- A pointer to a struct without a handle goes, so that the next load opens the file.
forget_closed : Geoip → Geoip
forget_closed g = elim g.current [
  | none ↦ g
  | some m ↦ elim m [ none ↦ record g { current = none } | some h ↦ g ]
]

-- `replaces` tells whether the download comes to where it replaces the file.
unfoldable pub refresh_geoip : Bytes → Bool → Geoip → Geoip
unfolding close_current_geoip forget_closed trim_space
refresh_geoip download replaces g = elim (trim_space download) [
  | [] ↦ g
  | b ∷ bs ↦ forget_closed (if replaces then close_current_geoip g else g)
]

pub data GeoipCall : Type 0 where
  load : Bool → GeoipCall
  refresh : Bytes → Bool → GeoipCall
  close : GeoipCall

unfoldable pub step_geoip : GeoipCall → Geoip → Geoip
unfolding load_geoip refresh_geoip close_current_geoip
step_geoip (load opens) g = (load_geoip opens g).0
step_geoip (refresh download replaces) g = refresh_geoip download replaces g
step_geoip close g = close_current_geoip g

-- The earliest call last.
unfoldable pub run_geoip : List GeoipCall → Geoip
unfolding step_geoip new_geoip
run_geoip [] = new_geoip
run_geoip (c ∷ earlier) = step_geoip c (run_geoip earlier)

-- The current handle is open, and every handle was once opened.
abbrev IsOpenAt : Option (Option ℕ) → List ℕ → ℕ → Type 0
IsOpenAt (some (some h)) closed opened = (contains ℕ_discrete closed h ≡ false) × (h < opened)
IsOpenAt _ closed opened = Unit

abbrev IsKept : Geoip → Type 0
IsKept g = IsOpenAt g.current g.closed g.opened × All (λ h. h < g.opened) g.closed

All-mono : (n : ℕ) (hs : List ℕ) → All (λ h. h < n) hs → All (λ h. h < n + 1) hs
All-mono n [] a = tt
All-mono n (h ∷ hs) (lt, a) = (omega arith, All-mono n hs a)

not_closed : (n : ℕ) (hs : List ℕ) → All (λ h. h < n) hs → contains ℕ_discrete hs n ≡ false
unfolding contains
not_closed n [] a = refl
not_closed n (h ∷ hs) (lt, a) = ground (arith, same→eq ℕ_discrete h n, not_closed n hs a)

abbrev at : Option (Option ℕ) → List ℕ → ℕ → Geoip
at c hs n = record { current = c; closed = hs; opened = n }

load_at :
    (opens : Bool) (c : Option (Option ℕ)) (hs : List ℕ) (n : ℕ)
    → IsKept (at c hs n)
    → IsKept (load_geoip opens (at c hs n)).0
unfolding load_geoip load_missing
load_at true none hs n k = ((not_closed n hs k.1, omega arith), All-mono n hs k.1)
load_at false none hs n k = (tt, k.1)
load_at opens (some m) hs n k = k

load-IsKept : (opens : Bool) (g : Geoip) → IsKept g → IsKept (load_geoip opens g).0
load-IsKept opens g k = load_at opens g.current g.closed g.opened k

close_at :
    (c : Option (Option ℕ)) (hs : List ℕ) (n : ℕ)
    → IsKept (at c hs n)
    → IsKept (close_current_geoip (at c hs n))
unfolding close_current_geoip
close_at none hs n k = k
close_at (some none) hs n k = k
close_at (some (some h)) hs n k = (tt, (k.0.1, k.1))

close-IsKept : (g : Geoip) → IsKept g → IsKept (close_current_geoip g)
close-IsKept g k = close_at g.current g.closed g.opened k

forget_at :
    (c : Option (Option ℕ)) (hs : List ℕ) (n : ℕ)
    → IsKept (at c hs n)
    → IsKept (forget_closed (at c hs n))
unfolding forget_closed
forget_at none hs n k = k
forget_at (some none) hs n k = (tt, k.1)
forget_at (some (some h)) hs n k = k

forget-IsKept : (g : Geoip) → IsKept g → IsKept (forget_closed g)
forget-IsKept g k = forget_at g.current g.closed g.opened k

refresh_with :
    (replaces : Bool) (g : Geoip)
    → IsKept g
    → IsKept (forget_closed (if replaces then close_current_geoip g else g))
refresh_with true g k = forget-IsKept (close_current_geoip g) (close-IsKept g k)
refresh_with false g k = forget-IsKept g k

blank_or : (s : Bytes) → (s ≡ []) ⊎ ((b : ℕ) × (bs : Bytes) × (s ≡ b ∷ bs))
blank_or [] = inl refl
blank_or (b ∷ bs) = inr (b, bs, refl)

refresh-IsKept :
    (download : Bytes) (replaces : Bool) (g : Geoip)
    → IsKept g
    → IsKept (refresh_geoip download replaces g)
unfolding refresh_geoip
refresh-IsKept download replaces g k = elim (blank_or (trim_space download)) [
  | inl blank ↦ rw (blank, refresh_geoip) k
  | inr (b, bs, e) ↦ rw (e, refresh_geoip) (refresh_with replaces g k)
]

step-IsKept : (c : GeoipCall) (g : Geoip) → IsKept g → IsKept (step_geoip c g)
unfolding step_geoip
step-IsKept (load opens) g k = load-IsKept opens g k
step-IsKept (refresh download replaces) g k = refresh-IsKept download replaces g k
step-IsKept close g k = close-IsKept g k

run-IsKept : (calls : List GeoipCall) → IsKept (run_geoip calls)
unfolding run_geoip new_geoip
run-IsKept [] = (tt, tt)
run-IsKept (c ∷ earlier) = step-IsKept c (run_geoip earlier) (run-IsKept earlier)

load_open_at :
    (opens : Bool) (c : Option (Option ℕ)) (hs : List ℕ) (n h : ℕ)
    → IsKept (load_geoip opens (at c hs n)).0
    → (load_geoip opens (at c hs n)).1 ≡ some h
    → contains ℕ_discrete (load_geoip opens (at c hs n)).0.closed h ≡ false
unfolding load_geoip load_missing
load_open_at true none hs n h k e = ground (arith, k.0.0)
load_open_at false none hs n h k e = absurd (cc e)
load_open_at opens (some none) hs n h k e = absurd (cc e)
load_open_at opens (some (some m)) hs n h k e = ground (arith, k.0.0)

load-open :
    (opens : Bool) (g : Geoip) (h : ℕ)
    → IsKept (load_geoip opens g).0
    → (load_geoip opens g).1 ≡ some h
    → contains ℕ_discrete (load_geoip opens g).0.closed h ≡ false
load-open opens g h k e = load_open_at opens g.current g.closed g.opened h k e

-- Whatever loads, refreshes and closes came before, a load never gives a handle that was closed.
pub load_geoip-open :
    (calls : List GeoipCall) (opens : Bool) (h : ℕ)
    → (load_geoip opens (run_geoip calls)).1 ≡ some h
    → contains ℕ_discrete (load_geoip opens (run_geoip calls)).0.closed h ≡ false
load_geoip-open calls opens h e =
    load-open opens (run_geoip calls) h (load-IsKept opens (run_geoip calls) (run-IsKept calls)) e
