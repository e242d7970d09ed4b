-- ===== src/Lists/Activation.antt =====
-- pkg/route/list.go: how a change of the lists reaches the host index, as a step relation on threads:
-- `ApplyListChanges` with `notifyRefreshHostTrie`, `ApplyListChangesNow`, the timer, and
-- `refreshHostTrieAndMarkApplied`. Each atomic access is a step, so threads interleave between them.
-- `revision` counts the changes saved so far that a notification follows, and `indexed` is the revision
-- at which the last refresh to put its matcher in place began to read the lists, whichever of them it
-- could read. `refreshHostTrie` is two steps, one at which it begins to read the lists and one at which
-- it puts the new matcher in place. No step replaces the files of a RefreshContract that fails before it
-- notifies, or loads lists for an Update. Time passes as the timer fires at any step while it is
-- armed; the time that the status shows is only set or zero.
pub mod Invariant
pub mod Due
pub mod Safety
use yuhaiin.Prelude.{ℕ, ◌+◌, ◌≡◌, ◌≢◌, Bool, true, false, Option, none, some, if◌then◌else◌, ◌==◌}

-- What the threads share.
pub record Mem : Type 0 where
  pub revision : ℕ
  pub indexed : ℕ
  pub refresh_version : ℕ
  pub refresh_at : Bool
  pub armed : Bool
  pub refresh_mu : Option ℕ

-- Where a thread stands: `saved`, `counted` and `stamped` in `notifyRefreshHostTrie`, `applying` in
-- `ApplyListChangesNow`, and the rest in `refreshHostTrieAndMarkApplied`, with the version that it
-- loaded and the revision that it read.
pub data Pc : Type 0 where
  idle : Pc
  saved : Pc
  counted : Pc
  stamped : Pc
  applying : Pc
  waiting : Pc
  locked : Pc
  loaded : ℕ → Pc
  reading : ℕ → ℕ → Pc
  swapped : ℕ → Pc
  matched : Pc
  leaving : Pc

-- A step of the thread `i`.
pub data Move (i : ℕ) (m : Mem) : Pc → Mem → Pc → Type 0 where
  save : Move i m idle (record m { revision = m.revision + 1 }) saved
  count : Move i m saved (record m { refresh_version = m.refresh_version + 1 }) counted
  stamp : Move i m counted (record m { refresh_at = true }) stamped
  arm : Move i m stamped (record m { armed = true }) idle
  apply_now : Move i m idle (record m { refresh_version = m.refresh_version + 1 }) applying
  stop_timer : Move i m applying (record m { armed = false }) waiting
  fire : m.armed ≡ true → Move i m idle (record m { armed = false }) waiting
  -- `SaveContractConfig` with another kind of index.
  reconfigure : Move i m idle m waiting
  lock : m.refresh_mu ≡ none → Move i m waiting (record m { refresh_mu = some i }) locked
  load_version : Move i m locked m (loaded m.refresh_version)
  read_lists : {v : ℕ} → Move i m (loaded v) m (reading v m.revision)
  swap : {v r : ℕ} → Move i m (reading v r) (record m { indexed = r }) (swapped v)
  match_version : {v : ℕ} → m.refresh_version ≡ v → Move i m (swapped v) m matched
  other_version : {v : ℕ} → m.refresh_version ≢ v → Move i m (swapped v) m leaving
  clear_status : Move i m matched (record m { refresh_at = false }) leaving
  unlock : Move i m leaving (record m { refresh_mu = none }) idle

pub record State : Type 0 where
  pub mem : Mem
  pub pc : ℕ → Pc

abbrev pub update : (ℕ → Pc) → ℕ → Pc → ℕ → Pc
update f i q j = if i == j then q else f j

pub data Step (s : State) : State → Type 0 where
  thread :
      (i : ℕ) {m : Mem} {q : Pc}
      → Move i s.mem (s.pc i) m q
      → Step s (record { mem = m; pc = update s.pc i q })

-- `NewLists` arms the timer.
abbrev pub init : State
init = record {
  mem = record {
    revision = 0;
    indexed = 0;
    refresh_version = 0;
    refresh_at = false;
    armed = true;
    refresh_mu = none;
  };
  pc = λ i. idle;
}

pub data Reach (s : State) : State → Type 0 where
  start : Reach s s
  later : {t u : State} → Reach s t → Step t u → Reach s u
