-- ===== src/UpdateCoordinator.antt =====
-- pyroflow/update_coordinator/update_coordinator.py and pyroflow/update_coordinated/update_coordinated.py:
-- the lock under which an update is processed and the registry of handled updates, with the hooks
-- that say which lock and which identity an update has.
pub mod Memory
pub mod Keys
pub mod Defaults
pub mod Redis
mod Tests
use pyroflow.Prelude.{
  ◌≡◌, ◌≢◌, ◌⊎◌, Bool, true, false, Option, none, some, M, Outcome, ok, raise, if◌then◌else◌,
}
use pyroflow.Text.{Text}
use pyroflow.Errors.{Exc, type_error, not_implemented_error}

-- The abstract methods, over the coordinator's state `C`, with the two of the lock that `lock`
-- returns for a key; `K` is the type of keys.
pub record UpdateCoordinator (U C K : Type 0) : Type 0 where
  pub acquire : K → M C (Exc U) Bool
  pub release : K → M C (Exc U) (Unit {0})
  pub is_handled : K → M C (Exc U) Bool
  pub mark_handled : K → M C (Exc U) (Unit {0})

-- The contract: `holds` says whether the session holds a key's lock, `taken` whether anyone does,
-- and `handled` whether a key is registered. `lock_name` and `handled_name` are what a key is called
-- in the two sections; keys that share a name are one. Registering one key may evict others, but
-- registers no other.
pub record IsUpdateCoordinator (U C K : Type 0) (c : UpdateCoordinator U C K) : Type 0 where
  pub holds : C → K → Bool
  pub taken : C → K → Bool
  pub handled : C → K → Bool
  pub lock_name : K → Text
  pub handled_name : K → Text
  pub holds_taken : (s : C) (k : K) → holds s k ≡ true → taken s k ≡ true
  pub acquire_excludes : (s : C) (k : K) → taken s k ≡ true → (c.acquire k s).1 ≢ ok true
  pub acquire_holds :
      (s : C) (k : K) → (c.acquire k s).1 ≡ ok true → holds (c.acquire k s).0 k ≡ true
  pub acquire_handled : (s : C) (k j : K) → handled (c.acquire k s).0 j ≡ handled s j
  pub is_handled_lem : (s : C) (k : K) → c.is_handled k s ≡ (s, ok (handled s k))
  pub mark_ok : (s : C) (k : K) → (c.mark_handled k s).1 ≡ ok tt
  pub mark_handled_lem : (s : C) (k : K) → handled (c.mark_handled k s).0 k ≡ true
  pub mark_no_other :
      (s : C) (k j : K)
      → handled (c.mark_handled k s).0 j ≡ true
      → (handled s j ≡ true) ⊎ (handled_name k ≡ handled_name j)
  pub mark_holds : (s : C) (k j : K) → holds (c.mark_handled k s).0 j ≡ holds s j
  pub release_ok : (s : C) (k : K) → holds s k ≡ true → (c.release k s).1 ≡ ok tt
  pub release_holds : (s : C) (k : K) → holds (c.release k s).0 k ≡ false
  pub release_others :
      (s : C) (k j : K) → lock_name k ≢ lock_name j → holds (c.release k s).0 j ≡ holds s j
  pub release_handled : (s : C) (k j : K) → handled (c.release k s).0 j ≡ handled s j

-- The callables given at construction. `is_update` is `isinstance(update, cls.__update_type__)`.
pub record Coordinated (U K : Type 0) : Type 0 where
  pub is_update : U → Bool
  pub is_coordinatable_func : Option (U → Outcome (Exc U) Bool)
  pub extract_key_func : Option (U → Outcome (Exc U) K)
  pub extract_update_id_func : Option (U → Outcome (Exc U) K)

module _ {U K : Type 0} (h : Coordinated U K) where
  -- A hook that has to be given: `validate_update`, then the callable.
  abbrev pub required : {A : Type 0} → Option (U → Outcome (Exc U) A) → U → Outcome (Exc U) A
  required none u = raise not_implemented_error
  required (some f) u = if h.is_update u then f u else raise type_error

  unfoldable pub is_coordinatable : U → Outcome (Exc U) Bool
  is_coordinatable = required h.is_coordinatable_func

  unfoldable pub extract_key : U → Outcome (Exc U) K
  extract_key = required h.extract_key_func

  unfoldable pub extract_update_id : U → Outcome (Exc U) K
  extract_update_id = required h.extract_update_id_func
