-- ===== src/UpdateHistory.antt =====
-- pyroflow/update_history/update_history.py: what an update's handlers leave in the history.
pub mod Recall
pub mod Defaults
mod Tests
use pyroflow.Prelude.{
  ℕ, suc, ◌+◌, Bool, true, false, Option, none, some, List, [], ◌∷◌, length, M, Outcome, ok, raise,
  ◌>>=◌, ◌>>◌, return, lift, gets, modify, if◌then◌else◌,
}
use pyroflow.Errors.{Exc, type_error, not_implemented_error}
use pyroflow.UpdateHistoryStore.{UpdateRecord, UpdateHistoryStore as Store}

-- The callables given at construction. `is_update` is `isinstance(update, cls.__update_type__)`.
pub record HistoryHooks (U K D : Type 0) : Type 0 where
  pub is_update : U → Bool
  pub is_recordable_func : Option (U → Outcome (Exc U) Bool)
  pub extract_key_func : Option (U → Outcome (Exc U) K)
  pub extract_data_func : Option (U → Outcome (Exc U) D)

-- The store, and the next number of `UpdateRecord._SEQ`.
pub record HistoryState (S : Type 0) : Type 0 where
  pub store : S
  pub sequence : ℕ

-- What `get`, `pop` and `clear` are given.
pub data Source (U K : Type 0) : Type 0 where
  from_update : U → Source U K
  from_key : K → Source U K

-- The records of one call of `record_many`, in the order in which they are made.
unfoldable pub new_records : {D : Type 0} → D → ℕ → ℕ → List ℕ → List (UpdateRecord D)
new_records d now n [] = []
new_records d now n (h ∷ hs) =
    record { handler = h; payload = d; created_at = now; seq = n } ∷ new_records d now (suc n) hs

module _ {U K D : Type 0} (h : HistoryHooks U K D) where
  -- A hook that has to be given: `validate_update`, then the callable.
  abbrev pub required : {A : Type 0} → Option (U → Outcome (Exc U) A) → U → Outcome (Exc U) A
  required none u = raise not_implemented_error
  required (some f) u = if h.is_update u then f u else raise type_error

  unfoldable pub is_recordable : U → Outcome (Exc U) Bool
  is_recordable = required h.is_recordable_func

  unfoldable pub extract_key : U → Outcome (Exc U) K
  extract_key = required h.extract_key_func

  unfoldable pub extract_data : U → Outcome (Exc U) D
  extract_data = required h.extract_data_func

module _ {U K D S : Type 0} (h : HistoryHooks U K D) (st : Store K D S) where
  -- The part of `record_many` after the check.
  unfoldable pub store_handlers : ℕ → U → List ℕ → M (HistoryState S) (Exc U) (Unit {0})
  store_handlers now u handlers = do
    k ← lift (extract_key h u)
    d ← lift (extract_data h u)
    modify λ s. record {
      store = st.update now k (new_records d now s.sequence handlers) s.store;
      sequence = s.sequence + length handlers;
    }

  unfoldable pub record_many : ℕ → U → List ℕ → Bool → M (HistoryState S) (Exc U) (Unit {0})
  record_many now u handlers check = do
    recordable ← lift (if check then is_recordable h u else ok true)
    elim recordable [ false ↦ return tt | true ↦ store_handlers now u handlers ]

  -- `record`: one handler.
  unfoldable pub record_one : ℕ → U → ℕ → Bool → M (HistoryState S) (Exc U) (Unit {0})
  record_one now u handler check = record_many now u (handler ∷ []) check

  -- The key to look up, unless the update is not recordable.
  unfoldable pub key_of : Source U K → M (HistoryState S) (Exc U) (Option K)
  key_of (from_key k) = return (some k)
  key_of (from_update u) = do
    recordable ← lift (is_recordable h u)
    elim recordable [ false ↦ return none | true ↦ do k ← lift (extract_key h u); return (some k) ]

  -- A call of the store, on its part of the state.
  abbrev pub on_store : {A : Type 0} → (S → S × A) → M (HistoryState S) (Exc U) A
  on_store f s = let (x, a) = f s.store in (record s { store = x }, ok a)

  unfoldable pub get : ℕ → Source U K → M (HistoryState S) (Exc U) (List (UpdateRecord D))
  get now source = do
    k ← key_of source
    elim k [ none ↦ return [] | some k ↦ on_store (st.get now k) ]

  unfoldable pub pop : ℕ → Source U K → M (HistoryState S) (Exc U) (List (UpdateRecord D))
  pop now source = do
    k ← key_of source
    elim k [ none ↦ return [] | some k ↦ on_store (st.pop now k) ]

  unfoldable pub clear : Source U K → M (HistoryState S) (Exc U) (Unit {0})
  clear source = do
    k ← key_of source
    elim k [ none ↦ return tt | some k ↦ modify (λ s. record s { store = st.delete k s.store }) ]
