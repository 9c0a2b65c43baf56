-- ===== src/UpdateHistory/Tests.antt =====
-- A history for updates that are numbers, in a cache whose entries never expire, and one where they do.
use pyroflow.Prelude.{
  Among, ℕ, ℕ_discrete, leb, ◌+◌, Option, none, if◌then◌else◌, Option-cases, inl, inr, ◌≤◌, ◌≡◌,
  ◌⊎◌, refl, true, false, some, List, [], ◌∷◌, arith, Dict, lookup, insert, delete, lookup-insert,
  lookup-delete, length, map, ok,
}
use pyroflow.ListenerCoordinator.Memory.{nat_eq}
use pyroflow.UpdateHistoryStore.{
  UpdateRecord, updated_heap, is_expired, trim, clean_up, push_all, heappush, lt,
}
use pyroflow.UpdateHistoryStore.Order.{Sorted, Older, updated_heap_newest}
use pyroflow.UpdateHistoryStore.Memory.{
  HistoryCache, IsHistoryCache, memory_store, update, get as get_stored, get-update,
}
use pyroflow.UpdateHistoryStore.Expiry.{Expires, get_forgets}
use pyroflow.UpdateHistory.{
  HistoryHooks, HistoryState, from_key, extract_key, extract_data, record_many, get,
}
use pyroflow.UpdateHistory.Recall.{get-record_many}

abbrev Store : Type 0
Store = Dict ℕ (List (UpdateRecord ℕ))

abbrev cache : HistoryCache ℕ (List (UpdateRecord ℕ)) Store
cache = record {
  find = λ now k s. lookup k s;
  put = λ now k v s. insert k v s;
  amend = insert;
  remove = delete;
}

cache-IsHistoryCache : IsHistoryCache ℕ (List (UpdateRecord ℕ)) Store cache
cache-IsHistoryCache = record {
  find-put = λ now k v s. ground (arith, lookup-insert k k v s);
  find-amend = λ now k v w s e. ground (arith, lookup-insert k k v s);
  find-remove = λ now k s. ground (arith, lookup-delete k k s);
}

abbrev made : ℕ → ℕ → UpdateRecord ℕ
made t n = record { handler = n; payload = 0; created_at = t; seq = n }

updated_heap_newest_example :
    let kept = updated_heap 10 2 20 (made 20 3 ∷ []) (made 5 0 ∷ made 15 1 ∷ made 16 2 ∷ []) in
    Sorted kept
    × (length kept ≤ 2)
    × ((y : UpdateRecord ℕ)
        → Among y kept
        → (Among y (made 20 3 ∷ []) ⊎ Among y (made 5 0 ∷ made 15 1 ∷ made 16 2 ∷ []))
          × (is_expired 10 20 y ≡ false))
    × ((y : UpdateRecord ℕ)
        → Among y (made 20 3 ∷ []) ⊎ Among y (made 5 0 ∷ made 15 1 ∷ made 16 2 ∷ [])
        → is_expired 10 20 y ≡ false
        → Among y kept ⊎ ((length kept ≡ 2) × ((z : UpdateRecord ℕ) → Among z kept → Older y z)))
updated_heap_newest_example =
    updated_heap_newest 10 2 20 (made 20 3 ∷ []) (made 5 0 ∷ made 15 1 ∷ made 16 2 ∷ [])
      ((λ y a. ground arith), ((λ y a. ground arith), ((λ y a. elim a [ ]), tt)))

get-update_example :
    (get_stored cache 10 2 20 7 (update cache 10 2 20 7 (made 20 1 ∷ made 20 2 ∷ []) [])).1
    ≡ updated_heap 10 2 20 (made 20 1 ∷ made 20 2 ∷ []) []
unfolding lookup
get-update_example =
    get-update cache 10 2 cache-IsHistoryCache 20 7 (made 20 1 ∷ made 20 2 ∷ []) [] tt

abbrev hooks : HistoryHooks ℕ ℕ ℕ
hooks = record {
  is_update = λ u. true;
  is_recordable_func = some (λ u. ok true);
  extract_key_func = some (λ u. ok 7);
  extract_data_func = some (λ u. ok 0);
}

abbrev fresh : HistoryState Store
fresh = record { store = []; sequence = 0 }

get-record_many_example :
    (records : List (UpdateRecord ℕ)) × ((get hooks
        (memory_store cache 10 2)
        20
        (from_key 7)
        (record_many hooks (memory_store cache 10 2) 20 5 (3 ∷ 1 ∷ []) false fresh).0).1
      ≡ ok records)
    × (map (λ r. r.handler) records ≡ 3 ∷ 1 ∷ [])
unfolding lookup extract_key extract_data
get-record_many_example =
    get-record_many hooks cache cache-IsHistoryCache 10 2 20 5 7 0 (3 ∷ 1 ∷ []) fresh refl refl refl
      (omega arith) (omega arith)

-- A cache whose entries expire after 10 seconds.
abbrev Timed : Type 0
Timed = Dict ℕ (ℕ × List (UpdateRecord ℕ))

abbrev still : ℕ → Option (ℕ × List (UpdateRecord ℕ)) → Option (List (UpdateRecord ℕ))
still now none = none
still now (some (t, v)) = if leb (t + 10) now then none else some v

abbrev changed : List (UpdateRecord ℕ) → ℕ → Option (ℕ × List (UpdateRecord ℕ)) → Timed → Timed
changed v k none s = s
changed v k (some (t, w)) s = insert k (t, v) s

abbrev timed : HistoryCache ℕ (List (UpdateRecord ℕ)) Timed
timed = record {
  find = λ now k s. still now (lookup k s);
  put = λ now k v s. insert k (now, v) s;
  amend = λ k v s. changed v k (lookup k s) s;
  remove = delete;
}

abbrev time_of : Option (ℕ × List (UpdateRecord ℕ)) → Option ℕ
time_of none = none
time_of (some (t, v)) = some t

unfoldable timed-Expires : Expires ℕ (List (UpdateRecord ℕ)) Timed timed 10
timed-Expires = record {
  made_at = λ k s. time_of (lookup k s);
  expired = λ t now k s made over. elim (Option-cases (lookup k s)) [
    | inl e ↦ rw e refl
    | inr ((u, v), e) ↦ rw e (let m = rw e at made in ground arith)
  ];
  made_at-amend = λ k v s. elim (Option-cases (lookup k s)) [
    | inl e ↦ rw (e, e) refl
    | inr ((u, w), e) ↦ rw (e, lookup-insert k k (u, v) s) (ground arith)
  ];
}

get_forgets_example :
    let s' = update timed 10 2 29 7 (made 29 1 ∷ []) ((7, (20, made 20 0 ∷ [])) ∷ []) in
    ((get_stored timed 10 2 30 7 s').1 ≡ []) × (time_of (lookup 7 s') ≡ some 20)
unfolding lookup updated_heap timed-Expires ℕ_discrete trim clean_up push_all heappush lt is_expired
get_forgets_example =
    get_forgets timed 10 2 timed-Expires 7 ((7, (20, made 20 0 ∷ [])) ∷ []) 20 29 30
      (made 29 1 ∷ []) (made 20 0 ∷ []) refl refl refl (omega arith)
