-- ===== src/Dispatcher/Pipeline/Counts.antt =====
-- What `_handle_update` counts, and what it records.
use pyroflow.Prelude.{
  ℕ, suc, ◌+◌, ◌≤◌, ◌≡◌, refl, subst, inl, inr, Bool, true, false, Option, none, some, List, [],
  ◌∷◌, arith, DecEq, length, length-append, M, Outcome, ok, raise, and_then, throw, return, ◌>>◌,
  if◌then◌else◌, Bool-cases,
}
use pyroflow.Errors.{Exc, is_exception}
use pyroflow.UpdateCoordinator.{UpdateCoordinator}
use pyroflow.Dispatcher.Settlement.{Context, on_world}
use pyroflow.Dispatcher.{
  Handler, History, Tally, appended, Verdict, propagates, continues, counts, verdict,
  after_callback, or_else, perform, matches, run_group, run_groups,
}
use pyroflow.Dispatcher.Pipeline.{
  Dispatcher, get_for, try_listener, start_records, store_records, handle_groups,
}

-- If handlers are recorded, then as many as were counted as done.
abbrev pub Recorded : Option (List ℕ) → ℕ → Type 0
Recorded none n = Unit
Recorded (some hs) n = length hs ≡ n

abbrev pub InStep : Tally → Type 0
InStep t = Recorded t.records t.handled_count

-- At most `n` more handlers were counted, and the records kept step.
abbrev pub Within : {S E : Type 0} → ℕ → Tally → S × Outcome E Tally → Type 0
Within n t (s, raise e) = Unit
Within n t (s, ok t') =
    InStep t' × (t'.handled_count + t'.exc_count ≤ n + (t.handled_count + t.exc_count))

Within-then :
    {S E : Type 0} (m : ℕ) (t : Tally) (out : S × Outcome E Tally) (rest : Tally → M S E Tally)
    → Within 1 t out
    → ((t' : Tally) (s : S) → InStep t' → Within m t' (rest t' s))
    → Within (suc m) t (and_then out rest)
Within-then {S} {E} m t (s, raise e) rest w f = tt
Within-then {S} {E} m t (s, ok t') rest w f = further (rest t' s) (f t' s w.0)
  where
    further : (out : S × Outcome E Tally) → Within m t' out → Within (suc m) t out
    further (x, raise e) y = tt
    further (x, ok t2) y = (y.0, omega (arith, y.1, w.1))

-- What runs before a loop changes no tally.
Within-after :
    {S E A : Type 0} (n : ℕ) (t : Tally) (out : S × Outcome E A) (rest : A → M S E Tally)
    → ((a : A) (s : S) → Within n t (rest a s))
    → Within n t (and_then out rest)
Within-after n t (s, ok a) rest f = f a s
Within-after n t (s, raise e) rest f = tt

module _ {U C W K : Type 0} (c : UpdateCoordinator U C K)
    (safe_await : M C (Exc U) (Unit {0}) → M C (Exc U) (Unit {0}))
    (on_error : Exc U → Handler U W → M W (Exc U) (Unit {0})) where
  appended-Recorded :
      (h n : ℕ) (rs : Option (List ℕ)) → Recorded rs n → Recorded (appended h rs) (suc n)
  appended-Recorded h n none w = tt
  appended-Recorded h n (some hs) w = omega (arith, w, length-append hs (h ∷ []))

  after-Within :
      (h : Handler U W) (rest : M (Context C W K) (Exc U) Tally) (t : Tally)
      (out : Context C W K × Outcome (Exc U) (Unit {0}))
      → InStep t
      → ((s : Context C W K) → Within 1 t (rest s))
      → Within 1 t (after_callback c safe_await on_error h rest t out)
  after-Within h rest t (s, ok x) w f =
      (appended-Recorded h.name t.handled_count t.records w, omega arith)
  after-Within h rest t (s, raise e) w f = by_verdict (verdict e)
    where
      by_verdict :
          (v : Verdict)
          → Within 1 t (
              (elim v as (λ v. M (Context C W K) (Exc U) Tally) [
                | propagates ↦ throw e
                | continues ↦ rest
                | counts ↦ do
                  on_world (on_error e h)
                  return (record t { exc_count = suc t.exc_count })
              ])
                s)
      by_verdict propagates = tt
      by_verdict continues = f s
      by_verdict counts = Within-after 1 t (on_world (on_error e h) s) _ (λ a s'. (w, omega arith))

  run_group-Within :
      (hs : List (Handler U W)) (t : Tally) (s : Context C W K)
      → InStep t
      → Within 1 t (run_group c safe_await on_error hs t s)
  unfolding run_group
  run_group-Within [] t s w = (w, omega arith)
  run_group-Within (h ∷ hs) t s w = Within-after 1 t (matches c safe_await h s) _ (elim [
    | none ↦ λ s'. run_group-Within hs t s' w
    | some a ↦ λ s'.
        after-Within h (run_group c safe_await on_error hs t) t
          (perform c safe_await (h.callback a) s') w (λ s2. run_group-Within hs t s2 w)
  ])

  run_groups-Within :
      (gs : List (List (Handler U W))) (t : Tally) (s : Context C W K)
      → InStep t
      → Within (length gs) t (run_groups c safe_await on_error gs t s)
  unfolding run_groups
  run_groups-Within [] t s w = (w, omega arith)
  run_groups-Within (g ∷ gs) t s w =
      Within-then (length gs) t (run_group c safe_await on_error g t s) _ (run_group-Within g t s w)
        (λ t' s' w'. run_groups-Within gs t' s' w')

  module _ {T : Type 0} ⦃d : DecEq T⦄ (type_of : U → T) (disp : Dispatcher T U W K) where
    abbrev zeros : Option (List ℕ) → Tally
    zeros rs = record { handled_count = 0; exc_count = 0; records = rs }

    -- Recording starts with no record, or does not start.
    abbrev Starts : {S : Type 0} → S × Outcome (Exc U) (Option (List ℕ)) → Type 0
    Starts (s, raise e) = Unit
    Starts (s, ok rs) = Recorded rs 0

    or_else-Starts :
        (out : Context C W K × Outcome (Exc U) (Option (List ℕ)))
        → Starts out
        → Starts (or_else none out)
    or_else-Starts (s, ok rs) w = w
    or_else-Starts (s, raise e) w = elim (Bool-cases (is_exception e)) [
      | inl h ↦ rw h tt
      | inr h ↦ rw h tt
    ]

    asked-Starts :
        (out : Context C W K × Outcome (Exc U) Bool)
        → Starts (and_then out (λ b. return (if b then some [] else none)))
    asked-Starts (s, ok true) = refl
    asked-Starts (s, ok false) = tt
    asked-Starts (s, raise e) = tt

    start_records-Starts :
        (h : Option (History U W)) (u : Option U) (s : Context C W K)
        → Starts (start_records type_of c safe_await on_error disp h u s)
    start_records-Starts none u s = tt
    start_records-Starts (some h) none s = tt
    start_records-Starts (some h) (some u) s =
        or_else-Starts _ (asked-Starts (on_world (h.is_recordable u) s))

    from_start :
        (out : Context C W K × Outcome (Exc U) (Option (List ℕ)))
        (rest : Option (List ℕ) → M (Context C W K) (Exc U) Tally)
        → Starts out
        → ((rs : Option (List ℕ)) (s : Context C W K)
            → Recorded rs 0
            → Within (length disp.groups) (zeros none) (rest rs s))
        → Within (length disp.groups) (zeros none) (and_then out rest)
    from_start (s, ok rs) rest w f = f rs s w
    from_start (s, raise e) rest w f = tt

    to_end :
        (out : Context C W K × Outcome (Exc U) Tally)
        (last : Tally → M (Context C W K) (Exc U) (Unit {0})) (rs : Option (List ℕ))
        → Within (length disp.groups) (zeros rs) out
        → Within
            (length disp.groups)
            (zeros none)
            (and_then out (λ t s. and_then (last t s) (λ _. return t)))
    to_end (s, raise e) last rs w = tt
    to_end (s, ok t) last rs w =
        Within-after (length disp.groups) (zeros none) (last t s) _ (λ a s'. w)

    handle_groups-Within :
        (u : Option U) (s : Context C W K)
        → Within
            (length disp.groups)
            (zeros none)
            (handle_groups type_of c safe_await on_error disp u s)
    unfolding handle_groups
    handle_groups-Within u s =
        Within-after (length disp.groups) (zeros none)
          (try_listener type_of c safe_await on_error disp u s) _
          λ _ s1.
            from_start
              (start_records type_of c safe_await on_error disp (get_for type_of disp.histories u) u
                s1)
              _ (start_records-Starts (get_for type_of disp.histories u) u s1)
              λ rs s2 w.
                to_end (run_groups c safe_await on_error disp.groups (zeros rs) s2)
                  (λ t.
                    store_records type_of c safe_await on_error disp
                      (get_for type_of disp.histories u) u t.records)
                  rs (run_groups-Within disp.groups (zeros rs) s2 w)

    -- When `_handle_update` returns, each handler group has counted for one at most, as handled or as
    -- failed, however many handlers it has; and if the update is recorded, then there is one record
    -- for each handler counted as handled.
    pub handle_groups_counts :
        (u : Option U) (s : Context C W K) (t : Tally)
        → (handle_groups type_of c safe_await on_error disp u s).1 ≡ ok t
        → (t.handled_count + t.exc_count ≤ length disp.groups) × Recorded t.records t.handled_count
    handle_groups_counts u s t r =
        let (w, le) =
          subst
            (λ x.
              Within (length disp.groups) (zeros none)
                ((handle_groups type_of c safe_await on_error disp u s).0, x))
            r (handle_groups-Within u s) in
        (omega (arith, le), w)
