-- ===== src/Dispatcher/Pipeline/Tables.antt =====
-- `register_*` and `unregister_*` of the dispatcher: its three tables by update type.
use pyroflow.Prelude.{
  ◌≡◌, refl, Bool, Option, none, some, arith, DecEq, Dict, lookup, insert, delete, lookup-insert,
  lookup-delete, M, Outcome, ok, raise, if◌then◌else◌, is_some,
}
use pyroflow.Errors.{Exc, runtime_error, value_error}
use pyroflow.UpdateCoordinator.{Coordinated}
use pyroflow.Dispatcher.{History}
use pyroflow.Dispatcher.Pipeline.{Dispatcher}

module _ {T U A : Type 0} ⦃d : DecEq T⦄ where
  -- What the three methods do with their table.
  unfoldable pub register_in : Bool → T → A → Dict T A → Outcome (Exc U) (Dict T A)
  register_in is_started update_type a table =
      if is_started
      then raise runtime_error
      else if is_some (lookup update_type table)
      then raise value_error
      else ok (insert update_type a table)

abbrev pub updated : {E A B : Type 0} → Outcome E A → (A → B) → Outcome E B
updated (ok a) f = ok (f a)
updated (raise e) f = raise e

updated_ok :
    {E A B : Type 0} (r : Outcome E A) (f : A → B) (b : B)
    → updated r f ≡ ok b
    → (a : A) × (r ≡ ok a) × (b ≡ f a)
updated_ok (ok a) f b e = (a, refl, cc)
updated_ok (raise x) f b e = cc

module _ {T U A : Type 0} ⦃d : DecEq T⦄ (update_type : T) (a : A) where
  register_in_ok :
      (started : Bool) (table table' : Dict T A)
      → register_in {U = U} started update_type a table ≡ ok table'
      → (lookup update_type table ≡ none) × (table' ≡ insert update_type a table)
  unfolding register_in
  register_in_ok started table table' r = ground arith

  back_again :
      (started : Bool) (table table' : Dict T A)
      → register_in {U = U} started update_type a table ≡ ok table'
      → (lookup update_type table' ≡ some a)
        × ((t : T) → lookup t (delete update_type table') ≡ lookup t table)
  back_again started table table' r =
      let (free, same) = register_in_ok started table table' r in
      rw same (
        ground (arith, lookup-insert update_type update_type a table),
        λ t. ground (
          arith,
          lookup-insert update_type t a table,
          lookup-delete update_type t (insert update_type a table),
        ),
      )

module _ {T U W K : Type 0} ⦃d : DecEq T⦄ (update_type : T) where
  unfoldable pub register_listener :
      (U → M W (Exc U) (Unit {0})) → Dispatcher T U W K → Outcome (Exc U) (Dispatcher T U W K)
  register_listener l s =
      updated (register_in s.is_started update_type l s.listeners) (λ t. record s { listeners = t })

  unfoldable pub register_coordinated :
      Coordinated U K → Dispatcher T U W K → Outcome (Exc U) (Dispatcher T U W K)
  register_coordinated co s =
      updated (register_in s.is_started update_type co s.coordinateds)
        (λ t. record s { coordinateds = t })

  unfoldable pub register_history :
      History U W → Dispatcher T U W K → Outcome (Exc U) (Dispatcher T U W K)
  register_history h s =
      updated (register_in s.is_started update_type h s.histories) (λ t. record s { histories = t })

  -- `unregister_*`: what is removed, which the caller then stops.
  unfoldable pub unregister_listener :
      Dispatcher T U W K → Dispatcher T U W K × Option (U → M W (Exc U) (Unit {0}))
  unregister_listener s =
      (record s { listeners = delete update_type s.listeners }, lookup update_type s.listeners)

  unfoldable pub unregister_coordinated :
      Dispatcher T U W K → Dispatcher T U W K × Option (Coordinated U K)
  unregister_coordinated s = (
    record s { coordinateds = delete update_type s.coordinateds },
    lookup update_type s.coordinateds,
  )

  unfoldable pub unregister_history : Dispatcher T U W K → Dispatcher T U W K × Option (History U W)
  unregister_history s =
      (record s { histories = delete update_type s.histories }, lookup update_type s.histories)

  -- Registering a coordination for a type and unregistering it hands back the one registered, and
  -- every type then has the coordination that it had before.
  pub unregister-register_coordinated :
      (co : Coordinated U K) (s s' : Dispatcher T U W K)
      → register_coordinated co s ≡ ok s'
      → ((unregister_coordinated s').1 ≡ some co)
        × ((t : T) → lookup t (unregister_coordinated s').0.coordinateds ≡ lookup t s.coordinateds)
  unfolding register_coordinated unregister_coordinated
  unregister-register_coordinated co s s' r =
      let (t, e, same) =
        updated_ok (register_in s.is_started update_type co s.coordinateds) _ s' r in
      rw same (back_again update_type co s.is_started s.coordinateds t e)
