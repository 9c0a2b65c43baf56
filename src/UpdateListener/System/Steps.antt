-- ===== src/UpdateListener/System/Steps.antt =====
-- Every step of a session keeps its listeners, tokens and futures in step.
use pyroflow.Prelude.{
  Bool, true, Among, ℕ, ◌≡◌, refl, sym, ◌∙◌, ◌≢◌, subst, ite, Bool, false, Option, none, some, List,
  ◌∷◌, arith, DecEq, lookup, Outcome, ok, raise, if◌then◌else◌, and_then,
}
use pyroflow.Models.{ListenerKey, ListenerKey-discrete, listener_key_eq}
use pyroflow.Errors.{Exc}
use pyroflow.ListenerCoordinator.{ListenerCoordinator, IsRegistry, owned_by}
use pyroflow.Session.{Json, ListenerModel, Session}
use pyroflow.UpdateListener.{
  DuplicatePolicy, Interrupt, cleanup_listen, listen_register, listen_wait, install,
}
use pyroflow.UpdateListener.Wait.{settled_wait, released, listen_wait_lem, cleanup_removes}
use pyroflow.UpdateListener.Shrinks.{
  Shrinks, Shrinks-refl, Shrinks-trans, settled-Shrinks, cancel_locked-Shrinks,
  cleanup_listen-Shrinks, resolve-Shrinks,
}
use pyroflow.UpdateListener.Register.{
  IsFree, check_duplicate-Shrinks, check_duplicate_frees, checked, register_lem, install_lem,
}
use pyroflow.UpdateListener.System.{
  Waiter, World, without, Step, listens, listen_fails, ends, cancels, resolves, runs_callback,
  coordinator_stops, rival_acts, Foreign, Reach, here, later,
}
use pyroflow.UpdateListener.System.Invariant.{
  Inv, Foreign-Inv, Shrinks-Inv, installed-Inv, Among-without,
}
use pyroflow.Session.{FutureState, pending, cancelled, result, exception}

module _ {U C Token : Type 0} ⦃d : DecEq Token⦄ (c : ListenerCoordinator U C Token)
    (R : IsRegistry U C Token c) where
  open R use {owner, IsValid, Issued}

  settled_wait-Shrinks :
      (f : ℕ) (st : FutureState U) (s : Session U C Token) → Shrinks c R s (settled_wait c f st s)
  settled_wait-Shrinks f pending s = settled-Shrinks c R f cancelled s
  settled_wait-Shrinks f cancelled s = Shrinks-refl c R s
  settled_wait-Shrinks f (result u) s = Shrinks-refl c R s
  settled_wait-Shrinks f (exception e) s = Shrinks-refl c R s

  pub not_owned : (o : Option Token) (i : Token) → o ≢ some i → owned_by o (some i) ≡ false
  not_owned none i other = refl
  not_owned (some r) i other = ground arith

  -- Releasing a token takes no listener's registration, once no listener holds that token.
  released-Shrinks :
      (q : Interrupt) (k : ListenerKey) (f : ℕ) (i : Token) (s0 s : Session U C Token)
      → ((l : ListenerModel Token) → lookup k s.listeners ≡ some l → owner s.coordinator k ≢ some i)
      → Shrinks c R s (released c R q k f i s0 s)
  released-Shrinks q k f i s0 s free = record {
    listeners_kept = λ j l e. (e, R.unregister_owner s.coordinator k (some i) j ∙ still j l e);
    same_futures = refl;
    valid_kept = (R.unregister_kept s.coordinator k (some i)).0;
    issued_kept = (R.unregister_kept s.coordinator k (some i)).1;
  }
    where
      still :
          (j : ListenerKey) (l : ListenerModel Token)
          → lookup j s.listeners ≡ some l
          → (if owned_by (owner s.coordinator k) (some i)
              then ite (ListenerKey-discrete k j) none (owner s.coordinator j)
              else owner s.coordinator j)
            ≡ owner s.coordinator j
      still j l e = elim (ListenerKey-discrete k j) [
        | yes p ↦ rw (
            not_owned (owner s.coordinator k) i
              (free l (subst (λ x. lookup x s.listeners ≡ some l) (sym p) e)))
        | no p ↦ ground arith
      ]

  module _ (q : Interrupt) (v : Waiter Token) (w : World U C Token) (inv : Inv c R w)
      (a : Among v w.waiters) where
    abbrev cleaned : Session U C Token
    cleaned =
        cleanup_listen c v.key v.future
          (settled_wait c v.future (w.session.futures v.future).state w.session)

    cleaned-Shrinks : Shrinks c R w.session cleaned
    cleaned-Shrinks =
        Shrinks-trans c R
          (settled_wait-Shrinks v.future (w.session.futures v.future).state w.session)
          (cleanup_listen-Shrinks c R v.key v.future _)

    cleaned-Inv : Inv c R (record w { session = cleaned })
    cleaned-Inv = Shrinks-Inv c R cleaned w cleaned-Shrinks inv

    -- Nothing that is left under the key holds the token of the coroutine that ends.
    token_left :
        (l : ListenerModel Token)
        → lookup v.key cleaned.listeners ≡ some l
        → owner cleaned.coordinator v.key ≢ some v.token
    token_left l e = (cleaned-Inv.tied v a).superseded l e (
        cleanup_removes c v.key v.future
          (settled_wait c v.future (w.session.futures v.future).state w.session) l e)

    ends-Inv : Inv c R (record {
      session = (listen_wait c q v.key v.future v.token w.session).0;
      waiters = without v.future w.waiters;
    })
    ends-Inv = rw (listen_wait_lem c R q v.key v.future v.token w.session) (
        fewer (
          Shrinks-Inv c R _ w
            (Shrinks-trans c R cleaned-Shrinks
              (released-Shrinks q v.key v.future v.token w.session cleaned token_left))
            inv))
      where
        fewer :
            {s : Session U C Token}
            → Inv c R (record w { session = s })
            → Inv c R (record { session = s; waiters = without v.future w.waiters })
        fewer y = record {
          valid = y.valid;
          in_sync = y.in_sync;
          distinct = y.distinct;
          tied = λ x b. y.tied x (Among-without c R v.future x w.waiters b);
        }

  module _ (k : ListenerKey) (w : World U C Token) (inv : Inv c R w) where
    -- What `listen` does to a world, by what it returns or raises.
    abbrev pub Listened : Session U C Token × Outcome (Exc U) (ℕ × Token) → Type 0
    Listened (s, ok (f, i)) =
        Inv c R
          (record { session = s; waiters = record { key = k; future = f; token = i } ∷ w.waiters })
    Listened (s, raise e) = Inv c R (record w { session = s })

    installed_after :
        (meta : Option Json) (s : Session U C Token)
        → Inv c R (record w { session = s })
        → IsFree c R k s
        → Listened (install c k meta s)
    installed_after meta s y free =
        let (i, e, new, issued, owners) = R.register_free s.coordinator k free.1 in
        rw (install_lem c R k meta s i e)
          (installed-Inv c R k meta s i w.waiters free new issued owners y)

    listen_after :
        (meta : Option Json) (out : Session U C Token × Outcome (Exc U) Bool)
        → Inv c R (record w { session = out.0 })
        → ((b : Bool) → out.1 ≡ ok b → IsFree c R k out.0)
        → Listened (and_then out (λ _. install c k meta))
    listen_after meta (s, ok b) y free = installed_after meta s y (free b refl)
    listen_after meta (s, raise e) y free = y

    pub listen_register-Listened :
        (policy : DuplicatePolicy) (meta : Option Json)
        → Listened (listen_register c policy k meta w.session)
    listen_register-Listened policy meta = rw (register_lem c R k meta w.session policy) (
        listen_after meta (checked c R k meta w.session policy)
          (Shrinks-Inv c R _ w (check_duplicate-Shrinks c R k w.session policy _) inv)
          (λ b. check_duplicate_frees c R k w.session policy))

    pub listened :
        (policy : DuplicatePolicy) (meta : Option Json) (r : Outcome (Exc U) (ℕ × Token))
        → (listen_register c policy k meta w.session).1 ≡ r
        → Listened ((listen_register c policy k meta w.session).0, r)
    listened policy meta r e =
        subst (λ x. Listened ((listen_register c policy k meta w.session).0, x)) e
          (listen_register-Listened policy meta)

  -- The callbacks that are left to run play no part.
  ready-Shrinks :
      (ready : List (ListenerKey × ℕ)) (s : Session U C Token)
      → Shrinks c R s (record s { ready = ready })
  ready-Shrinks ready s = record {
    listeners_kept = λ j l e. (e, refl);
    same_futures = refl;
    valid_kept = λ v. v;
    issued_kept = λ i v. v;
  }

  -- A coordinator whose `stop` takes no token back.
  abbrev pub StopsSafely : Type 0
  StopsSafely = (s : C) → Foreign c R s (c.stop s).0

  module _ (may_stop : Bool) (stops : may_stop ≡ true → StopsSafely) where
    pub Step-Inv : (w w' : World U C Token) → Step c R may_stop w w' → Inv c R w → Inv c R w'
    Step-Inv w _ (listens policy k meta f i e) inv = listened k w inv policy meta (ok (f, i)) e
    Step-Inv w _ (listen_fails policy k meta x e) inv = listened k w inv policy meta (raise x) e
    Step-Inv w _ (ends q v a) inv = ends-Inv q v w inv a
    Step-Inv w _ (cancels k cc dup t) inv =
        Shrinks-Inv c R _ w (cancel_locked-Shrinks c R k cc dup t w.session) inv
    Step-Inv w _ (resolves h u) inv = Shrinks-Inv c R _ w (resolve-Shrinks c R h u w.session) inv
    Step-Inv w _ (coordinator_stops p) inv = Foreign-Inv c R _ w (stops p w.session.coordinator) inv
    Step-Inv w _ (rival_acts s' f) inv = Foreign-Inv c R s' w f inv
    Step-Inv w _ (runs_callback k f rest e) inv =
        Shrinks-Inv c R _ w
          (Shrinks-trans c R (cleanup_listen-Shrinks c R k f w.session) (ready-Shrinks rest _)) inv

    pub Reach-Inv : (w w' : World U C Token) → Reach c R may_stop w w' → Inv c R w → Inv c R w'
    Reach-Inv w _ here inv = inv
    Reach-Inv w _ (later r x) inv = Step-Inv _ _ x (Reach-Inv w _ r inv)
