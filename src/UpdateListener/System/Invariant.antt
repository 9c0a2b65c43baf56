-- ===== src/UpdateListener/System/Invariant.antt =====
-- Tokens, futures and the registry stay in step.
use pyroflow.Prelude.{
  Among, ℕ, ◌<◌, ◌≡◌, refl, sym, ◌∙◌, ◌≢◌, ◌↔◌, ◌⊎◌, subst, inl, inr, ite, Option, some, List, [],
  ◌∷◌, arith, DecEq, lookup, lookup-insert,
}
use pyroflow.Models.{ListenerKey, ListenerKey-discrete, listener_key_eq}
use pyroflow.ListenerCoordinator.{ListenerCoordinator, IsRegistry}
use pyroflow.Session.{Json, ListenerModel, Session}
use pyroflow.UpdateListener.Shrinks.{Shrinks}
use pyroflow.UpdateListener.Resolve.First.{Distinct}
use pyroflow.UpdateListener.Register.{IsFree, installed}
use pyroflow.UpdateListener.System.{Waiter, World, without, Foreign}

module _ {U C Token : Type 0} ⦃d : DecEq Token⦄ (c : ListenerCoordinator U C Token)
    (R : IsRegistry U C Token c) where
  open R use {owner, IsValid, Issued}

  -- A listener has a token that was issued, and a future that was created.
  pub record InSync (s : Session U C Token) (k : ListenerKey) (l : ListenerModel Token)
      : Type 0 where
    pub token : Token
    pub holds : l.coordinator_id ≡ some token
    pub issued : Issued s.coordinator token
    pub created : l.future < s.next_future

  -- A waiting coroutine and its key's listener belong together by their futures exactly if they do
  -- by their tokens; and once they do not, the coroutine's token owns the key no more.
  pub record Tied (s : Session U C Token) (v : Waiter Token) : Type 0 where
    pub older : v.future < s.next_future
    pub issued : Issued s.coordinator v.token
    pub same_generation :
        (l : ListenerModel Token)
        → lookup v.key s.listeners ≡ some l
        → (l.future ≡ v.future) ↔ (l.coordinator_id ≡ some v.token)
    pub superseded :
        (l : ListenerModel Token)
        → lookup v.key s.listeners ≡ some l
        → l.future ≢ v.future
        → owner s.coordinator v.key ≢ some v.token

  pub record Inv (w : World U C Token) : Type 0 where
    pub valid : IsValid w.session.coordinator
    pub in_sync :
        (k : ListenerKey) (l : ListenerModel Token)
        → lookup k w.session.listeners ≡ some l
        → InSync w.session k l
    pub tied : (v : Waiter Token) → Among v w.waiters → Tied w.session v
    pub distinct : Distinct c R w.session

  pub Among-without :
      (f : ℕ) (v : Waiter Token) (ws : List (Waiter Token)) → Among v (without f ws) → Among v ws
  unfolding without
  Among-without f v [] h = elim h [ ]
  Among-without f v (x ∷ ws) h = ground (arith, Among-without f v ws)

  -- Calls that only take listeners away keep the invariant.
  pub Shrinks-Inv :
      (s : Session U C Token) (w : World U C Token)
      → Shrinks c R w.session s
      → Inv w
      → Inv (record w { session = s })
  Shrinks-Inv s w sh inv = record {
    valid = sh.valid_kept inv.valid;
    in_sync = λ k l e.
        let (e', o) = sh.listeners_kept k l e in
        let y = inv.in_sync k l e' in
        record {
          token = y.token;
          holds = y.holds;
          issued = sh.issued_kept y.token y.issued;
          created = rw sh.same_futures y.created;
        };
    tied = λ v a.
        let y = inv.tied v a in
        record {
          older = rw sh.same_futures y.older;
          issued = sh.issued_kept v.token y.issued;
          same_generation = λ l e. y.same_generation l (sh.listeners_kept v.key l e).0;
          superseded = λ l e other owns.
              let (e', o) = sh.listeners_kept v.key l e in y.superseded l e' other (sym o ∙ owns);
        };
    distinct =
        λ j k l m e f. inv.distinct j k l m (sh.listeners_kept j l e).0 (sh.listeners_kept k m f).0;
  }

  -- So do the operations of other sessions.
  pub Foreign-Inv :
      (s' : C) (w : World U C Token)
      → Foreign c R w.session.coordinator s'
      → Inv w
      → Inv (record w { session = record (w.session) { coordinator = s' } })
  Foreign-Inv s' w f inv = record {
    valid = f.valid_kept inv.valid;
    in_sync = λ k l e.
        let y = inv.in_sync k l e in
        record {
          token = y.token;
          holds = y.holds;
          issued = f.issued_kept y.token y.issued;
          created = y.created;
        };
    tied = λ v a.
        let y = inv.tied v a in
        record {
          older = y.older;
          issued = f.issued_kept v.token y.issued;
          same_generation = y.same_generation;
          superseded = λ l e other owns. elim (f.owners v.key) [
            | inl same ↦ y.superseded l e other (sym same ∙ owns)
            | inr (inl gone) ↦ let bad = sym gone ∙ owns in ground arith
            | inr (inr (i, taken, new)) ↦
                let same : some i ≡ some v.token = sym taken ∙ owns in
                new (subst (Issued w.session.coordinator) (cc) y.issued)
          ];
        };
    distinct = inv.distinct;
  }

  module _ (k : ListenerKey) (meta : Option Json) (s : Session U C Token) (i : Token) where
    abbrev pub newcomer : Waiter Token
    newcomer = record { key = k; future = s.next_future; token = i }

    lookup-installed :
        (j : ListenerKey) (l : ListenerModel Token)
        → lookup j (installed c R k meta s i).listeners ≡ some l
        → ((k ≡ j) × (l.coordinator_id ≡ some i) × (l.future ≡ s.next_future))
          ⊎ ((k ≢ j) × (lookup j s.listeners ≡ some l))
    lookup-installed j l e = ground (
      arith,
      lookup-insert k j
          (record { key = k; meta = meta; future = s.next_future; coordinator_id = some i })
          s.listeners,
    )

    -- A free key gets a listener, a token and a waiting coroutine.
    pub installed-Inv :
        (ws : List (Waiter Token))
        → IsFree c R k s
        → (¬ Issued s.coordinator i)
        → Issued (c.register k s.coordinator).0 i
        → ((j : ListenerKey)
            → owner (c.register k s.coordinator).0 j
              ≡ ite (ListenerKey-discrete k j) (some i) (owner s.coordinator j))
        → Inv (record { session = s; waiters = ws })
        → Inv (record { session = installed c R k meta s i; waiters = newcomer ∷ ws })
    installed-Inv ws free new issued owners inv = record {
      valid = (R.register_kept s.coordinator k).0 inv.valid;
      in_sync = λ j l e. elim (lookup-installed j l e) [
        | inl (same, holds, f) ↦ record {
          token = i;
          holds = holds;
          issued = issued;
          created = omega arith;
        }
        | inr (other, e') ↦
            let y = inv.in_sync j l e' in
            record {
              token = y.token;
              holds = y.holds;
              issued = (R.register_kept s.coordinator k).1 y.token y.issued;
              created = omega (arith, y.created);
            }
      ];
      tied = λ v a. elim a [ inl same ↦ tied_new v same | inr old ↦ tied_old v (inv.tied v old) ];
      distinct = λ j j' l m e e' same. elim (lookup-installed j l e) [
        | inl (p, _, f) ↦ elim (lookup-installed j' m e') [
          | inl (q, _, _) ↦ sym p ∙ q
          | inr (_, old) ↦ absurd (omega (arith, (inv.in_sync j' m old).created))
        ]
        | inr (_, old) ↦ elim (lookup-installed j' m e') [
          | inl (_, _, f) ↦ absurd (omega (arith, (inv.in_sync j l old).created))
          | inr (_, old') ↦ inv.distinct j j' l m old old' same
        ]
      ];
    }
      where
        tied_new : (v : Waiter Token) → v ≡ newcomer → Tied (installed c R k meta s i) v
        tied_new v same = rw same (record {
          older = omega arith;
          issued = issued;
          same_generation = λ l e. elim (lookup-installed k l e) [
            | inl (_, holds, f) ↦ (λ _. holds, λ _. f)
            | inr (other, _) ↦ absurd (other refl)
          ];
          superseded = λ l e later owns. elim (lookup-installed k l e) [
            | inl (_, _, f) ↦ later f
            | inr (other, _) ↦ other refl
          ];
        })

        tied_old : (v : Waiter Token) → Tied s v → Tied (installed c R k meta s i) v
        tied_old v y = record {
          older = omega (arith, y.older);
          issued = (R.register_kept s.coordinator k).1 v.token y.issued;
          same_generation = λ l e. elim (lookup-installed v.key l e) [
            | inl (same, holds, f) ↦ (
              λ g. absurd (omega (arith, y.older)),
              λ h. absurd (new (subst (Issued s.coordinator) (cc) y.issued)),
            )
            | inr (_, e') ↦ y.same_generation l e'
          ];
          superseded = λ l e later owns. elim (lookup-installed v.key l e) [
            | inl (same, _, _) ↦
                let mine : some i ≡ some v.token = ground (arith, owners v.key) in
                new (subst (Issued s.coordinator) (cc) y.issued)
            | inr (other, e') ↦ y.superseded l e' later (ground (arith, owners v.key))
          ];
        }
