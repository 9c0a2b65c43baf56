-- ===== src/UpdateCoordinator/Redis.antt =====
-- pyroflow/update_coordinator/redis_update_coordinator.py. The server and the lock of redis-py are
-- parameters, at one point in time: `Server` with what the code relies on, `IsServer`.
use pyroflow.Prelude.{
  Option, some, ◌∷◌, map, ◌⊎◌, ◌↔◌, inl, inr, ◌∙◌, ℕ, ◌≡◌, refl, ap, ◌≢◌, ◌<◌, sym, ◌*◌, ◌/◌, Bool,
  true, false, List, ◌==◌, M, ok, if◌then◌else◌,
}
use pyroflow.Errors.{Exc}
use pyroflow.Text.{Text, text_eq}
use pyroflow.Text.Fields.{Lacks}
use pyroflow.Prelude.Int.{ℤ}
use pyroflow.UpdateCoordinator.{UpdateCoordinator, IsUpdateCoordinator}
use pyroflow.UpdateCoordinator.Keys.{
  Part, lock, handled, number, sep, build_key, sections_apart, same_name,
}

-- A number of seconds, as a fraction.
pub record Number : Type 0 where
  pub numerator : ℕ
  pub denominator : ℕ

pub record Settings : Type 0 where
  pub update_name : Text
  pub lock_ttl : Number
  pub handled_ttl : Number
  pub blocking_timeout : Number
  pub sleep : Number

-- `int(self.handled_ttl * 1000)`
unfoldable pub milliseconds : Number → ℕ
milliseconds n = n.numerator * 1000 / n.denominator

-- `acquire` and `release` of `redis.lock(name, timeout, sleep, blocking_timeout)`, and the commands
-- `EXISTS` and `SET` with `PX`.
pub record Server (U S : Type 0) : Type 0 where
  pub acquire : Text → Number → Number → Number → M S (Exc U) Bool
  pub release : Text → M S (Exc U) (Unit {0})
  pub exists : Text → S → ℕ
  pub set : Text → ℕ → M S (Exc U) (Unit {0})

-- `holds` says whether the session holds the lock of a name, `taken` whether anyone does; a lock
-- that is taken is refused, and one that is got has a lease. A command leaves other names alone,
-- and `SET` wants a time that is not zero, after which the key expires.
pub record IsServer (U S : Type 0) (r : Server U S) : Type 0 where
  pub holds : S → Text → Bool
  pub taken : S → Text → Bool
  pub lease : S → Text → Option Number
  pub remaining : S → Text → ℕ
  pub holds_taken : (s : S) (k : Text) → holds s k ≡ true → taken s k ≡ true
  pub acquire_excludes :
      (s : S) (k : Text) (t w b : Number) → taken s k ≡ true → (r.acquire k t w b s).1 ≢ ok true
  pub acquire_holds :
      (s : S) (k : Text) (t w b : Number)
      → (r.acquire k t w b s).1 ≡ ok true
      → holds (r.acquire k t w b s).0 k ≡ true
  pub acquire_lease :
      (s : S) (k : Text) (t w b : Number)
      → (r.acquire k t w b s).1 ≡ ok true
      → lease (r.acquire k t w b s).0 k ≡ some t
  pub acquire_exists :
      (s : S) (k j : Text) (t w b : Number)
      → k ≢ j
      → r.exists j (r.acquire k t w b s).0 ≡ r.exists j s
  pub release_ok : (s : S) (k : Text) → holds s k ≡ true → (r.release k s).1 ≡ ok tt
  pub release_holds : (s : S) (k : Text) → holds (r.release k s).0 k ≡ false
  pub release_others : (s : S) (k j : Text) → k ≢ j → holds (r.release k s).0 j ≡ holds s j
  pub release_exists : (s : S) (k j : Text) → k ≢ j → r.exists j (r.release k s).0 ≡ r.exists j s
  pub set_ok : (s : S) (k : Text) (px : ℕ) → 0 < px → (r.set k px s).1 ≡ ok tt
  pub set_exists : (s : S) (k : Text) (px : ℕ) → 0 < px → r.exists k (r.set k px s).0 ≡ 1
  pub set_remaining : (s : S) (k : Text) (px : ℕ) → 0 < px → remaining (r.set k px s).0 k ≡ px
  pub set_others :
      (s : S) (k j : Text) (px : ℕ) → k ≢ j → r.exists j (r.set k px s).0 ≡ r.exists j s
  pub set_holds : (s : S) (k j : Text) (px : ℕ) → k ≢ j → holds (r.set k px s).0 j ≡ holds s j

-- `bool(n)`
abbrev pub truth : ℕ → Bool
truth n = if n == 0 then false else true

module _ {U S : Type 0} (o : Settings) (r : Server U S) where
  -- `lock(key).acquire()` and `lock(key).release()`
  unfoldable pub acquire : List Part → M S (Exc U) Bool
  acquire key = r.acquire (build_key o.update_name key lock) o.lock_ttl o.sleep o.blocking_timeout

  unfoldable pub release : List Part → M S (Exc U) (Unit {0})
  release key = r.release (build_key o.update_name key lock)

  unfoldable pub is_handled : List Part → M S (Exc U) Bool
  is_handled key s = (s, ok (truth (r.exists (build_key o.update_name key handled) s)))

  unfoldable pub mark_handled : List Part → M S (Exc U) (Unit {0})
  mark_handled key = r.set (build_key o.update_name key handled) (milliseconds o.handled_ttl)

  unfoldable pub redis_coordinator : UpdateCoordinator U S (List Part)
  redis_coordinator = record {
    acquire = acquire;
    release = release;
    is_handled = is_handled;
    mark_handled = mark_handled;
  }

-- A mark puts no other name there.
pub set_no_other :
    {U S : Type 0} (r : Server U S) (R : IsServer U S r) (s : S) (k j : Text) (px : ℕ)
    → truth (r.exists j (r.set k px s).0) ≡ true
    → (truth (r.exists j s) ≡ true) ⊎ (k ≡ j)
set_no_other r R s k j px h = elim (text_eq.dec k j) [
  | yes same ↦ inr same
  | no apart ↦ inl (sym (ap truth (R.set_others s k j px apart)) ∙ h)
]

unfoldable pub redis_update_contract :
    {U S : Type 0} (o : Settings) (r : Server U S)
    → IsServer U S r
    → 0 < milliseconds o.handled_ttl
    → IsUpdateCoordinator U S (List Part) (redis_coordinator o r)
unfolding redis_coordinator acquire release is_handled mark_handled
redis_update_contract o r R positive =
    let name = o.update_name in
    record {
      holds = λ s k. R.holds s (build_key name k lock);
      taken = λ s k. R.taken s (build_key name k lock);
      handled = λ s k. truth (r.exists (build_key name k handled) s);
      lock_name = λ k. build_key name k lock;
      handled_name = λ k. build_key name k handled;
      holds_taken = λ s k. R.holds_taken s (build_key name k lock);
      acquire_excludes =
          λ s k. R.acquire_excludes s (build_key name k lock) o.lock_ttl o.sleep o.blocking_timeout;
      acquire_holds =
          λ s k. R.acquire_holds s (build_key name k lock) o.lock_ttl o.sleep o.blocking_timeout;
      acquire_handled = λ s k j. ap truth (
          R.acquire_exists s (build_key name k lock) (build_key name j handled) o.lock_ttl o.sleep
            o.blocking_timeout (sections_apart name k j));
      is_handled_lem = λ s k. refl;
      mark_ok = λ s k. R.set_ok s (build_key name k handled) (milliseconds o.handled_ttl) positive;
      mark_handled_lem = λ s k.
          ap truth
            (R.set_exists s (build_key name k handled) (milliseconds o.handled_ttl) positive);
      mark_no_other = λ s k j.
          set_no_other r R s (build_key name k handled) (build_key name j handled)
            (milliseconds o.handled_ttl);
      mark_holds = λ s k j.
          R.set_holds s (build_key name k handled) (build_key name j lock)
            (milliseconds o.handled_ttl) (λ e. sections_apart name j k (sym e));
      release_ok = λ s k. R.release_ok s (build_key name k lock);
      release_holds = λ s k. R.release_holds s (build_key name k lock);
      release_others = λ s k j. R.release_others s (build_key name k lock) (build_key name j lock);
      release_handled = λ s k j. ap truth (
          R.release_exists s (build_key name k lock) (build_key name j handled)
            (sections_apart name k j));
    }

-- The Redis coordinator keeps the contract of update coordinators, over a server that does what
-- Redis documents, if the time for which updates are remembered is at least a millisecond: the locks
-- and the marks of handled updates never share a key, and a lock that anyone holds is refused. The
-- session holds a key's lock when it holds that of its name in the section of locks, and an update is
-- handled when its name in the section of handled updates exists. A lock that is got has
-- `lock_ttl` as its lease, and a mark expires after `handled_ttl`. Keys of numbers, of which
-- there is one at least, have the same name only if they are equal, if the name of the update type
-- does not hold the separator: marking one update registers no other.
pub redis-IsUpdateCoordinator :
    {U S : Type 0} (o : Settings) (r : Server U S) (R : IsServer U S r)
    → 0 < milliseconds o.handled_ttl
    → Lacks sep o.update_name
    → (C : IsUpdateCoordinator U S (List Part) (redis_coordinator o r)) × ((s : S) (k : List Part)
        → (C.holds s k ≡ R.holds s (build_key o.update_name k lock))
          × (C.taken s k ≡ R.taken s (build_key o.update_name k lock)))
      × ((s : S) (k : List Part)
          → C.handled s k ≡ truth (r.exists (build_key o.update_name k handled) s))
      × ((s : S) (k : List Part)
          → (acquire o r k s).1 ≡ ok true
          → R.lease (acquire o r k s).0 (build_key o.update_name k lock) ≡ some o.lock_ttl)
      × ((s : S) (k : List Part)
          → R.remaining (mark_handled o r k s).0 (build_key o.update_name k handled)
            ≡ o.handled_ttl.numerator * 1000 / o.handled_ttl.denominator)
      × ((i j : ℤ) (is js : List ℤ)
          → (C.lock_name (map number (i ∷ is)) ≡ C.lock_name (map number (j ∷ js))
              ↔ (i ∷ is ≡ j ∷ js))
            × (C.handled_name (map number (i ∷ is)) ≡ C.handled_name (map number (j ∷ js))
                ↔ (i ∷ is ≡ j ∷ js)))
unfolding redis_update_contract acquire mark_handled milliseconds
redis-IsUpdateCoordinator o r R positive l = (
  redis_update_contract o r R positive,
  λ s k. (refl, refl),
  λ s k. refl,
  λ s k. R.acquire_lease s (build_key o.update_name k lock) o.lock_ttl o.sleep o.blocking_timeout,
  λ s k.
      R.set_remaining s (build_key o.update_name k handled) (milliseconds o.handled_ttl) positive,
  λ i j is js.
      (same_name o.update_name i j is js lock l, same_name o.update_name i j is js handled l),
)
