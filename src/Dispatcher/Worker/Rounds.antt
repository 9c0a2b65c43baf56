-- ===== src/Dispatcher/Worker/Rounds.antt =====
-- What a worker does with the packets in front of its sentinel (pyroflow/dispatcher.py).
use pyroflow.Prelude.{
  ℕ, ◌≡◌, refl, ap, ◌∙◌, ◌⊎◌, inl, inr, Bool, Option, none, some, List, [], ◌∷◌, ◌++◌, map, DecEq,
  M, Outcome, and_then, Option-cases, ◌≢◌, subst, ok, raise, arith,
}
use pyroflow.Errors.{Exc, task_cancelled}
use pyroflow.UpdateCoordinator.{UpdateCoordinator}
use pyroflow.Dispatcher.{Handler}
use pyroflow.Dispatcher.Settlement.{Context}
use pyroflow.Dispatcher.Pipeline.{Dispatcher, handle_update}
use pyroflow.Dispatcher.Worker.{
  caught, seen_by, parse, Ending, stopped, killed, handle_packet, handler_worker,
}

-- The loop lets one error through, and no other.
caught_cases :
    {S U : Type 0} (out : S × Outcome (Exc U) (Unit {0}))
    → ((caught out ≡ (out.0, ok tt)) × (out.1 ≢ raise task_cancelled))
      ⊎ ((caught out ≡ (out.0, raise task_cancelled)) × (out.1 ≡ raise task_cancelled))
caught_cases (s, ok x) = inl (refl, λ e. cc)
caught_cases (s, raise task_cancelled) = inr (refl, refl)
caught_cases (s, raise _) = inl (ground arith, λ e. cc)

module _ {T U C W K P H : Type 0} ⦃d : DecEq T⦄ (type_of : U → T) (c : UpdateCoordinator U C K)
    (safe_await : M C (Exc U) (Unit {0}) → M C (Exc U) (Unit {0}))
    (on_error : Exc U → Handler U W → M W (Exc U) (Unit {0}))
    (update_parsers : P → Option (M W (Exc U) (Option U × H))) (none_type : H)
    (is_instance_of : ℕ → H → Bool) (disp : Dispatcher T U W K) where
  abbrev handled : H → Option U → Context C W K → Context C W K × Outcome (Exc U) (Unit {0})
  handled h u s =
      handle_update type_of c safe_await on_error
        (seen_by type_of c safe_await on_error update_parsers none_type is_instance_of disp h) u s

  abbrev worker : List (Option P) → Context C W K → Context C W K × Ending U P
  worker = handler_worker type_of c safe_await on_error update_parsers none_type is_instance_of disp

  -- What becomes of a packet: it has no parser and is handled as it is, its parser fails, or what
  -- the parser makes of it is handled.
  pub data Serves (p : P) (s : Context C W K)
      : Context C W K × Outcome (Exc U) (Unit {0}) → Type 0 where
    no_parser : update_parsers p ≡ none → Serves p s (handled none_type none s)
    unparsed :
        (f : M W (Exc U) (Option U × H)) (w : W) (e : Exc U)
        → update_parsers p ≡ some f
        → f s.world ≡ (w, raise e)
        → Serves p s (record s { world = w }, raise e)
    parsed :
        (f : M W (Exc U) (Option U × H)) (w : W) (u : Option U) (h : H)
        → update_parsers p ≡ some f
        → f s.world ≡ (w, ok (u, h))
        → Serves p s (handled h u (record s { world = w }))

  -- Packets that were served one after the other, whatever was raised but a cancellation.
  pub data Rounds : List P → Context C W K → Context C W K → Type 0 where
    done : {s : Context C W K} → Rounds [] s s
    next :
        {p : P} {ps : List P} {s s' t : Context C W K} {r : Outcome (Exc U) (Unit {0})}
        → Serves p s (s', r)
        → r ≢ raise task_cancelled
        → Rounds ps s' t
        → Rounds (p ∷ ps) s t

  abbrev round : P → M (Context C W K) (Exc U) (Unit {0})
  round = handle_packet type_of c safe_await on_error update_parsers none_type is_instance_of disp

  abbrev turn :
      Context C W K
      → W × Outcome (Exc U) (Option U × H)
      → Context C W K × Outcome (Exc U) (Unit {0})
  turn s x = caught (and_then (record s { world = x.0 }, x.1) (λ found. handled found.1 found.0))

  abbrev after_parser :
      Context C W K
      → W × Outcome (Exc U) (Option U × H)
      → Context C W K × Outcome (Exc U) (Unit {0})
  after_parser s (w, raise e) = (record s { world = w }, raise e)
  after_parser s (w, ok (u, h)) = handled h u (record s { world = w })

  -- A round, by what the parser makes of the packet.
  round_lem :
      (p : P) (s : Context C W K) (out : W × Outcome (Exc U) (Option U × H))
      → parse type_of c safe_await on_error update_parsers none_type is_instance_of disp p s.world
        ≡ out
      → round p s ≡ caught (after_parser s out)
  unfolding handle_packet
  round_lem p s (w, raise e) ran = ap (turn s) ran
  round_lem p s (w, ok (u, h)) ran = ap (turn s) ran

  parse-some :
      (p : P) (f : M W (Exc U) (Option U × H)) (w : W)
      → update_parsers p ≡ some f
      → parse type_of c safe_await on_error update_parsers none_type is_instance_of disp p w ≡ f w
  unfolding parse
  parse-some p f w found = rw (found, parse) refl

  parse-none :
      (p : P) (w : W)
      → update_parsers p ≡ none
      → parse type_of c safe_await on_error update_parsers none_type is_instance_of disp p w
        ≡ (w, ok (none, none_type))
  unfolding parse
  parse-none p w absent = rw (absent, parse) refl

  parser_cases :
      (p : P) (s : Context C W K) (f : M W (Exc U) (Option U × H))
      (out : W × Outcome (Exc U) (Option U × H))
      → update_parsers p ≡ some f
      → f s.world ≡ out
      → Serves p s (after_parser s out)
  parser_cases p s f (w, raise e) found ran = unparsed f w e found ran
  parser_cases p s f (w, ok (u, h)) found ran = parsed f w u h found ran

  round-Serves :
      (p : P) (s : Context C W K)
      → (x : Context C W K × Outcome (Exc U) (Unit {0})) × Serves p s x × (round p s ≡ caught x)
  round-Serves p s = elim (Option-cases (update_parsers p)) [
    | inl n ↦ (
      handled none_type none s,
      no_parser n,
      round_lem p s (s.world, ok (none, none_type)) (parse-none p s.world n),
    )
    | inr (f, found) ↦ (
      after_parser s (f s.world),
      parser_cases p s f (f s.world) found refl,
      round_lem p s (f s.world) (parse-some p f s.world found),
    )
  ]

  -- The loop goes by how the round ended.
  abbrev by_round :
      List (Option P) → Context C W K × Outcome (Exc U) (Unit {0}) → Context C W K × Ending U P
  by_round queue out = elim out.1 [ ok x ↦ worker queue out.0 | raise e ↦ (out.0, killed e queue) ]

  worker_lem :
      (p : P) (queue : List (Option P)) (s : Context C W K)
      (out : Context C W K × Outcome (Exc U) (Unit {0}))
      → round p s ≡ out
      → worker (some p ∷ queue) s ≡ by_round queue out
  unfolding handler_worker
  worker_lem p queue s out e = ap (by_round queue) e

  -- Let the handlers and parsers return or raise. A worker with a sentinel on its queue then ends
  -- in one of two ways. It stops at the sentinel, and each packet in front of it was parsed, where
  -- there is a parser, and given to `handle_update` once, in the order of the queue, whatever
  -- `Exception` a parser or `handle_update` raised. Or the task was cancelled in the round of a
  -- packet, and the packets in front of that one were served in this way; it and none behind it.
  pub worker-Serves :
      (ps : List P) (rest : List (Option P)) (s : Context C W K)
      → ((t : Context C W K) × Rounds ps s t
          × (worker (map some ps ++ none ∷ rest) s ≡ (t, stopped rest)))
        ⊎ ((qs : List P) × (p : P) × (more : List P) × (t s' : Context C W K) × (ps
              ≡ qs ++ p ∷ more)
            × Rounds qs s t
            × Serves p t (s', raise task_cancelled)
            × (worker (map some ps ++ none ∷ rest) s
                ≡ (s', killed task_cancelled (map some more ++ none ∷ rest))))
  unfolding handler_worker
  worker-Serves [] rest s = inl (s, done, refl)
  worker-Serves (p ∷ ps) rest s =
      let ((s', r), served, e) = round-Serves p s in
      elim (caught_cases (s', r)) [
        | inl (c', fine) ↦
            let step = worker_lem p (map some ps ++ none ∷ rest) s (s', ok tt) (e ∙ c') in
            elim (worker-Serves ps rest s') [
              | inl (t, rounds, h) ↦ inl (t, next served fine rounds, step ∙ h)
              | inr (qs, q, more, t, u, split, rounds, last, h) ↦ inr (
                p ∷ qs,
                q,
                more,
                t,
                u,
                ap (λ l. p ∷ l) split,
                next served fine rounds,
                last,
                step ∙ h,
              )
            ]
        | inr (c', dead) ↦ inr (
          [],
          p,
          ps,
          s,
          s',
          refl,
          done,
          subst (λ x. Serves p s (s', x)) dead served,
          worker_lem p (map some ps ++ none ∷ rest) s (s', raise task_cancelled) (e ∙ c'),
        )
      ]
