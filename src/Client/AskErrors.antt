-- ===== src/Client/AskErrors.antt =====
-- What becomes of an error while `ask` waits (pyroflow/client.py, pyroflow/utils/misc_tools.py).
use pyroflow.Prelude.{
  ◌≡◌, refl, ap, ◌∙◌, Bool, true, false, Option, none, some, List, [], ◌∷◌, ◌++◌, DecEq, lookup, M,
  ok, raise, and_then, return, Bool-cases, Option-cases, Outcome-cases, is_some, subst, inl, inr,
}
use pyroflow.Prelude.Int.{ℤ}
use pyroflow.Errors.{Exc, is_exception}
use pyroflow.Client.{
  Sent, Wait, Question, Client, ErrorHandlers, try_handlers, handle_ask_error, listened_message,
  request, put_question, final_chat_id, report_error, wait_for_answer, ask,
}

-- What the code relies on of `maybe_awaitable` with `return_exc=True`: the call is made, and an
-- `Exception` that it raises is not raised again.
pub record IsAwaited (U W : Type 0) (awaited : M W (Exc U) (Unit {0}) → M W (Exc U) (Unit {0}))
    : Type 0 where
  pub returns :
      (m : M W (Exc U) (Unit {0})) (w : W) → (m w).1 ≡ ok tt → awaited m w ≡ ((m w).0, ok tt)
  pub swallows :
      (m : M W (Exc U) (Unit {0})) (w : W) (e : Exc U)
      → (m w).1 ≡ raise e
      → is_exception e ≡ true
      → awaited m w ≡ ((m w).0, ok tt)

-- The first handler of a mapping whose key fits the error.
abbrev pub first_match :
    {U W X : Type 0}
    → (Exc U → X → Bool)
    → Exc U
    → ErrorHandlers U W X
    → Option (Exc U → Sent → M W (Exc U) (Unit {0}))
first_match is_instance exc [] = none
first_match is_instance exc ((exc_types, handler) ∷ hdlrs) = elim (is_instance exc exc_types) [
  | true ↦ some handler
  | false ↦ first_match is_instance exc hdlrs
]

abbrev pub entries : {U W X : Type 0} → Option (ErrorHandlers U W X) → ErrorHandlers U W X
entries none = []
entries (some hdlrs) = hdlrs

-- The world after the handler that was found, if any.
abbrev pub after_handler :
    {U W : Type 0} → Exc U → Sent → Option (Exc U → Sent → M W (Exc U) (Unit {0})) → W → W
after_handler exc m none w = w
after_handler exc m (some h) w = (h exc m w).0

-- The handler that was found raises no error but `Exception`s.
abbrev pub IsQuiet :
    {U W : Type 0} → Exc U → Sent → Option (Exc U → Sent → M W (Exc U) (Unit {0})) → W → Type 0
IsQuiet {U} exc m none w = Unit
IsQuiet {U} exc m (some h) w = (e : Exc U) → (h exc m w).1 ≡ raise e → is_exception e ≡ true

abbrev or_else : {A : Type 0} → Option A → Option A → Option A
or_else none o = o
or_else (some a) o = some a

first_match-append :
    {U W X : Type 0} (is_instance : Exc U → X → Bool) (exc : Exc U) (xs ys : ErrorHandlers U W X)
    → first_match is_instance exc (xs ++ ys)
      ≡ or_else (first_match is_instance exc xs) (first_match is_instance exc ys)
first_match-append is_instance exc [] ys = refl
first_match-append is_instance exc ((x, h) ∷ xs) ys = elim (Bool-cases (is_instance exc x)) [
  | inl e ↦ rw (e, first_match) refl
  | inr e ↦ rw (e, first_match) (first_match-append is_instance exc xs ys)
]

module _ {U W X : Type 0} (awaited : M W (Exc U) (Unit {0}) → M W (Exc U) (Unit {0}))
    (is_instance : Exc U → X → Bool) (exc : Exc U) (m : Sent) where
  -- A handler runs, if one was found.
  abbrev run_found : Option (Exc U → Sent → M W (Exc U) (Unit {0})) → M W (Exc U) Bool
  run_found none w = (w, ok false)
  run_found (some h) w = and_then (awaited (h exc m) w) (λ _. return true)

  try_handlers_lem :
      (hs : ErrorHandlers U W X) (w : W)
      → try_handlers awaited is_instance exc m hs w ≡ run_found (first_match is_instance exc hs) w
  unfolding try_handlers
  try_handlers_lem [] w = refl
  try_handlers_lem ((x, h) ∷ hs) w = elim (Bool-cases (is_instance exc x)) [
    | inl e ↦ rw (e, try_handlers, first_match) refl
    | inr e ↦ rw (e, try_handlers, first_match) (try_handlers_lem hs w)
  ]

  one_mapping :
      (o : Option (ErrorHandlers U W X)) (rest : List (Option (ErrorHandlers U W X))) (w : W)
      → handle_ask_error awaited is_instance exc m (o ∷ rest) w
        ≡ and_then (run_found (first_match is_instance exc (entries o)) w) (λ found. elim found [
          | true ↦ return true
          | false ↦ handle_ask_error awaited is_instance exc m rest
        ])
  unfolding handle_ask_error
  one_mapping none rest w = refl
  one_mapping (some hs) rest w = rw (try_handlers_lem hs w)

  module _ (A : IsAwaited U W awaited) where
    run_found_quiet :
        (o : Option (Exc U → Sent → M W (Exc U) (Unit {0}))) (w : W)
        → IsQuiet exc m o w
        → run_found o w ≡ (after_handler exc m o w, ok (is_some o))
    run_found_quiet none w q = refl
    run_found_quiet (some h) w q = elim (Outcome-cases (h exc m w).1) [
      | inl (x, e) ↦ rw (A.returns (h exc m) w e)
      | inr (x, e) ↦ rw (A.swallows (h exc m) w x e (q x e))
    ]

    only_mapping :
        (o : Option (ErrorHandlers U W X)) (w : W)
        → IsQuiet exc m (first_match is_instance exc (entries o)) w
        → handle_ask_error awaited is_instance exc m (o ∷ []) w ≡ (
          after_handler exc m (first_match is_instance exc (entries o)) w,
          ok (is_some (first_match is_instance exc (entries o))),
        )
    unfolding handle_ask_error
    only_mapping o w q = one_mapping o [] w ∙ ended (first_match is_instance exc (entries o)) q
      where
        ended :
            (h : Option (Exc U → Sent → M W (Exc U) (Unit {0})))
            → IsQuiet exc m h w
            → and_then (run_found h w) (λ found. elim found [
              | true ↦ return true
              | false ↦ handle_ask_error awaited is_instance exc m []
            ])
              ≡ (after_handler exc m h w, ok (is_some h))
        ended none q = refl
        ended (some h) q = rw (run_found_quiet (some h) w q)

    two_mappings :
        (own table : Option (ErrorHandlers U W X)) (w : W)
        → let chosen = first_match is_instance exc (entries own ++ entries table) in
          IsQuiet exc m chosen w
          → handle_ask_error awaited is_instance exc m (own ∷ table ∷ []) w
            ≡ (after_handler exc m chosen w, ok (is_some chosen))
    two_mappings own table w q = elim (Option-cases (first_match is_instance exc (entries own))) [
      | inl e ↦
          let c : first_match is_instance exc (entries own ++ entries table)
              ≡ first_match is_instance exc (entries table) =
            joined ∙ ap (λ o. or_else o (first_match is_instance exc (entries table))) e in
          rw (c, one_mapping own (table ∷ []) w, e)
            (only_mapping table w (subst (λ o. IsQuiet exc m o w) c q))
      | inr (h, e) ↦
          let c : first_match is_instance exc (entries own ++ entries table) ≡ some h =
            joined ∙ ap (λ o. or_else o (first_match is_instance exc (entries table))) e in
          rw (c, one_mapping own (table ∷ []) w, e)
            (rw (run_found_quiet (some h) w (subst (λ o. IsQuiet exc m o w) c q)))
    ]
      where
        joined :
            first_match is_instance exc (entries own ++ entries table)
            ≡ or_else
                (first_match is_instance exc (entries own))
                (first_match is_instance exc (entries table))
        joined = first_match-append is_instance exc (entries own) (entries table)

module _ {T U W X V : Type 0} ⦃t_eq : DecEq T⦄ (client : Client T U W X V)
    (A : IsAwaited U W client.awaited) where
  -- While `ask` waits, the listener raises an `Exception`. Then `ask` raises that same one, after
  -- one handler was called and awaited in the world that the wait left: the first whose key fits
  -- the error among the handlers given in the call and then, in the client's table as it stands at
  -- that time, those of the awaited update type. If none fits, nothing is called. The question
  -- was put before that, and its listener called with the final chat, the message to listen for and
  -- the metadata with the message's id. What the handler raises, if anything, is an `Exception`.
  pub ask_reraises :
      (q : Question T U W X V) (w w1 w2 w3 : W) (listener : Wait → M W (Exc U) U) (m : Sent)
      (message_id : Option ℤ) (chat_id : ℤ) (exc : Exc U)
      → lookup q.update_type (client.listeners w) ≡ some listener
      → put_question client q w ≡ (w1, ok m)
      → listened_message q.listen_message_id m ≡ ok message_id
      → final_chat_id client q.chat_id m w1 ≡ (w2, ok chat_id)
      → listener (request q m chat_id message_id) w2 ≡ (w3, raise exc)
      → is_exception exc ≡ true
      → let chosen = first_match client.is_instance exc (
          entries q.error_handlers
          ++ entries (lookup q.update_type (client.ask_error_handlers w3))) in
        IsQuiet exc m chosen w3 → ask client q w ≡ (after_handler exc m chosen w3, raise exc)
  unfolding ask wait_for_answer report_error
  ask_reraises q w w1 w2 w3 listener m message_id chat_id exc found put listened final raised x
        quiet =
      rw (found, ask)
        (rw (put) (
          rw (listened) (
            rw (final) (
              rw (raised) (
                rw (x) (
                  rw (
                    two_mappings client.awaited client.is_instance exc m A q.error_handlers
                      (lookup q.update_type (client.ask_error_handlers w3)) w3 quiet)))))))
