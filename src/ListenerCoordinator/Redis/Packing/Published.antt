-- ===== src/ListenerCoordinator/Redis/Packing/Published.antt =====
-- Keys survive their way over the server (pyroflow/listener_coordinator/redis_listener_coordinator.py).
use pyroflow.Prelude.{
  suc, ◌≡◌, refl, true, ◌≢◌, ap, ◌∙◌, Option, none, some, List, [], ◌∷◌, map, arith, All, ok, raise,
  Outcome, subst, if_neg,
}
use pyroflow.Prelude.Int.{ℤ, pos, negsuc}
use pyroflow.Models.{ListenerKey}
use pyroflow.Errors.{Exc}
use pyroflow.Text.{Text, split, join, code_eq}
use pyroflow.Text.Decimal.{str_int, natural, natural_digits, is_digit, read_int-str_int}
use pyroflow.Text.Fields.{Lacks, lacks→Lacks, split-join}
use pyroflow.ListenerCoordinator.Redis.Signals.{signal, read_signal-signal, read_signal_malformed}
use pyroflow.ListenerCoordinator.Redis.Packing.{
  sep, null, listen, Section, registry, lock, section_name, to_tuple, field_text, pack_key,
  read_field, read_fields, after_three, listener_key, unpack_key, Notice, subscribed, published,
  listen_for_cancel_signals,
}

digits-Lacks : (s : Text) → All (λ c. is_digit c ≡ true) s → Lacks sep s
digits-Lacks [] a = tt
digits-Lacks (c ∷ s) (d, a) = (λ e. ground arith, digits-Lacks s a)

field_text-Lacks : (i : Option ℤ) → Lacks sep (field_text i)
unfolding field_text str_int
field_text-Lacks none = (λ e. omega arith, tt)
field_text-Lacks (some (pos n)) = digits-Lacks (natural n) (natural_digits n)
field_text-Lacks (some (negsuc n)) =
    (λ e. omega arith, digits-Lacks (natural (suc n)) (natural_digits (suc n)))

section-Lacks : (s : Section) → Lacks sep (section_name s)
section-Lacks registry = lacks→Lacks sep (section_name registry) refl
section-Lacks lock = lacks→Lacks sep (section_name lock) refl

-- The text of a number is not "_".
str_int-ne-null : (i : ℤ) → str_int i ≢ null
unfolding str_int
str_int-ne-null (pos n) e =
    let digits = subst (All (λ c. is_digit c ≡ true)) e (natural_digits n) in ground arith
str_int-ne-null (negsuc n) e = ground arith

read_field-field_text : {U : Type 0} (i : Option ℤ) → read_field {U = U} (field_text i) ≡ ok i
unfolding read_field field_text
read_field-field_text none = ground arith
read_field-field_text (some i) = rw (if_neg _ (str_int-ne-null i), read_int-str_int i)

read_fields-map :
    {U : Type 0} (is : List (Option ℤ)) → read_fields {U = U} (map field_text is) ≡ ok is
unfolding read_fields
read_fields-map [] = refl
read_fields-map {U} (i ∷ is) =
    rw (read_field-field_text {U = U} i, read_fields) (rw (read_fields-map {U = U} is))

fields-Lacks : (k : ListenerKey) → All (Lacks sep) (map field_text (to_tuple k))
unfolding to_tuple
fields-Lacks k = (
  field_text-Lacks (some k.chat_id),
  (field_text-Lacks k.user_id, (field_text-Lacks k.message_id, tt)),
)

-- A packed key is unpacked to the key.
pub unpack_key-pack_key :
    {U : Type 0} (name : Text) (section : Section) (k : ListenerKey)
    → Lacks sep name
    → unpack_key {U = U} (pack_key name section k) ≡ ok k
unfolding unpack_key pack_key join to_tuple listener_key
unpack_key-pack_key {U} name section k l =
    ap (λ ts. from (read_fields (after_three ts))) packed
    ∙ ap from (read_fields-map {U = U} (to_tuple k))
  where
    from : Outcome (Exc U) (List (Option ℤ)) → Outcome (Exc U) ListenerKey
    from (raise e) = raise e
    from (ok fields) = listener_key fields

    packed :
        split
          (sep ∷ [])
          (join (sep ∷ []) (listen ∷ section_name section ∷ name ∷ map field_text (to_tuple k)))
        ≡ listen ∷ section_name section ∷ name ∷ map field_text (to_tuple k)
    packed =
        split-join sep listen (section_name section ∷ name ∷ map field_text (to_tuple k))
          (lacks→Lacks sep listen refl, (section-Lacks section, (l, fields-Lacks k)))

-- `f"{packed_key}{self._sep}{cancelled_id}"`, for a key and the token of its registration.
abbrev pub payload_of : Text → ListenerKey × Text → Text
payload_of name (k, i) = signal sep (pack_key name registry k) i

-- The channel carries the payloads of these signals in this order, among notices of subscriptions
-- and payloads without a separator.
pub data Carries (name : Text) : List (ListenerKey × Text) → List Notice → Type 0 where
  silent : Carries name [] []
  notice :
      {ps : List (ListenerKey × Text)} {ns : List Notice}
      → Carries name ps ns
      → Carries name ps (subscribed ∷ ns)
  malformed :
      {ps : List (ListenerKey × Text)} {ns : List Notice} (t : Text)
      → Lacks sep t
      → Carries name ps ns
      → Carries name ps (published t ∷ ns)
  carried :
      {ps : List (ListenerKey × Text)} {ns : List Notice} (p : ListenerKey × Text)
      → Lacks sep p.1
      → Carries name ps ns
      → Carries name (p ∷ ps) (published (payload_of name p) ∷ ns)

pack_key-ne-nil : (name : Text) (section : Section) (k : ListenerKey) → pack_key name section k ≢ []
unfolding pack_key
pack_key-ne-nil name section k e = ground arith

-- The task that listens for cancel signals starts one `_apply_cancel_signal` for each signal that
-- the channel carries, with the key and the token that were published, in the order of their
-- publication, and does not crash: notices of subscriptions and payloads without a separator are
-- passed over. The name of the update type and the tokens must not hold the separator.
pub listen-Carries :
    {U : Type 0} (name : Text) {ps : List (ListenerKey × Text)} {ns : List Notice}
    → Lacks sep name
    → Carries name ps ns
    → listen_for_cancel_signals {U = U} ns ≡ (ps, ok tt)
unfolding listen_for_cancel_signals
listen-Carries name l silent = refl
listen-Carries {U} name l (notice c) = listen-Carries {U = U} name l c
listen-Carries {U} name l (malformed t none_in c) =
    rw (read_signal_malformed sep t none_in, listen_for_cancel_signals)
      (listen-Carries {U = U} name l c)
listen-Carries {U} name l (carried p token c) =
    rw
      (
        read_signal-signal sep (pack_key name registry p.0) p.1 (pack_key-ne-nil name registry p.0)
            token,
        listen_for_cancel_signals,
      )
      (rw (unpack_key-pack_key {U = U} name registry p.0 l) (rw (listen-Carries {U = U} name l c)))
