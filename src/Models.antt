-- ===== src/Models.antt =====
-- pyroflow/models.py: the keys that listeners are registered under, and the search plan over them.
pub mod SubKeys
mod Tests
use pyroflow.Prelude.{
  ℕ, zero, suc, ◌+◌, ◌/◌, ◌%◌, ◌^◌, bit_or, Bool, Option, none, some, List, [], ◌∷◌, ◌++◌, map,
  foldl, ltb, ◌==◌, if◌then◌else◌, is_some, length, ℕ_discrete, DecEq,
}
use pyroflow.Prelude.Int.{ℤ}

pub record ListenerKey : Type 0 where
  pub chat_id : ℤ
  pub user_id : Option ℤ
  pub message_id : Option ℤ

unfoldable pub ListenerKey-discrete : Discrete ListenerKey
ListenerKey-discrete = hlevel ℕ_discrete

instance abbrev pub listener_key_eq : DecEq ListenerKey
listener_key_eq = record { dec = ListenerKey-discrete }

-- `m >> i & 1`
bit_at : ℕ → ℕ → Bool
bit_at m i = (m / 2 ^ i) % 2 == 1

-- `m.bit_length()`; a number has at most as many binary digits as its value.
bit_length_fuel : ℕ → ℕ → ℕ
bit_length_fuel zero m = 0
bit_length_fuel (suc f) m = let rest = suc (bit_length_fuel f (m / 2)) in if m == 0 then 0 else rest

bit_length : ℕ → ℕ
unfolding bit_length_fuel
bit_length m = bit_length_fuel m m

-- `m.bit_count()`
bit_count_fuel : ℕ → ℕ → ℕ
bit_count_fuel zero m = 0
bit_count_fuel (suc f) m = m % 2 + bit_count_fuel f (m / 2)

bit_count : ℕ → ℕ
unfolding bit_count_fuel
bit_count m = bit_count_fuel m m

-- `[i for i in range(n) if mask >> i & 1]`
bits_below : ℕ → ℕ → List ℕ
unfolding bit_at
bits_below zero mask = []
bits_below (suc n) mask = bits_below n mask ++ (if bit_at mask n then n ∷ [] else [])

-- `itertools.combinations`, in its order.
combinations : ℕ → List ℕ → List (List ℕ)
combinations zero xs = [] ∷ []
combinations (suc k) [] = []
combinations (suc k) (x ∷ xs) = map (◌∷◌ x) (combinations k xs) ++ combinations (suc k) xs

-- `keep |= 1 << i` for each `i` of the combination.
keep_of : List ℕ → ℕ
keep_of = foldl (λ keep i. bit_or keep (2 ^ i)) 0

-- The rounds of the outer loop of `_get_plan`, from `size` down to 0.
plan_from : ℕ → List ℕ → List ℕ
unfolding combinations keep_of
plan_from zero optional = map keep_of (combinations 0 optional)
plan_from (suc size) optional =
    map keep_of (combinations (suc size) optional) ++ plan_from size optional

get_plan : ℕ → List ℕ
unfolding bit_length bits_below plan_from
get_plan mask =
    let optional = bits_below (bit_length mask) mask in plan_from (length optional) optional

-- The mask over the optional fields 1 and 2 of the key.
mask_of : ListenerKey → ℕ
mask_of k = bit_or (if is_some k.user_id then 2 else 0) (if is_some k.message_id then 4 else 0)

keep_fields : ListenerKey → ℕ → ListenerKey
unfolding bit_at
keep_fields k keep = record k {
  user_id = if bit_at keep 1 then k.user_id else none;
  message_id = if bit_at keep 2 then k.message_id else none;
}

-- The loop over the plan: it stops at the first selection with too few components.
select : ℕ → ListenerKey → List ℕ → List ListenerKey
unfolding bit_count keep_fields
select min_dep k [] = []
select min_dep k (keep ∷ plan) =
    if ltb (bit_count keep + 1) min_dep then [] else keep_fields k keep ∷ select min_dep k plan

unfoldable pub sub_keys : ℕ → ListenerKey → List ListenerKey
unfolding mask_of get_plan select
sub_keys min_dep k = select min_dep k (get_plan (mask_of k))
