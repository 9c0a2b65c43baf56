-- ===== src/UpdateCoordinator/Keys.antt =====
-- `UpdateCoordinator.build_key` of pyroflow/update_coordinator/update_coordinator.py: how a
-- key is written for the backend.
use pyroflow.Prelude.{
  ℕ, ◌≡◌, refl, sym, ap, ◌∙◌, ◌≢◌, some, List, [], ◌∷◌, ◌++◌, map, arith, All, ◌↔◌,
}
use pyroflow.Prelude.Int.{ℤ}
use pyroflow.Text.{Text, split, join}
use pyroflow.Text.Fields.{Lacks, lacks→Lacks, split-join, str_int-Lacks}
use pyroflow.Text.Decimal.{str_int, read_int, read_int-str_int}

-- `_sep`: "|".
abbrev pub sep : ℕ
sep = 124

-- "update"
abbrev pub update : Text
update = 117 ∷ 112 ∷ 100 ∷ 97 ∷ 116 ∷ 101 ∷ []

-- `_SECTION`: "lock" and "handled".
pub data Section : Type 0 where
  lock handled : Section

abbrev pub section_name : Section → Text
section_name lock = 108 ∷ 111 ∷ 99 ∷ 107 ∷ []
section_name handled = 104 ∷ 97 ∷ 110 ∷ 100 ∷ 108 ∷ 101 ∷ 100 ∷ []

-- `UpdateCoordinatorKeyT`: numbers and texts.
pub data Part : Type 0 where
  number : ℤ → Part
  text : Text → Part

unfoldable pub part_text : Part → Text
part_text (number i) = str_int i
part_text (text t) = t

-- `build_key`, for the name of the update type.
unfoldable pub build_key : Text → List Part → Section → Text
build_key update_name key section =
    let bar = sep ∷ [] in
    update
    ++ (bar
        ++ (section_name section
            ++ (bar ++ (update_name ++ (bar ++ join bar (map part_text key))))))

-- The first letter of the section.
abbrev eighth : Text → ℕ
eighth (a ∷ b ∷ c ∷ d ∷ e ∷ f ∷ g ∷ h ∷ cs) = h
eighth _ = 0

-- The two sections never share a key of the backend, whatever the keys are.
pub sections_apart :
    (name : Text) (k j : List Part) → build_key name k lock ≢ build_key name j handled
unfolding build_key
sections_apart name k j e =
    let heads : eighth (build_key name k lock) ≡ eighth (build_key name j handled) = ap eighth e in
    omega arith

fields : Text → Section → List Part → List Text
fields name section key = update ∷ section_name section ∷ name ∷ map part_text key

section-Lacks : (s : Section) → Lacks sep (section_name s)
section-Lacks lock = lacks→Lacks sep (section_name lock) refl
section-Lacks handled = lacks→Lacks sep (section_name handled) refl

numbers-Lacks : (is : List ℤ) → All (Lacks sep) (map part_text (map number is))
unfolding part_text
numbers-Lacks [] = tt
numbers-Lacks (i ∷ is) = (str_int-Lacks sep i refl (λ e. omega arith), numbers-Lacks is)

split-build_key :
    (name : Text) (i : ℤ) (is : List ℤ) (s : Section)
    → Lacks sep name
    → split (sep ∷ []) (build_key name (map number (i ∷ is)) s)
      ≡ fields name s (map number (i ∷ is))
unfolding build_key fields join
split-build_key name i is s l =
    split-join sep update (section_name s ∷ name ∷ map part_text (map number (i ∷ is)))
      (lacks→Lacks sep update refl, (section-Lacks s, (l, numbers-Lacks (i ∷ is))))

numbers_injective :
    (is js : List ℤ) → map part_text (map number is) ≡ map part_text (map number js) → is ≡ js
unfolding part_text
numbers_injective [] [] e = refl
numbers_injective [] (j ∷ js) e = cc
numbers_injective (i ∷ is) [] e = cc
numbers_injective (i ∷ is) (j ∷ js) e =
    let heads : str_int i ≡ str_int j = cc in
    let tails : map part_text (map number is) ≡ map part_text (map number js) = cc in
    let found : some i ≡ some j =
      sym (read_int-str_int i) ∙ ap read_int heads ∙ read_int-str_int j in
    let rest = numbers_injective is js tails in cc

section_injective : (s t : Section) → section_name s ≡ section_name t → s ≡ t
section_injective lock lock e = refl
section_injective lock handled e = cc
section_injective handled lock e = cc
section_injective handled handled e = refl

-- Keys of numbers are told apart by the backend: two
-- calls of `build_key` give the same key exactly if the section and all the numbers are the same.
-- There must be a number, and the name of the update type must not hold the separator.
pub build_key_apart :
    (name : Text) (i j : ℤ) (is js : List ℤ) (s t : Section)
    → Lacks sep name
    → build_key name (map number (i ∷ is)) s ≡ build_key name (map number (j ∷ js)) t
      ↔ ((s ≡ t) × (i ∷ is ≡ j ∷ js))
unfolding fields
build_key_apart name i j is js s t l = (
  (λ e.
      let same : fields name s (map number (i ∷ is)) ≡ fields name t (map number (j ∷ js)) =
        sym (split-build_key name i is s l)
        ∙ ap (split (sep ∷ [])) e
        ∙ split-build_key name j js t l in
      let sections : section_name s ≡ section_name t = cc in
      let parts : map part_text (map number (i ∷ is)) ≡ map part_text (map number (j ∷ js)) = cc in
      (section_injective s t sections, numbers_injective (i ∷ is) (j ∷ js) parts)),
  λ e. cc,
)

-- Within a section.
pub same_name :
    (name : Text) (i j : ℤ) (is js : List ℤ) (s : Section)
    → Lacks sep name
    → build_key name (map number (i ∷ is)) s ≡ build_key name (map number (j ∷ js)) s
      ↔ (i ∷ is ≡ j ∷ js)
same_name name i j is js s l =
    let both = build_key_apart name i j is js s s l in ((λ e. (both.0 e).1), λ e. both.1 (refl, e))
