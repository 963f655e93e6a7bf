-- ===== src/Balancer/Router.antt =====
-- load_balancer.py, class TrafficColorRouter. A tag that is None or the empty string is no tag.
use hmmp_python_sdk.Base.{
  ℕ, [], ◌∷◌, List, Text, length, Bool, false, Option, none, some, text_eq, ◌==◌, if◌then◌else◌,
}
use hmmp_python_sdk.Base.Dict
use hmmp_python_sdk.Models.Instance.{ServiceInstance}
use hmmp_python_sdk.Balancer.Selection.{Random, get_elem?, select}

pub record TrafficColorRouter : Type 0 where
  pub color_tag : Option Text

unfoldable pub set_color_tag : Text → TrafficColorRouter → TrafficColorRouter
set_color_tag tag r = record { color_tag = some tag }

unfoldable pub clear_color_tag : TrafficColorRouter → TrafficColorRouter
clear_color_tag r = record { color_tag = none }

-- `tag.split("=", 1)`, none where there is no "=".
abbrev pub onto : ℕ → Option (Text × Text) → Option (Text × Text)
onto c none = none
onto c (some (key, value)) = some (c ∷ key, value)

unfoldable pub split_tag : Text → Option (Text × Text)
split_tag [] = none
split_tag (c ∷ s) = let rest = split_tag s in if c == 61 then some ([], s) else onto c rest

-- `inst.metadata.get(key) == value`
abbrev pub is_value : Option Text → Text → Bool
is_value none value = false
is_value (some v) value = text_eq.beq v value

abbrev pub has_color : Text → Text → ServiceInstance ℕ → Bool
has_color key value i = is_value (Dict.get i.metadata key) value

unfoldable pub matching : Text → Text → List (ServiceInstance ℕ) → List (ServiceInstance ℕ)
matching key value [] = []
matching key value (i ∷ is') =
    if has_color key value i then i ∷ matching key value is' else matching key value is'

abbrev pub or_all {ℓ} : {A : Type ℓ} → List A → List A → List A
or_all all' [] = all'
or_all all' (x ∷ xs) = x ∷ xs

-- A tag without "=" filters nothing.
abbrev pub filter_by : Option (Text × Text) → List (ServiceInstance ℕ) → List (ServiceInstance ℕ)
filter_by none instances = instances
filter_by (some (key, value)) instances = or_all instances (matching key value instances)

abbrev pub filter_tagged : Option Text → List (ServiceInstance ℕ) → List (ServiceInstance ℕ)
filter_tagged none instances = instances
filter_tagged (some []) instances = instances
filter_tagged (some (c ∷ s)) instances = filter_by (split_tag (c ∷ s)) instances

unfoldable pub filter_instances :
    TrafficColorRouter → List (ServiceInstance ℕ) → List (ServiceInstance ℕ)
filter_instances r instances = filter_tagged r.color_tag instances

-- `load_balancer` says whether one is given, and which unit its weights are in.
abbrev pub pick : Random → Option ℕ → List (ServiceInstance ℕ) → Option (ServiceInstance ℕ)
pick rng load_balancer [] = none
pick rng (some unit) (i ∷ is') = select unit rng (i ∷ is')
pick rng none (i ∷ is') = get_elem? (i ∷ is') (rng.choice (length (i ∷ is')))

unfoldable pub route :
    Random → Option ℕ → TrafficColorRouter → List (ServiceInstance ℕ) → Option (ServiceInstance ℕ)
unfolding filter_instances
route rng load_balancer r instances = pick rng load_balancer (filter_instances r instances)
