-- ===== src/Context/Estimator.antt =====
-- backend/app/context/estimator.py: tokens of a text, from its length. A number of characters per
-- token is in hundredths; 0 stands for every number that is not positive.
pub mod Bounds
mod Tests
use agent_studio.Base.{
  ℕ, ◌+◌, ◌-◌, ◌*◌, ◌/◌, Bool, true, false, not, ◌&&◌, Option, none, some, List, [], ◌∷◌, ◌++◌,
  length, ltb, if◌then◌else◌,
}
use agent_studio.Base.Eq.{nat_eq, list_eq}
use agent_studio.Base.Dict.{Dict, lookup, insert}
use agent_studio.Base.Text.{Text, codes, strip, lower, nonempty}

abbrev pub default_chars_per_token : ℕ
default_chars_per_token = 400

abbrev pub Estimator : Type 0
Estimator = Dict Text ℕ

abbrev pub name_key : Text → Text
name_key provider = lower (strip provider)

-- `_key`
abbrev pub pair_key : Text → Text → Text
pair_key provider model = name_key provider ++ (codes ":" ++ name_key model)

abbrev or_else : Option ℕ → ℕ → ℕ
or_else none d = d
or_else (some n) d = n

unfoldable pub chars_per_token : Estimator → Text → Text → ℕ
unfolding lookup lower strip
chars_per_token e provider model =
    let default_value = or_else (lookup (codes "default") e) default_chars_per_token in
    let family =
      if nonempty provider
      then or_else (lookup (name_key provider) e) default_value
      else default_value in
    if nonempty provider && nonempty model
    then or_else (lookup (pair_key provider model) e) family
    else family

-- `math.ceil` of a quotient of hundredths
unfoldable pub ceil_div : ℕ → ℕ → ℕ
ceil_div n d = (n + (d - 1)) / d

unfoldable pub tokens_at : ℕ → Text → ℕ
unfolding ceil_div
tokens_at per text =
    if not (nonempty text)
    then 0
    else if not (ltb 0 per)
    then 0
    else ceil_div (100 * length text) per

unfoldable pub estimate : Estimator → Text → Text → Text → ℕ
unfolding chars_per_token tokens_at
estimate e provider model text = tokens_at (chars_per_token e provider model) text

-- `estimate_messages` of messages whose contents are strings
unfoldable pub estimate_messages : Estimator → Text → Text → List Text → ℕ
unfolding estimate
estimate_messages e provider model [] = 0
estimate_messages e provider model (c ∷ cs) =
    estimate e provider model c + estimate_messages e provider model cs

unfoldable pub register_override : Text → ℕ → Estimator → Estimator
unfolding insert lower strip
register_override key per e = insert (name_key key) per e
