-- ===== src/Terraform/Parse/Laws.antt =====
-- What the readers of flat attributes find.
use Prim.Native.String.append
use factory_pattern_design.Base.{
  String, Char, ℕ, code, ◌==◌, true, false, ◌≡◌, refl, some, ◌∷◌, ◌<>◌, ◌=ₛ◌, arith, eq_refl,
}
use factory_pattern_design.Base.Text.{contains_char}
use factory_pattern_design.Yaml.{Value, Fields, field}
use factory_pattern_design.Terraform.Parse.{split_once, parse_prefix}

pub split_once-char :
    (k : ℕ) (prefix rest : String) (c : Char)
    → contains_char k prefix ≡ false
    → (code c == k) ≡ true
    → split_once k (prefix <> String.◌∷◌ c rest) ≡ some (prefix, rest)
unfolding split_once contains_char
split_once-char k String.[] rest c e h = rw append.nil (rw h refl)
split_once-char k (String.◌∷◌ d s) rest c e h =
    rw append.cons (ground (arith, split_once-char k s rest c))

pub split_once-dot :
    (prefix rest : String)
    → contains_char b'.' prefix ≡ false
    → split_once b'.' (prefix <> String.◌∷◌ "." rest) ≡ some (prefix, rest)
split_once-dot prefix rest e = split_once-char b'.' prefix rest "." e refl

-- A key made of a prefix without a dot, a dot and a rest other than `#` is found under the prefix
-- with that rest, in front of what the other keys give.
pub parse_prefix-field :
    (prefix rest : String) (value : Value) (source : Fields)
    → contains_char b'.' prefix ≡ false
    → (rest =ₛ "#") ≡ false
    → parse_prefix (field (prefix <> String.◌∷◌ "." rest) value source) prefix b'.'
      ≡ (rest, value) ∷ parse_prefix source prefix b'.'
unfolding parse_prefix
parse_prefix-field prefix rest value source e other =
    rw (split_once-dot prefix rest e, other, eq_refl prefix)
