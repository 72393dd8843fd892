-- ===== src/Wallet/Info.antt =====
-- src/Wallet.cpp: the mining info of the wallet's API, read from JSON and written again for the
-- miners. The JSON library is a parameter.
use cpp_burst_pool_node.Base.{
  ℕ, suc, zero, ◌+◌, ◌-◌, ◌*◌, Bool, true, false, Option, none, some, List, [], ◌∷◌, ◌++◌, ◌&&◌,
  leb, if◌then◌else◌, codes, ◌>>=◌,
}
use cpp_burst_pool_node.Base.Decimal.{stoull, to_string}
use cpp_burst_pool_node.Wallet.State.{Text}

-- What the code calls of rapidjson.
pub record Json : Type 1 where
  pub Document : Type 0
  pub parse : Text → Document
  pub is_object : Document → Bool
  pub has_member : Document → Text → Bool
  pub is_string : Document → Text → Bool
  pub get_string : Document → Text → Text

abbrev pub generation_signature : Text
generation_signature = codes "generationSignature"

abbrev pub height_key : Text
height_key = codes "height"

abbrev pub base_target_key : Text
base_target_key = codes "baseTarget"

pub record MiningInfo : Type 0 where
  pub height : ℕ
  pub base_target : ℕ
  pub gensig_str : Text

infixl 5 ◌>>◌
abbrev ◌>>◌ {ℓ} : {B : Type ℓ} → Option (Unit {0}) → Option B → Option B
m >> k = m >>= λ _. k

abbrev check : Bool → Option (Unit {0})
check true = some tt
check false = none

-- `none` for each `return false` of the checks, and for an exception of `stoull`.
unfoldable pub parse_mining_info : (j : Json) → Text → Option MiningInfo
parse_mining_info j text = do
  let document = j.parse text
  check (j.is_object document)
  check (j.has_member document generation_signature)
  check (j.has_member document height_key)
  check (j.has_member document base_target_key)
  check (j.is_string document generation_signature)
  check (j.is_string document height_key)
  check (j.is_string document base_target_key)
  height ← stoull (j.get_string document height_key)
  base_target ← stoull (j.get_string document base_target_key)
  some (record {
    height = height;
    base_target = base_target;
    gensig_str = j.get_string document generation_signature;
  })

unfoldable pub hex_digit : ℕ → Option ℕ
hex_digit c =
    if leb 48 c && leb c 57
    then some (c - 48)
    else (if leb 97 c && leb c 102
        then some (c - 87)
        else (if leb 65 c && leb c 70 then some (c - 55) else none))

-- `n` rounds of `sscanf(pos, "%2hhx", &gensig[i]); pos += 2`. A text that does not go on with two
-- hexadecimal digits is `none`: bytes are left unset or read past its end, but where `sscanf` passes
-- over white space or takes a single digit.
unfoldable pub scan_gensig : ℕ → Text → Option (List ℕ)
scan_gensig zero text = some []
scan_gensig (suc n) [] = none
scan_gensig (suc n) (a ∷ []) = none
scan_gensig (suc n) (a ∷ b ∷ text) = do
  high ← hex_digit a
  low ← hex_digit b
  rest ← scan_gensig n text
  some ((16 * high + low) ∷ rest)

unfoldable pub adapted_mining_info : MiningInfo → ℕ → Text
adapted_mining_info info deadline_limit =
    codes "{\"generationSignature\":\""
    ++ info.gensig_str
    ++ codes "\","
    ++ codes "\"baseTarget\":\""
    ++ to_string info.base_target
    ++ codes "\","
    ++ codes "\"height\":\""
    ++ to_string info.height
    ++ codes "\","
    ++ codes "\"targetDeadline\":\""
    ++ to_string deadline_limit
    ++ codes "\"}"
