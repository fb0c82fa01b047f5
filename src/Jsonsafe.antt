-- ===== src/Jsonsafe.antt =====
-- pkg/jsonsafe/jsonsafe.go: strict JSON decoding with duplicate keys rejected. The tokens of
-- encoding/json, its decoding of a value and the length in bytes are parameters.
pub mod Values
pub mod Accepting
pub mod Accepted
pub mod Strict
use claim2kernel.Base.{
  Bool, List, Option, String, [], contains, if◌then◌else◌, inl, inr, length, ltb, nat_eq, none,
  some, suc, zero, ℕ, ◌*◌, ◌+◌, ◌^◌, ◌∷◌, ◌⊎◌,
}

-- What `Decoder.Token` gives: a delimiter, a string, another scalar, or an error. The tokens end
-- where the input does.
pub data Token : Type 0 where
  open_object close_object open_array close_array : Token
  text_token : String → Token
  scalar_token broken_token : Token

pub data JsonError : Type 0 where
  input_too_long nested_too_deep unreadable_token unexpected_delimiter key_not_string : JsonError
  duplicate_key : String → JsonError
  unterminated_object unterminated_array trailing_data not_decoded out_of_fuel : JsonError

-- What is left of the tokens, or the error.
abbrev pub Parse : Type 0
Parse = JsonError ⊎ List Token

abbrev pub default_max_bytes : ℕ
default_max_bytes = 4 * 2 ^ 20

abbrev pub default_max_depth : ℕ
default_max_depth = 64

abbrev pub then_parse : Parse → (List Token → Parse) → Parse
then_parse (inl err) next = inl err
then_parse (inr rest) next = next rest

-- The token behind the members or the elements, which is not one of theirs.
unfoldable pub end_object : List Token → Parse
end_object (close_object ∷ rest) = inr rest
end_object _ = inl unterminated_object

unfoldable pub end_array : List Token → Parse
end_array (close_array ∷ rest) = inr rest
end_array _ = inl unterminated_array

-- What is parsed where the depth is allowed.
abbrev pub at_depth : ℕ → ℕ → Parse → Parse
at_depth max depth p = if ltb max depth then inl nested_too_deep else p

-- parseValue and its two loops, on fuel. `Decoder.More` is whether a token that closes nothing is next.
unfoldable mutual
  unfolding end_object end_array contains

  pub parse_value : ℕ → ℕ → ℕ → List Token → Parse
  parse_value zero max depth ts = inl out_of_fuel
  parse_value (suc n) max depth [] = at_depth max depth (inl unreadable_token)
  parse_value (suc n) max depth (open_object ∷ ts) =
      at_depth max depth (parse_members n max depth [] ts)
  parse_value (suc n) max depth (open_array ∷ ts) =
      at_depth max depth (parse_elements n max depth ts)
  parse_value (suc n) max depth (text_token s ∷ ts) = at_depth max depth (inr ts)
  parse_value (suc n) max depth (scalar_token ∷ ts) = at_depth max depth (inr ts)
  parse_value (suc n) max depth (broken_token ∷ ts) = at_depth max depth (inl unreadable_token)
  parse_value (suc n) max depth (close_object ∷ ts) = at_depth max depth (inl unexpected_delimiter)
  parse_value (suc n) max depth (close_array ∷ ts) = at_depth max depth (inl unexpected_delimiter)

  pub parse_members : ℕ → ℕ → ℕ → List String → List Token → Parse
  parse_members zero max depth seen ts = inl out_of_fuel
  parse_members (suc n) max depth seen (text_token key ∷ ts) =
      if contains seen key
      then inl (duplicate_key key)
      else then_parse (parse_value n max (suc depth) ts) (parse_members n max depth (key ∷ seen))
  parse_members (suc n) max depth seen (broken_token ∷ ts) = inl unreadable_token
  parse_members (suc n) max depth seen (scalar_token ∷ ts) = inl key_not_string
  parse_members (suc n) max depth seen (open_object ∷ ts) = inl key_not_string
  parse_members (suc n) max depth seen (open_array ∷ ts) = inl key_not_string
  parse_members (suc n) max depth seen (close_object ∷ ts) = end_object (close_object ∷ ts)
  parse_members (suc n) max depth seen (close_array ∷ ts) = end_object (close_array ∷ ts)
  parse_members (suc n) max depth seen [] = end_object []

  pub parse_elements : ℕ → ℕ → ℕ → List Token → Parse
  parse_elements zero max depth ts = inl out_of_fuel
  parse_elements (suc n) max depth (close_object ∷ ts) = end_array (close_object ∷ ts)
  parse_elements (suc n) max depth (close_array ∷ ts) = end_array (close_array ∷ ts)
  parse_elements (suc n) max depth [] = end_array []
  parse_elements (suc n) max depth (t ∷ ts) =
      then_parse (parse_value n max (suc depth) (t ∷ ts)) (parse_elements n max depth)

-- requireEOF
unfoldable pub require_eof : List Token → Option JsonError
require_eof [] = none
require_eof (_ ∷ _) = some trailing_data

abbrev pub after_value : Parse → Option JsonError
after_value (inl err) = some err
after_value (inr rest) = require_eof rest

-- Enough for every input of the length.
abbrev pub parse_fuel : List Token → ℕ
parse_fuel ts = 3 * length ts + 1

-- RejectDuplicateKeys; nothing is no error
unfoldable pub reject_duplicate_keys : List Token → ℕ → Option JsonError
unfolding parse_value require_eof
reject_duplicate_keys ts max =
    after_value (parse_value (parse_fuel ts) (if nat_eq max 0 then default_max_depth else max) 0 ts)

-- DecodeStrict into a value of the type: `decode` gives the value and whether the input ends behind it.
unfoldable pub decode_strict {ℓ} :
    {A : Type ℓ}
    → (byte_count : String → ℕ) → (tokens : String → List Token)
    → (decode : String → Option (A × Bool)) → String
    → ℕ
    → JsonError ⊎ A
unfolding reject_duplicate_keys
decode_strict byte_count tokens decode input max =
    if ltb (if nat_eq max 0 then default_max_bytes else max) (byte_count input)
    then inl input_too_long
    else elim (reject_duplicate_keys (tokens input) default_max_depth) [
      | some err ↦ inl err
      | none ↦ elim (decode input) [
        | none ↦ inl not_decoded
        | some (value, at_end) ↦ if at_end then inr value else inl trailing_data
      ]
    ]
