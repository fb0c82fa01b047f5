-- ===== src/Jsonsafe/Strict.antt =====
-- What pkg/jsonsafe/jsonsafe.go accepts, exactly.
use claim2kernel.Base.{
  Bool, Bool-cases, List, Option, Option-cases, String, [], ap, arith, false, if◌then◌else◌, inl,
  inr, ltb, nat_eq, none, refl, some, subst, sym, true, ℕ, ◌↔◌, ◌∙◌, ◌∷◌, ◌≡◌, ◌≤◌,
}
use claim2kernel.Jsonsafe.{
  Parse, Token, after_value, decode_strict, default_max_bytes, default_max_depth, parse_fuel,
  parse_value, reject_duplicate_keys, require_eof,
}
use claim2kernel.Jsonsafe.Accepted.{Spelled, parse_value-Spelled}
use claim2kernel.Jsonsafe.Accepting.{parse_value-print, weight-print}
use claim2kernel.Jsonsafe.Values.{print, weight}

abbrev pub depth_limit : ℕ → ℕ
depth_limit max = if nat_eq max 0 then default_max_depth else max

after_value-none : (p : Parse) → after_value p ≡ none → p ≡ inr []
unfolding require_eof
after_value-none (inl err) h = absurd (cc (h))
after_value-none (inr []) h = refl
after_value-none (inr (t ∷ ts)) h = absurd (cc (h))

-- RejectDuplicateKeys gives no error exactly on the tokens of one JSON value in which no object has a
-- key twice and no value stands deeper than the maximum, 64 where it is 0; so the fuel is enough.
pub reject_duplicate_keys_iff :
    (ts : List Token) (max : ℕ)
    → (reject_duplicate_keys ts max ≡ none) ↔ Spelled (depth_limit max) 0 ts []
unfolding reject_duplicate_keys require_eof
reject_duplicate_keys_iff ts max = (
  λ h.
      parse_value-Spelled (parse_fuel ts) (depth_limit max) 0 ts []
        (after_value-none (parse_value (parse_fuel ts) (depth_limit max) 0 ts) h),
  λ k.
      let enough : weight k.value ≤ parse_fuel (print k.value []) =
        omega (arith, weight-print k.value []) in
      let parsed =
        parse_value-print k.value (parse_fuel (print k.value [])) (depth_limit max) 0 [] enough
          k.strict in
      subst (λ x. after_value (parse_value (parse_fuel x) (depth_limit max) 0 x) ≡ none)
        (sym k.spelled) (ap after_value parsed),
)

module _ {A : Type 0} (byte_count : String → ℕ) (tokens : String → List Token)
    (decode : String → Option (A × Bool)) where
  -- One strict value within the limits, that decodes to the result and ends the input.
  pub record IsDecoded (input : String) (max : ℕ) (a : A) : Type 0 where
    pub short : byte_count input ≤ (if nat_eq max 0 then default_max_bytes else max)
    pub strict : Spelled 64 0 (tokens input) []
    pub decoded : decode input ≡ some (a, true)

  -- DecodeStrict gives a value exactly where the input is within the limit, its tokens are those of one
  -- JSON value without duplicate keys and at most 64 deep, and it decodes to the value and ends there.
  pub decode_strict_iff :
      (input : String) (max : ℕ) (a : A)
      → (decode_strict byte_count tokens decode input max ≡ inr a) ↔ IsDecoded input max a
  unfolding decode_strict
  decode_strict_iff input max a =
      let limit : ℕ = if nat_eq max 0 then default_max_bytes else max in
      let keys = reject_duplicate_keys_iff (tokens input) default_max_depth in
      (
        λ h. elim (Bool-cases (ltb limit (byte_count input))) [
          | inl long ↦ absurd (cc (rw (long, decode_strict) at h))
          | inr short ↦
              elim (Option-cases (reject_duplicate_keys (tokens input) default_max_depth)) [
                | inr (err, bad) ↦ absurd (cc (rw (short, bad, decode_strict) at h))
                | inl clear ↦ elim (Option-cases (decode input)) [
                  | inl bad ↦ absurd (cc (rw (short, clear, bad, decode_strict) at h))
                  | inr ((b, at_end), found) ↦ elim (Bool-cases at_end) [
                    | inr more ↦ absurd (cc (rw (short, clear, found, more, decode_strict) at h))
                    | inl done ↦
                        let same : b ≡ a =
                          cc (rw (short, clear, found, done, decode_strict) at h) in
                        record {
                          short = ground (arith, short);
                          strict = keys.0 clear;
                          decoded = found ∙ ap some (λ i. (same i, done i));
                        }
                  ]
                ]
              ]
        ],
        λ k.
            let fits : ltb limit (byte_count input) ≡ false = ground (arith, k.short) in
            rw (fits, keys.1 k.strict, k.decoded, decode_strict) refl,
      )
