-- ===== src/Jsonsafe/Accepting.antt =====
-- pkg/jsonsafe/jsonsafe.go accepts the tokens of every strict value.
use claim2kernel.Base.{
  List, String, [], ap, arith, false, inr, length, ltb, refl, suc, zero, ℕ, ◌*◌, ◌+◌, ◌∙◌, ◌∷◌, ◌≡◌,
  ◌≤◌,
}
use claim2kernel.Jsonsafe.{
  Parse, Token, at_depth, parse_elements, parse_members, parse_value, then_parse,
}
use claim2kernel.Jsonsafe.Values.{
  AreStrictElements, AreStrictMembers, Elements, IsStrict, Json, Members, array, element, member,
  no_element, no_member, object, print, print_elements, print_members, scalar, text, weight,
  weight_elements, weight_members,
}

-- A value's fuel is within what its tokens allow.
mutual
  unfolding print weight

  pub weight-print :
      (v : Json) (rest : List Token) → weight v + 1 + 3 * length rest ≤ 3 * length (print v rest)
  weight-print scalar rest = omega arith
  weight-print (text s) rest = omega arith
  weight-print (object ms) rest = omega (arith, weight_members-print ms rest)
  weight-print (array es) rest = omega (arith, weight_elements-print es rest)

  weight_members-print :
      (ms : Members) (rest : List Token)
      → weight_members ms + 3 * length rest ≤ 3 * length (print_members ms rest) + 1
  weight_members-print no_member rest = omega arith
  weight_members-print (member key v ms) rest =
      omega (arith, weight-print v (print_members ms rest), weight_members-print ms rest)

  weight_elements-print :
      (es : Elements) (rest : List Token)
      → weight_elements es + 3 * length rest ≤ 3 * length (print_elements es rest) + 1
  weight_elements-print no_element rest = omega arith
  weight_elements-print (element v es) rest =
      omega (arith, weight-print v (print_elements es rest), weight_elements-print es rest)

at_depth_passed : (max depth : ℕ) (p : Parse) → depth ≤ max → at_depth max depth p ≡ p
at_depth_passed max depth p h = let e : ltb max depth ≡ false = ground (arith, h) in rw (e) refl

mutual
  unfolding print parse_value weight IsStrict

  -- The tokens of a strict value are consumed, where the fuel is at least its weight.
  pub parse_value-print :
      (v : Json) (n max depth : ℕ) (rest : List Token)
      → weight v ≤ n
      → IsStrict max depth v
      → parse_value n max depth (print v rest) ≡ inr rest
  parse_value-print scalar zero max depth rest w h = absurd (omega arith)
  parse_value-print scalar (suc n) max depth rest w h = at_depth_passed max depth (inr rest) h
  parse_value-print (text s) zero max depth rest w h = absurd (omega arith)
  parse_value-print (text s) (suc n) max depth rest w h = at_depth_passed max depth (inr rest) h
  parse_value-print (object ms) zero max depth rest w h = absurd (omega arith)
  parse_value-print (object ms) (suc n) max depth rest w h =
      at_depth_passed max depth _ h.0 ∙ parse_members-print ms n max depth [] rest (omega arith) h.1
  parse_value-print (array es) zero max depth rest w h = absurd (omega arith)
  parse_value-print (array es) (suc n) max depth rest w h =
      at_depth_passed max depth _ h.0 ∙ parse_elements-print es n max depth rest (omega arith) h.1

  parse_members-print :
      (ms : Members) (n max depth : ℕ) (seen : List String) (rest : List Token)
      → weight_members ms ≤ n
      → AreStrictMembers max depth seen ms
      → parse_members n max depth seen (print_members ms rest) ≡ inr rest
  parse_members-print no_member zero max depth seen rest w h = absurd (omega arith)
  parse_members-print no_member (suc n) max depth seen rest w h = refl
  parse_members-print (member key v ms) zero max depth seen rest w h = absurd (omega arith)
  parse_members-print (member key v ms) (suc n) max depth seen rest w h =
      let first = parse_value-print v n max (suc depth) (print_members ms rest) (omega arith) h.1 in
      let others = parse_members-print ms n max depth (key ∷ seen) rest (omega arith) h.2 in
      rw (h.0, first) others

  parse_elements-print :
      (es : Elements) (n max depth : ℕ) (rest : List Token)
      → weight_elements es ≤ n
      → AreStrictElements max depth es
      → parse_elements n max depth (print_elements es rest) ≡ inr rest
  parse_elements-print no_element zero max depth rest w h = absurd (omega arith)
  parse_elements-print no_element (suc n) max depth rest w h = refl
  parse_elements-print (element v es) zero max depth rest w h = absurd (omega arith)
  parse_elements-print (element v es) (suc n) max depth rest w h =
      let first =
        parse_value-print v n max (suc depth) (print_elements es rest) (omega arith) h.0 in
      let others = parse_elements-print es n max depth rest (omega arith) h.1 in
      elements_from v n max depth (print_elements es rest)
      ∙ ap (λ p. then_parse p (parse_elements n max depth)) first
      ∙ others

  -- A value's first token closes nothing, so that the loop goes on with it.
  elements_from :
      (v : Json) (n max depth : ℕ) (rest : List Token)
      → parse_elements (suc n) max depth (print v rest)
        ≡ then_parse (parse_value n max (suc depth) (print v rest)) (parse_elements n max depth)
  elements_from scalar n max depth rest = refl
  elements_from (text s) n max depth rest = refl
  elements_from (object ms) n max depth rest = refl
  elements_from (array es) n max depth rest = refl
