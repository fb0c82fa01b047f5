-- ===== src/Jsonsafe/Accepted.antt =====
-- What pkg/jsonsafe/jsonsafe.go accepts are the tokens of a strict value.
use claim2kernel.Base.{
  Bool-cases, List, String, [], ap, arith, contains, inl, inr, ltb, refl, suc, zero, ℕ, ◌∙◌, ◌∷◌,
  ◌≡◌, ◌≤◌, ◌⊎◌,
}
use claim2kernel.Jsonsafe.{
  Parse, Token, at_depth, broken_token, close_array, close_object, end_array, end_object,
  open_array, open_object, parse_elements, parse_members, parse_value, scalar_token, text_token,
  then_parse,
}
use claim2kernel.Jsonsafe.Values.{
  AreStrictElements, AreStrictMembers, Elements, IsStrict, Json, Members, array, element, member,
  no_element, no_member, object, print, print_elements, print_members, scalar, text,
}

-- The tokens are those of a strict value in front of the rest.
pub record Spelled (max depth : ℕ) (ts rest : List Token) : Type 0 where
  pub value : Json
  pub strict : IsStrict max depth value
  pub spelled : ts ≡ print value rest

record SpelledMembers (max depth : ℕ) (seen : List String) (ts rest : List Token) : Type 0 where
  pub members : Members
  pub strict : AreStrictMembers max depth seen members
  pub spelled : ts ≡ print_members members rest

record SpelledElements (max depth : ℕ) (ts rest : List Token) : Type 0 where
  pub elements : Elements
  pub strict : AreStrictElements max depth elements
  pub spelled : ts ≡ print_elements elements rest

at_depth_accepts :
    (max depth : ℕ) (p : Parse) (rest : List Token)
    → at_depth max depth p ≡ inr rest
    → (depth ≤ max) × (p ≡ inr rest)
at_depth_accepts max depth p rest h = elim (Bool-cases (ltb max depth)) [
  | inl deep ↦ absurd (cc (rw (deep) at h))
  | inr shallow ↦ (ground (arith, shallow), rw (shallow) at h)
]

then_parse_accepts :
    (p : Parse) (next : List Token → Parse) (rest : List Token)
    → then_parse p next ≡ inr rest
    → (mid : List Token) × (p ≡ inr mid) × (next mid ≡ inr rest)
then_parse_accepts (inl err) next rest h = absurd (cc (h))
then_parse_accepts (inr mid) next rest h = (mid, refl, h)

same_rest : (ts rest : List Token) → ◌≡◌ {A = Parse} (inr ts) (inr rest) → ts ≡ rest
same_rest ts rest h = cc (h)

-- The loop over an array closes it, or goes on with an element.
next_element :
    (n max depth : ℕ) (ts rest : List Token)
    → parse_elements (suc n) max depth ts ≡ inr rest
    → ((after : List Token) × (ts ≡ close_array ∷ after) × (after ≡ rest))
      ⊎ (then_parse (parse_value n max (suc depth) ts) (parse_elements n max depth) ≡ inr rest)
unfolding parse_value end_array
next_element n max depth [] rest h = absurd (cc (h))
next_element n max depth (close_object ∷ ts) rest h = absurd (cc (h))
next_element n max depth (close_array ∷ ts) rest h = inl (ts, refl, same_rest ts rest h)
next_element n max depth (scalar_token ∷ ts) rest h = inr h
next_element n max depth (text_token s ∷ ts) rest h = inr h
next_element n max depth (broken_token ∷ ts) rest h = inr h
next_element n max depth (open_object ∷ ts) rest h = inr h
next_element n max depth (open_array ∷ ts) rest h = inr h

mutual
  unfolding print parse_value IsStrict end_object end_array

  pub parse_value-Spelled :
      (n max depth : ℕ) (ts rest : List Token)
      → parse_value n max depth ts ≡ inr rest
      → Spelled max depth ts rest
  parse_value-Spelled zero max depth ts rest h = absurd (cc (h))
  parse_value-Spelled (suc n) max depth [] rest h =
      absurd (cc ((at_depth_accepts max depth _ rest h).1))
  parse_value-Spelled (suc n) max depth (broken_token ∷ ts) rest h =
      absurd (cc ((at_depth_accepts max depth _ rest h).1))
  parse_value-Spelled (suc n) max depth (close_object ∷ ts) rest h =
      absurd (cc ((at_depth_accepts max depth _ rest h).1))
  parse_value-Spelled (suc n) max depth (close_array ∷ ts) rest h =
      absurd (cc ((at_depth_accepts max depth _ rest h).1))
  parse_value-Spelled (suc n) max depth (scalar_token ∷ ts) rest h =
      let (d, e) = at_depth_accepts max depth (inr ts) rest h in
      record {
        value = scalar;
        strict = d;
        spelled = ap (λ r. scalar_token ∷ r) (same_rest ts rest e);
      }
  parse_value-Spelled (suc n) max depth (text_token s ∷ ts) rest h =
      let (d, e) = at_depth_accepts max depth (inr ts) rest h in
      record {
        value = text s;
        strict = d;
        spelled = ap (λ r. text_token s ∷ r) (same_rest ts rest e);
      }
  parse_value-Spelled (suc n) max depth (open_object ∷ ts) rest h =
      let (d, e) = at_depth_accepts max depth _ rest h in
      let k = parse_members-Spelled n max depth [] ts rest e in
      record {
        value = object k.members;
        strict = (d, k.strict);
        spelled = ap (λ r. open_object ∷ r) k.spelled;
      }
  parse_value-Spelled (suc n) max depth (open_array ∷ ts) rest h =
      let (d, e) = at_depth_accepts max depth _ rest h in
      let k = parse_elements-Spelled n max depth ts rest e in
      record {
        value = array k.elements;
        strict = (d, k.strict);
        spelled = ap (λ r. open_array ∷ r) k.spelled;
      }

  parse_members-Spelled :
      (n max depth : ℕ) (seen : List String) (ts rest : List Token)
      → parse_members n max depth seen ts ≡ inr rest
      → SpelledMembers max depth seen ts rest
  parse_members-Spelled zero max depth seen ts rest h = absurd (cc (h))
  parse_members-Spelled (suc n) max depth seen [] rest h = absurd (cc (h))
  parse_members-Spelled (suc n) max depth seen (broken_token ∷ ts) rest h = absurd (cc (h))
  parse_members-Spelled (suc n) max depth seen (scalar_token ∷ ts) rest h = absurd (cc (h))
  parse_members-Spelled (suc n) max depth seen (open_object ∷ ts) rest h = absurd (cc (h))
  parse_members-Spelled (suc n) max depth seen (open_array ∷ ts) rest h = absurd (cc (h))
  parse_members-Spelled (suc n) max depth seen (close_array ∷ ts) rest h = absurd (cc (h))
  parse_members-Spelled (suc n) max depth seen (close_object ∷ ts) rest h = record {
    members = no_member;
    strict = tt;
    spelled = ap (λ r. close_object ∷ r) (same_rest ts rest h);
  }
  parse_members-Spelled (suc n) max depth seen (text_token key ∷ ts) rest h =
      elim (Bool-cases (contains seen key)) [
        | inl double ↦ absurd (cc (rw (double) at h))
        | inr fresh ↦
            let (mid, e, f) =
              then_parse_accepts (parse_value n max (suc depth) ts)
                (parse_members n max depth (key ∷ seen)) rest (rw (fresh) at h) in
            let a = parse_value-Spelled n max (suc depth) ts mid e in
            let b = parse_members-Spelled n max depth (key ∷ seen) mid rest f in
            record {
              members = member key a.value b.members;
              strict = (fresh, a.strict, b.strict);
              spelled = ap (λ r. text_token key ∷ r) (a.spelled ∙ ap (print a.value) b.spelled);
            }
      ]

  parse_elements-Spelled :
      (n max depth : ℕ) (ts rest : List Token)
      → parse_elements n max depth ts ≡ inr rest
      → SpelledElements max depth ts rest
  parse_elements-Spelled zero max depth ts rest h = absurd (cc (h))
  parse_elements-Spelled (suc n) max depth ts rest h = elim (next_element n max depth ts rest h) [
    | inl (after, closed, same) ↦ record {
      elements = no_element;
      strict = tt;
      spelled = closed ∙ ap (λ r. close_array ∷ r) same;
    }
    | inr more ↦
        let (mid, e, f) =
          then_parse_accepts (parse_value n max (suc depth) ts) (parse_elements n max depth) rest
            more in
        let a = parse_value-Spelled n max (suc depth) ts mid e in
        let b = parse_elements-Spelled n max depth mid rest f in
        record {
          elements = element a.value b.elements;
          strict = (a.strict, b.strict);
          spelled = a.spelled ∙ ap (print a.value) b.spelled;
        }
  ]
