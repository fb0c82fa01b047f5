-- ===== src/Contract/Demands.antt =====
-- How the lists of issues of pkg/contract/validate.go are read as conditions.
use claim2kernel.Base.{Bool, List, [], false, refl, true, ◌++◌, ◌∷◌, ◌≡◌}
use claim2kernel.Contract.Validate.Issues.{Issue, flag}

-- The list is empty exactly under the condition.
pub record Demands (C : Type 0) (issues : List Issue) : Type 0 where
  pub accepts : issues ≡ [] → C
  pub clears : C → issues ≡ []

pub Demands-flag : (b : Bool) (i : Issue) → Demands (b ≡ false) (flag b i)
Demands-flag true i = record { accepts = λ h. absurd (cc (h)); clears = λ h. absurd (cc (h)) }
Demands-flag false i = record { accepts = λ h. refl; clears = λ h. refl }

pub Demands-nil : Demands (Unit {0}) []
Demands-nil = record { accepts = λ h. tt; clears = λ c. refl }

pub append-empty {ℓ} : {A : Type ℓ} (xs ys : List A) → xs ++ ys ≡ [] → (xs ≡ []) × (ys ≡ [])
append-empty [] ys h = (refl, h)
append-empty (x ∷ xs) ys h = absurd (cc (h))

pub Demands-append :
    {C D : Type 0} {xs ys : List Issue} → Demands C xs → Demands D ys → Demands (C × D) (xs ++ ys)
Demands-append {xs = xs} {ys = ys} k j = record {
  accepts = λ h. let (a, b) = append-empty xs ys h in (k.accepts a, j.accepts b);
  clears = λ c. rw (k.clears c.0) (j.clears c.1);
}

pub Demands-iff : {C D : Type 0} {xs : List Issue} → (C → D) → (D → C) → Demands C xs → Demands D xs
Demands-iff to from k = record { accepts = λ h. to (k.accepts h); clears = λ d. k.clears (from d) }
