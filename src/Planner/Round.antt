-- ===== src/Planner/Round.antt =====
-- One round of the loop of Select in pkg/planner/planner.go.
use claim2kernel.Base.{
  Bool-cases, Option-cases, arith, false, inl, inr, none, some, subst, sym, true, ◌∙◌, ◌≡◌, ◌⊎◌,
}
use claim2kernel.Contract.Types.{KernelProfile}
use claim2kernel.Planner.{Decision}
use claim2kernel.Planner.Best.{Better, Better-trans}
use claim2kernel.Planner.Select.{Selection, consider, is_better}

-- An evaluated profile is at least as good as what the loop held before.
abbrev pub AtLeast : KernelProfile → Decision → Selection → Type 0
AtLeast p d s =
    (q : KernelProfile) → s.best ≡ some q → ((p ≡ q) × (d ≡ s.decision)) ⊎ Better p d q s.decision

-- What one round of the loop makes of `s`.
pub data Considered (p : KernelProfile) (d : Decision) (s : Selection) (u : Selection)
    : Type 0 where
  rejected :
      d.admissible ≡ false
      → u.best ≡ s.best
      → ((q : KernelProfile) → s.best ≡ some q → u.decision ≡ s.decision)
      → Considered p d s u
  replaced :
      d.admissible ≡ true → u.best ≡ some p → u.decision ≡ d → AtLeast p d s → Considered p d s u
  passed :
      (q : KernelProfile)
      → d.admissible ≡ true
      → s.best ≡ some q
      → ¬ Better p d q s.decision
      → u ≡ s
      → Considered p d s u

-- The loop holds no profile before its first round.
abbrev pub Starts : Selection → Type 0
Starts s = s.first ≡ true → s.best ≡ none

pub consider-Starts :
    (p : KernelProfile) (d : Decision) (s : Selection) → Starts s → Starts (consider p d s)
unfolding consider
consider-Starts p d s k = ground arith

better_than_held :
    (p : KernelProfile) (d : Decision) (s : Selection)
    → is_better p d s.best s.decision ≡ true
    → AtLeast p d s
better_than_held p d s h q e = inr (subst (λ o. is_better p d o s.decision ≡ true) e h)

pub consider-Considered :
    (p : KernelProfile) (d : Decision) (s : Selection)
    → Starts s
    → Considered p d s (consider p d s)
unfolding consider
consider-Considered p d s k = elim (Bool-cases d.admissible) [
  | inr bad ↦ rejected bad (ground arith) (λ q e. ground (arith, e, k))
  | inl good ↦ elim (Bool-cases (is_better p d s.best s.decision)) [
    | inl better ↦ replaced good (ground arith) (ground arith) (better_than_held p d s better)
    | inr worse ↦ elim (Option-cases s.best) [
      | inl empty ↦ absurd (cc (subst (λ o. is_better p d o s.decision ≡ false) empty worse))
      | inr (q, e) ↦
          passed q good e (λ b. cc (subst (λ o. is_better p d o s.decision ≡ false) e worse, b))
            (ground arith)
    ]
  ]
]

pub at_least_trans :
    (p q r : KernelProfile) (d e f : Decision)
    → ((p ≡ q) × (d ≡ e)) ⊎ Better p d q e
    → ((q ≡ r) × (e ≡ f)) ⊎ Better q e r f
    → ((p ≡ r) × (d ≡ f)) ⊎ Better p d r f
at_least_trans p q r d e f (inl (a, b)) (inl (a', b')) = inl (a ∙ a', b ∙ b')
at_least_trans p q r d e f (inl (a, b)) (inr k) =
    inr (subst (λ x. Better x d r f) (sym a) (subst (λ x. Better q x r f) (sym b) k))
at_least_trans p q r d e f (inr k) (inl (a, b)) =
    inr (subst (λ x. Better p d x f) a (subst (λ x. Better p d q x) b k))
at_least_trans p q r d e f (inr k) (inr l) = inr (Better-trans p q r d e f k l)

-- What is not beaten by `p` is not improved on by it either.
pub still_not-Better :
    (p q b : KernelProfile) (d e f : Decision)
    → ¬ Better p d b f
    → ((q ≡ b) × (e ≡ f)) ⊎ Better q e b f
    → ¬ Better p d q e
still_not-Better p q b d e f n (inl (x, y)) k =
    n (subst (λ z. Better p d z f) x (subst (λ z. Better p d q z) y k))
still_not-Better p q b d e f n (inr k) l = n (Better-trans p q b d e f l k)
