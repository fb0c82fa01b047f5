-- ===== src/Planner/Best.antt =====
-- The order by which Select of pkg/planner/planner.go replaces its best profile is strict.
use claim2kernel.Base.{List, [], arith, false, refl, some, true, ℕ, ◌∷◌, ◌≡◌}
use claim2kernel.Base.Text.{codes, text_lt}
use claim2kernel.Contract.Types.{KernelProfile}
use claim2kernel.Float64.Order.{eqf→≡, ltf_irrefl, ltf_trans}
use claim2kernel.Planner.{Decision}
use claim2kernel.Planner.Select.{is_better}

text_lt_irrefl : (s : List ℕ) → text_lt s s ≡ false
unfolding text_lt
text_lt_irrefl [] = refl
text_lt_irrefl (c ∷ s) = ground (arith, text_lt_irrefl s)

text_lt_trans : (s t u : List ℕ) → text_lt s t ≡ true → text_lt t u ≡ true → text_lt s u ≡ true
unfolding text_lt
text_lt_trans s [] [] h k = absurd (cc (k))
text_lt_trans [] [] (e ∷ u) h k = refl
text_lt_trans (c ∷ s) [] (e ∷ u) h k = absurd (cc (h))
text_lt_trans s (d ∷ t) [] h k = absurd (cc (k))
text_lt_trans [] (d ∷ t) (e ∷ u) h k = refl
text_lt_trans (c ∷ s) (d ∷ t) (e ∷ u) h k = grind (arith, text_lt_trans s t u)

-- The first evaluated profile is strictly better than the second: a smaller latency bound, or an
-- equal one and a smaller name.
abbrev pub Better : KernelProfile → Decision → KernelProfile → Decision → Type 0
Better p d q e = is_better p d (some q) e ≡ true

pub Better-irrefl : (p : KernelProfile) (d : Decision) → ¬ Better p d p d
unfolding is_better
Better-irrefl p d h =
    grind (arith, ltf_irrefl d.latency_upper_us, text_lt_irrefl (codes p.metadata.name))

pub Better-trans :
    (p q r : KernelProfile) (d e f : Decision) → Better p d q e → Better q e r f → Better p d r f
unfolding is_better
Better-trans p q r d e f h k = grind (
  arith,
  ltf_trans d.latency_upper_us e.latency_upper_us f.latency_upper_us,
  eqf→≡ d.latency_upper_us e.latency_upper_us,
  eqf→≡ e.latency_upper_us f.latency_upper_us,
  text_lt_trans (codes p.metadata.name) (codes q.metadata.name) (codes r.metadata.name),
)
