-- ===== src/Planner/Checks.antt =====
-- The rules by which the planner's checks are read as conditions: what a function that only rejects
-- leaves admissible, and what it leaves alone.
use claim2kernel.Base.{
  Bool, List, String, [], ap, false, if◌then◌else◌, not, refl, sym, true, ◌++◌, ◌∙◌, ◌∷◌, ◌≡◌,
}
use claim2kernel.Contract.Semver.{non_empty}
use claim2kernel.Float64.{Float64}
use claim2kernel.Planner.{Decision, Reason, reject, reject_if}

-- The figures of a decision.
pub record Figures : Type 0 where
  pub predicted : Float64
  pub upper : Float64
  pub available : Float64
  pub score : Float64

abbrev pub figures : Decision → Figures
figures d = record {
  predicted = d.predicted_compute_us;
  upper = d.latency_upper_us;
  available = d.available_us;
  score = d.ood_score;
}

-- A decision is admissible exactly when it has no reason against it.
abbrev pub Consistent : Decision → Type 0
Consistent d = d.admissible ≡ not (non_empty d.reasons)

non_empty-snoc : (rs : List Reason) (r : Reason) → non_empty (rs ++ r ∷ []) ≡ true
non_empty-snoc [] r = refl
non_empty-snoc (x ∷ rs) r = refl

pub reject-Consistent : (code field : String) (d : Decision) → Consistent (reject code field d)
unfolding reject
reject-Consistent code field d = ap not (sym (non_empty-snoc d.reasons _))

pub reject_if-Consistent :
    (b : Bool) (code field : String) (d : Decision)
    → Consistent d
    → Consistent (reject_if b code field d)
unfolding reject_if
reject_if-Consistent true code field d k = reject-Consistent code field d
reject_if-Consistent false code field d k = k

-- `f` keeps a decision admissible exactly under the condition, and never makes one admissible.
pub record Checks (C : Type 0) (f : Decision → Decision) : Type 0 where
  pub passes : (d : Decision) → (f d).admissible ≡ true → (d.admissible ≡ true) × C
  pub admits : (d : Decision) → d.admissible ≡ true → C → (f d).admissible ≡ true
  pub keeps : (d : Decision) → figures (f d) ≡ figures d
  pub consistent : (d : Decision) → Consistent d → Consistent (f d)

pub Checks-reject : {C : Type 0} (code field : String) → ¬ C → Checks C (reject code field)
unfolding reject
Checks-reject code field no_way = record {
  passes = λ d h. absurd (cc (h));
  admits = λ d h c. absurd (no_way c);
  keeps = λ d. refl;
  consistent = λ d _. reject-Consistent code field d;
}

pub Checks-id : {C : Type 0} → C → Checks C (λ d. d)
Checks-id c = record {
  passes = λ d h. (h, c);
  admits = λ d h _. h;
  keeps = λ d. refl;
  consistent = λ d k. k;
}

pub Checks-reject_if :
    (b : Bool) (code field : String) → Checks (b ≡ false) (reject_if b code field)
unfolding reject_if
Checks-reject_if true code field = record {
  passes = λ d h. absurd (cc (h));
  admits = λ d h c. absurd (cc (c));
  keeps = λ d. refl;
  consistent = reject_if-Consistent true code field;
}
Checks-reject_if false code field = record {
  passes = λ d h. (h, refl);
  admits = λ d h _. h;
  keeps = λ d. refl;
  consistent = reject_if-Consistent false code field;
}

pub Checks-iff :
    {C D : Type 0} {f : Decision → Decision} → (C → D) → (D → C) → Checks C f → Checks D f
Checks-iff to from k = record {
  passes = λ d h. let (a, c) = k.passes d h in (a, to c);
  admits = λ d h c. k.admits d h (from c);
  keeps = k.keeps;
  consistent = k.consistent;
}

-- First `f`, then `g`.
pub Checks-then :
    {C D : Type 0} {f g : Decision → Decision}
    → Checks C f
    → Checks D g
    → Checks (C × D) (λ d. g (f d))
Checks-then {f = f} k j = record {
  passes = λ d h. let (a, y) = j.passes (f d) h in let (b, x) = k.passes d a in (b, (x, y));
  admits = λ d h c. j.admits (f d) (k.admits d h c.0) c.1;
  keeps = λ d. j.keeps (f d) ∙ k.keeps d;
  consistent = λ d c. j.consistent (f d) (k.consistent d c);
}

pub Checks-if :
    {C D : Type 0} {f g : Decision → Decision} (b : Bool)
    → Checks C f
    → Checks D g
    → Checks (if b then C else D) (λ d. if b then f d else g d)
Checks-if true k j = k
Checks-if false k j = j
