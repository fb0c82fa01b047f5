-- ===== src/Planner/Optimal.antt =====
-- Select of pkg/planner/planner.go returns the best admissible profile of the catalog.
use mathlib.Core.List.{Memᴰ}
use mathlib.Core.List.Memᴰ.{head, tail}
use claim2kernel.Base.{
  All, Bool-cases, List, Option, Option-cases, String, [], ap, arith, false, inl, inr, none, refl,
  some, subst, sym, true, ◌∙◌, ◌∷◌, ◌≡◌, ◌⊎◌,
}
use claim2kernel.Base.Maybe.{map-some}
use claim2kernel.Base.Text.{codes, text_lt}
use claim2kernel.Contract.Env.{Env, Time}
use claim2kernel.Contract.Types.{KernelCatalog, KernelProfile, KernelRequest}
use claim2kernel.Float64.{eqf, ltf}
use claim2kernel.Planner.{Decision, RuntimeEvidence}
use claim2kernel.Planner.Best.{Better, Better-irrefl, Better-trans}
use claim2kernel.Planner.Evaluate.{evaluate}
use claim2kernel.Planner.Round.{
  AtLeast, Considered, Starts, at_least_trans, consider-Considered, consider-Starts, passed,
  rejected, replaced, still_not-Better,
}
use claim2kernel.Planner.Select.{
  Selection, consider, finish_selection, is_better, select, select_from, zero_decision,
}

module _ (env : Env) (clock : Time) (r : Option KernelRequest) (phase : String)
    (ev : RuntimeEvidence) where
  -- `p` is evaluated to the admissible decision `d`.
  pub record Admits (p : KernelProfile) (d : Decision) : Type 0 where
    pub evaluated : evaluate env clock (some p) r phase ev ≡ some d
    pub admissible : d.admissible ≡ true

  -- No profile of the list is evaluated to an admissible decision.
  abbrev pub NoneAdmits : List KernelProfile → Type 0
  NoneAdmits ps = All (λ (q : KernelProfile). (e : Decision) → ¬ Admits q e) ps

  -- No admissible profile of the list is better than `p`.
  abbrev pub Best : KernelProfile → Decision → List KernelProfile → Type 0
  Best p d ps = All (λ (q : KernelProfile). (e : Decision) → Admits q e → ¬ Better q e p d) ps

  -- What the loop over `ps` made of `s`.
  data Ran (ps : List KernelProfile) (s : Selection) (t : Selection) : Type 0 where
    idle : s.best ≡ none → t.best ≡ none → NoneAdmits ps → Ran ps s t
    kept :
        (p : KernelProfile)
        → t.best ≡ some p
        → s.best ≡ some p
        → s.decision ≡ t.decision
        → Best p t.decision ps
        → Ran ps s t
    found :
        (p : KernelProfile)
        → t.best ≡ some p
        → Memᴰ p ps
        → Admits p t.decision
        → AtLeast p t.decision s
        → Best p t.decision ps
        → Ran ps s t

  same_decision :
      (p : KernelProfile) (d e : Decision)
      → evaluate env clock (some p) r phase ev ≡ some d
      → Admits p e
      → e ≡ d
  same_decision p d e h k = cc (h, k.evaluated)

  not_admitted :
      (p : KernelProfile) (d : Decision)
      → evaluate env clock (some p) r phase ev ≡ some d
      → d.admissible ≡ false
      → (e : Decision) → ¬ Admits p e
  not_admitted p d h bad e k = cc (same_decision p d e h k, k.admissible, bad)

  not-Better :
      (p q : KernelProfile) (d f : Decision)
      → evaluate env clock (some p) r phase ev ≡ some d
      → ¬ Better p d q f
      → (e : Decision) → Admits p e
      → ¬ Better p e q f
  not-Better p q d f h n e k b = n (subst (λ x. Better p x q f) (same_decision p d e h k) b)

  -- What is at least as good is not beaten.
  not_beaten :
      (p q : KernelProfile) (d f : Decision)
      → ((q ≡ p) × (f ≡ d)) ⊎ Better q f p d
      → ¬ Better p d q f
  not_beaten p q d f (inl (e, h)) b =
      Better-irrefl p d (subst (λ x. Better p d p x) h (subst (λ x. Better p d x f) e b))
  not_beaten p q d f (inr c) b = Better-irrefl p d (Better-trans p q p d f d b c)

  round :
      (p : KernelProfile) (ps : List KernelProfile) (d : Decision) (s u t : Selection)
      → evaluate env clock (some p) r phase ev ≡ some d
      → Considered p d s u
      → Ran ps u t
      → Ran (p ∷ ps) s t
  round p ps d s u t h (rejected bad same held) (idle a b c) =
      idle (sym same ∙ a) b (not_admitted p d h bad, c)
  round p ps d s u t h (rejected bad same held) (kept q a b c w) =
      kept q a (sym same ∙ b) (sym (held q (sym same ∙ b)) ∙ c)
        ((λ e k. absurd (not_admitted p d h bad e k)), w)
  round p ps d s u t h (rejected bad same held) (found q a m k l w) =
      found q a (tail m) k
        (λ x e.
          subst (λ y. ((q ≡ x) × (t.decision ≡ y)) ⊎ Better q t.decision x y) (held x e)
            (l x (same ∙ e)))
        ((λ e j. absurd (not_admitted p d h bad e j)), w)
  round p ps d s u t h (replaced good is_p is_d over) (idle a b c) = absurd (cc (is_p, a))
  round p ps d s u t h (replaced good is_p is_d over) (kept q a b c w) =
      let same_p : q ≡ p = cc (is_p, b) in
      let same_d : d ≡ t.decision = sym is_d ∙ c in
      found p (a ∙ ap some same_p) (head refl)
        (record {
          evaluated = h ∙ ap some same_d;
          admissible = subst (λ x. x.admissible ≡ true) same_d good;
        })
        (subst (λ x. AtLeast p x s) same_d over)
        (
          not-Better p p d t.decision h (subst (λ x. ¬ Better p d p x) same_d (Better-irrefl p d)),
          subst (λ x. Best x t.decision ps) same_p w,
        )
  round p ps d s u t h (replaced good is_p is_d over) (found q a m k l w) =
      let over_p : ((q ≡ p) × (t.decision ≡ d)) ⊎ Better q t.decision p d =
        subst (λ y. ((q ≡ p) × (t.decision ≡ y)) ⊎ Better q t.decision p y) is_d (l p is_p) in
      found q a (tail m) k (λ x e. at_least_trans q p x t.decision d s.decision over_p (over x e))
        (not-Better p q d t.decision h (not_beaten p q d t.decision over_p), w)
  round p ps d s u t h (passed b good is_b worse same) (idle a c n) = absurd (cc (is_b, same, a))
  round p ps d s u t h (passed b good is_b worse same) (kept q a c e w) =
      let same_d : s.decision ≡ t.decision = ap (λ (x : Selection). x.decision) (sym same) ∙ e in
      kept q a (ap (λ (x : Selection). x.best) (sym same) ∙ c) same_d (
        not-Better p q d t.decision h (
            still_not-Better p q b d t.decision s.decision worse
              (inl (cc (is_b, same, c), sym same_d))),
        w,
      )
  round p ps d s u t h (passed b good is_b worse same) (found q a m k l w) =
      let over : AtLeast q t.decision s = subst (AtLeast q t.decision) same l in
      found q a (tail m) k over (
        not-Better p q d t.decision h
            (still_not-Better p q b d t.decision s.decision worse (over b is_b)),
        w,
      )

  select_from-Ran :
      (ps : List KernelProfile) (s t : Selection)
      → Starts s
      → select_from env clock ps r phase ev s ≡ some t
      → Ran ps s t
  unfolding select_from
  select_from-Ran [] s t k h = elim (Option-cases s.best) [
    | inl empty ↦ idle empty (cc (h, empty)) tt
    | inr (p, e) ↦ kept p (cc (h, e)) e (cc (h)) tt
  ]
  select_from-Ran (p ∷ ps) s t k h = elim (Option-cases (evaluate env clock (some p) r phase ev)) [
    | inl gone ↦ absurd (cc (rw (gone, select_from) at h))
    | inr (d, e) ↦
        round p ps d s (consider p d s) t e (consider-Considered p d s k) (
          select_from-Ran ps (consider p d s) t (consider-Starts p d s k)
            (rw (e, select_from) at h))
  ]

  -- The evaluated profile `q` is not ahead of `p`: its latency bound is not smaller, and where the
  -- bounds are equal, its name is not smaller.
  pub record IsBehind (q : KernelProfile) (e : Decision) (p : KernelProfile) (d : Decision)
      : Type 0 where
    pub no_faster : ltf e.latency_upper_us d.latency_upper_us ≡ false
    pub no_earlier :
        eqf e.latency_upper_us d.latency_upper_us ≡ true
        → text_lt (codes q.metadata.name) (codes p.metadata.name) ≡ false

  IsBehind-of_not :
      (q : KernelProfile) (e : Decision) (p : KernelProfile) (d : Decision)
      → ¬ Better q e p d
      → IsBehind q e p d
  unfolding is_better
  IsBehind-of_not q e p d n = elim (Bool-cases (ltf e.latency_upper_us d.latency_upper_us)) [
    | inl faster ↦ absurd (n (ground (arith, faster)))
    | inr slower ↦ record {
      no_faster = slower;
      no_earlier = λ tie.
          elim (Bool-cases (text_lt (codes q.metadata.name) (codes p.metadata.name))) [
            | inl earlier ↦ absurd (n (ground (arith, slower, tie, earlier)))
            | inr later ↦ later
          ];
    }
  ]

  -- No admissible profile of the list is ahead of `p`.
  abbrev pub Unbeaten : KernelProfile → Decision → List KernelProfile → Type 0
  Unbeaten p d ps = All (λ (q : KernelProfile). (e : Decision) → Admits q e → IsBehind q e p d) ps

  Unbeaten-Best :
      (p : KernelProfile) (d : Decision) (ps : List KernelProfile) → Best p d ps → Unbeaten p d ps
  Unbeaten-Best p d [] b = tt
  Unbeaten-Best p d (q ∷ ps) b =
      ((λ e k. IsBehind-of_not q e p d (b.0 e k)), Unbeaten-Best p d ps b.1)

  -- What Select returned of the profiles `ps`.
  pub SelectHolds : List KernelProfile → Option KernelProfile × Decision → Type 0
  SelectHolds ps (none, d) = NoneAdmits ps
  SelectHolds ps (some p, d) = Memᴰ p ps × Admits p d × Unbeaten p d ps

  finished :
      (ps : List KernelProfile) (s t : Selection)
      → s.best ≡ none
      → Ran ps s t
      → SelectHolds ps (finish_selection env clock phase t)
  unfolding finish_selection SelectHolds
  finished ps s t e (idle a b c) = rw (b, finish_selection) c
  finished ps s t e (kept p a b c w) = absurd (cc (e, b))
  finished ps s t e (found p a m k l w) =
      rw (a, finish_selection) (m, k, Unbeaten-Best p t.decision ps w)

  -- Where Select returns a profile, that profile is in the catalog, the decision is its evaluation and
  -- admissible, and no admissible profile of the catalog has a smaller latency bound, or an equal
  -- one and a smaller name; where Select returns none, no profile of the catalog is admissible.
  pub select_best :
      (c : KernelCatalog) (out : Option KernelProfile × Decision)
      → select env clock c r phase ev ≡ some out
      → SelectHolds c.profiles out
  unfolding select
  select_best c out h =
      let start : Selection = record { best = none; decision = zero_decision; first = true } in
      let (t, ran, same) =
        map-some (finish_selection env clock phase)
          (select_from env clock c.profiles r phase ev start) h in
      subst (SelectHolds c.profiles) same
        (finished c.profiles start t refl (select_from-Ran c.profiles start t (λ _. refl) ran))
