-- ===== src/Cli/Samples.antt =====
-- atomicWrite of cmd/c2k/main.go on a disk of two files, and cmdStatecheck on a trace of one event.
use claim2kernel.Base.{
  ==-false, ==-true, Bool-cases, List, Map, Option, String, [], ap, contains, delete, if◌then◌else◌,
  inl, inr, insert, is_some, lookup, lookup-delete, lookup-insert_ne, lookup-insert_self, none,
  refl, some, subst, sym, true, ◌==◌, ◌↔◌, ◌∙◌, ◌∷◌, ◌≡◌, ◌≢◌,
}
use claim2kernel.Cli.{FileOps, atomic_write}
use claim2kernel.Cli.Commands.{IsPassed, cmd_statecheck, cmd_statecheck_iff}
use claim2kernel.Cli.Written.{IsAtomic, IsAtomic-atomic_write, IsFileSystem}
use claim2kernel.Float64.{dyadic, eqf, f0, f1, is_inf, is_nan, lef, ltf}
use claim2kernel.Jsonsafe.{Token, close_object, open_object}
use claim2kernel.Statecheck.{Event, Trace, check_from, finite_non_negative, kind_of, step}

abbrev temp_on : String → Map String → Option (String × Map String)
temp_on p d = if p == "temp" then none else some ("temp", insert d "temp" "")

abbrev moved : String → Map String → Option String → Option (Map String)
moved p d none = none
moved p d (some s) = some (insert d p s)

abbrev sample_ops : FileOps
sample_ops = record {
  Disk = Map String;
  read = λ p d. lookup d p;
  make_dirs = λ p d. some d;
  exists = λ p d. is_some (lookup d p);
  create_new = λ p d. if is_some (lookup d p) then none else some (insert d p "");
  create_temp = λ p d. temp_on p d;
  change_mode = λ p d. (true, d);
  write_file = λ p s d. (true, insert d p s);
  sync_file = λ p d. true;
  close_file = λ p d. true;
  rename = λ t p d. moved p d (lookup d t);
  remove = λ p d. delete d p;
}

flip : {A : Type 0} {a b : A} → a ≢ b → b ≢ a
flip h e = h (sym e)

temp_on-fresh :
    (p t : String) (d e : Map String)
    → temp_on p d ≡ some (t, e)
    → (p ≢ t) × (lookup e p ≡ lookup d p)
temp_on-fresh p t d e h = elim (Bool-cases (p == "temp")) [
  | inl same ↦ absurd (cc (rw (same) at h))
  | inr differs ↦
      let made : ("temp", insert d "temp" "") ≡ (t, e) = cc (rw (differs) at h) in
      let apart = ==-false p "temp" differs in
      (
        subst (λ x. p ≢ x) (ap (λ (x : String × Map String). x.0) made) apart,
        subst (λ x. lookup x p ≡ lookup d p) (ap (λ (x : String × Map String). x.1) made)
            (lookup-insert_ne d "temp" p "" (flip apart)),
      )
]

moved-reads :
    (p : String) (d e : Map String) (o : Option String) → moved p d o ≡ some e → lookup e p ≡ o
moved-reads p d e none h = absurd (cc (h))
moved-reads p d e (some s) h =
    let made : insert d p s ≡ e = cc (h) in
    subst (λ x. lookup x p ≡ some s) made (lookup-insert_self d p s)

delete-other : (p t : String) (d : Map String) → p ≢ t → lookup (delete d t) p ≡ lookup d p
delete-other p t d h = elim (Bool-cases (t == p)) [
  | inl same ↦ absurd (h (sym (==-true t p same)))
  | inr differs ↦ lookup-delete d t p ∙ rw (differs) refl
]

sample_file_system : IsFileSystem sample_ops
sample_file_system = record {
  dirs_keep = λ p q d e h. ap (λ x. lookup x q) (sym (cc (h)));
  temp_fresh = temp_on-fresh;
  mode_keeps = λ p t d h. refl;
  write_keeps = λ p t s d h. lookup-insert_ne d t p s (flip h);
  write_reads = λ t s d h. lookup-insert_self d t s;
  rename_moves = λ t p d e h. moved-reads p d e (lookup d t) h;
  remove_keeps = delete-other;
}

abbrev two_files : Map String
two_files = ("a.json", "old") ∷ ("b.json", "other") ∷ []

overwritten : lookup (atomic_write sample_ops "a.json" "new" true two_files).1 "a.json" ≡ some "new"
unfolding atomic_write lookup insert delete
overwritten = refl

IsAtomic-atomic_write_example :
    IsAtomic sample_ops "a.json" "new" two_files
      (atomic_write sample_ops "a.json" "new" true two_files)
IsAtomic-atomic_write_example =
    IsAtomic-atomic_write sample_ops sample_file_system "a.json" "new" true two_files

abbrev publication : Event
publication = record {
  event_type = "publish";
  profile = "p";
  request = "";
  contract_digest = "c";
  artifact_digest = "a";
  device_fingerprint = "gpu-0";
  precision = "fp32";
  numerical_upper_bound = f1;
  numerical_budget = f1;
}

abbrev opening_trace : Trace
opening_trace = record { events = publication ∷ [] }

abbrev trace_tokens : String → List Token
trace_tokens s = open_object ∷ close_object ∷ []

passed_trace :
    cmd_statecheck (λ s. 2) trace_tokens (λ s. some (opening_trace, true)) true "{}"
    ≡ (some (record { valid = true; violations = [] }), none)
unfolding cmd_statecheck lookup contains f1 is_nan is_inf lef ltf eqf dyadic check_from step kind_of
    finite_non_negative f0
passed_trace = refl

cmd_statecheck_iff_example :
    ((cmd_statecheck (λ s. 2) trace_tokens (λ s. some (opening_trace, true)) true "{}").1 ≡ none)
    ↔ IsPassed (λ s. 2) trace_tokens (λ s. some (opening_trace, true)) true "{}"
cmd_statecheck_iff_example =
    cmd_statecheck_iff (λ s. 2) trace_tokens (λ s. some (opening_trace, true)) true "{}"
