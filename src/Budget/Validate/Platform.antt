-- ===== src/Budget/Validate/Platform.antt =====
-- The checks that budget/v1alpha1/nodebudget.go shares, with validate.go, and those of the platform
-- blocks.
use apis.Prelude.{
  ℕ, ℤ, pos, Bool, true, false, not, ◌&&◌, ◌||◌, Option, none, some, List, [], ◌∷◌, if◌then◌else◌,
  ltb, leb, ltb_ℤ, ◌==◌, length, all, Bytes,
}
use apis.Prelude.Outcomes.{Outcome, ok, err, ◌>>◌}
use apis.Budget.Types.{
  DarwinSignals, DarwinCompressor, PsiLine, PsiResource, LinuxPsi, LinuxMemoryEvents, LinuxSignals,
}
use apis.Budget.Ladder.{LadderFault, non_negative}

pub data BudgetFault : Type 0 where
  time_not_set negative_value unknown_value platform_blocks admit_with_reason : BudgetFault
  too_many repeated wrong_unit gpu_count_disagrees not_permille : BudgetFault
  not_a_name not_printable policy_not_in_force : BudgetFault
  ladder : LadderFault → BudgetFault
  at : (i : ℕ) → BudgetFault → BudgetFault

abbrev pub refuse : Bool → BudgetFault → Outcome BudgetFault (Unit {0})
refuse false e = ok tt
refuse true e = err e

-- Checks in order: the first error ends them.
abbrev pub first_error : List (Outcome BudgetFault (Unit {0})) → Outcome BudgetFault (Unit {0})
first_error [] = ok tt
first_error (check ∷ checks) = check >> first_error checks

abbrev pub at_place : ℕ → Outcome BudgetFault (Unit {0}) → Outcome BudgetFault (Unit {0})
at_place i (ok _) = ok tt
at_place i (err e) = err (at i e)

-- nonNegative of each of several values.
unfoldable pub check_counts : List (Option ℤ) → Outcome BudgetFault (Unit {0})
check_counts [] = ok tt
check_counts (v ∷ vs) = non_negative negative_value v >> check_counts vs

unfoldable pub check_totals : List ℤ → Outcome BudgetFault (Unit {0})
check_totals [] = ok tt
check_totals (v ∷ vs) = refuse (ltb_ℤ v (pos 0)) negative_value >> check_totals vs

-- permille
unfoldable pub check_permille : Option ℤ → Outcome BudgetFault (Unit {0})
check_permille none = ok tt
check_permille (some v) = refuse (ltb_ℤ v (pos 0) || ltb_ℤ (pos 1000) v) not_permille

abbrev is_alnum : ℕ → Bool
is_alnum b = leb 97 b && leb b 122 || leb 48 b && leb b 57

-- dns1123SubdomainRE from a label's start (`before` false) or inside one, with the last byte read
-- before (`alnum`: it may end a label).
unfoldable pub subdomain_from : Bool → Bool → Bytes → Bool
subdomain_from inside alnum [] = inside && alnum
subdomain_from inside alnum (b ∷ s) =
    if is_alnum b then subdomain_from true true s else elim (b == 46) [
      | true ↦ inside && alnum && subdomain_from false false s
      | false ↦ inside && b == 45 && subdomain_from true false s
    ]

-- isObjectName
unfoldable pub is_object_name : Bytes → Bool
unfolding subdomain_from
is_object_name s = leb (length s) 253 && subdomain_from false false s

-- isPrintableASCII
unfoldable pub is_printable_ascii : Bytes → ℕ → Bool
is_printable_ascii s max =
    not (length s == 0) && not (ltb max (length s)) && all (λ b. leb 0x20 b && leb b 0x7e) s

abbrev pub compressor_values : Option DarwinCompressor → List (Option ℤ)
compressor_values none = []
compressor_values (some c) = c.bytes_used ∷ c.bytes_stored ∷ c.segment_limit_bytes ∷ []

abbrev pub darwin_checks : DarwinSignals → List (Outcome BudgetFault (Unit {0}))
darwin_checks d =
    check_counts (
      d.vm_pressure_level ∷ d.memorystatus_level_permille ∷ d.swapins_total ∷ d.swapouts_total ∷ [])
    ∷ check_counts (compressor_values d.compressor)
    ∷ check_permille d.memorystatus_level_permille
    ∷ []

-- DarwinSignals.validate
unfoldable pub validate_darwin : DarwinSignals → Outcome BudgetFault (Unit {0})
validate_darwin d = first_error (darwin_checks d)

-- The checks of one PSI line.
abbrev pub check_line : Option PsiLine → Outcome BudgetFault (Unit {0})
check_line none = ok tt
check_line (some l) = first_error (
    check_permille l.avg10_permille
    ∷ check_permille l.avg60_permille
    ∷ check_counts (l.total_us ∷ [])
    ∷ [])

abbrev pub check_resource : Option PsiResource → Outcome BudgetFault (Unit {0})
check_resource none = ok tt
check_resource (some r) = first_error (check_line r.some_line ∷ check_line r.full_line ∷ [])

abbrev pub check_psi : Option LinuxPsi → Outcome BudgetFault (Unit {0})
check_psi none = ok tt
check_psi (some p) =
    first_error (check_resource p.cpu ∷ check_resource p.memory ∷ check_resource p.io ∷ [])

abbrev pub check_memory_events : Option LinuxMemoryEvents → Outcome BudgetFault (Unit {0})
check_memory_events none = ok tt
check_memory_events (some e) = check_counts (e.high ∷ e.max ∷ e.oom ∷ e.oom_kill ∷ [])

-- LinuxSignals.validate
unfoldable pub validate_linux : LinuxSignals → Outcome BudgetFault (Unit {0})
validate_linux l = first_error (check_psi l.psi ∷ check_memory_events l.memory_events ∷ [])
