-- ===== src/Page/Carried/Platforms.antt =====
-- The platform blocks of an accepted observation hold no negative value (budget/v1alpha1/nodebudget.go).
use apis.Prelude.{ℤ, ◌≡◌, refl, Option, none, some, [], ◌∷◌, All, arith, ◌>>=◌}
use apis.Prelude.Outcomes.{ok}
use apis.Budget.Types.{
  DarwinSignals, DarwinCompressor, PsiLine, PsiResource, LinuxPsi, LinuxMemoryEvents, LinuxSignals,
}
use apis.Budget.Ladder.{IsNonNegative}
use apis.Budget.Validate.{
  if_set, validate_darwin, darwin_checks, compressor_values, validate_linux, check_psi,
  check_resource, check_line, check_memory_events, check_counts, check_permille,
}
use apis.Budget.Validate.Facts.{first_error-All, check_counts-All}

abbrev pub DarwinValues : Option DarwinSignals → Type 0
DarwinValues o = All IsNonNegative (
    (o >>= λ d. d.vm_pressure_level)
    ∷ (o >>= λ d. d.memorystatus_level_permille)
    ∷ (o >>= λ d. d.compressor >>= λ c. c.bytes_used)
    ∷ (o >>= λ d. d.compressor >>= λ c. c.bytes_stored)
    ∷ (o >>= λ d. d.compressor >>= λ c. c.segment_limit_bytes)
    ∷ (o >>= λ d. d.swapins_total)
    ∷ (o >>= λ d. d.swapouts_total)
    ∷ [])

compressor-values :
    (o : Option DarwinCompressor)
    → check_counts (compressor_values o) ≡ ok tt
    → All IsNonNegative (
        (o >>= λ c. c.bytes_used)
        ∷ (o >>= λ c. c.bytes_stored)
        ∷ (o >>= λ c. c.segment_limit_bytes)
        ∷ [])
compressor-values none h = (tt, (tt, (tt, tt)))
compressor-values (some c) h =
    check_counts-All (c.bytes_used ∷ c.bytes_stored ∷ c.segment_limit_bytes ∷ []) h

pub validate_darwin-DarwinValues :
    (o : Option DarwinSignals) → if_set o validate_darwin ≡ ok tt → DarwinValues o
unfolding validate_darwin
validate_darwin-DarwinValues none h = (tt, (tt, (tt, (tt, (tt, (tt, (tt, tt)))))))
validate_darwin-DarwinValues (some d) h =
    let (counts, (stored, more)) = first_error-All (darwin_checks d) h in
    let (a, (b, (c, (e, z)))) =
      check_counts-All
        (d.vm_pressure_level ∷ d.memorystatus_level_permille ∷ d.swapins_total ∷ d.swapouts_total
          ∷ [])
        counts in
    let (used, (kept, (limit, y))) = compressor-values d.compressor stored in
    (a, (b, (used, (kept, (limit, (c, (e, tt)))))))

abbrev pub LineValues : Option PsiLine → Type 0
LineValues o =
    All IsNonNegative
      ((o >>= λ v. v.avg10_permille) ∷ (o >>= λ v. v.avg60_permille) ∷ (o >>= λ v. v.total_us) ∷ [])

permille-value : (v : Option ℤ) → check_permille v ≡ ok tt → IsNonNegative v
unfolding check_permille
permille-value none h = tt
permille-value (some v) h = ground arith

check_line-LineValues : (o : Option PsiLine) → check_line o ≡ ok tt → LineValues o
check_line-LineValues none h = (tt, (tt, (tt, tt)))
check_line-LineValues (some l) h =
    let (a, (b, (c, z))) =
      first_error-All
        (check_permille l.avg10_permille
          ∷ check_permille l.avg60_permille
          ∷ check_counts (l.total_us ∷ [])
          ∷ [])
        h in
    (
      permille-value l.avg10_permille a,
      (permille-value l.avg60_permille b, ((check_counts-All (l.total_us ∷ []) c).0, tt)),
    )

abbrev pub ResourceValues : Option PsiResource → Type 0
ResourceValues o = LineValues (o >>= λ r. r.some_line) × LineValues (o >>= λ r. r.full_line)

check_resource-ResourceValues :
    (o : Option PsiResource) → check_resource o ≡ ok tt → ResourceValues o
check_resource-ResourceValues none h = ((tt, (tt, (tt, tt))), (tt, (tt, (tt, tt))))
check_resource-ResourceValues (some r) h =
    let (a, (b, z)) = first_error-All (check_line r.some_line ∷ check_line r.full_line ∷ []) h in
    (check_line-LineValues r.some_line a, check_line-LineValues r.full_line b)

abbrev pub PsiValues : Option LinuxPsi → Type 0
PsiValues o =
    ResourceValues (o >>= λ p. p.cpu)
    × ResourceValues (o >>= λ p. p.memory)
    × ResourceValues (o >>= λ p. p.io)

check_psi-PsiValues : (o : Option LinuxPsi) → check_psi o ≡ ok tt → PsiValues o
check_psi-PsiValues none h = (
  check_resource-ResourceValues none refl,
  check_resource-ResourceValues none refl,
  check_resource-ResourceValues none refl,
)
check_psi-PsiValues (some p) h =
    let (a, (b, (c, z))) =
      first_error-All (check_resource p.cpu ∷ check_resource p.memory ∷ check_resource p.io ∷ [])
        h in
    (
      check_resource-ResourceValues p.cpu a,
      check_resource-ResourceValues p.memory b,
      check_resource-ResourceValues p.io c,
    )

abbrev pub EventValues : Option LinuxMemoryEvents → Type 0
EventValues o =
    All IsNonNegative
      ((o >>= λ e. e.high) ∷ (o >>= λ e. e.max) ∷ (o >>= λ e. e.oom) ∷ (o >>= λ e. e.oom_kill) ∷ [])

check_memory_events-EventValues :
    (o : Option LinuxMemoryEvents) → check_memory_events o ≡ ok tt → EventValues o
check_memory_events-EventValues none h = (tt, (tt, (tt, (tt, tt))))
check_memory_events-EventValues (some e) h =
    check_counts-All (e.high ∷ e.max ∷ e.oom ∷ e.oom_kill ∷ []) h

pub validate_linux-values :
    (o : Option LinuxSignals)
    → if_set o validate_linux ≡ ok tt
    → PsiValues (o >>= λ l. l.psi) × EventValues (o >>= λ l. l.memory_events)
unfolding validate_linux
validate_linux-values none h =
    (check_psi-PsiValues none refl, check_memory_events-EventValues none refl)
validate_linux-values (some l) h =
    let (a, (b, z)) =
      first_error-All (check_psi l.psi ∷ check_memory_events l.memory_events ∷ []) h in
    (check_psi-PsiValues l.psi a, check_memory_events-EventValues l.memory_events b)
