-- ===== src/Page/Fields/Platform.antt =====
-- The rows of pageFieldSpecs (budget/v1alpha1/page.go) for the darwin and linux blocks.
use Prim.Native.String
use apis.Prelude.{ℤ, String, Option, List, [], ◌∷◌, ◌++◌, ◌>>=◌}
use apis.Budget.Types.{
  DarwinSignals, DarwinCompressor, PsiLine, PsiResource, LinuxPsi, LinuxMemoryEvents,
}
use apis.Page.Snapshot.{PageSnapshot}
use apis.Page.Field.{PageField, opt}

abbrev darwin : (DarwinSignals → Option ℤ) → PageSnapshot → Option ℤ
darwin get s = s.darwin >>= get

abbrev compressor : (DarwinCompressor → Option ℤ) → PageSnapshot → Option ℤ
compressor get = darwin (λ d. d.compressor >>= get)

unfoldable pub darwin_fields : List PageField
unfolding opt
darwin_fields =
    opt "darwin.vmPressureLevel" "status.darwin.vmPressureLevel" (darwin (λ d. d.vm_pressure_level))
    ∷ opt "darwin.memorystatusLevelPermille" "status.darwin.memorystatusLevelPermille"
        (darwin (λ d. d.memorystatus_level_permille))
    ∷ opt "darwin.compressor.bytesUsed" "status.darwin.compressor.bytesUsed"
        (compressor (λ c. c.bytes_used))
    ∷ opt "darwin.compressor.bytesStored" "status.darwin.compressor.bytesStored"
        (compressor (λ c. c.bytes_stored))
    ∷ opt "darwin.compressor.segmentLimitBytes" "status.darwin.compressor.segmentLimitBytes"
        (compressor (λ c. c.segment_limit_bytes))
    ∷ opt "darwin.swapinsTotal" "status.darwin.swapinsTotal" (darwin (λ d. d.swapins_total))
    ∷ opt "darwin.swapoutsTotal" "status.darwin.swapoutsTotal" (darwin (λ d. d.swapouts_total))
    ∷ []

abbrev psi_value :
    (LinuxPsi → Option PsiResource)
    → (PsiResource → Option PsiLine)
    → (PsiLine → Option ℤ)
    → PageSnapshot
    → Option ℤ
psi_value resource line value s =
    s.linux >>= (λ l. l.psi >>= (λ p. resource p >>= (λ r. line r >>= value)))

abbrev psi_row :
    String
    → (LinuxPsi → Option PsiResource)
    → String
    → (PsiResource → Option PsiLine)
    → String
    → (PsiLine → Option ℤ)
    → PageField
psi_row r resource l line v value =
    let path =
      String.◌++◌ "linux.psi."
        (String.◌++◌ r (String.◌++◌ "." (String.◌++◌ l (String.◌++◌ "." v)))) in
    opt path (String.◌++◌ "status." path) (psi_value resource line value)

unfoldable pub psi_line :
    String
    → (LinuxPsi → Option PsiResource)
    → String
    → (PsiResource → Option PsiLine)
    → List PageField
unfolding opt
psi_line r resource l line =
    psi_row r resource l line "avg10Permille" (λ v. v.avg10_permille)
    ∷ psi_row r resource l line "avg60Permille" (λ v. v.avg60_permille)
    ∷ psi_row r resource l line "totalUs" (λ v. v.total_us)
    ∷ []

unfoldable pub psi_resource : String → (LinuxPsi → Option PsiResource) → List PageField
unfolding psi_line
psi_resource r resource =
    psi_line r resource "some" (λ p. p.some_line) ++ psi_line r resource "full" (λ p. p.full_line)

unfoldable pub psi_fields : List PageField
unfolding psi_resource
psi_fields =
    psi_resource "cpu" (λ p. p.cpu)
    ++ (psi_resource "memory" (λ p. p.memory) ++ psi_resource "io" (λ p. p.io))

abbrev memory_event : String → (LinuxMemoryEvents → Option ℤ) → PageField
memory_event name get =
    let path = String.◌++◌ "linux.memoryEvents." name in
    opt path (String.◌++◌ "status." path) (λ s. s.linux >>= (λ l. l.memory_events >>= get))

unfoldable pub memory_event_fields : List PageField
unfolding opt
memory_event_fields =
    memory_event "high" (λ e. e.high)
    ∷ memory_event "max" (λ e. e.max)
    ∷ memory_event "oom" (λ e. e.oom)
    ∷ memory_event "oomKill" (λ e. e.oom_kill)
    ∷ []
