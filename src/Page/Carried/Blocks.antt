-- ===== src/Page/Carried/Blocks.antt =====
-- The rows outside the slots (budget/v1alpha1/page.go) of a snapshot of an accepted observation.
use apis.Prelude.{
  ℤ, ◌≡◌, refl, Bool, true, false, Option, none, some, [], ◌∷◌, ◌++◌, String, All, is_some, arith,
  ◌>>=◌, All-append,
}
use apis.Budget.Vocab.{
  signal_valid, page_code, platform_codes, level_codes, kill_mode_codes, kill_mode_reason_codes,
  platform_valid, level_valid,
}
use apis.Budget.Types.{PsiResource, PsiLine, LinuxPsi}
use apis.Budget.Ladder.{IsNonNegative}
use apis.Page.Snapshot.{PageSnapshot}
use apis.Page.Field.{opt, add, row, Kind}
use apis.Page.Fields.Groups.{
  gpu_present_word, evict_deadline_word, header_fields, identity_fields, capacity_fields,
  level_field, action_fields, minor1_fields, optional_signal, counted,
}
use apis.Page.Fields.Platform.{
  psi_line, psi_resource, darwin_fields, psi_fields, memory_event_fields,
}
use apis.Page.Success.{carries}
use apis.Page.Carried.Words.{Carries, Carries-get, by_table}
use apis.Page.Carried.Getters.{opt-Carries, enum_code-Carries, i64-Carries, bool-Carries}

gpu_present_word-is_some : (b : Option Bool) → is_some (gpu_present_word b) ≡ true
unfolding gpu_present_word
gpu_present_word-is_some none = refl
gpu_present_word-is_some (some b) = refl

pub header-Carries : (s : PageSnapshot) → All (Carries s) header_fields
unfolding header_fields carries
header-Carries s = (refl, (refl, (refl, (refl, (refl, (refl, (refl, tt)))))))

pub optional_signal-is_some :
    (v : String) → (signal_valid v ≡ true) → is_some (optional_signal v) ≡ true
unfolding optional_signal signal_valid
optional_signal-is_some v h = ground arith

module _ (s : PageSnapshot) where
  pub identity-Carries :
      s.observed_at.is_zero ≡ false
      → platform_valid s.platform ≡ true
      → All (Carries s) identity_fields
  unfolding identity_fields carries platform_valid
  identity-Carries observed platform = (
    refl,
    (
      refl,
      (
        rw observed refl,
        (
          enum_code-Carries s "platform" "status.platform" "platform"
              (λ t. page_code platform_codes t.platform "")
              (by_table (λ v. is_some (page_code platform_codes v "")) s.platform platform_codes
                refl platform),
          (refl, (refl, tt)),
        ),
      ),
    ),
  )

  pub level-Carries : level_valid s.level ≡ true → All (Carries s) level_field
  unfolding level_field level_valid page_code
  level-Carries level = (
    enum_code-Carries s _ _ _ (λ t. page_code level_codes t.level "")
        (by_table (λ v. is_some (page_code level_codes v "")) s.level level_codes refl level),
    tt,
  )

  pub capacity-Carries :
      All IsNonNegative (
        s.capacity.cpu_capacity_milli ∷ s.capacity.cpu_system_reserve_milli
        ∷ s.capacity.mem_capacity_bytes ∷ s.capacity.mem_system_reserve_bytes
        ∷ s.capacity.mem_eviction_reserve_bytes ∷ s.capacity.mem_allocatable_bytes
        ∷ s.capacity.swap_total_bytes ∷ s.capacity.swap_used_bytes ∷ [])
      → All (Carries s) capacity_fields
  unfolding capacity_fields opt
  capacity-Carries (a, (b, (c, (d, (e, (f, (g, (h, z)))))))) = (
    opt-Carries s _ _ (λ t. t.capacity.cpu_capacity_milli) a,
    (
      opt-Carries s _ _ (λ t. t.capacity.cpu_system_reserve_milli) b,
      (
        opt-Carries s _ _ (λ t. t.capacity.mem_capacity_bytes) c,
        (
          opt-Carries s _ _ (λ t. t.capacity.mem_system_reserve_bytes) d,
          (
            opt-Carries s _ _ (λ t. t.capacity.mem_eviction_reserve_bytes) e,
            (
              opt-Carries s _ _ (λ t. t.capacity.mem_allocatable_bytes) f,
              (
                opt-Carries s _ _ (λ t. t.capacity.swap_total_bytes) g,
                (opt-Carries s _ _ (λ t. t.capacity.swap_used_bytes) h, tt),
              ),
            ),
          ),
        ),
      ),
    ),
  )

  pub minor1-Carries :
      All IsNonNegative (
        s.capacity.cpu_performance_cores ∷ s.capacity.cpu_efficiency_cores ∷ s.capacity.gpu_count
        ∷ [])
      → All (Carries s) minor1_fields
  unfolding minor1_fields opt
  minor1-Carries (a, (b, (c, z))) = (
    opt-Carries s _ _ (λ t. t.capacity.cpu_performance_cores) a,
    (
      opt-Carries s _ _ (λ t. t.capacity.cpu_efficiency_cores) b,
      (
        Carries-get s
            (record (add (
              row "capacity.gpuPresent" Kind.kind_i64 "status.capacity.gpuPresent"
                (some (λ t. gpu_present_word t.capacity.gpu_present)))) {
                  enum = "bool";
                  absent = true;
                })
            (λ t. gpu_present_word t.capacity.gpu_present) refl
            (gpu_present_word-is_some s.capacity.gpu_present),
        (opt-Carries s _ _ (λ t. t.capacity.gpu_count) c, tt),
      ),
    ),
  )

  pub darwin-Carries :
      All IsNonNegative (
        (s.darwin >>= λ d. d.vm_pressure_level)
        ∷ (s.darwin >>= λ d. d.memorystatus_level_permille)
        ∷ (s.darwin >>= λ d. d.compressor >>= λ c. c.bytes_used)
        ∷ (s.darwin >>= λ d. d.compressor >>= λ c. c.bytes_stored)
        ∷ (s.darwin >>= λ d. d.compressor >>= λ c. c.segment_limit_bytes)
        ∷ (s.darwin >>= λ d. d.swapins_total)
        ∷ (s.darwin >>= λ d. d.swapouts_total)
        ∷ [])
      → All (Carries s) darwin_fields
  unfolding darwin_fields
  darwin-Carries (a, (b, (c, (d, (e, (f, (g, z))))))) = (
    opt-Carries s _ _ (λ t. t.darwin >>= λ d. d.vm_pressure_level) a,
    (
      opt-Carries s _ _ (λ t. t.darwin >>= λ d. d.memorystatus_level_permille) b,
      (
        opt-Carries s _ _ (λ t. t.darwin >>= λ d. d.compressor >>= λ c. c.bytes_used) c,
        (
          opt-Carries s _ _ (λ t. t.darwin >>= λ d. d.compressor >>= λ c. c.bytes_stored) d,
          (
            opt-Carries s _ _ (λ t. t.darwin >>= λ d. d.compressor >>= λ c. c.segment_limit_bytes)
                e,
            (
              opt-Carries s _ _ (λ t. t.darwin >>= λ d. d.swapins_total) f,
              (opt-Carries s _ _ (λ t. t.darwin >>= λ d. d.swapouts_total) g, tt),
            ),
          ),
        ),
      ),
    ),
  )

  -- The values that a PSI line holds, none where the line is not set.
  abbrev pub line_values :
      (LinuxPsi → Option PsiResource)
      → (PsiResource → Option PsiLine)
      → (PsiLine → Option ℤ)
      → Option ℤ
  line_values resource line value =
      s.linux >>= λ l. l.psi >>= λ p. resource p >>= λ r. line r >>= value

  abbrev pub LineIsSet : (LinuxPsi → Option PsiResource) → (PsiResource → Option PsiLine) → Type 0
  LineIsSet resource line = All IsNonNegative (
      line_values resource line (λ v. v.avg10_permille)
      ∷ line_values resource line (λ v. v.avg60_permille)
      ∷ line_values resource line (λ v. v.total_us)
      ∷ [])

  line-Carries :
      (r : String) (resource : LinuxPsi → Option PsiResource) (l : String)
      (line : PsiResource → Option PsiLine)
      → LineIsSet resource line
      → All (Carries s) (psi_line r resource l line)
  unfolding psi_line
  line-Carries r resource l line (a, (b, (c, z))) = (
    opt-Carries s _ _
        (λ t. t.linux >>= λ x. x.psi >>= λ p. resource p >>= λ q. line q >>= λ v. v.avg10_permille)
        a,
    (
      opt-Carries s _ _
          (λ t.
            t.linux >>= λ x. x.psi >>= λ p. resource p >>= λ q. line q >>= λ v. v.avg60_permille)
          b,
      (
        opt-Carries s _ _
            (λ t. t.linux >>= λ x. x.psi >>= λ p. resource p >>= λ q. line q >>= λ v. v.total_us) c,
        tt,
      ),
    ),
  )

  abbrev pub ResourceIsSet : (LinuxPsi → Option PsiResource) → Type 0
  ResourceIsSet resource =
      LineIsSet resource (λ r. r.some_line) × LineIsSet resource (λ r. r.full_line)

  resource-Carries :
      (r : String) (resource : LinuxPsi → Option PsiResource)
      → ResourceIsSet resource
      → All (Carries s) (psi_resource r resource)
  unfolding psi_resource
  resource-Carries r resource (a, b) =
      All-append (Carries s) (psi_line r resource "some" (λ p. p.some_line))
        (psi_line r resource "full" (λ p. p.full_line))
        (line-Carries r resource "some" (λ p. p.some_line) a)
        (line-Carries r resource "full" (λ p. p.full_line) b)

  pub psi-Carries :
      ResourceIsSet (λ p. p.cpu)
      → ResourceIsSet (λ p. p.memory)
      → ResourceIsSet (λ p. p.io)
      → All (Carries s) psi_fields
  unfolding psi_fields
  psi-Carries a b c =
      All-append (Carries s) (psi_resource "cpu" (λ p. p.cpu))
        (psi_resource "memory" (λ p. p.memory) ++ psi_resource "io" (λ p. p.io))
        (resource-Carries "cpu" (λ p. p.cpu) a)
        (All-append (Carries s) (psi_resource "memory" (λ p. p.memory))
          (psi_resource "io" (λ p. p.io)) (resource-Carries "memory" (λ p. p.memory) b)
          (resource-Carries "io" (λ p. p.io) c))

  pub memory_event-Carries :
      All IsNonNegative (
        (s.linux >>= λ l. l.memory_events >>= λ e. e.high)
        ∷ (s.linux >>= λ l. l.memory_events >>= λ e. e.max)
        ∷ (s.linux >>= λ l. l.memory_events >>= λ e. e.oom)
        ∷ (s.linux >>= λ l. l.memory_events >>= λ e. e.oom_kill)
        ∷ [])
      → All (Carries s) memory_event_fields
  unfolding memory_event_fields
  memory_event-Carries (a, (b, (c, (d, z)))) = (
    opt-Carries s _ _ (λ t. t.linux >>= λ l. l.memory_events >>= λ e. e.high) a,
    (
      opt-Carries s _ _ (λ t. t.linux >>= λ l. l.memory_events >>= λ e. e.max) b,
      (
        opt-Carries s _ _ (λ t. t.linux >>= λ l. l.memory_events >>= λ e. e.oom) c,
        (opt-Carries s _ _ (λ t. t.linux >>= λ l. l.memory_events >>= λ e. e.oom_kill) d, tt),
      ),
    ),
  )

  pub action-Carries :
      is_some (optional_signal s.admit_reason_signal) ≡ true
      → is_some (evict_deadline_word s.evict_deadline) ≡ true
      → is_some (page_code kill_mode_codes s.kill_mode.mode "") ≡ true
      → is_some (counted s.kill_mode.arming_episodes) ≡ true
      → is_some (page_code kill_mode_reason_codes s.kill_mode.reason "unknown") ≡ true
      → IsNonNegative s.recommendation.safe_additional_bytes
      → is_some (optional_signal s.recommendation.basis) ≡ true
      → All (Carries s) action_fields
  unfolding action_fields
  action-Carries reason deadline mode episodes why safe basis = (
    bool-Carries s _ _ (λ t. t.admit),
    (
      enum_code-Carries s _ _ _ (λ t. optional_signal t.admit_reason_signal) reason,
      (
        i64-Carries s _ _ _ (λ t. evict_deadline_word t.evict_deadline) deadline,
        (
          enum_code-Carries s _ _ _ (λ t. page_code kill_mode_codes t.kill_mode.mode "") mode,
          (
            bool-Carries s _ _ (λ t. t.kill_mode.armed),
            (
              i64-Carries s _ _ _ (λ t. counted t.kill_mode.arming_episodes) episodes,
              (
                enum_code-Carries s _ _ _
                    (λ t. page_code kill_mode_reason_codes t.kill_mode.reason "unknown") why,
                (
                  opt-Carries s _ _ (λ t. t.recommendation.safe_additional_bytes) safe,
                  (
                    enum_code-Carries s _ _ _ (λ t. optional_signal t.recommendation.basis) basis,
                    tt,
                  ),
                ),
              ),
            ),
          ),
        ),
      ),
    ),
  )
