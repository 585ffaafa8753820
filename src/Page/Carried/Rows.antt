-- ===== src/Page/Carried/Rows.antt =====
-- Every row of the layout table (budget/v1alpha1/page.go) for an accepted observation.
use apis.Prelude.{
  ℤ, ◌≡◌, refl, subst, true, Option, List, [], ◌∷◌, ◌++◌, Bytes, All, All-append, is_some, ◌>>=◌,
}
use apis.Prelude.Outcomes.{ok}
use apis.Budget.Vocab.{signal_valid}
use apis.Budget.Types.{LinuxPsi, PsiResource, PsiLine, LinuxMemoryEvents}
use apis.Budget.Observation.{NodeBudgetObservation}
use apis.Budget.Ladder.{IsNonNegative}
use apis.Budget.Validate.{
  unknown_unless_empty, unknown_value, time_not_set, zero_deadline, validate_capacity, if_set,
  validate_darwin, validate_linux, observation_checks, validate_observation,
}
use apis.Budget.Validate.Facts.{
  refuse-eq-ok, first_error-All, check_counts-All, validate_observation-IsObservation,
}
use apis.Page.Snapshot.{PageSnapshot}
use apis.Page.Mirror.{new_page_snapshot}
use apis.Page.Field.{PageField}
use apis.Page.Fields.{page_field_specs}
use apis.Page.Fields.Groups.{
  optional_signal, evict_deadline_word, header_fields, identity_fields, capacity_fields,
  level_field, action_fields, minor1_fields,
}
use apis.Page.Fields.Platform.{darwin_fields, psi_fields, memory_event_fields}
use apis.Page.Fields.Slots.{signal_fields, counter_fields}
use apis.Page.Carried.Words.{Carries}
use apis.Page.Carried.Blocks
use apis.Page.Carried.Platforms.{
  LineValues, ResourceValues, validate_darwin-DarwinValues, validate_linux-values,
}
use apis.Page.Carried.Slots.{signal_fields-Carries}
use apis.Page.Carried.Bands.{counter_fields-Carries}
use apis.Page.Carried.Parts.{
  KillModeWords, reason-is_some, deadline-is_some, kill_mode-words, capacity-counts, bind_assoc,
  regroup,
}

-- Every row of the table carries the snapshot of an accepted observation.
module _ (name : Bytes) (period : ℤ) (o : NodeBudgetObservation)
    (valid : validate_observation o ≡ ok tt) where
  abbrev snapshot : PageSnapshot
  snapshot = new_page_snapshot name period o

  identity-rows : All (Carries snapshot) identity_fields
  unfolding new_page_snapshot
  identity-rows =
      let is = validate_observation-IsObservation o valid in
      Blocks.identity-Carries snapshot is.observed is.known_platform

  level-rows : All (Carries snapshot) level_field
  unfolding new_page_snapshot
  level-rows =
      Blocks.level-Carries snapshot (validate_observation-IsObservation o valid).known_level

  -- The checks that the platform-free rows rest on.
  abbrev Checked : Type 0
  Checked =
      (validate_capacity o.capacity ≡ ok tt)
      × (is_some (optional_signal o.admit_reason_signal) ≡ true)
      × (is_some (evict_deadline_word o.evict_deadline) ≡ true)
      × KillModeWords o.kill_mode
      × IsNonNegative o.recommendation.safe_additional_bytes
      × (is_some (optional_signal o.recommendation.basis) ≡ true)
      × (if_set o.darwin validate_darwin ≡ ok tt)
      × (if_set o.linux validate_linux ≡ ok tt)

  checked : Checked
  unfolding validate_observation
  checked =
      let (
        observed,
        (
          generation,
          (
            platform,
            (
              blocks,
              (
                block,
                (
                  level,
                  (
                    reason,
                    (
                      admits,
                      (
                        deadline,
                        (
                          capacity,
                          (
                            few,
                            (
                              signals,
                              (
                                safe,
                                (
                                  basis,
                                  (
                                    kill,
                                    (
                                      would,
                                      (
                                        bands,
                                        (
                                          counters,
                                          (policy, (force, (agrees, (darwin, (linux, end))))),
                                        ),
                                      ),
                                    ),
                                  ),
                                ),
                              ),
                            ),
                          ),
                        ),
                      ),
                    ),
                  ),
                ),
              ),
            ),
          ),
        ),
      ) =
        first_error-All (observation_checks o) valid in
      (
        capacity,
        reason-is_some o.admit_reason_signal (
            refuse-eq-ok (unknown_unless_empty signal_valid o.admit_reason_signal) unknown_value
              reason),
        deadline-is_some o.evict_deadline
            (refuse-eq-ok (zero_deadline o.evict_deadline) time_not_set deadline),
        kill_mode-words o.kill_mode kill,
        (check_counts-All (o.recommendation.safe_additional_bytes ∷ []) safe).0,
        reason-is_some o.recommendation.basis (
            refuse-eq-ok (unknown_unless_empty signal_valid o.recommendation.basis) unknown_value
              basis),
        darwin,
        linux,
      )

  capacity-rows : All (Carries snapshot) capacity_fields
  unfolding new_page_snapshot
  capacity-rows =
      let (a, (b, (c, (d, (e, (f, (g, (h, rest)))))))) = capacity-counts o.capacity checked.0 in
      Blocks.capacity-Carries snapshot (a, (b, (c, (d, (e, (f, (g, (h, tt))))))))

  minor1-rows : All (Carries snapshot) minor1_fields
  unfolding new_page_snapshot
  minor1-rows =
      let (a, (b, (c, (d, (e, (f, (g, (h, (i, (j, (k, z))))))))))) =
        capacity-counts o.capacity checked.0 in
      Blocks.minor1-Carries snapshot (i, (j, (k, tt)))

  action-rows : All (Carries snapshot) action_fields
  unfolding new_page_snapshot
  action-rows =
      let (capacity, reason, deadline, (mode, episodes, why), safe, basis, darwin, linux) =
        checked in
      Blocks.action-Carries snapshot reason deadline mode episodes why safe basis

  darwin-rows : All (Carries snapshot) darwin_fields
  unfolding new_page_snapshot
  darwin-rows = Blocks.darwin-Carries snapshot (validate_darwin-DarwinValues o.darwin checked.6)

  psi_line-rows :
      (resource : LinuxPsi → Option PsiResource) (line : PsiResource → Option PsiLine)
      → LineValues (((o.linux >>= λ l. l.psi) >>= resource) >>= line)
      → Blocks.LineIsSet snapshot resource line
  unfolding new_page_snapshot
  psi_line-rows resource line (a, (b, (c, z))) = (
    regroup o.linux resource line (λ v. v.avg10_permille) a,
    (
      regroup o.linux resource line (λ v. v.avg60_permille) b,
      (regroup o.linux resource line (λ v. v.total_us) c, tt),
    ),
  )

  psi_resource-rows :
      (resource : LinuxPsi → Option PsiResource)
      → ResourceValues ((o.linux >>= λ l. l.psi) >>= resource)
      → Blocks.ResourceIsSet snapshot resource
  psi_resource-rows resource (a, b) =
      (psi_line-rows resource (λ r. r.some_line) a, psi_line-rows resource (λ r. r.full_line) b)

  psi-rows : All (Carries snapshot) psi_fields
  psi-rows =
      let (cpu, memory, io) = (validate_linux-values o.linux checked.7).0 in
      Blocks.psi-Carries snapshot (psi_resource-rows (λ p. p.cpu) cpu)
        (psi_resource-rows (λ p. p.memory) memory) (psi_resource-rows (λ p. p.io) io)

  event :
      (value : LinuxMemoryEvents → Option ℤ)
      → IsNonNegative ((o.linux >>= λ l. l.memory_events) >>= value)
      → IsNonNegative (o.linux >>= λ l. l.memory_events >>= value)
  event value = subst IsNonNegative (bind_assoc o.linux (λ l. l.memory_events) value)

  memory_event-rows : All (Carries snapshot) memory_event_fields
  unfolding new_page_snapshot
  memory_event-rows =
      let (a, (b, (c, (d, z)))) = (validate_linux-values o.linux checked.7).1 in
      Blocks.memory_event-Carries snapshot (
        event (λ e. e.high) a,
        (event (λ e. e.max) b, (event (λ e. e.oom) c, (event (λ e. e.oom_kill) d, tt))),
      )

  signal-rows : All (Carries snapshot) signal_fields
  unfolding new_page_snapshot
  signal-rows = signal_fields-Carries snapshot (validate_observation-IsObservation o valid).signals

  counter-rows : All (Carries snapshot) counter_fields
  unfolding new_page_snapshot
  counter-rows =
      counter_fields-Carries snapshot o.counters refl
        (validate_observation-IsObservation o valid).counters

  from_action : All (Carries snapshot) (action_fields ++ (counter_fields ++ minor1_fields))
  from_action =
      All-append (Carries snapshot) action_fields (counter_fields ++ minor1_fields) action-rows
        (All-append (Carries snapshot) counter_fields minor1_fields counter-rows minor1-rows)

  from_psi : All (Carries snapshot) (
      psi_fields
      ++ (memory_event_fields
          ++ (signal_fields ++ (action_fields ++ (counter_fields ++ minor1_fields)))))
  from_psi =
      All-append (Carries snapshot) psi_fields
        (memory_event_fields
          ++ (signal_fields ++ (action_fields ++ (counter_fields ++ minor1_fields))))
        psi-rows
        (All-append (Carries snapshot) memory_event_fields
          (signal_fields ++ (action_fields ++ (counter_fields ++ minor1_fields))) memory_event-rows
          (All-append (Carries snapshot) signal_fields
            (action_fields ++ (counter_fields ++ minor1_fields)) signal-rows from_action))

  abbrev after_level : List PageField
  after_level =
      darwin_fields
      ++ (psi_fields
          ++ (memory_event_fields
              ++ (signal_fields ++ (action_fields ++ (counter_fields ++ minor1_fields)))))

  pub all_rows : All (Carries snapshot) page_field_specs
  unfolding page_field_specs
  all_rows =
      All-append (Carries snapshot) header_fields
        (identity_fields ++ (capacity_fields ++ (level_field ++ after_level)))
        (Blocks.header-Carries snapshot)
        (All-append (Carries snapshot) identity_fields
          (capacity_fields ++ (level_field ++ after_level)) identity-rows
          (All-append (Carries snapshot) capacity_fields (level_field ++ after_level) capacity-rows
            (All-append (Carries snapshot) level_field after_level level-rows (
              All-append (Carries snapshot) darwin_fields
                (psi_fields
                  ++ (memory_event_fields
                      ++ (signal_fields ++ (action_fields ++ (counter_fields ++ minor1_fields)))))
                darwin-rows from_psi))))
