-- ===== src/Page/Carried/Parts.antt =====
-- The kill mode, the capacity and the deadline of an accepted observation (budget/v1alpha1) as words.
use apis.Prelude.{
  ℤ, pos, ◌≡◌, refl, ap, ◌∙◌, subst, true, false, not, Option, none, some, [], ◌∷◌, ◌++◌, String,
  All, is_some, str_eq, arith, and-eq-true, Bool-cases, inl, inr, ltb_ℤ, eqb_ℤ, ◌>>=◌, str_eq_iff,
}
use apis.Prelude.Outcomes.{ok}
use apis.Budget.Vocab.{
  signal_valid, signal_page_code, page_code, kill_mode_codes, kill_mode_reason_codes,
  kill_mode_valid, kill_mode_reason_valid,
}
use apis.Budget.Types.{Time, BudgetCapacity, KillMode, LinuxSignals, LinuxPsi, PsiResource, PsiLine}
use apis.Budget.Ladder.{IsNonNegative}
use apis.Budget.Validate.{
  first_error, unknown_unless_empty, unknown_value, negative_value, zero_deadline,
  is_zero_kill_mode, kill_mode_checks, validate_kill_mode, validate_capacity, capacity_checks,
}
use apis.Budget.Validate.Facts.{refuse-eq-ok, first_error-All, check_counts-All, not-false}
use apis.Page.Fields.Groups.{optional_signal, counted, evict_deadline_word}
use apis.Page.Carried.Words.{or_empty, by_table}
use apis.Page.Carried.Blocks

empty_signal : is_some (optional_signal "") ≡ true
unfolding optional_signal signal_page_code
empty_signal = refl

pub reason-is_some :
    (v : String) → unknown_unless_empty signal_valid v ≡ false → is_some (optional_signal v) ≡ true
reason-is_some v =
    or_empty (λ w. is_some (optional_signal w)) signal_valid v empty_signal
      (Blocks.optional_signal-is_some v)

pub deadline-is_some :
    (t : Option Time) → zero_deadline t ≡ false → is_some (evict_deadline_word t) ≡ true
unfolding evict_deadline_word
deadline-is_some none h = refl
deadline-is_some (some t) h = rw h refl

-- What the rows of the kill mode need of it.
abbrev pub KillModeWords : KillMode → Type 0
KillModeWords k =
    (is_some (page_code kill_mode_codes k.mode "") ≡ true)
    × (is_some (counted k.arming_episodes) ≡ true)
    × (is_some (page_code kill_mode_reason_codes k.reason "unknown") ≡ true)

is_zero_kill_mode-fields :
    (k : KillMode)
    → is_zero_kill_mode k ≡ true
    → (str_eq k.mode "" ≡ true)
      × (eqb_ℤ k.arming_episodes (pos 0) ≡ true)
      × (str_eq k.reason "" ≡ true)
is_zero_kill_mode-fields k h =
    let (a, b) = and-eq-true (str_eq k.mode "") _ h in
    let (c, d) = and-eq-true (not k.armed) _ b in
    let (e, f) = and-eq-true (eqb_ℤ k.arming_episodes (pos 0)) _ d in (a, e, f)

reason_words :
    (v : String)
    → unknown_unless_empty kill_mode_reason_valid v ≡ false
    → is_some (page_code kill_mode_reason_codes v "unknown") ≡ true
unfolding page_code kill_mode_reason_valid
reason_words v =
    or_empty (λ t. is_some (page_code kill_mode_reason_codes t "unknown")) kill_mode_reason_valid v
      refl
      (by_table (λ t. is_some (page_code kill_mode_reason_codes t "unknown")) v
        (kill_mode_reason_codes ++ "unknown" ∷ []) refl)

mode_words :
    (v : String) → kill_mode_valid v ≡ true → is_some (page_code kill_mode_codes v "") ≡ true
unfolding page_code kill_mode_valid
mode_words v = by_table (λ t. is_some (page_code kill_mode_codes t "")) v kill_mode_codes refl

zero-words : (k : KillMode) → is_zero_kill_mode k ≡ true → KillModeWords k
unfolding page_code
zero-words k h =
    let (mode, episodes, reason) = is_zero_kill_mode-fields k h in
    (
      ap (λ v. is_some (page_code kill_mode_codes v "")) ((str_eq_iff k.mode "").0 mode),
      ground (arith, episodes),
      ap (λ v. is_some (page_code kill_mode_reason_codes v "unknown"))
          ((str_eq_iff k.reason "").0 reason),
    )

set-words : (k : KillMode) → first_error (kill_mode_checks k) ≡ ok tt → KillModeWords k
set-words k h =
    let (mode, (episodes, (reason, z))) = first_error-All (kill_mode_checks k) h in
    (
      mode_words k.mode (
          not-false (kill_mode_valid k.mode)
            (refuse-eq-ok (not (kill_mode_valid k.mode)) unknown_value mode)),
      ground (arith, refuse-eq-ok (ltb_ℤ k.arming_episodes (pos 0)) negative_value episodes),
      reason_words k.reason (
          refuse-eq-ok (unknown_unless_empty kill_mode_reason_valid k.reason) unknown_value reason),
    )

pub kill_mode-words : (k : KillMode) → validate_kill_mode k ≡ ok tt → KillModeWords k
unfolding validate_kill_mode
kill_mode-words k h = elim (Bool-cases (is_zero_kill_mode k)) [
  | inl zero_value ↦ zero-words k zero_value
  | inr set ↦ set-words k (rw (set, validate_kill_mode) at h)
]

pub capacity-counts :
    (c : BudgetCapacity)
    → validate_capacity c ≡ ok tt
    → All IsNonNegative (
        c.cpu_capacity_milli ∷ c.cpu_system_reserve_milli ∷ c.mem_capacity_bytes
        ∷ c.mem_system_reserve_bytes ∷ c.mem_eviction_reserve_bytes ∷ c.mem_allocatable_bytes
        ∷ c.swap_total_bytes ∷ c.swap_used_bytes ∷ c.cpu_performance_cores ∷ c.cpu_efficiency_cores
        ∷ c.gpu_count ∷ [])
unfolding validate_capacity
capacity-counts c h =
    check_counts-All
      (c.cpu_capacity_milli ∷ c.cpu_system_reserve_milli ∷ c.mem_capacity_bytes
        ∷ c.mem_system_reserve_bytes ∷ c.mem_eviction_reserve_bytes ∷ c.mem_allocatable_bytes
        ∷ c.swap_total_bytes ∷ c.swap_used_bytes ∷ c.cpu_performance_cores ∷ c.cpu_efficiency_cores
        ∷ c.gpu_count ∷ [])
      (first_error-All (capacity_checks c) h).0

pub bind_assoc :
    {A B C : Type 0} (m : Option A) (f : A → Option B) (g : B → Option C)
    → ((m >>= f) >>= g) ≡ (m >>= λ a. f a >>= g)
bind_assoc none f g = refl
bind_assoc (some a) f g = refl

pub regroup :
    (m : Option LinuxSignals) (resource : LinuxPsi → Option PsiResource)
    (line : PsiResource → Option PsiLine) (value : PsiLine → Option ℤ)
    → IsNonNegative ((((m >>= λ l. l.psi) >>= resource) >>= line) >>= value)
    → IsNonNegative (m >>= λ l. l.psi >>= λ p. resource p >>= λ r. line r >>= value)
regroup m resource line value = subst IsNonNegative (
    bind_assoc ((m >>= λ l. l.psi) >>= resource) line value
    ∙ (bind_assoc (m >>= λ l. l.psi) resource (λ r. line r >>= value)
        ∙ bind_assoc m (λ l. l.psi) (λ p. resource p >>= λ r. line r >>= value)))
