-- ===== src/Budget/Vocab.antt =====
-- budget/v1alpha1/vocab.go and page_codes.go: the wire strings, their sets and their page codes.
pub mod Codes
use apis.Prelude.{
  ℕ, suc, ◌-◌, String, Bool, ◌&&◌, ◌||◌, not, Option, none, some, List, [], ◌∷◌, if◌then◌else◌,
  ◌==◌, ltb, length, any, get_elem?, str_eq, codes, has_suffix,
}

-- The string types of the source. A value of one may be any string; the sets below are the known ones.
abbrev pub SignalId : Type 0
SignalId = String

-- oneOf
unfoldable pub one_of : String → List String → Bool
one_of v want = any (λ w. str_eq v w) want

abbrev pub signal_codes : List String
signal_codes =
    "memory.available" ∷ "memory.compressor" ∷ "memory.swap" ∷ "swapfs.available"
    ∷ "nodefs.available" ∷ "imagefs.available" ∷ "pid.available" ∷ []

-- The position of v in table, from 1 on, or 0; the loops of SignalID.PageCode and pageCode.
unfoldable pub position : String → List String → ℕ → ℕ
position v [] i = 0
position v (w ∷ table) i = if str_eq w v then suc i else position v table (suc i)

-- SignalID.PageCode
unfoldable pub signal_page_code : SignalId → ℕ
unfolding position
signal_page_code s = position s signal_codes 0

-- SignalID.Valid
unfoldable pub signal_valid : SignalId → Bool
unfolding signal_page_code
signal_valid s = not (signal_page_code s == 0)

-- SignalForPageCode
unfoldable pub signal_for_page_code : ℕ → Option SignalId
signal_for_page_code c =
    if c == 0 || ltb (length signal_codes) c then none else get_elem? signal_codes (c - 1)

-- IsDescending
unfoldable pub is_descending : SignalId → Bool
unfolding has_suffix
is_descending s = has_suffix (codes s) (codes ".available")

-- SignalID.Unit
unfoldable pub signal_unit : SignalId → String
unfolding one_of
signal_unit s =
    if str_eq s "memory.compressor"
    then "permille"
    else if str_eq s "pid.available"
    then "count"
    else if one_of s (
        "memory.available" ∷ "memory.swap" ∷ "swapfs.available" ∷ "nodefs.available"
        ∷ "imagefs.available" ∷ [])
    then "bytes"
    else ""

-- The page code tables.
abbrev pub unit_codes : List String
unit_codes = "bytes" ∷ "permille" ∷ "count" ∷ []

abbrev pub level_codes : List String
level_codes = "ok" ∷ "warn" ∷ "critical" ∷ "evicting" ∷ []

abbrev pub band_codes : List String
band_codes = "critical" ∷ "standard" ∷ "batch" ∷ []

abbrev pub platform_codes : List String
platform_codes = "darwin" ∷ "linux" ∷ []

abbrev pub kill_mode_codes : List String
kill_mode_codes = "auto" ∷ "on" ∷ "off" ∷ []

abbrev pub trend_codes : List String
trend_codes = "falling" ∷ "steady" ∷ "rising" ∷ []

abbrev pub limiting_resource_codes : List String
limiting_resource_codes = "memory" ∷ "swapfs" ∷ "nodefs" ∷ "imagefs" ∷ "pid" ∷ "cpu" ∷ []

abbrev pub kill_mode_reason_codes : List String
kill_mode_reason_codes = "cold-start" ∷ "observing" ∷ "armed" ∷ "policy-off" ∷ "disarm-file" ∷ []

-- pageCode: `none` is its false. An empty `unknown` names no unknown value.
unfoldable pub page_code : List String → String → String → Option ℕ
unfolding position
page_code table v unknown =
    if str_eq v "" || not (str_eq unknown "") && str_eq v unknown
    then some 0
    else let i = position v table 0 in if i == 0 then none else some i

-- Level.Valid and its fellows.
unfoldable pub level_valid : String → Bool
unfolding one_of
level_valid l = one_of l level_codes

unfoldable pub platform_valid : String → Bool
unfolding one_of
platform_valid p = one_of p platform_codes

unfoldable pub band_valid : String → Bool
unfolding one_of
band_valid b = one_of b band_codes

unfoldable pub kill_mode_valid : String → Bool
unfolding one_of
kill_mode_valid m = one_of m kill_mode_codes

unfoldable pub trend_valid : String → Bool
unfolding one_of
trend_valid t = one_of t ("falling" ∷ "steady" ∷ "rising" ∷ "unknown" ∷ [])

unfoldable pub limiting_resource_valid : String → Bool
unfolding one_of
limiting_resource_valid r =
    one_of r ("memory" ∷ "swapfs" ∷ "nodefs" ∷ "imagefs" ∷ "pid" ∷ "cpu" ∷ "unknown" ∷ [])

unfoldable pub kill_mode_reason_valid : String → Bool
unfolding one_of
kill_mode_reason_valid r =
    one_of r ("cold-start" ∷ "observing" ∷ "armed" ∷ "policy-off" ∷ "disarm-file" ∷ "unknown" ∷ [])

unfoldable pub would_kill_reason_valid : String → Bool
unfolding one_of
would_kill_reason_valid r = one_of r ("held-pressure" ∷ "memory-floor" ∷ "unknown" ∷ [])

unfoldable pub policy_outcome_valid : String → Bool
unfolding one_of
policy_outcome_valid o = one_of o ("applied" ∷ "rejected" ∷ "clamped" ∷ [])

-- PolicyFields
abbrev pub policy_fields : List String
policy_fields =
    "tier1GraceSeconds" ∷ "tier1HeldSeconds" ∷ "tier1MaxDeliveriesPerHour" ∷ "tier1CooloffSeconds"
    ∷ "reserves.cpuSystemReserveMilli" ∷ "reserves.memSystemReserveBytes"
    ∷ "reserves.memEvictionReserveBytes" ∷ []

unfoldable pub policy_field_valid : String → Bool
unfolding one_of
policy_field_valid f = one_of f policy_fields

unfoldable pub counter_window_valid : String → Bool
unfolding one_of
counter_window_valid w = one_of w ("1h" ∷ "24h" ∷ [])

unfoldable pub counter_reason_valid : String → Bool
unfolding one_of
counter_reason_valid r = one_of r (
    "eviction" ∷ "oom-kill" ∷ "kernel-kill" ∷ "restart" ∷ "mem-high" ∷ "tier1-refused" ∷ "unknown"
    ∷ [])

unfoldable pub writer_shape_valid : String → Bool
unfolding one_of
writer_shape_valid w = one_of w ("annotation-relay" ∷ "own-node" ∷ [])

-- ConditionReasons: `none` is its nil.
unfoldable pub condition_reasons : String → String → Option (List String)
condition_reasons type status =
    if str_eq type "Reporting" && str_eq status "True"
    then some ("NodeReporting" ∷ [])
    else if str_eq type "Reporting" && str_eq status "False"
    then some (
        "NodeNotReporting" ∷ "AnnotationMalformed" ∷ "SchemaUnsupported" ∷ "AnnotationTooLarge"
        ∷ [])
    else if str_eq type "PolicyRejected" && str_eq status "True"
    then some ("PolicyInvalid" ∷ "MergedLadderInverted" ∷ [])
    else if str_eq type "PolicyRejected" && str_eq status "False"
    then some ("PolicyAccepted" ∷ [])
    else if str_eq type "PolicyClamped" && str_eq status "True"
    then some ("FieldsClamped" ∷ [])
    else if str_eq type "PolicyClamped" && str_eq status "False"
    then some ("NoFieldsClamped" ∷ [])
    else if str_eq type "PolicyConflict" && str_eq status "True"
    then some ("MultiplePolicies" ∷ [])
    else if str_eq type "PolicyConflict" && str_eq status "False"
    then some ("SinglePolicy" ∷ [])
    else none

abbrev pub condition_types : List String
condition_types = "Reporting" ∷ "PolicyRejected" ∷ "PolicyClamped" ∷ "PolicyConflict" ∷ []

-- decodeOpenEnum, from the string that json.Unmarshal reads; `none` is its error.
unfoldable pub decode_open_enum : (String → Bool) → String → Option String → Option String
decode_open_enum valid unknown none = none
decode_open_enum valid unknown (some s) =
    some (if not (str_eq s "") && not (valid s) then unknown else s)

unfoldable pub unmarshal_trend : Option String → Option String
unmarshal_trend = decode_open_enum trend_valid "unknown"

unfoldable pub unmarshal_limiting_resource : Option String → Option String
unmarshal_limiting_resource = decode_open_enum limiting_resource_valid "unknown"

unfoldable pub unmarshal_kill_mode_reason : Option String → Option String
unmarshal_kill_mode_reason = decode_open_enum kill_mode_reason_valid "unknown"

unfoldable pub unmarshal_would_kill_reason : Option String → Option String
unmarshal_would_kill_reason = decode_open_enum would_kill_reason_valid "unknown"

unfoldable pub unmarshal_counter_reason : Option String → Option String
unmarshal_counter_reason = decode_open_enum counter_reason_valid "unknown"
