-- ===== src/Budget/Ladder.antt =====
-- checkLadder of budget/v1alpha1/nodebudgetpolicy.go. An error is its kind; the texts are left out.
use apis.Prelude.{
  ℤ, pos, ◌≡◌, refl, ◌↔◌, Bool, true, false, ◌&&◌, Option, none, some, List, [], ◌∷◌, if◌then◌else◌,
  leb_ℤ, ltb_ℤ, ◌<ℤ◌, ◌≤ℤ◌, get_elem?, zip, All, str_eq, arith,
}
use apis.Prelude.Outcomes.{Outcome, ok, err, ◌>>◌}
use apis.Budget.Vocab.{SignalId, is_descending}

pub data LadderFault : Type 0 where
  negative rung_order release_order no_evict_soft : LadderFault

-- A rung and its release.
abbrev pub Rung : Type 0
Rung = Option ℤ × Option ℤ

-- nonNegative
unfoldable pub non_negative : {E : Type 0} → E → Option ℤ → Outcome E (Unit {0})
non_negative e none = ok tt
non_negative e (some v) = if ltb_ℤ v (pos 0) then err e else ok tt

-- The first loop.
unfoldable pub check_signs : List Rung → Outcome LadderFault (Unit {0})
unfolding non_negative
check_signs [] = ok tt
check_signs ((rung, release) ∷ rest) =
    non_negative negative rung >> (non_negative negative release >> check_signs rest)

-- b does not lie beyond a: not below it on a falling signal, not above it on a rising one.
abbrev pub wrong : Bool → ℤ → ℤ → Bool
wrong desc a b = if desc then leb_ℤ a b else leb_ℤ b a

-- The rungs after rung a.
unfoldable pub check_against : Bool → ℤ → List Rung → Outcome LadderFault (Unit {0})
check_against desc a [] = ok tt
check_against desc a ((none, _) ∷ rest) = check_against desc a rest
check_against desc a ((some b, _) ∷ rest) =
    (if wrong desc a b then err rung_order else ok tt) >> check_against desc a rest

-- The second loop.
unfoldable pub check_rungs : Bool → List Rung → Outcome LadderFault (Unit {0})
unfolding check_against
check_rungs desc [] = ok tt
check_rungs desc ((none, _) ∷ rest) = check_rungs desc rest
check_rungs desc ((some a, _) ∷ rest) = check_against desc a rest >> check_rungs desc rest

-- The third loop: the release lies on the calm side of the rung.
unfoldable pub check_release : Bool → Rung → Outcome LadderFault (Unit {0})
check_release desc (some r, some rel) = if wrong desc rel r then err release_order else ok tt
check_release desc (some r, none) = ok tt
check_release desc (none, _) = ok tt

unfoldable pub check_releases : Bool → List Rung → Outcome LadderFault (Unit {0})
unfolding check_release
check_releases desc [] = ok tt
check_releases desc (rung ∷ rest) = check_release desc rung >> check_releases desc rest

-- Whether evictSoftThreshold, the rung at place 3, is set.
unfoldable pub has_evict_soft : List Rung → Bool
has_evict_soft rungs = elim (get_elem? rungs 3) [ some (some _, _) ↦ true | _ ↦ false ]

-- checkLadder
unfoldable pub check_ladder :
    SignalId → List (Option ℤ) → List (Option ℤ) → Outcome LadderFault (Unit {0})
check_ladder sig rungs releases =
    let desc = is_descending sig in
    let ladder = zip rungs releases in
    check_signs ladder
    >> (check_rungs desc ladder
        >> (check_releases desc ladder
            >> (if str_eq sig "memory.swap" && has_evict_soft ladder
                then err no_evict_soft
                else ok tt)))

-- The value b lies further in the direction of rising pressure than a.
abbrev pub Beyond : Bool → ℤ → ℤ → Type 0
Beyond true a b = b <ℤ a
Beyond false a b = a <ℤ b

abbrev pub IsNonNegative : Option ℤ → Type 0
IsNonNegative none = Unit {0}
IsNonNegative (some v) = pos 0 ≤ℤ v

-- Where both are set, the second lies beyond the first.
abbrev pub BeyondIfSet : Bool → Option ℤ → Option ℤ → Type 0
BeyondIfSet desc (some a) (some b) = Beyond desc a b
BeyondIfSet desc (some a) none = Unit {0}
BeyondIfSet desc none _ = Unit {0}

-- Each pair of an earlier and a later rung.
abbrev pub Rises : Bool → List Rung → Type 0
Rises desc [] = Unit {0}
Rises desc (rung ∷ rest) =
    All (λ (later : Rung). BeyondIfSet desc rung.0 later.0) rest × Rises desc rest

-- The rules of a ladder: no value is negative, every set rung lies beyond every set rung before it,
-- every set rung lies beyond its set release, and memory.swap has no evict-soft rung.
pub record IsLadder (sig : SignalId) (ladder : List Rung) : Type 0 where
  pub signs : All (λ (r : Rung). IsNonNegative r.0 × IsNonNegative r.1) ladder
  pub rises : Rises (is_descending sig) ladder
  pub releases : All (λ (r : Rung). BeyondIfSet (is_descending sig) r.1 r.0) ladder
  pub soft : (str_eq sig "memory.swap" && has_evict_soft ladder) ≡ false

abbrev Passes : Outcome LadderFault (Unit {0}) → Type 0
Passes check = check ≡ ok tt

-- Two checks pass exactly when both do.
both :
    (m k : Outcome LadderFault (Unit {0})) (P Q : Type 0)
    → ((m ≡ ok tt) ↔ P)
    → ((k ≡ ok tt) ↔ Q)
    → (((m >> k) ≡ ok tt) ↔ (P × Q))
both (err e) k P Q f g = (λ h. absurd (cc), λ h. absurd (let fine : err e ≡ ok tt = f.1 h.0 in cc))
both (ok tt) k P Q f g = (λ h. (f.0 refl, g.0 h), λ h. g.1 h.1)

non_negative_iff : (o : Option ℤ) → (non_negative negative o ≡ ok tt) ↔ IsNonNegative o
unfolding non_negative
non_negative_iff none = (λ h. tt, λ h. refl)
non_negative_iff (some v) = ground arith

signs_iff :
    (ladder : List Rung)
    → (check_signs ladder ≡ ok tt)
      ↔ All (λ (r : Rung). IsNonNegative r.0 × IsNonNegative r.1) ladder
unfolding check_signs
signs_iff [] = (λ h. tt, λ h. refl)
signs_iff ((rung, release) ∷ rest) =
    let (to, from) =
      both (non_negative negative rung) (non_negative negative release >> check_signs rest)
        (IsNonNegative rung) (IsNonNegative release × _) (non_negative_iff rung)
        (both (non_negative negative release) (check_signs rest) (IsNonNegative release) _
          (non_negative_iff release) (signs_iff rest)) in
    (λ h. let (a, bc) = to h in ((a, bc.0), bc.1), λ h. from (h.0.0, (h.0.1, h.1)))

Beyond-iff :
    (desc : Bool) (a b : ℤ)
    → Passes (if wrong desc a b then err rung_order else ok tt) ↔ Beyond desc a b
Beyond-iff true a b = ground arith
Beyond-iff false a b = ground arith

against_iff :
    (desc : Bool) (a : ℤ) (rest : List Rung)
    → (check_against desc a rest ≡ ok tt)
      ↔ All (λ (later : Rung). BeyondIfSet desc (some a) later.0) rest
unfolding check_against
against_iff desc a [] = (λ h. tt, λ h. refl)
against_iff desc a ((none, _) ∷ rest) =
    let (to, from) = against_iff desc a rest in (λ h. (tt, to h), λ h. from h.1)
against_iff desc a ((some b, _) ∷ rest) =
    both (if wrong desc a b then err rung_order else ok tt) (check_against desc a rest)
      (Beyond desc a b) _ (Beyond-iff desc a b) (against_iff desc a rest)

-- An unset rung is before nothing.
unset_before :
    (desc : Bool) (rest : List Rung) → All (λ (later : Rung). BeyondIfSet desc none later.0) rest
unset_before desc [] = tt
unset_before desc (_ ∷ rest) = (tt, unset_before desc rest)

rungs_iff :
    (desc : Bool) (ladder : List Rung) → (check_rungs desc ladder ≡ ok tt) ↔ Rises desc ladder
unfolding check_rungs
rungs_iff desc [] = (λ h. tt, λ h. refl)
rungs_iff desc ((none, _) ∷ rest) =
    let (to, from) = rungs_iff desc rest in (λ h. (unset_before desc rest, to h), λ h. from h.1)
rungs_iff desc ((some a, _) ∷ rest) =
    both (check_against desc a rest) (check_rungs desc rest) _ _ (against_iff desc a rest)
      (rungs_iff desc rest)

release_iff : (desc : Bool) (r : Rung) → (check_release desc r ≡ ok tt) ↔ BeyondIfSet desc r.1 r.0
unfolding check_release
release_iff true (some r, some rel) = ground arith
release_iff false (some r, some rel) = ground arith
release_iff desc (some r, none) = (λ h. tt, λ h. refl)
release_iff desc (none, none) = (λ h. tt, λ h. refl)
release_iff desc (none, some rel) = (λ h. tt, λ h. refl)

releases_iff :
    (desc : Bool) (ladder : List Rung)
    → (check_releases desc ladder ≡ ok tt) ↔ All (λ (r : Rung). BeyondIfSet desc r.1 r.0) ladder
unfolding check_releases
releases_iff desc [] = (λ h. tt, λ h. refl)
releases_iff desc (r ∷ rest) =
    both (check_release desc r) (check_releases desc rest) _ _ (release_iff desc r)
      (releases_iff desc rest)

soft_iff : (b : Bool) → Passes (if b then err no_evict_soft else ok tt) ↔ (b ≡ false)
soft_iff b = ground arith

-- checkLadder accepts exactly the ladders that keep the rules: it compares every two set rungs, not
-- the neighbours only.
pub check_ladder_iff :
    (sig : SignalId) (rungs releases : List (Option ℤ))
    → (check_ladder sig rungs releases ≡ ok tt) ↔ IsLadder sig (zip rungs releases)
unfolding check_ladder
check_ladder_iff sig rungs releases =
    let desc = is_descending sig in
    let ladder = zip rungs releases in
    let (to, from) = both (check_signs ladder) _ _ _ (signs_iff ladder) (
      both (check_rungs desc ladder) _ _ _ (rungs_iff desc ladder) (
        both (check_releases desc ladder) _ _ _ (releases_iff desc ladder)
          (soft_iff (str_eq sig "memory.swap" && has_evict_soft ladder)))) in
    (
      λ h.
          let all = to h in
          record { signs = all.0; rises = all.1.0; releases = all.1.1.0; soft = all.1.1.1 },
      λ h. from (h.signs, (h.rises, (h.releases, h.soft))),
    )
